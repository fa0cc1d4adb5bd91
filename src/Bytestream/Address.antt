-- ===== src/Bytestream/Address.antt =====
-- The addresses in a stream of picoquic/bytestream.c, how they are written and read. The constants AF_INET and AF_INET6 of the system are parameters.
pub mod RoundTrip
use fair_queuing_aware_conge.Common.{
  ℕ, ◌+◌, ◌*◌, ◌/◌, ◌%◌, ◌^◌, ◌≤◌, ◌<◌, ◌≡◌, ◌⊎◌, inl, inr, refl, ap, sym, ◌∙◌, Bool, true, false,
  ◌&&◌, List, [], ◌∷◌, ◌++◌, arith, bit_or, length, length-append, append_assoc, length-drop, take,
  drop, ltb, leb, ◌==◌, if◌then◌else◌, le→leb, get_or,
}
use mathlib.Core.Path.{subst}
use fair_queuing_aware_conge.Common.Masks.{bit_or-side}
use fair_queuing_aware_conge.Intformat.{byte_at, format_16, encode_varint_length, varint_encode}
use fair_queuing_aware_conge.Intformat.Varint.{length-varint_encode}
use fair_queuing_aware_conge.Bytestream.{
  Bytestream, bytestream_reset, bytestream_skip, advance, store, bytewrite_vint, byteread_vint,
  bytewrite_buffer, byteread_buffer, bytewrite_int16, byteread_int16, byteskip_addr,
}
use fair_queuing_aware_conge.Bytestream.RoundTrip.{
  take-append, ahead, behind, advance_over, read_vint, read_buffer, write_vint, write_buffer,
}

-- A socket address, read as its family says: the bytes of sin_addr or sin6_addr, and the port.
pub record SocketAddress : Type 0 where
  pub family : ℕ
  pub address : List ℕ
  pub port : ℕ

abbrev pub address_size : Bool → ℕ
address_size true = 4
address_size false = 16

module _ (af_inet : ℕ) where
  unfoldable pub bytewrite_addr : Bytestream → SocketAddress → Bytestream × Bool
  bytewrite_addr s addr =
      let size = address_size (addr.family == af_inet) in
      let (t, prefixed) = bytewrite_vint s addr.family in
      let (u, copied) = bytewrite_buffer t (take size addr.address) in
      let (v, written) = bytewrite_int16 u addr.port in (v, prefixed && copied && written)

  -- Whatever is not AF_INET is read as an address of AF_INET6, also where the family is missing.
  unfoldable pub byteread_addr : ℕ → Bytestream → SocketAddress → Bytestream × Bool × SocketAddress
  byteread_addr af_inet6 s old =
      let (t, read, family) = byteread_vint s 0 in
      let is_inet = read && (family == af_inet) in
      let (u, copied, address) = byteread_buffer t old.address (address_size is_inet) in
      let (v, last, port) = byteread_int16 u old.port in
      (
        v,
        read && copied && last,
        record { family = if is_inet then af_inet else af_inet6; address = address; port = port },
      )

  -- The address is of one of the two families, and as long as its family says.
  abbrev pub IsAddress : ℕ → SocketAddress → Type 0
  IsAddress af_inet6 addr =
      (addr.family ≡ (if addr.family == af_inet then af_inet else af_inet6))
      × (addr.family < 2 ^ 16)
      × (length addr.address ≡ address_size (addr.family == af_inet))
      × (addr.port < 2 ^ 16)
