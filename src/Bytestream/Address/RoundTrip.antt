-- ===== src/Bytestream/Address/RoundTrip.antt =====
-- What picoquic/bytestream.c writes of an address is read back after a reset.
use fair_queuing_aware_conge.Common.{
  ℕ, ◌+◌, ◌*◌, ◌%◌, ◌^◌, ◌≤◌, ◌<◌, ◌≡◌, refl, ap, ◌∙◌, Bool, true, false, List, [], ◌∷◌, ◌++◌,
  arith, bit_or, length, length-append, append_assoc, length-drop, take, drop, ltb, ◌==◌,
  if◌then◌else◌, le→leb,
}
use fair_queuing_aware_conge.Common.Masks.{bit_or-side}
use fair_queuing_aware_conge.Intformat.{byte_at, format_16, encode_varint_length, varint_encode}
use fair_queuing_aware_conge.Intformat.Varint.{length-varint_encode}
use fair_queuing_aware_conge.Bytestream.{
  Bytestream, bytestream_reset, bytestream_skip, advance, store, bytewrite_int16, byteread_int16,
  byteskip_addr,
}
use fair_queuing_aware_conge.Bytestream.RoundTrip.{
  ahead, behind, advance_over, read_vint, read_buffer, write_vint, write_buffer,
}
use fair_queuing_aware_conge.Bytestream.Address.{
  SocketAddress, address_size, bytewrite_addr, byteread_addr, IsAddress,
}

take-length : (xs : List ℕ) → take (length xs) xs ≡ xs
take-length [] = refl
take-length (x ∷ xs) = ap (λ zs. x ∷ zs) (take-length xs)

write_int16 :
    (s : Bytestream) (n : ℕ)
    → 2 ≤ length s.rest
    → bytewrite_int16 s n ≡ (store s (format_16 n), true)
unfolding bytewrite_int16
write_int16 s n fits = let enough : ltb (length s.rest) 2 ≡ false = ground arith in rw enough refl

read_int16 :
    (front rest : List ℕ) (n old : ℕ)
    → n < 2 ^ 16
    → byteread_int16 (ahead front (format_16 n) rest) old
      ≡ (behind front (format_16 n) rest, true, n)
unfolding byteread_int16 format_16 advance
read_int16 front rest n old h =
    let enough : ltb (length (format_16 n ++ rest)) 2 ≡ false =
      ground (arith, length-append (format_16 n) rest) in
    let value : bit_or (byte_at n 8 * 2 ^ 8) (byte_at n 0) ≡ n =
      omega (arith, h, bit_or-side 8 (byte_at n 8) (byte_at n 0) (omega arith)) in
    rw (enough, value) refl

skip_size : (c : Bool) → (if c then 4 + 2 else 16 + 2) ≡ address_size c + 2
skip_size true = refl
skip_size false = refl

module _ (af_inet af_inet6 : ℕ) where
  -- The bytes of an address.
  abbrev address_bytes : List ℕ → SocketAddress → List ℕ
  address_bytes vint addr = (vint ++ addr.address) ++ format_16 addr.port

  -- What is left of the room.
  abbrev room_left : List ℕ → SocketAddress → List ℕ
  room_left room addr =
      let vint = varint_encode (length room) addr.family in
      drop 2 (drop (length addr.address) (drop (length vint) room))

  write_address :
      (room : List ℕ) (addr : SocketAddress)
      → IsAddress af_inet af_inet6 addr
      → encode_varint_length addr.family + length addr.address + 2 ≤ length room
      → bytewrite_addr af_inet (record { front = []; rest = room }) addr ≡ (
        record {
          front = address_bytes (varint_encode (length room) addr.family) addr;
          rest = room_left room addr;
        },
        true,
      )
  unfolding bytewrite_addr store format_16
  write_address room addr (same, small, size, port) fits =
      let s : Bytestream = record { front = []; rest = room } in
      let vint = varint_encode (length room) addr.family in
      let len : length vint ≡ encode_varint_length addr.family =
        length-varint_encode (length room) addr.family
        ∙ rw (le→leb (encode_varint_length addr.family) (length room) (omega arith)) refl in
      let all : take (address_size (addr.family == af_inet)) addr.address ≡ addr.address =
        rw (← size) (take-length addr.address) in
      let behind_vint = length-drop (length vint) room in
      let more : length addr.address ≤ length (drop (length vint) room) =
        omega (arith, behind_vint, fits, len) in
      let behind_address = length-drop (length addr.address) (drop (length vint) room) in
      let last : 2 ≤ length (drop (length addr.address) (drop (length vint) room)) =
        omega (arith, behind_address, behind_vint, fits, len) in
      rw
        (
          write_vint s addr.family (omega (arith, fits)),
          all,
          write_buffer (store s vint) addr.address more,
          write_int16 (store (store s vint) addr.address) addr.port last,
        )
        refl

  read_address :
      (room : ℕ) (left : List ℕ) (addr old : SocketAddress)
      → IsAddress af_inet af_inet6 addr
      → encode_varint_length addr.family ≤ room
      → let bytes = address_bytes (varint_encode room addr.family) addr in
        byteread_addr af_inet af_inet6 (ahead [] bytes left) old
        ≡ (behind [] bytes left, true, addr)
  unfolding byteread_addr
  read_address room left addr old (same, small, size, port) fits =
      let vint = varint_encode room addr.family in
      let last = format_16 addr.port in
      let exact : addr.family % 4611686018427387904 ≡ addr.family = omega (arith, small) in
      rw
        (
          append_assoc (vint ++ addr.address) last left,
          append_assoc vint addr.address (last ++ left),
          read_vint [] (addr.address ++ (last ++ left)) room addr.family 0 (omega (arith, small))
              fits,
          exact,
          ← size,
          read_buffer vint addr.address (last ++ left) old.address,
          read_int16 (vint ++ addr.address) left addr.port old.port port,
          ← same,
        )
        refl

  skip_over :
      (front bytes rest : List ℕ)
      → bytestream_skip (ahead front bytes rest) (length bytes) ≡ (behind front bytes rest, true)
  unfolding bytestream_skip
  skip_over front bytes rest =
      let enough : ltb (length (bytes ++ rest)) (length bytes) ≡ false =
        ground (arith, length-append bytes rest) in
      rw (enough, advance_over front bytes rest) refl

  skip_address :
      (room : ℕ) (left : List ℕ) (addr : SocketAddress)
      → IsAddress af_inet af_inet6 addr
      → encode_varint_length addr.family ≤ room
      → let bytes = address_bytes (varint_encode room addr.family) addr in
        byteskip_addr af_inet (ahead [] bytes left) ≡ (behind [] bytes left, true)
  unfolding byteskip_addr
  skip_address room left addr (same, small, size, port) fits =
      let vint = varint_encode room addr.family in
      let last = format_16 addr.port in
      let exact : addr.family % 4611686018427387904 ≡ addr.family = omega (arith, small) in
      let two : length last ≡ 2 = unfold format_16 in refl in
      let count : (if addr.family == af_inet then 4 + 2 else 16 + 2)
          ≡ length (addr.address ++ last) =
        omega
          (arith, skip_size (addr.family == af_inet), size, length-append addr.address last, two) in
      rw
        (
          append_assoc (vint ++ addr.address) last left,
          append_assoc vint addr.address (last ++ left),
          read_vint [] (addr.address ++ (last ++ left)) room addr.family 0 (omega (arith, small))
              fits,
          exact,
          count,
          ← append_assoc addr.address last left,
          skip_over vint (addr.address ++ last) left,
          append_assoc vint addr.address last,
        )
        refl

  -- An address of one of the two families that is written at the start of a stream with room for it is
  -- read back after a reset, and skipping it ends at the same place.
  pub byteread_addr-bytewrite_addr :
      (room : List ℕ) (addr old : SocketAddress)
      → IsAddress af_inet af_inet6 addr
      → encode_varint_length addr.family + length addr.address + 2 ≤ length room
      → let s : Bytestream = record { front = []; rest = room } in
        let written = bytewrite_addr af_inet s addr in
        (written.1 ≡ true)
        × (byteread_addr af_inet af_inet6 (bytestream_reset written.0) old
            ≡ (written.0, true, addr))
        × (byteskip_addr af_inet (bytestream_reset written.0) ≡ (written.0, true))
  unfolding bytestream_reset
  byteread_addr-bytewrite_addr room addr old h fits =
      let short : encode_varint_length addr.family ≤ length room = omega (arith, fits) in
      rw (write_address room addr h fits) (
        refl,
        read_address (length room) (room_left room addr) addr old h short,
        skip_address (length room) (room_left room addr) addr h short,
      )
