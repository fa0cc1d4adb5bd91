-- ===== src/PacketNumber.antt =====
-- Packet numbers (picoquic/packet.c): the low bytes of the number that a packet carries, and the number
-- of 64 bits that stands for them.
use fair_queuing_aware_conge.Common.{
  ℕ, zero, suc, ◌+◌, ◌-◌, ◌*◌, ◌/◌, ◌%◌, ◌^◌, Bool, true, false, List, [], ◌∷◌, ◌&&◌, ltb, leb,
  if◌then◌else◌, add64, sub64, u64_mod,
}
use Prim.Native.Nat.{bit_and, bit_or}
pub mod Receive
mod Window
mod Packets
mod Held
mod Arrivals
mod Examples

-- picoquic_get_packet_number64; pn has 32 bits.
unfoldable pub not_mask_plus_one : ℕ → ℕ
not_mask_plus_one mask = add64 (u64_mod - 1 - mask) 1

unfoldable pub get_packet_number64 : ℕ → ℕ → ℕ → ℕ
get_packet_number64 highest mask pn =
    let expected = add64 highest 1 in
    let span = not_mask_plus_one mask in
    let pn64 = bit_or (bit_and expected mask) pn in
    if ltb pn64 expected
    then (if ltb (sub64 span (sub64 expected pn64)) (sub64 expected pn64)
        then add64 pn64 span
        else pn64)
    else (if leb (sub64 span (sub64 pn64 expected)) (sub64 pn64 expected)
          && ltb 0 (bit_and pn64 mask)
        then sub64 pn64 span
        else pn64)

-- The loop of picoquic_remove_header_protection over the bytes of the number, whose protection is
-- removed: the number of 32 bits and its mask.
unfoldable pub read_pn : ℕ → ℕ → List ℕ → ℕ × ℕ
read_pn pn_val pnmask [] = (pn_val, pnmask)
read_pn pn_val pnmask (b ∷ bs) =
    read_pn ((pn_val * 2 ^ 8 % 2 ^ 32 + b) % 2 ^ 32) (pnmask * 2 ^ 8 % u64_mod) bs

-- The number of 64 bits behind the highest one that was received.
unfoldable pub packet_number64 : ℕ → List ℕ → ℕ
packet_number64 highest bytes =
    let (pn, mask) = read_pn 0 (u64_mod - 1) bytes in get_packet_number64 highest mask pn
