-- ===== src/PacketNumber/Window.antt =====
-- Every packet number near the expected one is found again from its low bytes (picoquic/packet.c).
use fair_queuing_aware_conge.Common.{
  ℕ, zero, suc, ◌+◌, ◌-◌, ◌*◌, ◌/◌, ◌%◌, ◌^◌, ◌≡◌, ◌<◌, ◌≤◌, refl, List, [], ◌∷◌, add64, u64_mod,
  arith, ap, sym, ◌∙◌,
}
use Prim.Native.Nat.{bit_and, bit_or}
use native.Mathlib.Nat.{mod-lt, one-le-pow, div-add-mod'}
use fair_queuing_aware_conge.Common.Masks.{bit_and-above, bit_and-ones, bit_or-side}
use fair_queuing_aware_conge.PacketNumber.{
  get_packet_number64, not_mask_plus_one, read_pn, packet_number64,
}

-- The mask of w low zeros.
abbrev high_mask : ℕ → ℕ
high_mask w = (2 ^ (64 - w) - 1) * 2 ^ w

-- A mask of w low zeros takes the remainder by 2 ^ w away.
bit_and-high_mask :
    (w n : ℕ) → n / 2 ^ w < 2 ^ (64 - w) → bit_and n (high_mask w) ≡ n / 2 ^ w * 2 ^ w
bit_and-high_mask w n small =
    let low : n % 2 ^ w < 2 ^ w = mod-lt n (one-le-pow w 2 (omega arith)) in
    let parts = sym (div-add-mod' n (2 ^ w)) in
    ap (λ (t : ℕ). bit_and t (high_mask w)) parts
    ∙ bit_and-above w (n / 2 ^ w) (n % 2 ^ w) (2 ^ (64 - w) - 1) low
    ∙ ap (λ (t : ℕ). t * 2 ^ w) (bit_and-ones (64 - w) (n / 2 ^ w) small)

candidate :
    (w n pn : ℕ)
    → n / 2 ^ w < 2 ^ (64 - w)
    → pn < 2 ^ w
    → bit_or (bit_and n (high_mask w)) pn ≡ n / 2 ^ w * 2 ^ w + pn
candidate w n pn small fits =
    ap (λ (t : ℕ). bit_or t pn) (bit_and-high_mask w n small) ∙ bit_or-side w (n / 2 ^ w) pn fits

one_byte :
    (highest expected full : ℕ)
    → add64 highest 1 ≡ expected
    → expected < 2 ^ 62
    → full < 2 ^ 62
    → expected ≤ full + 2 ^ 7
    → full < expected + 2 ^ 7
    → get_packet_number64 highest (high_mask 8) (full % 2 ^ 8) ≡ full
unfolding get_packet_number64 not_mask_plus_one
one_byte highest expected full next hh hf near far =
    let c = candidate 8 expected (full % 2 ^ 8) (omega (arith, hh)) (omega arith) in
    let m = bit_and-high_mask 8 (expected / 2 ^ 8 * 2 ^ 8 + full % 2 ^ 8) (omega (arith, hh)) in
    rw (next, c, m) (ground (arith, hh, hf, near, far))

two_bytes :
    (highest expected full : ℕ)
    → add64 highest 1 ≡ expected
    → expected < 2 ^ 62
    → full < 2 ^ 62
    → expected ≤ full + 2 ^ 15
    → full < expected + 2 ^ 15
    → get_packet_number64 highest (high_mask 16) (full % 2 ^ 16) ≡ full
unfolding get_packet_number64 not_mask_plus_one
two_bytes highest expected full next hh hf near far =
    let c = candidate 16 expected (full % 2 ^ 16) (omega (arith, hh)) (omega arith) in
    let m = bit_and-high_mask 16 (expected / 2 ^ 16 * 2 ^ 16 + full % 2 ^ 16) (omega (arith, hh)) in
    rw (next, c, m) (ground (arith, hh, hf, near, far))

three_bytes :
    (highest expected full : ℕ)
    → add64 highest 1 ≡ expected
    → expected < 2 ^ 62
    → full < 2 ^ 62
    → expected ≤ full + 2 ^ 23
    → full < expected + 2 ^ 23
    → get_packet_number64 highest (high_mask 24) (full % 2 ^ 24) ≡ full
unfolding get_packet_number64 not_mask_plus_one
three_bytes highest expected full next hh hf near far =
    let c = candidate 24 expected (full % 2 ^ 24) (omega (arith, hh)) (omega arith) in
    let m = bit_and-high_mask 24 (expected / 2 ^ 24 * 2 ^ 24 + full % 2 ^ 24) (omega (arith, hh)) in
    rw (next, c, m) (ground (arith, hh, hf, near, far))

four_bytes :
    (highest expected full : ℕ)
    → add64 highest 1 ≡ expected
    → expected < 2 ^ 62
    → full < 2 ^ 62
    → expected ≤ full + 2 ^ 31
    → full < expected + 2 ^ 31
    → get_packet_number64 highest (high_mask 32) (full % 2 ^ 32) ≡ full
unfolding get_packet_number64 not_mask_plus_one
four_bytes highest expected full next hh hf near far =
    let c = candidate 32 expected (full % 2 ^ 32) (omega (arith, hh)) (omega arith) in
    let m = bit_and-high_mask 32 (expected / 2 ^ 32 * 2 ^ 32 + full % 2 ^ 32) (omega (arith, hh)) in
    rw (next, c, m) (ground (arith, hh, hf, near, far))

-- The lowest l bytes of a number, the highest of them first.
abbrev pub low_bytes : ℕ → ℕ → List ℕ
low_bytes zero full = []
low_bytes (suc l) full = full / 2 ^ (8 * l) % 2 ^ 8 ∷ low_bytes l full

-- Reading the low bytes gives the number that they make, and a mask of as many zeros.
read_one : (full : ℕ) → read_pn 0 (u64_mod - 1) (low_bytes 1 full) ≡ (full % 2 ^ 8, high_mask 8)
unfolding read_pn
read_one full = ap (λ (t : ℕ). (t, high_mask 8)) (omega arith)

read_two : (full : ℕ) → read_pn 0 (u64_mod - 1) (low_bytes 2 full) ≡ (full % 2 ^ 16, high_mask 16)
unfolding read_pn
read_two full = ap (λ (t : ℕ). (t, high_mask 16)) (omega arith)

read_three : (full : ℕ) → read_pn 0 (u64_mod - 1) (low_bytes 3 full) ≡ (full % 2 ^ 24, high_mask 24)
unfolding read_pn
read_three full = ap (λ (t : ℕ). (t, high_mask 24)) (omega arith)

read_four : (full : ℕ) → read_pn 0 (u64_mod - 1) (low_bytes 4 full) ≡ (full % 2 ^ 32, high_mask 32)
unfolding read_pn
read_four full = ap (λ (t : ℕ). (t, high_mask 32)) (omega arith)

-- A packet number of less than 62 bits is found again from its lowest one to four bytes, where it is
-- less than half of their range away from the number behind the highest one that was received, or
-- exactly half below it.
pub packet_number64-low_bytes :
    (l highest full : ℕ)
    → 0 < l
    → l ≤ 4
    → add64 highest 1 < 2 ^ 62
    → full < 2 ^ 62
    → add64 highest 1 ≤ full + 2 ^ (8 * l - 1)
    → full < add64 highest 1 + 2 ^ (8 * l - 1)
    → packet_number64 highest (low_bytes l full) ≡ full
unfolding packet_number64
packet_number64-low_bytes zero highest full pos four hh hf near far = absurd (omega (arith, pos))
packet_number64-low_bytes (suc zero) highest full pos four hh hf near far =
    rw (read_one full) (one_byte highest _ full refl hh hf near far)
packet_number64-low_bytes (suc (suc zero)) highest full pos four hh hf near far =
    rw (read_two full) (two_bytes highest _ full refl hh hf near far)
packet_number64-low_bytes (suc (suc (suc zero))) highest full pos four hh hf near far =
    rw (read_three full) (three_bytes highest _ full refl hh hf near far)
packet_number64-low_bytes (suc (suc (suc (suc zero)))) highest full pos four hh hf near far =
    rw (read_four full) (four_bytes highest _ full refl hh hf near far)
packet_number64-low_bytes (suc (suc (suc (suc (suc l))))) highest full pos four hh hf near far =
    absurd (omega (arith, four))
