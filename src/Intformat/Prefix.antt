-- ===== src/Intformat/Prefix.antt =====
-- What the decoder of intformat.c does on any bytes: the value that it reads, and its answer on
-- input that is too short.
use fair_queuing_aware_conge.Common.{
  ℕ, zero, suc, ◌+◌, ◌-◌, ◌*◌, ◌/◌, ◌%◌, ◌^◌, ◌≤◌, ◌<◌, ◌≡◌, refl, ap, ◌∙◌, List, [], ◌∷◌, ◌++◌,
  arith, length, length-append, All, IsU64, take, add64, mul64,
}
use fair_queuing_aware_conge.Common.Bits.{bit_and-top_two}
use fair_queuing_aware_conge.Intformat.{
  IsByte, decode_varint_length, varint_encode, varint_decode, decode_loop, varint_skip,
}
use native.Mathlib.Nat.{pow-suc, le_trans, mul-le-mul_right}
use fair_queuing_aware_conge.Intformat.Varint.{first_56, first_24, first_8, varint_decode_class}

-- The bytes behind `acc`, most significant first, as one number.
abbrev pub big_endian : ℕ → List ℕ → ℕ
big_endian acc [] = acc
big_endian acc (b ∷ bs) = big_endian (acc * 256 + b) bs

room_step :
    (k v b : ℕ) → b < 256 → (v + 1) * 256 ^ suc k ≤ 2 ^ 62 → (v * 256 + b + 1) * 256 ^ k ≤ 2 ^ 62
room_step k v b hb fits =
    let below : v * 256 + b + 1 ≤ (v + 1) * 256 = omega arith in
    let fits_at : (v + 1) * 256 * 256 ^ k ≤ 2 ^ 62 =
      omega (arith, ap (λ (t : ℕ). (v + 1) * t) (pow-suc 256 k)) in
    le_trans (mul-le-mul_right (256 ^ k) below) fits_at

pow-pos : (k : ℕ) → 0 < 256 ^ k
pow-pos zero = omega arith
pow-pos (suc k) = grind (arith, pow-suc 256 k, pow-pos k)

no_wrap : (k v b : ℕ) → (v * 256 + b + 1) * 256 ^ k ≤ 2 ^ 62 → add64 (mul64 v 256) b ≡ v * 256 + b
no_wrap k v b fits = let small : v * 256 + b + 1 ≤ 2 ^ 62 = grind (arith, pow-pos k) in omega arith

-- The loop never wraps while the final value stays below 2 ^ 62.
decode_loop-big_endian :
    (k : ℕ) (bs : List ℕ) (v : ℕ)
    → All IsByte bs
    → k ≤ length bs
    → (v + 1) * 256 ^ k ≤ 2 ^ 62
    → (decode_loop k bs v ≡ big_endian v (take k bs)) × (big_endian v (take k bs) < 2 ^ 62)
unfolding decode_loop
decode_loop-big_endian zero bs v h l fits = (refl, omega arith)
decode_loop-big_endian (suc k) [] v h l fits = absurd (omega arith)
decode_loop-big_endian (suc k) (b ∷ bs) v (hb, h) l fits =
    let room = room_step k v b hb fits in
    rw (no_wrap k v b room) (decode_loop-big_endian k bs (v * 256 + b) h (omega arith) room)

-- The class of the first byte of an encoding is the number of bytes of the encoding.
varint_encode-class :
    (max_bytes n b : ℕ) (bs : List ℕ)
    → IsU64 n
    → varint_encode max_bytes n ≡ b ∷ bs
    → (2 ^ (b / 64) ≡ length (b ∷ bs)) × (b < 256)
unfolding varint_encode
varint_encode-class max_bytes n b bs h e = ground (arith, first_56 n h, first_24 n, first_8 n)

-- A non-empty encoding announces its own length in its first byte: `picoquic_varint_skip` steps
-- over exactly what the encoder wrote.
pub varint_skip-varint_encode :
    (max_bytes n b : ℕ) (bs : List ℕ)
    → IsU64 n
    → varint_encode max_bytes n ≡ b ∷ bs
    → varint_skip b ≡ length (varint_encode max_bytes n)
unfolding varint_skip decode_varint_length
varint_skip-varint_encode max_bytes n b bs h e =
    let (class, byte) = varint_encode-class max_bytes n b bs h e in
    let shifted : b / 64 * 64 / 64 ≡ b / 64 = omega arith in
    rw (bit_and-top_two b byte, shifted, e) class

-- Short input is refused: a non-empty input with fewer bytes than its first byte announces gives
-- length 0 and value 0, as the empty input does.
pub varint_decode_short :
    (b : ℕ) (bs : List ℕ)
    → b < 256
    → length (b ∷ bs) < 2 ^ (b / 64)
    → varint_decode (b ∷ bs) ≡ (0, 0)
unfolding varint_decode
varint_decode_short b bs hb short =
    let shifted : b / 64 * 64 / 64 ≡ b / 64 = omega arith in
    rw (bit_and-top_two b hb, shifted) (ground arith)

-- Every proper prefix of the encoding of a number of 64 bits decodes to length 0, which is how the
-- callers see a truncated input.
pub varint_decode_truncated :
    (max_bytes n x : ℕ) (front back : List ℕ)
    → IsU64 n
    → varint_encode max_bytes n ≡ front ++ (x ∷ back)
    → varint_decode front ≡ (0, 0)
unfolding varint_decode
varint_decode_truncated max_bytes n x [] back h e = refl
varint_decode_truncated max_bytes n x (b ∷ bs) back h e =
    let (class, byte) = varint_encode-class max_bytes n b (bs ++ (x ∷ back)) h e in
    varint_decode_short b bs byte (omega (arith, class, length-append {0} bs (x ∷ back)))

class_fits : (k v : ℕ) → v < 64 → k < 4 → (v + 1) * 256 ^ (2 ^ k - 1) ≤ 2 ^ 62
class_fits zero v h four = omega arith
class_fits (suc zero) v h four = omega arith
class_fits (suc (suc zero)) v h four = omega arith
class_fits (suc (suc (suc zero))) v h four = omega arith
class_fits (suc (suc (suc (suc k)))) v h four = absurd (omega arith)

-- On bytes of which there are as many as the two top bits of the first one, `b`, ask for, `2 ^ (b / 64)`,
-- the decoder takes these bytes and reads the big-endian number behind the two bits, which is below 2 ^ 62.
pub varint_decode-big_endian :
    (b : ℕ) (bs : List ℕ)
    → All IsByte (b ∷ bs)
    → 2 ^ (b / 64) ≤ length (b ∷ bs)
    → (varint_decode (b ∷ bs) ≡ (2 ^ (b / 64), big_endian (b % 64) (take (2 ^ (b / 64) - 1) bs)))
      × (big_endian (b % 64) (take (2 ^ (b / 64) - 1) bs) < 2 ^ 62)
varint_decode-big_endian b bs (hb, h) fits =
    let four : b / 64 < 4 = omega arith in
    let (loop, bound) =
      decode_loop-big_endian (2 ^ (b / 64) - 1) bs (b % 64) h (omega arith)
        (class_fits (b / 64) (b % 64) (omega arith) four) in
    (varint_decode_class (b / 64) b bs hb refl fits ∙ rw loop, bound)
