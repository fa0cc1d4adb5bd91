-- ===== src/Common/Bits.antt =====
-- Masks on one byte as arithmetic: tables of at most 256 entries, checked by evaluation.
use Prim.Native.Nat.{ℕ, zero, suc, ◌+◌, ◌*◌, ◌/◌, ◌%◌, ◌<◌, bit_and, bit_or, compare, Ordering}
use mathlib.Core.Path.{◌≡◌, refl}
use mathlib.Core.Bool.{Bool, true, false, ◌&&◌}
use native.Mathlib.Omega.{arith}

abbrev same : ℕ → ℕ → Bool
same a b = elim (compare a b) [ Ordering.eq ↦ true | _ ↦ false ]

agree_below : (ℕ → ℕ) → (ℕ → ℕ) → ℕ → Bool
agree_below f g zero = true
agree_below f g (suc n) = same (f n) (g n) && agree_below f g n

agree_below→eq : (f g : ℕ → ℕ) (n : ℕ) → agree_below f g n ≡ true → (i : ℕ) → i < n → f i ≡ g i
unfolding agree_below
agree_below→eq f g zero e i h = absurd (omega arith)
agree_below→eq f g (suc n) e i h = ground (arith, agree_below→eq f g n (ground arith) i)

-- b & 0xC0
pub bit_and-top_two : (b : ℕ) → b < 256 → bit_and b 0xC0 ≡ b / 64 * 64
unfolding agree_below
bit_and-top_two = agree_below→eq _ _ 256 refl

-- b & 0x3F
pub bit_and-low_six : (b : ℕ) → b < 256 → bit_and b 0x3F ≡ b % 64
unfolding agree_below
bit_and-low_six = agree_below→eq _ _ 256 refl

-- b | 0x40, b | 0x80 and b | 0xC0 on six bits
pub bit_or-0x40 : (b : ℕ) → b < 64 → bit_or b 0x40 ≡ b + 64
unfolding agree_below
bit_or-0x40 = agree_below→eq _ _ 64 refl

pub bit_or-0x80 : (b : ℕ) → b < 64 → bit_or b 0x80 ≡ b + 128
unfolding agree_below
bit_or-0x80 = agree_below→eq _ _ 64 refl

pub bit_or-0xC0 : (b : ℕ) → b < 256 → bit_or b 0xC0 ≡ b % 64 + 192
unfolding agree_below
bit_or-0xC0 = agree_below→eq _ _ 256 refl

-- (b | 0x40) & 0x7F
pub bit_or-bit_and-0x7F : (b : ℕ) → b < 256 → bit_and (bit_or b 0x40) 0x7F ≡ b % 64 + 64
unfolding agree_below
bit_or-bit_and-0x7F = agree_below→eq _ _ 256 refl
