-- ===== src/Common/Masks.antt =====
-- `&` with a mask of the high digits and `|` of separate digits, at every width.
use Prim.Native.Nat.{
  ℕ, zero, suc, ◌+◌, ◌-◌, ◌*◌, ◌/◌, ◌%◌, ◌<◌, ◌≤◌, ◌^◌, min, max, digits, bit_and, bit_or,
  bit_and-bitwise, bit_or-bitwise,
}
use mathlib.Core.Path.{◌≡◌, refl, ap}
use native.Mathlib.Nat.{pow-suc, le_refl}
use native.Mathlib.Omega.{arith}

-- How many digits are allowed does not matter, where they are enough.
digits-allowed :
    (past : ℕ → ℕ) (digit : ℕ → ℕ → ℕ) (k l a b : ℕ)
    → a ≤ k
    → a ≤ l
    → digits past digit k a b ≡ digits past digit l a b
digits-allowed past digit zero zero zero b h g = refl
digits-allowed past digit (suc k) zero zero b h g = refl
digits-allowed past digit zero (suc l) zero b h g = refl
digits-allowed past digit (suc k) (suc l) zero b h g = refl
digits-allowed past digit zero l (suc a) b h g = absurd (omega (arith, h))
digits-allowed past digit (suc k) zero (suc a) b h g = absurd (omega (arith, g))
digits-allowed past digit (suc k) (suc l) (suc a) b h g =
    let half =
      digits-allowed past digit k l (suc a / 2) (b / 2) (omega (arith, h)) (omega (arith, g)) in
    ap (λ (t : ℕ). t * 2 + digit (suc a % 2) (b % 2)) half

bit_and-halves : (a b : ℕ) → bit_and a b ≡ bit_and (a / 2) (b / 2) * 2 + min (a % 2) (b % 2)
bit_and-halves zero b = rw (bit_and-bitwise 0 b, bit_and-bitwise 0 (b / 2)) (omega arith)
bit_and-halves (suc a) b =
    let half =
      digits-allowed (λ y. 0) min a (suc a / 2) (suc a / 2) (b / 2) (omega arith) (omega arith) in
    rw (bit_and-bitwise (suc a) b, bit_and-bitwise (suc a / 2) (b / 2))
      (ap (λ (t : ℕ). t * 2 + min (suc a % 2) (b % 2)) half)

bit_or-halves : (a b : ℕ) → bit_or a b ≡ bit_or (a / 2) (b / 2) * 2 + max (a % 2) (b % 2)
bit_or-halves zero b = rw (bit_or-bitwise 0 b, bit_or-bitwise 0 (b / 2)) (omega arith)
bit_or-halves (suc a) b =
    let half =
      digits-allowed (λ y. y) max a (suc a / 2) (suc a / 2) (b / 2) (omega arith) (omega arith) in
    rw (bit_or-bitwise (suc a) b, bit_or-bitwise (suc a / 2) (b / 2))
      (ap (λ (t : ℕ). t * 2 + max (suc a % 2) (b % 2)) half)

double_pow : (q k : ℕ) → q * 2 ^ suc k ≡ q * 2 ^ k * 2
double_pow q k = omega (arith, ap (λ (t : ℕ). q * t) (pow-suc 2 k))

-- The digits above the lowest k of the first number meet those of the second; the second has none below.
pub bit_and-above :
    (k q r m : ℕ) → r < 2 ^ k → bit_and (q * 2 ^ k + r) (m * 2 ^ k) ≡ bit_and q m * 2 ^ k
bit_and-above zero q r m h =
    let first : q * 2 ^ 0 + r ≡ q = omega (arith, h) in
    let second : m * 2 ^ 0 ≡ m = omega arith in rw (first, second) (omega arith)
bit_and-above (suc k) q r m h =
    let below : r / 2 < 2 ^ k = omega (arith, h, pow-suc 2 k) in
    let first : (q * 2 ^ suc k + r) / 2 ≡ q * 2 ^ k + r / 2 = omega (arith, double_pow q k) in
    let second : m * 2 ^ suc k / 2 ≡ m * 2 ^ k = omega (arith, double_pow m k) in
    let last : m * 2 ^ suc k % 2 ≡ 0 = omega (arith, double_pow m k) in
    let none : min ((q * 2 ^ suc k + r) % 2) 0 ≡ 0 = omega arith in
    let halves = bit_and-halves (q * 2 ^ suc k + r) (m * 2 ^ suc k) in
    rw (halves, first, second, last, none, bit_and-above k q (r / 2) m below)
      (omega (arith, double_pow (bit_and q m) k))

-- A mask of k ones keeps what is below 2 ^ k.
pub bit_and-ones : (k q : ℕ) → q < 2 ^ k → bit_and q (2 ^ k - 1) ≡ q
bit_and-ones zero q h =
    let none : q ≡ 0 = omega (arith, h) in rw none (bit_and-bitwise 0 (2 ^ 0 - 1))
bit_and-ones (suc k) q h =
    let below : q / 2 < 2 ^ k = omega (arith, h, pow-suc 2 k) in
    let pos : 0 < 2 ^ k = omega (arith, below) in
    let half : (2 ^ suc k - 1) / 2 ≡ 2 ^ k - 1 = omega (arith, pow-suc 2 k, pos) in
    let last : (2 ^ suc k - 1) % 2 ≡ 1 = omega (arith, pow-suc 2 k, pos) in
    rw (bit_and-halves q (2 ^ suc k - 1), half, last, bit_and-ones k (q / 2) below) (ground arith)

bit_or-none : (k q : ℕ) → q ≤ k → bit_or q 0 ≡ q
bit_or-none zero q h = let none : q ≡ 0 = omega (arith, h) in rw none (bit_or-bitwise 0 0)
bit_or-none (suc k) q h =
    let rest = bit_or-none k (q / 2) (omega (arith, h)) in
    let last : max (q % 2) (0 % 2) ≡ q % 2 = omega arith in
    rw (bit_or-halves q 0, last) (omega (arith, rest))

-- Digits above the lowest k and digits below stand side by side.
pub bit_or-side : (k q r : ℕ) → r < 2 ^ k → bit_or (q * 2 ^ k) r ≡ q * 2 ^ k + r
bit_or-side zero q r h =
    let none : r ≡ 0 = omega (arith, h) in
    let first : q * 2 ^ 0 ≡ q = omega arith in
    rw (none, first, bit_or-none q q (le_refl q)) (omega arith)
bit_or-side (suc k) q r h =
    let below : r / 2 < 2 ^ k = omega (arith, h, pow-suc 2 k) in
    let first : q * 2 ^ suc k / 2 ≡ q * 2 ^ k = omega (arith, double_pow q k) in
    let last : q * 2 ^ suc k % 2 ≡ 0 = omega (arith, double_pow q k) in
    let one : max 0 (r % 2) ≡ r % 2 = omega arith in
    rw (bit_or-halves (q * 2 ^ suc k) r, first, last, one, bit_or-side k q (r / 2) below)
      (omega (arith, double_pow q k))
