-- ===== src/AckFrames/Queue/Ranges.antt =====
-- The packets of a range in a queue of sent packets (picoquic/frames.c), and a range that is lowered.
use fair_queuing_aware_conge.Common.{
  ℕ, suc, ◌+◌, ◌-◌, ◌<◌, ◌≤◌, ◌≡◌, refl, ap, ◌∙◌, Bool, true, false, not, ◌&&◌, List, [], ◌∷◌, All,
  leb, if◌then◌else◌, sub64, IsU64, arith,
}
use fair_queuing_aware_conge.AckFrames.Queue.{SentPacket}

-- Whether a packet is in the range of so many numbers up to the highest.
abbrev pub in_range : ℕ → ℕ → SentPacket → Bool
in_range highest range x = leb (highest + 1 - range) x.sequence && leb x.sequence highest

abbrev pub keep : (SentPacket → Bool) → List SentPacket → List SentPacket
keep test [] = []
keep test (x ∷ xs) = let rest = keep test xs in if test x then x ∷ rest else rest

abbrev pub outside : ℕ → ℕ → SentPacket → Bool
outside highest range x = not (in_range highest range x)

abbrev pub Older : SentPacket → List SentPacket → Type 0
Older p xs = All (λ x. x.sequence < p.sequence) xs

-- The newest packet first
abbrev pub IsQueue : List SentPacket → Type 0
IsQueue [] = Unit
IsQueue (x ∷ xs) = Older x xs × IsQueue xs

-- No packet of the range is a trap.
abbrev pub IsFree : ℕ → ℕ → List SentPacket → Type 0
IsFree highest range xs = All (λ x. (in_range highest range x && x.is_ack_trap) ≡ false) xs

pub All-both {ℓ κ μ} :
    (P : SentPacket → Type ℓ) (Q : SentPacket → Type κ) (R : SentPacket → Type μ)
    (xs : List SentPacket)
    → ((x : SentPacket) → P x → Q x → R x)
    → All P xs
    → All Q xs
    → All R xs
All-both P Q R [] f h k = tt
All-both P Q R (x ∷ xs) f (h, hs) (k, ks) = (f x h k, All-both P Q R xs f hs ks)

pub keep-agree :
    (f g : SentPacket → Bool) (xs : List SentPacket)
    → All (λ x. f x ≡ g x) xs
    → keep f xs ≡ keep g xs
keep-agree f g [] h = refl
keep-agree f g (x ∷ xs) (h, hs) = rw (h, keep-agree f g xs hs) refl

pub keep-none :
    (f : SentPacket → Bool) (xs : List SentPacket) → All (λ x. f x ≡ false) xs → keep f xs ≡ []
keep-none f [] h = refl
keep-none f (x ∷ xs) (h, hs) = rw h (keep-none f xs hs)

pub keep-all :
    (f : SentPacket → Bool) (xs : List SentPacket) → All (λ x. f x ≡ true) xs → keep f xs ≡ xs
keep-all f [] h = refl
keep-all f (x ∷ xs) (h, hs) = rw h (ap (λ ys. x ∷ ys) (keep-all f xs hs))

abbrev pub Below : ℕ → List SentPacket → Type 0
Below highest xs = All (λ x. x.sequence < highest) xs

pub Older-Below :
    (highest : ℕ) (p : SentPacket) (xs : List SentPacket)
    → p.sequence ≤ highest
    → Older p xs
    → Below highest xs
Older-Below highest p xs le older =
    All-both (λ x. x.sequence < p.sequence) (λ x. x.sequence < p.sequence) _ xs
      (λ x a b. omega (arith, le, a)) older older

pub Below-lower :
    (highest : ℕ) (xs : List SentPacket)
    → 0 < highest
    → IsU64 highest
    → Below highest xs
    → All (λ x. x.sequence ≤ sub64 highest 1) xs
Below-lower highest xs pos small below =
    All-both (λ x. x.sequence < highest) (λ x. x.sequence < highest) _ xs
      (λ x a b. omega (arith, pos, small, a)) below below

-- A packet below the highest number is in the lower range exactly if it is in the range.
pub same_range :
    (highest range : ℕ) (xs : List SentPacket)
    → 0 < highest
    → IsU64 highest
    → Below highest xs
    → All (λ x. in_range (sub64 highest 1) range x ≡ in_range highest (suc range) x) xs
same_range highest range xs pos small below =
    All-both (λ x. x.sequence < highest) (λ x. x.sequence < highest) _ xs
      (λ x a b.
        let down : sub64 highest 1 ≡ highest - 1 = omega (arith, pos, small) in
        rw down (ground (arith, pos, a)))
      below below

pub lower-IsFree :
    (highest range : ℕ) (xs : List SentPacket)
    → 0 < highest
    → IsU64 highest
    → Below highest xs
    → IsFree highest (suc range) xs
    → IsFree (sub64 highest 1) range xs
lower-IsFree highest range xs pos small below free =
    All-both (λ x. in_range (sub64 highest 1) range x ≡ in_range highest (suc range) x) _ _ xs
      (λ x same f. ap (λ c. c && x.is_ack_trap) same ∙ f)
      (same_range highest range xs pos small below) free
