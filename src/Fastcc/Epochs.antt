-- ===== src/Fastcc/Epochs.antt =====
-- The epochs of FastCC (picoquic/fastcc.c): the smallest round trip over the remembered periods.
use fair_queuing_aware_conge.Common.{
  ℕ, ◌/◌, ◌<◌, ◌≤◌, ◌≡◌, refl, ◌⊎◌, inl, inr, Bool, true, false, ◌&&◌, List, [], ◌∷◌, All, ltb,
  if◌then◌else◌, u64_max, arith, add64, Bool-cases,
}
use fair_queuing_aware_conge.Cc.{Doubles}
use fair_queuing_aware_conge.Fastcc.{
  delay_threshold_max, period, delay_threshold_of, roll_periods, FastccState, roll_epoch,
}

-- Zeros apart, the number is the least of the periods, or UINT64_MAX if there is none.
abbrev pub IsBelow : ℕ → ℕ → Type 0
IsBelow low x = (x ≡ 0) ⊎ (low ≤ x)

abbrev pub IsOneOf : ℕ → List ℕ → Type 0
IsOneOf low [] = low ≡ u64_max
IsOneOf low (x ∷ xs) = ((low ≡ x) × (0 < x)) ⊎ IsOneOf low xs

abbrev pub IsLeast : ℕ → List ℕ → Type 0
IsLeast low xs = All (IsBelow low) xs × IsOneOf low xs

-- The delay threshold is an eighth of the smallest round trip, and at most 25 ms.
pub delay_threshold-bound :
    (rtt_min : ℕ)
    → (delay_threshold_of rtt_min ≤ delay_threshold_max)
      × (delay_threshold_of rtt_min ≤ rtt_min / 8)
unfolding delay_threshold_of
delay_threshold-bound rtt_min = (ground arith, ground arith)

IsBelow-weaken : (x low : ℕ) (xs : List ℕ) → x ≤ low → All (IsBelow low) xs → All (IsBelow x) xs
IsBelow-weaken x low [] le h = tt
IsBelow-weaken x low (y ∷ ys) le (inl z, h) = (inl z, IsBelow-weaken x low ys le h)
IsBelow-weaken x low (y ∷ ys) le (inr b, h) = (inr (omega arith), IsBelow-weaken x low ys le h)

-- One more period.
IsLeast-choice :
    (c : Bool) (x low : ℕ) (xs : List ℕ)
    → (ltb 0 x && ltb x low) ≡ c
    → IsLeast low xs
    → IsLeast (if c then x else low) (x ∷ xs)
IsLeast-choice true x low xs new (below, one) = (
  (inr (omega arith), IsBelow-weaken x low xs (ground (arith, new)) below),
  inl (refl, ground (arith, new)),
)
IsLeast-choice false x low xs old (below, one) = elim (Bool-cases (ltb 0 x)) [
  | inl some_time ↦ ((inr (ground (arith, old, some_time)), below), inr one)
  | inr no_time ↦ ((inl (ground (arith, no_time)), below), inr one)
]

IsLeast-cons :
    (x low : ℕ) (xs : List ℕ)
    → IsLeast low xs
    → IsLeast (if ltb 0 x && ltb x low then x else low) (x ∷ xs)
IsLeast-cons x low xs h = IsLeast-choice (ltb 0 x && ltb x low) x low xs refl h

module _ (d : Doubles) where
  open d use {Double}

  -- At the end of an epoch the array of six periods moves on by one, and the period that has ended comes to
  -- the front; the smallest round trip becomes the least one of the five periods that stood at the front
  -- before, zeros apart, without the period that has ended, and UINT64_MAX if there is none. The delay
  -- threshold is at most 25 ms and an eighth of it.
  pub roll_epoch-IsLeast :
      (s : FastccState Double) (now a b c e f g : ℕ)
      → s.last_rtt_min ≡ a ∷ (b ∷ (c ∷ (e ∷ (f ∷ (g ∷ [])))))
      → s.end_of_epoch < now
      → let s' = roll_epoch d s now in
        (s'.last_rtt_min ≡ s.rolling_rtt_min ∷ (a ∷ (b ∷ (c ∷ (e ∷ (f ∷ []))))))
        × IsLeast s'.rtt_min (a ∷ (b ∷ (c ∷ (e ∷ (f ∷ [])))))
        × (s'.delay_threshold ≤ delay_threshold_max)
        × (s'.delay_threshold ≤ s'.rtt_min / 8)
        × (s'.end_of_epoch ≡ add64 now period)
  unfolding roll_epoch roll_periods
  roll_epoch-IsLeast s now a b c e f g six over =
      let ended : ltb s.end_of_epoch now ≡ true = ground (arith, over) in
      let five = IsLeast-cons f u64_max [] (tt, refl) in
      let four = IsLeast-cons e _ (f ∷ []) five in
      let three = IsLeast-cons c _ (e ∷ (f ∷ [])) four in
      let two = IsLeast-cons b _ (c ∷ (e ∷ (f ∷ []))) three in
      let one = IsLeast-cons a _ (b ∷ (c ∷ (e ∷ (f ∷ [])))) two in
      rw (ended, six) (refl, one, (delay_threshold-bound _).0, (delay_threshold-bound _).1, refl)
