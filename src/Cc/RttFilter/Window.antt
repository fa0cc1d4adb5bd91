-- ===== src/Cc/RttFilter/Window.antt =====
-- The ring of samples of `picoquic_filter_rtt_min_max`: after each call sample_min and sample_max
-- are the extremes of the samples that the ring holds.
use fair_queuing_aware_conge.Common.{
  ℕ, zero, suc, ◌+◌, ◌-◌, ◌≤◌, ◌<◌, ◌≡◌, refl, sym, ◌∙◌, ap, Bool, ◌||◌, List, [], ◌∷◌, arith, min,
  max, length, length-set, ltb, leb, if◌then◌else◌, get_or, set, take, drop,
}
use fair_queuing_aware_conge.Cc.RttFilter.{MinMaxRtt, scan, filter_rtt_min_max, min_max_rtt_scope}

abbrev least : ℕ → List ℕ → ℕ
least m [] = m
least m (x ∷ xs) = least (min m x) xs

abbrev greatest : ℕ → List ℕ → ℕ
greatest m [] = m
greatest m (x ∷ xs) = greatest (max m x) xs

-- The smallest and the largest element of a list, 0 for the empty list.
abbrev pub smallest : List ℕ → ℕ
smallest [] = 0
smallest (x ∷ xs) = least x xs

abbrev pub largest : List ℕ → ℕ
largest [] = 0
largest (x ∷ xs) = greatest x xs

module _ {D : Type 0} where
  -- The array has its seven places, and the next one to write is one of them.
  abbrev pub IsRing : MinMaxRtt D → Type 0
  IsRing f = (length f.samples ≡ min_max_rtt_scope) × (f.sample_current < min_max_rtt_scope)

  -- The samples that were written since the start.
  abbrev pub window : MinMaxRtt D → List ℕ
  window f = take (if f.is_init then min_max_rtt_scope else f.sample_current) f.samples

scan-extremes : (xs : List ℕ) (lo hi : ℕ) → lo ≤ hi → scan xs lo hi ≡ (least lo xs, greatest hi xs)
unfolding scan
scan-extremes [] lo hi h = refl
scan-extremes (x ∷ xs) lo hi h =
    let low : (if ltb x lo then x else lo) ≡ min lo x = ground arith in
    let high : (if ltb x lo then hi else (if ltb hi x then x else hi)) ≡ max hi x = ground arith in
    rw (low, high) (scan-extremes xs (min lo x) (max hi x) (omega arith))

take-cons :
    (n : ℕ) (xs : List ℕ)
    → 0 < n
    → 0 < length xs
    → take n xs ≡ get_or xs 0 0 ∷ take (n - 1) (drop 1 xs)
take-cons zero xs hn hx = absurd (omega arith)
take-cons (suc n) [] hn hx = absurd (omega arith)
take-cons (suc n) (x ∷ xs) hn hx =
    let e : n ≡ suc n - 1 = omega arith in ap (λ (k : ℕ). x ∷ take k xs) e

scan-window :
    (n : ℕ) (xs : List ℕ)
    → 0 < n
    → 0 < length xs
    → scan (take (n - 1) (drop 1 xs)) (get_or xs 0 0) (get_or xs 0 0)
      ≡ (smallest (take n xs), largest (take n xs))
scan-window n xs hn hx =
    scan-extremes (take (n - 1) (drop 1 xs)) (get_or xs 0 0) (get_or xs 0 0) (omega arith)
    ∙ sym (ap (λ (ys : List ℕ). (smallest ys, largest ys)) (take-cons n xs hn hx))

-- How many samples the loop looks at is how many the new ring holds.
count_eq :
    (init : Bool) (x : ℕ)
    → (if init || leb 7 (x + 1) then 7 else x + 1)
      ≡ (if init || leb 7 (x + 1) then 7 else (if leb 7 (x + 1) then 0 else x + 1))
count_eq init x = ground arith

module _ {D : Type 0} (f : MinMaxRtt D) (rtt : ℕ) (ring : IsRing f) where
  count : ℕ
  count = if f.is_init || leb 7 (f.sample_current + 1) then 7 else f.sample_current + 1

  count-pos : 0 < count
  unfolding count
  count-pos = ground arith

  pairs :
      scan
        (take (count - 1) (drop 1 (set f.samples f.sample_current rtt)))
        (get_or (set f.samples f.sample_current rtt) 0 0)
        (get_or (set f.samples f.sample_current rtt) 0 0)
      ≡ (smallest (window (filter_rtt_min_max f rtt)), largest (window (filter_rtt_min_max f rtt)))
  unfolding filter_rtt_min_max count
  pairs = rw (← count_eq f.is_init f.sample_current) (
      scan-window count (set f.samples f.sample_current rtt) count-pos
        (omega (arith, length-set f.samples f.sample_current rtt)))

  -- After a sample, sample_min is the smallest and sample_max the largest of the samples that the
  -- ring holds, and the ring is still well formed.
  pub filter-extremes :
      IsRing (filter_rtt_min_max f rtt)
      × ((filter_rtt_min_max f rtt).sample_min ≡ smallest (window (filter_rtt_min_max f rtt)))
      × ((filter_rtt_min_max f rtt).sample_max ≡ largest (window (filter_rtt_min_max f rtt)))
  unfolding filter_rtt_min_max count
  filter-extremes = (
    (omega (arith, length-set f.samples f.sample_current rtt), ground arith),
    ap (λ p. p.0) pairs,
    ap (λ p. p.1) pairs,
  )
