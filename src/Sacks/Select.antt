-- ===== src/Sacks/Select.antt =====
-- The choice of the ranges to acknowledge (picoquic/sacks.c, `picoquic_sack_select_ack_ranges`), against
-- the numbers of the ranges that have been sent less often.
use fair_queuing_aware_conge.Common.{
  ℕ, zero, suc, ◌+◌, ◌<◌, ◌≡◌, refl, sym, ◌⊎◌, inl, inr, Bool, true, false, List, [], ◌∷◌, Option,
  none, some, ltb, ◌==◌, if◌then◌else◌, arith, Bool-cases,
}
use mathlib.Core.Path.{subst}
use fair_queuing_aware_conge.Common.Int.{ℤ, pos, ◌+ℤ◌, ◌-ℤ◌, leb_ℤ}
use fair_queuing_aware_conge.Sacks.{max_ack_range_repeat, SackItem, SackList}
use fair_queuing_aware_conge.Sacks.Acks.{select_loop, select_ack_ranges}
use fair_queuing_aware_conge.Sacks.Counts.{IsCounted, tally}

-- How many items have been sent fewer than `i` times.
abbrev pub sent_below : Bool → ℕ → List SackItem → ℕ
sent_below r i [] = 0
sent_below r i (x ∷ xs) = (if ltb (x.nb_times_sent r) i then 1 else 0) + sent_below r i xs

-- The same without the topmost range, which is sent in any case and has been sent `first` times.
abbrev pub others_below : Bool → ℕ → List SackItem → ℕ → ℤ
others_below r first items i = pos (sent_below r i items) -ℤ pos (if ltb first i then 1 else 0)

-- What is selected for `max` ranges: nb_sent_max is the least number such that at least `max` of the
-- other ranges have been sent at most that often, and nb_sent_max_skip says how many of them are too
-- many; if there are not so many at all, every one that was sent fewer than four times is taken.
pub record IsSelected (others : ℕ → ℤ) (max : ℤ) (r : ℕ × ℤ) : Type 0 where
  pub fits : (j : ℕ) → j < r.0 → leb_ℤ max (others (j + 1)) ≡ false
  pub rest :
      ((r.0 ≡ max_ack_range_repeat) × (r.1 ≡ pos 0))
      ⊎ ((r.0 < max_ack_range_repeat)
          × (leb_ℤ max (others (r.0 + 1)) ≡ true)
          × (r.1 ≡ others (r.0 + 1) -ℤ max))

sent_below-suc :
    (r : Bool) (i : ℕ) (items : List SackItem)
    → sent_below r (i + 1) items ≡ sent_below r i items + tally r i items
sent_below-suc r i [] = omega arith
sent_below-suc r i (x ∷ xs) = ground (arith, sent_below-suc r i xs)

-- One round of the loop.
others_below-suc :
    (r : Bool) (i first : ℕ) (items : List SackItem) (count : ℤ)
    → count ≡ pos (0 + tally r i items)
    → (if i == first
        then (others_below r first items i +ℤ count) -ℤ pos 1
        else others_below r first items i +ℤ count)
      ≡ others_below r first items (i + 1)
unfolding ◌+ℤ◌ ◌-ℤ◌
others_below-suc r i first items count e = ground (arith, sent_below-suc r i items, e)

select_loop-IsSelected :
    (s : SackList) (r : Bool) (first : ℕ) (max : ℤ) (rounds i : ℕ) (cumul : ℤ)
    → IsCounted s
    → rounds + i ≡ max_ack_range_repeat
    → cumul ≡ others_below r first s.items i
    → ((j : ℕ) → j < i → leb_ℤ max (others_below r first s.items (j + 1)) ≡ false)
    → IsSelected (others_below r first s.items) max (select_loop (s.rc r) first max rounds i cumul)
unfolding select_loop
select_loop-IsSelected s r first max zero i cumul h total same before = record {
  fits = λ j lt. before j (omega (arith, lt, total));
  rest = inl (refl, refl);
}
select_loop-IsSelected s r first max (suc rounds) i cumul h total same before =
    let C = others_below r first s.items in
    let next : (if i == first then (cumul +ℤ s.rc r i) -ℤ pos 1 else cumul +ℤ s.rc r i)
        ≡ C (i + 1) =
      subst (λ c. (if i == first then (c +ℤ s.rc r i) -ℤ pos 1 else c +ℤ s.rc r i) ≡ C (i + 1))
        (sym same) (others_below-suc r i first s.items (s.rc r i) (h.counted r i (omega arith))) in
    rw next (elim (Bool-cases (leb_ℤ max (C (i + 1)))) [
      | inl many ↦ rw many (record { fits = before; rest = inr (omega (arith, total), many, refl) })
      | inr few ↦ rw few (
          select_loop-IsSelected s r first max rounds (i + 1) (C (i + 1)) h (omega (arith, total))
            refl
            (λ j lt. elim (Bool-cases (j == i)) [
              | inl here ↦
                  subst (λ (k : ℕ). leb_ℤ max (C (k + 1)) ≡ false) (ground (arith, here)) few
              | inr other ↦ before j (ground (arith, lt, other))
            ]))
    ])

-- The count of the topmost range, which no range has if the list is empty.
abbrev pub first_count : Bool → Option SackItem → ℕ
first_count r none = max_ack_range_repeat
first_count r (some x) = x.nb_times_sent r

sent_below_zero : (r : Bool) (items : List SackItem) → sent_below r 0 items ≡ 0
sent_below_zero r [] = refl
sent_below_zero r (x ∷ xs) = ground (arith, sent_below_zero r xs)

others_below_zero :
    (r : Bool) (first : ℕ) (items : List SackItem) → pos 0 ≡ others_below r first items 0
unfolding ◌-ℤ◌
others_below_zero r first items = ground (arith, sent_below_zero r items)

-- The choice takes the ranges that have been sent least often, and as many as asked for: by the account
-- of the list, it finds how often a range may have been sent, and how many of that class are too many.
pub select_ack_ranges-IsSelected :
    (s : SackList) (first : Option SackItem) (max : ℤ) (r : Bool)
    → IsCounted s
    → IsSelected
        (others_below r (first_count r first) s.items)
        max
        (select_ack_ranges s first max r)
unfolding select_ack_ranges
select_ack_ranges-IsSelected s none max r h =
    select_loop-IsSelected s r max_ack_range_repeat max 4 0 (pos 0) h (omega arith)
      (others_below_zero r max_ack_range_repeat s.items) (λ j lt. ground (arith, lt))
select_ack_ranges-IsSelected s (some x) max r h =
    select_loop-IsSelected s r (x.nb_times_sent r) max 4 0 (pos 0) h (omega arith)
      (others_below_zero r (x.nb_times_sent r) s.items) (λ j lt. ground (arith, lt))
