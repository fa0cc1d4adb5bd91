-- ===== src/Sacks/AckOfAck.antt =====
-- Acknowledged acknowledgements and the sending of ranges (picoquic/sacks.c): what they do to the numbers
-- that a sack list holds, and to its account.
pub mod Account
pub mod Dropped
use fair_queuing_aware_conge.Common.{
  ℕ, zero, suc, ◌+◌, ◌-◌, ◌<◌, ◌≤◌, ◌^◌, ◌≡◌, refl, sym, ◌∙◌, ap, inl, inr, Bool, true, false, not,
  ◌&&◌, ◌||◌, List, [], ◌∷◌, ◌++◌, Option, none, some, All, ltb, leb, ◌==◌, if◌then◌else◌, arith,
  Bool-cases, add64,
}
use mathlib.Core.Path.{subst}
use fair_queuing_aware_conge.Common.Int.{ℤ, pos, ◌+ℤ◌, ltb_ℤ}
use fair_queuing_aware_conge.Sacks.{
  max_ack_range_repeat, SackItem, RangeCounts, SackList, Splay, uncount, record_sent,
  find_range_below_number,
}
use fair_queuing_aware_conge.Sacks.Acks.{
  last_number, delete_item, item_record_sent, sent_enough, cut_start, forget, process_at,
  process_ack_of_ack_range,
}
use fair_queuing_aware_conge.Sacks.Ranges.{
  IsFrom, within, holds, holds-append, IsFrom-weaken, IsFrom-replace, Cut, cut_items, find-nothing,
  find-cut,
}
use fair_queuing_aware_conge.Sacks.Fronts.{IsFrom-node}
use fair_queuing_aware_conge.Sacks.Counts.{Counts, IsCounted, tally, tally-append, uncount-Counts}

-- What the acknowledgement of the range from `lo` to `hi` may do to the ranges of a list: they hold
-- nothing new, a number outside of the range is still held, they stay in order, and the highest number
-- stays.
pub record IsTrimmed (items : List SackItem) (lo hi : ℕ) (items' : List SackItem) : Type 0 where
  pub nothing_new : (n : ℕ) → holds items' n ≡ true → holds items n ≡ true
  pub others : (n : ℕ) → holds items n ≡ true → within lo hi n ≡ false → holds items' n ≡ true
  pub order : (b : ℕ) → IsFrom b items → IsFrom b items'
  pub last : last_number items' ≡ last_number items

unchanged : (items : List SackItem) (lo hi : ℕ) → IsTrimmed items lo hi items
unchanged items lo hi = record {
  nothing_new = λ n k. k;
  others = λ n k _. k;
  order = λ b h. h;
  last = refl;
}

pub last_number-append :
    (front : List SackItem) (x : SackItem) (back : List SackItem)
    → last_number (front ++ (x ∷ back)) ≡ last_number (x ∷ back)
unfolding last_number
last_number-append [] x back = refl
last_number-append (y ∷ []) x back = refl
last_number-append (y ∷ (z ∷ front)) x back = last_number-append (z ∷ front) x back

-- What holds of the tail of the list holds of the list.
with_front :
    (front tail tail' : List SackItem) (lo hi : ℕ)
    → IsTrimmed tail lo hi tail'
    → last_number (front ++ tail') ≡ last_number (front ++ tail)
    → IsTrimmed (front ++ tail) lo hi (front ++ tail')
with_front front tail tail' lo hi t same = record {
  nothing_new = λ n k.
      ground (arith, holds-append front tail n, holds-append front tail' n, t.nothing_new n, k);
  others = λ n k out.
      ground (arith, holds-append front tail n, holds-append front tail' n, t.others n, k, out);
  order = λ b h. IsFrom-replace b front tail tail' (λ b' _. t.order b') h;
  last = same;
}

cut_start-IsTrimmed :
    (x : SackItem) (hi : ℕ)
    → x.start_of_sack_range ≤ hi
    → x.start_of_sack_range ≤ x.end_of_sack_range
    → x.end_of_sack_range < 2 ^ 62
    → IsTrimmed (x ∷ []) x.start_of_sack_range hi (cut_start hi x ∷ [])
unfolding cut_start last_number
cut_start-IsTrimmed x hi le fits small = record {
  nothing_new = λ n k. ground (arith, k);
  others = λ n k out. ground (arith, k, out);
  order = λ b (h0, h1, h2, h3). (ground arith, ground arith, h2, tt);
  last = refl;
}

sent_enough-IsTrimmed :
    (x next : SackItem) (back : List SackItem) (lo hi : ℕ)
    → IsTrimmed (x ∷ (next ∷ back)) lo hi (sent_enough x ∷ (next ∷ back))
unfolding sent_enough last_number
sent_enough-IsTrimmed x next back lo hi = record {
  nothing_new = λ n k. k;
  others = λ n k _. k;
  order = λ b h. h;
  last = refl;
}

dropped-IsTrimmed :
    (x next : SackItem) (back : List SackItem)
    → IsTrimmed (x ∷ (next ∷ back)) x.start_of_sack_range x.end_of_sack_range (next ∷ back)
unfolding last_number
dropped-IsTrimmed x next back = record {
  nothing_new = λ n k. ground (arith, k);
  others = λ n k out. ground (arith, k, out);
  order = λ b (h0, h1, h2, h3).
      IsFrom-weaken (x.end_of_sack_range + 2) b (next ∷ back) (omega arith) h3;
  last = refl;
}

-- The acknowledgement of a range that is not the last one; `items` are those of the list.
forget-IsTrimmed :
    (s : SackList) (front : List SackItem) (x next : SackItem) (back : List SackItem)
    → IsTrimmed
        (front ++ (x ∷ (next ∷ back)))
        x.start_of_sack_range
        x.end_of_sack_range
        (forget s front x (next ∷ back)).items
unfolding forget delete_item
forget-IsTrimmed s front x next back =
    let lo = x.start_of_sack_range in
    let hi = x.end_of_sack_range in
    let ends = last_number-append front in
    elim (Bool-cases (ltb_ℤ (pos 0) s.horizon_delay)) [
      | inl on ↦
          let kept = sent_enough-IsTrimmed x next back lo hi in
          rw on (
            with_front front _ _ lo hi kept
              (ends (sent_enough x) (next ∷ back) ∙ kept.last ∙ sym (ends x (next ∷ back))))
      | inr off ↦
          let dropped = dropped-IsTrimmed x next back in
          rw off (
            with_front front _ _ lo hi dropped
              (ends next back ∙ dropped.last ∙ sym (ends x (next ∷ back))))
    ]

process_at-IsTrimmed :
    (s : SackList) (b : ℕ) (front : List SackItem) (x : SackItem) (back : List SackItem) (lo hi : ℕ)
    → s.items ≡ front ++ (x ∷ back)
    → IsFrom b s.items
    → lo ≤ hi
    → IsTrimmed s.items lo hi (process_at s front (some x) back lo hi).items
unfolding process_at forget delete_item
process_at-IsTrimmed s b front x [] lo hi whole h le =
    elim (Bool-cases (x.start_of_sack_range == lo)) [
      | inr other ↦ rw other (unchanged s.items lo hi)
      | inl same ↦
          let here : x.start_of_sack_range ≡ lo = ground (arith, same) in
          let node = IsFrom-node b front x [] (subst (IsFrom b) whole h) in
          let cut =
            subst (λ (l : ℕ). IsTrimmed (x ∷ []) l hi (cut_start hi x ∷ [])) here
              (cut_start-IsTrimmed x hi (omega (arith, here, le)) (node.1) (node.2)) in
          let ends = last_number-append front in
          rw (same, whole)
            (with_front front _ _ lo hi cut (ends (cut_start hi x) [] ∙ cut.last ∙ sym (ends x [])))
    ]
process_at-IsTrimmed s b front x (next ∷ back) lo hi whole h le =
    elim (Bool-cases ((x.start_of_sack_range == lo) && (x.end_of_sack_range == hi))) [
      | inr other ↦ rw other (unchanged s.items lo hi)
      | inl same ↦
          let here : x.start_of_sack_range ≡ lo = ground (arith, same) in
          let there : x.end_of_sack_range ≡ hi = ground (arith, same) in
          rw (same, whole, sym here, sym there) (forget-IsTrimmed s front x next back)
    ]

module _ (t : Splay) where
  -- The acknowledgement of an acknowledged range makes a list hold no new number, and drops no number
  -- outside of the range, nor the highest one; the ranges stay in order.
  pub process_ack_of_ack_range-IsTrimmed :
      (s : SackList) (b lo hi : ℕ)
      → IsFrom b s.items
      → lo ≤ hi
      → hi < 2 ^ 62
      → IsTrimmed s.items lo hi (process_ack_of_ack_range t s lo hi).items
  unfolding process_ack_of_ack_range process_at
  process_ack_of_ack_range-IsTrimmed s b lo hi h le small = elim (cut_items lo b s.items h) [
    | inl above ↦ rw (find-nothing t s lo (omega arith) above) (unchanged s.items lo hi)
    | inr c ↦
        rw (find-cut t s lo (omega arith) c)
          (process_at-IsTrimmed s b (c.front) (c.node) (c.back) lo hi (c.whole) h le)
  ]
