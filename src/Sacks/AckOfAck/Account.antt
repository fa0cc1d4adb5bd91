-- ===== src/Sacks/AckOfAck/Account.antt =====
-- Acknowledged acknowledgements and sent ranges (picoquic/sacks.c): the account of how often
-- the ranges have been sent.
use fair_queuing_aware_conge.Common.{
  ℕ, ◌+◌, ◌<◌, ◌^◌, ◌≡◌, ◌∙◌, ap, inl, inr, Bool, true, false, ◌&&◌, List, [], ◌∷◌, ◌++◌, some,
  ◌==◌, arith, Bool-cases,
}
use fair_queuing_aware_conge.Common.Int.{pos, ◌+ℤ◌, ltb_ℤ}
use fair_queuing_aware_conge.Sacks.{
  max_ack_range_repeat, SackItem, RangeCounts, SackList, Splay, uncount, record_sent,
}
use fair_queuing_aware_conge.Sacks.Acks.{
  delete_item, count_sent, item_record_sent, sent_enough, cut_start, forget, process_at,
  process_ack_of_ack_range,
}
use fair_queuing_aware_conge.Sacks.Ranges.{IsFrom, cut_items, find-nothing, find-cut}
use fair_queuing_aware_conge.Sacks.Counts.{Counts, IsCounted, tally, tally-append, uncount-Counts}

-- The count of the tail is that of the list without the front.
IsCounted-tail :
    (s : SackList) (front tail : List SackItem)
    → s.items ≡ front ++ tail
    → IsCounted s
    → (r : Bool) (i : ℕ) → i < max_ack_range_repeat
    → Counts s.rc r i (tally r i front) tail
IsCounted-tail s front tail whole h r i lt =
    h.counted r i lt
    ∙ ap pos (ap (λ items. 0 + tally r i items) whole ∙ omega (arith, tally-append r i front tail))

-- A list with another tail and other counts is counted if the counts are right for the tail.
with_tail-IsCounted :
    (s : SackList) (front tail : List SackItem) (rc : RangeCounts)
    → ((r : Bool) (i : ℕ) → i < max_ack_range_repeat → Counts rc r i (tally r i front) tail)
    → IsCounted (record s { items = front ++ tail; rc = rc })
with_tail-IsCounted s front tail rc f = record {
  counted = λ r i lt. f r i lt ∙ ap pos (omega (arith, tally-append r i front tail));
}

-- The sent range in its counts, with its class.
sent-Counts :
    (is_opportunistic r : Bool) (i k : ℕ) (x : SackItem) (back : List SackItem) (rc : RangeCounts)
    → i < max_ack_range_repeat
    → Counts rc r i k (x ∷ back)
    → Counts (uncount x rc) r i k back
    → Counts (count_sent is_opportunistic x rc) r i k (record_sent is_opportunistic x ∷ back)
unfolding record_sent count_sent ◌+ℤ◌
sent-Counts true true i k x back rc lt before gone = ground (arith, before, gone)
sent-Counts true false i k x back rc lt before gone = before
sent-Counts false true i k x back rc lt before gone = before
sent-Counts false false i k x back rc lt before gone = ground (arith, before, gone)

-- To send a range keeps the account of how often the ranges have been sent.
pub item_record_sent-IsCounted :
    (is_opportunistic : Bool) (s : SackList) (front : List SackItem) (x : SackItem)
    (back : List SackItem)
    → s.items ≡ front ++ (x ∷ back)
    → IsCounted s
    → IsCounted (item_record_sent is_opportunistic s front x back)
unfolding item_record_sent
item_record_sent-IsCounted is_opportunistic s front x back whole h =
    with_tail-IsCounted s front (record_sent is_opportunistic x ∷ back)
      (count_sent is_opportunistic x s.rc)
      (λ r i lt.
        let before = IsCounted-tail s front (x ∷ back) whole h r i lt in
        sent-Counts is_opportunistic r i (tally r i front) x back s.rc lt before
          (uncount-Counts s.rc r i (tally r i front) x back lt before))

forget-IsCounted :
    (s : SackList) (front : List SackItem) (x : SackItem) (back : List SackItem)
    → s.items ≡ front ++ (x ∷ back)
    → IsCounted s
    → IsCounted (forget s front x back)
unfolding forget delete_item sent_enough
forget-IsCounted s front x back whole h =
    let gone = λ (r : Bool) (i : ℕ) (lt : i < max_ack_range_repeat).
      uncount-Counts s.rc r i (tally r i front) x back lt
        (IsCounted-tail s front (x ∷ back) whole h r i lt) in
    elim (Bool-cases (ltb_ℤ (pos 0) s.horizon_delay)) [
      | inl on ↦ rw on (
          with_tail-IsCounted s front (sent_enough x ∷ back) (uncount x s.rc)
            (λ r i lt. ground (arith, lt, gone r i lt)))
      | inr off ↦ rw off (with_tail-IsCounted s front back (uncount x s.rc) gone)
    ]

process_at-IsCounted :
    (s : SackList) (front : List SackItem) (x : SackItem) (back : List SackItem) (lo hi : ℕ)
    → s.items ≡ front ++ (x ∷ back)
    → IsCounted s
    → IsCounted (process_at s front (some x) back lo hi)
unfolding process_at cut_start
process_at-IsCounted s front x [] lo hi whole h = elim (Bool-cases (x.start_of_sack_range == lo)) [
  | inr other ↦ rw other h
  | inl same ↦ rw same (
      with_tail-IsCounted s front (cut_start hi x ∷ []) s.rc
        (λ r i lt. IsCounted-tail s front (x ∷ []) whole h r i lt))
]
process_at-IsCounted s front x (next ∷ back) lo hi whole h =
    elim (Bool-cases ((x.start_of_sack_range == lo) && (x.end_of_sack_range == hi))) [
      | inr other ↦ rw other h
      | inl same ↦ rw same (forget-IsCounted s front x (next ∷ back) whole h)
    ]

module _ (t : Splay) where
  -- An acknowledgement of an acknowledged range keeps the account of how often the ranges have been sent.
  pub process_ack_of_ack_range-IsCounted :
      (s : SackList) (b lo hi : ℕ)
      → IsFrom b s.items
      → lo < 2 ^ 62
      → IsCounted s
      → IsCounted (process_ack_of_ack_range t s lo hi)
  unfolding process_ack_of_ack_range process_at
  process_ack_of_ack_range-IsCounted s b lo hi h small counted = elim (cut_items lo b s.items h) [
    | inl above ↦ rw (find-nothing t s lo small above) counted
    | inr c ↦
        rw (find-cut t s lo small c)
          (process_at-IsCounted s (c.front) (c.node) (c.back) lo hi (c.whole) counted)
  ]
