-- ===== src/Sacks/Reached.antt =====
-- The lists that the operations of picoquic/sacks.c reach, in any order: by a relation on lists, and its
-- invariant.
use fair_queuing_aware_conge.Common.{
  ℕ, ◌+◌, ◌<◌, ◌≤◌, ◌^◌, ◌≡◌, refl, inl, inr, Bool, true, List, [], ◌∷◌, ◌++◌, arith, Bool-cases,
}
use mathlib.Core.Path.{subst}
use fair_queuing_aware_conge.Common.Int.{ℤ, pos, ltb_ℤ, ◌+ℤ◌}
use fair_queuing_aware_conge.Common.{add64}
use fair_queuing_aware_conge.Sacks.{
  SackItem, SackList, RangeCounts, Splay, insert_item, new_item, count_new, uncount, record_sent,
  find_range_below_number,
}
use fair_queuing_aware_conge.Sacks.Operations.{
  horizon_loop, is_out_of_date, update_ack_horizon, finish_update, update_at, update_sack_list,
}
use fair_queuing_aware_conge.Sacks.Acks.{
  sack_list_init, sack_list_free, sack_list_reset, item_record_sent, process_ack_of_ack_range,
}
use fair_queuing_aware_conge.Sacks.Ranges.{IsFrom, IsFrom-weaken, IsFrom-replace}
use fair_queuing_aware_conge.Sacks.Update.{update_at-IsUpdated}
use fair_queuing_aware_conge.Sacks.Counts.{IsCounted, update_sack_list-IsCounted}
use fair_queuing_aware_conge.Sacks.AckOfAck.{process_ack_of_ack_range-IsTrimmed}
use fair_queuing_aware_conge.Sacks.AckOfAck.Account.{
  item_record_sent-IsCounted, process_ack_of_ack_range-IsCounted,
}

-- The ranges are in order, not empty and apart, and the counts are those of the ranges.
pub record IsSack (s : SackList) : Type 0 where
  pub order : IsFrom 0 s.items
  pub account : IsCounted s

horizon_loop-IsFrom :
    (b : ℕ) (delay : ℤ) (now : ℕ) (items : List SackItem) (horizon : ℕ) (rc : RangeCounts)
    → IsFrom b items
    → IsFrom b (horizon_loop delay now items horizon rc).0
unfolding horizon_loop
horizon_loop-IsFrom b delay now [] horizon rc h = h
horizon_loop-IsFrom b delay now (x ∷ []) horizon rc h = h
horizon_loop-IsFrom b delay now (x ∷ (y ∷ rest)) horizon rc (h0, h1, h2, h3) =
    elim (Bool-cases (is_out_of_date delay now x)) [
      | inr stays ↦ rw stays (h0, h1, h2, h3)
      | inl gone ↦ rw gone (
          horizon_loop-IsFrom b delay now (y ∷ rest) (add64 x.end_of_sack_range 1) (uncount x rc)
            (IsFrom-weaken (x.end_of_sack_range + 2) b (y ∷ rest) (omega arith) h3))
    ]

finish_update-IsFrom :
    (b now : ℕ) (r : SackList × ℤ) → IsFrom b (r.0.items) → IsFrom b ((finish_update now r).0.items)
unfolding finish_update update_ack_horizon
finish_update-IsFrom b now (s, ret) h = elim (Bool-cases (ltb_ℤ (pos 0) s.horizon_delay)) [
  | inr off ↦ rw off h
  | inl on ↦ rw on (horizon_loop-IsFrom b s.horizon_delay now s.items s.ack_horizon s.rc h)
]

record_sent-IsFrom :
    (b : ℕ) (opportunistic : Bool) (x : SackItem) (back : List SackItem)
    → IsFrom b (x ∷ back)
    → IsFrom b (record_sent opportunistic x ∷ back)
unfolding record_sent
record_sent-IsFrom b opportunistic x back h = h

module _ (t : Splay) where
  -- The lists that a connection keeps: it initializes or resets them, turns the horizon on or off, records
  -- ranges, sends acknowledgements of the items, and processes acknowledgements of these.
  pub data Reached : SackList → Type 0 where
    started : Reached sack_list_init
    reset :
        (s : SackList) (lo hi now : ℕ)
        → Reached s
        → lo ≤ hi
        → hi < 2 ^ 62
        → Reached (sack_list_reset t true s lo hi now).0
    delayed : (s : SackList) (delay : ℤ) → Reached s → Reached (record s { horizon_delay = delay })
    updated :
        (s : SackList) (lo hi now : ℕ)
        → Reached s
        → lo ≤ hi
        → hi < 2 ^ 62
        → Reached (update_sack_list t true s lo hi now).0
    sent :
        (s : SackList) (opportunistic : Bool) (front : List SackItem) (x : SackItem)
        (back : List SackItem)
        → Reached s
        → s.items ≡ front ++ (x ∷ back)
        → Reached (item_record_sent opportunistic s front x back)
    acked :
        (s : SackList) (lo hi : ℕ)
        → Reached s
        → lo ≤ hi
        → hi < 2 ^ 62
        → Reached (process_ack_of_ack_range t s lo hi)

  reset-IsSack :
      (s : SackList) (lo hi now : ℕ)
      → lo ≤ hi
      → hi < 2 ^ 62
      → IsSack (sack_list_reset t true s lo hi now).0
  unfolding sack_list_reset insert_item sack_list_free new_item count_new ◌+ℤ◌
  reset-IsSack s lo hi now le small = rw (t.insert_lem (new_item lo hi now) [] [] tt tt) (record {
    order = (omega arith, le, small, tt);
    account = record { counted = λ r i lt. ground arith };
  })

  updated-IsFrom :
      (s : SackList) (lo hi now : ℕ)
      → lo ≤ hi
      → hi < 2 ^ 62
      → IsFrom 0 s.items
      → IsFrom 0 ((update_sack_list t true s lo hi now).0.items)
  unfolding update_sack_list
  updated-IsFrom s lo hi now le small h =
      let p = find_range_below_number t s lo in
      let u = update_at-IsUpdated t s 0 lo hi now le small h in
      finish_update-IsFrom 0 now (update_at t true s p.front p.node p.back lo hi now)
        (u.ranges 0 (omega arith) h)

  -- Every list that is reached keeps its ranges in order, not empty and apart, and knows how many of them
  -- have been sent 0 to 3 times.
  pub Reached-IsSack : {s : SackList} → Reached s → IsSack s
  unfolding sack_list_init item_record_sent
  Reached-IsSack started = record { order = tt; account = record { counted = λ r i lt. refl } }
  Reached-IsSack (reset s lo hi now r le small) = reset-IsSack s lo hi now le small
  Reached-IsSack (delayed s delay r) =
      let h = Reached-IsSack r in
      record { order = h.order; account = record { counted = (h.account).counted } }
  Reached-IsSack (updated s lo hi now r le small) =
      let h = Reached-IsSack r in
      record {
        order = updated-IsFrom s lo hi now le small (h.order);
        account = update_sack_list-IsCounted t s 0 lo hi now (h.order) le small (h.account);
      }
  Reached-IsSack (sent s opportunistic front x back r whole) =
      let h = Reached-IsSack r in
      record {
        order =
            IsFrom-replace 0 front (x ∷ back) (record_sent opportunistic x ∷ back)
              (λ b _ hb. record_sent-IsFrom b opportunistic x back hb)
              (subst (IsFrom 0) whole (h.order));
        account = item_record_sent-IsCounted opportunistic s front x back whole (h.account);
      }
  Reached-IsSack (acked s lo hi r le small) =
      let h = Reached-IsSack r in
      record {
        order =
            (process_ack_of_ack_range-IsTrimmed t s 0 lo hi (h.order) le small).order 0 (h.order);
        account =
            process_ack_of_ack_range-IsCounted t s 0 lo hi (h.order) (omega arith) (h.account);
      }
