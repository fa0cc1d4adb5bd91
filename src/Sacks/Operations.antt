-- ===== src/Sacks/Operations.antt =====
-- The operations on a sack list (picoquic/sacks.c).
use fair_queuing_aware_conge.Common.{
  ℕ, Bool, false, not, ◌&&◌, ◌||◌, List, [], ◌∷◌, ◌++◌, Option, none, some, ltb, leb, if◌then◌else◌,
  add64, sub64,
}
use fair_queuing_aware_conge.Common.Int.{ℤ, pos, negsuc, ltb_ℤ, to_int64}
use fair_queuing_aware_conge.Sacks.{
  max_ack_range_repeat, SackItem, RangeCounts, SackList, Splay, Place, uncount, record_reset,
  count_reset, find_range_below_number, insert_item,
}

-- What the loop of `picoquic_update_sack_list` works on: the node `previous`, the items behind it, the
-- counts and the result.
pub record Pass : Type 0 where
  pub node : SackItem
  pub back : List SackItem
  pub rc : RangeCounts
  pub ret : ℤ

-- The last round of the loop: nothing behind the node touches the range.
unfoldable pub close_pass : ℕ → ℕ → SackItem → List SackItem → RangeCounts → Pass
close_pass pn64_max current_time x back rc = record {
  node = record (record_reset x) { end_of_sack_range = pn64_max; time_created = current_time };
  back = back;
  rc = count_reset x rc;
  ret = pos 0;
}

-- The node that takes over the end of the next one.
unfoldable pub merge_next : SackItem → SackItem → SackItem
merge_next x next = record (record_reset x) {
  end_of_sack_range = next.end_of_sack_range;
  time_created = if ltb x.time_created next.time_created then next.time_created else x.time_created;
}

unfoldable pub extend : ℕ → ℕ → SackItem → List SackItem → RangeCounts → ℤ → Pass
extend pn64_max current_time x [] rc ret =
    if ltb x.end_of_sack_range pn64_max
    then close_pass pn64_max current_time x [] rc
    else record { node = x; back = []; rc = rc; ret = ret }
extend pn64_max current_time x (next ∷ back) rc ret =
    let merged =
      extend pn64_max current_time (merge_next x next) back (uncount next (count_reset x rc))
        (pos 0) in
    if ltb x.end_of_sack_range pn64_max
    then (if ltb pn64_max (sub64 next.start_of_sack_range 1)
        then close_pass pn64_max current_time x (next ∷ back) rc
        else merged)
    else record { node = x; back = next ∷ back; rc = rc; ret = ret }

abbrev pub first_items : Place → List SackItem
first_items p = elim p.node [ none ↦ p.front | some x ↦ p.front ++ (x ∷ []) ]

-- The list after the loop.
abbrev pub with_pass : SackList → List SackItem → Pass → SackList × ℤ
with_pass s front e = (record s { items = front ++ (e.node ∷ e.back); rc = e.rc }, e.ret)

-- The next item, moved down to the start of the range.
unfoldable pub extend_down : ℕ → ℕ → SackItem → SackItem
extend_down pn64_min current_time next = record (record_reset next) {
  start_of_sack_range = pn64_min;
  time_created = current_time;
}

-- An item that was sent often enough, and was last changed before the delay.
unfoldable pub is_out_of_date : ℤ → ℕ → SackItem → Bool
is_out_of_date horizon_delay current_time x =
    not (ltb (x.nb_times_sent false) max_ack_range_repeat)
    && ltb_ℤ horizon_delay (to_int64 (sub64 current_time x.time_created))

-- The loop of `picoquic_update_ack_horizon`, on the items, the horizon and the counts.
unfoldable pub horizon_loop :
    ℤ → ℕ → List SackItem → ℕ → RangeCounts → List SackItem × ℕ × RangeCounts
horizon_loop horizon_delay current_time [] ack_horizon rc = ([], ack_horizon, rc)
horizon_loop horizon_delay current_time (x ∷ []) ack_horizon rc = (x ∷ [], ack_horizon, rc)
horizon_loop horizon_delay current_time (x ∷ (y ∷ rest)) ack_horizon rc =
    let next =
      horizon_loop horizon_delay current_time (y ∷ rest) (add64 x.end_of_sack_range 1)
        (uncount x rc) in
    if is_out_of_date horizon_delay current_time x then next else (x ∷ (y ∷ rest), ack_horizon, rc)

-- picoquic_update_ack_horizon
unfoldable pub update_ack_horizon : SackList → ℕ → SackList
update_ack_horizon s current_time =
    let (items, ack_horizon, rc) =
      horizon_loop s.horizon_delay current_time s.items s.ack_horizon s.rc in
    record s { items = items; ack_horizon = ack_horizon; rc = rc }

-- The end of `picoquic_update_sack_list`.
unfoldable pub finish_update : ℕ → SackList × ℤ → SackList × ℤ
finish_update current_time (s, ret) =
    (if ltb_ℤ (pos 0) s.horizon_delay then update_ack_horizon s current_time else s, ret)

module _ (t : Splay) where
  -- No item overlaps the range from below; `front` are the items below it, `back` those above.
  unfoldable pub update_above :
      Bool → SackList → List SackItem → List SackItem → ℕ → ℕ → ℕ → SackList × ℤ
  update_above allocated s front [] pn64_min pn64_max current_time =
      insert_item t allocated s pn64_min pn64_max current_time
  update_above allocated s front (next ∷ back) pn64_min pn64_max current_time =
      if ltb pn64_max (sub64 next.start_of_sack_range 1)
      then insert_item t allocated s pn64_min pn64_max current_time
      else with_pass s front (
          extend pn64_max current_time (extend_down pn64_min current_time next) back
            (count_reset next s.rc) (pos 0))

  -- The body of `picoquic_update_sack_list`, by the place that the search returns.
  unfoldable pub update_at :
      Bool → SackList → List SackItem → Option SackItem → List SackItem → ℕ → ℕ → ℕ → SackList × ℤ
  update_at allocated s front none back pn64_min pn64_max current_time =
      update_above allocated s front back pn64_min pn64_max current_time
  update_at allocated s front (some x) back pn64_min pn64_max current_time =
      if ltb (add64 x.end_of_sack_range 1) pn64_min
      then update_above allocated s (front ++ (x ∷ [])) back pn64_min pn64_max current_time
      else with_pass s front (extend pn64_max current_time x back s.rc (pos 1))

  -- picoquic_update_sack_list
  unfoldable pub update_sack_list : Bool → SackList → ℕ → ℕ → ℕ → SackList × ℤ
  update_sack_list allocated s pn64_min pn64_max current_time =
      let p = find_range_below_number t s pn64_min in
      finish_update current_time
        (update_at allocated s p.front p.node p.back pn64_min pn64_max current_time)

  -- The search and the test of `picoquic_is_pn_already_received`, on the sack list of the context.
  abbrev pub reaches : Option SackItem → ℕ → Bool
  reaches none pn64 = false
  reaches (some x) pn64 = leb pn64 x.end_of_sack_range

  unfoldable pub is_pn_already_received : SackList → ℕ → Bool
  is_pn_already_received s pn64 =
      (ltb_ℤ (pos 0) s.horizon_delay && ltb pn64 s.ack_horizon)
      || reaches ((find_range_below_number t s pn64).node) pn64

  -- picoquic_check_sack_list: -1 if the range fills no hole
  unfoldable pub check_sack_list : SackList → ℕ → ℕ → ℤ
  check_sack_list s pn64_min pn64_max =
      if reaches ((find_range_below_number t s pn64_min).node) pn64_max then negsuc 0 else pos 0
