-- ===== src/Sacks/Examples.antt =====
-- Runs of the sack list (picoquic/sacks.c), and its theorems at concrete lists.
use fair_queuing_aware_conge.Common.{
  ℕ, zero, suc, ◌+◌, ◌<◌, ◌≡◌, refl, inl, inr, Bool, true, false, not, ◌&&◌, ◌||◌, List, [], ◌∷◌,
  ◌++◌, ◌⊎◌, ◌^◌, Option, none, some, length, ltb, leb, ◌==◌, if◌then◌else◌, arith,
}
use fair_queuing_aware_conge.Common.Int.{ℤ, pos, negsuc, ltb_ℤ}
use fair_queuing_aware_conge.Sacks.{
  SackItem, SackList, item_compare, place, new_item, record_reset, find_range_below_number,
  insert_item,
}
use fair_queuing_aware_conge.Sacks.Tree.{list_splay}
use fair_queuing_aware_conge.Sacks.Operations.{
  update_sack_list, update_at, update_above, finish_update, update_ack_horizon, horizon_loop,
  is_out_of_date, extend, merge_next, close_pass,
}
use fair_queuing_aware_conge.Sacks.Acks.{
  sack_list_init, process_ack_of_ack_range, select_ack_ranges, select_loop,
}
use fair_queuing_aware_conge.Sacks.Ranges.{IsFrom, IsFrom-weaken}
use fair_queuing_aware_conge.Sacks.Counts.{IsCounted}
use fair_queuing_aware_conge.Sacks.Reached.{
  started, updated, delayed, acked, IsSack, Reached-IsSack,
}
use fair_queuing_aware_conge.Sacks.Select.{IsSelected, others_below, select_ack_ranges-IsSelected}
use fair_queuing_aware_conge.Sacks.AckOfAck.{IsTrimmed, process_ack_of_ack_range-IsTrimmed}

abbrev item : ℕ → ℕ → ℕ → SackItem
item lo hi sent = record {
  start_of_sack_range = lo;
  end_of_sack_range = hi;
  time_created = 1000;
  nb_times_sent = λ r. sent;
}

-- Three ranges, of which two have been sent once and one four times.
abbrev three_items : List SackItem
three_items = item 10 19 4 ∷ (item 30 39 1 ∷ (item 50 59 1 ∷ []))

abbrev three_ranges : ℤ → SackList
three_ranges delay = record {
  items = three_items;
  ack_horizon = 5;
  horizon_delay = delay;
  rc = λ r i. if i == 1 then pos 2 else pos 0;
}

three_ranges-IsCounted : (delay : ℤ) → IsCounted (three_ranges delay)
three_ranges-IsCounted delay = record { counted = λ r i lt. ground arith }

three_items-IsFrom : IsFrom 5 three_items
three_items-IsFrom = (
  omega arith,
  omega arith,
  omega arith,
  (omega arith, omega arith, omega arith, (omega arith, omega arith, omega arith, tt)),
)

abbrev bounds : SackItem → ℕ × ℕ
bounds x = (x.start_of_sack_range, x.end_of_sack_range)

abbrev all_bounds : List SackItem → List (ℕ × ℕ)
all_bounds [] = []
all_bounds (x ∷ xs) = bounds x ∷ all_bounds xs

-- A range that touches two others joins them, and the second one is deleted.
join_two :
    all_bounds ((update_sack_list list_splay true (three_ranges (pos 0)) 15 35 2000).0.items)
    ≡ (10, 39) ∷ ((50, 59) ∷ [])
unfolding update_sack_list finish_update update_at update_above extend merge_next close_pass
    find_range_below_number new_item place item_compare record_reset
join_two = refl

-- With a delay of 500 the first range is dropped.
drop_first :
    all_bounds ((update_sack_list list_splay true (three_ranges (pos 500)) 61 62 2000).0.items)
    ≡ (30, 39) ∷ ((50, 59) ∷ ((61, 62) ∷ []))
unfolding update_sack_list finish_update update_at update_above insert_item extend
    find_range_below_number new_item place item_compare update_ack_horizon horizon_loop
    is_out_of_date
drop_first = refl

above_zero : IsFrom 0 three_items
above_zero = IsFrom-weaken 5 0 three_items (omega arith) three_items-IsFrom

-- Three ranges out of order, the last of which overlaps the others.
abbrev arrivals : List (ℕ × ℕ × ℕ)
arrivals = (30, 39, 1) ∷ ((10, 19, 2) ∷ ((15, 32, 3) ∷ []))

process_ack_of_ack_range-IsTrimmed_example :
    IsTrimmed three_items 50 54
      (process_ack_of_ack_range list_splay (three_ranges (pos 0)) 50 54).items
process_ack_of_ack_range-IsTrimmed_example =
    process_ack_of_ack_range-IsTrimmed list_splay (three_ranges (pos 0)) 0 50 54 above_zero
      (omega arith) (omega arith)

select_ack_ranges-IsSelected_example :
    IsSelected
      (others_below false 1 three_items)
      (pos 1)
      (select_ack_ranges (three_ranges (pos 0)) (some (item 50 59 1)) (pos 1) false)
select_ack_ranges-IsSelected_example =
    select_ack_ranges-IsSelected (three_ranges (pos 0)) (some (item 50 59 1)) (pos 1) false
      (three_ranges-IsCounted (pos 0))

-- With room for one range besides the topmost, the one that was sent once is taken.
select_one :
    select_ack_ranges (three_ranges (pos 0)) (some (item 50 59 1)) (pos 1) false ≡ (1, pos 0)
unfolding select_ack_ranges select_loop fair_queuing_aware_conge.Common.Int.◌+ℤ◌
    fair_queuing_aware_conge.Common.Int.◌-ℤ◌
select_one = refl

-- A list that has a delay, and two ranges, the first of which is acknowledged.
Reached-IsSack_example :
    let first =
      (update_sack_list list_splay true
        (record sack_list_init { horizon_delay = pos 500 })
        10
        19
        5).0 in
    let second = (update_sack_list list_splay true first 30 39 6).0 in
    IsSack (process_ack_of_ack_range list_splay second 10 19)
Reached-IsSack_example =
    let first =
      (update_sack_list list_splay true (record sack_list_init { horizon_delay = pos 500 }) 10 19
        5).0 in
    let second = (update_sack_list list_splay true first 30 39 6).0 in
    Reached-IsSack list_splay (
      acked second 10 19
        (updated first 30 39 6
          (updated (record sack_list_init { horizon_delay = pos 500 }) 10 19 5
            (delayed sack_list_init (pos 500) started) (omega arith) (omega arith))
          (omega arith) (omega arith))
        (omega arith) (omega arith))
