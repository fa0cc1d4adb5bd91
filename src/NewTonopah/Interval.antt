-- ===== src/NewTonopah/Interval.antt =====
-- The list of intervals of picoquic/new_tonopah.c: the aggregation that detects fair queuing, and
-- the search for the interval that an acknowledgement belongs to.
use fair_queuing_aware_conge.Common.{
  ℕ, zero, suc, ◌+◌, Bool, true, false, ◌&&◌, ◌||◌, Option, none, some, List, [], ◌∷◌, leb, ◌==◌,
  if◌then◌else◌, add64, sub64,
}
use fair_queuing_aware_conge.Cc.{Doubles}
use fair_queuing_aware_conge.NewTonopah.{
  Side, IntervalInfo, Outcome, ok, fault, assertion, null_pointer, ◌>>=◌, ◌>>◌, guard,
}

abbrev pub intervals_required : ℕ
intervals_required = 1

-- The sums over intervals of one of the two roles, dominant or submissive.
pub record Totals (D : Type 0) : Type 0 where
  pub time_diffs : ℕ
  pub bytes : ℕ
  pub sent_bytes : ℕ
  pub rtt_sum : D
  pub num_acks : ℕ

module _ (d : Doubles) where
  open d use {Double, literal, of_u64, plus, minus, times, over, less}

  abbrev pub no_totals : Totals Double
  no_totals = record { time_diffs = 0; bytes = 0; sent_bytes = 0; rtt_sum = of_u64 0; num_acks = 0 }

  -- One side of an interval, with that of the next interval, is added.
  unfoldable pub add_side : Totals Double → Side Double → Side Double → Totals Double
  add_side t side next_side = record {
    time_diffs = add64 t.time_diffs (sub64 side.last_ack_time side.first_ack_time);
    bytes = add64 t.bytes side.bytes_received;
    sent_bytes = add64 t.sent_bytes (sub64 next_side.first_seq_num side.first_seq_num);
    rtt_sum = plus t.rtt_sum side.rtt_sum;
    num_acks = add64 t.num_acks side.num_acks;
  }

  -- The mean RTT of the dominant role exceeds the other by more than 5 ms.
  unfoldable pub detects : Totals Double → Totals Double → Bool
  detects dominant submissive = less (of_u64 5000) (
      minus (over dominant.rtt_sum (of_u64 dominant.num_acks))
        (over submissive.rtt_sum (of_u64 submissive.num_acks)))

  abbrev pub is_finished : IntervalInfo Double → Bool
  is_finished i = i.side1.finished && i.side2.finished

  -- The interval behind `next`; following a NULL `next` ends the run.
  abbrev follow : Option (IntervalInfo Double) → Outcome (IntervalInfo Double)
  follow none = fault null_pointer
  follow (some i) = ok i

  -- The sums with a finished interval.
  unfoldable pub add_interval :
      IntervalInfo Double
      → Option (IntervalInfo Double)
      → Totals Double
      → Totals Double
      → Outcome (Totals Double × Totals Double)
  add_interval i next dominant submissive = do
    guard ((i.dominant_path_id == 1) || (i.dominant_path_id == 2)) assertion
    n ← follow next
    ok (
        if i.dominant_path_id == 1
        then (add_side dominant i.side1 n.side1, add_side submissive i.side2 n.side2)
        else (add_side dominant i.side2 n.side2, add_side submissive i.side1 n.side1))

  -- The loop of `new_tonopah_aggregate_intervals` from the newest interval back.
  unfoldable pub aggregate_loop :
      List (IntervalInfo Double)
      → Option (IntervalInfo Double)
      → ℕ
      → Totals Double
      → Totals Double
      → Outcome Bool
  aggregate_loop [] next len dominant submissive = ok false
  aggregate_loop (i ∷ prev) next len dominant submissive =
      let skip = aggregate_loop prev (some i) 0 no_totals no_totals in
      let take = add_interval i next dominant submissive >>= λ (dominant', submissive').
      let more = aggregate_loop prev (some i) (len + 1) dominant' submissive' in
      if len + 1 == intervals_required then ok (detects dominant' submissive') else more in
      if is_finished i then take else skip

  -- new_tonopah_aggregate_intervals
  unfoldable pub aggregate_intervals : List (IntervalInfo Double) → Outcome Bool
  aggregate_intervals list = aggregate_loop list none 0 no_totals no_totals

module _ {D : Type 0} where
  -- The side that a path number picks.
  abbrev pub side_of : Bool → IntervalInfo D → Side D
  side_of first i = if first then i.side1 else i.side2

  unfoldable pub with_side : Bool → IntervalInfo D → Side D → IntervalInfo D
  with_side first i s = if first then record i { side1 = s } else record i { side2 = s }

  -- The older neighbour, if there is one, is finished on the path.
  unfoldable pub finish_prev : Bool → List (IntervalInfo D) → List (IntervalInfo D)
  finish_prev first [] = []
  finish_prev first (i ∷ prev) =
      with_side first i (record (side_of first i) { finished = true }) ∷ prev

  -- new_tonopah_find_right_interval: the list, and the place of the interval found in it.
  unfoldable pub find_right_interval :
      Bool → ℕ → List (IntervalInfo D) → List (IntervalInfo D) × Option ℕ
  find_right_interval first ack_num [] = ([], none)
  find_right_interval first ack_num (i ∷ prev) =
      let (rest, place) = find_right_interval first ack_num prev in
      if leb (side_of first i).first_seq_num ack_num
      then (i ∷ finish_prev first prev, some 0)
      else (i ∷ rest, elim place [ none ↦ none | some k ↦ some (suc k) ])

  -- The list without its last, oldest element.
  unfoldable pub drop_oldest : List (IntervalInfo D) → List (IntervalInfo D)
  drop_oldest [] = []
  drop_oldest (i ∷ []) = []
  drop_oldest (i ∷ (j ∷ rest)) = i ∷ drop_oldest (j ∷ rest)

module _ (d : Doubles) where
  open d use {Double, of_u64, plus}

  -- What an acknowledgement adds to the side of its interval.
  unfoldable pub count_ack : Side Double → ℕ → ℕ → ℕ → Side Double
  count_ack s nb_bytes smoothed_rtt time = record s {
    bytes_received = add64 s.bytes_received nb_bytes;
    rtt_sum = plus s.rtt_sum (of_u64 smoothed_rtt);
    num_acks = add64 s.num_acks 1;
    first_ack_time = if s.first_ack_time == 0 then time else s.first_ack_time;
    last_ack_time = time;
  }

  unfoldable pub count_at :
      Bool → ℕ → ℕ → ℕ → ℕ → List (IntervalInfo Double) → List (IntervalInfo Double)
  count_at first place nb_bytes smoothed_rtt time [] = []
  count_at first zero nb_bytes smoothed_rtt time (i ∷ prev) =
      with_side first i (count_ack (side_of first i) nb_bytes smoothed_rtt time) ∷ prev
  count_at first (suc k) nb_bytes smoothed_rtt time (i ∷ prev) =
      i ∷ count_at first k nb_bytes smoothed_rtt time prev

  -- Nothing is counted if no interval was found.
  unfoldable pub count_found :
      Bool → Option ℕ → ℕ → ℕ → ℕ → List (IntervalInfo Double) → List (IntervalInfo Double)
  count_found first none nb_bytes smoothed_rtt time list = list
  count_found first (some k) nb_bytes smoothed_rtt time list =
      count_at first k nb_bytes smoothed_rtt time list

  -- The intervals after an acknowledgement on a path.
  unfoldable pub record_ack :
      Bool → ℕ → ℕ → ℕ → ℕ → List (IntervalInfo Double) → List (IntervalInfo Double)
  record_ack first ack_num nb_bytes smoothed_rtt time list =
      let (found, place) = find_right_interval first ack_num list in
      count_found first place nb_bytes smoothed_rtt time found
