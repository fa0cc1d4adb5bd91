-- ===== src/NewTonopah/SetPath.antt =====
-- new_tonopah_set_path of picoquic/new_tonopah.c: at the end of an interval it looks for fair
-- queuing and opens a new interval; then it splits the window between the two paths.
use fair_queuing_aware_conge.Common.{
  ℕ, ◌+◌, ◌*◌, Bool, true, false, not, ◌&&◌, Option, none, some, List, ◌∷◌, ltb, leb, ◌==◌,
  if◌then◌else◌, add64, min, max,
}
use fair_queuing_aware_conge.Cc.{Doubles, cwin_minimum}
use fair_queuing_aware_conge.Cc.Path.{PathState}
use fair_queuing_aware_conge.NewTonopah.{
  SimState, Side, IntervalInfo, Globals, World, write, Outcome, ok, fault, assertion, null_pointer,
  ◌>>=◌, ◌>>◌, guard, slot, is_path, is_null,
}
use fair_queuing_aware_conge.NewTonopah.Sim.{
  is_slow_start, interval_list_len, delete_info_list, mean_rtt,
}
use fair_queuing_aware_conge.NewTonopah.Interval.{
  intervals_required, aggregate_intervals, drop_oldest,
}

abbrev pub minimum_interval : ℕ
minimum_interval = 0

abbrev pub maximum_interval : ℕ
maximum_interval = 1000000

-- Whether the current interval is over.
unfoldable pub is_interval_over : {D : Type 0} → Globals D → ℕ → ℕ → Bool
is_interval_over g rtt current_time =
    ltb (add64 g.last_change (min (max minimum_interval rtt) maximum_interval)) current_time

-- The packet number of the path at an address that may be NULL.
unfoldable pub sequence_number : {D : Type 0} → World D → Option ℕ → Outcome ℕ
sequence_number w none = fault null_pointer
sequence_number w (some a) = ok ((w.paths a).packet_number)

-- Whether two pointers to paths are equal.
abbrev pub same_path : Option ℕ → Option ℕ → Bool
same_path none none = true
same_path (some a) b = is_path b a
same_path none (some b) = false

module _ (d : Doubles) where
  open d use {Double, literal, of_u64, to_u64, minus, times, over, less}

  abbrev pub new_side : ℕ → Side Double
  new_side seq = record {
    first_seq_num = seq;
    first_ack_time = 0;
    last_ack_time = 0;
    bytes_received = 0;
    rtt_sum = literal 0 0;
    num_acks = 0;
    finished = false;
  }

  -- The interval is put in front; above four times the intervals required the oldest one goes.
  unfoldable pub push_interval :
      IntervalInfo Double → List (IntervalInfo Double) → Outcome (List (IntervalInfo Double))
  push_interval i list =
      let longer = i ∷ list in
      let interval_len = interval_list_len longer in
      guard (leb interval_len (4 * intervals_required + 1)) assertion
      >> ok (if ltb (4 * intervals_required) interval_len then drop_oldest longer else longer)

  -- A new interval, with the packet numbers of the two paths. `allocated` says whether malloc finds
  -- memory: its result goes to memset without a test.
  unfoldable pub open_interval : Bool → World Double → Globals Double → ℕ → Outcome (Globals Double)
  open_interval allocated w g current_time = do
    guard allocated null_pointer
    seq1 ← sequence_number w g.path1
    seq2 ← sequence_number w g.path2
    list ←
        push_interval
          (record {
            side1 = new_side seq1;
            side2 = new_side seq2;
            dominant_path_id = if same_path g.dominant_path g.path1 then 1 else 2;
            dont_use = interval_list_len g.intervals == 0;
          })
          g.intervals
    ok (record g { intervals = list; last_change = current_time })

  -- The reaction to fair queuing: seven eighths of the window.
  unfoldable pub reduced_window : ℕ → ℕ
  reduced_window cwin = to_u64 (times (of_u64 cwin) (over (literal 70 1) (literal 80 1)))

  -- The reaction to a detection, and the intervals that are dropped.
  unfoldable pub react : Bool → Globals Double → SimState → Globals Double × SimState
  react detected_fq g s =
      if is_slow_start s.alg_state
      then (delete_info_list g, s)
      else (if detected_fq
          then (
            delete_info_list g,
            record s { ssthresh = reduced_window s.cwin; cwin = reduced_window s.cwin },
          )
          else (g, s))

  -- The end of an interval.
  unfoldable pub close_interval :
      Bool → World Double → SimState → ℕ → Outcome (Globals Double × SimState)
  close_interval allocated w s current_time = do
    detected_fq ← aggregate_intervals d w.globals.intervals
    let (g, s') = react detected_fq w.globals s
    g' ← open_interval allocated w g current_time
    ok (g', s')

  -- new_tonopah_ratio, 2./3.
  abbrev pub ratio : Double
  ratio = over (literal 20 1) (literal 30 1)

  -- MAX(x, PICOQUIC_CWIN_MINIMUM), cast to uint64_t
  unfoldable pub at_least_minimum : Double → ℕ
  at_least_minimum x = to_u64 (if less (of_u64 cwin_minimum) x then x else of_u64 cwin_minimum)

  unfoldable pub dominant_cwin : ℕ → ℕ
  dominant_cwin cwin = at_least_minimum (times (of_u64 cwin) ratio)

  unfoldable pub submissive_cwin : ℕ → ℕ
  submissive_cwin cwin = at_least_minimum (times (of_u64 cwin) (minus (of_u64 1) ratio))

  abbrev pub set_cwin : (ℕ → PathState) → ℕ → ℕ → ℕ → PathState
  set_cwin paths a cwin = write paths a (record (paths a) { cwin = cwin })

  -- The windows of the two paths of the array.
  unfoldable pub split_window : World Double → Globals Double → ℕ → Outcome (ℕ → PathState)
  split_window w g cwin = do
    a ← slot w.slots 0
    b ← slot w.slots 1
    ok (
        if same_path g.dominant_path g.path1
        then set_cwin (set_cwin w.paths a (dominant_cwin cwin)) b (submissive_cwin cwin)
        else (if same_path g.dominant_path g.path2
            then set_cwin (set_cwin w.paths b (dominant_cwin cwin)) a (submissive_cwin cwin)
            else w.paths))

  unfoldable pub end_interval :
      Bool → World Double → SimState → ℕ → ℕ → Outcome (Globals Double × SimState)
  end_interval allocated w s rtt current_time =
      if is_interval_over w.globals rtt current_time
      then close_interval allocated w s current_time
      else ok (w.globals, s)

  -- new_tonopah_set_path; `current_time` is what picoquic_current_time() returns in it.
  unfoldable pub set_path :
      Bool → World Double → SimState → ℕ → ℕ → Outcome (World Double × SimState)
  set_path allocated w s cwin current_time =
      if (w.cnx.nb_paths == 2) && not (is_null w.globals.path1) && not (is_null w.globals.path2)
      then (do
        rtt ← mean_rtt w
        (g, s') ← end_interval allocated w s rtt current_time
        paths ← split_window w g cwin
        ok (record w { globals = g; paths = paths }, s'))
      else ok (w, s)
