-- ===== src/NewTonopah/Examples.antt =====
-- The theorems on the fair queuing aware algorithm at concrete inputs.
use fair_queuing_aware_conge.Common.{
  ℕ, ◌*◌, ◌≡◌, refl, inl, Bool, true, false, none, some, List, [], ◌∷◌, arith, ◌==◌,
}
use fair_queuing_aware_conge.Cc.{acknowledgement}
use fair_queuing_aware_conge.Cc.Samples.{fractions, path, cnx}
use fair_queuing_aware_conge.Cc.RttFilter.{zero_filter}
use fair_queuing_aware_conge.NewTonopah.{
  congestion_avoidance, SimState, Side, IntervalInfo, Globals, TonopahState, World, ok, fault,
  null_pointer, slot,
}
use fair_queuing_aware_conge.NewTonopah.Sim.{interval_list_len, mean_rtt}
use fair_queuing_aware_conge.NewTonopah.Interval.{
  aggregate_intervals, aggregate_loop, add_interval, add_side, detects,
}
use fair_queuing_aware_conge.NewTonopah.SetPath.{
  set_path, end_interval, close_interval, is_interval_over, react, open_interval,
}
use fair_queuing_aware_conge.NewTonopah.Handler.{Event, tonopah_notify}
use fair_queuing_aware_conge.NewTonopah.Safety.{
  Returns, IsIntervals, IsTonopah, tonopah_notify-Returns,
}
use fair_queuing_aware_conge.NewTonopah.Windows.{IsSplit, pick, set_path-IsSplit}
use fair_queuing_aware_conge.NewTonopah.Detection.{
  is_queued, shows_fair_queuing, aggregate_intervals-verdict,
}

abbrev side : ℕ → Bool → Side (ℕ × ℕ)
side rtt finished = record {
  first_seq_num = 5;
  first_ack_time = 100;
  last_ack_time = 900;
  bytes_received = 6000;
  rtt_sum = (4 * rtt, 1);
  num_acks = 4;
  finished = finished;
}

-- The open interval and a finished one, in which the dominant path is 20 ms slower.
abbrev intervals : List (IntervalInfo (ℕ × ℕ))
intervals =
    record { side1 = side 0 false; side2 = side 0 true; dominant_path_id = 1; dont_use = false }
    ∷ record {
      side1 = side 60000 true;
      side2 = side 40000 true;
      dominant_path_id = 1;
      dont_use = true;
    }
    ∷ []

intervals-IsIntervals : IsIntervals intervals
unfolding interval_list_len
intervals-IsIntervals = record {
  short = omega arith;
  roles = (inl refl, (inl refl, tt));
  newest = refl;
}

aggregate_intervals-verdict_example :
    aggregate_intervals fractions intervals ≡ ok (shows_fair_queuing fractions intervals)
aggregate_intervals-verdict_example =
    aggregate_intervals-verdict fractions intervals intervals-IsIntervals

-- Here the verdict is that there is fair queuing.
intervals_queued : shows_fair_queuing fractions intervals ≡ true
unfolding shows_fair_queuing is_queued
intervals_queued = refl

abbrev globals : Globals (ℕ × ℕ)
globals = record {
  intervals = intervals;
  last_change = 1000;
  path1 = some 7;
  path2 = some 8;
  dominant_path = some 7;
}

abbrev sim : SimState
sim = record {
  alg_state = congestion_avoidance;
  cwin = 30000;
  residual_ack = 0;
  ssthresh = 20000;
  recovery_start = 1000;
  recovery_sequence = 15;
}

abbrev state : TonopahState (ℕ × ℕ)
state = record { nrss = sim; rtt_filter = zero_filter (0, 1) }

-- A connection with the paths 7 and 8.
abbrev world : World (ℕ × ℕ)
world = record {
  cnx = cnx;
  slots = 7 ∷ 8 ∷ [];
  paths = λ a. path;
  states = λ a. some state;
  globals = globals;
}

world-IsTonopah : IsTonopah 7 8 world
world-IsTonopah = record {
  two = refl;
  array = refl;
  global = record { known1 = refl; known2 = refl; chosen = refl; list = intervals-IsIntervals };
}

abbrev event : Event
event = record {
  notification = acknowledgement;
  rtt_measurement = 50000;
  one_way_delay = 0;
  nb_bytes_acknowledged = 1500;
  current_time = 200000;
  clock = 200000;
  clock' = 200010;
  allocated = true;
}

tonopah_notify-Returns_example : Returns (IsTonopah 7 8) (tonopah_notify fractions world 8 event)
tonopah_notify-Returns_example =
    tonopah_notify-Returns fractions 7 8 world 8 event world-IsTonopah refl refl

set_path-IsSplit_example :
    Returns
      (λ r. IsSplit fractions (pick (7 == 7) 7 8) (pick (7 == 7) 8 7) 30000 world (r.0.paths))
      (set_path fractions true world sim 30000 200010)
set_path-IsSplit_example =
    set_path-IsSplit fractions true 7 8 7 8 7 world sim 30000 200010 world-IsTonopah refl refl refl
      refl refl refl

-- Without memory for the new interval NULL goes to memset.
run_no_memory : set_path fractions false world sim 30000 9000000 ≡ fault null_pointer
unfolding set_path mean_rtt slot end_interval is_interval_over close_interval aggregate_intervals
    aggregate_loop interval_list_len detects add_interval add_side react open_interval
run_no_memory = refl

-- The connection before its second path exists.
abbrev single : World (ℕ × ℕ)
single = record world {
  cnx = record cnx { nb_paths = 1 };
  slots = 7 ∷ [];
  globals = record globals { path2 = none; intervals = [] };
}
