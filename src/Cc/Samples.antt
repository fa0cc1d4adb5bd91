-- ===== src/Cc/Samples.antt =====
-- Exact fractions without a sign in the place of the floating point operations, and a path and a
-- connection: the runs and the theorems at concrete inputs take them.
use fair_queuing_aware_conge.Common.{ℕ, ◌+◌, ◌-◌, ◌*◌, ◌/◌, ◌^◌, true, false, [], ltb}
use fair_queuing_aware_conge.Common.Int.{pos}
use fair_queuing_aware_conge.Cc.{Doubles, cwin_initial}
use fair_queuing_aware_conge.Cc.Path.{PathState, Cnx}

abbrev pub fractions : Doubles
fractions = record {
  Double = ℕ × ℕ;
  literal = λ m k. (m, 10 ^ k);
  of_u64 = λ n. (n, 1);
  to_u64 = λ (a, b). a / b;
  plus = λ (a, b) (c, d). (a * d + c * b, b * d);
  minus = λ (a, b) (c, d). (a * d - c * b, b * d);
  times = λ (a, b) (c, d). (a * c, b * d);
  over = λ (a, b) (c, d). (a * d, b * c);
  less = λ (a, b) (c, d). ltb (a * d) (c * b);
}

-- A path and a connection in their first state, up to what the runs change.
abbrev pub path : PathState
path = record {
  cwin = cwin_initial;
  smoothed_rtt = 50000;
  rtt_min = 40000;
  send_mtu = 1500;
  packet_number = 20;
  packet_acked_number = 10;
  packet_acked_time_sent = 900;
  last_time_acked_data_frame_sent = 500;
  last_sender_limited_time = 0;
  max_bandwidth_estimate = 1000000;
  is_cc_data_updated = false;
  is_ssthresh_initialized = false;
  pacing_rate = 0;
  pacing_evaluation_time = 1000;
  pacing_bucket_nanosec = pos 3000000;
  pacing_bucket_max = pos 4000000;
  pacing_packet_time_nanosec = pos 1000000;
  pacing_packet_time_microsec = 1000;
  pacing_quantum_max = 0;
  pacing_rate_max = 0;
}

abbrev pub cnx : Cnx
cnx = record {
  nb_paths = 2;
  is_multipath_enabled = true;
  is_time_stamp_enabled = false;
  algorithm_number = 1;
  is_pacing_update_requested = false;
  has_callback = false;
  pacing_rate_signalled = 0;
  pacing_increase_threshold = 0;
  pacing_decrease_threshold = 0;
  pacing_signals = [];
}
