-- ===== src/Cc/Path.antt =====
-- The fields of picoquic_path_t and picoquic_cnx_t (picoquic/picoquic_internal.h) that congestion
-- control and pacing read and write.
use fair_queuing_aware_conge.Common.{ℕ, Bool, List}
use fair_queuing_aware_conge.Common.Int.{ℤ}

-- picoquic_path_t. The name `packet_number` stands for path_packet_number, and so on; the integers
-- of type int64_t are ℤ, those of type uint64_t are numbers.
pub record PathState : Type 0 where
  pub cwin : ℕ
  pub smoothed_rtt : ℕ
  pub rtt_min : ℕ
  pub send_mtu : ℕ
  pub packet_number : ℕ
  pub packet_acked_number : ℕ
  pub packet_acked_time_sent : ℕ
  pub last_time_acked_data_frame_sent : ℕ
  pub last_sender_limited_time : ℕ
  pub max_bandwidth_estimate : ℕ
  pub is_cc_data_updated : Bool
  pub is_ssthresh_initialized : Bool
  pub pacing_rate : ℕ
  pub pacing_evaluation_time : ℕ
  pub pacing_bucket_nanosec : ℤ
  pub pacing_bucket_max : ℤ
  pub pacing_packet_time_nanosec : ℤ
  pub pacing_packet_time_microsec : ℕ
  pub pacing_quantum_max : ℕ
  pub pacing_rate_max : ℕ

-- picoquic_cnx_t, without the paths. `algorithm_number` is that of congestion_alg, `has_callback`
-- says that callback_fn is not NULL, and `pacing_signals` lists the rates that the callback was
-- given, the last one first.
pub record Cnx : Type 0 where
  pub nb_paths : ℕ
  pub is_multipath_enabled : Bool
  pub is_time_stamp_enabled : Bool
  pub algorithm_number : ℕ
  pub is_pacing_update_requested : Bool
  pub has_callback : Bool
  pub pacing_rate_signalled : ℕ
  pub pacing_increase_threshold : ℕ
  pub pacing_decrease_threshold : ℕ
  pub pacing_signals : List ℕ
