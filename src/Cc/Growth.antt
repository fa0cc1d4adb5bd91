-- ===== src/Cc/Growth.antt =====
-- The rest of picoquic/cc_common.c: the reads of the path's packet numbers, and the growth of the window in
-- slow start and on a path with a long delay.
mod Examples
use fair_queuing_aware_conge.Common.{ℕ, ◌+◌, ◌*◌, ◌%◌, if◌then◌else◌, ltb, leb, add64, mul64}
use fair_queuing_aware_conge.Cc.{Doubles, target_reno_rtt, target_satellite_rtt}
use fair_queuing_aware_conge.Cc.Path.{PathState}

unfoldable pub cc_get_sequence_number : PathState → ℕ
cc_get_sequence_number path_x = path_x.packet_number

unfoldable pub cc_get_ack_number : PathState → ℕ
cc_get_ack_number path_x = path_x.packet_acked_number

unfoldable pub cc_get_ack_sent_time : PathState → ℕ
cc_get_ack_sent_time path_x = path_x.packet_acked_time_sent

-- picoquic_hystart_increase; the filter is not read.
unfoldable pub hystart_increase : PathState → ℕ → PathState
hystart_increase path_x nb_delivered = record path_x { cwin = add64 path_x.cwin nb_delivered }

module _ (d : Doubles) where
  open d use {of_u64, to_u64, times, over}

  -- picoquic_cc_increased_window, with the first path of the connection
  unfoldable pub cc_increased_window : PathState → ℕ → ℕ
  cc_increased_window first_path previous_window =
      let rtt_min = first_path.rtt_min in
      if leb rtt_min target_reno_rtt
      then mul64 previous_window 2
      else to_u64 (
          times (over (of_u64 previous_window) (of_u64 target_reno_rtt))
            (of_u64 (if ltb target_satellite_rtt rtt_min then target_satellite_rtt else rtt_min)))
