-- ===== src/AckFrames/Examples.antt =====
-- Runs of the ACK frames (picoquic/frames.c), and their theorems at concrete lists.
use fair_queuing_aware_conge.Common.{
  ℕ, ◌-◌, ◌<◌, ◌^◌, ◌≡◌, refl, ◌⊎◌, true, false, List, [], ◌∷◌, ◌++◌, length, u64_max, arith,
}
use fair_queuing_aware_conge.Common.Int.{pos}
use fair_queuing_aware_conge.Frames.{put, ◌then_put◌, frames_varint_encode}
use fair_queuing_aware_conge.Sacks.{
  SackItem, SackList, insert_item, find_range_below_number, new_item, place, item_compare,
  count_new, record_sent, uncount,
}
use fair_queuing_aware_conge.Sacks.Tree.{list_splay}
use fair_queuing_aware_conge.Sacks.Operations.{
  update_sack_list, finish_update, update_at, update_above, extend,
}
use fair_queuing_aware_conge.Sacks.Acks.{
  AckTracking, AckContext, sack_list_init, item_record_sent, count_sent, select_ack_ranges,
  select_loop, last_number,
}
use fair_queuing_aware_conge.Sacks.Reached.{Reached, started, updated, Reached-IsSack}
use fair_queuing_aware_conge.Sacks.Ranges.{IsFrom}
use fair_queuing_aware_conge.AckFrames.{
  ack_header, ack_type_byte, ack_block, ack_blocks, ack_item, choose, send_block, block_before,
  no_more,
}
use fair_queuing_aware_conge.AckFrames.Format.{
  AckConnection, AckFrame, stamp, format_ack_frame_in_context, ack_frame, ack_delay_of,
  ack_ranges_part, with_first_range, put_blocks, ack_body, remember_sent, with_act, with_ecn,
  ecn_counters, add_counters, set_type_ack, clear_needed, ack_done,
}
use fair_queuing_aware_conge.AckFrames.Read.{process_ack_of_ack_frame}
use fair_queuing_aware_conge.AckFrames.Answer.{
  Acknowledges, has_counters, format_ack_frame-Acknowledges,
}
use fair_queuing_aware_conge.AckFrames.Dropped.{Forgets, format-process_ack_of_ack_frame}
use fair_queuing_aware_conge.AckFrames.Invariant.{process_ack_of_ack_frame-Reached}

abbrev cnx : AckConnection
cnx = record {
  ack_delay_exponent = 3;
  start_time = 0;
  is_time_stamp_sent = false;
  is_multipath_enabled = false;
}

abbrev tracking : AckTracking
tracking = record {
  highest_ack_sent = 0;
  highest_ack_sent_time = 0;
  time_oldest_unack_packet_received = 0;
  ack_needed = true;
  ack_after_fin = false;
  out_of_order_received = true;
}

abbrev context : AckContext
context = record {
  time_stamp_largest_received = 100;
  act = λ r. tracking;
  ecn_ect0_total_local = 5;
  ecn_ect1_total_local = 0;
  ecn_ce_total_local = 1;
  sending_ecn_ack = true;
}

-- The numbers 3 to 5, and then 10 to 12, are received.
abbrev first : SackList
first = (update_sack_list list_splay true sack_list_init 3 5 90).0

abbrev two_ranges : SackList
two_ranges = (update_sack_list list_splay true first 10 12 100).0

two_ranges-Reached : Reached list_splay two_ranges
two_ranges-Reached =
    updated first 10 12 100 (updated sack_list_init 3 5 90 started (omega arith) (omega arith))
      (omega arith) (omega arith)

abbrev written : AckFrame
written = (format_ack_frame_in_context cnx false 100 500 u64_max context two_ranges false).0

-- The largest number, the delay, one block behind the first range, and the three counters.
run_format : written.bytes ≡ 0x03 ∷ (12 ∷ (50 ∷ (1 ∷ (2 ∷ (3 ∷ (2 ∷ (5 ∷ (0 ∷ (1 ∷ [])))))))))
unfolding update_sack_list finish_update update_at update_above insert_item extend
    find_range_below_number new_item place item_compare sack_list_init count_new
    fair_queuing_aware_conge.Common.Int.◌+ℤ◌ fair_queuing_aware_conge.Common.Int.◌-ℤ◌
    format_ack_frame_in_context stamp ack_frame ack_header ack_type_byte ack_delay_of put ◌then_put◌
    frames_varint_encode ack_ranges_part with_first_range put_blocks item_record_sent count_sent
    record_sent uncount select_ack_ranges select_loop ack_blocks ack_item choose send_block
    ack_block block_before no_more ack_body remember_sent with_act with_ecn ecn_counters
    add_counters set_type_ack clear_needed ack_done last_number
run_format = refl

abbrev on_a_path : AckFrame
on_a_path = (format_ack_frame_in_context cnx false 12 500 7 context two_ranges false).0

-- Without room for the counters, the frame of a path begins with the type of an ACK frame, behind which
-- the rest of its own type 0x80baba01 is left.
run_format_path :
    on_a_path.bytes
    ≡ 0x02 ∷ (0xba ∷ (0xba ∷ (0x01 ∷ (7 ∷ (12 ∷ (50 ∷ (1 ∷ (2 ∷ (3 ∷ (2 ∷ []))))))))))
unfolding update_sack_list finish_update update_at update_above insert_item extend
    find_range_below_number new_item place item_compare sack_list_init count_new
    fair_queuing_aware_conge.Common.Int.◌+ℤ◌ fair_queuing_aware_conge.Common.Int.◌-ℤ◌
    format_ack_frame_in_context stamp ack_frame ack_header ack_type_byte ack_delay_of put ◌then_put◌
    frames_varint_encode ack_ranges_part with_first_range put_blocks item_record_sent count_sent
    record_sent uncount select_ack_ranges select_loop ack_blocks ack_item choose send_block
    ack_block block_before no_more ack_body remember_sent with_act with_ecn ecn_counters
    add_counters set_type_ack clear_needed ack_done last_number
run_format_path = refl

delay_small : ack_delay_of cnx context 500 < 2 ^ 62
unfolding ack_delay_of
delay_small = omega arith

two_ranges-order : IsFrom 0 two_ranges.items
two_ranges-order = (Reached-IsSack list_splay two_ranges-Reached).order

format_ack_frame-Acknowledges_example :
    let front = (stamp cnx false 100 500 two_ranges).0 in
    ((written.bytes ≡ front) × ((two_ranges.items ≡ []) ⊎ (100 - length front < 26)))
    ⊎ ((frame : List ℕ) × ((written.bytes ≡ front ++ frame)
          × Acknowledges list_splay two_ranges written.list frame))
format_ack_frame-Acknowledges_example =
    format_ack_frame-Acknowledges list_splay cnx false 100 500 context two_ranges false
      two_ranges-order delay_small (omega arith, omega arith, omega arith)

format-process_ack_of_ack_frame_example :
    (ranges : List SackItem) × Forgets two_ranges
      (process_ack_of_ack_frame list_splay
        (has_counters written.bytes)
        written.list
        (written.bytes ++ (0x01 ∷ []))).list
      ranges
unfolding update_sack_list finish_update update_at update_above insert_item extend
    find_range_below_number new_item place item_compare sack_list_init count_new
    fair_queuing_aware_conge.Common.Int.◌+ℤ◌ fair_queuing_aware_conge.Common.Int.◌-ℤ◌
format-process_ack_of_ack_frame_example =
    format-process_ack_of_ack_frame list_splay cnx false 100 500 context two_ranges (0x01 ∷ [])
      two_ranges-Reached (omega arith) refl delay_small (omega arith, omega arith, omega arith)
      (omega arith)

process_ack_of_ack_frame-Reached_example :
    Reached list_splay
      (process_ack_of_ack_frame list_splay false two_ranges
        (0x02 ∷ (12 ∷ (0 ∷ (1 ∷ (2 ∷ (3 ∷ (9 ∷ [])))))))).list
process_ack_of_ack_frame-Reached_example =
    process_ack_of_ack_frame-Reached list_splay false two_ranges
      (0x02 ∷ (12 ∷ (0 ∷ (1 ∷ (2 ∷ (3 ∷ (9 ∷ []))))))) two_ranges-Reached
      (
        omega arith,
        (
          omega arith,
          (omega arith, (omega arith, (omega arith, (omega arith, (omega arith, tt))))),
        ),
      )
