-- ===== src/PacketNumber/Examples.antt =====
-- Packet numbers (picoquic/packet.c) at the numbers of RFC 9000, A.3, and at the roll of a byte.
use fair_queuing_aware_conge.Common.{◌-◌, ◌^◌, [], ◌∷◌, ◌≡◌, refl, arith}
use fair_queuing_aware_conge.PacketNumber.{
  get_packet_number64, not_mask_plus_one, read_pn, packet_number64,
}
use fair_queuing_aware_conge.Common.{ℕ, List, Bool, true, false, not, ◌&&◌}
use fair_queuing_aware_conge.Sacks.Tree.{list_splay}
use fair_queuing_aware_conge.Sacks.{
  SackList, find_range_below_number, place, insert_item, new_item, item_compare,
}
use fair_queuing_aware_conge.Sacks.Operations.{
  is_pn_already_received, update_sack_list, finish_update, update_at, update_above,
}
use fair_queuing_aware_conge.Sacks.Acks.{
  record_pn_received, AckTracking, AckContext, sack_list_init, last_number,
  process_ack_of_ack_range, process_at, forget, delete_item,
}
use fair_queuing_aware_conge.PacketNumber.Receive.{
  verdict_on, receive_packet, is_new, header_pn64, process_acked_ranges,
}
use fair_queuing_aware_conge.PacketNumber.Packets.{
  Packet, IsRegular, arrival, kept, accepted, outcome,
}
use fair_queuing_aware_conge.PacketNumber.Arrivals.{AreRegular, receive_all, receive_all-verdict_on}
use fair_queuing_aware_conge.PacketNumber.Window.{low_bytes, packet_number64-low_bytes}

rfc_run : packet_number64 0xA82F30EA (0x9B ∷ 0x32 ∷ []) ≡ 0xA82F9B32
unfolding packet_number64 read_pn get_packet_number64 not_mask_plus_one
rfc_run = refl

previous_roll_run : packet_number64 0x101 (0xFE ∷ []) ≡ 0xFE
unfolding packet_number64 read_pn get_packet_number64 not_mask_plus_one
previous_roll_run = refl

packet_number64-low_bytes_example : packet_number64 0x1FE (low_bytes 1 0x203) ≡ 0x203
packet_number64-low_bytes_example =
    packet_number64-low_bytes 1 0x1FE 0x203 (omega arith) (omega arith) (omega arith) (omega arith)
      (omega arith) (omega arith)

wrapped_run : packet_number64 (2 ^ 64 - 1) (0x05 ∷ []) ≡ 5
unfolding packet_number64 read_pn get_packet_number64 not_mask_plus_one
wrapped_run = refl

abbrev tracking : AckTracking
tracking = record {
  highest_ack_sent = 0;
  highest_ack_sent_time = 0;
  time_oldest_unack_packet_received = 0;
  ack_needed = false;
  ack_after_fin = false;
  out_of_order_received = false;
}

abbrev context : AckContext
context = record {
  time_stamp_largest_received = 0;
  act = λ r. tracking;
  ecn_ect0_total_local = 0;
  ecn_ect1_total_local = 0;
  ecn_ce_total_local = 0;
  sending_ecn_ack = false;
}

-- A packet with a number, of which one byte is sent, and the ranges that it acknowledges.
abbrev packet : ℕ → Bool → List (ℕ × ℕ) → Packet
packet number is_decrypted acked_ranges = record {
  number = number;
  pn_length = 1;
  is_key_ready = true;
  is_decrypted = is_decrypted;
  has_reset_secret = false;
  acked_ranges = acked_ranges;
  is_processed = true;
  is_connected = true;
  receive_time = 10;
}

-- The packets 0 and 2, one that is not decrypted, and one that acknowledges the range of 0, which is then
-- dropped from the list.
abbrev packets : List Packet
packets = packet 0 true [] ∷ packet 2 true [] ∷ packet 3 false [] ∷ packet 4 true ((0, 0) ∷ []) ∷ []

abbrev list_after : List Packet → SackList
list_after ps = (receive_all list_splay context sack_list_init ps).1

first-IsRegular : IsRegular sack_list_init (packet 0 true [])
unfolding sack_list_init last_number
first-IsRegular = record {
  some_bytes = omega arith;
  few_bytes = omega arith;
  next_small = omega arith;
  small = omega arith;
  not_far_below = omega arith;
  not_far_above = omega arith;
  ranges = tt;
}

packets-AreRegular : AreRegular list_splay context sack_list_init packets
unfolding receive_packet header_pn64 process_acked_ranges sack_list_init last_number is_new
    verdict_on is_pn_already_received find_range_below_number place record_pn_received
    update_sack_list finish_update update_at update_above insert_item new_item packet_number64
    get_packet_number64 read_pn not_mask_plus_one process_ack_of_ack_range process_at forget
    delete_item item_compare
packets-AreRegular = (
  first-IsRegular,
  (
    record {
      some_bytes = omega arith;
      few_bytes = omega arith;
      next_small = omega arith;
      small = omega arith;
      not_far_below = omega arith;
      not_far_above = omega arith;
      ranges = tt;
    },
    (
      record {
        some_bytes = omega arith;
        few_bytes = omega arith;
        next_small = omega arith;
        small = omega arith;
        not_far_below = omega arith;
        not_far_above = omega arith;
        ranges = tt;
      },
      (
        record {
          some_bytes = omega arith;
          few_bytes = omega arith;
          next_small = omega arith;
          small = omega arith;
          not_far_below = omega arith;
          not_far_above = omega arith;
          ranges = (omega arith, omega arith, tt);
        },
        tt,
      ),
    ),
  ),
)

-- The list holds 2 and 4.
list_run : last_number (list_after packets).items ≡ 4
unfolding receive_all receive_packet header_pn64 process_acked_ranges sack_list_init last_number
    is_new verdict_on is_pn_already_received find_range_below_number place record_pn_received
    update_sack_list finish_update update_at update_above insert_item new_item packet_number64
    get_packet_number64 read_pn not_mask_plus_one process_ack_of_ack_range process_at forget
    delete_item item_compare
list_run = refl

trimmed_run : is_pn_already_received list_splay (list_after packets) 0 ≡ false
unfolding receive_all receive_packet header_pn64 process_acked_ranges sack_list_init last_number
    is_new verdict_on is_pn_already_received find_range_below_number place record_pn_received
    update_sack_list finish_update update_at update_above insert_item new_item packet_number64
    get_packet_number64 read_pn not_mask_plus_one process_ack_of_ack_range process_at forget
    delete_item item_compare
trimmed_run = refl

repeated-IsRegular : IsRegular (list_after packets) (packet 2 true [])
repeated-IsRegular = record {
  some_bytes = omega arith;
  few_bytes = omega arith;
  next_small = ground (arith, list_run);
  small = omega arith;
  not_far_below = ground (arith, list_run);
  not_far_above = ground (arith, list_run);
  ranges = tt;
}

receive_all-verdict_on_example :
    (seen : Bool) × (verdict_on list_splay (list_after packets) (arrival (packet 2 true []))
      ≡ outcome (packet 2 true []) seen)
    × ((kept packets 2 && not seen) ≡ false)
    × ((seen && not (accepted packets 2)) ≡ false)
receive_all-verdict_on_example =
    receive_all-verdict_on list_splay context packets (packet 2 true []) packets-AreRegular
      repeated-IsRegular
