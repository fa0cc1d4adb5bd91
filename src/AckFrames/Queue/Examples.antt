-- ===== src/AckFrames/Queue/Examples.antt =====
-- An acknowledged range of three numbers in a queue of five packets (picoquic/frames.c).
use fair_queuing_aware_conge.Common.{
  ℕ, ◌*◌, ◌≡◌, refl, Bool, true, false, List, [], ◌∷◌, some, arith,
}
use fair_queuing_aware_conge.AckFrames.Queue.{
  SentPacket, SendPath, Walk, acknowledge_path, track_acked, track_mtu, leave_transit,
  process_ack_range,
}
use fair_queuing_aware_conge.AckFrames.Queue.Rounds.{IsExact}
use fair_queuing_aware_conge.AckFrames.Queue.Exact.{process_ack_range-IsExact}

abbrev packet : ℕ → Bool → SentPacket
packet number is_ack_trap = record {
  sequence = number;
  path_packet_number = number;
  send_time = 10 * number;
  length = 1200;
  checksum_overhead = 16;
  is_ack_trap = is_ack_trap;
}

-- The packet 3 is a trap, and outside of the range.
abbrev queue : List SentPacket
queue = packet 9 false ∷ packet 8 false ∷ packet 6 false ∷ packet 5 false ∷ packet 3 true ∷ []

abbrev path : SendPath
path = record {
  delivered = 5000;
  is_ack_lost = true;
  is_ack_expected = true;
  path_packet_acked_number = 7;
  path_packet_acked_time_sent = 70;
  path_packet_acked_received = 90;
  nb_retransmit = 2;
  send_mtu = 1216;
  nb_mtu_losses = 1;
  mtu_probe_sent = false;
  bytes_in_transit = 6000;
  is_cc_data_updated = false;
}

-- Packet 8 raises the highest acknowledged number, and packet 6 does not.
path_run :
    acknowledge_path 100 (packet 6 false) (acknowledge_path 100 (packet 8 false) path) ≡ record {
      delivered = 7400;
      is_ack_lost = false;
      is_ack_expected = false;
      path_packet_acked_number = 8;
      path_packet_acked_time_sent = 80;
      path_packet_acked_received = 100;
      nb_retransmit = 0;
      send_mtu = 1216;
      nb_mtu_losses = 0;
      mtu_probe_sent = false;
      bytes_in_transit = 3568;
      is_cc_data_updated = true;
    }
unfolding acknowledge_path track_acked track_mtu leave_transit
path_run = refl

process_ack_range-IsExact_example :
    (v : Walk SendPath) × (process_ack_range (acknowledge_path 100) 8 3 queue path ≡ some v)
    × IsExact (acknowledge_path 100) [] queue 8 3 path v
process_ack_range-IsExact_example =
    process_ack_range-IsExact (acknowledge_path 100) 8 3 queue path (omega arith) (omega arith)
      (omega arith) (ground arith) (ground arith)
