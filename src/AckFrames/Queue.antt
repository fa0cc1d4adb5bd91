-- ===== src/AckFrames/Queue.antt =====
-- What a range that the peer acknowledges does to the queue of the packets that were sent:
-- picoquic_process_ack_range of picoquic/frames.c. The queue runs from the newest packet to the oldest.
-- What the loop does with a packet of the range before it takes it out of the queue (to the path, the
-- congestion control, and what the frames of the packet were about) is a function on a state, `on_acked`;
-- acknowledge_path is its part on the path.
pub mod Ranges
pub mod Rounds
pub mod Exact
mod Examples
use fair_queuing_aware_conge.Common.{
  ℕ, zero, suc, ◌+◌, ◌-◌, ◌%◌, Bool, true, false, not, ◌||◌, ◌&&◌, List, [], ◌∷◌, ◌++◌, Option,
  none, some, length, ltb, leb, ◌==◌, if◌then◌else◌, add64, sub64,
}

-- picoquic_packet_t
pub record SentPacket : Type 0 where
  pub sequence : ℕ
  pub path_packet_number : ℕ
  pub send_time : ℕ
  pub length : ℕ
  pub checksum_overhead : ℕ
  pub is_ack_trap : Bool

-- The fields of picoquic_path_t that an acknowledgement changes.
pub record SendPath : Type 0 where
  pub delivered : ℕ
  pub is_ack_lost : Bool
  pub is_ack_expected : Bool
  pub path_packet_acked_number : ℕ
  pub path_packet_acked_time_sent : ℕ
  pub path_packet_acked_received : ℕ
  pub nb_retransmit : ℕ
  pub send_mtu : ℕ
  pub nb_mtu_losses : ℕ
  pub mtu_probe_sent : Bool
  pub bytes_in_transit : ℕ
  pub is_cc_data_updated : Bool

-- The timer of the path
unfoldable pub track_acked : ℕ → SentPacket → SendPath → SendPath
track_acked current_time p path =
    if ltb path.path_packet_acked_number p.path_packet_number
    then record path {
      path_packet_acked_number = p.path_packet_number;
      path_packet_acked_time_sent = p.send_time;
      path_packet_acked_received = current_time;
      nb_retransmit = 0;
    }
    else path

-- A packet larger than the MTU raises it.
unfoldable pub track_mtu : SentPacket → SendPath → SendPath
track_mtu p path =
    let size = add64 p.length p.checksum_overhead in
    if size == path.send_mtu
    then record path { nb_mtu_losses = 0 }
    else (if ltb path.send_mtu size
        then record path { send_mtu = size; mtu_probe_sent = false }
        else path)

-- picoquic_dequeue_retransmit_packet: the bytes of the packet are no longer in transit.
unfoldable pub leave_transit : SentPacket → SendPath → SendPath
leave_transit p path =
    let dequeued_length = add64 p.length p.checksum_overhead in
    let left =
      if ltb dequeued_length path.bytes_in_transit
      then path.bytes_in_transit - dequeued_length
      else 0 in
    if p.is_ack_trap
    then path
    else record path { bytes_in_transit = left; is_cc_data_updated = true }

-- What an acknowledged packet does to the path that it was sent on.
unfoldable pub acknowledge_path : ℕ → SentPacket → SendPath → SendPath
acknowledge_path current_time p path =
    let counted = record path {
      delivered = add64 path.delivered p.length;
      is_ack_lost = false;
      is_ack_expected = false;
    } in
    leave_transit p (track_mtu p (track_acked current_time p counted))

-- The loop: what was passed and stays, the packets from `p` on, `highest`, `range`, and the state;
-- `is_trapped` is the break.
pub record Walk (S : Type 0) : Type 0 where
  pub passed : List SentPacket
  pub packets : List SentPacket
  pub highest : ℕ
  pub range : ℕ
  pub state : S
  pub is_trapped : Bool

-- The loop before its first round
abbrev pub walk_start : {S : Type 0} → List SentPacket → List SentPacket → ℕ → ℕ → S → Walk S
walk_start passed packets highest range s = record {
  passed = passed;
  packets = packets;
  highest = highest;
  range = range;
  state = s;
  is_trapped = false;
}

module _ {S : Type 0} (on_acked : SentPacket → S → S) where
  -- `range--; highest--`
  unfoldable pub lower : Walk S → Walk S
  lower w = record w { highest = sub64 w.highest 1; range = w.range - 1 }

  unfoldable pub acknowledge_packet : SentPacket → List SentPacket → Walk S → Walk S
  acknowledge_packet p next w =
      if p.is_ack_trap
      then record w { is_trapped = true }
      else lower (record w { packets = next; state = on_acked p w.state })

  unfoldable pub walk_at : Walk S → List SentPacket → Walk S
  walk_at w [] = w
  walk_at w (p ∷ next) =
      if ltb w.highest p.sequence
      then record w { passed = w.passed ++ (p ∷ []); packets = next }
      else (if p.sequence == w.highest then acknowledge_packet p next w else lower w)

  unfoldable pub is_over : Walk S → Bool
  is_over w = w.is_trapped || (length w.packets == 0) || (w.range == 0)

  -- Enough fuel is the number of the packets and of the numbers in the range.
  unfoldable pub walk : ℕ → Walk S → Option (Walk S)
  walk zero w = if is_over w then some w else none
  walk (suc fuel) w =
      let rest = walk fuel (walk_at w w.packets) in if is_over w then some w else rest

  -- picoquic_process_ack_range, from the packet `p` on
  unfoldable pub process_ack_range : ℕ → ℕ → List SentPacket → S → Option (Walk S)
  process_ack_range highest range packets s =
      walk (length packets + range) (walk_start [] packets highest range s)
