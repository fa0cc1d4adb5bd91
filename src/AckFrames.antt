-- ===== src/AckFrames.antt =====
-- ACK frames (picoquic/frames.c): the frame that is written from the received ranges of an
-- acknowledgement context, and the processing of one's own ACK frame when the packet that carried it is
-- acknowledged.
pub mod Format
pub mod Read
pub mod Paths
pub mod Queue
pub mod Invariant
pub mod Blocks
pub mod Written
pub mod RoundTrip
pub mod Acknowledges
pub mod Fits
pub mod Answer
pub mod Skipped
pub mod Dropped
mod Examples
use fair_queuing_aware_conge.Common.{
  ℕ, ◌+◌, ◌-◌, ◌/◌, ◌^◌, Bool, true, false, List, [], ◌∷◌, ◌++◌, Option, none, some, length, leb,
  ltb, ◌==◌, ◌&&◌, if◌then◌else◌, sub64, u64_max,
}
use mathlib.Core.List.{reverse}
use fair_queuing_aware_conge.Common.Int.{ℤ, pos, ◌-ℤ◌, ltb_ℤ}
use fair_queuing_aware_conge.Frames.{frames_varint_encode, put, ◌then_put◌}
use fair_queuing_aware_conge.Sacks.{SackItem, SackList, record_sent}
use fair_queuing_aware_conge.Sacks.Acks.{item_record_sent}

-- The header of the frame up to the delay: `ack_type_byte`, the path where there is one, the largest
-- number and the delay.
unfoldable pub ack_type_byte : ℕ → Bool → ℕ
ack_type_byte multipath_sequence is_ecn =
    if multipath_sequence == u64_max
    then (if is_ecn then 0x03 else 0x02)
    else (if is_ecn then 0xbaba01 else 0xbaba00)

unfoldable pub ack_header : ℕ → Bool → ℕ → ℕ → ℕ → Option (List ℕ)
ack_header multipath_sequence is_ecn largest ack_delay =
    frames_varint_encode (ack_type_byte multipath_sequence is_ecn)
    then_put (if multipath_sequence == u64_max
        then put []
        else frames_varint_encode multipath_sequence)
    then_put frames_varint_encode largest
    then_put frames_varint_encode ack_delay

-- Whether a range is passed over, is one of those of nb_sent_max_skip, or is written.
pub data Choice : Type 0 where
  pass : Choice
  skip : Choice
  send : Choice

unfoldable pub choose : Bool → ℕ → ℤ → SackItem → Choice
choose is_opportunistic nb_sent_max_acked nb_sent_max_skip next_sack =
    let nb_times_sent = next_sack.nb_times_sent is_opportunistic in
    if leb nb_times_sent nb_sent_max_acked
    then (if (nb_times_sent == nb_sent_max_acked) && ltb_ℤ (pos 0) nb_sent_max_skip
        then skip
        else send)
    else pass

-- The gap in front of a range, and the range.
unfoldable pub ack_block : ℕ → SackItem → ℕ → Option (List ℕ)
ack_block lowest_acknowledged next_sack =
    frames_varint_encode (sub64 (sub64 lowest_acknowledged next_sack.end_of_sack_range) 2)
    then_put frames_varint_encode (sub64 next_sack.end_of_sack_range next_sack.start_of_sack_range)

-- What the loop over the ranges below the last one writes, how many ranges these are, the list, and
-- whether `*more_data` is set.
pub record AckBlocks : Type 0 where
  pub written : List ℕ
  pub num_block : ℕ
  pub list : SackList
  pub no_room : Bool

unfoldable pub block_before : List ℕ → AckBlocks → AckBlocks
block_before block later = record later {
  written = block ++ later.written;
  num_block = 1 + later.num_block;
}

-- What the loop goes on with: nb_sent_max_skip, the room, the lowest acknowledged number, the number of
-- blocks, the list, and the item it comes from.
abbrev pub GoOn : Type 0
GoOn = ℤ → ℕ → ℕ → ℕ → SackList → SackItem → AckBlocks

unfoldable pub no_more : SackList → Bool → AckBlocks
no_more s no_room = record { written = []; num_block = 0; list = s; no_room = no_room }

-- Where there is no room for the block, `bytes = bytes_start_range`.
unfoldable pub send_block :
    Bool
    → ℤ
    → ℕ
    → ℕ
    → SackList
    → List SackItem
    → SackItem
    → List SackItem
    → GoOn
    → Option (List ℕ)
    → AckBlocks
send_block opp max_skip room num_block s previous next_sack behind go_on none = no_more s true
send_block opp max_skip room num_block s previous next_sack behind go_on (some block) =
    let sent = item_record_sent opp s (reverse previous) next_sack behind in
    block_before block (
      go_on max_skip (room - length block) next_sack.start_of_sack_range (num_block + 1) sent
        (record_sent opp next_sack))

unfoldable pub ack_item :
    Bool
    → ℤ
    → ℕ
    → ℕ
    → ℕ
    → SackList
    → List SackItem
    → SackItem
    → List SackItem
    → GoOn
    → Choice
    → AckBlocks
ack_item opp max_skip room lowest num_block s previous next_sack behind go_on pass =
    go_on max_skip room lowest num_block s next_sack
ack_item opp max_skip room lowest num_block s previous next_sack behind go_on skip =
    go_on (max_skip -ℤ pos 1) room lowest num_block s next_sack
ack_item opp max_skip room lowest num_block s previous next_sack behind go_on send =
    send_block opp max_skip room num_block s previous next_sack behind go_on
      (ack_block lowest next_sack room)

-- `while (num_block < 32 && next_sack != NULL)`: the items before the last one that are left, the nearest
-- first, and the items behind these.
unfoldable pub ack_blocks :
    Bool → ℕ → ℤ → ℕ → ℕ → ℕ → SackList → List SackItem → List SackItem → AckBlocks
ack_blocks opp max_acked max_skip room lowest num_block s [] behind = no_more s false
ack_blocks opp max_acked max_skip room lowest num_block s (next_sack ∷ previous) behind =
    if ltb num_block 32
    then ack_item opp max_skip room lowest num_block s previous next_sack behind
        (λ max_skip room lowest num_block s item.
          ack_blocks opp max_acked max_skip room lowest num_block s previous (item ∷ behind))
        (choose opp max_acked max_skip next_sack)
    else no_more s false
