-- ===== src/AckFrames/Format.antt =====
-- `picoquic_format_ack_frame_in_context` and `picoquic_format_ack_frame` of picoquic/frames.c. The
-- functions take the room, `bytes_max - bytes`, and answer the bytes that they write; `*more_data` and
-- `*need_time_stamp` are among the results.
use fair_queuing_aware_conge.Common.{
  ℕ, ◌-◌, ◌/◌, ◌^◌, Bool, true, false, not, ◌&&◌, ◌||◌, List, [], ◌∷◌, ◌++◌, Option, none, some,
  length, ltb, if◌then◌else◌, sub64,
}
use mathlib.Core.List.{reverse}
use fair_queuing_aware_conge.Common.Int.{pos}
use fair_queuing_aware_conge.Frames.{frames_varint_encode, ◌then_put◌}
use fair_queuing_aware_conge.Frames.Format.{time_stamp_frame}
use fair_queuing_aware_conge.Sacks.{SackItem, SackList, record_sent}
use fair_queuing_aware_conge.Sacks.Acks.{
  AckTracking, AckContext, item_record_sent, select_ack_ranges, last_number,
}
use fair_queuing_aware_conge.AckFrames.{ack_header, AckBlocks, ack_blocks}

-- The fields of the connection that the functions use: local_parameters.ack_delay_exponent, start_time,
-- is_time_stamp_sent, is_multipath_enabled.
pub record AckConnection : Type 0 where
  pub ack_delay_exponent : ℕ
  pub start_time : ℕ
  pub is_time_stamp_sent : Bool
  pub is_multipath_enabled : Bool

-- The bytes and whether `*more_data` is set.
unfoldable pub or_more_data : Option (List ℕ) → List ℕ × Bool
or_more_data none = ([], true)
or_more_data (some out) = (out, false)

-- The call of picoquic_format_time_stamp_frame: the bytes and `*more_data`.
unfoldable pub put_time_stamp : AckConnection → ℕ → ℕ → List ℕ × Bool
put_time_stamp cnx room current_time =
    or_more_data
      (time_stamp_frame (sub64 current_time cnx.start_time / 2 ^ cnx.ack_delay_exponent) room)

unfoldable pub ack_delay_of : AckConnection → AckContext → ℕ → ℕ
ack_delay_of cnx c current_time =
    if ltb c.time_stamp_largest_received current_time
    then (current_time - c.time_stamp_largest_received) / 2 ^ cnx.ack_delay_exponent
    else 0

-- `act[1]` or `act[0]`
unfoldable pub with_act : Bool → (AckTracking → AckTracking) → AckContext → AckContext
with_act is_opportunistic f c = record c {
  act = λ r. if (if is_opportunistic then r else not r) then f (c.act r) else c.act r;
}

-- The bytes of the frame, the context and the list, and whether `*more_data` is set.
pub record AckFrame : Type 0 where
  pub bytes : List ℕ
  pub context : AckContext
  pub list : SackList
  pub more_data : Bool

-- `bytes = after_stamp`
unfoldable pub no_frame : AckContext → SackList → AckFrame
no_frame c s = record { bytes = []; context = c; list = s; more_data = true }

-- The header and the number of blocks, for which a byte is reserved; the first range; the blocks.
unfoldable pub ack_body : List ℕ → List ℕ → AckBlocks → List ℕ
ack_body header range_first blocks = header ++ (blocks.num_block ∷ (range_first ++ blocks.written))

-- The choice of the ranges, and the loop.
unfoldable pub put_blocks : Bool → ℕ → SackList → SackItem → List SackItem → AckBlocks
put_blocks opp room s last_sack previous =
    let top_sent = item_record_sent opp s (reverse previous) last_sack [] in
    let (nb_sent_max_acked, nb_sent_max_skip) =
      select_ack_ranges top_sent (some (record_sent opp last_sack)) (pos 32) opp in
    ack_blocks opp nb_sent_max_acked nb_sent_max_skip room last_sack.start_of_sack_range 0 top_sent
      previous (record_sent opp last_sack ∷ [])

unfoldable pub remember_sent : Bool → ℕ → ℕ → AckContext → AckContext
remember_sent opp largest current_time =
    with_act opp
      (λ a. record a { highest_ack_sent = largest; highest_ack_sent_time = current_time })

-- The frame up to the ECN counters: the first range where it is written, and the header where it is.
unfoldable pub with_first_range :
    Bool
    → ℕ
    → ℕ
    → AckContext
    → SackList
    → SackItem
    → List SackItem
    → List ℕ
    → Option (List ℕ)
    → AckFrame
with_first_range opp left current_time c s last_sack previous header none = no_frame c s
with_first_range opp left current_time c s last_sack previous header (some range_first) =
    let blocks = put_blocks opp (left - length range_first) s last_sack previous in
    record {
      bytes = ack_body header range_first blocks;
      context = remember_sent opp (last_number blocks.list.items) current_time c;
      list = blocks.list;
      more_data = blocks.no_room;
    }

unfoldable pub ack_ranges_part :
    Bool → ℕ → ℕ → AckContext → SackList → SackItem → List SackItem → Option (List ℕ) → AckFrame
ack_ranges_part opp room current_time c s last_sack previous none = no_frame c s
ack_ranges_part opp room current_time c s last_sack previous (some header) =
    let left = room - length header - 1 in
    with_first_range opp left current_time c s last_sack previous header
      (frames_varint_encode (sub64 last_sack.end_of_sack_range last_sack.start_of_sack_range) left)

unfoldable pub ecn_counters : AckContext → ℕ → Option (List ℕ)
ecn_counters c =
    frames_varint_encode c.ecn_ect0_total_local
    then_put frames_varint_encode c.ecn_ect1_total_local
    then_put frames_varint_encode c.ecn_ce_total_local

-- `*after_stamp = picoquic_frame_type_ack`
unfoldable pub set_type_ack : List ℕ → List ℕ
set_type_ack [] = []
set_type_ack (first ∷ rest) = 0x02 ∷ rest

unfoldable pub add_counters : AckFrame → Option (List ℕ) → AckFrame
add_counters f none = record f { bytes = set_type_ack f.bytes; more_data = true }
add_counters f (some counters) = record f { bytes = f.bytes ++ counters }

unfoldable pub with_ecn : ℕ → AckFrame → AckFrame
with_ecn room f =
    if ltb 0 (length f.bytes) && (f.context).sending_ecn_ack
    then add_counters f (ecn_counters f.context (room - length f.bytes))
    else f

unfoldable pub ack_done : Bool → AckContext → AckContext
ack_done opp =
    with_act opp
      (λ a. record a { ack_needed = false; ack_after_fin = false; out_of_order_received = false })

unfoldable pub clear_needed : Bool → AckFrame → AckFrame
clear_needed opp f =
    if ltb 0 (length f.bytes) then record f { context = ack_done opp f.context } else f

-- The frame behind the time stamp, of the list from its last item down.
unfoldable pub ack_frame :
    AckConnection → Bool → ℕ → ℕ → ℕ → AckContext → SackList → List SackItem → AckFrame
ack_frame cnx opp room current_time multipath_sequence c s [] = record {
  bytes = [];
  context = c;
  list = s;
  more_data = false;
}
ack_frame cnx opp room current_time multipath_sequence c s (last_sack ∷ previous) =
    let header =
      ack_header multipath_sequence c.sending_ecn_ack last_sack.end_of_sack_range
        (ack_delay_of cnx c current_time) in
    clear_needed opp
      (with_ecn room (ack_ranges_part opp room current_time c s last_sack previous (header room)))

-- The time stamp, where it is needed and there is something to acknowledge.
unfoldable pub stamp : AckConnection → Bool → ℕ → ℕ → SackList → List ℕ × Bool
stamp cnx need_time_stamp room current_time s =
    if need_time_stamp && ltb 0 (length s.items)
    then put_time_stamp cnx room current_time
    else ([], false)

-- picoquic_format_ack_frame_in_context: what is written, `*need_time_stamp`, and the rest.
unfoldable pub format_ack_frame_in_context :
    AckConnection → Bool → ℕ → ℕ → ℕ → AckContext → SackList → Bool → AckFrame × Bool
format_ack_frame_in_context cnx opp room current_time multipath_sequence c s need_time_stamp =
    let (time_stamp, no_room) = stamp cnx need_time_stamp room current_time s in
    let f =
      ack_frame cnx opp (room - length time_stamp) current_time multipath_sequence c s
        (reverse s.items) in
    (
      record f { bytes = time_stamp ++ f.bytes; more_data = no_room || f.more_data },
      need_time_stamp && not (ltb 0 (length s.items)),
    )
