-- ===== src/Frames/Switch.antt =====
-- `picoquic_skip_frame` and `picoquic_decode_closing_frames` of picoquic/frames.c: the frame types, and the
-- loop over the frames of a packet.
use fair_queuing_aware_conge.Common.{
  ℕ, zero, suc, ◌-◌, Bool, true, false, ◌&&◌, ◌||◌, List, [], ◌∷◌, Option, none, some, length, leb,
  ◌==◌, if◌then◌else◌, drop,
}
use fair_queuing_aware_conge.Frames.{frames_fixed_skip, frames_varint_skip, frames_varint_decode}
use fair_queuing_aware_conge.Frames.Skip.{
  skip_stream_frame, skip_ack_frame_maybe_ecn, skip_0len_frame, skip_stream_reset_frame,
  skip_connection_close_frame, skip_application_close_frame, skip_max_stream_data_frame,
  skip_stream_blocked_frame, skip_new_connection_id_frame, skip_stop_sending_frame,
  skip_crypto_hs_frame, skip_new_token_frame, skip_retire_connection_id_frame, skip_datagram_frame,
  skip_ack_frequency_frame, skip_time_stamp_frame, skip_path_abandon_frame, skip_bdp_frame,
}

abbrev pub challenge_length : ℕ
challenge_length = 8

-- What is left, or NULL, and `*pure_ack`.
abbrev pub Skipped : Type 0
Skipped = Option (List ℕ) × Bool

-- The frame types of more than one byte; `bytes` are those behind the type, `whole` those from it on.
unfoldable pub skip_long_type : ℕ → List ℕ → List ℕ → Skipped
skip_long_type frame_id64 whole bytes =
    if frame_id64 == 0xAF
    then (skip_ack_frequency_frame bytes, false)
    else (if frame_id64 == 757
        then (skip_time_stamp_frame bytes, true)
        else (if frame_id64 == 0xbaba00
            then (skip_ack_frame_maybe_ecn false true whole, true)
            else (if frame_id64 == 0xbaba01
                then (skip_ack_frame_maybe_ecn true true whole, true)
                else (if frame_id64 == 0xbaba05
                    then (skip_path_abandon_frame bytes, false)
                    else (if frame_id64 == 0xebd9
                        then (skip_bdp_frame bytes, false)
                        else (none, true))))))

-- The default of the switch, by what is read of the frame type.
unfoldable pub skip_by_type : List ℕ → Option (ℕ × List ℕ) → Skipped
skip_by_type whole none = (none, true)
skip_by_type whole (some (frame_id64, bytes)) = skip_long_type frame_id64 whole bytes

unfoldable pub skip_default : List ℕ → Skipped
skip_default whole = skip_by_type whole (frames_varint_decode whole)

-- The switch on the first byte, with the bytes behind it.
unfoldable pub skip_switch : ℕ → List ℕ → Skipped
skip_switch first bytes =
    if leb 0x08 first && leb first 0x0f
    then (skip_stream_frame first bytes, false)
    else (if first == 0x02
        then (skip_ack_frame_maybe_ecn false false (first ∷ bytes), true)
        else (if first == 0x03
            then (skip_ack_frame_maybe_ecn true false (first ∷ bytes), true)
            else (if first == 0x00
                then (some (skip_0len_frame first bytes), true)
                else (if first == 0x04
                    then (skip_stream_reset_frame bytes, false)
                    else (if first == 0x1c
                        then (skip_connection_close_frame bytes, false)
                        else (if first == 0x1d
                            then (skip_application_close_frame bytes, false)
                            else (if first == 0x10
                                then (frames_varint_skip bytes, false)
                                else (if first == 0x11
                                    then (skip_max_stream_data_frame bytes, false)
                                    else (if (first == 0x12) || (first == 0x13)
                                        then (frames_varint_skip bytes, false)
                                        else (if first == 0x01
                                            then (some (skip_0len_frame first bytes), false)
                                            else (if first == 0x14
                                                then (frames_varint_skip bytes, false)
                                                else (if first == 0x15
                                                    then (skip_stream_blocked_frame bytes, false)
                                                    else (if (first == 0x16) || (first == 0x17)
                                                        then (frames_varint_skip bytes, false)
                                                        else (if first == 0x18
                                                            then (
                                                            skip_new_connection_id_frame
                                                            (first ∷ bytes),
                                                            false,
                                                            )
                                                            else (if first == 0x05
                                                            then (
                                                            skip_stop_sending_frame bytes,
                                                            false,
                                                            )
                                                            else (if (first == 0x1a)
                                                            || (first == 0x1b)
                                                            then (
                                                            frames_fixed_skip bytes
                                                            challenge_length,
                                                            true,
                                                            )
                                                            else (if first == 0x06
                                                            then (skip_crypto_hs_frame bytes, false)
                                                            else (if first == 0x07
                                                            then (skip_new_token_frame bytes, false)
                                                            else (if first == 0x19
                                                            then (
                                                            skip_retire_connection_id_frame bytes,
                                                            false,
                                                            )
                                                            else (if first == 0x1e
                                                            then (some bytes, false)
                                                            else (if (first == 0x30)
                                                            || (first == 0x31)
                                                            then (
                                                            skip_datagram_frame first bytes,
                                                            false,
                                                            )
                                                            else skip_default
                                                            (first ∷ bytes))))))))))))))))))))))

-- What `picoquic_skip_frame` leaves in *consumed and *pure_ack, and whether it fails.
pub record SkipFrame : Type 0 where
  pub consumed : ℕ
  pub pure_ack : Bool
  pub failed : Bool

unfoldable pub consumed_of : ℕ → Skipped → SkipFrame
consumed_of size (none, pure_ack) = record { consumed = size; pure_ack = pure_ack; failed = true }
consumed_of size (some rest, pure_ack) = record {
  consumed = size - length rest;
  pure_ack = pure_ack;
  failed = false;
}

-- picoquic_skip_frame, of which no call has an empty buffer.
unfoldable pub skip_frame : ℕ → List ℕ → SkipFrame
skip_frame first bytes = consumed_of (suc (length bytes)) (skip_switch first bytes)

abbrev pub is_close : ℕ → Bool
is_close first = (first == 0x1c) || (first == 0x1d)

-- How `picoquic_decode_closing_frames` ends: with a frame that closes the connection, of which the bytes
-- go to its decoder unless the connection is closed already, at the end of the packet, or at a frame that
-- cannot be skipped.
pub data Closing : Type 0 where
  closing : List ℕ → Closing
  packet_end : Closing
  malformed : Closing
  out_of_fuel : Closing

-- The loop, on fuel.
unfoldable pub decode_closing_frames : ℕ → List ℕ → Closing
decode_closing_frames zero bytes = out_of_fuel
decode_closing_frames (suc fuel) [] = packet_end
decode_closing_frames (suc fuel) (first ∷ bytes) =
    let skipped = skip_frame first bytes in
    let later = decode_closing_frames fuel (drop skipped.consumed (first ∷ bytes)) in
    if is_close first
    then closing (first ∷ bytes)
    else (if skipped.failed then malformed else later)
