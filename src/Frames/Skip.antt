-- ===== src/Frames/Skip.antt =====
-- The functions of picoquic/frames.c that skip a frame of one type. They take the bytes from the frame
-- type on where the code does, as the first byte and those behind it, and else those behind the type.
use fair_queuing_aware_conge.Common.{
  ℕ, zero, suc, ◌+◌, ◌%◌, ◌/◌, Bool, List, [], ◌∷◌, Option, none, some, length, leb, drop, ◌==◌,
  if◌then◌else◌,
}
use fair_queuing_aware_conge.Frames.{
  ◌>>=◌, frames_fixed_skip, frames_varint_skip, frames_varint_decode, frames_uint8_decode,
  frames_length_data_skip,
}

abbrev pub reset_secret_size : ℕ
reset_secret_size = 16

-- Two, and three, integers of variable length.
unfoldable pub skip_two : List ℕ → Option (List ℕ)
skip_two bytes = do bytes ← frames_varint_skip bytes; frames_varint_skip bytes

unfoldable pub skip_three : List ℕ → Option (List ℕ)
skip_three bytes = do bytes ← skip_two bytes; frames_varint_skip bytes

-- `bytes[0] & 2` and `bytes[0] & 4`
abbrev pub has_length : ℕ → Bool
has_length first = first / 2 % 2 == 1

abbrev pub has_offset : ℕ → Bool
has_offset first = first / 4 % 2 == 1

unfoldable pub skip_stream_frame : ℕ → List ℕ → Option (List ℕ)
skip_stream_frame first bytes = do
  bytes ← frames_varint_skip bytes
  bytes ← if has_offset first then frames_varint_skip bytes else some bytes
  if has_length first then frames_length_data_skip bytes else some []

unfoldable pub skip_crypto_hs_frame : List ℕ → Option (List ℕ)
skip_crypto_hs_frame bytes = do bytes ← frames_varint_skip bytes; frames_length_data_skip bytes

unfoldable pub skip_connection_close_frame : List ℕ → Option (List ℕ)
skip_connection_close_frame bytes = do bytes ← skip_two bytes; frames_length_data_skip bytes

unfoldable pub skip_application_close_frame : List ℕ → Option (List ℕ)
skip_application_close_frame bytes = do
  bytes ← frames_varint_skip bytes
  frames_length_data_skip bytes

-- `while (nb_blocks-- != 0)`
unfoldable pub skip_blocks : ℕ → List ℕ → Option (List ℕ)
skip_blocks zero bytes = some bytes
skip_blocks (suc nb_blocks) bytes = do bytes ← skip_two bytes; skip_blocks nb_blocks bytes

-- picoquic_skip_ack_frame_maybe_ecn; the bytes begin with the frame type.
unfoldable pub skip_ack_frame_maybe_ecn : Bool → Bool → List ℕ → Option (List ℕ)
skip_ack_frame_maybe_ecn is_ecn has_path bytes = do
  bytes ← skip_two bytes
  bytes ← if has_path then frames_varint_skip bytes else some bytes
  bytes ← frames_varint_skip bytes
  (nb_blocks, bytes) ← frames_varint_decode bytes
  bytes ← frames_varint_skip bytes
  bytes ← skip_blocks nb_blocks bytes
  if is_ecn then skip_three bytes else some bytes

unfoldable pub skip_stream_reset_frame : List ℕ → Option (List ℕ)
skip_stream_reset_frame bytes = skip_three bytes

unfoldable pub skip_max_stream_data_frame : List ℕ → Option (List ℕ)
skip_max_stream_data_frame bytes = skip_two bytes

unfoldable pub skip_stream_blocked_frame : List ℕ → Option (List ℕ)
skip_stream_blocked_frame bytes = skip_two bytes

unfoldable pub skip_stop_sending_frame : List ℕ → Option (List ℕ)
skip_stop_sending_frame bytes = skip_two bytes

-- The bytes begin with the frame type, which is skipped as an integer of variable length.
unfoldable pub skip_new_connection_id_frame : List ℕ → Option (List ℕ)
skip_new_connection_id_frame bytes = do
  bytes ← skip_three bytes
  (cid_length, bytes) ← frames_uint8_decode bytes
  frames_fixed_skip bytes (cid_length + reset_secret_size)

unfoldable pub skip_retire_connection_id_frame : List ℕ → Option (List ℕ)
skip_retire_connection_id_frame bytes = frames_varint_skip bytes

unfoldable pub skip_new_token_frame : List ℕ → Option (List ℕ)
skip_new_token_frame bytes = frames_length_data_skip bytes

-- picoquic_skip_0len_frame: the first byte as often as it is repeated.
unfoldable pub skip_0len_frame : ℕ → List ℕ → List ℕ
skip_0len_frame frame [] = []
skip_0len_frame frame (b ∷ bs) =
    let later = skip_0len_frame frame bs in if b == frame then later else b ∷ bs

unfoldable pub skip_datagram_frame : ℕ → List ℕ → Option (List ℕ)
skip_datagram_frame first bytes =
    if first % 2 == 1
    then (do
      (size, bytes) ← frames_varint_decode bytes
      if leb size (length bytes) then some (drop size bytes) else none)
    else some []

-- The frame types of the functions below are skipped already.
unfoldable pub skip_ack_frequency_frame : List ℕ → Option (List ℕ)
skip_ack_frequency_frame bytes = do bytes ← skip_three bytes; frames_fixed_skip bytes 1

unfoldable pub skip_time_stamp_frame : List ℕ → Option (List ℕ)
skip_time_stamp_frame bytes = frames_varint_skip bytes

-- picoquic_parse_path_identifier: the type and the value.
unfoldable pub parse_path_identifier : List ℕ → Option ((ℕ × ℕ) × List ℕ)
parse_path_identifier bytes = do
  (path_id_type, bytes) ← frames_varint_decode bytes
  if leb path_id_type 1
      then (do
        (path_id_value, bytes) ← frames_varint_decode bytes
        some ((path_id_type, path_id_value), bytes))
      else (if path_id_type == 2 then some ((path_id_type, 0), bytes) else none)

unfoldable pub skip_path_identifier : List ℕ → Option (List ℕ)
skip_path_identifier bytes = do (path_id, bytes) ← parse_path_identifier bytes; some bytes

unfoldable pub skip_path_abandon_frame : List ℕ → Option (List ℕ)
skip_path_abandon_frame bytes = do
  bytes ← skip_path_identifier bytes
  bytes ← frames_varint_skip bytes
  frames_length_data_skip bytes

unfoldable pub skip_bdp_frame : List ℕ → Option (List ℕ)
skip_bdp_frame bytes = do bytes ← skip_three bytes; frames_length_data_skip bytes
