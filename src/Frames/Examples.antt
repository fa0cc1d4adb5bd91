-- ===== src/Frames/Examples.antt =====
-- Runs of the frames (picoquic/frames.c), and their theorems at concrete frames.
use fair_queuing_aware_conge.Common.{
  ℕ, ◌≤◌, ◌≡◌, refl, true, false, List, [], ◌∷◌, ◌++◌, none, some, length, arith,
}
use fair_queuing_aware_conge.Intformat.{decode_loop}
use fair_queuing_aware_conge.Frames.{
  varint_len, frames_fixed_skip, frames_varint_skip, frames_varint_decode, frames_uint8_decode,
  frames_uint8_encode, frames_varint_encode, frames_charz_encode, frames_length_data_encode,
  frames_varlen_encode, put, ◌then_put◌,
}
use fair_queuing_aware_conge.Frames.Skip.{
  skip_0len_frame, skip_new_connection_id_frame, skip_crypto_hs_frame, skip_ack_frequency_frame,
  skip_time_stamp_frame, skip_path_abandon_frame,
}
use fair_queuing_aware_conge.Frames.Switch.{
  skip_switch, skip_frame, consumed_of, closing, decode_closing_frames,
}
use fair_queuing_aware_conge.Frames.Parse.{
  parse_new_connection_id_frame, parse_crypto_hs_frame, parse_ack_frequency_frame,
  parse_time_stamp_frame, parse_path_abandon_frame,
}
use fair_queuing_aware_conge.Frames.Format.{Flags, Connection, connection_close_frame}
use fair_queuing_aware_conge.Frames.Closing.{
  IsFinal, IsSkipped, skip_frame-IsSkipped, decode_closing_frames-IsFinal,
}
use fair_queuing_aware_conge.Frames.RoundTrip.{skip_at, passed}
use fair_queuing_aware_conge.Frames.Written.{Frame, connection_close, skip_frame-encode_frame}
use fair_queuing_aware_conge.Frames.Bytes.{encode_frame-IsByte}
use fair_queuing_aware_conge.Intformat.{IsByte}
use fair_queuing_aware_conge.Common.{All}
use fair_queuing_aware_conge.Frames.Agreement.{left_of, skip-parse}

-- A maximum for the data of the connection, padding, and a close of the application.
abbrev packet : List ℕ
packet = 0x10 ∷ (0x41 ∷ (0x00 ∷ (0x00 ∷ (0x00 ∷ (0x1d ∷ (0x07 ∷ (0x00 ∷ [])))))))

find_close : decode_closing_frames 9 packet ≡ closing (0x1d ∷ (0x07 ∷ (0x00 ∷ [])))
unfolding decode_closing_frames skip_frame consumed_of skip_switch skip_0len_frame
    frames_varint_skip frames_fixed_skip varint_len
find_close = refl

decode_closing_frames-IsFinal_example :
    IsFinal packet (decode_closing_frames 9 packet)
    × (decode_closing_frames 20 packet ≡ decode_closing_frames 9 packet)
decode_closing_frames-IsFinal_example =
    decode_closing_frames-IsFinal 9 20 packet (omega arith) (omega arith)

skip_frame-IsSkipped_example :
    IsSkipped
      (0x10 ∷ (0x41 ∷ (0x00 ∷ [])))
      (skip_switch 0x10 (0x41 ∷ (0x00 ∷ []))).0
      (skip_frame 0x10 (0x41 ∷ (0x00 ∷ [])))
skip_frame-IsSkipped_example = skip_frame-IsSkipped 0x10 (0x41 ∷ (0x00 ∷ []))

abbrev close : Frame
close = connection_close 300 6 (some (0x6f ∷ (0x6b ∷ [])))

abbrev close_bytes : List ℕ
close_bytes = 0x1c ∷ (0x41 ∷ (0x2c ∷ (0x06 ∷ (0x02 ∷ (0x6f ∷ (0x6b ∷ []))))))

skip_frame-encode_frame_example : skip_at (close_bytes ++ (0x01 ∷ [])) ≡ passed close_bytes false
unfolding connection_close_frame frames_uint8_encode frames_varint_encode frames_charz_encode
    frames_length_data_encode frames_varlen_encode put ◌then_put◌
skip_frame-encode_frame_example =
    skip_frame-encode_frame close 20 close_bytes (0x01 ∷ []) (omega arith, omega arith, omega arith)
      refl

encode_frame-IsByte_example : All IsByte close_bytes × (length close_bytes ≤ 7)
unfolding connection_close_frame frames_uint8_encode frames_varint_encode frames_charz_encode
    frames_length_data_encode frames_varlen_encode put ◌then_put◌
encode_frame-IsByte_example =
    encode_frame-IsByte close 7 close_bytes (omega arith, (omega arith, tt)) refl

abbrev bytes : List ℕ
bytes = 0x05 ∷ (0x03 ∷ (0x40 ∷ (0x19 ∷ (0x01 ∷ (0x00 ∷ [])))))

skip-parse_example :
    (left_of (parse_new_connection_id_frame bytes) ≡ skip_new_connection_id_frame (0x18 ∷ bytes))
    × (left_of (parse_crypto_hs_frame bytes) ≡ skip_crypto_hs_frame bytes)
    × (left_of (parse_ack_frequency_frame bytes) ≡ skip_ack_frequency_frame bytes)
    × (left_of (parse_time_stamp_frame bytes) ≡ skip_time_stamp_frame bytes)
    × (left_of (parse_path_abandon_frame bytes) ≡ skip_path_abandon_frame bytes)
skip-parse_example = skip-parse bytes

ack_frequency_run : parse_ack_frequency_frame bytes ≡ some ((5, 3, 25, 1), 0x00 ∷ [])
unfolding parse_ack_frequency_frame frames_varint_decode frames_uint8_decode varint_len decode_loop
ack_frequency_run = refl

abbrev fresh : Flags
fresh = record { more_data = false; is_pure_ack = true }

abbrev connection : Connection
connection = record {
  maxdata_local = 1000;
  maxdata_remote = 1000;
  max_max_stream_data_local = 100;
  sent_blocked_frame = false;
  local_error = 0;
  application_error = 0;
  offending_frame_type = 0;
  local_error_reason = none;
}
