-- ===== src/Frames/Parse.antt =====
-- The functions of picoquic/frames.c that read the fields of a frame. A result has the fields, and the bytes
-- behind the frame.
use fair_queuing_aware_conge.Common.{
  ℕ, ◌+◌, ◌||◌, List, Option, none, some, take, drop, ◌==◌, if◌then◌else◌,
}
use fair_queuing_aware_conge.Frames.{
  ◌>>=◌, frames_fixed_skip, frames_varint_decode, frames_uint8_decode, frames_length_data_skip,
}
use fair_queuing_aware_conge.Frames.Skip.{parse_path_identifier, reset_secret_size}

-- The pointers into the frame are given as the bytes that they point to.
pub record NewConnectionId : Type 0 where
  pub sequence : ℕ
  pub retire_before : ℕ
  pub cid_length : ℕ
  pub cnxid_bytes : List ℕ
  pub secret_bytes : List ℕ

-- The bytes behind the frame type.
unfoldable pub parse_new_connection_id_frame : List ℕ → Option (NewConnectionId × List ℕ)
parse_new_connection_id_frame bytes = do
  (sequence, bytes) ← frames_varint_decode bytes
  (retire_before, bytes) ← frames_varint_decode bytes
  (cid_length, bytes) ← frames_uint8_decode bytes
  rest ← frames_fixed_skip bytes (cid_length + reset_secret_size)
  some (
    record {
      sequence = sequence;
      retire_before = retire_before;
      cid_length = cid_length;
      cnxid_bytes = take cid_length bytes;
      secret_bytes = take reset_secret_size (drop cid_length bytes);
    },
    rest,
  )

-- The offset and the data.
unfoldable pub parse_crypto_hs_frame : List ℕ → Option ((ℕ × List ℕ) × List ℕ)
parse_crypto_hs_frame bytes = do
  (offset, bytes) ← frames_varint_decode bytes
  (data_length, bytes) ← frames_varint_decode bytes
  rest ← frames_fixed_skip bytes data_length
  some ((offset, take data_length bytes), rest)

-- seq, packets, microsec and ignore_order
unfoldable pub parse_ack_frequency_frame : List ℕ → Option ((ℕ × ℕ × ℕ × ℕ) × List ℕ)
parse_ack_frequency_frame bytes = do
  (seq, bytes) ← frames_varint_decode bytes
  (packets, bytes) ← frames_varint_decode bytes
  (microsec, bytes) ← frames_varint_decode bytes
  (ignore_order, bytes) ← frames_uint8_decode bytes
  some ((seq, packets, microsec, ignore_order), bytes)

unfoldable pub parse_time_stamp_frame : List ℕ → Option (ℕ × List ℕ)
parse_time_stamp_frame bytes = frames_varint_decode bytes

-- The type and the value of the path identifier, and the reason.
unfoldable pub parse_path_abandon_frame : List ℕ → Option (((ℕ × ℕ) × ℕ) × List ℕ)
parse_path_abandon_frame bytes = do
  (path_id, bytes) ← parse_path_identifier bytes
  (reason, bytes) ← frames_varint_decode bytes
  rest ← frames_length_data_skip bytes
  some ((path_id, reason), rest)

-- lifetime, recon_bytes_in_flight, recon_min_rtt and the address
unfoldable pub parse_bdp_frame : List ℕ → Option ((ℕ × ℕ × ℕ × List ℕ) × List ℕ)
parse_bdp_frame bytes = do
  (lifetime, bytes) ← frames_varint_decode bytes
  (recon_bytes_in_flight, bytes) ← frames_varint_decode bytes
  (recon_min_rtt, bytes) ← frames_varint_decode bytes
  (saved_ip_length, bytes) ← frames_varint_decode bytes
  rest ←
      if (saved_ip_length == 4) || (saved_ip_length == 16)
      then frames_fixed_skip bytes saved_ip_length
      else none
  some ((lifetime, recon_bytes_in_flight, recon_min_rtt, take saved_ip_length bytes), rest)
