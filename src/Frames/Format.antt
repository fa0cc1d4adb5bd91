-- ===== src/Frames/Format.antt =====
-- The functions of picoquic/frames.c that write a frame. Each is given as the chain of encoders that it
-- calls, and what it does with *more_data, *is_pure_ack and the structures. A result is the bytes that are
-- written, none of them where the pointer is returned as it came, or NULL.
use fair_queuing_aware_conge.Common.{
  ℕ, ◌/◌, ◌^◌, Bool, true, false, ◌||◌, not, List, [], Option, none, some, length, ltb, leb, ◌==◌,
  if◌then◌else◌, add64, sub64,
}
use fair_queuing_aware_conge.Frames.{
  frames_varint_encode, frames_uint8_encode, frames_uint64_encode, frames_length_data_encode,
  frames_charz_encode, put, ◌then_put◌,
}

pub record Flags : Type 0 where
  pub more_data : Bool
  pub is_pure_ack : Bool

-- *is_pure_ack = 0, or *more_data = 1 and `bytes = bytes0`
unfoldable pub finish : Flags → Option (List ℕ) → Option (List ℕ) × Flags
finish flags none = (some [], record flags { more_data = true })
finish flags (some out) = (some out, record flags { is_pure_ack = false })

-- The same without *is_pure_ack.
unfoldable pub finish_quietly : Flags → Option (List ℕ) → Option (List ℕ) × Flags
finish_quietly flags none = (some [], record flags { more_data = true })
finish_quietly flags (some out) = (some out, flags)

-- The same where `bytes0` is NULL.
unfoldable pub finish_or_null : Flags → Option (List ℕ) → Option (List ℕ) × Flags
finish_or_null flags none = (none, record flags { more_data = true })
finish_or_null flags (some out) = (some out, record flags { is_pure_ack = false })

unfoldable pub retire_connection_id_frame : ℕ → ℕ → Option (List ℕ)
retire_connection_id_frame sequence =
    frames_uint8_encode 0x19 then_put frames_varint_encode sequence

unfoldable pub format_retire_connection_id_frame : ℕ → Flags → ℕ → Option (List ℕ) × Flags
format_retire_connection_id_frame room flags sequence =
    finish flags (retire_connection_id_frame sequence room)

unfoldable pub new_token_frame : List ℕ → ℕ → Option (List ℕ)
new_token_frame token = frames_uint8_encode 0x07 then_put frames_length_data_encode token

unfoldable pub format_new_token_frame : ℕ → Flags → List ℕ → Option (List ℕ) × Flags
format_new_token_frame room flags token = finish flags (new_token_frame token room)

-- The fields of picoquic_stream_head_t that the functions below use.
pub record Stream : Type 0 where
  pub stream_id : ℕ
  pub maxdata_local : ℕ
  pub maxdata_remote : ℕ
  pub local_stop_error : ℕ
  pub stop_sending_requested : Bool
  pub stop_sending_sent : Bool
  pub fin_received : Bool
  pub reset_received : Bool
  pub stream_data_blocked_sent : Bool

unfoldable pub stop_sending_frame : ℕ → ℕ → ℕ → Option (List ℕ)
stop_sending_frame stream_id local_stop_error =
    frames_uint8_encode 0x05
    then_put frames_varint_encode stream_id
    then_put frames_varint_encode local_stop_error

-- The stream, where the frame is written.
abbrev if_written {ℓ} : {S : Type ℓ} → Option (List ℕ) → S → S → S
if_written none before after = before
if_written (some out) before after = after

unfoldable pub format_stop_sending_frame : ℕ → Flags → Stream → Option (List ℕ) × Flags × Stream
format_stop_sending_frame room flags stream =
    let sent = record stream { stop_sending_sent = true } in
    let out = stop_sending_frame stream.stream_id stream.local_stop_error room in
    let (bytes, flags') = finish flags out in
    if not stream.stop_sending_requested
      || stream.stop_sending_sent
      || stream.fin_received
      || stream.reset_received
    then (some [], flags, sent)
    else (bytes, flags', if_written out stream sent)

unfoldable pub data_blocked_frame : ℕ → ℕ → Option (List ℕ)
data_blocked_frame maxdata_remote =
    frames_uint8_encode 0x14 then_put frames_varint_encode maxdata_remote

-- The fields of picoquic_cnx_t that the functions below use.
pub record Connection : Type 0 where
  pub maxdata_local : ℕ
  pub maxdata_remote : ℕ
  pub max_max_stream_data_local : ℕ
  pub sent_blocked_frame : Bool
  pub local_error : ℕ
  pub application_error : ℕ
  pub offending_frame_type : ℕ
  pub local_error_reason : Option (List ℕ)

unfoldable pub format_data_blocked_frame :
    ℕ → Flags → Connection → Option (List ℕ) × Flags × Connection
format_data_blocked_frame room flags cnx =
    let out = data_blocked_frame cnx.maxdata_remote room in
    let (bytes, flags') = finish flags out in
    (bytes, flags', if_written out cnx (record cnx { sent_blocked_frame = true }))

unfoldable pub stream_data_blocked_frame : ℕ → ℕ → ℕ → Option (List ℕ)
stream_data_blocked_frame stream_id maxdata_remote =
    frames_uint8_encode 0x15
    then_put frames_varint_encode stream_id
    then_put frames_varint_encode maxdata_remote

unfoldable pub format_stream_data_blocked_frame :
    ℕ → Flags → Stream → Option (List ℕ) × Flags × Stream
format_stream_data_blocked_frame room flags stream =
    let out = stream_data_blocked_frame stream.stream_id stream.maxdata_remote room in
    let (bytes, flags') = finish flags out in
    (bytes, flags', if_written out stream (record stream { stream_data_blocked_sent = true }))

unfoldable pub max_data_frame : ℕ → ℕ → Option (List ℕ)
max_data_frame maxdata = frames_uint8_encode 0x10 then_put frames_varint_encode maxdata

unfoldable pub format_max_data_frame :
    ℕ → Flags → Connection → ℕ → Option (List ℕ) × Flags × Connection
format_max_data_frame room flags cnx maxdata_increase =
    let maxdata = add64 cnx.maxdata_local maxdata_increase in
    let out = max_data_frame maxdata room in
    let (bytes, flags') = finish flags out in
    (bytes, flags', if_written out cnx (record cnx { maxdata_local = maxdata }))

unfoldable pub max_stream_data_frame : ℕ → ℕ → ℕ → Option (List ℕ)
max_stream_data_frame stream_id new_max_data =
    frames_uint8_encode 0x11
    then_put frames_varint_encode stream_id
    then_put frames_varint_encode new_max_data

unfoldable pub format_max_stream_data_frame :
    ℕ → Flags → Connection → Stream → ℕ → Option (List ℕ) × Flags × Connection × Stream
format_max_stream_data_frame room flags cnx stream new_max_data =
    let out = max_stream_data_frame stream.stream_id new_max_data room in
    let (bytes, flags') = finish flags out in
    let highest =
      if ltb cnx.max_max_stream_data_local new_max_data
      then record cnx { max_max_stream_data_local = new_max_data }
      else cnx in
    (
      bytes,
      flags',
      if_written out cnx highest,
      if_written out stream (record stream { maxdata_local = new_max_data }),
    )

unfoldable pub connection_close_frame : ℕ → ℕ → Option (List ℕ) → ℕ → Option (List ℕ)
connection_close_frame local_error offending_frame_type local_error_reason =
    frames_uint8_encode 0x1c
    then_put frames_varint_encode local_error
    then_put frames_varint_encode offending_frame_type
    then_put frames_charz_encode local_error_reason

unfoldable pub format_connection_close_frame : ℕ → Flags → Connection → Option (List ℕ) × Flags
format_connection_close_frame room flags cnx =
    finish flags
      (connection_close_frame cnx.local_error cnx.offending_frame_type cnx.local_error_reason room)

unfoldable pub application_close_frame : ℕ → ℕ → Option (List ℕ)
application_close_frame application_error =
    frames_uint8_encode 0x1d
    then_put frames_varint_encode application_error
    then_put frames_uint8_encode 0

unfoldable pub format_application_close_frame : ℕ → Flags → Connection → Option (List ℕ) × Flags
format_application_close_frame room flags cnx =
    finish flags (application_close_frame cnx.application_error room)

unfoldable pub path_challenge_frame : ℕ → ℕ → Option (List ℕ)
path_challenge_frame challenge = frames_uint8_encode 0x1a then_put frames_uint64_encode challenge

unfoldable pub format_path_challenge_frame : ℕ → Flags → ℕ → Option (List ℕ) × Flags
format_path_challenge_frame room flags challenge =
    finish_or_null flags (path_challenge_frame challenge room)

unfoldable pub path_response_frame : ℕ → ℕ → Option (List ℕ)
path_response_frame challenge = frames_uint8_encode 0x1b then_put frames_uint64_encode challenge

unfoldable pub format_path_response_frame : ℕ → Flags → ℕ → Option (List ℕ) × Flags
format_path_response_frame room flags challenge =
    finish_or_null flags (path_response_frame challenge room)

unfoldable pub datagram_frame : List ℕ → ℕ → Option (List ℕ)
datagram_frame src =
    frames_uint8_encode 0x31 then_put (frames_varint_encode (length src) then_put put src)

unfoldable pub format_datagram_frame : ℕ → Flags → List ℕ → Option (List ℕ) × Flags
format_datagram_frame room flags src = finish flags (datagram_frame src room)

unfoldable pub time_stamp_frame : ℕ → ℕ → Option (List ℕ)
time_stamp_frame time_stamp = frames_varint_encode 757 then_put frames_varint_encode time_stamp

unfoldable pub format_time_stamp_frame : ℕ → Flags → ℕ → ℕ → ℕ → Option (List ℕ) × Flags
format_time_stamp_frame room flags start_time ack_delay_exponent current_time =
    finish_quietly flags
      (time_stamp_frame (sub64 current_time start_time / 2 ^ ack_delay_exponent) room)

abbrev no_bytes : ℕ → Option (List ℕ)
no_bytes room = some []

abbrev fails : ℕ → Option (List ℕ)
fails room = none

unfoldable pub encode_path_identifier : ℕ → ℕ → ℕ → Option (List ℕ)
encode_path_identifier path_id_type path_id_value =
    frames_varint_encode path_id_type
    then_put (if leb path_id_type 1
        then frames_varint_encode path_id_value
        else (if path_id_type == 2 then no_bytes else fails))

unfoldable pub path_abandon_frame : ℕ → ℕ → ℕ → Option (List ℕ) → ℕ → Option (List ℕ)
path_abandon_frame path_id_type path_id_value reason phrase =
    frames_varint_encode 0xbaba05
    then_put encode_path_identifier path_id_type path_id_value
    then_put frames_varint_encode reason
    then_put frames_charz_encode phrase

unfoldable pub format_path_abandon_frame :
    ℕ → Flags → ℕ → ℕ → ℕ → Option (List ℕ) → Option (List ℕ) × Flags
format_path_abandon_frame room flags path_id_type path_id_value reason phrase =
    finish_quietly flags (path_abandon_frame path_id_type path_id_value reason phrase room)
