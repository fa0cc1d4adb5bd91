-- ===== src/Frames/Written.antt =====
-- The frames that picoquic/frames.c writes, and how `picoquic_skip_frame` passes over them.
use fair_queuing_aware_conge.Common.{
  ℕ, ◌^◌, ◌<◌, ◌≡◌, refl, sym, ◌∙◌, ap, Bool, true, false, List, ◌++◌, Option, none, some, length,
  leb, arith,
}
use fair_queuing_aware_conge.Frames.{
  ◌>>=◌, frames_varint_skip, frames_varint_encode, frames_length_data_skip, frames_fixed_skip,
  frames_uint8_encode, frames_uint64_encode, frames_varlen_encode, frames_length_data_encode,
  frames_charz_encode, put, ◌then_put◌,
}
use fair_queuing_aware_conge.Intformat.{format_64}
use fair_queuing_aware_conge.Frames.Skip.{
  skip_two, skip_stop_sending_frame, skip_connection_close_frame, skip_application_close_frame,
  skip_max_stream_data_frame, skip_stream_blocked_frame, skip_new_token_frame,
  skip_retire_connection_id_frame, skip_datagram_frame,
}
use fair_queuing_aware_conge.Frames.Switch.{skip_switch}
use fair_queuing_aware_conge.Frames.Format.{
  retire_connection_id_frame, new_token_frame, stop_sending_frame, data_blocked_frame,
  stream_data_blocked_frame, max_data_frame, max_stream_data_frame, connection_close_frame,
  application_close_frame, path_challenge_frame, path_response_frame, datagram_frame,
}
use fair_queuing_aware_conge.Frames.Varint.{frames_varint_decode-frames_varint_encode}
use fair_queuing_aware_conge.Frames.RoundTrip.{
  SkipsOver, StartsWith, then_put-SkipsOver, then_put-StartsWith, varint-SkipsOver, put-SkipsOver,
  length_data-SkipsOver, skip_first, uint8-SkipsOver, uint8-StartsWith, skip_at, passed,
  frame_skipped,
}

-- A frame with what it is written from.
pub data Frame : Type 0 where
  retire_connection_id : ℕ → Frame
  new_token : List ℕ → Frame
  stop_sending : ℕ → ℕ → Frame
  data_blocked : ℕ → Frame
  stream_data_blocked : ℕ → ℕ → Frame
  max_data : ℕ → Frame
  max_stream_data : ℕ → ℕ → Frame
  connection_close : ℕ → ℕ → Option (List ℕ) → Frame
  application_close : ℕ → Frame
  path_challenge : ℕ → Frame
  path_response : ℕ → Frame
  datagram : List ℕ → Frame

abbrev pub encode_frame : Frame → ℕ → Option (List ℕ)
encode_frame (retire_connection_id n) = retire_connection_id_frame n
encode_frame (new_token token) = new_token_frame token
encode_frame (stop_sending id code) = stop_sending_frame id code
encode_frame (data_blocked n) = data_blocked_frame n
encode_frame (stream_data_blocked id n) = stream_data_blocked_frame id n
encode_frame (max_data n) = max_data_frame n
encode_frame (max_stream_data id n) = max_stream_data_frame id n
encode_frame (connection_close code type reason) = connection_close_frame code type reason
encode_frame (application_close code) = application_close_frame code
encode_frame (path_challenge n) = path_challenge_frame n
encode_frame (path_response n) = path_response_frame n
encode_frame (datagram src) = datagram_frame src

abbrev pub IsVarint : ℕ → Type 0
IsVarint n = n < 2 ^ 62

abbrev pub IsString : Option (List ℕ) → Type 0
IsString none = Unit
IsString (some s) = IsVarint (length s)

-- The integers of variable length are below 2 ^ 62.
abbrev pub IsFrame : Frame → Type 0
IsFrame (retire_connection_id n) = IsVarint n
IsFrame (new_token token) = IsVarint (length token)
IsFrame (stop_sending id code) = IsVarint id × IsVarint code
IsFrame (data_blocked n) = IsVarint n
IsFrame (stream_data_blocked id n) = IsVarint id × IsVarint n
IsFrame (max_data n) = IsVarint n
IsFrame (max_stream_data id n) = IsVarint id × IsVarint n
IsFrame (connection_close code type reason) = IsVarint code × IsVarint type × IsString reason
IsFrame (application_close code) = IsVarint code
IsFrame (path_challenge n) = Unit
IsFrame (path_response n) = Unit
IsFrame (datagram src) = IsVarint (length src)

-- The frames that a receiver takes for no more than an acknowledgement.
abbrev pub counts_as_ack : Frame → Bool
counts_as_ack (path_challenge n) = true
counts_as_ack (path_response n) = true
counts_as_ack _ = false

-- No characters: the length 0.
empty-SkipsOver : SkipsOver (frames_varint_encode 0) frames_length_data_skip
unfolding frames_length_data_skip frames_fixed_skip
empty-SkipsOver = record {
  over = λ room out rest e.
      let none_needed : leb 0 (length rest) ≡ true = ground arith in
      ap (λ r. r >>= λ (size, bytes). frames_fixed_skip bytes size)
        (frames_varint_decode-frames_varint_encode 0 room out rest (omega arith) e)
      ∙ rw none_needed refl;
}

zero_byte : (room : ℕ) → frames_uint8_encode 0 room ≡ frames_varint_encode 0 room
unfolding frames_uint8_encode frames_varint_encode put
zero_byte room = ground arith

no_reason-SkipsOver : SkipsOver (frames_uint8_encode 0) frames_length_data_skip
no_reason-SkipsOver = record {
  over = λ room out rest e. empty-SkipsOver.over room out rest (sym (zero_byte room) ∙ e);
}

datagram-SkipsOver :
    (src : List ℕ)
    → IsVarint (length src)
    → SkipsOver (frames_varint_encode (length src) then_put put src) frames_length_data_skip
unfolding frames_length_data_encode frames_varlen_encode
datagram-SkipsOver src h = length_data-SkipsOver src h

charz-SkipsOver :
    (s : Option (List ℕ)) → IsString s → SkipsOver (frames_charz_encode s) frames_length_data_skip
unfolding frames_charz_encode frames_varlen_encode frames_length_data_encode
charz-SkipsOver none h = empty-SkipsOver
charz-SkipsOver (some s) h = length_data-SkipsOver s h

-- A frame of a type and one integer, or two.
one-SkipsOver :
    (type n : ℕ)
    → IsVarint n
    → SkipsOver
        (frames_uint8_encode type then_put frames_varint_encode n)
        (λ bytes. skip_first bytes >>= frames_varint_skip)
one-SkipsOver type n h = then_put-SkipsOver (uint8-SkipsOver type) (varint-SkipsOver n h)

two-SkipsOver :
    (type n k : ℕ)
    → IsVarint n
    → IsVarint k
    → SkipsOver
        (frames_uint8_encode type then_put frames_varint_encode n then_put frames_varint_encode k)
        (λ bytes. (skip_first bytes >>= frames_varint_skip) >>= frames_varint_skip)
two-SkipsOver type n k h h' = then_put-SkipsOver (one-SkipsOver type n h) (varint-SkipsOver k h')

one-StartsWith :
    (type n : ℕ) → StartsWith type (frames_uint8_encode type then_put frames_varint_encode n)
one-StartsWith type n = then_put-StartsWith (frames_varint_encode n) (uint8-StartsWith type)

two-StartsWith :
    (type n k : ℕ)
    → StartsWith type
        (frames_uint8_encode type then_put frames_varint_encode n then_put frames_varint_encode k)
two-StartsWith type n k = then_put-StartsWith (frames_varint_encode k) (one-StartsWith type n)

-- If a frame of one of the twelve types of `Frame`, whose integers of variable length are below 2^62, is
-- written into the room that there is, then the receiver's function skips exactly the bytes that were
-- written, without a failure, whatever stands behind them; and of these twelve types a path challenge and
-- a path response count as no more than an acknowledgement, the other ten do not.
pub skip_frame-encode_frame :
    (f : Frame) (room : ℕ) (out rest : List ℕ)
    → IsFrame f
    → encode_frame f room ≡ some out
    → skip_at (out ++ rest) ≡ passed out (counts_as_ack f)
unfolding retire_connection_id_frame new_token_frame stop_sending_frame data_blocked_frame
    stream_data_blocked_frame max_data_frame max_stream_data_frame connection_close_frame
    application_close_frame path_challenge_frame path_response_frame datagram_frame skip_switch
    skip_two skip_stop_sending_frame skip_connection_close_frame skip_application_close_frame
    skip_max_stream_data_frame skip_stream_blocked_frame skip_new_token_frame
    skip_retire_connection_id_frame skip_datagram_frame frames_uint64_encode format_64
    frames_length_data_skip frames_fixed_skip
skip_frame-encode_frame (retire_connection_id n) room out rest h e =
    frame_skipped 0x19 false (one-StartsWith 0x19 n) (one-SkipsOver 0x19 n h) (λ bytes. refl) room
      out rest e
skip_frame-encode_frame (new_token token) room out rest h e =
    frame_skipped 0x07 false
      (then_put-StartsWith (frames_length_data_encode token) (uint8-StartsWith 0x07))
      (then_put-SkipsOver (uint8-SkipsOver 0x07) (length_data-SkipsOver token h)) (λ bytes. refl)
      room out rest e
skip_frame-encode_frame (stop_sending id code) room out rest (h, k) e =
    frame_skipped 0x05 false (two-StartsWith 0x05 id code) (two-SkipsOver 0x05 id code h k)
      (λ bytes. refl) room out rest e
skip_frame-encode_frame (data_blocked n) room out rest h e =
    frame_skipped 0x14 false (one-StartsWith 0x14 n) (one-SkipsOver 0x14 n h) (λ bytes. refl) room
      out rest e
skip_frame-encode_frame (stream_data_blocked id n) room out rest (h, k) e =
    frame_skipped 0x15 false (two-StartsWith 0x15 id n) (two-SkipsOver 0x15 id n h k)
      (λ bytes. refl) room out rest e
skip_frame-encode_frame (max_data n) room out rest h e =
    frame_skipped 0x10 false (one-StartsWith 0x10 n) (one-SkipsOver 0x10 n h) (λ bytes. refl) room
      out rest e
skip_frame-encode_frame (max_stream_data id n) room out rest (h, k) e =
    frame_skipped 0x11 false (two-StartsWith 0x11 id n) (two-SkipsOver 0x11 id n h k)
      (λ bytes. refl) room out rest e
skip_frame-encode_frame (connection_close code type reason) room out rest (h, k, l) e =
    frame_skipped 0x1c false
      (then_put-StartsWith (frames_charz_encode reason) (two-StartsWith 0x1c code type))
      (then_put-SkipsOver (two-SkipsOver 0x1c code type h k) (charz-SkipsOver reason l))
      (λ bytes. refl) room out rest e
skip_frame-encode_frame (application_close code) room out rest h e =
    frame_skipped 0x1d false
      (then_put-StartsWith (frames_uint8_encode 0) (one-StartsWith 0x1d code))
      (then_put-SkipsOver (one-SkipsOver 0x1d code h) no_reason-SkipsOver) (λ bytes. refl) room out
      rest e
skip_frame-encode_frame (path_challenge n) room out rest h e =
    frame_skipped 0x1a true (then_put-StartsWith (put (format_64 n)) (uint8-StartsWith 0x1a))
      (then_put-SkipsOver (uint8-SkipsOver 0x1a) (put-SkipsOver (format_64 n))) (λ bytes. refl) room
      out rest e
skip_frame-encode_frame (path_response n) room out rest h e =
    frame_skipped 0x1b true (then_put-StartsWith (put (format_64 n)) (uint8-StartsWith 0x1b))
      (then_put-SkipsOver (uint8-SkipsOver 0x1b) (put-SkipsOver (format_64 n))) (λ bytes. refl) room
      out rest e
skip_frame-encode_frame (datagram src) room out rest h e =
    frame_skipped 0x31 false
      (then_put-StartsWith (frames_varint_encode (length src) then_put put src)
        (uint8-StartsWith 0x31))
      (then_put-SkipsOver (uint8-SkipsOver 0x31) (datagram-SkipsOver src h)) (λ bytes. refl) room
      out rest e
