-- ===== src/Frames/Room.antt =====
-- No function of picoquic/frames.c that writes a frame writes past `bytes_max`.
use fair_queuing_aware_conge.Common.{
  ℕ, ◌-◌, ◌≤◌, ◌≡◌, ap, List, [], ◌∷◌, Option, none, some, length, length-append, arith,
}
use fair_queuing_aware_conge.Frames.{
  frames_varint_encode, frames_uint8_encode, frames_uint64_encode, frames_varlen_encode,
  frames_length_data_encode, frames_charz_encode, put, ◌then_put◌,
}
use fair_queuing_aware_conge.Frames.Format.{
  retire_connection_id_frame, new_token_frame, stop_sending_frame, data_blocked_frame,
  stream_data_blocked_frame, max_data_frame, max_stream_data_frame, connection_close_frame,
  application_close_frame, path_challenge_frame, path_response_frame, datagram_frame,
}
use fair_queuing_aware_conge.Frames.RoundTrip.{parts}
use fair_queuing_aware_conge.Frames.Written.{
  Frame, encode_frame, retire_connection_id, new_token, stop_sending, data_blocked,
  stream_data_blocked, max_data, max_stream_data, connection_close, application_close,
  path_challenge, path_response, datagram,
}

-- What is written fits in the room.
record IsInRoom (e : ℕ → Option (List ℕ)) : Type 0 where
  fits : (room : ℕ) (out : List ℕ) → e room ≡ some out → length out ≤ room

then_put-IsInRoom : {e f : ℕ → Option (List ℕ)} → IsInRoom e → IsInRoom f → IsInRoom (e then_put f)
then_put-IsInRoom {e = e} {f = f} p q = record {
  fits = λ room out h.
      let (first, (second, (h1, h2, whole))) = parts e f room out h in
      let front = p.fits room first h1 in
      let back = q.fits (room - length first) second h2 in
      omega (arith, front, back, ap length whole, length-append first second);
}

varint-IsInRoom : (n : ℕ) → IsInRoom (frames_varint_encode n)
unfolding frames_varint_encode
varint-IsInRoom n = record { fits = λ room out h. ground (arith, h) }

put-IsInRoom : (v : List ℕ) → IsInRoom (put v)
unfolding put
put-IsInRoom v = record { fits = λ room out h. ground (arith, h) }

uint8-IsInRoom : (n : ℕ) → IsInRoom (frames_uint8_encode n)
unfolding frames_uint8_encode
uint8-IsInRoom n = record { fits = (put-IsInRoom (n ∷ [])).fits }

uint64-IsInRoom : (n : ℕ) → IsInRoom (frames_uint64_encode n)
unfolding frames_uint64_encode
uint64-IsInRoom n = record { fits = (put-IsInRoom _).fits }

length_data-IsInRoom : (v : List ℕ) → IsInRoom (frames_length_data_encode v)
unfolding frames_length_data_encode frames_varlen_encode
length_data-IsInRoom v = then_put-IsInRoom (varint-IsInRoom (length v)) (put-IsInRoom v)

charz-IsInRoom : (s : Option (List ℕ)) → IsInRoom (frames_charz_encode s)
unfolding frames_charz_encode frames_varlen_encode
charz-IsInRoom none = varint-IsInRoom 0
charz-IsInRoom (some s) = length_data-IsInRoom s

one-IsInRoom : (type n : ℕ) → IsInRoom (frames_uint8_encode type then_put frames_varint_encode n)
one-IsInRoom type n = then_put-IsInRoom (uint8-IsInRoom type) (varint-IsInRoom n)

two-IsInRoom :
    (type n k : ℕ)
    → IsInRoom
        (frames_uint8_encode type then_put frames_varint_encode n then_put frames_varint_encode k)
two-IsInRoom type n k = then_put-IsInRoom (one-IsInRoom type n) (varint-IsInRoom k)

frame-IsInRoom : (f : Frame) → IsInRoom (encode_frame f)
unfolding retire_connection_id_frame new_token_frame stop_sending_frame data_blocked_frame
    stream_data_blocked_frame max_data_frame max_stream_data_frame connection_close_frame
    application_close_frame path_challenge_frame path_response_frame datagram_frame
frame-IsInRoom (retire_connection_id n) = one-IsInRoom 0x19 n
frame-IsInRoom (new_token token) =
    then_put-IsInRoom (uint8-IsInRoom 0x07) (length_data-IsInRoom token)
frame-IsInRoom (stop_sending id code) = two-IsInRoom 0x05 id code
frame-IsInRoom (data_blocked n) = one-IsInRoom 0x14 n
frame-IsInRoom (stream_data_blocked id n) = two-IsInRoom 0x15 id n
frame-IsInRoom (max_data n) = one-IsInRoom 0x10 n
frame-IsInRoom (max_stream_data id n) = two-IsInRoom 0x11 id n
frame-IsInRoom (connection_close code type reason) =
    then_put-IsInRoom (two-IsInRoom 0x1c code type) (charz-IsInRoom reason)
frame-IsInRoom (application_close code) =
    then_put-IsInRoom (one-IsInRoom 0x1d code) (uint8-IsInRoom 0)
frame-IsInRoom (path_challenge n) = then_put-IsInRoom (uint8-IsInRoom 0x1a) (uint64-IsInRoom n)
frame-IsInRoom (path_response n) = then_put-IsInRoom (uint8-IsInRoom 0x1b) (uint64-IsInRoom n)
frame-IsInRoom (datagram src) =
    then_put-IsInRoom (uint8-IsInRoom 0x31)
      (then_put-IsInRoom (varint-IsInRoom (length src)) (put-IsInRoom src))

-- A frame that is written takes no more than the room that there is.
pub encode_frame-fits :
    (f : Frame) (room : ℕ) (out : List ℕ) → encode_frame f room ≡ some out → length out ≤ room
encode_frame-fits f = (frame-IsInRoom f).fits
