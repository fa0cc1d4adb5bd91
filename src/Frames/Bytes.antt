-- ===== src/Frames/Bytes.antt =====
-- What the functions of picoquic/frames.c write is bytes.
use fair_queuing_aware_conge.Common.{
  ◌≤◌, ℕ, ◌-◌, ◌≡◌, sym, List, [], ◌∷◌, Option, none, some, All, All-append, length, arith,
}
use mathlib.Core.Path.{subst}
use fair_queuing_aware_conge.Intformat.{IsByte, format_64}
use fair_queuing_aware_conge.Frames.{
  frames_varint_encode, frames_uint8_encode, frames_uint64_encode, frames_varlen_encode,
  frames_length_data_encode, frames_charz_encode, put, ◌then_put◌,
}
use fair_queuing_aware_conge.Frames.Format.{
  retire_connection_id_frame, new_token_frame, stop_sending_frame, data_blocked_frame,
  stream_data_blocked_frame, max_data_frame, max_stream_data_frame, connection_close_frame,
  application_close_frame, path_challenge_frame, path_response_frame, datagram_frame,
}
use fair_queuing_aware_conge.Frames.RoundTrip.{parts}
use fair_queuing_aware_conge.Frames.Room.{encode_frame-fits}
use fair_queuing_aware_conge.Frames.Written.{
  Frame, encode_frame, retire_connection_id, new_token, stop_sending, data_blocked,
  stream_data_blocked, max_data, max_stream_data, connection_close, application_close,
  path_challenge, path_response, datagram,
}

-- What is written is bytes.
record IsOfBytes (e : ℕ → Option (List ℕ)) : Type 0 where
  bytes : (room : ℕ) (out : List ℕ) → e room ≡ some out → All IsByte out

then_put-IsOfBytes :
    {e f : ℕ → Option (List ℕ)} → IsOfBytes e → IsOfBytes f → IsOfBytes (e then_put f)
then_put-IsOfBytes {e = e} {f = f} p q = record {
  bytes = λ room out h.
      let (first, (second, (h1, h2, whole))) = parts e f room out h in
      subst (All IsByte) (sym whole) (
        All-append IsByte first second (p.bytes room first h1)
          (q.bytes (room - length first) second h2));
}

abbrev AnyBytes : Option (List ℕ) → Type 0
AnyBytes none = Unit
AnyBytes (some out) = All IsByte out

varint-AnyBytes : (n room : ℕ) → AnyBytes (frames_varint_encode n room)
unfolding frames_varint_encode
varint-AnyBytes n room = ground arith

varint-IsOfBytes : (n : ℕ) → IsOfBytes (frames_varint_encode n)
varint-IsOfBytes n = record { bytes = λ room out h. subst AnyBytes h (varint-AnyBytes n room) }

put-IsOfBytes : (v : List ℕ) → All IsByte v → IsOfBytes (put v)
unfolding put
put-IsOfBytes v b = record {
  bytes = λ room out h. let same : v ≡ out = ground (arith, h) in subst (All IsByte) same b;
}

uint8-IsOfBytes : (n : ℕ) → IsByte n → IsOfBytes (frames_uint8_encode n)
unfolding frames_uint8_encode
uint8-IsOfBytes n b = record { bytes = (put-IsOfBytes (n ∷ []) (b, tt)).bytes }

uint64-IsOfBytes : (n : ℕ) → IsOfBytes (frames_uint64_encode n)
unfolding frames_uint64_encode format_64
uint64-IsOfBytes n = record { bytes = (put-IsOfBytes _ (omega arith)).bytes }

length_data-IsOfBytes : (v : List ℕ) → All IsByte v → IsOfBytes (frames_length_data_encode v)
unfolding frames_length_data_encode frames_varlen_encode
length_data-IsOfBytes v b = then_put-IsOfBytes (varint-IsOfBytes (length v)) (put-IsOfBytes v b)

-- The characters of a string, and the data that a frame is written from, are bytes.
abbrev pub IsText : Option (List ℕ) → Type 0
IsText none = Unit
IsText (some s) = All IsByte s

abbrev pub HasBytes : Frame → Type 0
HasBytes (new_token token) = All IsByte token
HasBytes (connection_close code type reason) = IsText reason
HasBytes (datagram src) = All IsByte src
HasBytes _ = Unit

charz-IsOfBytes : (s : Option (List ℕ)) → IsText s → IsOfBytes (frames_charz_encode s)
unfolding frames_charz_encode frames_varlen_encode
charz-IsOfBytes none b = varint-IsOfBytes 0
charz-IsOfBytes (some s) b = length_data-IsOfBytes s b

one-IsOfBytes :
    (type n : ℕ)
    → IsByte type
    → IsOfBytes (frames_uint8_encode type then_put frames_varint_encode n)
one-IsOfBytes type n b = then_put-IsOfBytes (uint8-IsOfBytes type b) (varint-IsOfBytes n)

two-IsOfBytes :
    (type n k : ℕ)
    → IsByte type
    → IsOfBytes
        (frames_uint8_encode type then_put frames_varint_encode n then_put frames_varint_encode k)
two-IsOfBytes type n k b = then_put-IsOfBytes (one-IsOfBytes type n b) (varint-IsOfBytes k)

frame-IsOfBytes : (f : Frame) → HasBytes f → IsOfBytes (encode_frame f)
unfolding retire_connection_id_frame new_token_frame stop_sending_frame data_blocked_frame
    stream_data_blocked_frame max_data_frame max_stream_data_frame connection_close_frame
    application_close_frame path_challenge_frame path_response_frame datagram_frame
frame-IsOfBytes (retire_connection_id n) h = one-IsOfBytes 0x19 n (omega arith)
frame-IsOfBytes (new_token token) h =
    then_put-IsOfBytes (uint8-IsOfBytes 0x07 (omega arith)) (length_data-IsOfBytes token h)
frame-IsOfBytes (stop_sending id code) h = two-IsOfBytes 0x05 id code (omega arith)
frame-IsOfBytes (data_blocked n) h = one-IsOfBytes 0x14 n (omega arith)
frame-IsOfBytes (stream_data_blocked id n) h = two-IsOfBytes 0x15 id n (omega arith)
frame-IsOfBytes (max_data n) h = one-IsOfBytes 0x10 n (omega arith)
frame-IsOfBytes (max_stream_data id n) h = two-IsOfBytes 0x11 id n (omega arith)
frame-IsOfBytes (connection_close code type reason) h =
    then_put-IsOfBytes (two-IsOfBytes 0x1c code type (omega arith)) (charz-IsOfBytes reason h)
frame-IsOfBytes (application_close code) h =
    then_put-IsOfBytes (one-IsOfBytes 0x1d code (omega arith)) (uint8-IsOfBytes 0 (omega arith))
frame-IsOfBytes (path_challenge n) h =
    then_put-IsOfBytes (uint8-IsOfBytes 0x1a (omega arith)) (uint64-IsOfBytes n)
frame-IsOfBytes (path_response n) h =
    then_put-IsOfBytes (uint8-IsOfBytes 0x1b (omega arith)) (uint64-IsOfBytes n)
frame-IsOfBytes (datagram src) h =
    then_put-IsOfBytes (uint8-IsOfBytes 0x31 (omega arith))
      (then_put-IsOfBytes (varint-IsOfBytes (length src)) (put-IsOfBytes src h))

-- What is written of a frame takes no more than the room that there is, and every element is a byte, if
-- those of the frame's token, its reason or its data are.
pub encode_frame-IsByte :
    (f : Frame) (room : ℕ) (out : List ℕ)
    → HasBytes f
    → encode_frame f room ≡ some out
    → All IsByte out × (length out ≤ room)
encode_frame-IsByte f room out h e =
    ((frame-IsOfBytes f h).bytes room out e, encode_frame-fits f room out e)
