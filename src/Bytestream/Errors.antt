-- ===== src/Bytestream/Errors.antt =====
-- The errors of picoquic/bytestream.c, and what no call changes.
use fair_queuing_aware_conge.Common.{
  ℕ, ◌+◌, ◌≤◌, ◌≡◌, Bool, true, false, ◌&&◌, List, [], ◌∷◌, arith, length, length-append,
  length-drop, length-take_le, take, ltb, leb, if◌then◌else◌,
}
use fair_queuing_aware_conge.Intformat.{
  varint_encode, encode_varint_length, format_16, format_32, format_64,
}
use fair_queuing_aware_conge.Intformat.Varint.{length-varint_encode}
use fair_queuing_aware_conge.Bytestream.RoundTrip.{vint_positive}
use fair_queuing_aware_conge.Bytestream.{
  Bytestream, bytestream_size, bytestream_remain, bytestream_error, advance, store, bytestream_skip,
  bytewrite_vint, bytewrite_int8, bytewrite_int16, bytewrite_int32, bytewrite_int64, ConnectionId,
  bytewrite_cid, bytewrite_buffer, bytewrite_cstr,
}

-- A call that writes, with the bytes that it takes.
pub data Write : Type 0 where
  vint int8 int16 int32 int64 : ℕ → Write
  buffer : List ℕ → Write
  cstr : List ℕ → Write
  cid : ConnectionId → Write
  skip : ℕ → Write

unfoldable pub write : Bytestream → Write → Bytestream × Bool
write s (vint n) = bytewrite_vint s n
write s (int8 n) = bytewrite_int8 s n
write s (int16 n) = bytewrite_int16 s n
write s (int32 n) = bytewrite_int32 s n
write s (int64 n) = bytewrite_int64 s n
write s (buffer bytes) = bytewrite_buffer s bytes
write s (cstr bytes) = bytewrite_cstr s bytes
write s (cid c) = bytewrite_cid s c
write s (skip n) = bytestream_skip s n

-- The calls one after the other, and whether all of them succeed.
unfoldable pub writes : Bytestream → List Write → Bytestream × Bool
writes s [] = (s, true)
writes s (c ∷ cs) = let (t, done) = write s c in let (u, more) = writes t cs in (u, done && more)

-- The bytes that a call takes.
abbrev pub need : Write → ℕ
need (vint n) = encode_varint_length n
need (int8 n) = 1
need (int16 n) = 2
need (int32 n) = 4
need (int64 n) = 8
need (buffer bytes) = length bytes
need (cstr bytes) = encode_varint_length (length bytes) + length bytes
need (cid c) = 1 + length (take c.id_len c.id)
need (skip n) = n

abbrev pub total : List Write → ℕ
total [] = 0
total (c ∷ cs) = need c + total cs

-- What a call with `n` bytes to take does: it succeeds if they are there, and then takes them, and
-- it never changes the size of the stream.
abbrev IsWritten : Bytestream → ℕ → Bytestream × Bool → Type 0
IsWritten s n r =
    (r.1 ≡ leb n (length s.rest))
    × (n ≤ length s.rest → length (r.0.rest) + n ≡ length s.rest)
    × (bytestream_size (r.0) ≡ bytestream_size s)

size-error : (s : Bytestream) → bytestream_size (bytestream_error s) ≡ bytestream_size s
unfolding bytestream_size bytestream_error
size-error s = omega (arith, length-append s.front s.rest)

store-IsWritten :
    (s : Bytestream) (bytes : List ℕ)
    → IsWritten s (length bytes) (
        if ltb (length s.rest) (length bytes)
        then (bytestream_error s, false)
        else (store s bytes, true))
unfolding bytestream_size store
store-IsWritten s bytes =
    ground (arith, size-error s, length-append s.front bytes, length-drop (length bytes) s.rest)

skip-IsWritten : (s : Bytestream) (n : ℕ) → IsWritten s n (bytestream_skip s n)
unfolding bytestream_size bytestream_skip advance
skip-IsWritten s n = ground (
  arith,
  size-error s,
  length-append s.front (take n s.rest),
  length-take_le n s.rest,
  length-drop n s.rest,
)

vint-IsWritten :
    (s : Bytestream) (n : ℕ) → IsWritten s (encode_varint_length n) (bytewrite_vint s n)
unfolding bytestream_size bytewrite_vint store
vint-IsWritten s n =
    let one = vint_positive n in
    ground (
      arith,
      size-error s,
      length-varint_encode (length s.rest) n,
      length-append s.front (varint_encode (length s.rest) n),
      length-drop (length (varint_encode (length s.rest) n)) s.rest,
    )

cstr-IsWritten :
    (s : Bytestream) (bytes : List ℕ)
    → IsWritten s (encode_varint_length (length bytes) + length bytes) (bytewrite_cstr s bytes)
unfolding bytewrite_cstr bytewrite_buffer
cstr-IsWritten s bytes =
    let t = (bytewrite_vint s (length bytes)).0 in
    ground (arith, vint-IsWritten s (length bytes), store-IsWritten t bytes)

cid-IsWritten :
    (s : Bytestream) (c : ConnectionId)
    → IsWritten s (1 + length (take c.id_len c.id)) (bytewrite_cid s c)
unfolding bytewrite_cid bytewrite_int8 bytewrite_buffer
cid-IsWritten s c =
    let bytes = take c.id_len c.id in
    let t = (bytewrite_int8 s c.id_len).0 in
    ground (arith, store-IsWritten s (c.id_len ∷ []), store-IsWritten t bytes)

write-IsWritten : (s : Bytestream) (c : Write) → IsWritten s (need c) (write s c)
unfolding write bytewrite_int8 bytewrite_int16 bytewrite_int32 bytewrite_int64 bytewrite_buffer
    format_16 format_32 format_64
write-IsWritten s (vint n) = vint-IsWritten s n
write-IsWritten s (int8 n) = store-IsWritten s (n ∷ [])
write-IsWritten s (int16 n) = store-IsWritten s (format_16 n)
write-IsWritten s (int32 n) = store-IsWritten s (format_32 n)
write-IsWritten s (int64 n) = store-IsWritten s (format_64 n)
write-IsWritten s (buffer bytes) = store-IsWritten s bytes
write-IsWritten s (cstr bytes) = cstr-IsWritten s bytes
write-IsWritten s (cid c) = cid-IsWritten s c
write-IsWritten s (skip n) = skip-IsWritten s n

-- A sequence of calls that write succeeds as a whole exactly if there is room for the bytes of all
-- of them, it leaves as much room as they do not take, and it never changes the size of the stream.
pub writes-IsWritten :
    (cs : List Write) (s : Bytestream)
    → ((writes s cs).1 ≡ leb (total cs) (bytestream_remain s))
      × (total cs ≤ bytestream_remain s
          → bytestream_remain (writes s cs).0 + total cs ≡ bytestream_remain s)
      × (bytestream_size (writes s cs).0 ≡ bytestream_size s)
unfolding writes bytestream_remain
writes-IsWritten [] s = ground arith
writes-IsWritten (c ∷ cs) s = ground (arith, write-IsWritten s c, writes-IsWritten cs (write s c).0)
