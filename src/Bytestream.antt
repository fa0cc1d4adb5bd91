-- ===== src/Bytestream.antt =====
-- The byte stream: picoquic/bytestream.c. A stream is kept as the bytes of `data` before the index
-- `ptr` and those from it on: `ptr` is the length of the first list, `size` that of both. A function
-- returns the stream and whether its result is 0, and one that reads into a variable takes the old
-- value of the variable and returns the new one behind that.
pub mod RoundTrip
pub mod Values
pub mod Errors
pub mod Create
pub mod Address
mod Examples
use fair_queuing_aware_conge.Common.{
  ℕ, zero, suc, ◌+◌, ◌-◌, ◌*◌, ◌^◌, bit_or, Bool, true, false, ◌&&◌, List, [], ◌∷◌, ◌++◌, length,
  take, drop, get_or, ltb, leb, ◌==◌, if◌then◌else◌,
}
use fair_queuing_aware_conge.Intformat.{
  byte_at, format_16, format_32, format_64, encode_varint_length, decode_varint_length,
  varint_encode, varint_decode, decode_loop,
}

-- bytestream
pub record Bytestream : Type 0 where
  pub front : List ℕ
  pub rest : List ℕ

unfoldable pub bytestream_ref_init : List ℕ → Bytestream
bytestream_ref_init bytes = record { front = []; rest = bytes }

unfoldable pub bytestream_size : Bytestream → ℕ
bytestream_size s = length s.front + length s.rest

unfoldable pub bytestream_length : Bytestream → ℕ
bytestream_length s = length s.front

unfoldable pub bytestream_remain : Bytestream → ℕ
bytestream_remain s = length s.rest

unfoldable pub bytestream_reset : Bytestream → Bytestream
bytestream_reset s = record { front = []; rest = s.front ++ s.rest }

unfoldable pub bytestream_finished : Bytestream → Bool
bytestream_finished s = length s.rest == 0

-- bytestream_error: nothing is left to read or write.
unfoldable pub bytestream_error : Bytestream → Bytestream
bytestream_error s = record { front = s.front ++ s.rest; rest = [] }

-- `ptr += n`
unfoldable pub advance : Bytestream → ℕ → Bytestream
advance s n = record { front = s.front ++ take n s.rest; rest = drop n s.rest }

-- The bytes are stored from `ptr` on, which moves behind them.
unfoldable pub store : Bytestream → List ℕ → Bytestream
store s bytes = record { front = s.front ++ bytes; rest = drop (length bytes) s.rest }

unfoldable pub bytestream_skip : Bytestream → ℕ → Bytestream × Bool
bytestream_skip s nb_bytes =
    if ltb (length s.rest) nb_bytes then (bytestream_error s, false) else (advance s nb_bytes, true)

unfoldable pub byteread_skip_vint : Bytestream → Bytestream × Bool
byteread_skip_vint s =
    if ltb (length s.rest) 1
    then (bytestream_error s, false)
    else bytestream_skip s (decode_varint_length (get_or s.rest 0 0))

unfoldable pub bytewrite_vint : Bytestream → ℕ → Bytestream × Bool
bytewrite_vint s value =
    let bytes = varint_encode (length s.rest) value in
    if length bytes == 0 then (bytestream_error s, false) else (store s bytes, true)

unfoldable pub byteread_vint : Bytestream → ℕ → Bytestream × Bool × ℕ
byteread_vint s old =
    if ltb (length s.rest) 1
    then (bytestream_error s, false, old)
    else (let (len, value) = varint_decode s.rest in
        if len == 0 then (bytestream_error s, false, value) else (advance s len, true, value))

unfoldable pub bytestream_vint_len : ℕ → ℕ
bytestream_vint_len value = encode_varint_length value

-- The type size_t has 64 bits, so that the value fits.
unfoldable pub byteread_vlen : Bytestream → Bytestream × Bool × ℕ
byteread_vlen s = byteread_vint s 0

unfoldable pub bytewrite_int8 : Bytestream → ℕ → Bytestream × Bool
bytewrite_int8 s value =
    if ltb (length s.rest) 1 then (bytestream_error s, false) else (store s (value ∷ []), true)

unfoldable pub byteread_int8 : Bytestream → ℕ → Bytestream × Bool × ℕ
byteread_int8 s old =
    if ltb (length s.rest) 1
    then (bytestream_error s, false, old)
    else (advance s 1, true, get_or s.rest 0 0)

-- The stream stays as it is, also on an error.
unfoldable pub byteshow_int8 : Bytestream → ℕ → Bool × ℕ
byteshow_int8 s old = if ltb (length s.rest) 1 then (false, old) else (true, get_or s.rest 0 0)

unfoldable pub bytewrite_int16 : Bytestream → ℕ → Bytestream × Bool
bytewrite_int16 s value =
    if ltb (length s.rest) 2 then (bytestream_error s, false) else (store s (format_16 value), true)

unfoldable pub byteread_int16 : Bytestream → ℕ → Bytestream × Bool × ℕ
byteread_int16 s old =
    if ltb (length s.rest) 2
    then (bytestream_error s, false, old)
    else (advance s 2, true, bit_or (get_or s.rest 0 0 * 2 ^ 8) (get_or s.rest 1 0))

unfoldable pub bytewrite_int32 : Bytestream → ℕ → Bytestream × Bool
bytewrite_int32 s value =
    if ltb (length s.rest) 4 then (bytestream_error s, false) else (store s (format_32 value), true)

unfoldable pub byteread_int32 : Bytestream → ℕ → Bytestream × Bool × ℕ
byteread_int32 s old = if ltb (length s.rest) 4 then (bytestream_error s, false, old) else (
  advance s 4,
  true,
  bit_or
      (bit_or (bit_or (get_or s.rest 0 0 * 2 ^ 24) (get_or s.rest 1 0 * 2 ^ 16))
        (get_or s.rest 2 0 * 2 ^ 8))
      (get_or s.rest 3 0),
)

unfoldable pub bytewrite_int64 : Bytestream → ℕ → Bytestream × Bool
bytewrite_int64 s value =
    if ltb (length s.rest) 8 then (bytestream_error s, false) else (store s (format_64 value), true)

unfoldable pub byteread_int64 : Bytestream → ℕ → Bytestream × Bool × ℕ
byteread_int64 s old =
    if ltb (length s.rest) 8
    then (bytestream_error s, false, old)
    else (advance s 8, true, decode_loop 8 s.rest 0)

unfoldable pub bytewrite_buffer : Bytestream → List ℕ → Bytestream × Bool
bytewrite_buffer s buffer =
    if ltb (length s.rest) (length buffer)
    then (bytestream_error s, false)
    else (store s buffer, true)

unfoldable pub byteread_buffer : Bytestream → List ℕ → ℕ → Bytestream × Bool × List ℕ
byteread_buffer s old n =
    if ltb (length s.rest) n
    then (bytestream_error s, false, old)
    else (advance s n, true, take n s.rest)

-- picoquic_connection_id_t; `id` has connection_id_max_size bytes.
pub record ConnectionId : Type 0 where
  pub id : List ℕ
  pub id_len : ℕ

abbrev pub connection_id_max_size : ℕ
connection_id_max_size = 20

abbrev pub zeros : ℕ → List ℕ
zeros zero = []
zeros (suc n) = 0 ∷ zeros n

unfoldable pub bytewrite_cid : Bytestream → ConnectionId → Bytestream × Bool
bytewrite_cid s cid =
    let (t, prefixed) = bytewrite_int8 s cid.id_len in
    let (u, written) = bytewrite_buffer t (take cid.id_len cid.id) in (u, prefixed && written)

-- A length above the maximum is refused, but it is stored.
unfoldable pub byteread_cid : Bytestream → ConnectionId → Bytestream × Bool × ConnectionId
byteread_cid s old =
    let (t, read, len) = byteread_int8 s old.id_len in
    if ltb connection_id_max_size len
    then (t, false, record old { id_len = len })
    else (let (u, copied, bytes) = byteread_buffer t [] len in
        (
          u,
          read && copied,
          record { id = bytes ++ zeros (connection_id_max_size - length bytes); id_len = len },
        ))

unfoldable pub byteskip_cid : Bytestream → Bytestream × Bool
byteskip_cid s =
    let (t, read, id_len) = byteread_int8 s 0 in
    let (u, skipped) = bytestream_skip t id_len in (u, read && skipped)

-- A string is the list of its bytes before the final 0.
unfoldable pub bytewrite_cstr : Bytestream → List ℕ → Bytestream × Bool
bytewrite_cstr s cstr =
    let (t, prefixed) = bytewrite_vint s (length cstr) in
    let (u, written) = bytewrite_buffer t cstr in (u, prefixed && written)

-- The string with its final 0 has room in `max_len` bytes. After an error the string counts as
-- unchanged: that the code stores a 0 at `l_cstr` even where the bytes are missing is left out.
unfoldable pub byteread_cstr : Bytestream → List ℕ → ℕ → Bytestream × Bool × List ℕ
byteread_cstr s old max_len =
    let (t, read, l_cstr) = byteread_vint s 0 in
    if read && leb (l_cstr + 1) max_len then byteread_buffer t old l_cstr else (t, false, old)

unfoldable pub byteskip_cstr : Bytestream → Bytestream × Bool
byteskip_cstr s =
    let (t, read, l_cstr) = byteread_vint s 0 in
    if read then bytestream_skip t l_cstr else (t, false)

-- The constant AF_INET of the system is a parameter.
unfoldable pub byteskip_addr : ℕ → Bytestream → Bytestream × Bool
byteskip_addr af_inet s =
    let (t, read, family) = byteread_vint s 0 in
    let (u, skipped) = bytestream_skip t (if read && (family == af_inet) then 4 + 2 else 16 + 2) in
    (u, read && skipped)
