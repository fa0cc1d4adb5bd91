-- ===== src/Intformat.antt =====
-- Integer formats: picoquic/intformat.c. A byte is a number below 256. A function that writes
-- through a byte pointer returns the bytes that it writes from there on, and one that reads takes
-- the list of the bytes that it may read (`max_bytes` of them).
pub mod Varint
pub mod Prefix
pub mod Fixed
mod Examples
use fair_queuing_aware_conge.Common.{
  ℕ, zero, suc, ◌+◌, ◌-◌, ◌*◌, ◌/◌, ◌%◌, ◌^◌, ◌<◌, List, [], ◌∷◌, bit_and, bit_or, length, ltb, leb,
  if◌then◌else◌, add64, mul64, u64_mod,
}

-- (uint8_t)(n >> s)
abbrev pub byte_at : ℕ → ℕ → ℕ
byte_at n s = n / 2 ^ s % 256

abbrev pub IsByte : ℕ → Type 0
IsByte b = b < 256

-- The store of `picoformat_16`.
unfoldable pub format_16 : ℕ → List ℕ
format_16 n = byte_at n 8 ∷ byte_at n 0 ∷ []

unfoldable pub format_24 : ℕ → List ℕ
format_24 n = byte_at n 16 ∷ byte_at n 8 ∷ byte_at n 0 ∷ []

unfoldable pub format_32 : ℕ → List ℕ
format_32 n = byte_at n 24 ∷ byte_at n 16 ∷ byte_at n 8 ∷ byte_at n 0 ∷ []

unfoldable pub format_64 : ℕ → List ℕ
format_64 n =
    byte_at n 56
    ∷ byte_at n 48
    ∷ byte_at n 40
    ∷ byte_at n 32
    ∷ byte_at n 24
    ∷ byte_at n 16
    ∷ byte_at n 8
    ∷ byte_at n 0
    ∷ []

unfoldable pub encode_varint_length : ℕ → ℕ
encode_varint_length n =
    if ltb n 16384 then (if ltb n 64 then 1 else 2) else (if ltb n 1073741824 then 4 else 8)

-- 1 << ((byte & 0xC0) >> 6)
unfoldable pub decode_varint_length : ℕ → ℕ
decode_varint_length b = 2 ^ (bit_and b 0xC0 / 2 ^ 6)

-- The bytes written; their number is the result `x - bytes`.
unfoldable pub varint_encode : ℕ → ℕ → List ℕ
varint_encode max_bytes n =
    if ltb n 16384
    then (if ltb n 64
        then (if ltb 0 max_bytes then byte_at n 0 ∷ [] else [])
        else (if leb 2 max_bytes then (bit_or (n / 2 ^ 8) 0x40 % 256) ∷ byte_at n 0 ∷ [] else []))
    else (if ltb n 1073741824
        then (if leb 4 max_bytes
            then (bit_or (n / 2 ^ 24) 0x80 % 256) ∷ byte_at n 16 ∷ byte_at n 8 ∷ byte_at n 0 ∷ []
            else [])
        else (if leb 8 max_bytes
            then (bit_or (n / 2 ^ 56) 0xC0 % 256)
              ∷ byte_at n 48
              ∷ byte_at n 40
              ∷ byte_at n 32
              ∷ byte_at n 24
              ∷ byte_at n 16
              ∷ byte_at n 8
              ∷ byte_at n 0
              ∷ []
            else []))

unfoldable pub varint_encode_16 : ℕ → List ℕ
varint_encode_16 n = (bit_and (bit_or (n / 2 ^ 8) 0x40) 0x7F % 256) ∷ byte_at n 0 ∷ []

-- `v <<= 8; v += *bytes++;` for the rounds that are left.
unfoldable pub decode_loop : ℕ → List ℕ → ℕ → ℕ
decode_loop zero bs v = v
decode_loop (suc k) [] v = v
decode_loop (suc k) (b ∷ bs) v = decode_loop k bs (add64 (mul64 v 256) b)

-- The length and the value; `bytes` has `max_bytes` elements.
unfoldable pub varint_decode : List ℕ → ℕ × ℕ
unfolding decode_loop
varint_decode [] = (0, 0)
varint_decode (b ∷ bs) =
    let len = 2 ^ (bit_and b 0xC0 / 2 ^ 6) in
    if ltb (length (b ∷ bs)) len then (0, 0) else (len, decode_loop (len - 1) bs (bit_and b 0x3F))

-- Reads one byte, so it wants one; on no byte C reads past the end.
unfoldable pub varint_skip : ℕ → ℕ
varint_skip first = decode_varint_length first
