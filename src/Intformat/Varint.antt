-- ===== src/Intformat/Varint.antt =====
-- The variable-length integers of intformat.c: what the encoder writes, the decoder reads.
use fair_queuing_aware_conge.Common.{
  ℕ, ◌+◌, ◌-◌, ◌*◌, ◌/◌, ◌%◌, ◌^◌, ◌≤◌, ◌<◌, ◌≡◌, List, ◌∷◌, ◌++◌, arith, bit_or, length, All, leb,
  if◌then◌else◌, IsU64, add64, mul64,
}
use fair_queuing_aware_conge.Common.Bits.{
  bit_and-top_two, bit_and-low_six, bit_or-0x40, bit_or-0x80, bit_or-0xC0,
}
use fair_queuing_aware_conge.Intformat.{
  byte_at, IsByte, encode_varint_length, varint_encode, varint_decode, decode_loop,
}

-- The encoder writes exactly `encode_varint_length n` bytes where they fit, and none otherwise.
pub length-varint_encode :
    (max_bytes n : ℕ)
    → length (varint_encode max_bytes n)
      ≡ (if leb (encode_varint_length n) max_bytes then encode_varint_length n else 0)
unfolding varint_encode encode_varint_length
length-varint_encode max_bytes n = ground arith

-- Whatever it writes is bytes.
pub varint_encode-IsByte : (max_bytes n : ℕ) → All IsByte (varint_encode max_bytes n)
unfolding varint_encode
varint_encode-IsByte max_bytes n = ground arith

-- One round of the decoding loop, on the value of the low 62 bits of `n`.
round_48 : (n : ℕ) → add64 (mul64 (n / 2 ^ 56 % 64) 256) (byte_at n 48) ≡ n % 2 ^ 62 / 2 ^ 48
round_48 n = omega arith

round_40 : (n : ℕ) → add64 (mul64 (n % 2 ^ 62 / 2 ^ 48) 256) (byte_at n 40) ≡ n % 2 ^ 62 / 2 ^ 40
round_40 n = omega arith

round_32 : (n : ℕ) → add64 (mul64 (n % 2 ^ 62 / 2 ^ 40) 256) (byte_at n 32) ≡ n % 2 ^ 62 / 2 ^ 32
round_32 n = omega arith

round_24 : (n : ℕ) → add64 (mul64 (n % 2 ^ 62 / 2 ^ 32) 256) (byte_at n 24) ≡ n % 2 ^ 62 / 2 ^ 24
round_24 n = omega arith

round_16 : (n : ℕ) → add64 (mul64 (n % 2 ^ 62 / 2 ^ 24) 256) (byte_at n 16) ≡ n % 2 ^ 62 / 2 ^ 16
round_16 n = omega arith

round_8 : (n : ℕ) → add64 (mul64 (n % 2 ^ 62 / 2 ^ 16) 256) (byte_at n 8) ≡ n % 2 ^ 62 / 2 ^ 8
round_8 n = omega arith

round_0 : (n : ℕ) → add64 (mul64 (n % 2 ^ 62 / 2 ^ 8) 256) (byte_at n 0) ≡ n % 2 ^ 62
round_0 n = omega arith

pub first_56 : (n : ℕ) → IsU64 n → bit_or (n / 2 ^ 56) 0xC0 % 256 ≡ n / 2 ^ 56 % 64 + 192
first_56 n h = rw (bit_or-0xC0 (n / 2 ^ 56) (omega arith)) (omega arith)

-- The decoder on a first byte of the class `k`, with all the bytes that it announces.
pub varint_decode_class :
    (k b : ℕ) (bs : List ℕ)
    → IsByte b
    → b / 64 ≡ k
    → 2 ^ k ≤ length (b ∷ bs)
    → varint_decode (b ∷ bs) ≡ (2 ^ k, decode_loop (2 ^ k - 1) bs (b % 64))
unfolding varint_decode
varint_decode_class k b bs hb hk fits =
    let class : b / 64 * 64 / 64 ≡ k = omega arith in
    rw (bit_and-top_two b hb, bit_and-low_six b hb, class) (ground arith)

decode_8 :
    (n : ℕ) (rest : List ℕ)
    → varint_decode (
        (n / 2 ^ 56 % 64 + 192)
        ∷ byte_at n 48
        ∷ byte_at n 40
        ∷ byte_at n 32
        ∷ byte_at n 24
        ∷ byte_at n 16
        ∷ byte_at n 8
        ∷ byte_at n 0
        ∷ rest)
      ≡ (8, n % 2 ^ 62)
unfolding decode_loop
decode_8 n rest =
    let low : (n / 2 ^ 56 % 64 + 192) % 64 ≡ n / 2 ^ 56 % 64 = omega arith in
    let tail : List ℕ =
      byte_at n 48
      ∷ byte_at n 40
      ∷ byte_at n 32
      ∷ byte_at n 24
      ∷ byte_at n 16
      ∷ byte_at n 8
      ∷ byte_at n 0
      ∷ rest in
    rw
      (varint_decode_class 3 (n / 2 ^ 56 % 64 + 192) tail (omega arith) (omega arith) (omega arith))
      (rw low
        (rw (round_48 n, round_40 n, round_32 n, round_24 n, round_16 n, round_8 n, round_0 n)))

decode_4 :
    (n : ℕ) (rest : List ℕ)
    → n < 2 ^ 30
    → varint_decode ((n / 2 ^ 24 + 128) ∷ byte_at n 16 ∷ byte_at n 8 ∷ byte_at n 0 ∷ rest)
      ≡ (4, n % 2 ^ 62)
unfolding decode_loop
decode_4 n rest h =
    rw
      (varint_decode_class 2 (n / 2 ^ 24 + 128) (byte_at n 16 ∷ byte_at n 8 ∷ byte_at n 0 ∷ rest)
        (omega arith) (omega arith) (omega arith))
      (ground arith)

decode_2 :
    (n : ℕ) (rest : List ℕ)
    → n < 2 ^ 14
    → varint_decode ((n / 2 ^ 8 + 64) ∷ byte_at n 0 ∷ rest) ≡ (2, n % 2 ^ 62)
unfolding decode_loop
decode_2 n rest h =
    rw
      (varint_decode_class 1 (n / 2 ^ 8 + 64) (byte_at n 0 ∷ rest) (omega arith) (omega arith)
        (omega arith))
      (ground arith)

decode_1 : (n : ℕ) (rest : List ℕ) → n < 64 → varint_decode (byte_at n 0 ∷ rest) ≡ (1, n % 2 ^ 62)
unfolding decode_loop
decode_1 n rest h =
    rw (varint_decode_class 0 (byte_at n 0) rest (omega arith) (omega arith) (omega arith))
      (ground arith)

-- The first bytes, with the mask of the length put on.
pub first_24 : (n : ℕ) → n < 2 ^ 30 → bit_or (n / 2 ^ 24) 0x80 % 256 ≡ n / 2 ^ 24 + 128
first_24 n h = rw (bit_or-0x80 (n / 2 ^ 24) (omega arith)) (omega arith)

pub first_8 : (n : ℕ) → n < 2 ^ 14 → bit_or (n / 2 ^ 8) 0x40 % 256 ≡ n / 2 ^ 8 + 64
first_8 n h = rw (bit_or-0x40 (n / 2 ^ 8) (omega arith)) (omega arith)

-- Every uint64_t that is encoded with room for it is read back modulo 2 ^ 62 with the length that
-- was written, whatever follows it; below 2 ^ 62, the range of the format, it is read back exactly.
pub varint_decode-varint_encode :
    (max_bytes n : ℕ) (rest : List ℕ)
    → IsU64 n
    → encode_varint_length n ≤ max_bytes
    → varint_decode (varint_encode max_bytes n ++ rest) ≡ (encode_varint_length n, n % 2 ^ 62)
unfolding varint_encode encode_varint_length
varint_decode-varint_encode max_bytes n rest h fits = ground (
  arith,
  first_56 n h,
  first_24 n,
  first_8 n,
  decode_8 n rest,
  decode_4 n rest,
  decode_2 n rest,
  decode_1 n rest,
)
