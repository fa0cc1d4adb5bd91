-- ===== src/Intformat/Fixed.antt =====
-- The fixed-width integers of intformat.c and the two-byte form of the variable-length ones.
use fair_queuing_aware_conge.Common.{ℕ, ◌+◌, ◌/◌, ◌%◌, ◌^◌, ◌<◌, ◌≡◌, ◌∙◌, List, ◌∷◌, ◌++◌, arith}
use fair_queuing_aware_conge.Common.Bits.{bit_or-bit_and-0x7F}
use fair_queuing_aware_conge.Intformat.{
  byte_at, format_16, format_24, format_32, format_64, varint_encode_16, varint_decode, decode_loop,
}
use fair_queuing_aware_conge.Intformat.Varint.{varint_decode_class}
use fair_queuing_aware_conge.Intformat.Prefix.{big_endian}

-- Each fixed-width writer stores its argument most significant byte first: read as a big-endian
-- number, the bytes give back the argument cut to 16, 24, 32 or 64 bits.
pub format-big_endian :
    (n : ℕ)
    → (big_endian 0 (format_16 n) ≡ n % 2 ^ 16)
      × (big_endian 0 (format_24 n) ≡ n % 2 ^ 24)
      × (big_endian 0 (format_32 n) ≡ n % 2 ^ 32)
      × (big_endian 0 (format_64 n) ≡ n % 2 ^ 64)
unfolding format_16 format_24 format_32 format_64
format-big_endian n = omega arith

-- The two-byte form of a uint16_t is read back with length 2 and its low 14 bits.
pub varint_decode-varint_encode_16 :
    (n : ℕ) (rest : List ℕ)
    → n < 2 ^ 16
    → varint_decode (varint_encode_16 n ++ rest) ≡ (2, n % 2 ^ 14)
unfolding varint_encode_16 decode_loop
varint_decode-varint_encode_16 n rest h =
    let first : (n / 2 ^ 8 % 64 + 64) % 256 ≡ n / 2 ^ 8 % 64 + 64 = omega arith in
    rw (bit_or-bit_and-0x7F (n / 2 ^ 8) (omega arith), first)
      (varint_decode_class 1 (n / 2 ^ 8 % 64 + 64) (byte_at n 0 ∷ rest) (omega arith) (omega arith)
          (omega arith)
        ∙ ground arith)
