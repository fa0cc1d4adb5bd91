-- ===== src/Intformat/Examples.antt =====
-- Runs of the functions of intformat.c, and the theorems at concrete inputs.
use fair_queuing_aware_conge.Common.{◌+◌, ◌%◌, ◌^◌, ◌<◌, ◌≡◌, refl, [], ◌∷◌, ◌++◌, arith}
use fair_queuing_aware_conge.Intformat.{
  encode_varint_length, varint_encode, varint_decode, decode_loop,
}
use fair_queuing_aware_conge.Intformat.Varint.{varint_decode-varint_encode}
use fair_queuing_aware_conge.Intformat.Prefix.{
  big_endian, varint_decode_truncated, varint_decode-big_endian,
}

-- The examples of RFC 9000, appendix A.1.
encode_rfc : varint_encode 8 494878333 ≡ 0x9d ∷ 0x7f ∷ 0x3e ∷ 0x7d ∷ []
unfolding varint_encode
encode_rfc = refl

decode_rfc :
    varint_decode (0xc2 ∷ 0x19 ∷ 0x7c ∷ 0x5e ∷ 0xff ∷ 0x14 ∷ 0xe8 ∷ 0x8c ∷ [])
    ≡ (8, 151288809941952652)
unfolding varint_decode decode_loop
decode_rfc = refl

-- A value past the range of the format loses its two top bits.
encode_too_large : varint_decode (varint_encode 8 (2 ^ 62 + 5)) ≡ (8, 5)
unfolding varint_encode varint_decode decode_loop
encode_too_large = refl

varint_decode-varint_encode_example :
    varint_decode (varint_encode 4 70000 ++ (9 ∷ [])) ≡ (encode_varint_length 70000, 70000 % 2 ^ 62)
varint_decode-varint_encode_example =
    varint_decode-varint_encode 4 70000 (9 ∷ []) (omega arith)
      (unfold encode_varint_length in omega arith)

-- Two of the four bytes of 70000.
varint_decode_truncated_example : varint_decode (0x80 ∷ 0x01 ∷ []) ≡ (0, 0)
varint_decode_truncated_example =
    varint_decode_truncated 8 70000 0x11 (0x80 ∷ 0x01 ∷ []) (0x70 ∷ []) (omega arith)
      (unfold varint_encode in refl)

-- The two bytes of 15293, and one behind them.
varint_decode-big_endian_example :
    (varint_decode (0x7b ∷ 0xbd ∷ 0x05 ∷ []) ≡ (2, big_endian 59 (0xbd ∷ [])))
    × (big_endian 59 (0xbd ∷ []) < 2 ^ 62)
varint_decode-big_endian_example =
    varint_decode-big_endian 0x7b (0xbd ∷ 0x05 ∷ []) (omega arith, (omega arith, (omega arith, tt)))
      (omega arith)
