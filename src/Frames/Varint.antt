-- ===== src/Frames/Varint.antt =====
-- The integers of variable length of picoquic/util.c, against those of picoquic/intformat.c.
use fair_queuing_aware_conge.Common.{
  ℕ, zero, suc, ◌-◌, ◌/◌, ◌%◌, ◌^◌, ◌<◌, ◌≤◌, ◌≡◌, refl, sym, ◌∙◌, ap, inl, inr, true, false, List,
  [], ◌∷◌, ◌++◌, Option, none, some, All, length, drop, ltb, leb, ◌==◌, if◌then◌else◌, arith,
  Bool-cases, bit_and,
}
use mathlib.Core.Path.{subst}
use fair_queuing_aware_conge.Common.Bits.{bit_and-top_two}
use fair_queuing_aware_conge.Intformat.{IsByte, varint_encode, varint_decode, encode_varint_length}
use fair_queuing_aware_conge.Intformat.Varint.{varint_decode-varint_encode, varint_encode-IsByte}
use fair_queuing_aware_conge.Frames.{
  ◌>>=◌, varint_len, frames_fixed_skip, frames_varint_skip, frames_varint_decode,
  frames_varint_encode,
}
use fair_queuing_aware_conge.Frames.Closing.{drop-front}
use fair_queuing_aware_conge.Frames.Ends.{pow-pos}

-- What the encoder of intformat.c writes, as the encoder of util.c answers it.
abbrev pub or_null : List ℕ → Option (List ℕ)
or_null bytes = if length bytes == 0 then none else some bytes

-- The two encoders write the same bytes, and fail on the same room.
pub frames_varint_encode-varint_encode :
    (n room : ℕ) → frames_varint_encode n room ≡ or_null (varint_encode room n)
unfolding frames_varint_encode varint_encode
frames_varint_encode-varint_encode n room = ground arith

pub varint_len-pos : (b : ℕ) → 0 < varint_len b
unfolding varint_len
varint_len-pos b = pow-pos (b / 2 ^ 6 % 4)

drop-tail : (n b : ℕ) (bs : List ℕ) → 0 < n → drop n (b ∷ bs) ≡ drop (n - 1) bs
drop-tail zero b bs h = absurd (omega arith)
drop-tail (suc n) b bs h = ap (λ (k : ℕ). drop k bs) (omega arith)

same_len : (b : ℕ) → b < 256 → 2 ^ (bit_and b 0xC0 / 2 ^ 6) ≡ varint_len b
unfolding varint_len
same_len b h = rw (bit_and-top_two b h) (ap (λ (k : ℕ). 2 ^ k) (omega arith))

abbrev pub value_behind : ℕ × ℕ → List ℕ → Option (ℕ × List ℕ)
value_behind (len, value) bytes = if len == 0 then none else some (value, drop len bytes)

decode_from :
    (b : ℕ) (bs : List ℕ)
    → IsByte b
    → frames_varint_decode (b ∷ bs) ≡ value_behind (varint_decode (b ∷ bs)) (b ∷ bs)
unfolding frames_varint_decode varint_decode
decode_from b bs hb =
    let positive : (varint_len b == 0) ≡ false = ground (arith, varint_len-pos b) in
    rw (same_len b hb) (elim (Bool-cases (leb (varint_len b) (length (b ∷ bs)))) [
      | inl there ↦
          let enough : ltb (length (b ∷ bs)) (varint_len b) ≡ false = ground (arith, there) in
          rw (there, enough, positive, drop-tail (varint_len b) b bs (varint_len-pos b)) refl
      | inr short ↦
          let missing : ltb (length (b ∷ bs)) (varint_len b) ≡ true = ground (arith, short) in
          rw (short, missing) refl
    ])

-- The two decoders read the same value from the same bytes, and fail on the same ones.
pub frames_varint_decode-varint_decode :
    (bytes : List ℕ)
    → All IsByte bytes
    → frames_varint_decode bytes ≡ value_behind (varint_decode bytes) bytes
unfolding frames_varint_decode varint_decode
frames_varint_decode-varint_decode [] h = refl
frames_varint_decode-varint_decode (b ∷ bs) (hb, h) = decode_from b bs hb

-- The bytes that the decoder takes are those that are skipped.
pub frames_varint_skip-decode :
    (bytes : List ℕ)
    → frames_varint_skip bytes ≡ (frames_varint_decode bytes >>= λ (value, rest). some rest)
unfolding frames_varint_skip frames_varint_decode frames_fixed_skip
frames_varint_skip-decode [] = refl
frames_varint_skip-decode (b ∷ bs) = elim (Bool-cases (leb (varint_len b) (length (b ∷ bs)))) [
  | inl there ↦ rw (there, drop-tail (varint_len b) b bs (varint_len-pos b)) refl
  | inr short ↦ rw short refl
]

-- What the encoder of util.c wrote, it wrote with room for it, and it is that of intformat.c.
written :
    (n room : ℕ) (out : List ℕ)
    → frames_varint_encode n room ≡ some out
    → (out ≡ varint_encode room n)
      × (encode_varint_length n ≤ room)
      × (length out ≡ encode_varint_length n)
unfolding frames_varint_encode varint_encode encode_varint_length
written n room out e = ground (arith, e)

some_length : (n : ℕ) → 0 < encode_varint_length n
unfolding encode_varint_length
some_length n = ground arith

front_value :
    (len value : ℕ) (out rest : List ℕ)
    → 0 < len
    → length out ≡ len
    → value_behind (len, value) (out ++ rest) ≡ some (value, rest)
front_value len value out rest pos count =
    let positive : (len == 0) ≡ false = ground (arith, pos) in
    rw (positive, sym count, drop-front out rest) refl

-- The decoder of intformat.c reads back what the encoder of util.c wrote.
pub value_behind-frames_varint_encode :
    (n room : ℕ) (out rest : List ℕ)
    → n < 2 ^ 62
    → frames_varint_encode n room ≡ some out
    → value_behind (varint_decode (out ++ rest)) (out ++ rest) ≡ some (n, rest)
value_behind-frames_varint_encode n room out rest h e =
    let (same, fits, count) = written n room out e in
    let value : n % 2 ^ 62 ≡ n = omega arith in
    ap (λ r. value_behind r (out ++ rest))
      (ap (λ (o : List ℕ). varint_decode (o ++ rest)) same
        ∙ varint_decode-varint_encode room n rest (omega arith) fits)
    ∙ rw value
        (front_value (encode_varint_length n) n out rest (omega (arith, some_length n)) count)

-- A number below 2 ^ 62 is read back from what was written for it, whatever bytes stand behind it, and
-- these are left.
pub frames_varint_decode-frames_varint_encode :
    (n room : ℕ) (out rest : List ℕ)
    → n < 2 ^ 62
    → frames_varint_encode n room ≡ some out
    → frames_varint_decode (out ++ rest) ≡ some (n, rest)
frames_varint_decode-frames_varint_encode n room [] rest h e =
    absurd (omega (arith, (written n room [] e).2, some_length n))
frames_varint_decode-frames_varint_encode n room (b ∷ bs) rest h e =
    let same = (written n room (b ∷ bs) e).0 in
    let bytes = subst (All IsByte) (sym same) (varint_encode-IsByte room n) in
    decode_from b (bs ++ rest) (bytes.0)
    ∙ value_behind-frames_varint_encode n room (b ∷ bs) rest h e
