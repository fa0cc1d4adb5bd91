-- ===== src/Frames/RoundTrip.antt =====
-- What the functions of picoquic/frames.c write, `picoquic_skip_frame` passes over: the steps.
use fair_queuing_aware_conge.Common.{
  ℕ, suc, ◌-◌, ◌^◌, ◌<◌, ◌≡◌, refl, sym, ◌∙◌, ap, Bool, true, false, List, [], ◌∷◌, ◌++◌, Option,
  none, some, append_assoc, length, length-append, leb, arith,
}
use fair_queuing_aware_conge.Frames.{
  ◌>>=◌, frames_fixed_skip, frames_varint_skip, frames_length_data_skip, frames_varint_encode,
  frames_varlen_encode, frames_uint8_encode, frames_length_data_encode, put, ◌then_put◌,
}
use fair_queuing_aware_conge.Frames.Switch.{skip_switch, SkipFrame, consumed_of, skip_frame}
use fair_queuing_aware_conge.Frames.Closing.{drop-front}
use fair_queuing_aware_conge.Frames.Varint.{
  frames_varint_decode-frames_varint_encode, frames_varint_skip-decode,
}

-- Whatever the encoder writes, and whatever stands behind it, the function skips it and leaves the rest.
pub record SkipsOver (e : ℕ → Option (List ℕ)) (s : List ℕ → Option (List ℕ)) : Type 0 where
  pub over : (room : ℕ) (out rest : List ℕ) → e room ≡ some out → s (out ++ rest) ≡ some rest

-- An encoder whose first byte is known.
pub record StartsWith (first : ℕ) (e : ℕ → Option (List ℕ)) : Type 0 where
  pub starts :
      (room : ℕ) (out : List ℕ) → e room ≡ some out → (tail : List ℕ) × (out ≡ first ∷ tail)

-- A step that gives a result had one before.
bound :
    {A B : Type 0} (m : Option A) (f : A → Option B) (b : B)
    → (m >>= f) ≡ some b
    → (a : A) × ((m ≡ some a) × (f a ≡ some b))
bound none f b h = absurd (ground (arith, h))
bound (some a) f b h = (a, (refl, h))

-- What two encoders write one after the other are two parts.
pub parts :
    (e f : ℕ → Option (List ℕ)) (room : ℕ) (out : List ℕ)
    → (e then_put f) room ≡ some out
    → (first : List ℕ) × ((second : List ℕ) × ((e room ≡ some first)
          × (f (room - length first) ≡ some second)
          × (out ≡ first ++ second)))
unfolding ◌then_put◌
parts e f room out h =
    let (first, (h1, rest)) =
      bound (e room) (λ first. f (room - length first) >>= λ second. some (first ++ second)) out
        h in
    let (second, (h2, whole)) =
      bound (f (room - length first)) (λ second. some (first ++ second)) out rest in
    (first, (second, (h1, h2, ground (arith, whole))))

pub then_put-SkipsOver :
    {e f : ℕ → Option (List ℕ)} {s t : List ℕ → Option (List ℕ)}
    → SkipsOver e s
    → SkipsOver f t
    → SkipsOver (e then_put f) (λ bytes. s bytes >>= t)
then_put-SkipsOver {e = e} {f = f} {s = s} {t = t} p q = record {
  over = λ room out rest h.
      let (first, (second, (h1, h2, whole))) = parts e f room out h in
      ap (λ bytes. s bytes >>= t) (ap (λ o. o ++ rest) whole ∙ append_assoc first second rest)
      ∙ ap (λ r. r >>= t) (p.over room first (second ++ rest) h1)
      ∙ q.over (room - length first) second rest h2;
}

pub then_put-StartsWith :
    {first : ℕ} {e : ℕ → Option (List ℕ)} (f : ℕ → Option (List ℕ))
    → StartsWith first e
    → StartsWith first (e then_put f)
then_put-StartsWith {first = b} {e = e} f p = record {
  starts = λ room out h.
      let (first, (second, (h1, h2, whole))) = parts e f room out h in
      let (tail, e1) = p.starts room first h1 in (tail ++ second, whole ∙ ap (λ o. o ++ second) e1);
}

pub varint-SkipsOver : (n : ℕ) → n < 2 ^ 62 → SkipsOver (frames_varint_encode n) frames_varint_skip
varint-SkipsOver n h = record {
  over = λ room out rest e.
      frames_varint_skip-decode (out ++ rest)
      ∙ ap (λ r. r >>= λ (value, left). some left)
          (frames_varint_decode-frames_varint_encode n room out rest h e);
}

put-out : (v : List ℕ) (room : ℕ) (out : List ℕ) → put v room ≡ some out → out ≡ v
unfolding put
put-out v room out h = ground (arith, h)

fixed_skip-front : (v rest : List ℕ) → frames_fixed_skip (v ++ rest) (length v) ≡ some rest
unfolding frames_fixed_skip
fixed_skip-front v rest =
    let there : leb (length v) (length (v ++ rest)) ≡ true = ground (arith, length-append v rest) in
    rw (there, drop-front v rest) refl

pub put-SkipsOver : (v : List ℕ) → SkipsOver (put v) (λ bytes. frames_fixed_skip bytes (length v))
put-SkipsOver v = record {
  over = λ room out rest h.
      ap (λ (o : List ℕ). frames_fixed_skip (o ++ rest) (length v)) (put-out v room out h)
      ∙ fixed_skip-front v rest;
}

pub length_data-SkipsOver :
    (v : List ℕ)
    → length v < 2 ^ 62
    → SkipsOver (frames_length_data_encode v) frames_length_data_skip
unfolding frames_length_data_encode frames_length_data_skip frames_varlen_encode
length_data-SkipsOver v small = record {
  over = λ room out rest h.
      let (first, (second, (h1, h2, whole))) =
        parts (frames_varint_encode (length v)) (put v) room out h in
      let same = put-out v (room - length first) second h2 in
      ap frames_length_data_skip (ap (λ o. o ++ rest) whole ∙ append_assoc first second rest)
      ∙ ap (λ r. r >>= λ (size, bytes). frames_fixed_skip bytes size)
          (frames_varint_decode-frames_varint_encode (length v) room first (second ++ rest) small
            h1)
      ∙ ap (λ (o : List ℕ). frames_fixed_skip (o ++ rest) (length v)) same
      ∙ fixed_skip-front v rest;
}

-- `bytes + 1`
abbrev pub skip_first : List ℕ → Option (List ℕ)
skip_first [] = none
skip_first (b ∷ bs) = some bs

pub uint8-SkipsOver : (n : ℕ) → SkipsOver (frames_uint8_encode n) skip_first
unfolding frames_uint8_encode
uint8-SkipsOver n = record {
  over =
      λ room out rest h. ap (λ (o : List ℕ). skip_first (o ++ rest)) (put-out (n ∷ []) room out h);
}

pub uint8-StartsWith : (n : ℕ) → StartsWith n (frames_uint8_encode n)
unfolding frames_uint8_encode
uint8-StartsWith n = record { starts = λ room out h. ([], put-out (n ∷ []) room out h) }

-- `picoquic_skip_frame` on a buffer, which is not empty.
abbrev pub skip_at : List ℕ → Option SkipFrame
skip_at [] = none
skip_at (first ∷ bytes) = some (skip_frame first bytes)

abbrev pub passed : List ℕ → Bool → Option SkipFrame
passed out pure_ack = some (record { consumed = length out; pure_ack = pure_ack; failed = false })

-- A frame whose type the switch passes to a function that skips it.
pub frame_skipped :
    {e : ℕ → Option (List ℕ)} {s : List ℕ → Option (List ℕ)} (first : ℕ) (pure_ack : Bool)
    → StartsWith first e
    → SkipsOver e s
    → ((bytes : List ℕ) → skip_switch first bytes ≡ (s (first ∷ bytes), pure_ack))
    → (room : ℕ) (out rest : List ℕ) → e room ≡ some out
    → skip_at (out ++ rest) ≡ passed out pure_ack
unfolding skip_frame consumed_of
frame_skipped {s = s} first pure_ack b p switch room out rest h =
    let (tail, starts) = b.starts room out h in
    let left : s (first ∷ (tail ++ rest)) ≡ some rest =
      ap (λ o. s (o ++ rest)) (sym starts) ∙ p.over room out rest h in
    let count : suc (length (tail ++ rest)) - length rest ≡ suc (length tail) =
      omega (arith, length-append tail rest) in
    rw (starts, switch (tail ++ rest), left, count) refl
