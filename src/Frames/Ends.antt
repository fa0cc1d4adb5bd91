-- ===== src/Frames/Ends.antt =====
-- What the decoders and the skipping functions of picoquic/util.c leave: an end of the bytes that they are
-- given. The lemmas follow the steps of a function.
use fair_queuing_aware_conge.Common.{
  ℕ, zero, suc, ◌-◌, ◌%◌, ◌/◌, ◌^◌, ◌<◌, ◌≡◌, refl, sym, ◌∙◌, ap, inl, inr, Bool, true, false, List,
  [], ◌∷◌, ◌++◌, Option, none, some, append_assoc, append_nil, length, drop, leb, if◌then◌else◌,
  arith, Bool-cases,
}
use native.Mathlib.Nat.{pow-suc}
use fair_queuing_aware_conge.Frames.{
  ◌>>=◌, varint_len, frames_fixed_skip, frames_varint_skip, frames_varint_decode,
  frames_uint8_decode, frames_length_data_skip,
}

-- The bytes end with the others.
abbrev pub EndsWith : List ℕ → List ℕ → Type 0
EndsWith bytes rest = (front : List ℕ) × (bytes ≡ front ++ rest)

-- The result is NULL, or an end of the bytes.
pub data IsEnd (bytes : List ℕ) : Option (List ℕ) → Type 0 where
  null : IsEnd bytes none
  rest_of : (rest : List ℕ) → EndsWith bytes rest → IsEnd bytes (some rest)

-- The same for a decoder, behind the value.
pub data IsValueEnd {ℓ} (A : Type ℓ) (bytes : List ℕ) : Option (A × List ℕ) → Type ℓ where
  null_value : IsValueEnd A bytes none
  value_of :
      (value : A) (rest : List ℕ) → EndsWith bytes rest → IsValueEnd A bytes (some (value, rest))

pub here : (bytes : List ℕ) → IsEnd bytes (some bytes)
here bytes = rest_of bytes ([], refl)

pub all_of : (bytes : List ℕ) → IsEnd bytes (some [])
all_of bytes = rest_of [] (bytes, sym (append_nil bytes))

pub EndsWith-trans :
    (bytes rest last : List ℕ) → EndsWith bytes rest → EndsWith rest last → EndsWith bytes last
EndsWith-trans bytes rest last (front, e) (middle, e') =
    (front ++ middle, e ∙ ap (λ ys. front ++ ys) e' ∙ sym (append_assoc front middle last))

pub EndsWith-cons : (b : ℕ) (bs rest : List ℕ) → EndsWith bs rest → EndsWith (b ∷ bs) rest
EndsWith-cons b bs rest (front, e) = (b ∷ front, ap (λ ys. b ∷ ys) e)

pub IsEnd-trans :
    (bytes rest : List ℕ) {r : Option (List ℕ)} → EndsWith bytes rest → IsEnd rest r → IsEnd bytes r
IsEnd-trans bytes rest e null = null
IsEnd-trans bytes rest e (rest_of last e') = rest_of last (EndsWith-trans bytes rest last e e')

-- One step after the other.
pub then-IsEnd :
    {bytes : List ℕ} {m : Option (List ℕ)} {f : List ℕ → Option (List ℕ)}
    → IsEnd bytes m
    → ((rest : List ℕ) → IsEnd rest (f rest))
    → IsEnd bytes (m >>= f)
then-IsEnd {f = f} null g = null
then-IsEnd {bytes = bytes} {f = f} (rest_of rest e) g = IsEnd-trans bytes rest e (g rest)

pub value-IsEnd {ℓ} :
    {A : Type ℓ} {bytes : List ℕ} {m : Option (A × List ℕ)} {f : A × List ℕ → Option (List ℕ)}
    → IsValueEnd A bytes m
    → ((read : A × List ℕ) → IsEnd (read.1) (f read))
    → IsEnd bytes (m >>= f)
value-IsEnd null_value g = null
value-IsEnd {bytes = bytes} {f = f} (value_of value rest e) g =
    IsEnd-trans bytes rest e (g (value, rest))

pub IsValueEnd-trans {ℓ} :
    {A : Type ℓ} (bytes rest : List ℕ) {r : Option (A × List ℕ)}
    → EndsWith bytes rest
    → IsValueEnd A rest r
    → IsValueEnd A bytes r
IsValueEnd-trans bytes rest e null_value = null_value
IsValueEnd-trans bytes rest e (value_of value last e') =
    value_of value last (EndsWith-trans bytes rest last e e')

pub values-IsValueEnd {ℓ κ} :
    {A : Type ℓ} {B : Type κ} {bytes : List ℕ} {m : Option (A × List ℕ)}
    {f : A × List ℕ → Option (B × List ℕ)}
    → IsValueEnd A bytes m
    → ((read : A × List ℕ) → IsValueEnd B (read.1) (f read))
    → IsValueEnd B bytes (m >>= f)
values-IsValueEnd null_value g = null_value
values-IsValueEnd {bytes = bytes} (value_of value rest e) g =
    IsValueEnd-trans bytes rest e (g (value, rest))

pub choose_value {ℓ} :
    {A : Type ℓ} {bytes : List ℕ} (c : Bool) {a b : Option (A × List ℕ)}
    → IsValueEnd A bytes a
    → IsValueEnd A bytes b
    → IsValueEnd A bytes (if c then a else b)
choose_value true h k = h
choose_value false h k = k

pub choose :
    {bytes : List ℕ} (c : Bool) {a b : Option (List ℕ)}
    → IsEnd bytes a
    → IsEnd bytes b
    → IsEnd bytes (if c then a else b)
choose true h k = h
choose false h k = k

pub drop_end : (n : ℕ) (bytes : List ℕ) → EndsWith bytes (drop n bytes)
drop_end zero bytes = ([], refl)
drop_end (suc n) [] = ([], refl)
drop_end (suc n) (b ∷ bs) = EndsWith-cons b bs (drop n bs) (drop_end n bs)

pub drop-IsEnd : (n : ℕ) (bytes : List ℕ) → IsEnd bytes (some (drop n bytes))
drop-IsEnd n bytes = rest_of (drop n bytes) (drop_end n bytes)

pub fixed_skip-IsEnd : (bytes : List ℕ) (size : ℕ) → IsEnd bytes (frames_fixed_skip bytes size)
unfolding frames_fixed_skip
fixed_skip-IsEnd bytes size = choose (leb size (length bytes)) (drop-IsEnd size bytes) null

pub fixed_skip-IsEnd_tail :
    (b : ℕ) (bs : List ℕ) (size : ℕ) → 0 < size → IsEnd bs (frames_fixed_skip (b ∷ bs) size)
unfolding frames_fixed_skip
fixed_skip-IsEnd_tail b bs zero h = absurd (omega arith)
fixed_skip-IsEnd_tail b bs (suc size) h =
    choose (leb (suc size) (length (b ∷ bs))) (drop-IsEnd size bs) null

pub pow-pos : (k : ℕ) → 0 < 2 ^ k
pow-pos zero = omega arith
pow-pos (suc k) = grind (arith, pow-suc 2 k, pow-pos k)

-- An integer of variable length has at least one byte.
pub varint_skip-IsEnd_tail : (b : ℕ) (bs : List ℕ) → IsEnd bs (frames_varint_skip (b ∷ bs))
unfolding frames_varint_skip varint_len
varint_skip-IsEnd_tail b bs =
    fixed_skip-IsEnd_tail b bs (2 ^ (b / 2 ^ 6 % 4)) (pow-pos (b / 2 ^ 6 % 4))

pub varint_skip-IsEnd : (bytes : List ℕ) → IsEnd bytes (frames_varint_skip bytes)
unfolding frames_varint_skip
varint_skip-IsEnd [] = null
varint_skip-IsEnd (b ∷ bs) = fixed_skip-IsEnd (b ∷ bs) (varint_len b)

pub varint_decode-IsValueEnd_tail :
    (b : ℕ) (bs : List ℕ) → IsValueEnd ℕ bs (frames_varint_decode (b ∷ bs))
unfolding frames_varint_decode
varint_decode-IsValueEnd_tail b bs = elim (Bool-cases (leb (varint_len b) (length (b ∷ bs)))) [
  | inl there ↦ rw there (value_of _ _ (drop_end (varint_len b - 1) bs))
  | inr short ↦ rw short null_value
]

pub varint_decode-IsValueEnd : (bytes : List ℕ) → IsValueEnd ℕ bytes (frames_varint_decode bytes)
unfolding frames_varint_decode
varint_decode-IsValueEnd [] = null_value
varint_decode-IsValueEnd (b ∷ bs) = elim (Bool-cases (leb (varint_len b) (length (b ∷ bs)))) [
  | inl there ↦ rw there (value_of _ _ (EndsWith-cons b bs _ (drop_end (varint_len b - 1) bs)))
  | inr short ↦ rw short null_value
]

pub uint8_decode-IsValueEnd : (bytes : List ℕ) → IsValueEnd ℕ bytes (frames_uint8_decode bytes)
unfolding frames_uint8_decode
uint8_decode-IsValueEnd [] = null_value
uint8_decode-IsValueEnd (b ∷ bs) = value_of b bs (b ∷ [], refl)

pub length_data_skip-IsEnd : (bytes : List ℕ) → IsEnd bytes (frames_length_data_skip bytes)
unfolding frames_length_data_skip
length_data_skip-IsEnd bytes =
    value-IsEnd (varint_decode-IsValueEnd bytes) (λ (size, rest). fixed_skip-IsEnd rest size)
