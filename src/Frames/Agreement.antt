-- ===== src/Frames/Agreement.antt =====
-- The functions of picoquic/frames.c that skip a frame against those that read its fields.
use fair_queuing_aware_conge.Common.{
  ℕ, ◌+◌, ◌≡◌, refl, sym, ◌∙◌, ap, true, List, [], ◌∷◌, Option, none, some, length, take, drop, leb,
  arith,
}
use fair_queuing_aware_conge.Frames.{
  ◌>>=◌, varint_len, frames_fixed_skip, frames_varint_skip, frames_varint_decode,
  frames_uint8_decode, frames_length_data_skip,
}
use fair_queuing_aware_conge.Frames.Varint.{frames_varint_skip-decode}
use fair_queuing_aware_conge.Frames.Skip.{
  reset_secret_size, skip_two, skip_three, skip_new_connection_id_frame, skip_crypto_hs_frame,
  skip_ack_frequency_frame, skip_time_stamp_frame, parse_path_identifier, skip_path_identifier,
  skip_path_abandon_frame,
}
use fair_queuing_aware_conge.Frames.Parse.{
  parse_new_connection_id_frame, parse_crypto_hs_frame, parse_ack_frequency_frame,
  parse_time_stamp_frame, parse_path_abandon_frame,
}

-- What a parser leaves.
abbrev pub left_of : {A : Type 0} → Option (A × List ℕ) → Option (List ℕ)
left_of none = none
left_of (some (value, rest)) = some rest

regroup :
    {A B C : Type 0} (m : Option A) (f : A → Option B) (g : B → Option C)
    → ((m >>= f) >>= g) ≡ (m >>= λ a. f a >>= g)
regroup none f g = refl
regroup (some a) f g = refl

-- A step of the parser against one of the other function.
step :
    {A B : Type 0} (m : Option (A × List ℕ)) (f : A × List ℕ → Option (B × List ℕ))
    (s : Option (List ℕ)) (g : List ℕ → Option (List ℕ))
    → s ≡ left_of m
    → ((read : A × List ℕ) → left_of (f read) ≡ g read.1)
    → left_of (m >>= f) ≡ (s >>= g)
step none f s g e h = ap (λ r. r >>= g) (sym e)
step (some read) f s g e h = h read ∙ ap (λ r. r >>= g) (sym e)

bind-left : {A : Type 0} (m : Option (A × List ℕ)) → (m >>= λ (value, rest). some rest) ≡ left_of m
bind-left none = refl
bind-left (some read) = refl

varint_skip-left :
    (bytes : List ℕ) → frames_varint_skip bytes ≡ left_of (frames_varint_decode bytes)
varint_skip-left bytes = frames_varint_skip-decode bytes ∙ bind-left (frames_varint_decode bytes)

one_byte : (bytes : List ℕ) → frames_fixed_skip bytes 1 ≡ left_of (frames_uint8_decode bytes)
unfolding frames_fixed_skip frames_uint8_decode
one_byte [] = refl
one_byte (b ∷ bs) = let there : leb 1 (length (b ∷ bs)) ≡ true = ground arith in rw there refl

-- The last step of a parser that keeps pointers to the bytes that it skips.
last_step : {B : Type 0} (s : Option (List ℕ)) (b : B) → left_of (s >>= λ rest. some (b, rest)) ≡ s
last_step none b = refl
last_step (some rest) b = refl

value_step :
    {A B : Type 0} (m : Option (A × List ℕ)) (f : A → B)
    → left_of (m >>= λ (a, rest). some (f a, rest)) ≡ left_of m
value_step none f = refl
value_step (some read) f = refl

data_step :
    {B : Type 0} (m : Option (ℕ × List ℕ)) (extra : ℕ) (f : ℕ → List ℕ → B)
    → left_of (
        m >>= λ (size, bytes).
        frames_fixed_skip bytes (size + extra) >>= λ rest. some (f size bytes, rest))
      ≡ (m >>= λ (size, bytes). frames_fixed_skip bytes (size + extra))
data_step none extra f = refl
data_step (some (size, bytes)) extra f =
    last_step (frames_fixed_skip bytes (size + extra)) (f size bytes)

plain_data_step :
    {B : Type 0} (m : Option (ℕ × List ℕ)) (f : ℕ → List ℕ → B)
    → left_of
        (m >>= λ (size, bytes). frames_fixed_skip bytes size >>= λ rest. some (f size bytes, rest))
      ≡ (m >>= λ (size, bytes). frames_fixed_skip bytes size)
plain_data_step none f = refl
plain_data_step (some (size, bytes)) f = last_step (frames_fixed_skip bytes size) (f size bytes)

path_identifier-left :
    (bytes : List ℕ) → skip_path_identifier bytes ≡ left_of (parse_path_identifier bytes)
unfolding skip_path_identifier
path_identifier-left bytes = bind-left (parse_path_identifier bytes)

skip_two-steps :
    (bytes : List ℕ) (g : List ℕ → Option (List ℕ))
    → (skip_two bytes >>= g) ≡ (frames_varint_skip bytes >>= λ r. frames_varint_skip r >>= g)
unfolding skip_two
skip_two-steps bytes g = regroup (frames_varint_skip bytes) frames_varint_skip g

skip_three-steps :
    (bytes : List ℕ) (g : List ℕ → Option (List ℕ))
    → (skip_three bytes >>= g) ≡ (
        frames_varint_skip bytes >>= λ r.
        frames_varint_skip r >>= λ r'. frames_varint_skip r' >>= g)
unfolding skip_three
skip_three-steps bytes g =
    regroup (skip_two bytes) frames_varint_skip g
    ∙ skip_two-steps bytes (λ r. frames_varint_skip r >>= g)

-- The bytes behind the three integers of a new connection identifier.
skip_cid : List ℕ → Option (List ℕ)
skip_cid bytes = frames_uint8_decode bytes >>= λ (cid_length, rest).
    frames_fixed_skip rest (cid_length + reset_secret_size)

new_connection_id-left :
    (type : ℕ) (bytes : List ℕ)
    → frames_varint_skip (type ∷ bytes) ≡ some bytes
    → left_of (parse_new_connection_id_frame bytes) ≡ skip_new_connection_id_frame (type ∷ bytes)
unfolding parse_new_connection_id_frame skip_new_connection_id_frame skip_cid
new_connection_id-left type bytes typed =
    let after : List ℕ → Option (List ℕ) = λ r. frames_varint_skip r >>= skip_cid in
    step (frames_varint_decode bytes) _ (frames_varint_skip bytes) after (varint_skip-left bytes)
      (λ (sequence, r0).
        step (frames_varint_decode r0) _ (frames_varint_skip r0) skip_cid (varint_skip-left r0)
          (λ (retire_before, r1).
            data_step (frames_uint8_decode r1) reset_secret_size (λ cid_length bytes'. record {
              sequence = sequence;
              retire_before = retire_before;
              cid_length = cid_length;
              cnxid_bytes = take cid_length bytes';
              secret_bytes = take reset_secret_size (drop cid_length bytes');
            })))
    ∙ sym (
        skip_three-steps (type ∷ bytes) skip_cid
        ∙ ap (λ r. r >>= λ r'. frames_varint_skip r' >>= after) typed)

crypto_hs-left :
    (bytes : List ℕ) → left_of (parse_crypto_hs_frame bytes) ≡ skip_crypto_hs_frame bytes
unfolding parse_crypto_hs_frame skip_crypto_hs_frame frames_length_data_skip
crypto_hs-left bytes =
    step (frames_varint_decode bytes) _ (frames_varint_skip bytes) _ (varint_skip-left bytes)
      (λ (offset, r0).
        plain_data_step (frames_varint_decode r0) (λ size bytes'. (offset, take size bytes')))

ack_frequency-left :
    (bytes : List ℕ) → left_of (parse_ack_frequency_frame bytes) ≡ skip_ack_frequency_frame bytes
unfolding parse_ack_frequency_frame skip_ack_frequency_frame
ack_frequency-left bytes =
    step (frames_varint_decode bytes) _ (frames_varint_skip bytes) _ (varint_skip-left bytes)
      (λ (seq, r0).
        step (frames_varint_decode r0) _ (frames_varint_skip r0) _ (varint_skip-left r0)
          (λ (packets, r1).
            step (frames_varint_decode r1) _ (frames_varint_skip r1) _ (varint_skip-left r1)
              (λ (microsec, r2).
                value_step (frames_uint8_decode r2)
                  (λ ignore_order. (seq, packets, microsec, ignore_order))
                ∙ sym (one_byte r2))))
    ∙ sym (skip_three-steps bytes (λ r. frames_fixed_skip r 1))

path_abandon-left :
    (bytes : List ℕ) → left_of (parse_path_abandon_frame bytes) ≡ skip_path_abandon_frame bytes
unfolding parse_path_abandon_frame skip_path_abandon_frame
path_abandon-left bytes =
    step (parse_path_identifier bytes) _ (skip_path_identifier bytes) _ (path_identifier-left bytes)
      (λ (path_id, r0).
        step (frames_varint_decode r0) _ (frames_varint_skip r0) _ (varint_skip-left r0)
          (λ (reason, r1). last_step (frames_length_data_skip r1) (path_id, reason)))

-- The type of a new connection identifier is one byte.
one_byte_type : (bytes : List ℕ) → frames_varint_skip (0x18 ∷ bytes) ≡ some bytes
unfolding frames_varint_skip frames_fixed_skip varint_len
one_byte_type bytes =
    let there : leb 1 (length (0x18 ∷ bytes)) ≡ true = ground arith in rw there refl

-- For five types of frames the function that skips the frame fails on the same bytes as the one that reads
-- it, and leaves the same bytes.
pub skip-parse :
    (bytes : List ℕ)
    → (left_of (parse_new_connection_id_frame bytes) ≡ skip_new_connection_id_frame (0x18 ∷ bytes))
      × (left_of (parse_crypto_hs_frame bytes) ≡ skip_crypto_hs_frame bytes)
      × (left_of (parse_ack_frequency_frame bytes) ≡ skip_ack_frequency_frame bytes)
      × (left_of (parse_time_stamp_frame bytes) ≡ skip_time_stamp_frame bytes)
      × (left_of (parse_path_abandon_frame bytes) ≡ skip_path_abandon_frame bytes)
unfolding parse_time_stamp_frame skip_time_stamp_frame
skip-parse bytes = (
  new_connection_id-left 0x18 bytes (one_byte_type bytes),
  crypto_hs-left bytes,
  ack_frequency-left bytes,
  sym (varint_skip-left bytes),
  path_abandon-left bytes,
)
