-- ===== src/Bytestream/RoundTrip.antt =====
-- What is written to a stream of picoquic/bytestream.c is read back after a reset.
use fair_queuing_aware_conge.Common.{
  ℕ, ◌+◌, ◌%◌, ◌^◌, ◌≤◌, ◌<◌, ◌≡◌, refl, ap, ◌∙◌, true, false, List, [], ◌∷◌, ◌++◌, arith, length,
  length-append, append_assoc, length-drop, take, drop, ltb, leb, ◌==◌, le→leb, IsU64,
}
use fair_queuing_aware_conge.Intformat.{encode_varint_length, varint_encode}
use fair_queuing_aware_conge.Intformat.Varint.{length-varint_encode, varint_decode-varint_encode}
use fair_queuing_aware_conge.Bytestream.{
  Bytestream, bytestream_reset, advance, store, bytewrite_vint, byteread_vint, bytewrite_buffer,
  byteread_buffer, bytewrite_cstr, byteread_cstr,
}

-- The list has as many elements as are taken, and more behind them.
pub take-append : (xs ys : List ℕ) → take (length xs) (xs ++ ys) ≡ xs
take-append [] ys = refl
take-append (x ∷ xs) ys = ap (λ zs. x ∷ zs) (take-append xs ys)

pub drop-append : (xs ys : List ℕ) → drop (length xs) (xs ++ ys) ≡ ys
drop-append [] ys = refl
drop-append (x ∷ xs) ys = drop-append xs ys

-- A stream with `bytes` in front of what is left.
abbrev pub ahead : List ℕ → List ℕ → List ℕ → Bytestream
ahead front bytes rest = record { front = front; rest = bytes ++ rest }

-- The stream behind `bytes`.
abbrev pub behind : List ℕ → List ℕ → List ℕ → Bytestream
behind front bytes rest = record { front = front ++ bytes; rest = rest }

pub advance_over :
    (front bytes rest : List ℕ)
    → advance (ahead front bytes rest) (length bytes) ≡ behind front bytes rest
unfolding advance
advance_over front bytes rest = rw (take-append bytes rest, drop-append bytes rest) refl

pub vint_positive : (n : ℕ) → 1 ≤ encode_varint_length n
unfolding encode_varint_length
vint_positive n = ground arith

-- A value that was written with room for it, as an integer of variable length, is read modulo 2 ^ 62
-- by whoever reads at the place where it was written.
pub read_vint :
    (front rest : List ℕ) (room n old : ℕ)
    → IsU64 n
    → encode_varint_length n ≤ room
    → byteread_vint (ahead front (varint_encode room n) rest) old
      ≡ (behind front (varint_encode room n) rest, true, n % 2 ^ 62)
unfolding byteread_vint
read_vint front rest room n old h fits =
    let len : length (varint_encode room n) ≡ encode_varint_length n =
      length-varint_encode room n ∙ rw (le→leb _ _ fits) refl in
    let one : 1 ≤ encode_varint_length n = vint_positive n in
    let some_bytes : ltb (length (varint_encode room n ++ rest)) 1 ≡ false =
      ground (arith, length-append (varint_encode room n) rest) in
    let read = varint_decode-varint_encode room n rest h fits in
    let positive : (encode_varint_length n == 0) ≡ false = ground arith in
    rw (some_bytes, read, positive, ← len, advance_over front (varint_encode room n) rest) refl

pub read_buffer :
    (front bytes rest old : List ℕ)
    → byteread_buffer (ahead front bytes rest) old (length bytes)
      ≡ (behind front bytes rest, true, bytes)
unfolding byteread_buffer
read_buffer front bytes rest old =
    let enough : ltb (length (bytes ++ rest)) (length bytes) ≡ false =
      ground (arith, length-append bytes rest) in
    rw (enough, advance_over front bytes rest, take-append bytes rest) refl

pub write_vint :
    (s : Bytestream) (n : ℕ)
    → encode_varint_length n ≤ length s.rest
    → bytewrite_vint s n ≡ (store s (varint_encode (length s.rest) n), true)
unfolding bytewrite_vint
write_vint s n fits =
    let len : length (varint_encode (length s.rest) n) ≡ encode_varint_length n =
      length-varint_encode (length s.rest) n ∙ rw (le→leb _ _ fits) refl in
    let one : 1 ≤ encode_varint_length n = vint_positive n in
    let some_bytes : (length (varint_encode (length s.rest) n) == 0) ≡ false = ground arith in
    rw some_bytes refl

pub write_buffer :
    (s : Bytestream) (bytes : List ℕ)
    → length bytes ≤ length s.rest
    → bytewrite_buffer s bytes ≡ (store s bytes, true)
unfolding bytewrite_buffer
write_buffer s bytes fits =
    let enough : ltb (length s.rest) (length bytes) ≡ false = ground arith in rw enough refl

-- A string that is written at the start of a stream with room for its length and its bytes is read
-- back after a reset, into a buffer with room for it and for the final 0.
pub byteread_cstr-bytewrite_cstr :
    (room cstr old : List ℕ) (max_len : ℕ)
    → length cstr < 2 ^ 62
    → length cstr < max_len
    → encode_varint_length (length cstr) + length cstr ≤ length room
    → let s : Bytestream = record { front = []; rest = room } in
      let written = bytewrite_cstr s cstr in
      let read = byteread_cstr (bytestream_reset written.0) old max_len in
      (written.1 ≡ true) × (read.1 ≡ true) × (read.2 ≡ cstr)
unfolding bytewrite_cstr byteread_cstr bytestream_reset store
byteread_cstr-bytewrite_cstr room cstr old max_len small buffer fits =
    let s : Bytestream = record { front = []; rest = room } in
    let bytes = varint_encode (length room) (length cstr) in
    let len : length bytes ≡ encode_varint_length (length cstr) =
      length-varint_encode (length room) (length cstr)
      ∙ rw (le→leb (encode_varint_length (length cstr)) (length room) (omega arith)) refl in
    let left : length cstr ≤ length (drop (length bytes) room) =
      omega (arith, length-drop (length bytes) room) in
    let exact : length cstr % 4611686018427387904 ≡ length cstr = omega arith in
    let room_left : leb (length cstr + 1) max_len ≡ true = ground arith in
    rw
      (
        write_vint s (length cstr) (omega arith),
        write_buffer (store s bytes) cstr left,
        append_assoc bytes cstr (drop (length cstr) (drop (length bytes) room)),
        read_vint [] (cstr ++ drop (length cstr) (drop (length bytes) room)) (length room)
            (length cstr) 0 (omega arith) (omega arith),
        exact,
        room_left,
        read_buffer bytes cstr (drop (length cstr) (drop (length bytes) room)) old,
      )
      (refl, refl, refl)
