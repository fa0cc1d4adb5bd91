-- ===== src/Bytestream/Values.antt =====
-- Integers of 64 bits and connection identifiers are read back from a stream of
-- picoquic/bytestream.c after a reset.
use fair_queuing_aware_conge.Common.{
  ℕ, zero, suc, ◌-◌, ◌+◌, ◌*◌, ◌≤◌, ◌≡◌, refl, ap, sym, ◌∙◌, Bool, true, false, ◌&&◌, List, [], ◌∷◌,
  ◌++◌, arith, length, length-append, append_nil, append_assoc, length-drop, length-take_le, take,
  drop, ltb, IsU64, All,
}
use mathlib.Core.Path.{subst}
use fair_queuing_aware_conge.Intformat.{decode_loop, format_64}
use fair_queuing_aware_conge.Bytestream.{
  Bytestream, bytestream_reset, advance, store, bytewrite_int64, byteread_int64, byteread_buffer,
  bytewrite_int8, byteread_int8, ConnectionId, connection_id_max_size, zeros, bytewrite_cid,
  byteread_cid,
}
use fair_queuing_aware_conge.Bytestream.RoundTrip.{
  take-append, ahead, behind, advance_over, read_buffer, write_buffer,
}

decode-format_64 : (n : ℕ) (rest : List ℕ) → IsU64 n → decode_loop 8 (format_64 n ++ rest) 0 ≡ n
unfolding decode_loop format_64
decode-format_64 n rest h = omega arith

-- A sequence of 64-bit integers is written, and so many are read.
unfoldable pub write_all : Bytestream → List ℕ → Bytestream × Bool
write_all s [] = (s, true)
write_all s (n ∷ ns) =
    let (t, written) = bytewrite_int64 s n in let (u, more) = write_all t ns in (u, written && more)

unfoldable pub read_all : Bytestream → ℕ → Bytestream × Bool × List ℕ
read_all s zero = (s, true, [])
read_all s (suc k) =
    let (t, read, n) = byteread_int64 s 0 in
    let (u, more, ns) = read_all t k in (u, read && more, n ∷ ns)

-- The bytes of the integers.
abbrev all_bytes : List ℕ → List ℕ
all_bytes [] = []
all_bytes (n ∷ ns) = format_64 n ++ all_bytes ns

write_int64 :
    (s : Bytestream) (n : ℕ)
    → 8 ≤ length s.rest
    → bytewrite_int64 s n ≡ (store s (format_64 n), true)
unfolding bytewrite_int64
write_int64 s n fits = let enough : ltb (length s.rest) 8 ≡ false = ground arith in rw enough refl

write_all-bytes :
    (ns : List ℕ) (s : Bytestream)
    → 8 * length ns ≤ length s.rest
    → ((write_all s ns).0.front ≡ s.front ++ all_bytes ns) × ((write_all s ns).1 ≡ true)
unfolding write_all store format_64
write_all-bytes [] s fits = (sym (append_nil s.front), refl)
write_all-bytes (n ∷ ns) s fits =
    let (front, done) =
      write_all-bytes ns (store s (format_64 n)) (omega (arith, length-drop 8 s.rest)) in
    rw (write_int64 s n (omega arith))
      (front ∙ append_assoc s.front (format_64 n) (all_bytes ns), done)

read_int64 :
    (front rest : List ℕ) (n old : ℕ)
    → IsU64 n
    → byteread_int64 (ahead front (format_64 n) rest) old
      ≡ (behind front (format_64 n) rest, true, n)
unfolding byteread_int64
read_int64 front rest n old h =
    let len : length (format_64 n) ≡ 8 = unfold format_64 in refl in
    let enough : ltb (length (format_64 n ++ rest)) 8 ≡ false =
      ground (arith, length-append (format_64 n) rest) in
    rw (enough, decode-format_64 n rest h, ← len, advance_over front (format_64 n) rest) refl

read_all-bytes :
    (ns front rest : List ℕ)
    → All IsU64 ns
    → ((read_all (ahead front (all_bytes ns) rest) (length ns)).1 ≡ true)
      × ((read_all (ahead front (all_bytes ns) rest) (length ns)).2 ≡ ns)
unfolding read_all
read_all-bytes [] front rest h = (refl, refl)
read_all-bytes (n ∷ ns) front rest (h, hs) =
    let (done, values) = read_all-bytes ns (front ++ format_64 n) rest hs in
    rw
      (
        append_assoc (format_64 n) (all_bytes ns) rest,
        read_int64 front (all_bytes ns ++ rest) n 0 h,
      )
      (done, ap (λ (ms : List ℕ). n ∷ ms) values)

-- A sequence of 64-bit integers that is written from the start of a stream with room for it is read
-- back, integer by integer, after a reset, and no step fails.
pub read_all-write_all :
    (ns room : List ℕ)
    → All IsU64 ns
    → 8 * length ns ≤ length room
    → let written = write_all (record { front = []; rest = room }) ns in
      let read = read_all (bytestream_reset written.0) (length ns) in
      (written.1 ≡ true) × (read.1 ≡ true) × (read.2 ≡ ns)
unfolding bytestream_reset
read_all-write_all ns room h fits =
    let (front, done) = write_all-bytes ns (record { front = []; rest = room }) fits in
    let (read, values) =
      read_all-bytes ns [] (write_all (record { front = []; rest = room }) ns).0.rest h in
    (done, rw front read, rw front values)

write_int8 :
    (s : Bytestream) (n : ℕ) → 1 ≤ length s.rest → bytewrite_int8 s n ≡ (store s (n ∷ []), true)
unfolding bytewrite_int8
write_int8 s n fits = let enough : ltb (length s.rest) 1 ≡ false = ground arith in rw enough refl

read_int8 :
    (front rest : List ℕ) (n old : ℕ)
    → byteread_int8 (ahead front (n ∷ []) rest) old ≡ (behind front (n ∷ []) rest, true, n)
unfolding byteread_int8 advance
read_int8 front rest n old =
    let enough : ltb (length (n ∷ rest)) 1 ≡ false = ground arith in rw enough refl

-- A connection identifier whose length is in range is read back after a reset, in its length and in
-- the bytes that the length counts.
pub byteread_cid-bytewrite_cid :
    (room : List ℕ) (cid old : ConnectionId)
    → cid.id_len ≤ connection_id_max_size
    → length cid.id ≡ connection_id_max_size
    → 1 + cid.id_len ≤ length room
    → let s : Bytestream = record { front = []; rest = room } in
      let written = bytewrite_cid s cid in
      let read = byteread_cid (bytestream_reset written.0) old in
      (written.1 ≡ true)
      × (read.1 ≡ true)
      × (read.2.id_len ≡ cid.id_len)
      × (take cid.id_len read.2.id ≡ take cid.id_len cid.id)
unfolding bytewrite_cid byteread_cid bytestream_reset store
byteread_cid-bytewrite_cid room cid old small full fits =
    let s : Bytestream = record { front = []; rest = room } in
    let bytes = take cid.id_len cid.id in
    let len : length bytes ≡ cid.id_len = length-take_le cid.id_len cid.id (omega arith) in
    let left : length bytes ≤ length (drop 1 room) = omega (arith, length-drop 1 room) in
    let in_range : ltb connection_id_max_size cid.id_len ≡ false = ground arith in
    let rest = drop (length bytes) (drop 1 room) in
    let copied : byteread_buffer (ahead (cid.id_len ∷ []) bytes rest) [] cid.id_len
        ≡ (behind (cid.id_len ∷ []) bytes rest, true, bytes) =
      subst
        (λ (k : ℕ).
          byteread_buffer (ahead (cid.id_len ∷ []) bytes rest) [] k
          ≡ (behind (cid.id_len ∷ []) bytes rest, true, bytes))
        len (read_buffer (cid.id_len ∷ []) bytes rest []) in
    let prefix_of : take cid.id_len (bytes ++ zeros (connection_id_max_size - length bytes))
        ≡ bytes =
      subst (λ (k : ℕ). take k (bytes ++ zeros (connection_id_max_size - length bytes)) ≡ bytes) len
        (take-append bytes _) in
    rw
      (
        write_int8 s cid.id_len (omega arith),
        write_buffer (store s (cid.id_len ∷ [])) bytes left,
        read_int8 [] (bytes ++ rest) cid.id_len old.id_len,
        in_range,
        copied,
      )
      (refl, refl, refl, prefix_of)
