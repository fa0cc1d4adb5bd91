-- ===== src/AckFrames/Invariant.antt =====
-- The invariant of the sack lists over whole ACK frames (picoquic/frames.c,
-- `picoquic_process_ack_of_ack_frame`), on any bytes.
use fair_queuing_aware_conge.Common.{
  ℕ, zero, suc, ◌-◌, ◌/◌, ◌<◌, ◌≤◌, ◌^◌, ◌≡◌, sym, inl, inr, Bool, true, false, List, [], ◌∷◌,
  Option, none, some, All, length, drop, ltb, leb, ◌==◌, add64, sub64, arith, Bool-cases, leb→le,
}
use mathlib.Core.Path.{subst}
use fair_queuing_aware_conge.Intformat.{IsByte, varint_decode, decode_varint_length}
use fair_queuing_aware_conge.Intformat.Prefix.{varint_decode-big_endian, varint_decode_short}
use fair_queuing_aware_conge.Frames.{◌>>=◌}
use fair_queuing_aware_conge.Frames.Varint.{value_behind}
use fair_queuing_aware_conge.Sacks.{SackList, Splay}
use fair_queuing_aware_conge.Sacks.Reached.{Reached, acked}
use fair_queuing_aware_conge.AckFrames.Read.{
  AckHeader, Processed, read_varint, read_path, header_fields, parse_ack_header, process_acked,
  range_read, process_range, gap_read, process_gap, process_body, process_behind,
  process_ack_of_ack_frame, read_ecn, skip_counters, then_counters, failed_at,
}

-- What is read of bytes is below 2 ^ 62, and bytes are left.
data IsRead : Option (ℕ × List ℕ) → Type 0 where
  nothing : IsRead none
  a_value : (v : ℕ) (rest : List ℕ) → v < 2 ^ 62 → All IsByte rest → IsRead (some (v, rest))

All-drop : (n : ℕ) (bytes : List ℕ) → All IsByte bytes → All IsByte (drop n bytes)
All-drop zero bytes h = h
All-drop (suc n) [] h = tt
All-drop (suc n) (b ∷ bytes) (hb, h) = All-drop n bytes h

value_behind-IsRead :
    (len v : ℕ) (bytes : List ℕ)
    → v < 2 ^ 62
    → All IsByte bytes
    → IsRead (value_behind (len, v) bytes)
value_behind-IsRead len v bytes small h = elim (Bool-cases (len == 0)) [
  | inl none_read ↦ rw none_read nothing
  | inr some_read ↦ rw some_read (a_value v (drop len bytes) small (All-drop len bytes h))
]

read_varint-IsRead : (bytes : List ℕ) → All IsByte bytes → IsRead (read_varint bytes)
unfolding read_varint varint_decode
read_varint-IsRead [] h = nothing
read_varint-IsRead (b ∷ bs) h = elim (Bool-cases (leb (2 ^ (b / 64)) (length (b ∷ bs)))) [
  | inl there ↦
      let (value, small) = varint_decode-big_endian b bs h (leb→le _ _ there) in
      subst (λ r. IsRead (value_behind r (b ∷ bs))) (sym value)
        (value_behind-IsRead (2 ^ (b / 64)) _ (b ∷ bs) small h)
  | inr short ↦
      subst (λ r. IsRead (value_behind r (b ∷ bs)))
        (sym (varint_decode_short b bs (h.0) (ground (arith, short)))) nothing
]

-- The header: the largest number is below 2 ^ 62, and bytes are left.
data IsHeader : Option (AckHeader × List ℕ) → Type 0 where
  no_header : IsHeader none
  a_header :
      (header : AckHeader) (rest : List ℕ)
      → header.largest < 2 ^ 62
      → All IsByte rest
      → IsHeader (some (header, rest))

-- One field after the other.
then-IsHeader :
    {r : Option (ℕ × List ℕ)} {f : ℕ × List ℕ → Option (AckHeader × List ℕ)}
    → IsRead r
    → ((read : ℕ × List ℕ) → read.0 < 2 ^ 62 → All IsByte (read.1) → IsHeader (f read))
    → IsHeader (r >>= f)
then-IsHeader nothing g = no_header
then-IsHeader (a_value v rest small h) g = g (v, rest) small h

header_fields-IsHeader :
    (exponent : ℕ) (bytes : List ℕ)
    → All IsByte bytes
    → IsHeader (header_fields false exponent bytes)
unfolding header_fields read_path
header_fields-IsHeader exponent bytes h =
    then-IsHeader (read_varint-IsRead bytes h) (λ (largest, bytes) small h.
      then-IsHeader (read_varint-IsRead bytes h) (λ (delay, bytes) _ h.
        then-IsHeader (read_varint-IsRead bytes h)
          (λ (num_block, bytes) _ h. a_header _ bytes small h)))

parse_ack_header-IsHeader :
    (bytes : List ℕ) → All IsByte bytes → IsHeader (parse_ack_header false 0 bytes)
unfolding parse_ack_header
parse_ack_header-IsHeader [] h = no_header
parse_ack_header-IsHeader (b ∷ bs) h =
    header_fields-IsHeader 0 (drop (decode_varint_length b) (b ∷ bs))
      (All-drop (decode_varint_length b) (b ∷ bs) h)

module _ (t : Splay) where
  counters-Reached :
      (go_on : List ℕ → Processed) (s : SackList) (o : Option (ℕ × List ℕ))
      → ((rest : List ℕ) → Reached t (go_on rest).list)
      → Reached t s
      → Reached t (then_counters go_on s o).list
  unfolding then_counters failed_at
  counters-Reached go_on s none f r = r
  counters-Reached go_on s (some (ecn, rest)) f r = f rest

  skip_counters-Reached :
      (k : ℕ) (s : SackList) (bytes : List ℕ)
      → Reached t s
      → Reached t (skip_counters k s bytes).list
  unfolding skip_counters
  skip_counters-Reached zero s bytes r = r
  skip_counters-Reached (suc k) s bytes r =
      counters-Reached (skip_counters k s) s (read_varint bytes)
        (λ rest. skip_counters-Reached k s rest r) r

  read_ecn-Reached :
      (is_ecn : Bool) (s : SackList) (bytes : List ℕ)
      → Reached t s
      → Reached t (read_ecn is_ecn s bytes).list
  unfolding read_ecn
  read_ecn-Reached false s bytes r = r
  read_ecn-Reached true s bytes r = skip_counters-Reached 3 s bytes r

  range_read-Reached :
      (s : SackList) (largest : ℕ) (go_on : SackList → ℕ → List ℕ → Processed)
      (o : Option (ℕ × List ℕ))
      → Reached t s
      → largest < 2 ^ 62
      → IsRead o
      → ((s : SackList) (range : ℕ) (bytes : List ℕ)
          → Reached t s
          → All IsByte bytes
          → Reached t (go_on s range bytes).list)
      → Reached t (range_read t s largest go_on o).list
  unfolding range_read process_acked failed_at
  range_read-Reached s largest go_on none r small nothing f = r
  range_read-Reached s largest go_on (some _) r small (a_value v rest hv h) f =
      elim (Bool-cases (ltb (add64 largest 1) (add64 v 1))) [
        | inl bad ↦ rw bad r
        | inr good ↦
            let some_range : ltb 0 (add64 v 1) ≡ true = ground arith in
            let le : v ≤ largest = ground (arith, good, small, hv) in
            let lo : sub64 (add64 largest 1) (add64 v 1) ≡ largest - v = omega (arith, le) in
            rw (good, some_range, lo)
              (f _ (add64 v 1) rest (acked s (largest - v) largest r (omega arith) small) h)
      ]

  gap_read-Reached :
      (s : SackList) (largest range : ℕ) (go_on : SackList → ℕ → List ℕ → Processed)
      (o : Option (ℕ × List ℕ))
      → Reached t s
      → largest < 2 ^ 62
      → IsRead o
      → ((s : SackList) (largest : ℕ) (bytes : List ℕ)
          → Reached t s
          → largest < 2 ^ 62
          → All IsByte bytes
          → Reached t (go_on s largest bytes).list)
      → Reached t (gap_read s largest range go_on o).list
  unfolding gap_read failed_at
  gap_read-Reached s largest range go_on none r small nothing f = r
  gap_read-Reached s largest range go_on (some _) r small (a_value v rest hv h) f =
      elim (Bool-cases (ltb largest (add64 (add64 v 1) range))) [
        | inl bad ↦ rw bad r
        | inr good ↦ rw good (f s _ rest r (omega (arith, small)) h)
      ]

  process_body-Reached :
      (is_ecn : Bool) (num_block : ℕ) (s : SackList) (largest : ℕ) (bytes : List ℕ)
      → Reached t s
      → largest < 2 ^ 62
      → All IsByte bytes
      → Reached t (process_body t is_ecn num_block s largest bytes).list
  unfolding process_body process_range process_gap
  process_body-Reached is_ecn zero s largest bytes r small h =
      range_read-Reached s largest (λ s range bytes. read_ecn is_ecn s bytes) (read_varint bytes) r
        small (read_varint-IsRead bytes h) (λ s range bytes r h. read_ecn-Reached is_ecn s bytes r)
  process_body-Reached is_ecn (suc num_block) s largest bytes r small h =
      range_read-Reached s largest _ (read_varint bytes) r small (read_varint-IsRead bytes h)
        (λ s range bytes r h.
          gap_read-Reached s largest range _ (read_varint bytes) r small
            (read_varint-IsRead bytes h)
            (λ s largest bytes r small h.
              process_body-Reached is_ecn num_block s largest bytes r small h))

  behind-Reached :
      (is_ecn : Bool) (s : SackList) (o : Option (AckHeader × List ℕ))
      → Reached t s
      → IsHeader o
      → Reached t (process_behind t is_ecn s o).list
  unfolding process_behind failed_at
  behind-Reached is_ecn s none r no_header = r
  behind-Reached is_ecn s (some _) r (a_header header rest small h) =
      process_body-Reached is_ecn header.num_block s header.largest rest r small h

  -- Whatever bytes are taken for an acknowledged ACK frame, the list that they leave is one that the
  -- operations of sacks.c reach.
  pub process_ack_of_ack_frame-Reached :
      (is_ecn : Bool) (s : SackList) (bytes : List ℕ)
      → Reached t s
      → All IsByte bytes
      → Reached t (process_ack_of_ack_frame t is_ecn s bytes).list
  unfolding process_ack_of_ack_frame
  process_ack_of_ack_frame-Reached is_ecn s bytes r h =
      behind-Reached is_ecn s (parse_ack_header false 0 bytes) r (parse_ack_header-IsHeader bytes h)
