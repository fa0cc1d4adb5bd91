-- ===== src/AckFrames/Fits.antt =====
-- The room that an ACK frame takes at most up to its first range (picoquic/frames.c,
-- `picoquic_format_ack_frame_in_context`): with so much room there is a frame.
use fair_queuing_aware_conge.Common.{
  ℕ, ◌+◌, ◌-◌, ◌<◌, ◌≤◌, ◌≡◌, refl, inl, inr, Bool, List, [], ◌∷◌, ◌++◌, Option, none, some, length,
  length-append, if◌then◌else◌, ltb, ◌&&◌, sub64, u64_max, arith, Bool-cases, Option-cases,
}
use fair_queuing_aware_conge.Frames.{frames_varint_encode, put, ◌then_put◌}
use fair_queuing_aware_conge.Sacks.{SackItem, SackList}
use fair_queuing_aware_conge.Sacks.Acks.{AckContext}
use fair_queuing_aware_conge.AckFrames.{ack_type_byte, ack_header}
use fair_queuing_aware_conge.AckFrames.Format.{
  AckFrame, AckConnection, ack_body, ack_delay_of, with_first_range, ack_ranges_part, add_counters,
  ecn_counters, set_type_ack, with_ecn, clear_needed, ack_frame,
}

-- With `size` bytes of room the encoder writes, and no more than these.
record Takes (size : ℕ) (e : ℕ → Option (List ℕ)) : Type 0 where
  takes : (room : ℕ) → size ≤ room → (out : List ℕ) × ((e room ≡ some out) × (length out ≤ size))

then_put-Takes :
    {size size' : ℕ} {e f : ℕ → Option (List ℕ)}
    → Takes size e
    → Takes size' f
    → Takes (size + size') (e then_put f)
unfolding ◌then_put◌
then_put-Takes {size = size} {size' = size'} {e = e} {f = f} p q = record {
  takes = λ room le.
      let (first, (h1, k1)) = p.takes room (omega (arith, le)) in
      let (second, (h2, k2)) = q.takes (room - length first) (omega (arith, le, k1)) in
      (first ++ second, (rw (h1, h2) refl, omega (arith, k1, k2, length-append first second)));
}

no_null : (n room : ℕ) → 8 ≤ room → frames_varint_encode n room ≡ none → room < room
unfolding frames_varint_encode
no_null n room le h = ground (arith, h)

at_most_eight :
    (n room : ℕ) (out : List ℕ) → frames_varint_encode n room ≡ some out → length out ≤ 8
unfolding frames_varint_encode
at_most_eight n room out h = ground (arith, h)

varint-Takes : (n : ℕ) → Takes 8 (frames_varint_encode n)
varint-Takes n = record {
  takes = λ room le. elim (Option-cases (frames_varint_encode n room)) [
    | inl nothing ↦ absurd (omega (arith, no_null n room le nothing))
    | inr (out, h) ↦ (out, (h, at_most_eight n room out h))
  ];
}

type-Takes : (n : ℕ) → n < 64 → Takes 1 (frames_varint_encode n)
unfolding frames_varint_encode
type-Takes n h = record { takes = λ room le. (n ∷ [], (ground (arith, h, le), omega arith)) }

no_path-Takes : Takes 0 (put [])
unfolding put
no_path-Takes = record { takes = λ room le. ([], (ground arith, omega arith)) }

header-Takes :
    (is_ecn : Bool) (largest delay : ℕ) → Takes 17 (ack_header u64_max is_ecn largest delay)
unfolding ack_header ack_type_byte
header-Takes is_ecn largest delay =
    then_put-Takes
      (then_put-Takes
        (then_put-Takes (type-Takes (if is_ecn then 0x03 else 0x02) (ground arith)) no_path-Takes)
        (varint-Takes largest))
      (varint-Takes delay)

body-some :
    (opp : Bool) (room now : ℕ) (c : AckContext) (s : SackList) (last : SackItem)
    (previous : List SackItem) (header : List ℕ)
    → length header ≤ 17
    → 26 ≤ room
    → 0 < length (ack_ranges_part opp room now c s last previous (some header)).bytes
unfolding ack_ranges_part with_first_range ack_body
body-some opp room now c s last previous header short le =
    let (first, (h, k)) =
      (varint-Takes (sub64 last.end_of_sack_range last.start_of_sack_range)).takes
        (room - length header - 1) (omega (arith, short, le)) in
    rw h (omega (arith, length-append header _))

length-set_type_ack : (bytes : List ℕ) → length (set_type_ack bytes) ≡ length bytes
unfolding set_type_ack
length-set_type_ack [] = refl
length-set_type_ack (b ∷ bytes) = refl

add_counters-some :
    (f : AckFrame) (counters : Option (List ℕ))
    → 0 < length f.bytes
    → 0 < length (add_counters f counters).bytes
unfolding add_counters
add_counters-some f none h = omega (arith, h, length-set_type_ack f.bytes)
add_counters-some f (some counters) h = omega (arith, h, length-append f.bytes counters)

with_ecn-some : (room : ℕ) (f : AckFrame) → 0 < length f.bytes → 0 < length (with_ecn room f).bytes
unfolding with_ecn
with_ecn-some room f h = elim (Bool-cases (ltb 0 (length f.bytes) && (f.context).sending_ecn_ack)) [
  | inl on ↦ rw on (add_counters-some f (ecn_counters f.context (room - length f.bytes)) h)
  | inr off ↦ rw off h
]

clear_needed-some :
    (opp : Bool) (f : AckFrame) → 0 < length f.bytes → 0 < length (clear_needed opp f).bytes
unfolding clear_needed
clear_needed-some opp f h = elim (Bool-cases (ltb 0 (length f.bytes))) [
  | inl some_bytes ↦ rw some_bytes h
  | inr no_bytes ↦ rw no_bytes h
]

-- With room for 26 bytes there is a frame, if there is a range.
pub ack_frame-some :
    (cnx : AckConnection) (opp : Bool) (room now : ℕ) (c : AckContext) (s : SackList)
    (last : SackItem) (previous : List SackItem)
    → 26 ≤ room
    → 0 < length (ack_frame cnx opp room now u64_max c s (last ∷ previous)).bytes
unfolding ack_frame
ack_frame-some cnx opp room now c s last previous le =
    let delay = ack_delay_of cnx c now in
    let (header, (h, k)) =
      (header-Takes c.sending_ecn_ack last.end_of_sack_range delay).takes room
        (omega (arith, le)) in
    rw h (
      clear_needed-some opp _
        (with_ecn-some room _ (body-some opp room now c s last previous header k le)))
