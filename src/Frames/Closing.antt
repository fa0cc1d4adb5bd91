-- ===== src/Frames/Closing.antt =====
-- The loop of `picoquic_decode_closing_frames` (picoquic/frames.c): it ends, since every frame that is
-- skipped has at least one byte.
use fair_queuing_aware_conge.Common.{
  ℕ, zero, suc, ◌-◌, ◌<◌, ◌≤◌, ◌≡◌, refl, sym, ◌∙◌, ap, ◌⊎◌, inl, inr, Bool, true, false, List, [],
  ◌∷◌, ◌++◌, Option, none, some, length, length-append, length-drop, drop, arith, Bool-cases,
}
use fair_queuing_aware_conge.Frames.Ends.{IsEnd, null, rest_of, EndsWith, EndsWith-trans, drop_end}
use fair_queuing_aware_conge.Frames.Switch.{
  skip_switch, SkipFrame, consumed_of, skip_frame, is_close, Closing, closing, packet_end,
  malformed, decode_closing_frames,
}
use fair_queuing_aware_conge.Frames.Progress.{switch-IsForward}

-- A frame was skipped: at least one byte was, and no more than there are; if it succeeded, then the bytes
-- from there on are what the switch left.
pub record IsSkipped (bytes : List ℕ) (left : Option (List ℕ)) (r : SkipFrame) : Type 0 where
  pub some_byte : 1 ≤ r.consumed
  pub in_bounds : r.consumed ≤ length bytes
  pub position :
      ((r.failed ≡ true) × (left ≡ none))
      ⊎ ((r.failed ≡ false) × (left ≡ some (drop r.consumed bytes)))

pub drop-front : (front rest : List ℕ) → drop (length front) (front ++ rest) ≡ rest
drop-front [] rest = refl
drop-front (x ∷ front) rest = drop-front front rest

left-IsSkipped :
    (first : ℕ) (bytes : List ℕ) (pure_ack : Bool) {left : Option (List ℕ)}
    → IsEnd bytes left
    → IsSkipped (first ∷ bytes) left (consumed_of (suc (length bytes)) (left, pure_ack))
unfolding consumed_of
left-IsSkipped first bytes pure_ack null = record {
  some_byte = omega arith;
  in_bounds = omega arith;
  position = inl (refl, refl);
}
left-IsSkipped first bytes pure_ack (rest_of rest (front, e)) =
    let count : suc (length bytes) - length rest ≡ suc (length front) =
      omega (arith, ap length e, length-append front rest) in
    rw count (record {
      some_byte = omega arith;
      in_bounds = omega (arith, count);
      position = inr (refl, ap some (sym (ap (drop (length front)) e ∙ drop-front front rest)));
    })

-- Skipping a frame takes at least one byte and no more than there are, whatever the bytes are, and what
-- it leaves are the bytes from `*consumed` on.
pub skip_frame-IsSkipped :
    (first : ℕ) (bytes : List ℕ)
    → IsSkipped (first ∷ bytes) (skip_switch first bytes).0 (skip_frame first bytes)
unfolding skip_frame
skip_frame-IsSkipped first bytes =
    left-IsSkipped first bytes (skip_switch first bytes).1 ((switch-IsForward first bytes).ends)

-- How the loop may end: at the end of the packet, at a malformed frame, or at a frame that closes the
-- connection and stands at the end of the bytes.
pub data IsFinal (bytes : List ℕ) : Closing → Type 0 where
  at_end : IsFinal bytes packet_end
  at_fault : IsFinal bytes malformed
  at_close :
      (first : ℕ) (rest : List ℕ)
      → is_close first ≡ true
      → EndsWith bytes (first ∷ rest)
      → IsFinal bytes (closing (first ∷ rest))

IsFinal-trans :
    (bytes rest : List ℕ) {c : Closing} → EndsWith bytes rest → IsFinal rest c → IsFinal bytes c
IsFinal-trans bytes rest e at_end = at_end
IsFinal-trans bytes rest e at_fault = at_fault
IsFinal-trans bytes rest e (at_close first tail closes e') =
    at_close first tail closes (EndsWith-trans bytes rest (first ∷ tail) e e')

-- The loop over the frames of a packet ends with a result, if the fuel is more than the number of bytes;
-- any two such amounts of fuel give the same result.
pub decode_closing_frames-IsFinal :
    (fuel fuel' : ℕ) (bytes : List ℕ)
    → length bytes < fuel
    → length bytes < fuel'
    → IsFinal bytes (decode_closing_frames fuel bytes)
      × (decode_closing_frames fuel' bytes ≡ decode_closing_frames fuel bytes)
unfolding decode_closing_frames
decode_closing_frames-IsFinal zero fuel' bytes h h' = absurd (omega arith)
decode_closing_frames-IsFinal (suc fuel) zero bytes h h' = absurd (omega arith)
decode_closing_frames-IsFinal (suc fuel) (suc fuel') [] h h' = (at_end, refl)
decode_closing_frames-IsFinal (suc fuel) (suc fuel') (first ∷ bytes) h h' =
    let skipped = skip_frame first bytes in
    let s = skip_frame-IsSkipped first bytes in
    let rest = drop skipped.consumed (first ∷ bytes) in
    let shorter : length rest < suc (length bytes) =
      omega (arith, length-drop skipped.consumed (first ∷ bytes), s.some_byte) in
    let (final, same) =
      decode_closing_frames-IsFinal fuel fuel' rest (omega (arith, shorter, h))
        (omega (arith, shorter, h')) in
    elim (Bool-cases (is_close first)) [
      | inl closes ↦ rw closes (at_close first bytes closes ([], refl), refl)
      | inr goes_on ↦ elim (Bool-cases (skipped.failed)) [
        | inl failed ↦ rw (goes_on, failed) (at_fault, refl)
        | inr skips ↦
            rw (goes_on, skips)
              (
                IsFinal-trans (first ∷ bytes) rest (drop_end skipped.consumed (first ∷ bytes))
                    final,
                same,
              )
      ]
    ]
