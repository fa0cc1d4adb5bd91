-- ===== src/AckFrames/Skipped.antt =====
-- Passing over an ACK frame that was written (picoquic/frames.c,
-- `picoquic_skip_ack_frame_maybe_ecn`).
use fair_queuing_aware_conge.Common.{
  ℕ, ◌-◌, ◌<◌, ◌≤◌, ◌^◌, ◌≡◌, refl, ◌∙◌, ap, Bool, false, List, [], ◌∷◌, ◌++◌, some, length,
  append_assoc, sub64, u64_max, if◌then◌else◌, arith,
}
use mathlib.Core.Path.{subst}
use fair_queuing_aware_conge.Frames.{frames_varint_encode, frames_varint_skip, put, ◌then_put◌}
use fair_queuing_aware_conge.Frames.Skip.{
  skip_two, skip_three, skip_blocks, skip_ack_frame_maybe_ecn,
}
use fair_queuing_aware_conge.Frames.RoundTrip.{parts, varint-SkipsOver}
use fair_queuing_aware_conge.Frames.Varint.{frames_varint_decode-frames_varint_encode}
use fair_queuing_aware_conge.Sacks.{SackItem, SackList, Splay}
use fair_queuing_aware_conge.Sacks.Ranges.{IsFrom}
use mathlib.Core.List.{reverse_aux}
use fair_queuing_aware_conge.Sacks.Acks.{AckContext}
use fair_queuing_aware_conge.AckFrames.{ack_type_byte, ack_block, ack_header}
use fair_queuing_aware_conge.AckFrames.Format.{AckFrame, ack_body, ecn_counters}
use fair_queuing_aware_conge.AckFrames.Blocks.{IsDown, IsBlocks, no_block, a_block}
use fair_queuing_aware_conge.AckFrames.RoundTrip.{small_byte, type-small, IsFrom-IsDown}
use fair_queuing_aware_conge.AckFrames.Acknowledges.{IsCounting, Plain}

skips :
    (n room : ℕ) (out rest : List ℕ)
    → n < 2 ^ 62
    → frames_varint_encode n room ≡ some out
    → frames_varint_skip (out ++ rest) ≡ some rest
skips n room out rest h e = (varint-SkipsOver n h).over room out rest e

skip_two-written :
    (n k room room' : ℕ) (out out' rest : List ℕ)
    → n < 2 ^ 62
    → k < 2 ^ 62
    → frames_varint_encode n room ≡ some out
    → frames_varint_encode k room' ≡ some out'
    → skip_two (out ++ (out' ++ rest)) ≡ some rest
unfolding skip_two
skip_two-written n k room room' out out' rest hn hk h h' =
    rw (skips n room out (out' ++ rest) hn h, skips k room' out' rest hk h') refl

skip_blocks-IsBlocks :
    (lowest : ℕ) (picked : List SackItem) (out rest : List ℕ)
    → lowest < 2 ^ 62
    → IsDown lowest picked
    → IsBlocks lowest picked out
    → skip_blocks (length picked) (out ++ rest) ≡ some rest
unfolding skip_blocks ack_block
skip_blocks-IsBlocks lowest [] out rest small down (no_block _) = refl
skip_blocks-IsBlocks lowest (y ∷ ys) _ rest small (apart, le, down)
      (a_block _ room _ _ block later h blocks) =
    let gap_of = sub64 (sub64 lowest y.end_of_sack_range) 2 in
    let range_of = sub64 y.end_of_sack_range y.start_of_sack_range in
    let (gap, (range, (h1, h2, whole))) =
      parts (frames_varint_encode gap_of) (frames_varint_encode range_of) room block h in
    let regroup : (block ++ later) ++ rest ≡ gap ++ (range ++ (later ++ rest)) =
      ap (λ b. (b ++ later) ++ rest) whole
      ∙ ap (λ b. b ++ rest) (append_assoc gap range later)
      ∙ append_assoc gap (range ++ later) rest
      ∙ ap (λ b. gap ++ b) (append_assoc range later rest) in
    rw
      (
        regroup,
        skip_two-written gap_of range_of room (room - length gap) gap range (later ++ rest)
            (omega (arith, apart, small)) (omega (arith, apart, le, small)) h1 h2,
      )
      (skip_blocks-IsBlocks y.start_of_sack_range ys later rest (omega (arith, apart, le, small))
        down blocks)

-- The three counters.
pub skip_three-written :
    (c : AckContext) (room : ℕ) (counters rest : List ℕ)
    → IsCounting c
    → ecn_counters c room ≡ some counters
    → skip_three (counters ++ rest) ≡ some rest
unfolding skip_three ecn_counters
skip_three-written c room counters rest (h0, h1, h2) h =
    let first = frames_varint_encode c.ecn_ect0_total_local in
    let second = frames_varint_encode c.ecn_ect1_total_local in
    let third = frames_varint_encode c.ecn_ce_total_local in
    let (front, (ce, (e, e2, w))) = parts (first then_put second) third room counters h in
    let (ect0, (ect1, (e0, e1, w'))) = parts first second room front e in
    let regroup : counters ++ rest ≡ ect0 ++ (ect1 ++ (ce ++ rest)) =
      ap (λ o. o ++ rest) w
      ∙ append_assoc front ce rest
      ∙ ap (λ o. o ++ (ce ++ rest)) w'
      ∙ append_assoc ect0 ect1 (ce ++ rest) in
    rw (regroup, skip_two-written _ _ _ _ ect0 ect1 (ce ++ rest) h0 h1 e0 e1)
      (skips _ _ ce rest h2 e2)

-- A header is passed over up to the number of blocks.
pub skip_ack-written :
    (largest delay room left num lowest : ℕ) (is_ecn with_counters : Bool) (range : ℕ)
    (header first out rest : List ℕ) (picked : List SackItem)
    → ack_header u64_max is_ecn largest delay room ≡ some header
    → frames_varint_encode range left ≡ some first
    → IsBlocks lowest picked out
    → IsDown lowest picked
    → lowest < 2 ^ 62
    → range < 2 ^ 62
    → largest < 2 ^ 62
    → delay < 2 ^ 62
    → num ≡ length picked
    → num ≤ 32
    → skip_ack_frame_maybe_ecn with_counters false ((header ++ (num ∷ (first ++ out))) ++ rest)
      ≡ (if with_counters then skip_three rest else some rest)
unfolding skip_ack_frame_maybe_ecn ack_header put
skip_ack-written largest delay room left num lowest is_ecn e range header first out rest picked h hf
      blocks down hl hr hh hd count few =
    let type_of = frames_varint_encode (ack_type_byte u64_max is_ecn) in
    let high_of = frames_varint_encode largest in
    let delay_of = frames_varint_encode delay in
    let (front, (delayed, (h1, ed, w1))) =
      parts (type_of then_put put [] then_put high_of) delay_of room header h in
    let (begin, (high, (h2, el, w2))) = parts (type_of then_put put []) high_of room front h1 in
    let (type, (path, (et, ep, w3))) = parts type_of (put []) room begin h2 in
    let no_path : path ≡ [] = ground (arith, ep) in
    let tail = num ∷ (first ++ (out ++ rest)) in
    let regroup : (header ++ (num ∷ (first ++ out))) ++ rest ≡ type ++ (high ++ (delayed ++ tail)) =
      append_assoc header (num ∷ (first ++ out)) rest
      ∙ ap (λ o. header ++ (num ∷ o)) (append_assoc first out rest)
      ∙ ap (λ o. o ++ tail) w1
      ∙ append_assoc front delayed tail
      ∙ ap (λ o. o ++ (delayed ++ tail)) w2
      ∙ append_assoc begin high (delayed ++ tail)
      ∙ ap (λ o. o ++ (high ++ (delayed ++ tail))) w3
      ∙ append_assoc type path (high ++ (delayed ++ tail))
      ∙ ap (λ o. type ++ (o ++ (high ++ (delayed ++ tail)))) no_path in
    let num_read =
      frames_varint_decode-frames_varint_encode num 1 (num ∷ []) (first ++ (out ++ rest))
        (omega (arith, few)) (small_byte num (omega (arith, few))) in
    rw
      (
        regroup,
        skip_two-written _ _ _ _ type high (delayed ++ tail) (type-small u64_max is_ecn) hh et el,
        skips _ _ delayed tail hd ed,
        num_read,
        skips _ _ first (out ++ rest) hr hf,
        count,
        skip_blocks-IsBlocks lowest picked out rest hl down blocks,
      )
      refl

-- The same of a frame that is known up to the counters.
module _ (t : Splay) where
  pub Plain-skip :
      (c : AckContext) (s : SackList) (last_sack : SackItem) (previous : List SackItem)
      (is_ecn other with_counters : Bool) (delay : ℕ) (f : AckFrame) (header rest : List ℕ)
      → IsFrom 0 s.items
      → s.items ≡ reverse_aux previous (last_sack ∷ [])
      → delay < 2 ^ 62
      → (p : Plain t c s last_sack previous is_ecn delay f)
      → ack_header u64_max other last_sack.end_of_sack_range delay (p.room) ≡ some header
      → skip_ack_frame_maybe_ecn with_counters false
          (ack_body header (p.range_first) (p.blocks) ++ rest)
        ≡ (if with_counters then skip_three rest else some rest)
  unfolding ack_body
  Plain-skip c s last previous is_ecn other e delay f header rest from whole hd p h =
      let (down, le, small) = IsFrom-IsDown 0 previous last [] (subst (IsFrom 0) whole from) in
      let w = p.chosen in
      skip_ack-written last.end_of_sack_range delay (p.room) (p.left) ((p.blocks).num_block)
        last.start_of_sack_range other e (sub64 last.end_of_sack_range last.start_of_sack_range)
        header (p.range_first) ((p.blocks).written) rest (w.picked) h (p.range_lem) (w.blocks)
        (w.down) (omega (arith, le, small)) (omega (arith, le, small)) small hd (w.count)
        (omega (arith, w.few))
