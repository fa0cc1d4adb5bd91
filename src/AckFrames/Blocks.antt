-- ===== src/AckFrames/Blocks.antt =====
-- The blocks of an ACK frame (picoquic/frames.c): what the loop writes for some of the ranges, the
-- processing of an acknowledged frame reads.
use fair_queuing_aware_conge.Common.{
  ℕ, ◌+◌, ◌-◌, ◌<◌, ◌≤◌, ◌^◌, ◌≡◌, refl, ◌∙◌, ap, Bool, true, false, List, [], ◌∷◌, ◌++◌, some,
  length, append_assoc, add64, sub64, ltb, arith,
}
use fair_queuing_aware_conge.Frames.{frames_varint_encode}
use fair_queuing_aware_conge.Frames.RoundTrip.{parts}
use fair_queuing_aware_conge.Frames.Varint.{value_behind-frames_varint_encode}
use fair_queuing_aware_conge.Sacks.{SackItem, SackList, Splay}
use fair_queuing_aware_conge.Sacks.Acks.{process_ack_of_ack_range}
use fair_queuing_aware_conge.AckFrames.{ack_block}
use fair_queuing_aware_conge.AckFrames.Read.{
  Processed, read_varint, process_acked, process_range, range_read, gap_read, process_gap,
  process_body, read_ecn,
}

-- Ranges from the highest down, none of them empty, all of them with a gap below `lowest`.
abbrev pub IsDown : ℕ → List SackItem → Type 0
IsDown lowest [] = Unit
IsDown lowest (x ∷ xs) =
    (x.end_of_sack_range + 2 ≤ lowest)
    × (x.start_of_sack_range ≤ x.end_of_sack_range)
    × IsDown x.start_of_sack_range xs

-- The bytes are those of the ranges, the first of them written below `lowest`.
pub data IsBlocks : ℕ → List SackItem → List ℕ → Type 0 where
  no_block : (lowest : ℕ) → IsBlocks lowest [] []
  a_block :
      (lowest room : ℕ) (x : SackItem) (xs : List SackItem) (block out : List ℕ)
      → ack_block lowest x room ≡ some block
      → IsBlocks x.start_of_sack_range xs out
      → IsBlocks lowest (x ∷ xs) (block ++ out)

pub read_varint-frames_varint_encode :
    (n room : ℕ) (out rest : List ℕ)
    → n < 2 ^ 62
    → frames_varint_encode n room ≡ some out
    → read_varint (out ++ rest) ≡ some (n, rest)
unfolding read_varint
read_varint-frames_varint_encode = value_behind-frames_varint_encode

module _ (t : Splay) where
  -- The acknowledgements of the ranges, one after the other.
  abbrev pub acked : SackList → List SackItem → SackList
  acked s [] = s
  acked s (x ∷ xs) =
      acked (process_ack_of_ack_range t s x.start_of_sack_range x.end_of_sack_range) xs

  -- A range that was written is read, and acknowledged.
  process_range-written :
      (s : SackList) (x : SackItem) (room : ℕ) (first rest : List ℕ)
      (go_on : SackList → ℕ → List ℕ → Processed)
      → x.start_of_sack_range ≤ x.end_of_sack_range
      → x.end_of_sack_range < 2 ^ 62
      → frames_varint_encode (sub64 x.end_of_sack_range x.start_of_sack_range) room ≡ some first
      → process_range t s x.end_of_sack_range (first ++ rest) go_on
        ≡ go_on
            (process_ack_of_ack_range t s x.start_of_sack_range x.end_of_sack_range)
            (x.end_of_sack_range - x.start_of_sack_range + 1)
            rest
  unfolding process_range range_read process_acked
  process_range-written s x room first rest go_on le small h =
      let lo = x.start_of_sack_range in
      let hi = x.end_of_sack_range in
      let range : add64 (sub64 hi lo) 1 ≡ hi - lo + 1 = omega arith in
      let fits : ltb (add64 hi 1) (hi - lo + 1) ≡ false = ground arith in
      let some_range : ltb 0 (hi - lo + 1) ≡ true = ground arith in
      let start : sub64 (add64 hi 1) (hi - lo + 1) ≡ lo = omega arith in
      rw
        (
          read_varint-frames_varint_encode (sub64 hi lo) room first rest (omega arith) h,
          range,
          fits,
          some_range,
          start,
        )
        refl

  -- A gap that was written is read, and leads to the end of the next range.
  process_gap-written :
      (s : SackList) (lo hi : ℕ) (x : SackItem) (room : ℕ) (gap rest : List ℕ)
      (go_on : SackList → ℕ → List ℕ → Processed)
      → x.end_of_sack_range + 2 ≤ lo
      → lo ≤ hi
      → hi < 2 ^ 62
      → frames_varint_encode (sub64 (sub64 lo x.end_of_sack_range) 2) room ≡ some gap
      → process_gap s hi (hi - lo + 1) (gap ++ rest) go_on ≡ go_on s x.end_of_sack_range rest
  unfolding process_gap gap_read
  process_gap-written s lo hi x room gap rest go_on apart le small h =
      let below = x.end_of_sack_range in
      let step : add64 (add64 (sub64 (sub64 lo below) 2) 1) (hi - lo + 1) ≡ hi - below =
        omega arith in
      let fits : ltb hi (hi - below) ≡ false = ground arith in
      let there : hi - (hi - below) ≡ below = omega arith in
      rw
        (
          read_varint-frames_varint_encode (sub64 (sub64 lo below) 2) room gap rest (omega arith) h,
          step,
          fits,
          there,
        )
        refl

  -- The whole body, behind the header, is read as the ranges that it was written for.
  pub process_body-written :
      (is_ecn : Bool) (s : SackList) (x : SackItem) (xs : List SackItem) (room : ℕ)
      (first out rest : List ℕ)
      → x.start_of_sack_range ≤ x.end_of_sack_range
      → x.end_of_sack_range < 2 ^ 62
      → IsDown x.start_of_sack_range xs
      → frames_varint_encode (sub64 x.end_of_sack_range x.start_of_sack_range) room ≡ some first
      → IsBlocks x.start_of_sack_range xs out
      → process_body t is_ecn (length xs) s x.end_of_sack_range (first ++ (out ++ rest))
        ≡ read_ecn is_ecn (acked s (x ∷ xs)) rest
  unfolding process_body ack_block
  process_body-written is_ecn s x [] room first out rest le small down h (no_block _) =
      process_range-written s x room first rest (λ s range bytes. read_ecn is_ecn s bytes) le small
        h
  process_body-written is_ecn s x (_ ∷ _) room first out rest le small (apart, le', down) h
        (a_block _ room' y ys block later h' blocks) =
      let lo = x.start_of_sack_range in
      let gap_of = sub64 (sub64 lo y.end_of_sack_range) 2 in
      let range_of = sub64 y.end_of_sack_range y.start_of_sack_range in
      let (gap, (range, (h1, h2, whole))) =
        parts (frames_varint_encode gap_of) (frames_varint_encode range_of) room' block h' in
      let regroup : (block ++ later) ++ rest ≡ gap ++ (range ++ (later ++ rest)) =
        ap (λ b. (b ++ later) ++ rest) whole
        ∙ ap (λ b. b ++ rest) (append_assoc gap range later)
        ∙ append_assoc gap (range ++ later) rest
        ∙ ap (λ b. gap ++ b) (append_assoc range later rest) in
      let s' = process_ack_of_ack_range t s lo x.end_of_sack_range in
      let next = λ (s : SackList) (largest : ℕ) (bytes : List ℕ).
        process_body t is_ecn (length ys) s largest bytes in
      process_range-written s x room first ((block ++ later) ++ rest)
        (λ s range bytes. process_gap s x.end_of_sack_range range bytes next) le small h
      ∙ ap (λ b. process_gap s' x.end_of_sack_range (x.end_of_sack_range - lo + 1) b next) regroup
      ∙ process_gap-written s' lo x.end_of_sack_range y room' gap (range ++ (later ++ rest)) next
          apart le small h1
      ∙ process_body-written is_ecn s' y ys (room' - length gap) range later rest le'
          (omega (arith, apart, le, small)) down h2 blocks
