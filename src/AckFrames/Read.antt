-- ===== src/AckFrames/Read.antt =====
-- `picoquic_parse_ack_header` and `picoquic_process_ack_of_ack_frame` of picoquic/frames.c: one's own ACK
-- frame, in a packet that is acknowledged. The bytes from the index on stand for the index.
use fair_queuing_aware_conge.Common.{
  ℕ, zero, suc, ◌-◌, ◌^◌, Bool, true, false, List, [], ◌∷◌, Option, none, some, drop, ltb,
  if◌then◌else◌, add64, sub64, mul64,
}
use fair_queuing_aware_conge.Intformat.{decode_varint_length, varint_decode}
use fair_queuing_aware_conge.Frames.{◌>>=◌}
use fair_queuing_aware_conge.Frames.Varint.{value_behind}
use fair_queuing_aware_conge.Sacks.{SackList, Splay}
use fair_queuing_aware_conge.Sacks.Acks.{process_ack_of_ack_range}

-- `picoquic_varint_decode(bytes + byte_index, bytes_max - byte_index, &value)`, none where the length is
-- 0, and on no bytes the test in front of it.
unfoldable pub read_varint : List ℕ → Option (ℕ × List ℕ)
read_varint bytes = value_behind (varint_decode bytes) bytes

pub record AckHeader : Type 0 where
  pub path_id : ℕ
  pub largest : ℕ
  pub ack_delay : ℕ
  pub num_block : ℕ

-- The path, which is read where path_id is not NULL.
unfoldable pub read_path : Bool → List ℕ → Option (ℕ × List ℕ)
read_path false bytes = some (0, bytes)
read_path true bytes = read_varint bytes

-- The fields behind the frame type.
unfoldable pub header_fields : Bool → ℕ → List ℕ → Option (AckHeader × List ℕ)
header_fields has_path ack_delay_exponent bytes = do
  (path_id, bytes) ← read_path has_path bytes
  (largest, bytes) ← read_varint bytes
  (delay, bytes) ← read_varint bytes
  (num_block, bytes) ← read_varint bytes
  some (
    record {
      path_id = path_id;
      largest = largest;
      ack_delay = mul64 delay (2 ^ ack_delay_exponent);
      num_block = num_block;
    },
    bytes,
  )

-- picoquic_parse_ack_header: the header and what is behind it. On a header that is cut short nothing is
-- left, `*consumed` is `bytes_max`.
unfoldable pub parse_ack_header : Bool → ℕ → List ℕ → Option (AckHeader × List ℕ)
parse_ack_header has_path ack_delay_exponent [] = none
parse_ack_header has_path ack_delay_exponent (first ∷ bytes) =
    header_fields has_path ack_delay_exponent (drop (decode_varint_length first) (first ∷ bytes))

-- The sack list, the bytes from `*consumed` on, and whether `ret` is 0.
pub record Processed : Type 0 where
  pub list : SackList
  pub rest : List ℕ
  pub is_ok : Bool

unfoldable pub failed_at : SackList → List ℕ → Processed
failed_at s rest = record { list = s; rest = rest; is_ok = false }

-- The three ECN counters; the loop over them.
unfoldable pub then_counters : (List ℕ → Processed) → SackList → Option (ℕ × List ℕ) → Processed
then_counters go_on s none = failed_at s []
then_counters go_on s (some (ecn, rest)) = go_on rest

unfoldable pub skip_counters : ℕ → SackList → List ℕ → Processed
skip_counters zero s bytes = record { list = s; rest = bytes; is_ok = true }
skip_counters (suc k) s bytes = then_counters (skip_counters k s) s (read_varint bytes)

unfoldable pub read_ecn : Bool → SackList → List ℕ → Processed
read_ecn false s bytes = record { list = s; rest = bytes; is_ok = true }
read_ecn true s bytes = skip_counters 3 s bytes

-- The gap behind a range, and what goes on with the next largest number.
unfoldable pub gap_read :
    SackList → ℕ → ℕ → (SackList → ℕ → List ℕ → Processed) → Option (ℕ × List ℕ) → Processed
gap_read s largest range go_on none = failed_at s []
gap_read s largest range go_on (some (gap, bytes)) =
    let block_to_block = add64 (add64 gap 1) range in
    if ltb largest block_to_block
    then failed_at s bytes
    else go_on s (largest - block_to_block) bytes

unfoldable pub process_gap :
    SackList → ℕ → ℕ → List ℕ → (SackList → ℕ → List ℕ → Processed) → Processed
process_gap s largest range bytes go_on = gap_read s largest range go_on (read_varint bytes)

module _ (t : Splay) where
  unfoldable pub process_acked : SackList → ℕ → ℕ → SackList
  process_acked s largest range =
      if ltb 0 range
      then process_ack_of_ack_range t s (sub64 (add64 largest 1) range) largest
      else s

  -- The next range of the body, and what goes on with the range and the bytes behind it.
  unfoldable pub range_read :
      SackList → ℕ → (SackList → ℕ → List ℕ → Processed) → Option (ℕ × List ℕ) → Processed
  range_read s largest go_on none = failed_at s []
  range_read s largest go_on (some (encoded, bytes)) =
      let range = add64 encoded 1 in
      if ltb (add64 largest 1) range
      then failed_at s bytes
      else go_on (process_acked s largest range) range bytes

  unfoldable pub process_range :
      SackList → ℕ → List ℕ → (SackList → ℕ → List ℕ → Processed) → Processed
  process_range s largest bytes go_on = range_read s largest go_on (read_varint bytes)

  -- picoquic_process_ack_of_ack_body: the next range, and the blocks that are left behind it.
  unfoldable pub process_body : Bool → ℕ → SackList → ℕ → List ℕ → Processed
  process_body is_ecn zero s largest bytes =
      process_range s largest bytes (λ s range bytes. read_ecn is_ecn s bytes)
  process_body is_ecn (suc num_block) s largest bytes =
      process_range s largest bytes (λ s range bytes.
        process_gap s largest range bytes
          (λ s largest bytes. process_body is_ecn num_block s largest bytes))

  -- picoquic_process_ack_of_ack_frame
  unfoldable pub process_behind : Bool → SackList → Option (AckHeader × List ℕ) → Processed
  process_behind is_ecn s none = failed_at s []
  process_behind is_ecn s (some (header, rest)) =
      process_body is_ecn header.num_block s header.largest rest

  unfoldable pub process_ack_of_ack_frame : Bool → SackList → List ℕ → Processed
  process_ack_of_ack_frame is_ecn s bytes = process_behind is_ecn s (parse_ack_header false 0 bytes)
