-- ===== src/Frames/Progress.antt =====
-- The skipping of frames (picoquic/frames.c) goes forward: what it leaves is the end of what it was given,
-- and every frame has at least one byte, so that the loops over the frames of a packet end.
use fair_queuing_aware_conge.Common.{
  ℕ, zero, suc, ◌+◌, ◌%◌, refl, inl, inr, Bool, true, false, ◌&&◌, ◌||◌, List, [], ◌∷◌, Option,
  length, leb, ◌==◌, if◌then◌else◌, Bool-cases,
}
use fair_queuing_aware_conge.Frames.{frames_uint8_decode}
use fair_queuing_aware_conge.Frames.Skip.{
  reset_secret_size, skip_two, skip_three, has_length, has_offset, skip_stream_frame,
  skip_crypto_hs_frame, skip_connection_close_frame, skip_application_close_frame, skip_blocks,
  skip_ack_frame_maybe_ecn, skip_stream_reset_frame, skip_max_stream_data_frame,
  skip_stream_blocked_frame, skip_stop_sending_frame, skip_new_connection_id_frame,
  skip_retire_connection_id_frame, skip_new_token_frame, skip_0len_frame, skip_datagram_frame,
  skip_ack_frequency_frame, skip_time_stamp_frame, parse_path_identifier, skip_path_identifier,
  skip_path_abandon_frame, skip_bdp_frame,
}
use fair_queuing_aware_conge.Frames.Switch.{
  challenge_length, Skipped, skip_long_type, skip_by_type, skip_default, skip_switch,
}
use fair_queuing_aware_conge.Frames.Ends.{
  IsEnd, IsValueEnd, null, rest_of, null_value, value_of, here, all_of, EndsWith-cons, IsEnd-trans,
  EndsWith, then-IsEnd, value-IsEnd, values-IsValueEnd, choose, choose_value, drop-IsEnd,
  fixed_skip-IsEnd, varint_skip-IsEnd_tail, varint_skip-IsEnd, varint_decode-IsValueEnd_tail,
  varint_decode-IsValueEnd, uint8_decode-IsValueEnd, length_data_skip-IsEnd,
}

skip_two-IsEnd : (bytes : List ℕ) → IsEnd bytes (skip_two bytes)
unfolding skip_two
skip_two-IsEnd bytes = then-IsEnd (varint_skip-IsEnd bytes) varint_skip-IsEnd

skip_three-IsEnd : (bytes : List ℕ) → IsEnd bytes (skip_three bytes)
unfolding skip_three
skip_three-IsEnd bytes = then-IsEnd (skip_two-IsEnd bytes) varint_skip-IsEnd

skip_two-IsEnd_tail : (b : ℕ) (bs : List ℕ) → IsEnd bs (skip_two (b ∷ bs))
unfolding skip_two
skip_two-IsEnd_tail b bs = then-IsEnd (varint_skip-IsEnd_tail b bs) varint_skip-IsEnd

skip_blocks-IsEnd : (nb_blocks : ℕ) (bytes : List ℕ) → IsEnd bytes (skip_blocks nb_blocks bytes)
unfolding skip_blocks
skip_blocks-IsEnd zero bytes = here bytes
skip_blocks-IsEnd (suc nb_blocks) bytes =
    then-IsEnd (skip_two-IsEnd bytes) (skip_blocks-IsEnd nb_blocks)

skip_0len_end : (frame : ℕ) (bytes : List ℕ) → EndsWith bytes (skip_0len_frame frame bytes)
unfolding skip_0len_frame
skip_0len_end frame [] = ([], refl)
skip_0len_end frame (b ∷ bs) = elim (Bool-cases (b == frame)) [
  | inl same ↦ rw same (EndsWith-cons b bs (skip_0len_frame frame bs) (skip_0len_end frame bs))
  | inr other ↦ rw other ([], refl)
]

-- Behind the type of an acknowledgement.
ack-IsEnd :
    (is_ecn has_path : Bool) (b : ℕ) (bs : List ℕ)
    → IsEnd bs (skip_ack_frame_maybe_ecn is_ecn has_path (b ∷ bs))
unfolding skip_ack_frame_maybe_ecn
ack-IsEnd is_ecn has_path b bs = then-IsEnd (skip_two-IsEnd_tail b bs) (λ r0.
    then-IsEnd (choose has_path (varint_skip-IsEnd r0) (here r0)) (λ r1.
      then-IsEnd (varint_skip-IsEnd r1) (λ r2.
        value-IsEnd (varint_decode-IsValueEnd r2) (λ (nb_blocks, r3).
          then-IsEnd (varint_skip-IsEnd r3) (λ r4.
            then-IsEnd (skip_blocks-IsEnd nb_blocks r4)
              (λ r5. choose is_ecn (skip_three-IsEnd r5) (here r5)))))))

path_identifier-IsValueEnd :
    (bytes : List ℕ) → IsValueEnd (ℕ × ℕ) bytes (parse_path_identifier bytes)
unfolding parse_path_identifier
path_identifier-IsValueEnd bytes =
    values-IsValueEnd (varint_decode-IsValueEnd bytes) (λ (path_id_type, r0).
      choose_value (leb path_id_type 1)
        (values-IsValueEnd (varint_decode-IsValueEnd r0)
          (λ (path_id_value, r1). value_of _ r1 ([], refl)))
        (choose_value (path_id_type == 2) (value_of _ r0 ([], refl)) null_value))

path_identifier-IsEnd : (bytes : List ℕ) → IsEnd bytes (skip_path_identifier bytes)
unfolding skip_path_identifier
path_identifier-IsEnd bytes =
    value-IsEnd (path_identifier-IsValueEnd bytes) (λ (path_id, rest). here rest)

new_connection_id-IsEnd : (b : ℕ) (bs : List ℕ) → IsEnd bs (skip_new_connection_id_frame (b ∷ bs))
unfolding skip_new_connection_id_frame skip_three frames_uint8_decode
new_connection_id-IsEnd b bs =
    then-IsEnd (then-IsEnd (skip_two-IsEnd_tail b bs) varint_skip-IsEnd) (λ r.
      value-IsEnd (uint8_decode-IsValueEnd r)
        (λ (size, rest). fixed_skip-IsEnd rest (size + reset_secret_size)))

stream-IsEnd : (first : ℕ) (bytes : List ℕ) → IsEnd bytes (skip_stream_frame first bytes)
unfolding skip_stream_frame
stream-IsEnd first bytes = then-IsEnd (varint_skip-IsEnd bytes) (λ r0.
    then-IsEnd (choose (has_offset first) (varint_skip-IsEnd r0) (here r0))
      (λ r1. choose (has_length first) (length_data_skip-IsEnd r1) (all_of r1)))

datagram-IsEnd : (first : ℕ) (bytes : List ℕ) → IsEnd bytes (skip_datagram_frame first bytes)
unfolding skip_datagram_frame
datagram-IsEnd first bytes =
    choose (first % 2 == 1)
      (value-IsEnd (varint_decode-IsValueEnd bytes)
        (λ (size, rest). choose (leb size (length rest)) (drop-IsEnd size rest) null))
      (all_of bytes)

path_abandon-IsEnd : (bytes : List ℕ) → IsEnd bytes (skip_path_abandon_frame bytes)
unfolding skip_path_abandon_frame
path_abandon-IsEnd bytes =
    then-IsEnd (path_identifier-IsEnd bytes)
      (λ r. then-IsEnd (varint_skip-IsEnd r) length_data_skip-IsEnd)

-- What a switch leaves is NULL, or an end of the bytes.
pub record IsForward (bytes : List ℕ) (s : Skipped) : Type 0 where
  pub ends : IsEnd bytes s.0

skips :
    {bytes : List ℕ} {r : Option (List ℕ)} (pure_ack : Bool)
    → IsEnd bytes r
    → IsForward bytes (r, pure_ack)
skips pure_ack h = record { ends = h }

choose_first :
    {bytes : List ℕ} (c pure_ack : Bool) {a : Option (List ℕ)} {b : Skipped}
    → IsEnd bytes a
    → IsForward bytes b
    → IsForward bytes (if c then (a, pure_ack) else b)
choose_first true pure_ack h k = skips pure_ack h
choose_first false pure_ack h k = k

-- Behind a frame type of more than one byte.
long_type-IsForward :
    (frame_id64 first : ℕ) (tail bytes : List ℕ)
    → EndsWith tail bytes
    → IsForward tail (skip_long_type frame_id64 (first ∷ tail) bytes)
unfolding skip_long_type skip_ack_frequency_frame skip_time_stamp_frame skip_bdp_frame
long_type-IsForward frame_id64 first tail bytes e =
    choose_first (frame_id64 == 0xAF) false
      (IsEnd-trans tail bytes e (then-IsEnd (skip_three-IsEnd bytes) (λ r. fixed_skip-IsEnd r 1)))
      (choose_first (frame_id64 == 757) true (IsEnd-trans tail bytes e (varint_skip-IsEnd bytes)) (
        choose_first (frame_id64 == 0xbaba00) true (ack-IsEnd false true first tail) (
          choose_first (frame_id64 == 0xbaba01) true (ack-IsEnd true true first tail) (
            choose_first (frame_id64 == 0xbaba05) false
              (IsEnd-trans tail bytes e (path_abandon-IsEnd bytes))
              (choose_first (frame_id64 == 0xebd9) false
                (IsEnd-trans tail bytes e
                  (then-IsEnd (skip_three-IsEnd bytes) length_data_skip-IsEnd))
                (skips true null))))))

by_type-IsForward :
    (first : ℕ) (bytes : List ℕ) {m : Option (ℕ × List ℕ)}
    → IsValueEnd ℕ bytes m
    → IsForward bytes (skip_by_type (first ∷ bytes) m)
unfolding skip_by_type
by_type-IsForward first bytes null_value = skips true null
by_type-IsForward first bytes (value_of frame_id64 rest e) =
    long_type-IsForward frame_id64 first bytes rest e

-- The switch leaves an end of the bytes behind the first one.
pub switch-IsForward : (first : ℕ) (bytes : List ℕ) → IsForward bytes (skip_switch first bytes)
unfolding skip_switch skip_default skip_stream_reset_frame skip_connection_close_frame
    skip_application_close_frame skip_max_stream_data_frame skip_stream_blocked_frame
    skip_stop_sending_frame skip_crypto_hs_frame skip_new_token_frame
    skip_retire_connection_id_frame
switch-IsForward first bytes =
    let one = varint_skip-IsEnd bytes in
    let two = skip_two-IsEnd bytes in
    let zeros = rest_of (skip_0len_frame first bytes) (skip_0len_end first bytes) in
    let data_behind_one = then-IsEnd one length_data_skip-IsEnd in
    choose_first (leb 0x08 first && leb first 0x0f) false (stream-IsEnd first bytes) (
      choose_first (first == 0x02) true (ack-IsEnd false false first bytes) (
        choose_first (first == 0x03) true (ack-IsEnd true false first bytes) (
          choose_first (first == 0x00) true zeros (
            choose_first (first == 0x04) false (skip_three-IsEnd bytes) (
              choose_first (first == 0x1c) false (then-IsEnd two length_data_skip-IsEnd) (
                choose_first (first == 0x1d) false data_behind_one (
                  choose_first (first == 0x10) false one (
                    choose_first (first == 0x11) false two (
                      choose_first ((first == 0x12) || (first == 0x13)) false one (
                        choose_first (first == 0x01) false zeros (
                          choose_first (first == 0x14) false one (
                            choose_first (first == 0x15) false two (
                              choose_first ((first == 0x16) || (first == 0x17)) false one (
                                choose_first (first == 0x18) false
                                  (new_connection_id-IsEnd first bytes)
                                  (choose_first (first == 0x05) false two (
                                    choose_first ((first == 0x1a) || (first == 0x1b)) true
                                      (fixed_skip-IsEnd bytes challenge_length)
                                      (choose_first (first == 0x06) false data_behind_one (
                                        choose_first (first == 0x07) false
                                          (length_data_skip-IsEnd bytes)
                                          (choose_first (first == 0x19) false one (
                                            choose_first (first == 0x1e) false (here bytes) (
                                              choose_first ((first == 0x30) || (first == 0x31))
                                                false (datagram-IsEnd first bytes)
                                                (by_type-IsForward first bytes (
                                                  varint_decode-IsValueEnd_tail first
                                                    bytes)))))))))))))))))))))))
