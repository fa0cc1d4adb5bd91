-- ===== src/AckFrames/RoundTrip.antt =====
-- The ACK frame that is written (picoquic/frames.c, `picoquic_format_ack_frame_in_context`), as it is read
-- when it is acknowledged.
use fair_queuing_aware_conge.Common.{
  ℕ, suc, ◌-◌, ◌<◌, ◌≤◌, ◌⊎◌, ◌^◌, ◌≡◌, refl, sym, ◌∙◌, ap, inl, inr, Bool, true, false, List, [],
  ◌∷◌, ◌++◌, Option, some, length, append_assoc, drop, ◌==◌, if◌then◌else◌, mul64, u64_max, arith,
}
use mathlib.Core.List.{reverse, reverse_aux, reverse_aux-eq, reverse-reverse}
use mathlib.Core.Path.{subst}
use fair_queuing_aware_conge.Intformat.{varint_decode, decode_varint_length}
use fair_queuing_aware_conge.Frames.{frames_varint_encode, put, ◌then_put◌}
use fair_queuing_aware_conge.Frames.RoundTrip.{parts}
use fair_queuing_aware_conge.Sacks.{SackItem}
use fair_queuing_aware_conge.Sacks.Ranges.{IsFrom}
use fair_queuing_aware_conge.Sacks.Fronts.{IsFrom-node}
use fair_queuing_aware_conge.AckFrames.{ack_type_byte, ack_header}
use fair_queuing_aware_conge.AckFrames.Read.{
  AckHeader, read_varint, read_path, header_fields, parse_ack_header,
}
use fair_queuing_aware_conge.AckFrames.Blocks.{IsDown, read_varint-frames_varint_encode}

-- The ranges before an item of an ordered list, from the nearest down.
pub IsFrom-IsDown :
    (b : ℕ) (previous : List SackItem) (x : SackItem) (back : List SackItem)
    → IsFrom b (reverse_aux previous (x ∷ back))
    → (IsDown x.start_of_sack_range previous)
      × (x.start_of_sack_range ≤ x.end_of_sack_range)
      × (x.end_of_sack_range < 2 ^ 62)
IsFrom-IsDown b [] x back (h0, h1, h2, h3) = (tt, h1, h2)
IsFrom-IsDown b (y ∷ ys) x back h =
    let (down, le, small) = IsFrom-IsDown b ys y (x ∷ back) h in
    let (k0, k1, k2, (k3, k4, k5, k6)) =
      IsFrom-node b (reverse ys) y (x ∷ back)
        (subst (IsFrom b) (reverse_aux-eq ys (y ∷ (x ∷ back))) h) in
    ((k3, le, down), k4, k5)

pub last-whole :
    (items : List SackItem) (x : SackItem) (previous : List SackItem)
    → reverse items ≡ x ∷ previous
    → items ≡ reverse_aux previous (x ∷ [])
last-whole items x previous h = sym (reverse-reverse items) ∙ ap reverse h

-- The length of the frame type, by its first byte.
skip_type :
    (b v : ℕ) (bs rest : List ℕ)
    → read_varint (b ∷ bs) ≡ some (v, rest)
    → drop (decode_varint_length b) (b ∷ bs) ≡ rest
unfolding read_varint varint_decode decode_varint_length
skip_type b v bs rest h = ground (arith, h)

pub small_byte : (n : ℕ) → n < 64 → frames_varint_encode n 1 ≡ some (n ∷ [])
unfolding frames_varint_encode
small_byte n h = ground arith

no_empty : (n room : ℕ) → frames_varint_encode n room ≡ some [] → room < room
unfolding frames_varint_encode
no_empty n room h = ground (arith, h)

abbrev pub has_path : ℕ → Bool
has_path multipath_sequence = if multipath_sequence == u64_max then false else true

abbrev pub header_of : ℕ → ℕ → ℕ → ℕ → AckHeader
header_of multipath_sequence largest ack_delay num_block = record {
  path_id = if multipath_sequence == u64_max then 0 else multipath_sequence;
  largest = largest;
  ack_delay = ack_delay;
  num_block = num_block;
}

-- Where there is no path its sequence number is UINT64_MAX, and nothing is written for it.
abbrev pub encode_path : ℕ → ℕ → Option (List ℕ)
encode_path multipath_sequence =
    if multipath_sequence == u64_max then put [] else frames_varint_encode multipath_sequence

abbrev pub IsPath : ℕ → Type 0
IsPath multipath_sequence = (multipath_sequence ≡ u64_max) ⊎ (multipath_sequence < 2 ^ 62)

path-read :
    (multipath_sequence room : ℕ) (path rest : List ℕ)
    → IsPath multipath_sequence
    → encode_path multipath_sequence room ≡ some path
    → read_path (has_path multipath_sequence) (path ++ rest)
      ≡ some (if multipath_sequence == u64_max then 0 else multipath_sequence, rest)
unfolding read_path put
path-read mp room path rest (inl single) h =
    let here : (mp == u64_max) ≡ true = ground (arith, single) in
    let nothing : put [] room ≡ some path =
      subst (λ c. (if c then put [] else frames_varint_encode mp) room ≡ some path) here h in
    let none_there : path ≡ [] = ground (arith, nothing) in rw (here, none_there) refl
path-read mp room path rest (inr multi) h =
    let there : (mp == u64_max) ≡ false = ground (arith, multi) in
    let written : frames_varint_encode mp room ≡ some path =
      subst (λ c. (if c then put [] else frames_varint_encode mp) room ≡ some path) there h in
    rw there (read_varint-frames_varint_encode mp room path rest multi written)

fields-read :
    (multipath_sequence largest ack_delay num_block : ℕ) (room room' room'' : ℕ)
    (path high delay tail : List ℕ)
    → IsPath multipath_sequence
    → largest < 2 ^ 62
    → ack_delay < 2 ^ 62
    → num_block < 64
    → encode_path multipath_sequence room ≡ some path
    → frames_varint_encode largest room' ≡ some high
    → frames_varint_encode ack_delay room'' ≡ some delay
    → header_fields
        (has_path multipath_sequence)
        0
        (path ++ (high ++ (delay ++ (num_block ∷ tail))))
      ≡ some (header_of multipath_sequence largest ack_delay num_block, tail)
unfolding header_fields
fields-read mp largest ack_delay num room room' room'' path high delay tail small hl hd hn ep el
      ed =
    let same_delay : mul64 ack_delay (2 ^ 0) ≡ ack_delay = omega arith in
    let fits : num < 2 ^ 62 = omega (arith, hn) in
    rw
      (
        path-read mp room path (high ++ (delay ++ (num ∷ tail))) small ep,
        read_varint-frames_varint_encode largest room' high (delay ++ (num ∷ tail)) hl el,
        read_varint-frames_varint_encode ack_delay room'' delay (num ∷ tail) hd ed,
        read_varint-frames_varint_encode num 1 (num ∷ []) tail fits (small_byte num hn),
        same_delay,
      )
      refl

type-read :
    (n room : ℕ) (type rest : List ℕ)
    → n < 2 ^ 62
    → frames_varint_encode n room ≡ some type
    → (p : Bool) → parse_ack_header p 0 (type ++ rest) ≡ header_fields p 0 rest
unfolding parse_ack_header
type-read n room [] rest small h p = absurd (omega (arith, no_empty n room h))
type-read n room (b ∷ bs) rest small h p =
    rw
      (skip_type b n (bs ++ rest) rest
        (read_varint-frames_varint_encode n room (b ∷ bs) rest small h))
      refl

pub type-small :
    (multipath_sequence : ℕ) (is_ecn : Bool) → ack_type_byte multipath_sequence is_ecn < 2 ^ 62
unfolding ack_type_byte
type-small mp is_ecn = ground arith

-- The header is read as it was written, with the number of blocks behind it.
pub parse_ack_header-ack_header :
    (multipath_sequence largest ack_delay num_block room : ℕ) (is_ecn : Bool) (header tail : List ℕ)
    → IsPath multipath_sequence
    → largest < 2 ^ 62
    → ack_delay < 2 ^ 62
    → num_block < 64
    → ack_header multipath_sequence is_ecn largest ack_delay room ≡ some header
    → parse_ack_header (has_path multipath_sequence) 0 (header ++ (num_block ∷ tail))
      ≡ some (header_of multipath_sequence largest ack_delay num_block, tail)
unfolding ack_header
parse_ack_header-ack_header mp largest ack_delay num room is_ecn header tail small hl hd hn h =
    let type_of = frames_varint_encode (ack_type_byte mp is_ecn) in
    let high_of = frames_varint_encode largest in
    let delay_of = frames_varint_encode ack_delay in
    let (front, (delay, (h1, ed, w1))) =
      parts (type_of then_put encode_path mp then_put high_of) delay_of room header h in
    let (begin, (high, (h2, el, w2))) =
      parts (type_of then_put encode_path mp) high_of room front h1 in
    let (type, (path, (et, ep, w3))) = parts type_of (encode_path mp) room begin h2 in
    let rest = num ∷ tail in
    let regroup : header ++ rest ≡ type ++ (path ++ (high ++ (delay ++ rest))) =
      ap (λ o. o ++ rest) w1
      ∙ append_assoc front delay rest
      ∙ ap (λ o. o ++ (delay ++ rest)) w2
      ∙ append_assoc begin high (delay ++ rest)
      ∙ ap (λ o. o ++ (high ++ (delay ++ rest))) w3
      ∙ append_assoc type path (high ++ (delay ++ rest)) in
    ap (λ bytes. parse_ack_header (has_path mp) 0 bytes) regroup
    ∙ type-read (ack_type_byte mp is_ecn) room type (path ++ (high ++ (delay ++ rest)))
        (type-small mp is_ecn) et (has_path mp)
    ∙ fields-read mp largest ack_delay num _ _ _ path high delay tail small hl hd hn ep el ed

-- What one encoder writes with `b` in front, the other one writes with `b'` in front.
record Retypes (b b' : ℕ) (e e' : ℕ → Option (List ℕ)) : Type 0 where
  retype :
      (room : ℕ) (out : List ℕ)
      → e room ≡ some out
      → (tail : List ℕ) × ((out ≡ b ∷ tail) × (e' room ≡ some (b' ∷ tail)))

then_put-Retypes :
    {b b' : ℕ} {e e' : ℕ → Option (List ℕ)} (f : ℕ → Option (List ℕ))
    → Retypes b b' e e'
    → Retypes b b' (e then_put f) (e' then_put f)
unfolding ◌then_put◌
then_put-Retypes {b = b} {b' = b'} {e = e} {e' = e'} f r = record {
  retype = λ room out h.
      let (first, (second, (h1, h2, whole))) = parts e f room out h in
      let (tail, (starts, other)) = r.retype room first h1 in
      let behind : f (room - suc (length tail)) ≡ some second =
        subst (λ (o : List ℕ). f (room - length o) ≡ some second) starts h2 in
      (tail ++ second, (whole ∙ ap (λ o. o ++ second) starts, rw (other, behind) refl));
}

small-Retypes :
    (b b' : ℕ) → b < 64 → b' < 64 → Retypes b b' (frames_varint_encode b) (frames_varint_encode b')
unfolding frames_varint_encode
small-Retypes b b' h h' = record {
  retype = λ room out e. ([], (ground (arith, e), ground (arith, e)));
}

abbrev pub type_byte : Bool → ℕ
type_byte is_ecn = if is_ecn then 0x03 else 0x02

-- A header with the type of the frame without counters in place of its own is that of this frame.
pub ack_header-retyped :
    (largest ack_delay room : ℕ) (is_ecn : Bool) (header : List ℕ)
    → ack_header u64_max is_ecn largest ack_delay room ≡ some header
    → (tail : List ℕ) × ((header ≡ type_byte is_ecn ∷ tail)
        × (ack_header u64_max false largest ack_delay room ≡ some (0x02 ∷ tail)))
unfolding ack_header ack_type_byte
ack_header-retyped largest ack_delay room is_ecn header h =
    let r : Retypes (type_byte is_ecn) 0x02 (frames_varint_encode (type_byte is_ecn))
        (frames_varint_encode 0x02) =
      small-Retypes (type_byte is_ecn) 0x02 (ground arith) (omega arith) in
    (then_put-Retypes (frames_varint_encode ack_delay)
        (then_put-Retypes (frames_varint_encode largest) (then_put-Retypes (put []) r))).retype
      room header h
