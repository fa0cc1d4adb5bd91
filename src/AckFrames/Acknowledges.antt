-- ===== src/AckFrames/Acknowledges.antt =====
-- What the ACK frame that is written for a context (picoquic/frames.c,
-- `picoquic_format_ack_frame_in_context`) acknowledges, by what is read of it.
use fair_queuing_aware_conge.Common.{
  ℕ, ◌-◌, ◌<◌, ◌≤◌, ◌^◌, ◌≡◌, refl, ◌∙◌, ap, ◌⊎◌, inl, inr, Bool, true, List, [], ◌∷◌, ◌++◌, Option,
  none, some, length, append_assoc, sub64, u64_max, arith,
}
use mathlib.Core.List.{reverse, reverse_aux}
use mathlib.Core.Path.{subst}
use fair_queuing_aware_conge.Frames.{frames_varint_encode, ◌then_put◌}
use fair_queuing_aware_conge.Frames.RoundTrip.{parts}
use fair_queuing_aware_conge.Sacks.{SackItem, SackList, Splay, record_sent}
use fair_queuing_aware_conge.Sacks.Acks.{AckContext, item_record_sent}
use fair_queuing_aware_conge.Sacks.Ranges.{IsFrom}
use fair_queuing_aware_conge.AckFrames.{AckBlocks, ack_header}
use fair_queuing_aware_conge.AckFrames.Format.{
  AckFrame, no_frame, ack_body, put_blocks, remember_sent, with_act, with_first_range,
  ack_ranges_part, ecn_counters,
}
use fair_queuing_aware_conge.AckFrames.Read.{
  Processed, read_ecn, skip_counters, then_counters, process_body, process_behind,
  process_ack_of_ack_frame,
}
use fair_queuing_aware_conge.AckFrames.Blocks.{
  IsDown, IsBlocks, acked, process_body-written, read_varint-frames_varint_encode,
}
use fair_queuing_aware_conge.AckFrames.Written.{Written, ack_blocks-Written, sent_whole}
use fair_queuing_aware_conge.AckFrames.RoundTrip.{IsFrom-IsDown, parse_ack_header-ack_header}

-- The ECN counters of a context are below 2 ^ 62.
abbrev pub IsCounting : AckContext → Type 0
IsCounting c =
    (c.ecn_ect0_total_local < 2 ^ 62)
    × (c.ecn_ect1_total_local < 2 ^ 62)
    × (c.ecn_ce_total_local < 2 ^ 62)

abbrev pub read_to_end : SackList → List ℕ → Processed
read_to_end s rest = record { list = s; rest = rest; is_ok = true }

pub read_ecn-written :
    (c : AckContext) (s : SackList) (room : ℕ) (counters rest : List ℕ)
    → IsCounting c
    → ecn_counters c room ≡ some counters
    → read_ecn true s (counters ++ rest) ≡ read_to_end s rest
unfolding read_ecn skip_counters then_counters ecn_counters
read_ecn-written c s room counters rest (h0, h1, h2) h =
    let first = frames_varint_encode c.ecn_ect0_total_local in
    let second = frames_varint_encode c.ecn_ect1_total_local in
    let third = frames_varint_encode c.ecn_ce_total_local in
    let (front, (ce, (e, e2, w))) = parts (first then_put second) third room counters h in
    let (ect0, (ect1, (e0, e1, w'))) = parts first second room front e in
    let regroup : counters ++ rest ≡ ect0 ++ (ect1 ++ (ce ++ rest)) =
      ap (λ o. o ++ rest) w
      ∙ append_assoc front ce rest
      ∙ ap (λ o. o ++ (ce ++ rest)) w'
      ∙ append_assoc ect0 ect1 (ce ++ rest) in
    rw
      (
        regroup,
        read_varint-frames_varint_encode _ _ ect0 (ect1 ++ (ce ++ rest)) h0 e0,
        read_varint-frames_varint_encode _ _ ect1 (ce ++ rest) h1 e1,
        read_varint-frames_varint_encode _ _ ce rest h2 e2,
      )
      refl

module _ (t : Splay) where
  -- What stands in a frame, up to the counters: the last range, and some of the others.
  pub record Plain (c : AckContext) (s : SackList) (last_sack : SackItem) (previous : List SackItem)
      (is_ecn : Bool) (delay : ℕ) (f : AckFrame) : Type 0 where
    pub header : List ℕ
    pub range_first : List ℕ
    pub blocks : AckBlocks
    pub room : ℕ
    pub left : ℕ
    pub opp : Bool
    pub header_lem : ack_header u64_max is_ecn last_sack.end_of_sack_range delay room ≡ some header
    pub range_lem :
        frames_varint_encode (sub64 last_sack.end_of_sack_range last_sack.start_of_sack_range) left
        ≡ some range_first
    pub chosen :
        Written t
          (item_record_sent opp s (reverse previous) last_sack [])
          previous
          (record_sent opp last_sack ∷ [])
          last_sack.start_of_sack_range
          0
          blocks
    pub bytes : f.bytes ≡ ack_body header range_first blocks
    pub list : f.list ≡ blocks.list
    pub sending : (f.context).sending_ecn_ack ≡ c.sending_ecn_ack
    pub counting : IsCounting c → IsCounting (f.context)

  first-Plain :
      (opp : Bool) (room left now delay : ℕ) (c : AckContext) (s : SackList) (is_ecn : Bool)
      (last_sack : SackItem) (previous : List SackItem) (header : List ℕ) (range : Option (List ℕ))
      → IsFrom 0 s.items
      → s.items ≡ reverse_aux previous (last_sack ∷ [])
      → ack_header u64_max is_ecn last_sack.end_of_sack_range delay room ≡ some header
      → frames_varint_encode (sub64 last_sack.end_of_sack_range last_sack.start_of_sack_range) left
        ≡ range
      → let f = with_first_range opp left now c s last_sack previous header range in
        (f.bytes ≡ []) ⊎ Plain c s last_sack previous is_ecn delay f
  unfolding with_first_range no_frame put_blocks remember_sent with_act
  first-Plain opp room left now delay c s is_ecn last previous header none from whole h e = inl refl
  first-Plain opp room left now delay c s is_ecn last previous header (some first) from whole h e =
      let top = item_record_sent opp s (reverse previous) last [] in
      let (down, le, small) = IsFrom-IsDown 0 previous last [] (subst (IsFrom 0) whole from) in
      inr (record {
        header = header;
        range_first = first;
        blocks = put_blocks opp (left - length first) s last previous;
        room = room;
        left = left;
        opp = opp;
        header_lem = h;
        range_lem = e;
        chosen =
            ack_blocks-Written t opp _ _ (left - length first) last.start_of_sack_range 0 top
              previous (record_sent opp last ∷ []) (sent_whole t opp s last previous []) down
              (omega arith);
        bytes = refl;
        list = refl;
        sending = refl;
        counting = λ k. k;
      })

  pub ranges-Plain :
      (opp : Bool) (room now delay : ℕ) (c : AckContext) (s : SackList) (is_ecn : Bool)
      (last_sack : SackItem) (previous : List SackItem) (header : Option (List ℕ))
      → IsFrom 0 s.items
      → s.items ≡ reverse_aux previous (last_sack ∷ [])
      → ack_header u64_max is_ecn last_sack.end_of_sack_range delay room ≡ header
      → let f = ack_ranges_part opp room now c s last_sack previous header in
        (f.bytes ≡ []) ⊎ Plain c s last_sack previous is_ecn delay f
  unfolding ack_ranges_part no_frame
  ranges-Plain opp room now delay c s is_ecn last previous none from whole h = inl refl
  ranges-Plain opp room now delay c s is_ecn last previous (some header) from whole h =
      first-Plain opp room (room - length header - 1) now delay c s is_ecn last previous header _
        from whole h refl

  -- The frame is read as the acknowledgement of its ranges, whatever stands behind them.
  read-ranges :
      (s : SackList) (last_sack : SackItem) (previous : List SackItem) (is_ecn with_counters : Bool)
      (delay room left num : ℕ) (header first out rest : List ℕ) (picked : List SackItem)
      → ack_header u64_max is_ecn last_sack.end_of_sack_range delay room ≡ some header
      → frames_varint_encode (sub64 last_sack.end_of_sack_range last_sack.start_of_sack_range) left
        ≡ some first
      → IsBlocks last_sack.start_of_sack_range picked out
      → IsDown last_sack.start_of_sack_range picked
      → last_sack.start_of_sack_range ≤ last_sack.end_of_sack_range
      → last_sack.end_of_sack_range < 2 ^ 62
      → delay < 2 ^ 62
      → num ≡ length picked
      → num ≤ 32
      → process_ack_of_ack_frame t with_counters s ((header ++ (num ∷ (first ++ out))) ++ rest)
        ≡ read_ecn with_counters (acked t s (last_sack ∷ picked)) rest
  unfolding process_ack_of_ack_frame process_behind
  read-ranges s last previous is_ecn e delay room left num header first out rest picked h hf blocks
        down le small hd count few =
      let tail = first ++ (out ++ rest) in
      let regroup : (header ++ (num ∷ (first ++ out))) ++ rest ≡ header ++ (num ∷ tail) =
        append_assoc header (num ∷ (first ++ out)) rest
        ∙ ap (λ o. header ++ (num ∷ o)) (append_assoc first out rest) in
      let parsed =
        parse_ack_header-ack_header u64_max last.end_of_sack_range delay num room is_ecn header tail
          (inl refl) small hd (omega (arith, few)) h in
      ap (λ bytes. process_ack_of_ack_frame t e s bytes) regroup
      ∙ ap (λ r. process_behind t e s r) parsed
      ∙ ap (λ (k : ℕ). process_body t e k s last.end_of_sack_range tail) count
      ∙ process_body-written t e s last picked left first out rest le small down hf blocks

  -- The same of a frame that is known up to the counters, also with the header of another type.
  pub Plain-read :
      (c : AckContext) (s : SackList) (last_sack : SackItem) (previous : List SackItem)
      (is_ecn other with_counters : Bool) (delay : ℕ) (f : AckFrame) (header rest : List ℕ)
      (later : SackList)
      → IsFrom 0 s.items
      → s.items ≡ reverse_aux previous (last_sack ∷ [])
      → delay < 2 ^ 62
      → (p : Plain c s last_sack previous is_ecn delay f)
      → ack_header u64_max other last_sack.end_of_sack_range delay (p.room) ≡ some header
      → process_ack_of_ack_frame t with_counters later
          (ack_body header (p.range_first) (p.blocks) ++ rest)
        ≡ read_ecn with_counters (acked t later (last_sack ∷ (p.chosen).picked)) rest
  unfolding ack_body
  Plain-read c s last previous is_ecn other e delay f header rest later from whole hd p h =
      let (down, le, small) = IsFrom-IsDown 0 previous last [] (subst (IsFrom 0) whole from) in
      let w = p.chosen in
      read-ranges later last previous other e delay (p.room) (p.left) ((p.blocks).num_block) header
        (p.range_first) ((p.blocks).written) rest (w.picked) h (p.range_lem) (w.blocks) (w.down) le
        small hd (w.count) (omega (arith, w.few))
