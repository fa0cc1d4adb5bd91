-- ===== src/AckFrames/Answer.antt =====
-- The whole ACK frame of a context (picoquic/frames.c, `picoquic_format_ack_frame_in_context`): the ranges
-- that it acknowledges, and the list that it leaves.
use fair_queuing_aware_conge.Common.{
  ℕ, ◌-◌, ◌<◌, ◌≤◌, ◌^◌, ◌≡◌, refl, sym, ◌∙◌, ap, ◌⊎◌, inl, inr, Bool, true, false, ◌&&◌, ◌||◌,
  List, [], ◌∷◌, ◌++◌, Option, none, some, length, append_assoc, append_nil, ltb, ltb→lt, ◌==◌,
  u64_max, arith, Bool-cases,
}
use mathlib.Core.List.{reverse, reverse_aux, reverse_aux-eq, reverse-reverse}
use mathlib.Core.Path.{subst}
use fair_queuing_aware_conge.Sacks.{SackItem, SackList, Splay, record_sent}
use fair_queuing_aware_conge.Sacks.Acks.{AckContext, item_record_sent, last_number}
use fair_queuing_aware_conge.Sacks.AckOfAck.{last_number-append}
use fair_queuing_aware_conge.Sacks.Ranges.{IsFrom, holds}
use fair_queuing_aware_conge.Sacks.Reached.{Reached}
use fair_queuing_aware_conge.AckFrames.{ack_header}
use fair_queuing_aware_conge.AckFrames.Format.{
  AckFrame, AckConnection, ack_body, ack_delay_of, ack_ranges_part, ecn_counters, set_type_ack,
  add_counters, with_ecn, clear_needed, ack_frame, stamp, format_ack_frame_in_context,
}
use fair_queuing_aware_conge.AckFrames.Read.{read_ecn, process_ack_of_ack_frame}
use fair_queuing_aware_conge.AckFrames.Blocks.{acked}
use fair_queuing_aware_conge.AckFrames.Written.{IsPicked, sent-Reached}
use fair_queuing_aware_conge.AckFrames.RoundTrip.{
  IsFrom-IsDown, last-whole, type_byte, ack_header-retyped,
}
use fair_queuing_aware_conge.Frames.Skip.{skip_ack_frame_maybe_ecn}
use fair_queuing_aware_conge.AckFrames.Skipped.{skip_three-written, Plain-skip}
use fair_queuing_aware_conge.AckFrames.Fits.{ack_frame-some}
use fair_queuing_aware_conge.AckFrames.Acknowledges.{
  IsCounting, read_to_end, read_ecn-written, Plain, ranges-Plain, Plain-read,
}

-- The frame type tells whether there are counters: picoquic_frame_type_ack_ecn.
abbrev pub has_counters : List ℕ → Bool
has_counters [] = false
has_counters (first ∷ bytes) = first == 0x03

pub holds-reverse_aux :
    (xs ys : List SackItem) (n : ℕ) → holds (reverse_aux xs ys) n ≡ (holds xs n || holds ys n)
holds-reverse_aux [] ys n = refl
holds-reverse_aux (x ∷ xs) ys n = holds-reverse_aux xs (x ∷ ys) n ∙ ground arith

with_ecn-off : (room : ℕ) (f : AckFrame) → (f.context).sending_ecn_ack ≡ false → with_ecn room f ≡ f
unfolding with_ecn
with_ecn-off room f h =
    let skip : (ltb 0 (length f.bytes) && (f.context).sending_ecn_ack) ≡ false =
      ground (arith, h) in
    rw skip refl

with_ecn-on :
    (room : ℕ) (f : AckFrame) (b : ℕ) (bytes : List ℕ)
    → f.bytes ≡ b ∷ bytes
    → (f.context).sending_ecn_ack ≡ true
    → with_ecn room f ≡ add_counters f (ecn_counters f.context (room - length f.bytes))
unfolding with_ecn
with_ecn-on room f b bytes starts h =
    let go : (ltb 0 (length f.bytes) && (f.context).sending_ecn_ack) ≡ true =
      rw (starts, h) (ground arith) in
    rw go refl

with_ecn-nothing : (room : ℕ) (f : AckFrame) → f.bytes ≡ [] → with_ecn room f ≡ f
unfolding with_ecn
with_ecn-nothing room f h =
    let skip : (ltb 0 (length f.bytes) && (f.context).sending_ecn_ack) ≡ false =
      rw h (ground arith) in
    rw skip refl

clear_needed-bytes : (opp : Bool) (f : AckFrame) → f.bytes ≡ (clear_needed opp f).bytes
unfolding clear_needed
clear_needed-bytes opp f = elim (Bool-cases (ltb 0 (length f.bytes))) [
  | inl some_bytes ↦ rw some_bytes refl
  | inr no_bytes ↦ rw no_bytes refl
]

clear_needed-list : (opp : Bool) (f : AckFrame) → f.list ≡ (clear_needed opp f).list
unfolding clear_needed
clear_needed-list opp f = elim (Bool-cases (ltb 0 (length f.bytes))) [
  | inl some_bytes ↦ rw some_bytes refl
  | inr no_bytes ↦ rw no_bytes refl
]

-- A frame is missing only where there is nothing to acknowledge or no room.
why :
    (cnx : AckConnection) (opp : Bool) (room now : ℕ) (c : AckContext) (s : SackList)
    (items : List SackItem)
    → reverse s.items ≡ items
    → (ack_frame cnx opp room now u64_max c s items).bytes ≡ []
    → (s.items ≡ []) ⊎ (room < 26)
why cnx opp room now c s [] h nothing = inl (sym (reverse-reverse s.items) ∙ ap reverse h)
why cnx opp room now c s (last ∷ previous) h nothing = elim (Bool-cases (ltb room 26)) [
  | inl short ↦ inr (ltb→lt room 26 short)
  | inr enough ↦
      let written = ack_frame-some cnx opp room now c s last previous (ground (arith, enough)) in
      absurd (omega (arith, written, ap length nothing))
]

module _ (t : Splay) where
  -- Whatever list is there when the frame is acknowledged, and whatever stands behind the frame, it is
  -- processed as the acknowledgement of the ranges, and to its end; it is passed over to the same end.
  abbrev pub ReadsAs : List SackItem → List ℕ → Type 0
  ReadsAs ranges bytes =
      (later : SackList) (rest : List ℕ)
      → (process_ack_of_ack_frame t (has_counters bytes) later (bytes ++ rest)
          ≡ read_to_end (acked t later ranges) rest)
        × (skip_ack_frame_maybe_ecn (has_counters bytes) false (bytes ++ rest) ≡ some rest)

  -- The bytes are an ACK frame of ranges of the list `s`, the highest of them and some of the others; the
  -- list that is left has the same ranges, some of them sent once more.
  pub record Acknowledges (s list : SackList) (bytes : List ℕ) : Type 0 where
    pub last_sack : SackItem
    pub sent_last : SackItem
    pub picked : List SackItem
    pub now : List SackItem
    pub start : sent_last.start_of_sack_range ≡ last_sack.start_of_sack_range
    pub end : sent_last.end_of_sack_range ≡ last_sack.end_of_sack_range
    pub not_empty : last_sack.start_of_sack_range ≤ last_sack.end_of_sack_range
    pub highest : last_number s.items ≡ last_sack.end_of_sack_range
    pub items : list.items ≡ reverse_aux now (sent_last ∷ [])
    pub some_of : IsPicked picked now
    pub few : length picked ≤ 32
    pub same : (n : ℕ) → holds list.items n ≡ holds s.items n
    pub delay : list.horizon_delay ≡ s.horizon_delay
    pub reached : Reached t s → Reached t list
    pub read : ReadsAs (last_sack ∷ picked) bytes

  -- From what is written up to the counters to what is read.
  Plain-Acknowledges :
      (c : AckContext) (s : SackList) (last_sack : SackItem) (previous : List SackItem)
      (is_ecn : Bool) (delay : ℕ) (f : AckFrame) (bytes : List ℕ)
      → IsFrom 0 s.items
      → s.items ≡ reverse_aux previous (last_sack ∷ [])
      → (p : Plain t c s last_sack previous is_ecn delay f)
      → ReadsAs (last_sack ∷ (p.chosen).picked) bytes
      → Acknowledges s f.list bytes
  unfolding record_sent item_record_sent last_number
  Plain-Acknowledges c s last previous is_ecn delay f bytes from whole p read =
      let w = p.chosen in
      record {
        last_sack = last;
        sent_last = record_sent (p.opp) last;
        picked = w.picked;
        now = w.now;
        start = refl;
        end = refl;
        not_empty = (IsFrom-IsDown 0 previous last [] (subst (IsFrom 0) whole from)).1;
        highest =
            ap last_number (whole ∙ reverse_aux-eq previous (last ∷ []))
            ∙ last_number-append (reverse previous) last [];
        items = ap (λ (l : SackList). l.items) (p.list) ∙ w.items;
        some_of = w.some_of;
        few = omega (arith, w.few, w.count);
        same = λ n.
            ap (λ (l : SackList). holds l.items n) (p.list)
            ∙ ap (λ items. holds items n) (w.items)
            ∙ holds-reverse_aux (w.now) (record_sent (p.opp) last ∷ []) n
            ∙ ap (λ b. b || holds (last ∷ []) n) (w.same n)
            ∙ sym (holds-reverse_aux previous (last ∷ []) n)
            ∙ ap (λ items. holds items n) (sym whole);
        delay = ap (λ (l : SackList). l.horizon_delay) (p.list) ∙ w.delay;
        reached = λ h.
            subst (Reached t) (sym (p.list))
              (w.reached (sent-Reached t (p.opp) s last previous [] whole h));
        read = read;
      }

  -- The list of a frame to which the counters are added.
  add_counters-Acknowledges :
      (c : AckContext) (s : SackList) (last_sack : SackItem) (previous : List SackItem) (delay : ℕ)
      (f : AckFrame) (counters : Option (List ℕ)) (room : ℕ)
      → IsFrom 0 s.items
      → s.items ≡ reverse_aux previous (last_sack ∷ [])
      → delay < 2 ^ 62
      → IsCounting c
      → (p : Plain t c s last_sack previous true delay f) → ecn_counters f.context room ≡ counters
      → Acknowledges s (add_counters f counters).list (add_counters f counters).bytes
  unfolding add_counters ack_body set_type_ack read_ecn
  add_counters-Acknowledges c s last previous delay f none room from whole hd counting p h =
      let (tail, (starts, retyped)) =
        ack_header-retyped last.end_of_sack_range delay (p.room) true (p.header) (p.header_lem) in
      let body = ack_body (0x02 ∷ tail) (p.range_first) (p.blocks) in
      let new : body ≡ set_type_ack f.bytes =
        sym (ap set_type_ack (p.bytes ∙ ap (λ h. ack_body h (p.range_first) (p.blocks)) starts)) in
      Plain-Acknowledges c s last previous true delay f (set_type_ack f.bytes) from whole p (
        subst (ReadsAs (last ∷ (p.chosen).picked)) new (λ later rest. (
          Plain-read t c s last previous true false false delay f (0x02 ∷ tail) rest later from
              whole hd p retyped,
          Plain-skip t c s last previous true false false delay f (0x02 ∷ tail) rest from whole hd p
              retyped,
        )))
  add_counters-Acknowledges c s last previous delay f (some counters) room from whole hd counting p
        h =
      let (tail, (starts, retyped)) =
        ack_header-retyped last.end_of_sack_range delay (p.room) true (p.header) (p.header_lem) in
      let ranges = last ∷ (p.chosen).picked in
      let body = ack_body (0x03 ∷ tail) (p.range_first) (p.blocks) in
      let own : ack_header u64_max true last.end_of_sack_range delay (p.room) ≡ some (0x03 ∷ tail) =
        p.header_lem ∙ ap some starts in
      let same : body ++ counters ≡ f.bytes ++ counters = sym (
        ap (λ b. b ++ counters)
          (p.bytes ∙ ap (λ h. ack_body h (p.range_first) (p.blocks)) starts)) in
      Plain-Acknowledges c s last previous true delay f (f.bytes ++ counters) from whole p (
        subst (ReadsAs ranges) same (λ later rest. (
          ap (λ b. process_ack_of_ack_frame t true later b) (append_assoc body counters rest)
              ∙ Plain-read t c s last previous true true true delay f (0x03 ∷ tail)
                  (counters ++ rest) later from whole hd p own
              ∙ read_ecn-written f.context (acked t later ranges) room counters rest
                  (p.counting counting) h,
          ap (λ b. skip_ack_frame_maybe_ecn true false b) (append_assoc body counters rest)
              ∙ Plain-skip t c s last previous true true true delay f (0x03 ∷ tail)
                  (counters ++ rest) from whole hd p own
              ∙ skip_three-written f.context room counters rest (p.counting counting) h,
        )))

  -- The frame without counters.
  off-Acknowledges :
      (c : AckContext) (s : SackList) (last_sack : SackItem) (previous : List SackItem) (delay : ℕ)
      (f : AckFrame)
      → IsFrom 0 s.items
      → s.items ≡ reverse_aux previous (last_sack ∷ [])
      → delay < 2 ^ 62
      → Plain t c s last_sack previous false delay f
      → Acknowledges s f.list f.bytes
  unfolding ack_body read_ecn
  off-Acknowledges c s last previous delay f from whole hd p =
      let (tail, (starts, retyped)) =
        ack_header-retyped last.end_of_sack_range delay (p.room) false (p.header) (p.header_lem) in
      let body = ack_body (0x02 ∷ tail) (p.range_first) (p.blocks) in
      let same : body ≡ f.bytes =
        sym (p.bytes ∙ ap (λ h. ack_body h (p.range_first) (p.blocks)) starts) in
      Plain-Acknowledges c s last previous false delay f f.bytes from whole p (
        subst (ReadsAs (last ∷ (p.chosen).picked)) same (λ later rest. (
          Plain-read t c s last previous false false false delay f (0x02 ∷ tail) rest later from
              whole hd p retyped,
          Plain-skip t c s last previous false false false delay f (0x02 ∷ tail) rest from whole hd
              p retyped,
        )))

  first_byte :
      (c : AckContext) (s : SackList) (last_sack : SackItem) (previous : List SackItem)
      (is_ecn : Bool) (delay : ℕ) (f : AckFrame)
      → Plain t c s last_sack previous is_ecn delay f
      → (b : ℕ) × ((bytes : List ℕ) × (f.bytes ≡ b ∷ bytes))
  unfolding ack_body
  first_byte c s last previous is_ecn delay f p =
      let (tail, (starts, retyped)) =
        ack_header-retyped last.end_of_sack_range delay (p.room) is_ecn (p.header) (p.header_lem) in
      (type_byte is_ecn, (_, p.bytes ∙ ap (λ h. ack_body h (p.range_first) (p.blocks)) starts))

  -- The counters are written, or the frame gets the type of one without them.
  with_ecn-Acknowledges :
      (c : AckContext) (s : SackList) (last_sack : SackItem) (previous : List SackItem)
      (room delay : ℕ) (is_ecn : Bool) (f : AckFrame)
      → IsFrom 0 s.items
      → s.items ≡ reverse_aux previous (last_sack ∷ [])
      → delay < 2 ^ 62
      → IsCounting c
      → c.sending_ecn_ack ≡ is_ecn
      → Plain t c s last_sack previous is_ecn delay f
      → Acknowledges s (with_ecn room f).list (with_ecn room f).bytes
  with_ecn-Acknowledges c s last previous room delay false f from whole hd counting e p =
      rw (with_ecn-off room f (p.sending ∙ e))
        (off-Acknowledges c s last previous delay f from whole hd p)
  with_ecn-Acknowledges c s last previous room delay true f from whole hd counting e p =
      let (b, (bytes, starts)) = first_byte c s last previous true delay f p in
      rw (with_ecn-on room f b bytes starts (p.sending ∙ e)) (
        add_counters-Acknowledges c s last previous delay f _ (room - length f.bytes) from whole hd
          counting p refl)

  -- An ACK frame that is written for an ordered list, on a connection without multipath, acknowledges the
  -- last range and some of the others; it is read so whether or not the counters found room.
  pub ack_frame-Acknowledges :
      (cnx : AckConnection) (opp : Bool) (room now : ℕ) (c : AckContext) (s : SackList)
      (items : List SackItem)
      → IsFrom 0 s.items
      → reverse s.items ≡ items
      → ack_delay_of cnx c now < 2 ^ 62
      → IsCounting c
      → let f = ack_frame cnx opp room now u64_max c s items in
        (f.bytes ≡ []) ⊎ Acknowledges s f.list f.bytes
  unfolding ack_frame
  ack_frame-Acknowledges cnx opp room now c s [] from h hd counting = inl refl
  ack_frame-Acknowledges cnx opp room now c s (last ∷ previous) from h hd counting =
      let delay = ack_delay_of cnx c now in
      let whole = last-whole s.items last previous h in
      let f =
        ack_ranges_part opp room now c s last previous
          (ack_header u64_max c.sending_ecn_ack last.end_of_sack_range delay room) in
      elim (ranges-Plain t opp room now delay c s c.sending_ecn_ack last previous _ from whole
        refl) [
          | inl nothing ↦ inl (
              sym (clear_needed-bytes opp (with_ecn room f))
              ∙ ap (λ (g : AckFrame). g.bytes) (with_ecn-nothing room f nothing)
              ∙ nothing)
          | inr p ↦
              let answer =
                with_ecn-Acknowledges c s last previous room delay c.sending_ecn_ack f from whole hd
                  counting refl p in
              inr (
                subst (λ l. Acknowledges s l (clear_needed opp (with_ecn room f)).bytes)
                  (clear_needed-list opp (with_ecn room f))
                  (subst (λ b. Acknowledges s (with_ecn room f).list b)
                    (clear_needed-bytes opp (with_ecn room f)) answer))
        ]

  -- What picoquic_format_ack_frame_in_context writes for an ordered list, on a connection without
  -- multipath, is the time stamp where it is due and an ACK frame of the last range and up to 32 of the
  -- others; the frame is missing only where the list is empty or less than 26 bytes of room are left.
  -- Processing this frame acknowledges exactly these ranges, whatever list there is by then, whatever
  -- stands behind the frame, and whether or not the counters found room, and skipping it ends where it
  -- ends. The list that is left holds the same numbers.
  pub format_ack_frame-Acknowledges :
      (cnx : AckConnection) (opp : Bool) (room now : ℕ) (c : AckContext) (s : SackList)
      (stamped : Bool)
      → IsFrom 0 s.items
      → ack_delay_of cnx c now < 2 ^ 62
      → IsCounting c
      → let f = (format_ack_frame_in_context cnx opp room now u64_max c s stamped).0 in
        let front = (stamp cnx stamped room now s).0 in
        ((f.bytes ≡ front) × ((s.items ≡ []) ⊎ (room - length front < 26)))
        ⊎ ((frame : List ℕ) × ((f.bytes ≡ front ++ frame) × Acknowledges s f.list frame))
  unfolding format_ack_frame_in_context
  format_ack_frame-Acknowledges cnx opp room now c s stamped from hd counting =
      let front = (stamp cnx stamped room now s).0 in
      let left = room - length front in
      elim (ack_frame-Acknowledges cnx opp left now c s (reverse s.items) from refl hd counting) [
        | inr answer ↦ inr (_, (refl, answer))
        | inl nothing ↦ inl (
          ap (λ b. front ++ b) nothing ∙ append_nil front,
          why cnx opp left now c s (reverse s.items) refl nothing,
        )
      ]
