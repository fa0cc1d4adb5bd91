-- ===== src/AckFrames/Queue/Rounds.antt =====
-- One round of the loop over the queue of sent packets (picoquic/frames.c), and what it means for the end.
use fair_queuing_aware_conge.Common.{
  ℕ, zero, suc, ◌+◌, ◌-◌, ◌<◌, ◌≤◌, ◌≡◌, refl, sym, ap, ◌∙◌, true, false, not, List, [], ◌∷◌, ◌++◌,
  some, All, ltb, ◌==◌, sub64, IsU64, arith, append_assoc,
}
use mathlib.Core.Path.{subst}
use fair_queuing_aware_conge.AckFrames.Queue.{
  SentPacket, Walk, walk_start, lower, acknowledge_packet, walk_at, is_over, walk,
}
use fair_queuing_aware_conge.AckFrames.Queue.Ranges.{
  in_range, keep, outside, All-both, keep-agree, keep-none, keep-all, Below, same_range,
}

module _ {S : Type 0} (on_acked : SentPacket → S → S) where
  -- The packets, newest first, are acknowledged one after the other.
  abbrev pub acknowledge_all : List SentPacket → S → S
  acknowledge_all [] s = s
  acknowledge_all (x ∷ xs) s = acknowledge_all xs (on_acked x s)

  -- What the loop leaves behind.
  pub record IsExact (passed packets : List SentPacket) (highest range : ℕ) (s : S) (v : Walk S)
      : Type 0 where
    pub untrapped : v.is_trapped ≡ false
    pub queue : v.passed ++ v.packets ≡ passed ++ keep (outside highest range) packets
    pub acked : v.state ≡ acknowledge_all (keep (in_range highest range) packets) s
    pub next_place : All (λ x. x.sequence < highest + 1 - range) v.packets

  pub walk-over :
      (fuel : ℕ) (w : Walk S) → is_over on_acked w ≡ true → walk on_acked fuel w ≡ some w
  unfolding walk
  walk-over zero w over = rw over refl
  walk-over (suc fuel) w over = rw over refl

  pub walk-step :
      (fuel : ℕ) (w : Walk S)
      → is_over on_acked w ≡ false
      → walk on_acked (suc fuel) w ≡ walk on_acked fuel (walk_at on_acked w w.packets)
  unfolding walk
  walk-step fuel w on = rw on refl

  pub agree-IsExact :
      (passed packets : List SentPacket) (h h' r r' : ℕ) (s : S) (v : Walk S)
      → All (λ x. in_range h' r' x ≡ in_range h r x) packets
      → h' + 1 - r' ≡ h + 1 - r
      → IsExact passed packets h' r' s v
      → IsExact passed packets h r s v
  agree-IsExact passed packets h h' r r' s v same end e =
      let others =
        All-both (λ x. in_range h' r' x ≡ in_range h r x) (λ x. in_range h' r' x ≡ in_range h r x) _
          packets (λ x a b. ap not a) same same in
      record {
        untrapped = e.untrapped;
        queue =
            e.queue
            ∙ ap (λ xs. passed ++ xs) (keep-agree (outside h' r') (outside h r) packets others);
        acked =
            e.acked
            ∙ ap (λ xs. acknowledge_all xs s)
                (keep-agree (in_range h' r') (in_range h r) packets same);
        next_place = subst (λ (k : ℕ). All (λ x. x.sequence < k) v.packets) end e.next_place;
      }

  pub hit-IsExact :
      (passed xs : List SentPacket) (p : SentPacket) (h r : ℕ) (s : S) (v : Walk S)
      → in_range h r p ≡ true
      → IsExact passed xs h r (on_acked p s) v
      → IsExact passed (p ∷ xs) h r s v
  hit-IsExact passed xs p h r s v inside e = record {
    untrapped = e.untrapped;
    queue = rw inside e.queue;
    acked = rw inside e.acked;
    next_place = e.next_place;
  }

  pub pass-IsExact :
      (passed xs : List SentPacket) (p : SentPacket) (h r : ℕ) (s : S) (v : Walk S)
      → in_range h r p ≡ false
      → IsExact (passed ++ (p ∷ [])) xs h r s v
      → IsExact passed (p ∷ xs) h r s v
  pass-IsExact passed xs p h r s v out e = record {
    untrapped = e.untrapped;
    queue = rw out (e.queue ∙ append_assoc passed (p ∷ []) _);
    acked = rw out e.acked;
    next_place = e.next_place;
  }

  -- The loop ends where the range is used up.
  pub used_up-IsExact :
      (passed packets : List SentPacket) (h : ℕ) (s : S)
      → All (λ x. x.sequence ≤ h) packets
      → IsExact passed packets h 0 s (walk_start passed packets h 0 s)
  used_up-IsExact passed packets h s low =
      let P = λ (x : SentPacket). x.sequence ≤ h in
      let none_in =
        All-both P P (λ x. in_range h 0 x ≡ false) packets (λ x a b. ground (arith, a)) low low in
      let all_out =
        All-both P P (λ x. outside h 0 x ≡ true) packets (λ x a b. ground (arith, a)) low low in
      record {
        untrapped = refl;
        queue = ap (λ xs. passed ++ xs) (sym (keep-all (outside h 0) packets all_out));
        acked = ap (λ xs. acknowledge_all xs s) (sym (keep-none (in_range h 0) packets none_in));
        next_place =
            All-both P P (λ x. x.sequence < h + 1 - 0) packets (λ x a b. omega (arith, a)) low low;
      }

  pub nothing_left-IsExact :
      (passed : List SentPacket) (h h' r r' : ℕ) (s : S)
      → IsExact passed [] h r s (walk_start passed [] h' r' s)
  nothing_left-IsExact passed h h' r r' s = record {
    untrapped = refl;
    queue = refl;
    acked = refl;
    next_place = tt;
  }

  -- Where the loop is at its end, and where not.
  pub over_at-zero :
      (passed packets : List SentPacket) (h : ℕ) (s : S)
      → is_over on_acked (walk_start passed packets h 0 s) ≡ true
  unfolding is_over
  over_at-zero passed packets h s = ground arith

  pub over_without :
      (passed : List SentPacket) (h r : ℕ) (s : S)
      → is_over on_acked (walk_start passed [] h r s) ≡ true
  unfolding is_over
  over_without passed h r s = ground arith

  pub goes_on :
      (passed packets : List SentPacket) (p : SentPacket) (h r : ℕ) (s : S)
      → is_over on_acked (walk_start passed (p ∷ packets) h (suc r) s) ≡ false
  unfolding is_over
  goes_on passed packets p h r s = ground arith

  -- What a round does, by the number of the packet.
  pub round_passes :
      (passed ps : List SentPacket) (p : SentPacket) (h r : ℕ) (s : S)
      → ltb h p.sequence ≡ true
      → walk_at on_acked (walk_start passed (p ∷ ps) h r s) (p ∷ ps)
        ≡ walk_start (passed ++ (p ∷ [])) ps h r s
  unfolding walk_at
  round_passes passed ps p h r s newer = rw newer refl

  pub round_hits :
      (passed ps : List SentPacket) (p : SentPacket) (h r : ℕ) (s : S)
      → p.sequence ≡ h
      → p.is_ack_trap ≡ false
      → walk_at on_acked (walk_start passed (p ∷ ps) h (suc r) s) (p ∷ ps)
        ≡ walk_start passed ps (sub64 h 1) r (on_acked p s)
  unfolding walk_at acknowledge_packet lower
  round_hits passed ps p h r s same free =
      let not_newer : ltb h p.sequence ≡ false = ground (arith, same) in
      let equal : (p.sequence == h) ≡ true = ground (arith, same) in
      let down : suc r - 1 ≡ r = omega arith in rw (not_newer, equal, free, down) refl

  pub round_lowers :
      (passed ps : List SentPacket) (p : SentPacket) (h r : ℕ) (s : S)
      → p.sequence < h
      → walk_at on_acked (walk_start passed (p ∷ ps) h (suc r) s) (p ∷ ps)
        ≡ walk_start passed (p ∷ ps) (sub64 h 1) r s
  unfolding walk_at lower
  round_lowers passed ps p h r s below =
      let not_newer : ltb h p.sequence ≡ false = ground (arith, below) in
      let other : (p.sequence == h) ≡ false = ground (arith, below) in
      let down : suc r - 1 ≡ r = omega arith in rw (not_newer, other, down) refl

  -- A range that is lowered by a number that no packet behind has.
  pub lower-IsExact :
      (passed packets : List SentPacket) (h r : ℕ) (s : S) (v : Walk S)
      → 0 < h
      → IsU64 h
      → Below h packets
      → IsExact passed packets (sub64 h 1) r s v
      → IsExact passed packets h (suc r) s v
  lower-IsExact passed packets h r s v pos small below =
      agree-IsExact passed packets h (sub64 h 1) (suc r) r s v
        (same_range h r packets pos small below) (omega (arith, pos, small))
