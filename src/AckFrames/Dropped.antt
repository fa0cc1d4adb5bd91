-- ===== src/AckFrames/Dropped.antt =====
-- What an acknowledged ACK frame leaves of the list that it was written from (picoquic/frames.c and
-- picoquic/sacks.c), where there is no horizon.
use fair_queuing_aware_conge.Common.{
  ℕ, ◌<◌, ◌≤◌, ◌^◌, ◌≡◌, refl, sym, ◌∙◌, ap, inl, inr, Bool, true, false, not, ◌&&◌, ◌||◌, List, [],
  ◌∷◌, ◌++◌, ◌==◌, length, u64_max, arith,
}
use mathlib.Core.List.{reverse, reverse_aux, reverse_aux-eq}
use mathlib.Core.Path.{subst}
use fair_queuing_aware_conge.Common.Int.{pos, ltb_ℤ}
use fair_queuing_aware_conge.Sacks.{SackItem, SackList, Splay}
use fair_queuing_aware_conge.Sacks.Acks.{
  process_ack_of_ack_range, delete_item, cut_start, last_number,
}
use fair_queuing_aware_conge.Sacks.Ranges.{IsFrom, within, holds}
use fair_queuing_aware_conge.Sacks.Fronts.{IsFrom-node}
use fair_queuing_aware_conge.Sacks.AckOfAck.{process_ack_of_ack_range-IsTrimmed}
use fair_queuing_aware_conge.Sacks.AckOfAck.Dropped.{
  process_ack_of_ack_range-deletes, process_ack_of_ack_range-cuts, process_ack_of_ack_range-drops,
  apart,
}
use fair_queuing_aware_conge.Sacks.Acks.{AckContext}
use fair_queuing_aware_conge.Sacks.Reached.{Reached, Reached-IsSack}
use fair_queuing_aware_conge.AckFrames.Format.{
  AckConnection, ack_delay_of, stamp, format_ack_frame_in_context,
}
use fair_queuing_aware_conge.AckFrames.Acknowledges.{IsCounting}
use fair_queuing_aware_conge.AckFrames.Read.{process_ack_of_ack_frame}
use fair_queuing_aware_conge.AckFrames.Blocks.{acked}
use fair_queuing_aware_conge.AckFrames.Written.{IsPicked, no_range, passed_over, picked_up}
use fair_queuing_aware_conge.AckFrames.Answer.{
  Acknowledges, has_counters, holds-reverse_aux, format_ack_frame-Acknowledges,
}

-- The list has no horizon.
abbrev pub IsPlain : SackList → Type 0
IsPlain s = ltb_ℤ (pos 0) s.horizon_delay ≡ false

picked-held :
    {picked now : List SackItem} (n : ℕ)
    → IsPicked picked now
    → holds picked n ≡ true
    → holds now n ≡ true
picked-held n (no_range xs) h = absurd (ground (arith, h))
picked-held n (passed_over picked x xs rest) h = ground (arith, picked-held n rest, h)
picked-held n (picked_up picked x y xs lo hi rest) h =
    rw (lo, hi) (ground (arith, picked-held n rest, h))

-- The highest number that is left of the last range.
highest_left :
    (x : SackItem) (n : ℕ)
    → holds (cut_start x.end_of_sack_range x ∷ []) n ≡ (n == x.end_of_sack_range)
unfolding cut_start
highest_left x n = ground arith

-- The numbers that an ACK frame acknowledges, told from the list that it is written from and from the
-- list that is left once the frame has been acknowledged itself.
pub record Forgets (s after : SackList) (ranges : List SackItem) : Type 0 where
  pub held : (n : ℕ) → holds ranges n ≡ true → holds s.items n ≡ true
  pub highest : holds ranges (last_number s.items) ≡ true
  pub left :
      (n : ℕ)
      → holds after.items n
        ≡ (holds s.items n && (not (holds ranges n) || (n == last_number s.items)))

module _ (t : Splay) where
  -- A range that is acknowledged among others, with items behind it.
  drops_one :
      (s : SackList) (y : SackItem) (now : List SackItem) (z : SackItem) (behind : List SackItem)
      → s.items ≡ reverse_aux now (y ∷ (z ∷ behind))
      → IsFrom 0 s.items
      → IsPlain s
      → let s' = process_ack_of_ack_range t s y.start_of_sack_range y.end_of_sack_range in
        (s'.items ≡ reverse_aux now (z ∷ behind))
        × (IsFrom 0 s'.items)
        × (IsPlain s')
        × ((n : ℕ)
            → holds s'.items n
              ≡ (holds s.items n && not (within y.start_of_sack_range y.end_of_sack_range n)))
  unfolding delete_item
  drops_one s y now z behind whole from plain =
      let parts = whole ∙ reverse_aux-eq now (y ∷ (z ∷ behind)) in
      let from' = subst (IsFrom 0) parts from in
      let (k0, k1, k2, k3) = IsFrom-node 0 (reverse now) y (z ∷ behind) from' in
      let gone =
        process_ack_of_ack_range-deletes t s 0 (reverse now) y z behind parts from' plain in
      (
        ap (λ (l : SackList). l.items) gone ∙ sym (reverse_aux-eq now (z ∷ behind)),
        (process_ack_of_ack_range-IsTrimmed t s 0 y.start_of_sack_range y.end_of_sack_range from k1
              k2).order
            0 from,
        rw gone plain,
        λ n. process_ack_of_ack_range-drops t s 0 n (reverse now) y z behind parts from' plain,
      )

  -- The picked ranges go, and nothing else does.
  drops_picked :
      (s : SackList) (picked now : List SackItem) (z : SackItem) (behind : List SackItem) (n : ℕ)
      → s.items ≡ reverse_aux now (z ∷ behind)
      → IsFrom 0 s.items
      → IsPlain s
      → IsPicked picked now
      → holds (acked t s picked).items n ≡ (holds s.items n && not (holds picked n))
  drops_picked s [] now z behind n whole from plain (no_range _) = ground arith
  drops_picked s picked (_ ∷ _) z behind n whole from plain (passed_over _ x xs rest) =
      drops_picked s picked xs x (z ∷ behind) n whole from plain rest
  drops_picked s (_ ∷ _) (_ ∷ _) z behind n whole from plain (picked_up picked x y xs lo hi rest) =
      let (items, from', plain', held) = drops_one s y xs z behind whole from plain in
      let s' = process_ack_of_ack_range t s y.start_of_sack_range y.end_of_sack_range in
      let later = drops_picked s' picked xs z behind n items from' plain' rest in
      rw (sym lo, sym hi, later, held n) (ground arith)

  -- All the ranges of a frame, the highest one first.
  drops_all :
      (s : SackList) (x : SackItem) (picked now : List SackItem) (n : ℕ)
      → s.items ≡ reverse_aux now (x ∷ [])
      → IsFrom 0 s.items
      → IsPlain s
      → IsPicked picked now
      → holds (acked t s (x ∷ picked)).items n
        ≡ (holds s.items n && (not (holds (x ∷ picked) n) || (n == x.end_of_sack_range)))
  drops_all s x picked now n whole from plain some_of =
      let lo = x.start_of_sack_range in
      let hi = x.end_of_sack_range in
      let parts = whole ∙ reverse_aux-eq now (x ∷ []) in
      let from' = subst (IsFrom 0) parts from in
      let (k0, k1, k2, k3) = IsFrom-node 0 (reverse now) x [] from' in
      let cut = cut_start hi x in
      let s' = process_ack_of_ack_range t s lo hi in
      let gone : s' ≡ record s { items = reverse now ++ (cut ∷ []) } =
        process_ack_of_ack_range-cuts t s 0 (reverse now) x parts from' in
      let items : s'.items ≡ reverse_aux now (cut ∷ []) =
        ap (λ (l : SackList). l.items) gone ∙ sym (reverse_aux-eq now (cut ∷ [])) in
      let ordered = (process_ack_of_ack_range-IsTrimmed t s 0 lo hi from k1 k2).order 0 from in
      let left = drops_picked s' picked now cut [] n items ordered (rw gone plain) some_of in
      let before = ap (λ l. holds l n) items ∙ holds-reverse_aux now (cut ∷ []) n in
      let all = ap (λ l. holds l n) whole ∙ holds-reverse_aux now (x ∷ []) n in
      let separate : (holds now n && within lo hi n) ≡ false = ground (
        arith,
        apart 0 n (reverse now) x [] from',
        holds-reverse_aux now [] n,
        ap (λ l. holds l n) (reverse_aux-eq now []),
      ) in
      rw (left, before, highest_left x n, all) (ground (arith, separate, picked-held n some_of, k1))

  -- What the frame acknowledges is held.
  acknowledged-held :
      (s list : SackList) (frame : List ℕ) (n : ℕ)
      → (a : Acknowledges t s list frame) → holds (a.last_sack ∷ a.picked) n ≡ true
      → holds s.items n ≡ true
  acknowledged-held s list frame n a h =
      sym (a.same n)
      ∙ ap (λ l. holds l n) (a.items)
      ∙ holds-reverse_aux (a.now) (a.sent_last ∷ []) n
      ∙ rw (a.start, a.end) (ground (arith, h, picked-held n (a.some_of)))

  -- The list after the frame has been acknowledged, by what the frame acknowledges.
  processed-holds :
      (s list : SackList) (frame rest : List ℕ) (n : ℕ)
      → IsFrom 0 list.items
      → IsPlain list
      → (a : Acknowledges t s list frame)
      → holds (process_ack_of_ack_frame t (has_counters frame) list (frame ++ rest)).list.items n
        ≡ (holds s.items n
            && (not (holds (a.last_sack ∷ a.picked) n) || (n == last_number s.items)))
  processed-holds s list frame rest n from plain a =
      let last = a.sent_last in
      let same : acked t list (a.last_sack ∷ a.picked) ≡ acked t list (last ∷ a.picked) =
        rw (a.start, a.end) refl in
      rw
        (
          (a.read list rest).0,
          same,
          drops_all list last (a.picked) (a.now) n (a.items) from plain (a.some_of),
          a.same n,
          a.start,
          a.end,
          a.highest,
        )
        refl

  -- A list without a horizon that is not empty, an ACK frame that is written from it with room for 26
  -- bytes or more, and the acknowledgement of this frame: the frame acknowledges received numbers, the
  -- highest among them, and the list that is left holds what it held without these numbers, but for the
  -- highest one.
  pub format-process_ack_of_ack_frame :
      (cnx : AckConnection) (opp : Bool) (room now : ℕ) (c : AckContext) (s : SackList)
      (rest : List ℕ)
      → Reached t s
      → 0 < length s.items
      → IsPlain s
      → ack_delay_of cnx c now < 2 ^ 62
      → IsCounting c
      → 26 ≤ room
      → let f = (format_ack_frame_in_context cnx opp room now u64_max c s false).0 in
        (ranges : List SackItem) × Forgets s
          (process_ack_of_ack_frame t (has_counters f.bytes) f.list (f.bytes ++ rest)).list
          ranges
  unfolding stamp
  format-process_ack_of_ack_frame cnx opp room now c s rest r some_items plain hd counting le =
      let f = (format_ack_frame_in_context cnx opp room now u64_max c s false).0 in
      elim (format_ack_frame-Acknowledges t cnx opp room now c s false ((Reached-IsSack t r).order)
        hd counting) [
          | inl (_, inl none_there) ↦ absurd (omega (arith, some_items, ap length none_there))
          | inl (_, inr short) ↦ absurd (omega (arith, short, le))
          | inr (frame, (same, a)) ↦ (
            a.last_sack ∷ a.picked,
            record {
              held = λ n. acknowledged-held s f.list frame n a;
              highest = rw (a.highest) (ground (arith, a.not_empty));
              left = λ n. rw same (
                  processed-holds s f.list frame rest n ((Reached-IsSack t (a.reached r)).order)
                    (rw (a.delay) plain) a);
            },
          )
        ]
