-- ===== src/AckFrames/Queue/Exact.antt =====
-- The loop over the queue of sent packets (picoquic/frames.c) finds exactly the packets of the range.
use fair_queuing_aware_conge.Common.{
  ℕ, zero, suc, ◌+◌, ◌<◌, ◌≤◌, ◌≡◌, ap, ◌∙◌, ◌⊎◌, inl, inr, true, false, List, [], ◌∷◌, ◌++◌, some,
  All, length, ltb, sub64, IsU64, arith, Bool-cases,
}
use fair_queuing_aware_conge.AckFrames.Queue.{
  SentPacket, Walk, walk_start, walk_at, walk, process_ack_range,
}
use fair_queuing_aware_conge.AckFrames.Queue.Ranges.{
  in_range, Older, IsQueue, IsFree, Below, Older-Below, Below-lower, lower-IsFree,
}
use fair_queuing_aware_conge.AckFrames.Queue.Rounds.{
  IsExact, walk-over, walk-step, hit-IsExact, pass-IsExact, used_up-IsExact, nothing_left-IsExact,
  over_at-zero, over_without, goes_on, round_passes, round_hits, round_lowers, lower-IsExact,
}

module _ {S : Type 0} (on_acked : SentPacket → S → S) where
  abbrev Ends : ℕ → List SentPacket → List SentPacket → ℕ → ℕ → S → Type 0
  Ends fuel passed packets h r s =
      (v : Walk S) × (walk on_acked fuel (walk_start passed packets h r s) ≡ some v)
      × IsExact on_acked passed packets h r s v

  -- A round that goes on to another state of the loop.
  round-Ends :
      (fuel : ℕ) (passed passed' ps ps' : List SentPacket) (p : SentPacket) (h h' r r' : ℕ)
      (s s' : S)
      → walk_at on_acked (walk_start passed (p ∷ ps) h (suc r) s) (p ∷ ps)
        ≡ walk_start passed' ps' h' r' s'
      → ((v : Walk S)
          → IsExact on_acked passed' ps' h' r' s' v
          → IsExact on_acked passed (p ∷ ps) h (suc r) s v)
      → Ends fuel passed' ps' h' r' s'
      → Ends (suc fuel) passed (p ∷ ps) h (suc r) s
  round-Ends fuel passed passed' ps ps' p h h' r r' s s' moved f (v, done, e) = (
    v,
    walk-step on_acked fuel (walk_start passed (p ∷ ps) h (suc r) s)
          (goes_on on_acked passed ps p h r s)
        ∙ ap (walk on_acked fuel) moved
        ∙ done,
    f v e,
  )

  hit-Ends :
      (fuel : ℕ) (passed ps : List SentPacket) (p : SentPacket) (h r : ℕ) (s : S)
      → p.sequence ≡ h
      → in_range h (suc r) p ≡ true
      → p.is_ack_trap ≡ false
      → IsU64 h
      → Older p ps
      → (0 < h → Ends fuel passed ps (sub64 h 1) r (on_acked p s))
      → Ends (suc fuel) passed (p ∷ ps) h (suc r) s
  hit-Ends fuel passed [] p h r s same inside free small older rest =
      let last = walk_start passed [] (sub64 h 1) r (on_acked p s) in
      (
        last,
        walk-step on_acked fuel (walk_start passed (p ∷ []) h (suc r) s)
              (goes_on on_acked passed [] p h r s)
            ∙ ap (walk on_acked fuel) (round_hits on_acked passed [] p h r s same free)
            ∙ walk-over on_acked fuel last
                (over_without on_acked passed (sub64 h 1) r (on_acked p s)),
        hit-IsExact on_acked passed [] p h (suc r) s last inside
            (nothing_left-IsExact on_acked passed h (sub64 h 1) (suc r) r (on_acked p s)),
      )
  hit-Ends fuel passed (x ∷ xs) p h r s same inside free small older rest =
      let pos : 0 < h = omega (arith, older.0, same) in
      let below = Older-Below h p (x ∷ xs) (omega (arith, same)) older in
      round-Ends fuel passed passed (x ∷ xs) (x ∷ xs) p h (sub64 h 1) r r s (on_acked p s)
        (round_hits on_acked passed (x ∷ xs) p h r s same free)
        (λ v e.
          hit-IsExact on_acked passed (x ∷ xs) p h (suc r) s v inside
            (lower-IsExact on_acked passed (x ∷ xs) h r (on_acked p s) v pos small below e))
        (rest pos)

  walk-IsExact :
      (fuel : ℕ) (passed packets : List SentPacket) (h r : ℕ) (s : S)
      → IsU64 h
      → r ≤ h + 1
      → IsQueue packets
      → IsFree h r packets
      → (0 < r) ⊎ All (λ x. x.sequence ≤ h) packets
      → length packets + r ≤ fuel
      → Ends fuel passed packets h r s
  walk-IsExact fuel passed [] h r s small le q free low enough = (
    _,
    walk-over on_acked fuel (walk_start passed [] h r s) (over_without on_acked passed h r s),
    nothing_left-IsExact on_acked passed h h r r s,
  )
  walk-IsExact fuel passed (p ∷ ps) h zero s small le q free (inl some_) enough =
      absurd (omega (arith, some_))
  walk-IsExact fuel passed (p ∷ ps) h zero s small le q free (inr low) enough = (
    _,
    walk-over on_acked fuel (walk_start passed (p ∷ ps) h zero s)
        (over_at-zero on_acked passed (p ∷ ps) h s),
    used_up-IsExact on_acked passed (p ∷ ps) h s low,
  )
  walk-IsExact zero passed (p ∷ ps) h (suc r) s small le q free low enough =
      absurd (omega (arith, enough))
  walk-IsExact (suc fuel) passed (p ∷ ps) h (suc r) s small le (older, q) (f, free) low enough =
      elim (Bool-cases (ltb h p.sequence)) [
        | inl newer ↦
            round-Ends fuel passed (passed ++ (p ∷ [])) ps ps p h h r (suc r) s s
              (round_passes on_acked passed ps p h (suc r) s newer)
              (λ v e. pass-IsExact on_acked passed ps p h (suc r) s v (ground (arith, newer)) e)
              (walk-IsExact fuel (passed ++ (p ∷ [])) ps h (suc r) s small le q free
                (inl (omega arith)) (omega (arith, enough)))
        | inr not_newer ↦ elim (Bool-cases (ltb p.sequence h)) [
          | inl is_below ↦
              let below : p.sequence < h = ground (arith, is_below) in
              let pos : 0 < h = omega (arith, below) in
              let all_below : Below h (p ∷ ps) =
                (below, Older-Below h p ps (omega (arith, below)) older) in
              round-Ends fuel passed passed ps (p ∷ ps) p h (sub64 h 1) r r s s
                (round_lowers on_acked passed ps p h r s below)
                (λ v. lower-IsExact on_acked passed (p ∷ ps) h r s v pos small all_below)
                (walk-IsExact fuel passed (p ∷ ps) (sub64 h 1) r s (omega (arith, pos, small))
                  (omega (arith, pos, small, le)) (older, q)
                  (lower-IsFree h r (p ∷ ps) pos small all_below (f, free))
                  (inr (Below-lower h (p ∷ ps) pos small all_below)) (omega (arith, enough)))
          | inr not_below ↦
              let same : p.sequence ≡ h = ground (arith, not_newer, not_below) in
              let inside : in_range h (suc r) p ≡ true = ground (arith, same) in
              let below = Older-Below h p ps (omega (arith, same)) older in
              hit-Ends fuel passed ps p h r s same inside (ground (arith, f, inside)) small older
                (λ pos.
                  walk-IsExact fuel passed ps (sub64 h 1) r (on_acked p s)
                    (omega (arith, pos, small)) (omega (arith, pos, small, le)) q
                    (lower-IsFree h r ps pos small below free)
                    (inr (Below-lower h ps pos small below)) (omega (arith, enough)))
        ]
      ]

  -- Where the range is not empty and ends at the highest number or below, and holds no trap, the loop comes
  -- to its end: it takes exactly the packets of the range out of the queue, which keeps its order, does what
  -- is done for each of them once, from the newest to the oldest, and the packets from `*ppacket` on are
  -- those below the range.
  pub process_ack_range-IsExact :
      (highest range : ℕ) (packets : List SentPacket) (s : S)
      → IsU64 highest
      → 0 < range
      → range ≤ highest + 1
      → IsQueue packets
      → IsFree highest range packets
      → (v : Walk S) × (process_ack_range on_acked highest range packets s ≡ some v)
        × IsExact on_acked [] packets highest range s v
  unfolding process_ack_range
  process_ack_range-IsExact highest range packets s small pos le q free =
      walk-IsExact (length packets + range) [] packets highest range s small le q free (inl pos)
        (omega arith)
