-- ===== src/NewTonopah/Detection.antt =====
-- What new_tonopah_aggregate_intervals of picoquic/new_tonopah.c decides: with one interval required,
-- it compares the mean round trips of the newest interval that is finished on both paths.
use fair_queuing_aware_conge.Common.{
  ◌≡◌, refl, inl, inr, Bool, true, false, some, List, [], ◌∷◌, arith, ◌==◌, if◌then◌else◌,
  Bool-cases, add64,
}
use fair_queuing_aware_conge.Cc.{Doubles}
use fair_queuing_aware_conge.NewTonopah.{Side, IntervalInfo, ok, ◌>>=◌}
use fair_queuing_aware_conge.NewTonopah.Interval.{
  no_totals, add_side, detects, is_finished, add_interval, aggregate_loop, aggregate_intervals,
}
use fair_queuing_aware_conge.NewTonopah.Safety.{IsIntervals, IsRole, Roles}

module _ (d : Doubles) where
  open d use {Double, of_u64, plus, minus, over, less}

  -- The mean round trip of a path in an interval.
  abbrev pub mean : Side Double → Double
  mean side = over (plus (of_u64 0) side.rtt_sum) (of_u64 (add64 0 side.num_acks))

  -- The dominant path of the interval has a longer mean round trip, by more than 5 ms.
  unfoldable pub is_queued : IntervalInfo Double → Bool
  is_queued i =
      if i.dominant_path_id == 1
      then less (of_u64 5000) (minus (mean i.side1) (mean i.side2))
      else less (of_u64 5000) (minus (mean i.side2) (mean i.side1))

  -- The newest finished interval shows fair queuing.
  unfoldable pub shows_fair_queuing : List (IntervalInfo Double) → Bool
  shows_fair_queuing [] = false
  shows_fair_queuing (i ∷ prev) = if is_finished d i then is_queued i else shows_fair_queuing prev

  -- The totals of one interval give the two means.
  detects-add_interval :
      (i n : IntervalInfo Double)
      → IsRole i
      → (add_interval d i (some n) (no_totals d) (no_totals d) >>= λ (dominant, submissive).
          ok (detects d dominant submissive))
        ≡ ok (is_queued i)
  unfolding is_queued add_interval detects add_side
  detects-add_interval i n role = elim (Bool-cases (i.dominant_path_id == 1)) [
    | inl one ↦ rw one refl
    | inr two ↦
        let second : (i.dominant_path_id == 2) ≡ true = ground arith in rw (two, second) refl
  ]

  aggregate_loop-verdict :
      (list : List (IntervalInfo Double)) (n : IntervalInfo Double)
      → Roles list
      → aggregate_loop d list (some n) 0 (no_totals d) (no_totals d) ≡ ok (shows_fair_queuing list)
  unfolding aggregate_loop shows_fair_queuing
  aggregate_loop-verdict [] n h = refl
  aggregate_loop-verdict (i ∷ prev) n (role, roles) = elim (Bool-cases (is_finished d i)) [
    | inl done ↦ rw done (detects-add_interval i n role)
    | inr open_yet ↦ rw open_yet (aggregate_loop-verdict prev i roles)
  ]

  -- On a well-formed list the aggregation decides by the newest interval that is finished on both
  -- paths: fair queuing is seen if the mean round trip of the dominant path exceeds that of the
  -- other one by more than 5 ms there, and not if no interval is finished.
  pub aggregate_intervals-verdict :
      (list : List (IntervalInfo Double))
      → IsIntervals list
      → aggregate_intervals d list ≡ ok (shows_fair_queuing list)
  unfolding aggregate_intervals aggregate_loop shows_fair_queuing
  aggregate_intervals-verdict [] h = refl
  aggregate_intervals-verdict (i ∷ prev) h =
      rw (h.newest) (aggregate_loop-verdict prev i (h.roles.1))
