-- ===== src/Fastcc/Freeze.antt =====
-- The freeze of FastCC (picoquic/fastcc.c): what a reduction does, and what may happen before it is over.
use fair_queuing_aware_conge.Common.{
  ℕ, ◌/◌, ◌<◌, ◌≤◌, ◌≡◌, refl, ◌∙◌, ap, ◌⊎◌, inl, inr, Bool, true, false, not, ◌&&◌, ◌||◌, max,
  ◌==◌, ltb, leb, if◌then◌else◌, arith, add64, Bool-cases,
}
use fair_queuing_aware_conge.Cc.{
  Doubles, Notification, acknowledgement, repeat, timeout, spurious_repeat, rtt_measurement,
  bw_measurement, ecn_ec, cwin_blocked, seed_cwin, cwin_minimum,
}
use fair_queuing_aware_conge.Cc.Path.{PathState, Cnx}
use fair_queuing_aware_conge.Cc.RttFilter.{filter_rtt_min_max, hystart_loss_test}
use fair_queuing_aware_conge.Cc.Pacing.{update_pacing_data}
use fair_queuing_aware_conge.Cc.Pacing.Rate.{update_pacing_data-IsUpdated}
use fair_queuing_aware_conge.Fastcc.{
  freeze, is_freeze, is_initial, FastccState, reduced_cwin, is_ignored, frozen_state,
  notify_congestion, leave_freeze, roll_epoch, add_sample, evaluate, loss, fastcc_seed_cwin,
  fastcc_switch, fastcc_notify,
}

module _ (d : Doubles) where
  open d use {Double}

  reduced_cwin-min :
      (cwin : ℕ) (is_delay is_timeout : Bool)
      → cwin_minimum ≤ reduced_cwin d cwin is_delay is_timeout
  unfolding reduced_cwin
  reduced_cwin-min cwin is_delay is_timeout = ground arith

  reduced_cwin-loss :
      (cwin : ℕ) (is_delay is_timeout : Bool)
      → (reduced_cwin d cwin is_delay is_timeout
          ≡ (if is_timeout then cwin_minimum else max (cwin / 2) cwin_minimum))
        ⊎ ((is_delay ≡ true) × (is_timeout ≡ false))
  unfolding reduced_cwin
  reduced_cwin-loss cwin is_delay true = inl refl
  reduced_cwin-loss cwin true false = inr (refl, refl)
  reduced_cwin-loss cwin false false = inl (ground arith)

  -- A congestion event that is not ignored begins a freeze of one smallest round trip, or to the
  -- acknowledgement of the packets that have been sent. The window becomes the minimum after a timeout,
  -- and is halved, but for the minimum, after another loss or a mark; in any case it is the minimum or
  -- above.
  pub notify_congestion-reduces :
      (is_default : Bool) (cnx : Cnx) (p : PathState) (s : FastccState Double) (now : ℕ)
      (is_delay is_timeout : Bool)
      → is_ignored d s is_delay is_timeout ≡ false
      → let (cnx', q, t) = notify_congestion d is_default cnx p s now is_delay is_timeout in
        (t.alg_state ≡ freeze)
        × (t.end_of_freeze ≡ add64 now s.rtt_min)
        × (t.recovery_sequence ≡ p.packet_number)
        × (cwin_minimum ≤ q.cwin)
        × ((q.cwin ≡ (if is_timeout then cwin_minimum else max (p.cwin / 2) cwin_minimum))
            ⊎ ((is_delay ≡ true) × (is_timeout ≡ false)))
  unfolding notify_congestion frozen_state
  notify_congestion-reduces is_default cnx p s now is_delay is_timeout h =
      let reduced = record p { cwin = reduced_cwin d p.cwin is_delay is_timeout } in
      let same : (update_pacing_data d cnx is_default reduced false).1.cwin
          ≡ reduced_cwin d p.cwin is_delay is_timeout =
        (update_pacing_data-IsUpdated d cnx is_default reduced false).window in
      rw (h, same)
        (
          refl,
          refl,
          refl,
          reduced_cwin-min p.cwin is_delay is_timeout,
          reduced_cwin-loss p.cwin is_delay is_timeout,
        )

  -- The notifications that leave a freeze as it is: not a reset, and a timeout only if
  -- none began it.
  pub data IsQuiet (s : FastccState Double) : Notification → Type 0 where
    acknowledged : IsQuiet s acknowledgement
    repeated : IsQuiet s repeat
    timed_out : s.last_freeze_was_timeout ≡ false → IsQuiet s timeout
    spurious : IsQuiet s spurious_repeat
    measured : IsQuiet s rtt_measurement
    bandwidth : IsQuiet s bw_measurement
    marked : IsQuiet s ecn_ec
    blocked : IsQuiet s cwin_blocked
    seeded : IsQuiet s seed_cwin

  -- The freeze as it was: the window, the state and the end.
  pub record IsKept (p : PathState) (s : FastccState Double)
      (r : Cnx × PathState × FastccState Double) : Type 0 where
    pub window : r.1.cwin ≡ p.cwin
    pub state : r.2.alg_state ≡ freeze
    pub end : r.2.end_of_freeze ≡ s.end_of_freeze
    pub sequence : r.2.recovery_sequence ≡ s.recovery_sequence
    pub by_timeout : r.2.last_freeze_was_timeout ≡ s.last_freeze_was_timeout

  unchanged :
      (cnx : Cnx) (p : PathState) (s : FastccState Double)
      → s.alg_state ≡ freeze
      → IsKept p s (cnx, p, s)
  unchanged cnx p s frozen = record {
    window = refl;
    state = frozen;
    end = refl;
    sequence = refl;
    by_timeout = refl;
  }

  -- The parts of the state that a sample leaves alone.
  abbrev SameFreeze : FastccState Double → FastccState Double → Type 0
  SameFreeze t s =
      (t.alg_state ≡ s.alg_state)
      × (t.end_of_freeze ≡ s.end_of_freeze)
      × (t.recovery_sequence ≡ s.recovery_sequence)
      × (t.last_freeze_was_timeout ≡ s.last_freeze_was_timeout)

  either_frame :
      (s : FastccState Double) (c : Bool) (a b : FastccState Double)
      → SameFreeze a s
      → SameFreeze b s
      → SameFreeze (if c then a else b) s
  either_frame s true a b h k = h
  either_frame s false a b h k = k

  epoch-frame : (s : FastccState Double) (now : ℕ) → SameFreeze (roll_epoch d s now) s
  unfolding roll_epoch
  epoch-frame s now = elim (Bool-cases (ltb s.end_of_epoch now)) [
    | inl over ↦ rw over (refl, refl, refl, refl)
    | inr running ↦
        elim (Bool-cases
          (ltb (s.rtt_filter).sample_max s.rolling_rtt_min || (s.rolling_rtt_min == 0))) [
            | inl lower ↦ rw (running, lower) (refl, refl, refl, refl)
            | inr higher ↦ rw (running, higher) (refl, refl, refl, refl)
          ]
  ]

  sample-frame : (s : FastccState Double) (rtt now : ℕ) → SameFreeze (add_sample d s rtt now) s
  unfolding add_sample
  sample-frame s rtt now =
      let sampled = record s { rtt_filter = filter_rtt_min_max s.rtt_filter rtt } in
      either_frame s ((sampled.rtt_filter).is_init) (roll_epoch d sampled now) sampled
        (epoch-frame sampled now) (refl, refl, refl, refl)

  ignored-IsKept :
      (is_default : Bool) (cnx : Cnx) (p : PathState) (s : FastccState Double) (now : ℕ)
      (is_timeout : Bool)
      → s.alg_state ≡ freeze
      → (is_timeout ≡ false) ⊎ (s.last_freeze_was_timeout ≡ false)
      → IsKept p s (notify_congestion d is_default cnx p s now false is_timeout)
  unfolding notify_congestion is_ignored
  ignored-IsKept is_default cnx p s now is_timeout frozen by =
      let ignored : (is_freeze s.alg_state
            && (not is_timeout || not s.last_freeze_was_timeout)
            && true)
          ≡ true =
        rw frozen (ground (arith, by)) in
      rw ignored
        (record { window = refl; state = frozen; end = refl; sequence = refl; by_timeout = refl })

  loss-IsKept :
      (is_default : Bool) (cnx : Cnx) (p : PathState) (s : FastccState Double) (n : Notification)
      (is_timeout : Bool) (lost now : ℕ)
      → s.alg_state ≡ freeze
      → (is_timeout ≡ false) ⊎ (s.last_freeze_was_timeout ≡ false)
      → IsKept p s (loss d is_default cnx p s n is_timeout lost now)
  unfolding loss
  loss-IsKept is_default cnx p s n is_timeout lost now frozen by =
      let (filter, is_lossy) = hystart_loss_test d s.rtt_filter n lost in
      elim (Bool-cases is_lossy) [
        | inl lossy ↦ rw lossy (
            let kept =
              ignored-IsKept is_default cnx p (record s { rtt_filter = filter }) now is_timeout
                frozen by in
            record {
              window = kept.window;
              state = kept.state;
              end = kept.end;
              sequence = kept.sequence;
              by_timeout = kept.by_timeout;
            })
        | inr fine ↦ rw fine (record {
          window = refl;
          state = frozen;
          end = refl;
          sequence = refl;
          by_timeout = refl;
        })
      ]

  measured-IsKept :
      (is_default : Bool) (cnx : Cnx) (p : PathState) (s : FastccState Double) (rtt now : ℕ)
      → s.alg_state ≡ freeze
      → IsKept p s (evaluate d is_default cnx p (add_sample d s rtt now) rtt now)
  unfolding evaluate
  measured-IsKept is_default cnx p s rtt now frozen =
      let (state, end, sequence, by) = sample-frame s rtt now in
      let still : is_freeze (add_sample d s rtt now).alg_state ≡ true =
        ap is_freeze (state ∙ frozen) in
      rw still (record {
        window = refl;
        state = state ∙ frozen;
        end = end;
        sequence = sequence;
        by_timeout = by;
      })

  switch-IsKept :
      (is_default : Bool) (cnx : Cnx) (p : PathState) (s : FastccState Double) (n : Notification)
      (rtt nb_bytes lost now : ℕ)
      → s.alg_state ≡ freeze
      → IsQuiet s n
      → IsKept p s (fastcc_switch d is_default cnx p s n rtt nb_bytes lost now)
  unfolding fastcc_switch fastcc_seed_cwin
  switch-IsKept is_default cnx p s _ rtt nb_bytes lost now frozen acknowledged =
      rw (ap is_freeze frozen) (unchanged cnx p s frozen)
  switch-IsKept is_default cnx p s _ rtt nb_bytes lost now frozen repeated =
      loss-IsKept is_default cnx p s repeat false lost now frozen (inl refl)
  switch-IsKept is_default cnx p s _ rtt nb_bytes lost now frozen (timed_out by) =
      loss-IsKept is_default cnx p s timeout true lost now frozen (inr by)
  switch-IsKept is_default cnx p s _ rtt nb_bytes lost now frozen spurious = record {
    window = refl;
    state = frozen;
    end = refl;
    sequence = refl;
    by_timeout = refl;
  }
  switch-IsKept is_default cnx p s _ rtt nb_bytes lost now frozen measured =
      measured-IsKept is_default cnx p s rtt now frozen
  switch-IsKept is_default cnx p s _ rtt nb_bytes lost now frozen bandwidth =
      unchanged cnx p s frozen
  switch-IsKept is_default cnx p s _ rtt nb_bytes lost now frozen marked =
      ignored-IsKept is_default cnx p s now false frozen (inl refl)
  switch-IsKept is_default cnx p s _ rtt nb_bytes lost now frozen blocked = unchanged cnx p s frozen
  switch-IsKept is_default cnx p s _ rtt nb_bytes lost now frozen seeded =
      rw (ap is_initial frozen) (unchanged cnx p s frozen)

  -- Before the end of a freeze, as the clock and the acknowledged number show it, no notification changes
  -- the window or the freeze, but for a reset and, in a freeze that a timeout began, another timeout.
  pub fastcc_notify-IsKept :
      (is_default : Bool) (cnx : Cnx) (p : PathState) (s : FastccState Double) (n : Notification)
      (rtt nb_bytes lost now : ℕ)
      → s.alg_state ≡ freeze
      → now ≤ s.end_of_freeze
      → p.packet_acked_number < s.recovery_sequence
      → IsQuiet s n
      → IsKept p s (fastcc_notify d is_default cnx p s n rtt nb_bytes lost now)
  unfolding fastcc_notify leave_freeze
  fastcc_notify-IsKept is_default cnx p s n rtt nb_bytes lost now frozen early unacked quiet =
      let stays : (is_freeze s.alg_state
            && (ltb s.end_of_freeze now || leb s.recovery_sequence p.packet_acked_number))
          ≡ false =
        rw frozen (ground (arith, early, unacked)) in
      let kept =
        switch-IsKept is_default cnx (record p { is_cc_data_updated = true }) s n rtt nb_bytes lost
          now frozen quiet in
      rw stays (record {
        window = kept.window;
        state = kept.state;
        end = kept.end;
        sequence = kept.sequence;
        by_timeout = kept.by_timeout;
      })
