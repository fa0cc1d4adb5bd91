-- ===== src/Fastcc/Invariant.antt =====
-- The states that FastCC (picoquic/fastcc.c) reaches by notifications, and their invariant.
use fair_queuing_aware_conge.Common.{
  ℕ, zero, suc, ◌+◌, ◌-◌, ◌<◌, ◌≤◌, ◌≡◌, refl, ◌∙◌, ap, ◌⊎◌, inl, inr, Bool, true, false, List,
  length, set, get_or, length-set, ltb, leb, if◌then◌else◌, arith, u64_max, Bool-cases, if_both,
}
use fair_queuing_aware_conge.Cc.{
  Doubles, Notification, acknowledgement, repeat, timeout, spurious_repeat, rtt_measurement,
  bw_measurement, ecn_ec, cwin_blocked, seed_cwin, reset,
}
use fair_queuing_aware_conge.Cc.Path.{PathState, Cnx}
use fair_queuing_aware_conge.Cc.RttFilter.{MinMaxRtt, filter_rtt_min_max, hystart_loss_test}
use fair_queuing_aware_conge.Fastcc.{
  AlgState, initial, eval, freeze, is_freeze, FastccState, delay_threshold_max, repeat_threshold,
  nb_period, roll_periods, fresh_state, fastcc_reset, is_ignored, frozen_state, notify_congestion,
  leave_freeze, roll_epoch, add_sample, compare_rtt, grow, count_event, evaluate, loss,
  fastcc_switch, fastcc_notify,
}
use fair_queuing_aware_conge.Fastcc.Epochs.{delay_threshold-bound}

length-roll_periods :
    (i : ℕ) (periods : List ℕ) (low : ℕ) → length (roll_periods i periods low).0 ≡ length periods
unfolding roll_periods
length-roll_periods zero periods low = refl
length-roll_periods (suc i) periods low =
    length-roll_periods i (set periods (suc i) (get_or periods i 0)) _
    ∙ length-set periods (suc i) (get_or periods i 0)

thaw : (by_timeout : Bool) → is_freeze (if by_timeout then initial else eval) ≡ false
thaw true = refl
thaw false = refl

module _ (d : Doubles) where
  open d use {Double}

  -- A freeze has counted no event; outside of a freeze nothing is remembered of one.
  abbrev pub IsThawed : FastccState Double → Type 0
  IsThawed s =
      ((s.alg_state ≡ freeze) × (s.nb_cc_events ≡ 0))
      ⊎ ((is_freeze s.alg_state ≡ false)
          × (s.last_freeze_was_timeout ≡ false)
          × (s.last_freeze_was_not_delay ≡ false))

  -- Less than four events are counted, the threshold is at most 25 ms, and six periods are remembered.
  pub record IsFast (s : FastccState Double) : Type 0 where
    pub events : s.nb_cc_events < repeat_threshold
    pub threshold : s.delay_threshold ≤ delay_threshold_max
    pub periods : length s.last_rtt_min ≡ nb_period
    pub thawed : IsThawed s

  thaws :
      (s : FastccState Double) (events bytes : ℕ)
      → IsThawed s
      → is_freeze s.alg_state ≡ false
      → IsThawed (record s { nb_cc_events = events; nb_bytes_ack_since_rtt = bytes })
  thaws s events bytes (inl (frozen, _)) running =
      absurd (ground (arith, ap is_freeze frozen, running))
  thaws s events bytes (inr (h0, h1, h2)) running = inr (h0, h1, h2)

  fewer :
      (s : FastccState Double)
      → IsThawed s
      → IsThawed (record s { nb_cc_events = s.nb_cc_events - 1 })
  fewer s (inl (frozen, none_counted)) = inl (frozen, omega (arith, none_counted))
  fewer s (inr h) = inr h

  fresh-IsFast : (p : PathState) (now : ℕ) → IsFast (fresh_state d p now)
  unfolding fresh_state
  fresh-IsFast p now = record {
    events = omega arith;
    threshold = (delay_threshold-bound p.smoothed_rtt).0;
    periods = refl;
    thawed = inr (refl, refl, refl);
  }

  frozen-IsFast :
      (s : FastccState Double) (p : PathState) (now : ℕ) (is_delay is_timeout : Bool)
      → s.delay_threshold ≤ delay_threshold_max
      → length s.last_rtt_min ≡ nb_period
      → IsFast (frozen_state d s p now is_delay is_timeout)
  unfolding frozen_state
  frozen-IsFast s p now is_delay is_timeout h k = record {
    events = omega arith;
    threshold = h;
    periods = k;
    thawed = inl (refl, refl);
  }

  congestion-IsFast :
      (is_default : Bool) (cnx : Cnx) (p : PathState) (s : FastccState Double) (now : ℕ)
      (is_delay is_timeout : Bool)
      → IsFast s
      → IsFast (notify_congestion d is_default cnx p s now is_delay is_timeout).2
  unfolding notify_congestion
  congestion-IsFast is_default cnx p s now is_delay is_timeout h =
      elim (Bool-cases (is_ignored d s is_delay is_timeout)) [
        | inl ignored ↦ rw ignored h
        | inr treated ↦ rw treated (frozen-IsFast s p now is_delay is_timeout h.threshold h.periods)
      ]

  leave_freeze-IsFast :
      (p : PathState) (s : FastccState Double) (now : ℕ)
      → IsFast s
      → IsFast (leave_freeze d p s now)
  unfolding leave_freeze
  leave_freeze-IsFast p s now h =
      if_both IsFast _
        (record {
          events = omega arith;
          threshold = h.threshold;
          periods = h.periods;
          thawed = inr (thaw s.last_freeze_was_timeout, refl, refl);
        })
        h

  epoch-IsFast : (s : FastccState Double) (now : ℕ) → IsFast s → IsFast (roll_epoch d s now)
  unfolding roll_epoch
  epoch-IsFast s now h =
      if_both IsFast (ltb s.end_of_epoch now)
        (record {
          events = h.events;
          threshold = (delay_threshold-bound _).0;
          periods =
              length-set (roll_periods 5 s.last_rtt_min u64_max).0 0 s.rolling_rtt_min
              ∙ length-roll_periods 5 s.last_rtt_min u64_max
              ∙ h.periods;
          thawed = h.thawed;
        })
        (if_both IsFast _
          (record {
            events = h.events;
            threshold = h.threshold;
            periods = h.periods;
            thawed = h.thawed;
          })
          h)

  filtered-IsFast :
      (s : FastccState Double) (f : MinMaxRtt Double)
      → IsFast s
      → IsFast (record s { rtt_filter = f })
  filtered-IsFast s f h = record {
    events = h.events;
    threshold = h.threshold;
    periods = h.periods;
    thawed = h.thawed;
  }

  sample-IsFast :
      (s : FastccState Double) (rtt now : ℕ) → IsFast s → IsFast (add_sample d s rtt now)
  unfolding add_sample
  sample-IsFast s rtt now h =
      let f = filter_rtt_min_max s.rtt_filter rtt in
      let k = filtered-IsFast s f h in
      if_both IsFast f.is_init (epoch-IsFast (record s { rtt_filter = f }) now k) k

  -- The comparison with the smallest round trip keeps the phase.
  abbrev IsCompared : AlgState → FastccState Double × ℕ → Type 0
  IsCompared a r = IsFast r.0 × (r.0.alg_state ≡ a)

  compare-IsCompared :
      (s : FastccState Double) (rtt : ℕ) → IsFast s → IsCompared s.alg_state (compare_rtt d s rtt)
  unfolding compare_rtt
  compare-IsCompared s rtt h =
      let P = IsCompared s.alg_state in
      if_both P (ltb rtt s.rtt_min)
        (
          record {
            events = h.events;
            threshold = (delay_threshold-bound s.rtt_min).0;
            periods = h.periods;
            thawed = h.thawed;
          },
          refl,
        )
        (if_both P s.rtt_min_is_trusted (h, refl)
          (
            record {
              events = h.events;
              threshold = h.threshold;
              periods = h.periods;
              thawed = h.thawed;
            },
            refl,
          ))

  -- Outside of a freeze the count of the events may be set.
  counted-IsFast :
      (s : FastccState Double) (events bytes : ℕ)
      → IsFast s
      → is_freeze s.alg_state ≡ false
      → events < repeat_threshold
      → IsFast (record s { nb_cc_events = events; nb_bytes_ack_since_rtt = bytes })
  counted-IsFast s events bytes h running few = record {
    events = few;
    threshold = h.threshold;
    periods = h.periods;
    thawed = thaws s events bytes h.thawed running;
  }

  count_event-IsFast :
      (is_default : Bool) (cnx : Cnx) (p : PathState) (s : FastccState Double) (now : ℕ)
      → IsFast s
      → is_freeze s.alg_state ≡ false
      → IsFast (count_event d is_default cnx p s now).2
  unfolding count_event notify_congestion is_ignored
  count_event-IsFast is_default cnx p s now h running =
      elim (Bool-cases (leb repeat_threshold (s.nb_cc_events + 1))) [
        | inl many ↦
            rw (many, running)
              (frozen-IsFast (record s { nb_cc_events = s.nb_cc_events + 1 }) p now true false
                h.threshold h.periods)
        | inr few ↦ rw few (
            counted-IsFast s (s.nb_cc_events + 1) s.nb_bytes_ack_since_rtt h running
              (ground (arith, few)))
      ]

  evaluate-IsFast :
      (is_default : Bool) (cnx : Cnx) (p : PathState) (s : FastccState Double) (rtt now : ℕ)
      → IsFast s
      → IsFast (evaluate d is_default cnx p s rtt now).2
  unfolding evaluate grow
  evaluate-IsFast is_default cnx p s rtt now h = elim (Bool-cases (is_freeze s.alg_state)) [
    | inl frozen ↦ rw frozen h
    | inr running ↦
        let (k, same) = compare-IsCompared s rtt h in
        let still = ap is_freeze same ∙ running in
        rw running (
          if_both (λ (r : Cnx × PathState × FastccState Double). IsFast (r.2)) _
            (counted-IsFast (compare_rtt d s rtt).0 0 0 k still (omega arith))
            (count_event-IsFast is_default cnx p (compare_rtt d s rtt).0 now k still))
  ]

  loss-IsFast :
      (is_default : Bool) (cnx : Cnx) (p : PathState) (s : FastccState Double) (n : Notification)
      (is_timeout : Bool) (lost now : ℕ)
      → IsFast s
      → IsFast (loss d is_default cnx p s n is_timeout lost now).2
  unfolding loss
  loss-IsFast is_default cnx p s n is_timeout lost now h =
      let (filter, is_lossy) = hystart_loss_test d s.rtt_filter n lost in
      let k = filtered-IsFast s filter h in
      if_both (λ (r : Cnx × PathState × FastccState Double). IsFast (r.2)) is_lossy
        (congestion-IsFast is_default cnx p (record s { rtt_filter = filter }) now false is_timeout
          k)
        k

  switch-IsFast :
      (is_default : Bool) (cnx : Cnx) (p : PathState) (s : FastccState Double) (n : Notification)
      (rtt nb_bytes lost now : ℕ)
      → IsFast s
      → IsFast (fastcc_switch d is_default cnx p s n rtt nb_bytes lost now).2
  unfolding fastcc_switch fastcc_reset
  switch-IsFast is_default cnx p s acknowledgement rtt nb lost now h =
      elim (Bool-cases (is_freeze s.alg_state)) [
        | inl frozen ↦ rw frozen h
        | inr running ↦ rw running (counted-IsFast s s.nb_cc_events _ h running h.events)
      ]
  switch-IsFast is_default cnx p s repeat rtt nb lost now h =
      loss-IsFast is_default cnx p s repeat false lost now h
  switch-IsFast is_default cnx p s timeout rtt nb lost now h =
      loss-IsFast is_default cnx p s timeout true lost now h
  switch-IsFast is_default cnx p s spurious_repeat rtt nb lost now h = record {
    events = omega (arith, h.events);
    threshold = h.threshold;
    periods = h.periods;
    thawed = fewer s h.thawed;
  }
  switch-IsFast is_default cnx p s rtt_measurement rtt nb lost now h =
      evaluate-IsFast is_default cnx p (add_sample d s rtt now) rtt now (sample-IsFast s rtt now h)
  switch-IsFast is_default cnx p s bw_measurement rtt nb lost now h = h
  switch-IsFast is_default cnx p s ecn_ec rtt nb lost now h =
      congestion-IsFast is_default cnx p s now false false h
  switch-IsFast is_default cnx p s cwin_blocked rtt nb lost now h = h
  switch-IsFast is_default cnx p s seed_cwin rtt nb lost now h = h
  switch-IsFast is_default cnx p s reset rtt nb lost now h = fresh-IsFast p now

  -- The states of FastCC between two notifications; in the meantime the path changes.
  pub data Reached : FastccState Double → Type 0 where
    started : (p : PathState) (now : ℕ) → Reached (fresh_state d p now)
    notified :
        (is_default : Bool) (cnx : Cnx) (p : PathState) (s : FastccState Double) (n : Notification)
        (rtt nb_bytes lost now : ℕ)
        → Reached s
        → Reached (fastcc_notify d is_default cnx p s n rtt nb_bytes lost now).2

  -- In every state that FastCC reaches less than four delay events are counted, and none during a freeze,
  -- the delay threshold is at most 25 ms, the array has six periods, and outside of a freeze the two
  -- flags on the last freeze are down.
  pub Reached-IsFast : {s : FastccState Double} → Reached s → IsFast s
  unfolding fastcc_notify
  Reached-IsFast (started p now) = fresh-IsFast p now
  Reached-IsFast (notified is_default cnx p s n rtt nb_bytes lost now r) =
      switch-IsFast is_default cnx (record p { is_cc_data_updated = true }) (leave_freeze d p s now)
        n rtt nb_bytes lost now (leave_freeze-IsFast p s now (Reached-IsFast r))
