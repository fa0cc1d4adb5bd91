-- ===== src/NewTonopah/Safety/Notify.antt =====
-- The handler on a connection with two paths.
use fair_queuing_aware_conge.Common.{
  ℕ, ◌≡◌, refl, ◌∙◌, Bool, true, false, ◌||◌, Option, none, some, ltb, ◌==◌, if◌then◌else◌,
  Bool-cases, inl, inr,
}
use fair_queuing_aware_conge.Cc.{
  Doubles, Notification, acknowledgement, repeat, timeout, spurious_repeat, rtt_measurement,
  bw_measurement, ecn_ec, cwin_blocked, seed_cwin, reset, target_reno_rtt,
}
use fair_queuing_aware_conge.Cc.Pacing.Rate.{nb_paths-update_pacing_data}
use fair_queuing_aware_conge.Cc.RttFilter.{hystart_test}
use fair_queuing_aware_conge.NewTonopah.{
  SimState, Globals, World, TonopahState, slot, is_null, is_path,
}
use fair_queuing_aware_conge.NewTonopah.Sim.{is_initial, sim_notify, notify_rtt}
use fair_queuing_aware_conge.NewTonopah.Interval.{record_ack}
use fair_queuing_aware_conge.NewTonopah.SetPath.{set_path}
use fair_queuing_aware_conge.NewTonopah.Handler.{
  Event, with_globals, register_path, choose_dominant, reset_path, long_delay_window, pass_on,
  acknowledge, raise_window, raise_long_delay, leave_on_rtt, measure_rtt, measure_bandwidth,
  tonopah_switch, run_switch, run_state, tonopah_notify,
}
use fair_queuing_aware_conge.NewTonopah.Safety.Intervals.{
  Returns, Returns-bind, record_ack-IsIntervals,
}
use fair_queuing_aware_conge.NewTonopah.Safety.Parts.{
  IsGlobals, IsTonopah, Kept, Safe, notify_rtt-Returns, sim_notify-Returns, set_path-Returns,
}

module _ (d : Doubles) (a b : ℕ) where
  open d use {Double}

  abbrev SafeSim : World Double × SimState → Type 0
  SafeSim = Safe d SimState a b

  abbrev SafeState : World Double × TonopahState Double → Type 0
  SafeState = Safe d (TonopahState Double) a b

  with_globals-IsTonopah :
      (w : World Double) (g : Globals Double)
      → IsTonopah a b w
      → IsGlobals g
      → IsTonopah a b (with_globals w g)
  with_globals-IsTonopah w g h k = record { two = h.two; array = h.array; global = k }

  pass_on-Returns :
      (w : World Double) (s : TonopahState Double) (default : ℕ) (e : Event)
      → IsTonopah a b w
      → e.allocated ≡ true
      → Returns SafeState (pass_on d w s default e)
  unfolding pass_on
  pass_on-Returns w s default e h memory =
      Returns-bind (Kept d) SafeState
        (sim_notify d w s.nrss (w.paths default) e.notification e.nb_bytes_acknowledged
          e.current_time)
        _
        (sim_notify-Returns d a b w s.nrss (w.paths default) e.notification e.nb_bytes_acknowledged
          e.current_time h)
        (λ (g, nrss') kept.
          Returns-bind SafeSim SafeState
            (set_path d (e.allocated) (with_globals w g) nrss' (nrss'.cwin) (e.clock')) _
            (set_path-Returns d (e.allocated) a b (with_globals w g) nrss' (nrss'.cwin) (e.clock')
              (with_globals-IsTonopah w g h kept) memory)
            (λ r safe. safe))

  record_ack-IsGlobals :
      (g : Globals Double) (first : Bool) (ack_num nb rtt time : ℕ)
      → IsGlobals g
      → IsGlobals (record g { intervals = record_ack d first ack_num nb rtt time g.intervals })
  record_ack-IsGlobals g first ack_num nb rtt time h = record {
    known1 = h.known1;
    known2 = h.known2;
    chosen = h.chosen;
    list = record_ack-IsIntervals d first ack_num nb rtt time g.intervals h.list;
  }

  acknowledge-Returns :
      (w : World Double) (s : TonopahState Double) (default actual : ℕ) (e : Event)
      → IsTonopah a b w
      → e.allocated ≡ true
      → Returns SafeState (acknowledge d w s default actual e)
  unfolding acknowledge
  acknowledge-Returns w s default actual e h memory =
      elim (Bool-cases (
        ltb ((w.paths actual).last_sender_limited_time)
          ((w.paths actual).last_time_acked_data_frame_sent))) [
            | inl busy ↦ rw busy (
                Returns-bind (Kept d) SafeState
                  (sim_notify d w s.nrss (w.paths default) acknowledgement e.nb_bytes_acknowledged
                    e.current_time)
                  _
                  (sim_notify-Returns d a b w s.nrss (w.paths default) acknowledgement
                    e.nb_bytes_acknowledged e.current_time h)
                  (λ (g, nrss') kept.
                    Returns-bind SafeSim SafeState
                      (set_path d (e.allocated) _ nrss' (nrss'.cwin) (e.clock')) _
                      (set_path-Returns d (e.allocated) a b _ nrss' (nrss'.cwin) (e.clock')
                        (with_globals-IsTonopah w _ h (record_ack-IsGlobals g _ _ _ _ _ kept))
                        memory)
                      (λ r safe. safe)))
            | inr limited ↦ rw limited h
          ]

  raise_window-Returns :
      (w : World Double) (s : TonopahState Double) (min_win : ℕ) (e : Event)
      → IsTonopah a b w
      → e.allocated ≡ true
      → Returns SafeState (raise_window d w s min_win e)
  unfolding raise_window
  raise_window-Returns w s min_win e h memory = elim (Bool-cases (ltb s.nrss.cwin min_win)) [
    | inl below ↦ rw below (
        Returns-bind SafeSim SafeState (set_path d (e.allocated) w _ min_win (e.clock')) _
          (set_path-Returns d (e.allocated) a b w _ min_win (e.clock') h memory) (λ r safe. safe))
    | inr above ↦ rw above h
  ]

  raise_long_delay-Returns :
      (w : World Double) (s : TonopahState Double) (default : ℕ) (e : Event)
      → IsTonopah a b w
      → e.allocated ≡ true
      → Returns SafeState (raise_long_delay d w s default e)
  unfolding raise_long_delay
  raise_long_delay-Returns w s default e h memory =
      elim (Bool-cases (ltb target_reno_rtt ((w.paths default).rtt_min))) [
        | inl long ↦
            rw long (
              raise_window-Returns w s (long_delay_window d ((w.paths default).rtt_min)) e h memory)
        | inr short ↦ rw short h
      ]

  leave_on_rtt-Returns :
      (w : World Double) (s : TonopahState Double) (default : ℕ) (e : Event)
      → IsTonopah a b w
      → e.allocated ≡ true
      → Returns SafeState (leave_on_rtt d w s default e)
  unfolding leave_on_rtt
  leave_on_rtt-Returns w s default e h memory =
      elim (Bool-cases (
        (hystart_test s.rtt_filter
          (if w.cnx.is_time_stamp_enabled then e.one_way_delay else e.rtt_measurement)
          e.current_time).1)) [
            | inl leaves ↦ rw leaves (
                Returns-bind SafeSim SafeState
                  (set_path d (e.allocated) w _ (s.nrss.cwin) (e.clock')) _
                  (set_path-Returns d (e.allocated) a b w _ (s.nrss.cwin) (e.clock') h memory)
                  (λ r safe. record { two = safe.two; array = safe.array; global = safe.global }))
            | inr stays ↦ rw stays h
          ]

  measure_rtt-Returns :
      (w : World Double) (s : TonopahState Double) (default : ℕ) (e : Event)
      → IsTonopah a b w
      → e.allocated ≡ true
      → Returns SafeState (measure_rtt d w s default e)
  unfolding measure_rtt
  measure_rtt-Returns w s default e h memory = elim (Bool-cases (is_initial s.nrss)) [
    | inl initial ↦ rw initial (
        Returns-bind SafeState SafeState (raise_long_delay d w s default e) _
          (raise_long_delay-Returns w s default e h memory)
          (λ (w', s') safe. leave_on_rtt-Returns w' s' default e safe memory))
    | inr later ↦ rw later h
  ]

  measure_bandwidth-Returns :
      (w : World Double) (s : TonopahState Double) (default : ℕ) (e : Event)
      → IsTonopah a b w
      → e.allocated ≡ true
      → Returns SafeState (measure_bandwidth d w s default e)
  unfolding measure_bandwidth
  measure_bandwidth-Returns w s default e h memory = elim (Bool-cases (is_initial s.nrss)) [
    | inl initial ↦ rw initial (
        Returns-bind (λ _. Unit {0}) SafeState (notify_rtt w (w.paths default)) _
          (notify_rtt-Returns a b w (w.paths default) h)
          (λ rtt _. raise_window-Returns w s _ e h memory))
    | inr later ↦ rw later h
  ]

  tonopah_switch-Returns :
      (w : World Double) (s : TonopahState Double) (default actual : ℕ) (n : Notification)
      (e : Event)
      → IsTonopah a b w
      → e.allocated ≡ true
      → Returns SafeState (tonopah_switch d w s default actual n e)
  unfolding tonopah_switch reset_path
  tonopah_switch-Returns w s default actual acknowledgement e h memory =
      acknowledge-Returns w s default actual e h memory
  tonopah_switch-Returns w s default actual seed_cwin e h memory =
      pass_on-Returns w s default e h memory
  tonopah_switch-Returns w s default actual ecn_ec e h memory =
      elim (Bool-cases (is_path w.globals.dominant_path actual)) [
        | inl dominant ↦ rw dominant h
        | inr submissive ↦ rw submissive (pass_on-Returns w s default e h memory)
      ]
  tonopah_switch-Returns w s default actual repeat e h memory =
      pass_on-Returns w s default e h memory
  tonopah_switch-Returns w s default actual timeout e h memory =
      pass_on-Returns w s default e h memory
  tonopah_switch-Returns w s default actual spurious_repeat e h memory =
      pass_on-Returns w s default e h memory
  tonopah_switch-Returns w s default actual rtt_measurement e h memory =
      measure_rtt-Returns w s default e h memory
  tonopah_switch-Returns w s default actual cwin_blocked e h memory = h
  tonopah_switch-Returns w s default actual bw_measurement e h memory =
      measure_bandwidth-Returns w s default e h memory
  tonopah_switch-Returns w s default actual reset e h memory = record {
    two = h.two;
    array = h.array;
    global = h.global;
  }

  run_switch-Returns :
      (w : World Double) (s : TonopahState Double) (default actual : ℕ) (e : Event)
      → IsTonopah a b w
      → e.allocated ≡ true
      → Returns (IsTonopah a b) (run_switch d w s default actual e)
  unfolding run_switch
  run_switch-Returns w s default actual e h memory =
      Returns-bind SafeState (IsTonopah a b)
        (tonopah_switch d w s default actual (e.notification) e) _
        (tonopah_switch-Returns w s default actual (e.notification) e h memory)
        (λ (w', s') safe. record {
          two =
              nb_paths-update_pacing_data d (w'.cnx) (actual == default) (w'.paths actual)
                (is_initial s'.nrss)
              ∙ safe.two;
          array = safe.array;
          global = safe.global;
        })

  run_state-Returns :
      (o : Option (TonopahState Double)) (w : World Double) (default actual : ℕ) (e : Event)
      → IsTonopah a b w
      → e.allocated ≡ true
      → Returns (IsTonopah a b) (run_state d o w default actual e)
  unfolding run_state
  run_state-Returns none w default actual e h memory = h
  run_state-Returns (some s) w default actual e h memory =
      run_switch-Returns w s default actual e h memory

  pub known-register_path :
      (g : Globals Double) (x : ℕ)
      → is_null g.path1 ≡ false
      → is_null g.path2 ≡ false
      → register_path g x ≡ g
  unfolding register_path
  known-register_path g x one two = elim (Bool-cases (is_path g.path1 x)) [
    | inl same ↦ rw (one, two, same) refl
    | inr other ↦ rw (one, two, other) refl
  ]

  chosen-choose_dominant :
      (g : Globals Double) (x clock : ℕ) → IsGlobals g → choose_dominant g x clock ≡ g
  unfolding choose_dominant
  chosen-choose_dominant g x clock h = rw (h.chosen) refl

  -- On a connection with two paths that the algorithm knows, and where malloc finds memory for a new
  -- interval, no notification of one of the paths follows a NULL pointer, leaves the array of paths, fails an assert or calls abort, whatever the event
  -- is; and the connection is as well formed afterwards.
  pub tonopah_notify-Returns :
      (w : World Double) (actual : ℕ) (e : Event)
      → IsTonopah a b w
      → (is_path w.globals.path1 actual || is_path w.globals.path2 actual) ≡ true
      → e.allocated ≡ true
      → Returns (IsTonopah a b) (tonopah_notify d w actual e)
  unfolding tonopah_notify slot
  tonopah_notify-Returns w actual e h known memory =
      rw
        (
          known-register_path w.globals actual h.global.known1 h.global.known2,
          known,
          h.array,
          chosen-choose_dominant w.globals a e.clock h.global,
        )
        (simp (h.two) (
          run_state-Returns (w.states a) _ a actual e
            (record { two = h.two; array = refl; global = h.global }) memory))
