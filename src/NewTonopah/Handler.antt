-- ===== src/NewTonopah/Handler.antt =====
-- The entry points of picoquic/new_tonopah.c: picoquic_new_tonopah_init, _notify, _delete and
-- _observe.
use fair_queuing_aware_conge.Common.{
  ℕ, ◌/◌, Bool, true, not, ◌&&◌, ◌||◌, Option, none, some, ltb, leb, ◌==◌, if◌then◌else◌, mul64,
  u64_max,
}
use fair_queuing_aware_conge.Cc.{
  Doubles, Notification, acknowledgement, repeat, timeout, spurious_repeat, rtt_measurement,
  bw_measurement, ecn_ec, cwin_blocked, seed_cwin, reset, cwin_initial, target_reno_rtt,
  target_satellite_rtt,
}
use fair_queuing_aware_conge.Cc.Path.{PathState}
use fair_queuing_aware_conge.Cc.RttFilter.{zero_filter, hystart_test}
use fair_queuing_aware_conge.Cc.Pacing.{update_pacing_data}
use fair_queuing_aware_conge.NewTonopah.{
  congestion_avoidance, Globals, TonopahState, World, write, Outcome, ok, assertion, aborted, ◌>>=◌,
  ◌>>◌, guard, slot, is_path, is_null,
}
use fair_queuing_aware_conge.NewTonopah.Sim.{
  is_slow_start, is_initial, sim_reset, notify_rtt, sim_notify,
}
use fair_queuing_aware_conge.NewTonopah.Interval.{record_ack}
use fair_queuing_aware_conge.NewTonopah.SetPath.{set_path}

-- The arguments of `picoquic_new_tonopah_notify` behind the path; `lost_packet_number` is not read.
-- `clock` and `clock'` are what picoquic_current_time() returns in it and in new_tonopah_set_path,
-- and `allocated` says whether malloc finds memory there (at most one interval is opened).
pub record Event : Type 0 where
  pub notification : Notification
  pub rtt_measurement : ℕ
  pub one_way_delay : ℕ
  pub nb_bytes_acknowledged : ℕ
  pub current_time : ℕ
  pub clock : ℕ
  pub clock' : ℕ
  pub allocated : Bool

module _ {D : Type 0} where
  abbrev pub with_path : World D → ℕ → PathState → World D
  with_path w a p = record w { paths = write w.paths a p }

  abbrev pub with_globals : World D → Globals D → World D
  with_globals w g = record w { globals = g }

  -- The first two paths that are ever notified become path1 and path2.
  unfoldable pub register_path : Globals D → ℕ → Globals D
  register_path g a =
      if is_null g.path1
      then record g { path1 = some a }
      else (if not (is_path g.path1 a) && is_null g.path2 then record g { path2 = some a } else g)

  -- The default path is dominant from the first notification on.
  unfoldable pub choose_dominant : Globals D → ℕ → ℕ → Globals D
  choose_dominant g default clock =
      if is_null g.dominant_path
      then record g { dominant_path = some default; last_change = clock }
      else g

  -- picoquic_new_tonopah_delete: the state at the address is freed.
  unfoldable pub tonopah_delete : World D → ℕ → World D
  tonopah_delete w a = record w { states = write w.states a none }

module _ (d : Doubles) where
  open d use {Double, literal, of_u64, to_u64, times, over}

  -- picoquic_new_tonopah_reset, of the state; the path gets the window of the simulation.
  abbrev pub new_state : TonopahState Double
  new_state = record { nrss = sim_reset; rtt_filter = zero_filter (literal 0 0) }

  unfoldable pub reset_path : World Double → ℕ → World Double
  reset_path w a = with_path w a (record (w.paths a) { cwin = sim_reset.cwin })

  -- picoquic_new_tonopah_init; `allocated` says whether malloc succeeds.
  unfoldable pub tonopah_init : Bool → World Double → ℕ → World Double
  tonopah_init allocated w a =
      if allocated
      then record (reset_path w a) { states = write w.states a (some new_state) }
      else record w { states = write w.states a none }

  unfoldable pub long_delay_window : ℕ → ℕ
  long_delay_window rtt_min = to_u64 (
      over
        (times (of_u64 cwin_initial)
          (of_u64 (if ltb target_satellite_rtt rtt_min then target_satellite_rtt else rtt_min)))
        (of_u64 target_reno_rtt))

  -- A notification goes to the simulation of the default path, and its window to the paths.
  unfoldable pub pass_on :
      World Double → TonopahState Double → ℕ → Event → Outcome (World Double × TonopahState Double)
  pass_on w s default e = do
    (g, nrss') ←
        sim_notify d w s.nrss (w.paths default) e.notification e.nb_bytes_acknowledged
          e.current_time
    (w', nrss'') ← set_path d e.allocated (with_globals w g) nrss' nrss'.cwin e.clock'
    ok (w', record s { nrss = nrss'' })

  -- The case of an acknowledgement.
  unfoldable pub acknowledge :
      World Double
      → TonopahState Double
      → ℕ
      → ℕ
      → Event
      → Outcome (World Double × TonopahState Double)
  acknowledge w s default actual e =
      let p = w.paths actual in
      if ltb p.last_sender_limited_time p.last_time_acked_data_frame_sent
      then (do
        (g, nrss') ←
            sim_notify d w s.nrss (w.paths default) acknowledgement e.nb_bytes_acknowledged
              e.current_time
        let list =
            record_ack d (is_path g.path1 actual) p.packet_acked_number e.nb_bytes_acknowledged
              p.smoothed_rtt e.clock g.intervals
        (w', nrss'') ←
            set_path d e.allocated (with_globals w (record g { intervals = list })) nrss' nrss'.cwin
              e.clock'
        ok (w', record s { nrss = nrss'' }))
      else ok (w, s)

  -- A window below `min_win` is raised to it.
  unfoldable pub raise_window :
      World Double → TonopahState Double → ℕ → Event → Outcome (World Double × TonopahState Double)
  raise_window w s min_win e =
      if ltb s.nrss.cwin min_win
      then (do
        (w', nrss') ← set_path d e.allocated w (record (s.nrss) { cwin = min_win }) min_win e.clock'
        ok (w', record s { nrss = nrss' }))
      else ok (w, s)

  unfoldable pub raise_long_delay :
      World Double → TonopahState Double → ℕ → Event → Outcome (World Double × TonopahState Double)
  raise_long_delay w s default e =
      let rtt_min = (w.paths default).rtt_min in
      if ltb target_reno_rtt rtt_min
      then raise_window w s (long_delay_window rtt_min) e
      else ok (w, s)

  unfoldable pub leave_on_rtt :
      World Double → TonopahState Double → ℕ → Event → Outcome (World Double × TonopahState Double)
  leave_on_rtt w s default e =
      let rtt = if w.cnx.is_time_stamp_enabled then e.one_way_delay else e.rtt_measurement in
      let (filter, leave) = hystart_test s.rtt_filter rtt e.current_time in
      if leave
      then (do
        let left = record (s.nrss) { ssthresh = s.nrss.cwin; alg_state = congestion_avoidance }
        (w', nrss') ← set_path d e.allocated w left left.cwin e.clock'
        ok (
          with_path w' default (record (w'.paths default) { is_ssthresh_initialized = true }),
          record { nrss = nrss'; rtt_filter = filter },
        ))
      else ok (w, record s { rtt_filter = filter })

  unfoldable pub measure_rtt :
      World Double → TonopahState Double → ℕ → Event → Outcome (World Double × TonopahState Double)
  measure_rtt w s default e =
      if is_initial s.nrss
      then (do (w', s') ← raise_long_delay w s default e; leave_on_rtt w' s' default e)
      else ok (w, s)

  unfoldable pub measure_bandwidth :
      World Double → TonopahState Double → ℕ → Event → Outcome (World Double × TonopahState Double)
  measure_bandwidth w s default e =
      if is_initial s.nrss
      then (do
        smoothed_rtt ← notify_rtt w (w.paths default)
        raise_window w s
            (mul64 ((w.paths default).max_bandwidth_estimate) smoothed_rtt / 1000000 / 2) e)
      else ok (w, s)

  -- The switch of `picoquic_new_tonopah_notify`. A congestion mark on the dominant path is ignored.
  unfoldable pub tonopah_switch :
      World Double
      → TonopahState Double
      → ℕ
      → ℕ
      → Notification
      → Event
      → Outcome (World Double × TonopahState Double)
  tonopah_switch w s default actual acknowledgement e = acknowledge w s default actual e
  tonopah_switch w s default actual seed_cwin e = pass_on w s default e
  tonopah_switch w s default actual ecn_ec e =
      if is_path w.globals.dominant_path actual then ok (w, s) else pass_on w s default e
  tonopah_switch w s default actual repeat e = pass_on w s default e
  tonopah_switch w s default actual timeout e = pass_on w s default e
  tonopah_switch w s default actual spurious_repeat e = pass_on w s default e
  tonopah_switch w s default actual rtt_measurement e = measure_rtt w s default e
  tonopah_switch w s default actual cwin_blocked e = ok (w, s)
  tonopah_switch w s default actual bw_measurement e = measure_bandwidth w s default e
  tonopah_switch w s default actual reset e = ok (reset_path w actual, new_state)

  -- The switch and the update of the pacing of the notified path.
  unfoldable pub run_switch :
      World Double → TonopahState Double → ℕ → ℕ → Event → Outcome (World Double)
  run_switch w s default actual e = do
    (w', s') ← tonopah_switch w s default actual e.notification e
    let (cnx', p) =
        update_pacing_data d w'.cnx (actual == default) (w'.paths actual) (is_initial s'.nrss)
    ok (record w' {
      cnx = cnx';
      paths = write w'.paths actual p;
      states = write w'.states default (some s');
    })

  -- The handler behind the test for NULL.
  unfoldable pub run_state :
      Option (TonopahState Double) → World Double → ℕ → ℕ → Event → Outcome (World Double)
  run_state none w default actual e = ok w
  run_state (some s) w default actual e = run_switch w s default actual e

  -- picoquic_new_tonopah_notify
  unfoldable pub tonopah_notify : World Double → ℕ → Event → Outcome (World Double)
  tonopah_notify w actual e = do
    guard (leb w.cnx.nb_paths 2) assertion
    let g = register_path w.globals actual
    guard (is_path g.path1 actual || is_path g.path2 actual) aborted
    default ← slot w.slots 0
    let g' = choose_dominant g default e.clock
    let p = record (w.paths actual) { is_cc_data_updated = true }
    run_state (w.states default) (with_path (with_globals w g') actual p) default actual e

  -- picoquic_new_tonopah_observe: cc_state and cc_param
  unfoldable pub tonopah_observe : TonopahState Double → ℕ × ℕ
  tonopah_observe s = (
    if is_slow_start s.nrss.alg_state then 0 else 1,
    if s.nrss.ssthresh == u64_max then 0 else s.nrss.ssthresh,
  )
