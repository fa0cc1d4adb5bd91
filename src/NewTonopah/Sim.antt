-- ===== src/NewTonopah/Sim.antt =====
-- The simulated congestion control of picoquic/new_tonopah.c (picoquic_new_tonopah_sim_*): New Reno
-- with a slower growth on short round trips, and without a reaction to losses while no interval is
-- recorded.
use fair_queuing_aware_conge.Common.{
  ℕ, suc, ◌/◌, ◌%◌, Bool, true, false, not, ◌&&◌, ◌||◌, List, [], ◌∷◌, ltb, leb, ◌==◌,
  if◌then◌else◌, add64, sub64, mul64, u64_max,
}
use fair_queuing_aware_conge.Cc.{
  Doubles, Notification, acknowledgement, repeat, timeout, spurious_repeat, ecn_ec, seed_cwin,
  reset, cwin_initial, cwin_minimum,
}
use fair_queuing_aware_conge.Cc.Path.{PathState, Cnx}
use fair_queuing_aware_conge.NewTonopah.{
  AlgState, slow_start, congestion_avoidance, SimState, IntervalInfo, Globals, World, Outcome, ok,
  assertion, ◌>>=◌, ◌>>◌, guard, slot, is_null,
}

abbrev pub minimum_congestion_avoidance_interval : ℕ
minimum_congestion_avoidance_interval = 50000

abbrev pub is_slow_start : AlgState → Bool
is_slow_start slow_start = true
is_slow_start congestion_avoidance = false

abbrev pub is_initial : SimState → Bool
is_initial s = is_slow_start s.alg_state && (s.ssthresh == u64_max)

abbrev pub is_timeout : Notification → Bool
is_timeout timeout = true
is_timeout _ = false

-- picoquic_new_tonopah_sim_reset
unfoldable pub sim_reset : SimState
sim_reset = record {
  alg_state = slow_start;
  cwin = cwin_initial;
  residual_ack = 0;
  ssthresh = u64_max;
  recovery_start = 0;
  recovery_sequence = 0;
}

-- new_tonopah_get_interval_info_list_len
unfoldable pub interval_list_len : {D : Type 0} → List (IntervalInfo D) → ℕ
interval_list_len [] = 0
interval_list_len (i ∷ rest) = suc (interval_list_len rest)

-- new_tonopah_delete_info_list
unfoldable pub delete_info_list : {D : Type 0} → Globals D → Globals D
delete_info_list g = record g { intervals = [] }

-- picoquic_new_tonopah_sim_enter_recovery
unfoldable pub sim_enter_recovery :
    {D : Type 0} → Globals D → SimState → PathState → Notification → ℕ → Globals D × SimState
unfolding interval_list_len delete_info_list
sim_enter_recovery g s path_x notification current_time =
    let half = s.cwin / 2 in
    let threshold = if ltb half cwin_minimum then cwin_minimum else half in
    if not (is_slow_start s.alg_state) && (interval_list_len g.intervals == 0) then (g, s) else (
      if is_null g.path1 || is_null g.path2 then g else delete_info_list g,
      record {
        alg_state = if is_timeout notification then slow_start else congestion_avoidance;
        cwin = if is_timeout notification then cwin_minimum else threshold;
        residual_ack = 0;
        ssthresh = threshold;
        recovery_start = current_time;
        recovery_sequence = path_x.packet_number;
      },
    )

-- picoquic_new_tonopah_sim_seed_cwin
unfoldable pub sim_seed_cwin : SimState → ℕ → SimState
sim_seed_cwin s bytes_in_flight =
    if is_initial s && ltb s.cwin bytes_in_flight
    then record s {
      cwin = bytes_in_flight;
      ssthresh = bytes_in_flight;
      alg_state = congestion_avoidance;
    }
    else s

-- The mean of the smoothed RTT of the first two paths of the array.
unfoldable pub mean_rtt : {D : Type 0} → World D → Outcome ℕ
mean_rtt w = do
  a ← slot w.slots 0
  b ← slot w.slots 1
  ok (add64 ((w.paths a).smoothed_rtt) ((w.paths b).smoothed_rtt) / 2)

-- `smoothed_rtt` at the head of `picoquic_new_tonopah_sim_notify`
unfoldable pub notify_rtt : {D : Type 0} → World D → PathState → Outcome ℕ
notify_rtt w path_x =
    if ltb 1 w.cnx.nb_paths
    then (guard (w.cnx.nb_paths == 2) assertion >> mean_rtt w)
    else ok path_x.smoothed_rtt

unfoldable pub is_recovery_over : SimState → Cnx → PathState → ℕ → ℕ → Bool
is_recovery_over s cnx path_x smoothed_rtt current_time =
    ltb smoothed_rtt (sub64 current_time s.recovery_start)
    || (if cnx.is_multipath_enabled
        then leb s.recovery_start path_x.packet_acked_time_sent
        else leb s.recovery_sequence path_x.packet_acked_number)

unfoldable pub is_recovery_spurious : SimState → Cnx → PathState → ℕ → ℕ → Bool
is_recovery_spurious s cnx path_x smoothed_rtt current_time =
    ltb (sub64 current_time s.recovery_start) smoothed_rtt
    && (if cnx.is_multipath_enabled
        then ltb path_x.packet_acked_time_sent s.recovery_start
        else ltb path_x.packet_acked_number s.recovery_sequence)

unfoldable pub sim_loss :
    {D : Type 0} → World D → SimState → PathState → Notification → ℕ → ℕ → Globals D × SimState
sim_loss w s path_x notification smoothed_rtt current_time =
    if is_recovery_over s w.cnx path_x smoothed_rtt current_time
    then sim_enter_recovery w.globals s path_x notification current_time
    else (w.globals, s)

unfoldable pub sim_spurious : SimState → Cnx → PathState → ℕ → ℕ → SimState
sim_spurious s cnx path_x smoothed_rtt current_time =
    if is_recovery_spurious s cnx path_x smoothed_rtt current_time
      && not (s.ssthresh == u64_max)
      && ltb s.cwin (mul64 2 s.ssthresh)
    then record s { cwin = mul64 2 s.ssthresh; alg_state = congestion_avoidance }
    else s

module _ (d : Doubles) where
  open d use {Double, literal, of_u64, to_u64, plus, times, over, less}

  -- MIN(rtt / 50000, 1.0)
  unfoldable pub growth_ratio : ℕ → Double
  growth_ratio rtt =
      let r = over (of_u64 rtt) (of_u64 minimum_congestion_avoidance_interval) in
      if less r (literal 10 1) then r else literal 10 1

  -- The window of congestion avoidance: the sum is taken in double precision.
  unfoldable pub grown_window : SimState → ℕ → ℕ → ℕ
  grown_window s complete_delta rtt = to_u64 (
      plus (of_u64 s.cwin)
        (times (growth_ratio rtt) (over (of_u64 complete_delta) (of_u64 s.cwin))))

  unfoldable pub sim_acknowledge :
      AlgState → World Double → SimState → PathState → ℕ → Outcome SimState
  sim_acknowledge slow_start w s path_x nb_bytes =
      let cwin' = add64 s.cwin nb_bytes in
      ok (record s {
        cwin = cwin';
        alg_state = if leb s.ssthresh cwin' then congestion_avoidance else slow_start;
      })
  sim_acknowledge congestion_avoidance w s path_x nb_bytes = do
    let complete_delta = add64 (mul64 nb_bytes path_x.send_mtu) s.residual_ack
    rtt ← mean_rtt w
    ok (record s {
      residual_ack = complete_delta % s.cwin;
      cwin = grown_window s complete_delta rtt;
    })

  -- The switch of `picoquic_new_tonopah_sim_notify`; `smoothed_rtt` is that of its head.
  unfoldable pub sim_switch :
      World Double
      → SimState
      → PathState
      → Notification
      → ℕ
      → ℕ
      → ℕ
      → Outcome (Globals Double × SimState)
  sim_switch w s path_x acknowledgement smoothed_rtt nb_bytes now = do
    s' ← sim_acknowledge s.alg_state w s path_x nb_bytes
    ok (w.globals, s')
  sim_switch w s path_x ecn_ec smoothed_rtt nb_bytes now =
      ok (sim_loss w s path_x ecn_ec smoothed_rtt now)
  sim_switch w s path_x repeat smoothed_rtt nb_bytes now =
      ok (sim_loss w s path_x repeat smoothed_rtt now)
  sim_switch w s path_x timeout smoothed_rtt nb_bytes now =
      ok (sim_loss w s path_x timeout smoothed_rtt now)
  sim_switch w s path_x spurious_repeat smoothed_rtt nb_bytes now =
      ok (w.globals, sim_spurious s w.cnx path_x smoothed_rtt now)
  sim_switch w s path_x reset smoothed_rtt nb_bytes now = ok (w.globals, sim_reset)
  sim_switch w s path_x seed_cwin smoothed_rtt nb_bytes now =
      ok (w.globals, sim_seed_cwin s nb_bytes)
  sim_switch w s path_x _ smoothed_rtt nb_bytes now = ok (w.globals, s)

  -- picoquic_new_tonopah_sim_notify
  unfoldable pub sim_notify :
      World Double
      → SimState
      → PathState
      → Notification
      → ℕ
      → ℕ
      → Outcome (Globals Double × SimState)
  sim_notify w s path_x notification nb_bytes now = do
    smoothed_rtt ← notify_rtt w path_x
    sim_switch w s path_x notification smoothed_rtt nb_bytes now
