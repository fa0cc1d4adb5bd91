-- ===== src/Newreno.antt =====
-- New Reno: picoquic/newreno.c, with the types of picoquic/cc_common.h. The simulated New Reno
-- keeps its state apart from the path; the algorithm proper copies its window to the path.
pub mod Invariant
pub mod Recovery
pub mod Notify
mod Examples
use fair_queuing_aware_conge.Common.{
  ℕ, ◌+◌, ◌*◌, ◌/◌, ◌%◌, Bool, true, false, not, ◌&&◌, ◌||◌, Option, none, some, ltb, leb, ◌==◌,
  if◌then◌else◌, add64, sub64, mul64, u64_max,
}
use fair_queuing_aware_conge.Cc.{
  Doubles, Notification, acknowledgement, repeat, timeout, spurious_repeat, rtt_measurement,
  bw_measurement, ecn_ec, cwin_blocked, seed_cwin, reset, cwin_initial, cwin_minimum,
  target_reno_rtt, target_satellite_rtt,
}
use fair_queuing_aware_conge.Cc.Path.{PathState, Cnx}
use fair_queuing_aware_conge.Cc.RttFilter.{MinMaxRtt, zero_filter, hystart_test}
use fair_queuing_aware_conge.Cc.Pacing.{update_pacing_data}

-- picoquic_newreno_alg_state_t
pub data AlgState : Type 0 where
  slow_start congestion_avoidance : AlgState

abbrev pub is_slow_start : AlgState → Bool
is_slow_start slow_start = true
is_slow_start congestion_avoidance = false

-- picoquic_newreno_sim_state_t
pub record SimState : Type 0 where
  pub alg_state : AlgState
  pub cwin : ℕ
  pub residual_ack : ℕ
  pub ssthresh : ℕ
  pub recovery_start : ℕ
  pub recovery_sequence : ℕ

-- picoquic_newreno_sim_reset
pub sim_reset : SimState
sim_reset = record {
  alg_state = slow_start;
  cwin = cwin_initial;
  residual_ack = 0;
  ssthresh = u64_max;
  recovery_start = 0;
  recovery_sequence = 0;
}

abbrev is_timeout : Notification → Bool
is_timeout timeout = true
is_timeout _ = false

-- picoquic_newreno_sim_enter_recovery; the sequence number is that of the path.
sim_enter_recovery : SimState → PathState → Notification → ℕ → SimState
sim_enter_recovery s path_x notification current_time =
    let half = s.cwin / 2 in
    let threshold = if ltb half cwin_minimum then cwin_minimum else half in
    record {
      alg_state = if is_timeout notification then slow_start else congestion_avoidance;
      cwin = if is_timeout notification then cwin_minimum else threshold;
      residual_ack = 0;
      ssthresh = threshold;
      recovery_start = current_time;
      recovery_sequence = path_x.packet_number;
    }

-- picoquic_newreno_sim_seed_cwin
sim_seed_cwin : SimState → ℕ → SimState
sim_seed_cwin s bytes_in_flight =
    if is_slow_start s.alg_state && (s.ssthresh == u64_max) && ltb s.cwin bytes_in_flight
    then record s {
      cwin = bytes_in_flight;
      ssthresh = bytes_in_flight;
      alg_state = congestion_avoidance;
    }
    else s

-- The acknowledgement case of `picoquic_newreno_sim_notify`, by the state of the algorithm.
sim_acknowledge : AlgState → SimState → PathState → ℕ → SimState
sim_acknowledge slow_start s path_x nb_bytes =
    let cwin' = add64 s.cwin nb_bytes in
    record s {
      cwin = cwin';
      alg_state = if leb s.ssthresh cwin' then congestion_avoidance else slow_start;
    }
sim_acknowledge congestion_avoidance s path_x nb_bytes =
    let complete_delta = add64 (mul64 nb_bytes path_x.send_mtu) s.residual_ack in
    record s {
      residual_ack = complete_delta % s.cwin;
      cwin = add64 s.cwin (complete_delta / s.cwin);
    }

-- Whether a loss comes after the current recovery period.
pub is_recovery_over : SimState → Cnx → PathState → ℕ → Bool
is_recovery_over s cnx path_x current_time =
    ltb path_x.smoothed_rtt (sub64 current_time s.recovery_start)
    || (if cnx.is_multipath_enabled
        then leb s.recovery_start path_x.packet_acked_time_sent
        else leb s.recovery_sequence path_x.packet_acked_number)

-- Whether a spurious loss was found within the recovery period that it began.
is_recovery_spurious : SimState → Cnx → PathState → ℕ → Bool
is_recovery_spurious s cnx path_x current_time =
    ltb (sub64 current_time s.recovery_start) path_x.smoothed_rtt
    && (if cnx.is_multipath_enabled
        then ltb path_x.packet_acked_time_sent s.recovery_start
        else ltb path_x.packet_acked_number s.recovery_sequence)

sim_loss : SimState → Cnx → PathState → Notification → ℕ → SimState
sim_loss s cnx path_x notification current_time =
    if is_recovery_over s cnx path_x current_time
    then sim_enter_recovery s path_x notification current_time
    else s

sim_spurious : SimState → Cnx → PathState → ℕ → SimState
sim_spurious s cnx path_x current_time =
    if is_recovery_spurious s cnx path_x current_time
      && not (s.ssthresh == u64_max)
      && ltb s.cwin (mul64 2 s.ssthresh)
    then record s { cwin = mul64 2 s.ssthresh; alg_state = congestion_avoidance }
    else s

-- picoquic_newreno_sim_notify
pub sim_notify : SimState → Cnx → PathState → Notification → ℕ → ℕ → SimState
sim_notify s cnx path_x acknowledgement nb_bytes current_time =
    sim_acknowledge s.alg_state s path_x nb_bytes
sim_notify s cnx path_x ecn_ec nb_bytes current_time = sim_loss s cnx path_x ecn_ec current_time
sim_notify s cnx path_x repeat nb_bytes current_time = sim_loss s cnx path_x repeat current_time
sim_notify s cnx path_x timeout nb_bytes current_time = sim_loss s cnx path_x timeout current_time
sim_notify s cnx path_x spurious_repeat nb_bytes current_time =
    sim_spurious s cnx path_x current_time
sim_notify s cnx path_x reset nb_bytes current_time = sim_reset
sim_notify s cnx path_x seed_cwin nb_bytes current_time = sim_seed_cwin s nb_bytes
sim_notify s cnx path_x _ nb_bytes current_time = s

-- picoquic_newreno_state_t
pub record NewrenoState (D : Type 0) : Type 0 where
  pub nrss : SimState
  pub rtt_filter : MinMaxRtt D

abbrev is_initial : SimState → Bool
is_initial s = is_slow_start s.alg_state && (s.ssthresh == u64_max)

module _ (d : Doubles) where
  open d use {Double, literal, of_u64, to_u64, times, over}

  -- picoquic_newreno_reset, on the state and on the path
  pub newreno_reset : PathState → PathState × NewrenoState Double
  newreno_reset path_x = (
    record path_x { cwin = sim_reset.cwin },
    record { nrss = sim_reset; rtt_filter = zero_filter (literal 0 0) },
  )

  -- picoquic_newreno_init; `allocated` says whether malloc succeeds.
  pub newreno_init : Bool → PathState → PathState × Option (NewrenoState Double)
  newreno_init allocated path_x =
      if allocated then (let (p, s) = newreno_reset path_x in (p, some s)) else (path_x, none)

  -- The window for a path with a long delay, at most that of a satellite link.
  long_delay_window : ℕ → ℕ
  long_delay_window rtt_min = to_u64 (
      over
        (times (of_u64 cwin_initial)
          (of_u64 (if ltb target_satellite_rtt rtt_min then target_satellite_rtt else rtt_min)))
        (of_u64 target_reno_rtt))

  -- The window and the path's copy of it.
  abbrev set_window : PathState → NewrenoState Double → ℕ → PathState × NewrenoState Double
  set_window p s w = (record p { cwin = w }, record s { nrss = record (s.nrss) { cwin = w } })

  raise_long_delay : PathState → NewrenoState Double → PathState × NewrenoState Double
  raise_long_delay p s =
      let min_win = long_delay_window p.rtt_min in
      if ltb target_reno_rtt p.rtt_min && ltb s.nrss.cwin min_win
      then set_window p s min_win
      else (p, s)

  leave_on_rtt : PathState → NewrenoState Double → ℕ → ℕ → PathState × NewrenoState Double
  leave_on_rtt p s rtt current_time =
      let (filter, leave) = hystart_test s.rtt_filter rtt current_time in
      if leave
      then (
        record p { cwin = s.nrss.cwin; is_ssthresh_initialized = true },
        record {
          nrss = record (s.nrss) { ssthresh = s.nrss.cwin; alg_state = congestion_avoidance };
          rtt_filter = filter;
        },
      )
      else (p, record s { rtt_filter = filter })

  -- The half of the product of the bandwidth estimate and the RTT.
  bandwidth_window : PathState → ℕ
  bandwidth_window p = mul64 p.max_bandwidth_estimate p.smoothed_rtt / 1000000 / 2

  raise_bandwidth : PathState → NewrenoState Double → PathState × NewrenoState Double
  raise_bandwidth p s =
      if is_initial s.nrss && ltb s.nrss.cwin (bandwidth_window p)
      then set_window p s (bandwidth_window p)
      else (p, s)

  -- The simulation is notified, and its window is copied.
  pass_on :
      Cnx → PathState → NewrenoState Double → Notification → ℕ → ℕ → PathState × NewrenoState Double
  pass_on cnx p s notification nb_bytes current_time =
      let nrss' = sim_notify s.nrss cnx p notification nb_bytes current_time in
      (record p { cwin = nrss'.cwin }, record s { nrss = nrss' })

  -- The switch of `picoquic_newreno_notify`.
  newreno_switch :
      Cnx
      → PathState
      → NewrenoState Double
      → Notification
      → ℕ
      → ℕ
      → ℕ
      → ℕ
      → PathState × NewrenoState Double
  newreno_switch cnx p s acknowledgement rtt delay nb_bytes now =
      if ltb p.last_sender_limited_time p.last_time_acked_data_frame_sent
      then pass_on cnx p s acknowledgement nb_bytes now
      else (p, s)
  newreno_switch cnx p s seed_cwin rtt delay nb_bytes now = pass_on cnx p s seed_cwin nb_bytes now
  newreno_switch cnx p s ecn_ec rtt delay nb_bytes now = pass_on cnx p s ecn_ec nb_bytes now
  newreno_switch cnx p s repeat rtt delay nb_bytes now = pass_on cnx p s repeat nb_bytes now
  newreno_switch cnx p s timeout rtt delay nb_bytes now = pass_on cnx p s timeout nb_bytes now
  newreno_switch cnx p s spurious_repeat rtt delay nb_bytes now =
      pass_on cnx p s spurious_repeat nb_bytes now
  newreno_switch cnx p s rtt_measurement rtt delay nb_bytes now =
      if is_initial s.nrss
      then (let (p', s') = raise_long_delay p s in
          leave_on_rtt p' s' (if cnx.is_time_stamp_enabled then delay else rtt) now)
      else (p, s)
  newreno_switch cnx p s cwin_blocked rtt delay nb_bytes now = (p, s)
  newreno_switch cnx p s bw_measurement rtt delay nb_bytes now = raise_bandwidth p s
  newreno_switch cnx p s reset rtt delay nb_bytes now = newreno_reset p

  -- picoquic_newreno_notify on a path with a state; `lost_packet_number` is not read. The first
  -- argument says whether the path is the default one of the connection.
  pub newreno_notify :
      Bool
      → Cnx
      → PathState
      → NewrenoState Double
      → Notification
      → ℕ
      → ℕ
      → ℕ
      → ℕ
      → Cnx × PathState × NewrenoState Double
  newreno_notify is_default cnx path_x s notification rtt delay nb_bytes now =
      let (p, s') =
        newreno_switch cnx (record path_x { is_cc_data_updated = true }) s notification rtt delay
          nb_bytes now in
      let (cnx', q) = update_pacing_data d cnx is_default p (is_initial s'.nrss) in (cnx', q, s')

  -- picoquic_newreno_notify where congestion_alg_state may be NULL
  pub newreno_notify_opt :
      Bool
      → Cnx
      → PathState
      → Option (NewrenoState Double)
      → Notification
      → ℕ
      → ℕ
      → ℕ
      → ℕ
      → Cnx × PathState × Option (NewrenoState Double)
  newreno_notify_opt is_default cnx path_x none notification rtt delay nb_bytes now =
      (cnx, record path_x { is_cc_data_updated = true }, none)
  newreno_notify_opt is_default cnx path_x (some s) notification rtt delay nb_bytes now =
      let (cnx', q, s') =
        newreno_notify is_default cnx path_x s notification rtt delay nb_bytes now in
      (cnx', q, some s')

  -- picoquic_newreno_observe: cc_state and cc_param
  pub newreno_observe : NewrenoState Double → ℕ × ℕ
  newreno_observe s = (
    if is_slow_start s.nrss.alg_state then 0 else 1,
    if s.nrss.ssthresh == u64_max then 0 else s.nrss.ssthresh,
  )

-- picoquic_newreno_delete
pub newreno_delete : {D : Type 0} → Option (NewrenoState D) → Option (NewrenoState D)
newreno_delete s = none
