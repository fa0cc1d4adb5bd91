-- ===== src/Fastcc.antt =====
-- FastCC: picoquic/fastcc.c. A window that grows while the delay above the smallest round trip stays
-- below a threshold, and is frozen for a round trip after a reduction.
pub mod Epochs
pub mod Invariant
pub mod Freeze
mod Examples
use fair_queuing_aware_conge.Common.{
  ℕ, zero, suc, ◌+◌, ◌-◌, ◌*◌, ◌/◌, Bool, true, false, not, ◌&&◌, ◌||◌, List, [], ◌∷◌, Option, none,
  some, ltb, leb, ◌==◌, if◌then◌else◌, add64, sub64, u64_max, get_or, set,
}
use fair_queuing_aware_conge.Cc.{
  Doubles, Notification, acknowledgement, repeat, timeout, spurious_repeat, rtt_measurement,
  bw_measurement, ecn_ec, cwin_blocked, seed_cwin, reset, cwin_initial, cwin_minimum,
}
use fair_queuing_aware_conge.Cc.Path.{PathState, Cnx}
use fair_queuing_aware_conge.Cc.RttFilter.{
  MinMaxRtt, zero_filter, filter_rtt_min_max, hystart_loss_test,
}
use fair_queuing_aware_conge.Cc.Pacing.{update_pacing_data}

abbrev pub delay_threshold_max : ℕ
delay_threshold_max = 25000

abbrev pub repeat_threshold : ℕ
repeat_threshold = 4

abbrev pub nb_period : ℕ
nb_period = 6

abbrev pub period : ℕ
period = 1000000

-- picoquic_fastcc_alg_state_t
pub data AlgState : Type 0 where
  initial eval freeze : AlgState

abbrev pub is_initial : AlgState → Bool
is_initial initial = true
is_initial _ = false

abbrev pub is_freeze : AlgState → Bool
is_freeze freeze = true
is_freeze _ = false

-- picoquic_fastcc_state_t; `last_rtt_min` is the array of FASTCC_NB_PERIOD elements.
pub record FastccState (D : Type 0) : Type 0 where
  pub alg_state : AlgState
  pub end_of_freeze : ℕ
  pub last_ack_time : ℕ
  pub ack_interval : ℕ
  pub nb_bytes_ack : ℕ
  pub nb_bytes_ack_since_rtt : ℕ
  pub end_of_epoch : ℕ
  pub recovery_sequence : ℕ
  pub rtt_min : ℕ
  pub delay_threshold : ℕ
  pub rolling_rtt_min : ℕ
  pub last_rtt_min : List ℕ
  pub nb_cc_events : ℕ
  pub last_freeze_was_timeout : Bool
  pub last_freeze_was_not_delay : Bool
  pub rtt_min_is_trusted : Bool
  pub rtt_filter : MinMaxRtt D

-- picoquic_fastcc_delay_threshold
unfoldable pub delay_threshold_of : ℕ → ℕ
delay_threshold_of rtt_min =
    let delay = rtt_min / 8 in if ltb delay_threshold_max delay then delay_threshold_max else delay

-- The loop at the end of an epoch, `for (int i = FASTCC_NB_PERIOD - 1; i > 0; i--)`, from i on.
unfoldable pub roll_periods : ℕ → List ℕ → ℕ → List ℕ × ℕ
roll_periods zero periods rtt_min = (periods, rtt_min)
roll_periods (suc i) periods rtt_min =
    let p = get_or periods i 0 in
    roll_periods i (set periods (suc i) p) (if ltb 0 p && ltb p rtt_min then p else rtt_min)

module _ (d : Doubles) where
  open d use {Double, literal, of_u64, to_u64, minus, times, over}

  -- The state that picoquic_fastcc_init and picoquic_fastcc_reset set up.
  unfoldable pub fresh_state : PathState → ℕ → FastccState Double
  fresh_state path_x current_time = record {
    alg_state = initial;
    end_of_freeze = 0;
    last_ack_time = 0;
    ack_interval = 0;
    nb_bytes_ack = 0;
    nb_bytes_ack_since_rtt = 0;
    end_of_epoch = add64 current_time period;
    recovery_sequence = 0;
    rtt_min = path_x.smoothed_rtt;
    delay_threshold = delay_threshold_of path_x.smoothed_rtt;
    rolling_rtt_min = path_x.smoothed_rtt;
    last_rtt_min = 0 ∷ (0 ∷ (0 ∷ (0 ∷ (0 ∷ (0 ∷ [])))));
    nb_cc_events = 0;
    last_freeze_was_timeout = false;
    last_freeze_was_not_delay = false;
    rtt_min_is_trusted = false;
    rtt_filter = zero_filter (literal 0 0);
  }

  unfoldable pub fastcc_reset : PathState → ℕ → PathState × FastccState Double
  fastcc_reset path_x current_time =
      (record path_x { cwin = cwin_initial }, fresh_state path_x current_time)

  -- picoquic_fastcc_init; `allocated` says whether malloc succeeds where it is called.
  unfoldable pub fastcc_init :
      Bool → PathState → Option (FastccState Double) → ℕ → PathState × Option (FastccState Double)
  fastcc_init allocated path_x none current_time =
      if allocated
      then (record path_x { cwin = cwin_initial }, some (fresh_state path_x current_time))
      else (path_x, none)
  fastcc_init allocated path_x (some s) current_time =
      (record path_x { cwin = cwin_initial }, some (fresh_state path_x current_time))

  unfoldable pub fastcc_seed_cwin : PathState → FastccState Double → ℕ → PathState
  fastcc_seed_cwin path_x s bytes_in_flight =
      if is_initial s.alg_state && ltb path_x.cwin bytes_in_flight
      then record path_x { cwin = bytes_in_flight }
      else path_x

  -- The reduced window of `fastcc_notify_congestion`.
  unfoldable pub reduced_cwin : ℕ → Bool → Bool → ℕ
  reduced_cwin cwin is_delay is_timeout =
      let reduced =
        if is_delay then sub64 cwin (to_u64 (times (literal 125 3) (of_u64 cwin))) else cwin / 2 in
      if is_timeout || ltb reduced cwin_minimum then cwin_minimum else reduced

  -- Whether an event during a freeze is ignored.
  unfoldable pub is_ignored : FastccState Double → Bool → Bool → Bool
  is_ignored s is_delay is_timeout =
      is_freeze s.alg_state
      && (not is_timeout || not s.last_freeze_was_timeout)
      && (not is_delay || not s.last_freeze_was_not_delay)

  unfoldable pub frozen_state :
      FastccState Double → PathState → ℕ → Bool → Bool → FastccState Double
  frozen_state s path_x current_time is_delay is_timeout = record s {
    last_freeze_was_not_delay = not is_delay;
    last_freeze_was_timeout = is_timeout;
    alg_state = freeze;
    end_of_freeze = add64 current_time s.rtt_min;
    recovery_sequence = path_x.packet_number;
    nb_cc_events = 0;
  }

  unfoldable pub notify_congestion :
      Bool
      → Cnx
      → PathState
      → FastccState Double
      → ℕ
      → Bool
      → Bool
      → Cnx × PathState × FastccState Double
  notify_congestion is_default cnx path_x s current_time is_delay is_timeout =
      let reduced = record path_x { cwin = reduced_cwin path_x.cwin is_delay is_timeout } in
      let (cnx', p) = update_pacing_data d cnx is_default reduced false in
      if is_ignored s is_delay is_timeout then (cnx, path_x, s) else (
        cnx',
        record p { is_ssthresh_initialized = true },
        frozen_state s path_x current_time is_delay is_timeout,
      )

  -- Whether the freeze is over, and the state behind it.
  unfoldable pub leave_freeze : PathState → FastccState Double → ℕ → FastccState Double
  leave_freeze path_x s current_time =
      if is_freeze s.alg_state
        && (ltb s.end_of_freeze current_time || leb s.recovery_sequence path_x.packet_acked_number)
      then record s {
        alg_state = if s.last_freeze_was_timeout then initial else eval;
        last_freeze_was_not_delay = false;
        last_freeze_was_timeout = false;
        nb_cc_events = 0;
        nb_bytes_ack_since_rtt = 0;
      }
      else s

  -- A new sample, where the filter is full: the minimum of the epoch, and the end of the epoch.
  unfoldable pub roll_epoch : FastccState Double → ℕ → FastccState Double
  roll_epoch s current_time =
      let sample_max = (s.rtt_filter).sample_max in
      let (periods, low) = roll_periods (nb_period - 1) s.last_rtt_min u64_max in
      if ltb s.end_of_epoch current_time
      then record s {
        rtt_min = low;
        delay_threshold = delay_threshold_of low;
        last_rtt_min = set periods 0 s.rolling_rtt_min;
        rolling_rtt_min = sample_max;
        end_of_epoch = add64 current_time period;
      }
      else (if ltb sample_max s.rolling_rtt_min || (s.rolling_rtt_min == 0)
          then record s {
            rolling_rtt_min = sample_max;
            rtt_min = if ltb sample_max s.rtt_min then sample_max else s.rtt_min;
          }
          else s)

  unfoldable pub add_sample : FastccState Double → ℕ → ℕ → FastccState Double
  add_sample s rtt current_time =
      let sampled = record s { rtt_filter = filter_rtt_min_max s.rtt_filter rtt } in
      if (sampled.rtt_filter).is_init then roll_epoch sampled current_time else sampled

  -- delta_rtt, and what the sample changes of the minimum.
  unfoldable pub compare_rtt : FastccState Double → ℕ → FastccState Double × ℕ
  compare_rtt s rtt =
      if ltb rtt s.rtt_min
      then (record s { delay_threshold = delay_threshold_of s.rtt_min }, 0)
      else (if s.rtt_min_is_trusted
          then (s, rtt - s.rtt_min)
          else (record s { rtt_min = rtt; rolling_rtt_min = rtt; rtt_min_is_trusted = true }, 0))

  unfoldable pub alpha_of : FastccState Double → ℕ → Double
  alpha_of s delta_rtt =
      if is_initial s.alg_state
      then literal 10 1
      else times (minus (literal 10 1) (over (of_u64 delta_rtt) (of_u64 s.delay_threshold)))
          (literal 25 2)

  -- The delay is below the threshold.
  unfoldable pub grow : PathState → FastccState Double → ℕ → PathState × FastccState Double
  grow path_x s delta_rtt = (
    if ltb path_x.last_sender_limited_time path_x.last_time_acked_data_frame_sent
        then record path_x {
          cwin =
              add64 path_x.cwin
                (to_u64 (times (alpha_of s delta_rtt) (of_u64 s.nb_bytes_ack_since_rtt)));
        }
        else path_x,
    record s { nb_cc_events = 0; nb_bytes_ack_since_rtt = 0 },
  )

  -- The delay is above the threshold.
  unfoldable pub count_event :
      Bool → Cnx → PathState → FastccState Double → ℕ → Cnx × PathState × FastccState Double
  count_event is_default cnx path_x s current_time =
      let counted = record s { nb_cc_events = s.nb_cc_events + 1 } in
      if leb repeat_threshold (s.nb_cc_events + 1)
      then notify_congestion is_default cnx path_x counted current_time true false
      else (cnx, path_x, counted)

  unfoldable pub evaluate :
      Bool → Cnx → PathState → FastccState Double → ℕ → ℕ → Cnx × PathState × FastccState Double
  evaluate is_default cnx path_x s rtt current_time =
      let (compared, delta_rtt) = compare_rtt s rtt in
      let (p, grown) = grow path_x compared delta_rtt in
      if is_freeze s.alg_state
      then (cnx, path_x, s)
      else (if ltb delta_rtt compared.delay_threshold
          then (cnx, p, grown)
          else count_event is_default cnx path_x compared current_time)

  -- A loss, where the loss test says so.
  unfoldable pub loss :
      Bool
      → Cnx
      → PathState
      → FastccState Double
      → Notification
      → Bool
      → ℕ
      → ℕ
      → Cnx × PathState × FastccState Double
  loss is_default cnx path_x s notification is_timeout lost_packet_number current_time =
      let (filter, is_lossy) = hystart_loss_test d s.rtt_filter notification lost_packet_number in
      let tested = record s { rtt_filter = filter } in
      if is_lossy
      then notify_congestion is_default cnx path_x tested current_time false is_timeout
      else (cnx, path_x, tested)

  -- The switch of `picoquic_fastcc_notify`.
  unfoldable pub fastcc_switch :
      Bool
      → Cnx
      → PathState
      → FastccState Double
      → Notification
      → ℕ
      → ℕ
      → ℕ
      → ℕ
      → Cnx × PathState × FastccState Double
  fastcc_switch is_default cnx p s acknowledgement rtt nb_bytes lost now =
      let (cnx', q) = update_pacing_data d cnx is_default p false in
      if is_freeze s.alg_state
      then (cnx, p, s)
      else (cnx', q, record s { nb_bytes_ack_since_rtt = add64 s.nb_bytes_ack_since_rtt nb_bytes })
  fastcc_switch is_default cnx p s ecn_ec rtt nb_bytes lost now =
      notify_congestion is_default cnx p s now false false
  fastcc_switch is_default cnx p s repeat rtt nb_bytes lost now =
      loss is_default cnx p s repeat false lost now
  fastcc_switch is_default cnx p s timeout rtt nb_bytes lost now =
      loss is_default cnx p s timeout true lost now
  fastcc_switch is_default cnx p s spurious_repeat rtt nb_bytes lost now =
      (cnx, p, record s { nb_cc_events = s.nb_cc_events - 1 })
  fastcc_switch is_default cnx p s rtt_measurement rtt nb_bytes lost now =
      evaluate is_default cnx p (add_sample s rtt now) rtt now
  fastcc_switch is_default cnx p s cwin_blocked rtt nb_bytes lost now = (cnx, p, s)
  fastcc_switch is_default cnx p s bw_measurement rtt nb_bytes lost now = (cnx, p, s)
  fastcc_switch is_default cnx p s reset rtt nb_bytes lost now =
      let (q, t) = fastcc_reset p now in (cnx, q, t)
  fastcc_switch is_default cnx p s seed_cwin rtt nb_bytes lost now =
      (cnx, fastcc_seed_cwin p s nb_bytes, s)

  -- picoquic_fastcc_notify; the one-way delay is not read.
  unfoldable pub fastcc_notify :
      Bool
      → Cnx
      → PathState
      → FastccState Double
      → Notification
      → ℕ
      → ℕ
      → ℕ
      → ℕ
      → Cnx × PathState × FastccState Double
  fastcc_notify is_default cnx path_x s notification rtt nb_bytes lost now =
      fastcc_switch is_default cnx (record path_x { is_cc_data_updated = true })
        (leave_freeze path_x s now) notification rtt nb_bytes lost now

  -- picoquic_fastcc_notify where congestion_alg_state may be NULL
  unfoldable pub fastcc_notify_opt :
      Bool
      → Cnx
      → PathState
      → Option (FastccState Double)
      → Notification
      → ℕ
      → ℕ
      → ℕ
      → ℕ
      → Cnx × PathState × Option (FastccState Double)
  fastcc_notify_opt is_default cnx path_x none notification rtt nb_bytes lost now =
      (cnx, record path_x { is_cc_data_updated = true }, none)
  fastcc_notify_opt is_default cnx path_x (some s) notification rtt nb_bytes lost now =
      let (cnx', q, s') =
        fastcc_notify is_default cnx path_x s notification rtt nb_bytes lost now in
      (cnx', q, some s')

  unfoldable pub fastcc_delete : Option (FastccState Double) → Option (FastccState Double)
  fastcc_delete s = none

  -- picoquic_fastcc_observe: cc_state and cc_param
  unfoldable pub fastcc_observe : FastccState Double → ℕ × ℕ
  fastcc_observe s = (
    if is_initial s.alg_state then 0 else (if is_freeze s.alg_state then 2 else 1),
    s.rolling_rtt_min,
  )
