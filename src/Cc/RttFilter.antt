-- ===== src/Cc/RttFilter.antt =====
-- The RTT filter of picoquic/cc_common.c and .h: a ring of the last samples, and the tests for the
-- end of slow start that are built on it.
pub mod Window
pub mod Hystart
mod Examples
use fair_queuing_aware_conge.Common.{
  ℕ, zero, suc, ◌+◌, ◌-◌, ◌*◌, ◌/◌, Bool, true, false, ◌&&◌, ◌||◌, List, [], ◌∷◌, ltb, leb, ◌==◌,
  if◌then◌else◌, get_or, set, take, drop, add64,
}
use fair_queuing_aware_conge.Cc.{Doubles, Notification, repeat, timeout}

abbrev pub min_max_rtt_scope : ℕ
min_max_rtt_scope = 7

abbrev pub smoothed_loss_scope : ℕ
smoothed_loss_scope = 32

-- picoquic_min_max_rtt_t; `D` is the type double, and `samples` the array.
pub record MinMaxRtt (D : Type 0) : Type 0 where
  pub last_rtt_sample_time : ℕ
  pub rtt_filtered_min : ℕ
  pub nb_rtt_excess : ℕ
  pub sample_current : ℕ
  pub is_init : Bool
  pub smoothed_drop_rate : D
  pub last_lost_packet_number : ℕ
  pub sample_min : ℕ
  pub sample_max : ℕ
  pub samples : List ℕ

-- What `memset` leaves: every field 0.
abbrev pub zero_filter : {D : Type 0} → D → MinMaxRtt D
zero_filter z = record {
  last_rtt_sample_time = 0;
  rtt_filtered_min = 0;
  nb_rtt_excess = 0;
  sample_current = 0;
  is_init = false;
  smoothed_drop_rate = z;
  last_lost_packet_number = 0;
  sample_min = 0;
  sample_max = 0;
  samples = 0 ∷ 0 ∷ 0 ∷ 0 ∷ 0 ∷ 0 ∷ 0 ∷ [];
}

-- The loop of `picoquic_filter_rtt_min_max` over the samples that are left: the pair is
-- (sample_min, sample_max).
scan : List ℕ → ℕ → ℕ → ℕ × ℕ
scan [] lo hi = (lo, hi)
scan (s ∷ rest) lo hi =
    scan rest (if ltb s lo then s else lo) (if ltb s lo then hi else (if ltb hi s then s else hi))

module _ {D : Type 0} where
  pub filter_rtt_min_max : MinMaxRtt D → ℕ → MinMaxRtt D
  filter_rtt_min_max f rtt =
      let x = f.sample_current in
      let samples' = set f.samples x rtt in
      let wrapped = leb min_max_rtt_scope (x + 1) in
      let init' = f.is_init || wrapped in
      let x_max = if init' then min_max_rtt_scope else x + 1 in
      let first = get_or samples' 0 0 in
      let (lo, hi) = scan (take (x_max - 1) (drop 1 samples')) first first in
      record f {
        samples = samples';
        is_init = init';
        sample_current = if wrapped then 0 else x + 1;
        sample_min = lo;
        sample_max = hi;
      }

  -- The part of `picoquic_hystart_test` behind `is_init`.
  pub check_excess : MinMaxRtt D → MinMaxRtt D × Bool
  check_excess f =
      let low =
        if (f.rtt_filtered_min == 0) || ltb f.sample_max f.rtt_filtered_min
        then f.sample_max
        else f.rtt_filtered_min in
      let g = record f { rtt_filtered_min = low } in
      if ltb low f.sample_min
      then (if ltb (add64 low (low / 4)) f.sample_min
          then (
            record g { nb_rtt_excess = f.nb_rtt_excess + 1 },
            leb min_max_rtt_scope (f.nb_rtt_excess + 1),
          )
          else (g, false))
      else (record g { nb_rtt_excess = 0 }, false)

  -- The parameters `packet_time` and `is_one_way_delay_enabled` are not read.
  pub hystart_test : MinMaxRtt D → ℕ → ℕ → MinMaxRtt D × Bool
  hystart_test f rtt_measurement current_time =
      if ltb (add64 f.last_rtt_sample_time 1000) current_time
      then (let g = record (filter_rtt_min_max f rtt_measurement) {
        last_rtt_sample_time = current_time;
      } in
          if g.is_init then check_excess g else (g, false))
      else (f, false)

module _ (d : Doubles) where
  open d use {Double, literal, plus, minus, times, over, less}

  -- One factor (1.0 - 1.0 / 16.0) for each packet number that is left.
  unfoldable pub drop_decay : ℕ → Double → Double
  drop_decay zero rate = rate
  drop_decay (suc k) rate =
      drop_decay k (times rate (minus (literal 10 1) (over (literal 10 1) (literal 160 1))))

  -- Whether the event ends slow start; a `repeat` does above a drop rate of 0.2.
  unfoldable pub loss_verdict : Notification → Double → Bool
  loss_verdict repeat rate = less (literal 2 1) rate
  loss_verdict timeout rate = true
  loss_verdict _ rate = false

  unfoldable pub hystart_loss_test : MinMaxRtt Double → Notification → ℕ → MinMaxRtt Double × Bool
  unfolding drop_decay loss_verdict
  hystart_loss_test f event lost_packet_number =
      let last = f.last_lost_packet_number in
      if ltb last lost_packet_number
      then (let next_number =
            if ltb (add64 last smoothed_loss_scope) lost_packet_number
            then lost_packet_number - smoothed_loss_scope
            else last in
          let decayed = drop_decay (lost_packet_number - next_number) f.smoothed_drop_rate in
          let rate =
            plus decayed
              (times (minus (literal 10 1) decayed) (over (literal 10 1) (literal 160 1))) in
          (
            record f { smoothed_drop_rate = rate; last_lost_packet_number = lost_packet_number },
            loss_verdict event rate,
          ))
      else (f, false)
