-- ===== src/Fastcc/Examples.antt =====
-- Runs of FastCC (picoquic/fastcc.c), and its theorems at concrete inputs.
use fair_queuing_aware_conge.Common.{
  ℕ, ◌/◌, ◌≤◌, ◌≡◌, refl, ◌⊎◌, true, false, [], ◌∷◌, max, u64_max, arith, add64,
}
use fair_queuing_aware_conge.Cc.{cwin_minimum, ecn_ec, timeout}
use fair_queuing_aware_conge.Cc.Samples.{fractions, path, cnx}
use fair_queuing_aware_conge.Cc.RttFilter.{hystart_loss_test, drop_decay, loss_verdict}
use fair_queuing_aware_conge.Fastcc.{
  freeze, FastccState, delay_threshold_max, period, fresh_state, roll_epoch, roll_periods,
  notify_congestion, is_ignored, frozen_state, fastcc_notify, fastcc_switch, leave_freeze, loss,
}
use fair_queuing_aware_conge.Fastcc.Epochs.{IsLeast, roll_epoch-IsLeast}
use fair_queuing_aware_conge.Fastcc.Freeze.{
  IsKept, marked, notify_congestion-reduces, fastcc_notify-IsKept,
}
use fair_queuing_aware_conge.Fastcc.Invariant.{IsFast, started, notified, Reached-IsFast}

abbrev fast : FastccState (ℕ × ℕ)
fast = fresh_state fractions path 1000

abbrev remembering : FastccState (ℕ × ℕ)
remembering = record fast {
  last_rtt_min = 50000 ∷ (40000 ∷ (0 ∷ (60000 ∷ (45000 ∷ (30000 ∷ [])))));
  end_of_epoch = 5000;
}

roll_epoch-IsLeast_example :
    let s' = roll_epoch fractions remembering 6000 in
    (s'.last_rtt_min
      ≡ remembering.rolling_rtt_min ∷ (50000 ∷ (40000 ∷ (0 ∷ (60000 ∷ (45000 ∷ []))))))
    × IsLeast s'.rtt_min (50000 ∷ (40000 ∷ (0 ∷ (60000 ∷ (45000 ∷ [])))))
    × (s'.delay_threshold ≤ delay_threshold_max)
    × (s'.delay_threshold ≤ s'.rtt_min / 8)
    × (s'.end_of_epoch ≡ add64 6000 period)
roll_epoch-IsLeast_example =
    roll_epoch-IsLeast fractions remembering 6000 50000 40000 0 60000 45000 30000 refl (omega arith)

least_of_five : (roll_epoch fractions remembering 6000).rtt_min ≡ 40000
unfolding roll_epoch roll_periods
least_of_five = refl

-- The first epoch leaves no smallest round trip: the period that has ended is not looked at.
first_epoch : (roll_epoch fractions fast 2000000).rtt_min ≡ u64_max
unfolding roll_epoch roll_periods fresh_state
first_epoch = refl

notify_congestion-reduces_example :
    let (cnx', q, t) = notify_congestion fractions true cnx path fast 2000 false false in
    (t.alg_state ≡ freeze)
    × (t.end_of_freeze ≡ add64 2000 fast.rtt_min)
    × (t.recovery_sequence ≡ path.packet_number)
    × (cwin_minimum ≤ q.cwin)
    × ((q.cwin ≡ max (path.cwin / 2) cwin_minimum) ⊎ ((false ≡ true) × (false ≡ false)))
notify_congestion-reduces_example =
    notify_congestion-reduces fractions true cnx path fast 2000 false false
      (unfold fresh_state is_ignored in refl)

-- A freeze that a loss began, and one that a timeout began.
abbrev after_loss : FastccState (ℕ × ℕ)
after_loss = frozen_state fractions fast path 2000 false false

abbrev after_timeout : FastccState (ℕ × ℕ)
after_timeout = frozen_state fractions fast path 2000 false true

fastcc_notify-IsKept_example :
    IsKept fractions path after_loss
      (fastcc_notify fractions true cnx path after_loss ecn_ec 0 0 0 3000)
unfolding frozen_state fresh_state
fastcc_notify-IsKept_example =
    fastcc_notify-IsKept fractions true cnx path after_loss ecn_ec 0 0 0 3000 refl (omega arith)
      (omega arith) marked

-- A timeout of a later packet is ignored in the first one, and begins the second one anew.
timeout_after_loss :
    (fastcc_notify fractions true cnx path after_loss timeout 0 0 15 3000).2.end_of_freeze ≡ 52000
unfolding fastcc_notify fastcc_switch leave_freeze loss hystart_loss_test drop_decay loss_verdict
    notify_congestion is_ignored frozen_state fresh_state
timeout_after_loss = refl

timeout_after_timeout :
    (fastcc_notify fractions true cnx path after_timeout timeout 0 0 15 3000).2.end_of_freeze
    ≡ 53000
unfolding fastcc_notify fastcc_switch leave_freeze loss hystart_loss_test drop_decay loss_verdict
    notify_congestion is_ignored frozen_state fresh_state
timeout_after_timeout = refl

Reached-IsFast_example :
    IsFast fractions (fastcc_notify fractions true cnx path fast ecn_ec 0 0 0 2000).2
Reached-IsFast_example =
    Reached-IsFast fractions (notified true cnx path fast ecn_ec 0 0 0 2000 (started path 1000))
