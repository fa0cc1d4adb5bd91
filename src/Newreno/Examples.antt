-- ===== src/Newreno/Examples.antt =====
-- The theorems on New Reno at concrete inputs.
use fair_queuing_aware_conge.Common.{ℕ, ◌*◌, ◌/◌, ◌≡◌, refl, true, List, [], ◌∷◌, arith, max}
use fair_queuing_aware_conge.Cc.{cwin_minimum, acknowledgement, repeat, spurious_repeat}
use fair_queuing_aware_conge.Cc.Path.{PathState, Cnx}
use fair_queuing_aware_conge.Cc.Samples.{fractions, path, cnx}
use fair_queuing_aware_conge.Cc.RttFilter.{zero_filter}
use fair_queuing_aware_conge.Newreno.{
  congestion_avoidance, SimState, NewrenoState, sim_notify, is_recovery_over, newreno_init,
  newreno_notify, newreno_reset, sim_reset,
}
use fair_queuing_aware_conge.Newreno.Invariant.{IsSim}
use fair_queuing_aware_conge.Newreno.Recovery.{
  Loss, repeated, timed_out, marked, sim_losses, sim_losses_once, spurious_restores,
}
use fair_queuing_aware_conge.Newreno.Notify.{IsSynced, started, notified, Reached-IsSynced}

-- Congestion avoidance after a recovery that began at 1000.
abbrev steady : SimState
steady = record {
  alg_state = congestion_avoidance;
  cwin = 20001;
  residual_ack = 700;
  ssthresh = 18000;
  recovery_start = 1000;
  recovery_sequence = 15;
}

steady-IsSim : IsSim steady
steady-IsSim = record { window = omega arith; threshold = omega arith; residue = omega arith }

abbrev losses : List Loss
losses = repeated 2000 ∷ timed_out 30000 ∷ marked 51000 ∷ []

sim_losses_once_example : sim_losses steady cnx path losses ≡ steady
sim_losses_once_example =
    sim_losses_once losses steady cnx path (omega arith, omega arith)
      (
        (omega arith, omega arith, omega arith),
        ((omega arith, omega arith, omega arith), ((omega arith, omega arith, omega arith), tt)),
      )

spurious_restores_example :
    let t =
      sim_notify (sim_notify steady cnx path repeat 0 60000) cnx path spurious_repeat 0 70000 in
    (t.cwin ≡ max (steady.cwin / 2 * 2) (2 * cwin_minimum)) × (t.alg_state ≡ congestion_avoidance)
spurious_restores_example =
    spurious_restores steady cnx path 60000 70000 (omega arith) (unfold is_recovery_over in refl)
      (omega arith) (omega arith) (omega arith) (omega arith) (omega arith)

-- The state of a path that follows its simulation.
abbrev synced : NewrenoState (ℕ × ℕ)
synced = record { nrss = record steady { cwin = path.cwin }; rtt_filter = zero_filter (0, 1) }

-- The path after the start and one notification.
abbrev started_path : PathState
started_path = (newreno_reset fractions path).0

abbrev started_state : NewrenoState (ℕ × ℕ)
started_state = (newreno_reset fractions path).1

abbrev after : Cnx × PathState × NewrenoState (ℕ × ℕ)
after = newreno_notify fractions true cnx started_path started_state acknowledgement 0 0 3000 60000

Reached-IsSynced_example : IsSynced fractions after.1 after.2
Reached-IsSynced_example = Reached-IsSynced fractions (
    notified true cnx after.0 started_path after.1 started_state after.2 acknowledgement 0 0 3000
      60000 (started cnx path started_path started_state (unfold newreno_init in refl))
      (unfold newreno_reset sim_reset in omega arith) refl)
