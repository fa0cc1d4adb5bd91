-- ===== src/Newreno/Invariant.antt =====
-- The simulated New Reno keeps its window and its threshold at the minimum or above, and the
-- residue of the acknowledged bytes below the window.
use fair_queuing_aware_conge.Common.{ℕ, ◌+◌, ◌/◌, ◌^◌, ◌≤◌, ◌<◌, arith, IsU64, add64, mul64}
use fair_queuing_aware_conge.Cc.{Notification, cwin_minimum}
use fair_queuing_aware_conge.Cc.{
  acknowledgement, repeat, timeout, spurious_repeat, ecn_ec, seed_cwin, reset,
}
use fair_queuing_aware_conge.Cc.Path.{PathState, Cnx}
use fair_queuing_aware_conge.Newreno.{
  AlgState, slow_start, congestion_avoidance, SimState, sim_reset, sim_enter_recovery,
  sim_seed_cwin, sim_acknowledge, sim_loss, sim_spurious, sim_notify,
}
use native.Mathlib.Nat.{mod-lt, div-lt_iff_lt-mul}

pub record IsSim (s : SimState) : Type 0 where
  pub window : cwin_minimum ≤ s.cwin
  pub threshold : cwin_minimum ≤ s.ssthresh
  pub residue : s.residual_ack < s.cwin

pub sim_reset-IsSim : IsSim sim_reset
unfolding sim_reset
sim_reset-IsSim = omega arith

sim_enter_recovery-IsSim :
    (s : SimState) (p : PathState) (n : Notification) (now : ℕ)
    → IsSim (sim_enter_recovery s p n now)
unfolding sim_enter_recovery
sim_enter_recovery-IsSim s p n now = ground arith

-- A quotient by a window of the minimum or more is small.
pub quotient_small : (delta cwin : ℕ) → IsU64 delta → 3072 ≤ cwin → delta / cwin < 2 ^ 53
quotient_small delta cwin h w = (div-lt_iff_lt-mul (omega arith)).1 (grind arith)

sim_acknowledge-IsSim :
    (a : AlgState) (s : SimState) (p : PathState) (nb : ℕ)
    → IsSim s
    → s.cwin + nb < 2 ^ 63
    → IsSim (sim_acknowledge a s p nb)
unfolding sim_acknowledge
sim_acknowledge-IsSim slow_start s p nb h room = ground arith
sim_acknowledge-IsSim congestion_avoidance s p nb h room =
    let delta = add64 (mul64 nb p.send_mtu) s.residual_ack in
    let small = quotient_small delta s.cwin (omega arith) h.window in
    let rest = mod-lt delta {m = s.cwin} (omega arith) in ground arith

sim_loss-IsSim :
    (s : SimState) (cnx : Cnx) (p : PathState) (n : Notification) (now : ℕ)
    → IsSim s
    → IsSim (sim_loss s cnx p n now)
unfolding sim_loss
sim_loss-IsSim s cnx p n now h = ground (arith, sim_enter_recovery-IsSim s p n now)

sim_spurious-IsSim :
    (s : SimState) (cnx : Cnx) (p : PathState) (now : ℕ)
    → IsSim s
    → IsSim (sim_spurious s cnx p now)
unfolding sim_spurious
sim_spurious-IsSim s cnx p now h = ground arith

sim_seed_cwin-IsSim : (s : SimState) (bytes : ℕ) → IsSim s → IsSim (sim_seed_cwin s bytes)
unfolding sim_seed_cwin
sim_seed_cwin-IsSim s bytes h = ground arith

-- Every notification keeps the invariant, as long as the bytes that it reports fit the window.
pub sim_notify-IsSim :
    (s : SimState) (cnx : Cnx) (p : PathState) (n : Notification) (nb now : ℕ)
    → IsSim s
    → s.cwin + nb < 2 ^ 63
    → IsSim (sim_notify s cnx p n nb now)
unfolding sim_notify
sim_notify-IsSim s cnx p acknowledgement nb now h room =
    sim_acknowledge-IsSim s.alg_state s p nb h room
sim_notify-IsSim s cnx p ecn_ec nb now h room = sim_loss-IsSim s cnx p ecn_ec now h
sim_notify-IsSim s cnx p repeat nb now h room = sim_loss-IsSim s cnx p repeat now h
sim_notify-IsSim s cnx p timeout nb now h room = sim_loss-IsSim s cnx p timeout now h
sim_notify-IsSim s cnx p spurious_repeat nb now h room = sim_spurious-IsSim s cnx p now h
sim_notify-IsSim s cnx p reset nb now h room = sim_reset-IsSim
sim_notify-IsSim s cnx p seed_cwin nb now h room = sim_seed_cwin-IsSim s nb h
sim_notify-IsSim s cnx p _ nb now h room = h
