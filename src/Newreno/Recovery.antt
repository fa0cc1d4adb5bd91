-- ===== src/Newreno/Recovery.antt =====
-- The recovery of the simulated New Reno: one reduction in a recovery period, the return to the old
-- window when the loss turns out to be spurious, and the bytes that congestion avoidance counts.
use fair_queuing_aware_conge.Common.{
  ℕ, ◌+◌, ◌-◌, ◌*◌, ◌/◌, ◌%◌, ◌^◌, ◌≤◌, ◌<◌, ◌≡◌, refl, true, List, [], ◌∷◌, arith, All, IsU64, max,
  mul64, add64,
}
use fair_queuing_aware_conge.Cc.{
  Notification, cwin_minimum, repeat, timeout, ecn_ec, spurious_repeat, acknowledgement,
}
use fair_queuing_aware_conge.Cc.Path.{PathState, Cnx}
use fair_queuing_aware_conge.Newreno.{
  congestion_avoidance, SimState, sim_enter_recovery, sim_loss, sim_spurious, is_recovery_over,
  is_recovery_spurious, sim_acknowledge, sim_notify,
}
use fair_queuing_aware_conge.Newreno.Invariant.{IsSim, quotient_small}
use native.Mathlib.Nat.{div-add-mod', mod-lt}

-- A loss, of any of the three kinds, with its time.
pub data Loss : Type 0 where
  repeated timed_out marked : ℕ → Loss

abbrev pub time_of : Loss → ℕ
time_of (repeated t) = t
time_of (timed_out t) = t
time_of (marked t) = t

abbrev pub kind_of : Loss → Notification
kind_of (repeated t) = repeat
kind_of (timed_out t) = timeout
kind_of (marked t) = ecn_ec

-- The state after the losses, while the path stays as it is.
unfoldable pub sim_losses : SimState → Cnx → PathState → List Loss → SimState
sim_losses s cnx p [] = s
sim_losses s cnx p (l ∷ ls) = sim_losses (sim_notify s cnx p (kind_of l) 0 (time_of l)) cnx p ls

-- The loss falls into the round trip that began with the recovery at `start`.
abbrev IsWithinRtt : PathState → ℕ → Loss → Type 0
IsWithinRtt p start l =
    (start ≤ time_of l) × (time_of l ≤ start + p.smoothed_rtt) × (time_of l < 2 ^ 63)

-- No packet that was sent after the recovery began has been acknowledged.
abbrev pub IsUnacked : Cnx → PathState → SimState → Type 0
IsUnacked cnx p s =
    (p.packet_acked_number < s.recovery_sequence) × (p.packet_acked_time_sent < s.recovery_start)

loss_ignored :
    (s : SimState) (cnx : Cnx) (p : PathState) (l : Loss)
    → IsUnacked cnx p s
    → IsWithinRtt p s.recovery_start l
    → sim_notify s cnx p (kind_of l) 0 (time_of l) ≡ s
unfolding sim_notify sim_loss is_recovery_over
loss_ignored s cnx p (repeated t) u w = ground arith
loss_ignored s cnx p (timed_out t) u w = ground arith
loss_ignored s cnx p (marked t) u w = ground arith

-- In the round trip after a recovery has begun, and while no later packet is acknowledged, all
-- further losses, marks and timeouts leave the state as it is: the window is reduced once.
pub sim_losses_once :
    (ls : List Loss) (s : SimState) (cnx : Cnx) (p : PathState)
    → IsUnacked cnx p s
    → All (IsWithinRtt p s.recovery_start) ls
    → sim_losses s cnx p ls ≡ s
unfolding sim_losses
sim_losses_once [] s cnx p u h = refl
sim_losses_once (l ∷ ls) s cnx p u (w, ws) =
    rw (loss_ignored s cnx p l u w) (sim_losses_once ls s cnx p u ws)

-- A loss that begins a recovery and is then found to be spurious, within the round trip and before
-- a later packet is acknowledged, gives the window back: up to one byte for an odd window, and no
-- less than twice the minimum window.
pub spurious_restores :
    (s : SimState) (cnx : Cnx) (p : PathState) (lost found : ℕ)
    → s.cwin < 2 ^ 63
    → is_recovery_over s cnx p lost ≡ true
    → lost ≤ found
    → found < lost + p.smoothed_rtt
    → found < 2 ^ 63
    → p.packet_acked_number < p.packet_number
    → p.packet_acked_time_sent < lost
    → let t = sim_notify (sim_notify s cnx p repeat 0 lost) cnx p spurious_repeat 0 found in
      (t.cwin ≡ max (s.cwin / 2 * 2) (2 * cwin_minimum)) × (t.alg_state ≡ congestion_avoidance)
unfolding sim_notify sim_loss sim_spurious is_recovery_spurious sim_enter_recovery
spurious_restores s cnx p lost found small over later soon time acked sent = ground arith

-- The division of the acknowledged bytes by the window, with no wrap.
divide_window :
    (delta w : ℕ)
    → cwin_minimum ≤ w
    → w < 2 ^ 63
    → IsU64 delta
    → (w ≤ add64 w (delta / w))
      × ((add64 w (delta / w) - w) * w + delta % w ≡ delta)
      × (delta % w < w)
divide_window delta w low small fits =
    let quotient = quotient_small delta w fits low in
    let grown : add64 w (delta / w) ≡ w + delta / w = omega arith in
    let back : w + delta / w - w ≡ delta / w = omega arith in
    rw (grown, back) (omega arith, div-add-mod' delta w, mod-lt delta {m = w} (omega arith))

-- In congestion avoidance no acknowledged byte is lost to rounding: what the window grows by, times
-- the old window, and the new residue make up the bytes times the packet size and the old residue.
pub acknowledge_conserves :
    (s : SimState) (cnx : Cnx) (p : PathState) (nb now : ℕ)
    → IsSim s
    → s.alg_state ≡ congestion_avoidance
    → nb * p.send_mtu + s.residual_ack < 2 ^ 64
    → s.cwin < 2 ^ 63
    → let t = sim_notify s cnx p acknowledgement nb now in
      (s.cwin ≤ t.cwin)
      × ((t.cwin - s.cwin) * s.cwin + t.residual_ack ≡ nb * p.send_mtu + s.residual_ack)
      × (t.residual_ack < s.cwin)
unfolding sim_notify sim_acknowledge
acknowledge_conserves s cnx p nb now h avoid fits small =
    let exact : add64 (mul64 nb p.send_mtu) s.residual_ack ≡ nb * p.send_mtu + s.residual_ack =
      omega arith in
    rw avoid
      (rw exact (divide_window (nb * p.send_mtu + s.residual_ack) s.cwin h.window small fits))
