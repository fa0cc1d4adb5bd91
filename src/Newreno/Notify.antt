-- ===== src/Newreno/Notify.antt =====
-- The whole notification handler of New Reno: the path carries the window of the simulation, and
-- the invariants of the simulation and of the RTT filter hold after any history.
use fair_queuing_aware_conge.Common.{
  ℕ, ◌+◌, ◌^◌, ◌<◌, ◌≡◌, refl, ◌∙◌, Bool, true, arith, Option, none, some, Bool-cases, inl, inr,
}
use mathlib.Core.Path.{subst}
use fair_queuing_aware_conge.Cc.{
  Doubles, Notification, acknowledgement, repeat, timeout, spurious_repeat, rtt_measurement,
  bw_measurement, ecn_ec, cwin_blocked, seed_cwin, reset,
}
use fair_queuing_aware_conge.Cc.Path.{PathState, Cnx}
use fair_queuing_aware_conge.Cc.RttFilter.Window.{IsRing}
use fair_queuing_aware_conge.Cc.RttFilter.Hystart.{IsRing-hystart_test}
use fair_queuing_aware_conge.Cc.Pacing.Rate.{update_pacing_data-IsUpdated}
use fair_queuing_aware_conge.Newreno.{
  NewrenoState, is_initial, newreno_reset, newreno_init, raise_long_delay, leave_on_rtt,
  raise_bandwidth, pass_on, newreno_switch, newreno_notify,
}
use fair_queuing_aware_conge.Newreno.Invariant.{IsSim, sim_reset-IsSim, sim_notify-IsSim}

module _ (d : Doubles) where
  open d use {Double}

  -- What holds of a path and its New Reno state between two notifications.
  pub record IsSynced (p : PathState) (s : NewrenoState Double) : Type 0 where
    pub copied : p.cwin ≡ s.nrss.cwin
    pub sim : IsSim s.nrss
    pub ring : IsRing s.rtt_filter

  newreno_reset-IsSynced : (p : PathState) → IsSynced (newreno_reset d p).0 (newreno_reset d p).1
  unfolding newreno_reset
  newreno_reset-IsSynced p = record {
    copied = refl;
    sim = sim_reset-IsSim;
    ring = (refl, omega arith);
  }

  pass_on-IsSynced :
      (cnx : Cnx) (p : PathState) (s : NewrenoState Double) (n : Notification) (nb now : ℕ)
      → IsSynced p s
      → s.nrss.cwin + nb < 2 ^ 63
      → IsSynced (pass_on d cnx p s n nb now).0 (pass_on d cnx p s n nb now).1
  unfolding pass_on
  pass_on-IsSynced cnx p s n nb now h room = record {
    copied = refl;
    sim = sim_notify-IsSim s.nrss cnx p n nb now h.sim room;
    ring = h.ring;
  }

  raise_long_delay-IsSynced :
      (p : PathState) (s : NewrenoState Double)
      → IsSynced p s
      → IsSynced (raise_long_delay d p s).0 (raise_long_delay d p s).1
  unfolding raise_long_delay
  raise_long_delay-IsSynced p s h = ground arith

  raise_bandwidth-IsSynced :
      (p : PathState) (s : NewrenoState Double)
      → IsSynced p s
      → IsSynced (raise_bandwidth d p s).0 (raise_bandwidth d p s).1
  unfolding raise_bandwidth
  raise_bandwidth-IsSynced p s h = ground arith

  leave_on_rtt-IsSynced :
      (p : PathState) (s : NewrenoState Double) (rtt now : ℕ)
      → IsSynced p s
      → IsSynced (leave_on_rtt d p s rtt now).0 (leave_on_rtt d p s rtt now).1
  unfolding leave_on_rtt
  leave_on_rtt-IsSynced p s rtt now h =
      ground (arith, IsRing-hystart_test s.rtt_filter rtt now h.ring)

  newreno_switch-IsSynced :
      (cnx : Cnx) (p : PathState) (s : NewrenoState Double) (n : Notification)
      (rtt delay nb now : ℕ)
      → IsSynced p s
      → s.nrss.cwin + nb < 2 ^ 63
      → IsSynced
          (newreno_switch d cnx p s n rtt delay nb now).0
          (newreno_switch d cnx p s n rtt delay nb now).1
  unfolding newreno_switch
  newreno_switch-IsSynced cnx p s acknowledgement rtt delay nb now h room =
      ground (arith, pass_on-IsSynced cnx p s acknowledgement nb now h room)
  newreno_switch-IsSynced cnx p s seed_cwin rtt delay nb now h room =
      pass_on-IsSynced cnx p s seed_cwin nb now h room
  newreno_switch-IsSynced cnx p s ecn_ec rtt delay nb now h room =
      pass_on-IsSynced cnx p s ecn_ec nb now h room
  newreno_switch-IsSynced cnx p s repeat rtt delay nb now h room =
      pass_on-IsSynced cnx p s repeat nb now h room
  newreno_switch-IsSynced cnx p s timeout rtt delay nb now h room =
      pass_on-IsSynced cnx p s timeout nb now h room
  newreno_switch-IsSynced cnx p s spurious_repeat rtt delay nb now h room =
      pass_on-IsSynced cnx p s spurious_repeat nb now h room
  newreno_switch-IsSynced cnx p s rtt_measurement rtt delay nb now h room =
      elim (Bool-cases (is_initial s.nrss)) [
        | inl initial ↦ rw initial (
            leave_on_rtt-IsSynced (raise_long_delay d p s).0 (raise_long_delay d p s).1 _ now
              (raise_long_delay-IsSynced p s h))
        | inr later ↦ rw later h
      ]
  newreno_switch-IsSynced cnx p s cwin_blocked rtt delay nb now h room = h
  newreno_switch-IsSynced cnx p s bw_measurement rtt delay nb now h room =
      raise_bandwidth-IsSynced p s h
  newreno_switch-IsSynced cnx p s reset rtt delay nb now h room = newreno_reset-IsSynced p

  -- Every notification leaves the path with the window of the simulation, at the minimum or above,
  -- as long as the bytes that it reports fit the window.
  pub newreno_notify-IsSynced :
      (is_default : Bool) (cnx : Cnx) (p : PathState) (s : NewrenoState Double) (n : Notification)
      (rtt delay nb now : ℕ)
      → IsSynced p s
      → s.nrss.cwin + nb < 2 ^ 63
      → IsSynced
          (newreno_notify d is_default cnx p s n rtt delay nb now).1
          (newreno_notify d is_default cnx p s n rtt delay nb now).2
  unfolding newreno_notify
  newreno_notify-IsSynced is_default cnx p s n rtt delay nb now h room =
      let (q, t) =
        newreno_switch d cnx (record p { is_cc_data_updated = true }) s n rtt delay nb now in
      let synced =
        newreno_switch-IsSynced cnx (record p { is_cc_data_updated = true }) s n rtt delay nb now
          (record { copied = h.copied; sim = h.sim; ring = h.ring }) room in
      let paced = update_pacing_data-IsUpdated d cnx is_default q (is_initial t.nrss) in
      record { copied = paced.window ∙ synced.copied; sim = synced.sim; ring = synced.ring }

  abbrev IsStarted : PathState × Option (NewrenoState Double) → Type 0
  IsStarted (q, none) = Unit
  IsStarted (q, some s) = IsSynced q s

  newreno_init-IsSynced :
      (p q : PathState) (s : NewrenoState Double)
      → newreno_init d true p ≡ (q, some s)
      → IsSynced q s
  unfolding newreno_init
  newreno_init-IsSynced p q s e = subst IsStarted e (newreno_reset-IsSynced p)

-- The states of a path under New Reno: it starts with an allocated state, is notified of anything,
-- and between notifications the connection changes what it likes but the window.
pub data Reached (d : Doubles) : Cnx → PathState → NewrenoState (d.Double) → Type 0 where
  started :
      (cnx : Cnx) (p q : PathState) (s : NewrenoState (d.Double))
      → newreno_init d true p ≡ (q, some s)
      → Reached d cnx q s
  notified :
      (is_default : Bool) (cnx cnx' : Cnx) (p q : PathState) (s t : NewrenoState (d.Double))
      (n : Notification) (rtt delay nb now : ℕ)
      → Reached d cnx p s
      → s.nrss.cwin + nb < 2 ^ 63
      → newreno_notify d is_default cnx p s n rtt delay nb now ≡ (cnx', q, t)
      → Reached d cnx' q t
  changed :
      (cnx cnx' : Cnx) (p q : PathState) (s : NewrenoState (d.Double))
      → Reached d cnx p s
      → q.cwin ≡ p.cwin
      → Reached d cnx' q s

-- In every state that New Reno reaches, the window of the path is that of the simulation and at
-- least two packets, and the residue of the acknowledged bytes is below it.
pub Reached-IsSynced :
    (d : Doubles) {cnx : Cnx} {p : PathState} {s : NewrenoState (d.Double)}
    → Reached d cnx p s
    → IsSynced d p s
Reached-IsSynced d (started cnx p q s e) = newreno_init-IsSynced d p q s e
Reached-IsSynced d (notified is_default cnx cnx' p q s t n rtt delay nb now r room e) =
    subst (λ (r : Cnx × PathState × NewrenoState (d.Double)). IsSynced d r.1 r.2) e
      (newreno_notify-IsSynced d is_default cnx p s n rtt delay nb now (Reached-IsSynced d r) room)
Reached-IsSynced d (changed cnx cnx' p q s r e) =
    let h = Reached-IsSynced d r in record { copied = e ∙ h.copied; sim = h.sim; ring = h.ring }
