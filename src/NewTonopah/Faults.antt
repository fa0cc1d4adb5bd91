-- ===== src/NewTonopah/Faults.antt =====
-- What the handler of picoquic/new_tonopah.c does on connections that it does not expect.
use fair_queuing_aware_conge.Common.{
  ℕ, ◌<◌, ◌≡◌, refl, sym, true, false, Option, some, [], ◌∷◌, arith, ltb, leb,
}
use mathlib.Core.Path.{subst}
use fair_queuing_aware_conge.Cc.{Doubles, acknowledgement}
use fair_queuing_aware_conge.Cc.Path.{PathState}
use fair_queuing_aware_conge.NewTonopah.{
  congestion_avoidance, SimState, Globals, World, TonopahState, fault, out_of_bounds, slot, is_null,
  is_path,
}
use fair_queuing_aware_conge.NewTonopah.Sim.{
  mean_rtt, notify_rtt, sim_acknowledge, sim_switch, sim_notify,
}
use fair_queuing_aware_conge.NewTonopah.Handler.{
  Event, register_path, acknowledge, tonopah_switch, run_switch, run_state, tonopah_notify,
}

module _ (d : Doubles) where
  open d use {Double}

  sim_notify_single :
      (w : World Double) (a : ℕ) (s : SimState) (p : PathState) (nb now : ℕ)
      → w.cnx.nb_paths ≡ 1
      → w.slots ≡ a ∷ []
      → s.alg_state ≡ congestion_avoidance
      → sim_notify d w s p acknowledgement nb now ≡ fault out_of_bounds
  unfolding sim_notify notify_rtt sim_switch sim_acknowledge mean_rtt slot
  sim_notify_single w a s p nb now one array avoid = rw (one, array, avoid) refl

  acknowledge_single :
      (w : World Double) (a : ℕ) (s : TonopahState Double) (default : ℕ) (e : Event)
      → w.cnx.nb_paths ≡ 1
      → w.slots ≡ a ∷ []
      → s.nrss.alg_state ≡ congestion_avoidance
      → ltb ((w.paths a).last_sender_limited_time) ((w.paths a).last_time_acked_data_frame_sent)
        ≡ true
      → acknowledge d w s default a e ≡ fault out_of_bounds
  unfolding acknowledge
  acknowledge_single w a s default e one array avoid busy =
      rw
        (
          busy,
          sim_notify_single w a s.nrss (w.paths default) e.nb_bytes_acknowledged e.current_time one
              array avoid,
        )
        refl

  run_state_single :
      (o : Option (TonopahState Double)) (w : World Double) (a : ℕ) (s : TonopahState Double)
      (e : Event)
      → o ≡ some s
      → w.cnx.nb_paths ≡ 1
      → w.slots ≡ a ∷ []
      → s.nrss.alg_state ≡ congestion_avoidance
      → e.notification ≡ acknowledgement
      → ltb ((w.paths a).last_sender_limited_time) ((w.paths a).last_time_acked_data_frame_sent)
        ≡ true
      → run_state d o w a a e ≡ fault out_of_bounds
  unfolding run_state run_switch tonopah_switch
  run_state_single o w a s e state one array avoid ack busy =
      let switched : tonopah_switch d w s a a e.notification e ≡ fault out_of_bounds =
        subst (λ n. tonopah_switch d w s a a n e ≡ fault out_of_bounds) (sym ack)
          (acknowledge_single w a s a e one array avoid busy) in
      rw (state, switched) refl

  register_path_same : (g : Globals Double) (a : ℕ) → g.path1 ≡ some a → register_path g a ≡ g
  unfolding register_path
  register_path_same g a known =
      let first : is_null g.path1 ≡ false = rw known refl in
      let same : is_path g.path1 a ≡ true = rw known (ground arith) in rw (first, same) refl

  -- On a connection with one path, which is registered and has a state, an acknowledgement in
  -- congestion avoidance, with the sender not limited by its data, reads the second element of the
  -- array of paths, which does not exist.
  pub tonopah_notify_single :
      (w : World Double) (a : ℕ) (s : TonopahState Double) (e : Event)
      → w.cnx.nb_paths ≡ 1
      → w.slots ≡ a ∷ []
      → w.globals.path1 ≡ some a
      → w.states a ≡ some s
      → s.nrss.alg_state ≡ congestion_avoidance
      → e.notification ≡ acknowledgement
      → (w.paths a).last_sender_limited_time < (w.paths a).last_time_acked_data_frame_sent
      → tonopah_notify d w a e ≡ fault out_of_bounds
  unfolding tonopah_notify slot
  tonopah_notify_single w a s e one array known state avoid ack busy =
      let fits : leb w.cnx.nb_paths 2 ≡ true = ground arith in
      let same = register_path_same w.globals a known in
      let first : is_path w.globals.path1 a ≡ true = rw known (ground arith) in
      rw (fits, same, first, array)
        (run_state_single (w.states a) _ a s e state one refl avoid ack (ground arith))
