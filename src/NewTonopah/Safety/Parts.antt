-- ===== src/NewTonopah/Safety/Parts.antt =====
-- The parts of a notification on a connection with two paths, both known to the algorithm.
use fair_queuing_aware_conge.Common.{
  ℕ, ◌≡◌, ◌⊎◌, refl, inl, inr, Bool, true, false, not, ◌&&◌, Option, none, some, [], ◌∷◌, ◌==◌,
  if◌then◌else◌, Bool-cases,
}
use fair_queuing_aware_conge.Cc.{
  Doubles, Notification, acknowledgement, repeat, timeout, spurious_repeat, ecn_ec, seed_cwin,
  reset,
}
use fair_queuing_aware_conge.Cc.Path.{PathState}
use fair_queuing_aware_conge.NewTonopah.{
  AlgState, slow_start, congestion_avoidance, SimState, Globals, World, slot, is_null,
}
use fair_queuing_aware_conge.NewTonopah.Sim.{
  is_slow_start, interval_list_len, is_recovery_over, delete_info_list, sim_enter_recovery,
  mean_rtt, notify_rtt, sim_loss, sim_acknowledge, sim_switch, sim_notify,
}
use fair_queuing_aware_conge.NewTonopah.Interval.{aggregate_intervals}
use fair_queuing_aware_conge.NewTonopah.SetPath.{
  sequence_number, same_path, push_interval, is_interval_over, open_interval, react, close_interval,
  split_window, end_interval, set_path,
}
use fair_queuing_aware_conge.NewTonopah.Safety.Intervals.{
  Returns, Returns-bind, IsIntervals, nil-IsIntervals, aggregate_intervals-Returns,
  push_interval-Returns,
}

-- The global variables once two paths are known.
pub record IsGlobals {D : Type 0} (g : Globals D) : Type 0 where
  pub known1 : is_null g.path1 ≡ false
  pub known2 : is_null g.path2 ≡ false
  pub chosen : is_null g.dominant_path ≡ false
  pub list : IsIntervals g.intervals

-- A connection with the two paths `a` and `b`.
pub record IsTonopah {D : Type 0} (a b : ℕ) (w : World D) : Type 0 where
  pub two : w.cnx.nb_paths ≡ 2
  pub array : w.slots ≡ a ∷ b ∷ []
  pub global : IsGlobals w.globals

module _ {D : Type 0} where
  delete-IsGlobals : (g : Globals D) → IsGlobals g → IsGlobals (delete_info_list g)
  unfolding delete_info_list
  delete-IsGlobals g h = record {
    known1 = h.known1;
    known2 = h.known2;
    chosen = h.chosen;
    list = nil-IsIntervals;
  }

  pub mean_rtt-Returns :
      (a b : ℕ) (w : World D) → w.slots ≡ a ∷ b ∷ [] → Returns (λ _. Unit {0}) (mean_rtt w)
  unfolding mean_rtt slot
  mean_rtt-Returns a b w e = rw e tt

  pub notify_rtt-Returns :
      (a b : ℕ) (w : World D) (p : PathState)
      → IsTonopah a b w
      → Returns (λ _. Unit {0}) (notify_rtt w p)
  unfolding notify_rtt
  notify_rtt-Returns a b w p h = simp (h.two) (mean_rtt-Returns a b w h.array)

  enter_recovery-IsGlobals :
      (g : Globals D) (s : SimState) (p : PathState) (n : Notification) (now : ℕ)
      → IsGlobals g
      → IsGlobals (sim_enter_recovery g s p n now).0
  unfolding sim_enter_recovery
  enter_recovery-IsGlobals g s p n now h =
      elim (Bool-cases (not (is_slow_start s.alg_state) && (interval_list_len g.intervals == 0))) [
        | inl ignored ↦ rw ignored h
        | inr taken ↦ rw (taken, h.known1, h.known2) (delete-IsGlobals g h)
      ]

  sim_loss-IsGlobals :
      (w : World D) (s : SimState) (p : PathState) (n : Notification) (rtt now : ℕ)
      → IsGlobals w.globals
      → IsGlobals (sim_loss w s p n rtt now).0
  unfolding sim_loss
  sim_loss-IsGlobals w s p n rtt now h = elim (Bool-cases (is_recovery_over s w.cnx p rtt now)) [
    | inl over ↦ rw over (enter_recovery-IsGlobals w.globals s p n now h)
    | inr within ↦ rw within h
  ]

  sequence_number-Returns :
      (w : World D) (o : Option ℕ)
      → is_null o ≡ false
      → Returns (λ _. Unit {0}) (sequence_number w o)
  unfolding sequence_number
  sequence_number-Returns w none h = cc
  sequence_number-Returns w (some x) h = tt

-- A new interval has one of the two roles.
if_role : (t : Bool) → (◌≡◌ {A = ℕ} (if t then 1 else 2) 1) ⊎ (◌≡◌ {A = ℕ} (if t then 1 else 2) 2)
if_role true = inl refl
if_role false = inr refl

module _ (d : Doubles) where
  open d use {Double}

  sim_acknowledge-Returns :
      (a b : ℕ) (w : World Double) (s : SimState) (p : PathState) (nb : ℕ) (alg : AlgState)
      → IsTonopah a b w
      → Returns (λ _. Unit {0}) (sim_acknowledge d alg w s p nb)
  unfolding sim_acknowledge
  sim_acknowledge-Returns a b w s p nb slow_start h = tt
  sim_acknowledge-Returns a b w s p nb congestion_avoidance h =
      Returns-bind (λ _. Unit {0}) (λ _. Unit {0}) (mean_rtt w) _ (mean_rtt-Returns a b w h.array)
        (λ _ _. tt)

  abbrev pub Kept : Globals Double × SimState → Type 0
  Kept r = IsGlobals (r.0)

  sim_switch-Returns :
      (a b : ℕ) (w : World Double) (s : SimState) (p : PathState) (n : Notification)
      (rtt nb now : ℕ)
      → IsTonopah a b w
      → Returns Kept (sim_switch d w s p n rtt nb now)
  unfolding sim_switch
  sim_switch-Returns a b w s p acknowledgement rtt nb now h =
      Returns-bind (λ _. Unit {0}) Kept (sim_acknowledge d s.alg_state w s p nb) _
        (sim_acknowledge-Returns a b w s p nb s.alg_state h) (λ _ _. h.global)
  sim_switch-Returns a b w s p ecn_ec rtt nb now h =
      sim_loss-IsGlobals w s p ecn_ec rtt now h.global
  sim_switch-Returns a b w s p repeat rtt nb now h =
      sim_loss-IsGlobals w s p repeat rtt now h.global
  sim_switch-Returns a b w s p timeout rtt nb now h =
      sim_loss-IsGlobals w s p timeout rtt now h.global
  sim_switch-Returns a b w s p spurious_repeat rtt nb now h = h.global
  sim_switch-Returns a b w s p reset rtt nb now h = h.global
  sim_switch-Returns a b w s p seed_cwin rtt nb now h = h.global
  sim_switch-Returns a b w s p _ rtt nb now h = h.global

  pub sim_notify-Returns :
      (a b : ℕ) (w : World Double) (s : SimState) (p : PathState) (n : Notification) (nb now : ℕ)
      → IsTonopah a b w
      → Returns Kept (sim_notify d w s p n nb now)
  unfolding sim_notify
  sim_notify-Returns a b w s p n nb now h =
      Returns-bind (λ _. Unit {0}) Kept (notify_rtt w p) _ (notify_rtt-Returns a b w p h)
        (λ rtt _. sim_switch-Returns a b w s p n rtt nb now h)

  open_interval-Returns :
      (allocated : Bool) (w : World Double) (g : Globals Double) (now : ℕ)
      → IsGlobals g
      → allocated ≡ true
      → Returns IsGlobals (open_interval d allocated w g now)
  unfolding open_interval
  open_interval-Returns allocated w g now h memory = rw memory (
      Returns-bind (λ _. Unit {0}) IsGlobals (sequence_number w g.path1) _
        (sequence_number-Returns w g.path1 h.known1)
        (λ seq1 _.
          Returns-bind (λ _. Unit {0}) IsGlobals (sequence_number w g.path2) _
            (sequence_number-Returns w g.path2 h.known2)
            (λ seq2 _.
              Returns-bind IsIntervals IsGlobals (push_interval d _ g.intervals) _
                (push_interval-Returns d _ g.intervals (if_role (same_path g.dominant_path g.path1))
                  refl h.list)
                (λ list ok_list. record {
                  known1 = h.known1;
                  known2 = h.known2;
                  chosen = h.chosen;
                  list = ok_list;
                }))))

  react-IsGlobals :
      (fq : Bool) (g : Globals Double) (s : SimState) → IsGlobals g → IsGlobals (react d fq g s).0
  unfolding react
  react-IsGlobals fq g s h = elim (Bool-cases (is_slow_start s.alg_state)) [
    | inl slow ↦ rw slow (delete-IsGlobals g h)
    | inr avoid ↦ elim (Bool-cases fq) [
      | inl seen ↦ rw (avoid, seen) (delete-IsGlobals g h)
      | inr not_seen ↦ rw (avoid, not_seen) h
    ]
  ]

  close_interval-Returns :
      (allocated : Bool) (w : World Double) (s : SimState) (now : ℕ)
      → IsGlobals w.globals
      → allocated ≡ true
      → Returns Kept (close_interval d allocated w s now)
  unfolding close_interval
  close_interval-Returns allocated w s now h memory =
      Returns-bind (λ _. Unit {0}) Kept (aggregate_intervals d w.globals.intervals) _
        (aggregate_intervals-Returns d w.globals.intervals h.list)
        (λ fq _.
          Returns-bind IsGlobals Kept (open_interval d allocated w (react d fq w.globals s).0 now) _
            (open_interval-Returns allocated w (react d fq w.globals s).0 now
              (react-IsGlobals fq w.globals s h) memory)
            (λ g' ok_g. ok_g))

  pub end_interval-Returns :
      (allocated : Bool) (w : World Double) (s : SimState) (rtt now : ℕ)
      → IsGlobals w.globals
      → allocated ≡ true
      → Returns Kept (end_interval d allocated w s rtt now)
  unfolding end_interval
  end_interval-Returns allocated w s rtt now h memory =
      elim (Bool-cases (is_interval_over w.globals rtt now)) [
        | inl over ↦ rw over (close_interval-Returns allocated w s now h memory)
        | inr going_on ↦ rw going_on h
      ]

  split_window-Returns :
      (a b : ℕ) (w : World Double) (g : Globals Double) (cwin : ℕ)
      → w.slots ≡ a ∷ b ∷ []
      → Returns (λ _. Unit {0}) (split_window d w g cwin)
  unfolding split_window slot
  split_window-Returns a b w g cwin e = rw e tt

  -- The result of a part of the handler: the world stays well formed.
  abbrev pub Safe : (S : Type 0) → ℕ → ℕ → World Double × S → Type 0
  Safe S a b r = IsTonopah a b (r.0)

  pub set_path-Returns :
      (allocated : Bool) (a b : ℕ) (w : World Double) (s : SimState) (cwin now : ℕ)
      → IsTonopah a b w
      → allocated ≡ true
      → Returns (Safe SimState a b) (set_path d allocated w s cwin now)
  unfolding set_path
  set_path-Returns allocated a b w s cwin now h memory =
      elim (Bool-cases
        ((w.cnx.nb_paths == 2) && not (is_null w.globals.path1) && not (is_null w.globals.path2))) [
          | inl both ↦ rw both (
              Returns-bind (λ _. Unit {0}) (Safe SimState a b) (mean_rtt w) _
                (mean_rtt-Returns a b w h.array)
                (λ rtt _.
                  Returns-bind Kept (Safe SimState a b) (end_interval d allocated w s rtt now) _
                    (end_interval-Returns allocated w s rtt now h.global memory)
                    (λ (g, s') ok_g.
                      Returns-bind (λ _. Unit {0}) (Safe SimState a b) (split_window d w g cwin) _
                        (split_window-Returns a b w g cwin h.array)
                        (λ paths _. record { two = h.two; array = h.array; global = ok_g }))))
          | inr single ↦ rw single h
        ]
