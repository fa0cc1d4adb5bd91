-- ===== src/NewTonopah/Windows.antt =====
-- How new_tonopah_set_path of picoquic/new_tonopah.c splits the window between the two paths.
use fair_queuing_aware_conge.Common.{
  ℕ, ◌≡◌, refl, ◌∙◌, ◌||◌, inl, inr, Bool, true, false, not, ◌&&◌, some, [], ◌∷◌, arith, ◌==◌,
  if◌then◌else◌, Bool-cases,
}
use fair_queuing_aware_conge.Cc.{Doubles}
use fair_queuing_aware_conge.Cc.Path.{PathState}
use fair_queuing_aware_conge.NewTonopah.{
  SimState, Globals, World, Outcome, ok, fault, null_pointer, ◌>>=◌, guard, slot, is_null,
}
use fair_queuing_aware_conge.NewTonopah.Sim.{mean_rtt, delete_info_list}
use fair_queuing_aware_conge.NewTonopah.Interval.{aggregate_intervals}
use fair_queuing_aware_conge.NewTonopah.SetPath.{
  dominant_cwin, submissive_cwin, sequence_number, push_interval, open_interval, react,
  close_interval, split_window, end_interval, is_interval_over, set_path, set_cwin,
}
use fair_queuing_aware_conge.NewTonopah.Safety.{
  Returns, Returns-bind, IsTonopah, Kept, mean_rtt-Returns, end_interval-Returns,
}

-- P holds of the result, if there is one.
abbrev IfOk {ℓ} : {A : Type ℓ} → (A → Type 0) → Outcome A → Type 0
IfOk P (ok a) = P a
IfOk P (fault e) = Unit

IfOk-bind {ℓ κ} :
    {A : Type ℓ} {B : Type κ} (P : A → Type 0) (Q : B → Type 0) (m : Outcome A) (f : A → Outcome B)
    → IfOk P m
    → ((a : A) → P a → IfOk Q (f a))
    → IfOk Q (m >>= f)
IfOk-bind P Q (ok a) f h k = k a h
IfOk-bind P Q (fault e) f h k = tt

IfOk-any {ℓ} : {A : Type ℓ} (m : Outcome A) → IfOk (λ _. Unit {0}) m
IfOk-any (ok a) = tt
IfOk-any (fault e) = tt

Returns-IfOk {ℓ} :
    {A : Type ℓ} (P Q : A → Type 0) (m : Outcome A) → Returns P m → IfOk Q m → Returns Q m
Returns-IfOk P Q (ok a) h k = k
Returns-IfOk P Q (fault e) h k = absurd h

-- The names of the two paths and of the dominant one are the same.
abbrev IsRenamed : {D : Type 0} → Globals D → Globals D → Type 0
IsRenamed g g' = (g'.path1 ≡ g.path1) × (g'.path2 ≡ g.path2) × (g'.dominant_path ≡ g.dominant_path)

-- The slot that gets the dominant share: the first one if the dominant path is path1.
abbrev pub pick : Bool → ℕ → ℕ → ℕ
pick first a b = if first then a else b

module _ (d : Doubles) where
  open d use {Double}

  open_interval-IsRenamed :
      (allocated : Bool) (w : World Double) (g : Globals Double) (now : ℕ)
      → IfOk (IsRenamed g) (open_interval d allocated w g now)
  unfolding open_interval
  open_interval-IsRenamed allocated w g now =
      IfOk-bind (λ _. Unit {0}) (IsRenamed g) (guard allocated null_pointer) _ (IfOk-any _)
        (λ _ _.
          IfOk-bind (λ _. Unit {0}) (IsRenamed g) (sequence_number w g.path1) _ (IfOk-any _)
            (λ seq1 _.
              IfOk-bind (λ _. Unit {0}) (IsRenamed g) (sequence_number w g.path2) _ (IfOk-any _)
                (λ seq2 _.
                  IfOk-bind (λ _. Unit {0}) (IsRenamed g) (push_interval d _ g.intervals) _
                    (IfOk-any _) (λ list _. (refl, refl, refl)))))

  react-IsRenamed : (fq : Bool) (g : Globals Double) (s : SimState) → IsRenamed g (react d fq g s).0
  unfolding react delete_info_list
  react-IsRenamed fq g s = ground arith

  -- The names in the first part of a result.
  abbrev Names : Globals Double → Globals Double × SimState → Type 0
  Names g r = IsRenamed g (r.0)

  close_interval-Names :
      (allocated : Bool) (w : World Double) (s : SimState) (now : ℕ)
      → IfOk (Names w.globals) (close_interval d allocated w s now)
  unfolding close_interval
  close_interval-Names allocated w s now =
      IfOk-bind (λ _. Unit {0}) (Names w.globals) (aggregate_intervals d w.globals.intervals) _
        (IfOk-any _)
        (λ fq _.
          let g = (react d fq w.globals s).0 in
          IfOk-bind (IsRenamed g) (Names w.globals) (open_interval d allocated w g now) _
            (open_interval-IsRenamed allocated w g now)
            (λ g' names.
              let before = react-IsRenamed fq w.globals s in
              (names.0 ∙ before.0, names.1 ∙ before.1, names.2 ∙ before.2)))

  end_interval-Names :
      (allocated : Bool) (w : World Double) (s : SimState) (rtt now : ℕ)
      → IfOk (Names w.globals) (end_interval d allocated w s rtt now)
  unfolding end_interval
  end_interval-Names allocated w s rtt now =
      elim (Bool-cases (is_interval_over w.globals rtt now)) [
        | inl over ↦ rw over (close_interval-Names allocated w s now)
        | inr going_on ↦ rw going_on (refl, refl, refl)
      ]

  -- The path at `large` has the dominant share of the window, the path at `small` the submissive
  -- one, and no other path has changed.
  abbrev pub IsSplit : ℕ → ℕ → ℕ → World Double → (ℕ → PathState) → Type 0
  IsSplit large small cwin w paths =
      ((paths large).cwin ≡ dominant_cwin d cwin)
      × ((paths small).cwin ≡ submissive_cwin d cwin)
      × ((x : ℕ) → (x == large) ≡ false → (x == small) ≡ false → paths x ≡ w.paths x)

  set_two :
      (paths : ℕ → PathState) (x y u v : ℕ)
      → (x == y) ≡ false
      → let new = set_cwin d (set_cwin d paths x u) y v in
        ((new x).cwin ≡ u)
        × ((new y).cwin ≡ v)
        × ((z : ℕ) → (z == x) ≡ false → (z == y) ≡ false → new z ≡ paths z)
  set_two paths x y u v apart = (ground arith, ground arith, λ z h k. rw (h, k) refl)

  split_window-IsSplit :
      (a b p q m : ℕ) (w : World Double) (g : Globals Double) (cwin : ℕ)
      → w.slots ≡ a ∷ b ∷ []
      → (a == b) ≡ false
      → g.path1 ≡ some p
      → g.path2 ≡ some q
      → g.dominant_path ≡ some m
      → ((p == m) || (q == m)) ≡ true
      → Returns (IsSplit (pick (p == m) a b) (pick (p == m) b a) cwin w) (split_window d w g cwin)
  unfolding split_window slot
  split_window-IsSplit a b p q m w g cwin array apart one two dominant known =
      elim (Bool-cases (p == m)) [
        | inl first ↦
            rw (array, one, two, dominant, first)
              (set_two w.paths a b (dominant_cwin d cwin) (submissive_cwin d cwin) apart)
        | inr other ↦
            let second : (q == m) ≡ true = ground arith in
            rw (array, one, two, dominant, other, second)
              (set_two w.paths b a (dominant_cwin d cwin) (submissive_cwin d cwin) (ground arith))
      ]

  -- On a connection with two different paths, two known paths and one of these dominant, and where
  -- malloc finds memory, the windows of the two slots of the array become the two shares of the window, and no other window changes.
  -- The larger share goes to the first slot if the dominant path is path1, and to the second one
  -- otherwise.
  pub set_path-IsSplit :
      (allocated : Bool) (a b p q m : ℕ) (w : World Double) (s : SimState) (cwin now : ℕ)
      → IsTonopah a b w
      → (a == b) ≡ false
      → w.globals.path1 ≡ some p
      → w.globals.path2 ≡ some q
      → w.globals.dominant_path ≡ some m
      → ((p == m) || (q == m)) ≡ true
      → allocated ≡ true
      → Returns
          (λ r. IsSplit (pick (p == m) a b) (pick (p == m) b a) cwin w (r.0.paths))
          (set_path d allocated w s cwin now)
  unfolding set_path
  set_path-IsSplit allocated a b p q m w s cwin now h apart one two dominant known memory =
      let Split : World Double × SimState → Type 0 =
        λ r. IsSplit (pick (p == m) a b) (pick (p == m) b a) cwin w (r.0.paths) in
      let both : ((w.cnx.nb_paths == 2)
            && not (is_null w.globals.path1)
            && not (is_null w.globals.path2))
          ≡ true =
        rw (h.two, one, two) refl in
      rw both (
        Returns-bind (λ _. Unit {0}) Split (mean_rtt w) _ (mean_rtt-Returns a b w h.array)
          (λ rtt _.
            Returns-bind (Names w.globals) Split (end_interval d allocated w s rtt now) _
              (Returns-IfOk (Kept d) (Names w.globals) (end_interval d allocated w s rtt now)
                (end_interval-Returns d allocated w s rtt now h.global memory)
                (end_interval-Names allocated w s rtt now))
              (λ (g, s') names.
                Returns-bind (IsSplit (pick (p == m) a b) (pick (p == m) b a) cwin w) Split
                  (split_window d w g cwin) _
                  (split_window-IsSplit a b p q m w g cwin h.array apart (names.0 ∙ one)
                    (names.1 ∙ two) (names.2 ∙ dominant) known)
                  (λ paths split. split))))
