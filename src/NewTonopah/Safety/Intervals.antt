-- ===== src/NewTonopah/Safety/Intervals.antt =====
-- The list of intervals: at most four, each with a dominant path 1 or 2, and the newest one open.
use fair_queuing_aware_conge.Common.{
  ℕ, zero, suc, ◌+◌, ◌≤◌, ◌≡◌, refl, ap, ◌⊎◌, inl, inr, Bool, true, false, ◌&&◌, Option, none, some,
  List, [], ◌∷◌, arith, ltb, leb, Bool-cases, le→leb,
}
use fair_queuing_aware_conge.Cc.{Doubles}
use fair_queuing_aware_conge.NewTonopah.{IntervalInfo, Outcome, ok, fault, ◌>>=◌}
use fair_queuing_aware_conge.NewTonopah.Sim.{interval_list_len}
use fair_queuing_aware_conge.NewTonopah.Interval.{
  Totals, no_totals, is_finished, add_interval, aggregate_loop, aggregate_intervals, side_of,
  with_side, finish_prev, find_right_interval, drop_oldest, count_ack, count_at, count_found,
  record_ack,
}
use fair_queuing_aware_conge.NewTonopah.SetPath.{push_interval}

-- A run ends well, with a result of which P holds.
abbrev pub Returns {ℓ} : {A : Type ℓ} → (A → Type 0) → Outcome A → Type 0
Returns P (ok a) = P a
Returns P (fault e) = ⊥

pub Returns-bind {ℓ κ} :
    {A : Type ℓ} {B : Type κ} (P : A → Type 0) (Q : B → Type 0) (m : Outcome A) (f : A → Outcome B)
    → Returns P m
    → ((a : A) → P a → Returns Q (f a))
    → Returns Q (m >>= f)
Returns-bind P Q (ok a) f h k = k a h
Returns-bind P Q (fault e) f h k = absurd h

module _ {D : Type 0} where
  abbrev pub IsRole : IntervalInfo D → Type 0
  IsRole i = (i.dominant_path_id ≡ 1) ⊎ (i.dominant_path_id ≡ 2)

  abbrev pub Roles : List (IntervalInfo D) → Type 0
  Roles [] = Unit
  Roles (i ∷ rest) = IsRole i × Roles rest

  -- The newest interval is not finished on both paths.
  abbrev pub HeadOpen : List (IntervalInfo D) → Type 0
  HeadOpen [] = Unit
  HeadOpen (i ∷ rest) = (i.side1.finished && i.side2.finished) ≡ false

  pub record IsIntervals (list : List (IntervalInfo D)) : Type 0 where
    pub short : interval_list_len list ≤ 4
    pub roles : Roles list
    pub newest : HeadOpen list

  pub nil-IsIntervals : IsIntervals []
  unfolding interval_list_len
  nil-IsIntervals = record { short = omega arith; roles = tt; newest = tt }

module _ (d : Doubles) where
  open d use {Double}

  add_interval-Returns :
      (i n : IntervalInfo Double) (dom sub : Totals Double)
      → IsRole i
      → Returns (λ _. Unit {0}) (add_interval d i (some n) dom sub)
  unfolding add_interval
  add_interval-Returns i n dom sub h = ground arith

  -- With a next interval at hand the loop runs to its end.
  aggregate_loop-Returns :
      (list : List (IntervalInfo Double)) (n : IntervalInfo Double) (len : ℕ)
      (dom sub : Totals Double)
      → Roles list
      → Returns (λ _. Unit {0}) (aggregate_loop d list (some n) len dom sub)
  unfolding aggregate_loop
  aggregate_loop-Returns [] n len dom sub h = tt
  aggregate_loop-Returns (i ∷ prev) n len dom sub (role, roles) =
      elim (Bool-cases (is_finished d i)) [
        | inl done ↦ rw done (
            Returns-bind (λ _. Unit {0}) (λ _. Unit {0}) (add_interval d i (some n) dom sub) _
              (add_interval-Returns i n dom sub role)
              (λ (dom', sub') _.
                ground (arith, aggregate_loop-Returns prev i (len + 1) dom' sub' roles)))
        | inr open_yet ↦
            rw open_yet (aggregate_loop-Returns prev i 0 (no_totals d) (no_totals d) roles)
      ]

  -- The aggregation of a well-formed list follows no NULL pointer and fails no assert.
  pub aggregate_intervals-Returns :
      (list : List (IntervalInfo Double))
      → IsIntervals list
      → Returns (λ _. Unit {0}) (aggregate_intervals d list)
  unfolding aggregate_intervals aggregate_loop
  aggregate_intervals-Returns [] h = tt
  aggregate_intervals-Returns (i ∷ prev) h =
      rw (h.newest) (aggregate_loop-Returns prev i 0 (no_totals d) (no_totals d) (h.roles.1))

module _ {D : Type 0} where
  len-drop_oldest :
      (i : IntervalInfo D) (rest : List (IntervalInfo D))
      → interval_list_len (drop_oldest (i ∷ rest)) ≡ interval_list_len rest
  unfolding interval_list_len drop_oldest
  len-drop_oldest i [] = refl
  len-drop_oldest i (j ∷ rest) = ap suc (len-drop_oldest j rest)

  Roles-drop_oldest : (list : List (IntervalInfo D)) → Roles list → Roles (drop_oldest list)
  unfolding drop_oldest
  Roles-drop_oldest [] h = tt
  Roles-drop_oldest (i ∷ []) h = tt
  Roles-drop_oldest (i ∷ (j ∷ rest)) (role, roles) = (role, Roles-drop_oldest (j ∷ rest) roles)

  HeadOpen-drop_oldest :
      (list : List (IntervalInfo D)) → HeadOpen list → HeadOpen (drop_oldest list)
  unfolding drop_oldest
  HeadOpen-drop_oldest [] h = tt
  HeadOpen-drop_oldest (i ∷ []) h = tt
  HeadOpen-drop_oldest (i ∷ (j ∷ rest)) h = h

  -- What the search and the count change of a list: no length, no role, and not whether the newest
  -- interval is finished.
  abbrev Alike : List (IntervalInfo D) → List (IntervalInfo D) → Type 0
  Alike list list' =
      (interval_list_len list' ≡ interval_list_len list)
      × (Roles list → Roles list')
      × (HeadOpen list → HeadOpen list')

  Alike-finish_prev :
      (first : Bool) (list : List (IntervalInfo D))
      → (interval_list_len (finish_prev first list) ≡ interval_list_len list)
        × (Roles list → Roles (finish_prev first list))
  unfolding finish_prev with_side interval_list_len
  Alike-finish_prev first [] = (refl, λ h. tt)
  Alike-finish_prev true (i ∷ prev) = (refl, λ h. h)
  Alike-finish_prev false (i ∷ prev) = (refl, λ h. h)

  Alike-find :
      (first : Bool) (ack_num : ℕ) (list : List (IntervalInfo D))
      → Alike list (find_right_interval first ack_num list).0
  unfolding find_right_interval interval_list_len
  Alike-find first ack_num [] = (refl, λ h. tt, λ h. tt)
  Alike-find first ack_num (i ∷ prev) =
      let (len, roles) = Alike-finish_prev first prev in
      let (len', roles', newest') = Alike-find first ack_num prev in
      elim (Bool-cases (leb ((side_of first i).first_seq_num) ack_num)) [
        | inl found ↦ rw found (ap suc len, λ h. (h.0, roles (h.1)), λ h. h)
        | inr older ↦ rw older (ap suc len', λ h. (h.0, roles' (h.1)), λ h. h)
      ]

module _ (d : Doubles) where
  open d use {Double}

  Alike-count_at :
      (first : Bool) (k nb rtt time : ℕ) (list : List (IntervalInfo Double))
      → Alike list (count_at d first k nb rtt time list)
  unfolding count_at with_side count_ack interval_list_len
  Alike-count_at first k nb rtt time [] = (refl, λ h. tt, λ h. tt)
  Alike-count_at true zero nb rtt time (i ∷ prev) = (refl, λ h. h, λ h. h)
  Alike-count_at false zero nb rtt time (i ∷ prev) = (refl, λ h. h, λ h. h)
  Alike-count_at first (suc k) nb rtt time (i ∷ prev) =
      let (len, roles, newest) = Alike-count_at first k nb rtt time prev in
      (ap suc len, λ h. (h.0, roles (h.1)), λ h. h)

  IsIntervals-Alike :
      (list list' : List (IntervalInfo Double))
      → Alike list list'
      → IsIntervals list
      → IsIntervals list'
  IsIntervals-Alike list list' (len, roles, newest) h = record {
    short = omega arith;
    roles = roles h.roles;
    newest = newest h.newest;
  }

  count_found-IsIntervals :
      (first : Bool) (place : Option ℕ) (nb rtt time : ℕ) (list : List (IntervalInfo Double))
      → IsIntervals list
      → IsIntervals (count_found d first place nb rtt time list)
  unfolding count_found
  count_found-IsIntervals first none nb rtt time list h = h
  count_found-IsIntervals first (some k) nb rtt time list h =
      IsIntervals-Alike list (count_at d first k nb rtt time list)
        (Alike-count_at first k nb rtt time list) h

  -- An acknowledgement keeps the list well formed.
  pub record_ack-IsIntervals :
      (first : Bool) (ack_num nb rtt time : ℕ) (list : List (IntervalInfo Double))
      → IsIntervals list
      → IsIntervals (record_ack d first ack_num nb rtt time list)
  unfolding record_ack
  record_ack-IsIntervals first ack_num nb rtt time list h =
      count_found-IsIntervals first (find_right_interval first ack_num list).1 nb rtt time
        (find_right_interval first ack_num list).0
        (IsIntervals-Alike list (find_right_interval first ack_num list).0
          (Alike-find first ack_num list) h)

  -- A new interval that is open and has a role passes the assert, and the list stays well formed.
  pub push_interval-Returns :
      (i : IntervalInfo Double) (list : List (IntervalInfo Double))
      → IsRole i
      → HeadOpen (i ∷ list)
      → IsIntervals list
      → Returns IsIntervals (push_interval d i list)
  unfolding push_interval
  push_interval-Returns i list role open_yet h =
      let longer : interval_list_len (i ∷ list) ≡ suc (interval_list_len list) =
        unfold interval_list_len in refl in
      let fits : leb (suc (interval_list_len list)) 5 ≡ true =
        le→leb (suc (interval_list_len list)) 5 (omega (arith, h.short)) in
      elim (Bool-cases (ltb 4 (suc (interval_list_len list)))) [
        | inl full ↦
            rw (longer, fits, full)
              (record {
                short = rw (len-drop_oldest i list) (h.short);
                roles = Roles-drop_oldest (i ∷ list) (role, h.roles);
                newest = HeadOpen-drop_oldest (i ∷ list) open_yet;
              })
        | inr room ↦
            rw (longer, fits, room)
              (record {
                short = rw longer (ground arith);
                roles = (role, h.roles);
                newest = open_yet;
              })
      ]
