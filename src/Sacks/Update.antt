-- ===== src/Sacks/Update.antt =====
-- What `picoquic_update_sack_list` (picoquic/sacks.c) does to the numbers that a sack list holds.
use fair_queuing_aware_conge.Common.{
  ℕ, ◌+◌, ◌<◌, ◌≤◌, ◌^◌, ◌≡◌, refl, sym, ◌∙◌, ◌⊎◌, inl, inr, true, false, ◌||◌, List, [], ◌∷◌, ◌++◌,
  some, All, All-append, append_assoc, ltb, arith, Bool-cases, add64,
}
use mathlib.Core.Path.{subst}
use fair_queuing_aware_conge.Common.Int.{ℤ, pos, ltb_ℤ}
use fair_queuing_aware_conge.Sacks.{SackItem, SackList, Splay, find_range_below_number}
use fair_queuing_aware_conge.Sacks.Operations.{
  Pass, extend, with_pass, update_above, update_at, update_sack_list, finish_update,
}
use fair_queuing_aware_conge.Sacks.Ranges.{
  IsFrom, within, holds, holds-append, holds-below, IsFrom-replace, AtMost, IsAbove, Cut, cut_items,
  find-nothing, find-cut,
}
use fair_queuing_aware_conge.Sacks.Passes.{
  IsMerged, extend-IsMerged, extend-IsFrom, above_pass, above_pass-IsMerged, above_pass-IsFrom,
  above_pass-ret, extend-ret_one,
}
use fair_queuing_aware_conge.Sacks.Fronts.{IsFrom-tail, IsFrom-node, holds-front, holds-high}
use fair_queuing_aware_conge.Sacks.Inserts.{update_above-pass}

-- What an update with the range from `lo` to `hi` makes of a list: it holds the range in addition, its
-- ranges stay in order, and the result says whether the range is new: it is 1 if all of it was held,
-- and 0 if a number of it was not.
pub record IsUpdated (s : SackList) (lo hi : ℕ) (r : SackList × ℤ) : Type 0 where
  pub members : (n : ℕ) → holds (r.0.items) n ≡ (holds s.items n || within lo hi n)
  pub ranges : (b : ℕ) → b ≤ lo → IsFrom b s.items → IsFrom b (r.0.items)
  pub news :
      ((r.1 ≡ pos 1) × ((n : ℕ) → within lo hi n ≡ true → holds s.items n ≡ true))
      ⊎ ((r.1 ≡ pos 0) × ((n : ℕ) × (within lo hi n ≡ true) × (holds s.items n ≡ false)))
  pub same_horizon : r.0.ack_horizon ≡ s.ack_horizon
  pub same_delay : r.0.horizon_delay ≡ s.horizon_delay

-- A pass over the tail of the list updates the list.
with_pass-members :
    (s : SackList) (lo hi n : ℕ) (front tail : List SackItem) (e : Pass)
    → s.items ≡ front ++ tail
    → IsMerged lo hi tail e
    → holds (with_pass s front e).0.items n ≡ (holds s.items n || within lo hi n)
with_pass-members s lo hi n front tail e whole merged =
    rw (whole, holds-append front (e.node ∷ e.back) n, holds-append front tail n, merged n)
      (ground arith)

module _ (t : Splay) where
  -- No item holds the start of the range: it is new.
  above-IsUpdated :
      (s : SackList) (b : ℕ) (front back : List SackItem) (lo hi now : ℕ)
      → lo ≤ hi
      → hi < 2 ^ 62
      → s.items ≡ front ++ back
      → IsFrom b back
      → All (AtMost lo) front
      → All (IsAbove lo) back
      → holds front lo ≡ false
      → ((c : ℕ)
          → c ≤ lo
          → IsFrom c s.items
          → IsFrom c (
              front
              ++ ((above_pass s.rc lo hi now back).node ∷ (above_pass s.rc lo hi now back).back)))
      → IsUpdated s lo hi (update_above t true s front back lo hi now)
  above-IsUpdated s b front back lo hi now le small whole h low high unheld order =
      rw (update_above-pass t s front back lo hi now (omega arith) whole low high) (record {
        members = λ n.
            with_pass-members s lo hi n front back (above_pass s.rc lo hi now back) whole
              (above_pass-IsMerged s.rc b lo hi now back le h high);
        ranges = order;
        news = inr (
          above_pass-ret s.rc lo hi now back,
          (
            lo,
            ground arith,
            rw (whole, holds-append front back lo, unheld, holds-high lo back high) refl,
          ),
        );
        same_horizon = refl;
        same_delay = refl;
      })

  -- The last item that begins at the start of the range or below reaches it.
  covered-IsUpdated :
      (s : SackList) (b : ℕ) (front : List SackItem) (x : SackItem) (back : List SackItem)
      (lo hi now : ℕ)
      → lo ≤ hi
      → hi < 2 ^ 62
      → s.items ≡ front ++ (x ∷ back)
      → IsFrom b s.items
      → x.start_of_sack_range ≤ lo
      → lo ≤ x.end_of_sack_range + 1
      → IsUpdated s lo hi (with_pass s front (extend hi now x back s.rc (pos 1)))
  covered-IsUpdated s b front x back lo hi now le small whole h reached near =
      let h' = subst (IsFrom b) whole h in
      let node = IsFrom-node b front x back h' in
      let e = extend hi now x back s.rc (pos 1) in
      let one = extend-ret_one hi now back x s.rc in
      record {
        members = λ n.
            with_pass-members s lo hi n front (x ∷ back) e whole
              (extend-IsMerged lo hi now back x s.rc (pos 1) reached near le node);
        ranges = λ c _ hc.
            IsFrom-replace c front (x ∷ back) (e.node ∷ e.back)
              (λ c' _. extend-IsFrom c' hi now back x s.rc (pos 1) small)
              (subst (IsFrom c) whole hc);
        news = elim (Bool-cases (ltb x.end_of_sack_range hi)) [
          | inl short ↦ inr (
            one ∙ rw short refl,
            (
              x.end_of_sack_range + 1,
              ground arith,
              rw
                  (
                    whole,
                    holds-append front (x ∷ back) (x.end_of_sack_range + 1),
                    holds-front b (x.end_of_sack_range + 1) front x back h' (omega arith),
                    holds-below (x.end_of_sack_range + 2) (x.end_of_sack_range + 1) back (node.3)
                        (omega arith),
                  )
                  (ground arith),
            ),
          )
          | inr covered ↦ inl (
            one ∙ rw covered refl,
            λ n inside.
                rw (whole, holds-append front (x ∷ back) n) (ground (arith, covered, inside)),
          )
        ];
        same_horizon = refl;
        same_delay = refl;
      }

  update_cut-IsUpdated :
      (s : SackList) (b lo hi now : ℕ)
      → lo ≤ hi
      → hi < 2 ^ 62
      → IsFrom b s.items
      → (c : Cut lo s.items)
      → IsUpdated s lo hi (update_at t true s (c.front) (some (c.node)) (c.back) lo hi now)
  unfolding update_at
  update_cut-IsUpdated s b lo hi now le small h c =
      let x = c.node in
      let h' = subst (IsFrom b) (c.whole) h in
      let tail = IsFrom-tail b (c.front) x (c.back) h' in
      let sum : add64 x.end_of_sack_range 1 ≡ x.end_of_sack_range + 1 =
        omega (arith, (IsFrom-node b (c.front) x (c.back) h').2) in
      let regroup = append_assoc (c.front) (x ∷ []) in
      elim (Bool-cases (ltb (x.end_of_sack_range + 1) lo)) [
        | inl apart ↦
            rw (sum, apart)
              (above-IsUpdated s (x.end_of_sack_range + 2) (c.front ++ (x ∷ [])) (c.back) lo hi now
                le small (c.whole ∙ sym (regroup (c.back))) (tail.1)
                (All-append (AtMost lo) (c.front) (x ∷ []) (c.low) (c.reached, tt)) (c.high)
                (rw
                  (
                    holds-append (c.front) (x ∷ []) lo,
                    holds-front b lo (c.front) x (c.back) h' (ground arith),
                  )
                  (ground arith))
                (λ k kl hk.
                  rw
                    (regroup (
                      (above_pass s.rc lo hi now (c.back)).node
                      ∷ (above_pass s.rc lo hi now (c.back)).back))
                    (IsFrom-replace k (c.front) (x ∷ c.back) _
                      (λ k' _ (a0, a1, a2, a3). (
                        a0,
                        a1,
                        a2,
                        above_pass-IsFrom s.rc (x.end_of_sack_range + 2) lo hi now (c.back)
                            (ground arith) le small a3 (c.high),
                      ))
                      (subst (IsFrom k) (c.whole) hk))))
        | inr near ↦
            rw (sum, near)
              (covered-IsUpdated s b (c.front) x (c.back) lo hi now le small (c.whole) h (c.reached)
                (ground arith))
      ]

  pub update_at-IsUpdated :
      (s : SackList) (b lo hi now : ℕ)
      → lo ≤ hi
      → hi < 2 ^ 62
      → IsFrom b s.items
      → let p = find_range_below_number t s lo in
        IsUpdated s lo hi (update_at t true s p.front p.node p.back lo hi now)
  unfolding update_at
  update_at-IsUpdated s b lo hi now le small h = elim (cut_items lo b s.items h) [
    | inl above ↦ rw (find-nothing t s lo (omega arith) above) (
        above-IsUpdated s b [] s.items lo hi now le small refl h tt above refl
          (λ c cl hc. above_pass-IsFrom s.rc c lo hi now s.items cl le small hc above))
    | inr cut ↦
        rw (find-cut t s lo (omega arith) cut) (update_cut-IsUpdated s b lo hi now le small h cut)
  ]

  pub update_sack_list-IsUpdated :
      (s : SackList) (lo hi now : ℕ)
      → lo ≤ hi
      → hi < 2 ^ 62
      → IsFrom 0 s.items
      → ltb_ℤ (pos 0) s.horizon_delay ≡ false
      → IsUpdated s lo hi (update_sack_list t true s lo hi now)
  unfolding update_sack_list finish_update
  update_sack_list-IsUpdated s lo hi now le small h off =
      let u = update_at-IsUpdated s 0 lo hi now le small h in rw (u.same_delay, off) u
