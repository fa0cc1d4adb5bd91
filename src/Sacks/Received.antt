-- ===== src/Sacks/Received.antt =====
-- Whether a number was received (picoquic/sacks.c), against the set of the recorded ranges.
use fair_queuing_aware_conge.Common.{
  ℕ, ◌+◌, ◌<◌, ◌≤◌, ◌^◌, ◌≡◌, refl, sym, ◌∙◌, ap, ◌⊎◌, inl, inr, Bool, true, false, ◌&&◌, ◌||◌,
  List, [], ◌∷◌, ◌++◌, All, ltb, leb, arith, Bool-cases,
}
use mathlib.Core.Path.{subst}
use fair_queuing_aware_conge.Common.Int.{pos, negsuc, ltb_ℤ}
use fair_queuing_aware_conge.Sacks.{SackItem, SackList, Splay, find_range_below_number}
use fair_queuing_aware_conge.Sacks.Operations.{
  reaches, is_pn_already_received, check_sack_list, update_sack_list,
}
use fair_queuing_aware_conge.Sacks.Ranges.{
  IsFrom, within, holds, holds-append, holds-below, IsAbove, cut_items, find-nothing, find-cut,
}
use fair_queuing_aware_conge.Sacks.Fronts.{IsFrom-tail, IsFrom-node, holds-front, holds-high}

-- The first number of the range behind the item is not held.
missing :
    (lo hi b : ℕ) (front : List SackItem) (x : SackItem) (back items : List SackItem)
    → items ≡ front ++ (x ∷ back)
    → IsFrom b (front ++ (x ∷ back))
    → lo ≤ hi
    → All (IsAbove lo) back
    → leb hi x.end_of_sack_range ≡ false
    → (n : ℕ) × (within lo hi n ≡ true) × (holds items n ≡ false)
missing lo hi b front x back items whole h le high short =
    elim (Bool-cases (ltb x.end_of_sack_range lo)) [
      | inl apart ↦ (
        lo,
        ground arith,
        rw
            (
              whole,
              holds-append front (x ∷ back) lo,
              holds-front b lo front x back h (ground arith),
              holds-high lo back high,
            )
            (ground arith),
      )
      | inr reached ↦
          let n = x.end_of_sack_range + 1 in
          (
            n,
            ground arith,
            rw
                (
                  whole,
                  holds-append front (x ∷ back) n,
                  holds-front b n front x back h (omega arith),
                  holds-below (x.end_of_sack_range + 2) n back ((IsFrom-tail b front x back h).1)
                      (omega arith),
                )
                (ground arith),
          )
    ]

module _ (t : Splay) where
  -- The search and the test answer for the range from `lo` to `hi`.
  reaches-range :
      (s : SackList) (b lo hi : ℕ)
      → IsFrom b s.items
      → lo ≤ hi
      → hi < 2 ^ 62
      → ((reaches t ((find_range_below_number t s lo).node) hi ≡ true)
          × ((n : ℕ) → within lo hi n ≡ true → holds s.items n ≡ true))
        ⊎ ((reaches t ((find_range_below_number t s lo).node) hi ≡ false)
            × ((n : ℕ) × (within lo hi n ≡ true) × (holds s.items n ≡ false)))
  reaches-range s b lo hi h le small = elim (cut_items lo b s.items h) [
    | inl above ↦
        rw (find-nothing t s lo (omega arith) above)
          (inr (refl, (lo, ground arith, holds-high lo s.items above)))
    | inr c ↦
        let h' = subst (IsFrom b) (c.whole) h in
        let node = IsFrom-node b (c.front) (c.node) (c.back) h' in
        rw (find-cut t s lo (omega arith) c)
          (elim (Bool-cases (leb hi (c.node.end_of_sack_range))) [
            | inl far ↦ inl (
              far,
              λ n inside.
                  rw (c.whole, holds-append (c.front) (c.node ∷ c.back) n)
                    (ground (arith, far, inside, c.reached)),
            )
            | inr short ↦ inr (
              short,
              missing lo hi b (c.front) (c.node) (c.back) s.items (c.whole) h' le (c.high) short,
            )
          ])
  ]

  -- The test for a repeated packet answers for the numbers that the list holds, and for all numbers
  -- below the horizon where there is one.
  pub is_pn_already_received-holds :
      (s : SackList) (b pn : ℕ)
      → IsFrom b s.items
      → pn < 2 ^ 62
      → is_pn_already_received t s pn
        ≡ ((ltb_ℤ (pos 0) s.horizon_delay && ltb pn s.ack_horizon) || holds s.items pn)
  unfolding is_pn_already_received
  is_pn_already_received-holds s b pn h small =
      let same : reaches t ((find_range_below_number t s pn).node) pn ≡ holds s.items pn =
        elim (reaches-range s b pn pn h (omega arith) small) [
          | inl (yes_, all) ↦ yes_ ∙ sym (all pn (ground arith))
          | inr (no_, (n, inside, out)) ↦
              let e : n ≡ pn = ground (arith, inside) in
              no_ ∙ sym (ap (holds s.items) (sym e) ∙ out)
        ] in
      rw same refl

  -- The test for data that fill a hole returns -1 exactly if all of the range is held.
  pub check_sack_list-holds :
      (s : SackList) (b lo hi : ℕ)
      → IsFrom b s.items
      → lo ≤ hi
      → hi < 2 ^ 62
      → ((check_sack_list t s lo hi ≡ negsuc 0)
          × ((n : ℕ) → within lo hi n ≡ true → holds s.items n ≡ true))
        ⊎ ((check_sack_list t s lo hi ≡ pos 0)
            × ((n : ℕ) × (within lo hi n ≡ true) × (holds s.items n ≡ false)))
  unfolding check_sack_list
  check_sack_list-holds s b lo hi h le small = elim (reaches-range s b lo hi h le small) [
    | inl (far, all) ↦ rw far (inl (refl, all))
    | inr (short, some_) ↦ rw short (inr (refl, some_))
  ]

  -- The list after updates with the ranges, each with its time.
  unfoldable pub update_all : SackList → List (ℕ × ℕ × ℕ) → SackList
  update_all s [] = s
  update_all s ((lo, hi, now) ∷ ranges) = update_all (update_sack_list t true s lo hi now).0 ranges

  -- The abstract view: the set of the numbers, by its characteristic function.
  abbrev pub in_ranges : List (ℕ × ℕ × ℕ) → ℕ → Bool
  in_ranges [] n = false
  in_ranges ((lo, hi, now) ∷ ranges) n = within lo hi n || in_ranges ranges n

  abbrev pub IsRange : ℕ × ℕ × ℕ → Type 0
  IsRange (lo, hi, now) = (lo ≤ hi) × (hi < 2 ^ 62)
