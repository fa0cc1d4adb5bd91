-- ===== src/Sacks/Inserts.antt =====
-- The insertion of a range (picoquic/sacks.c) between those below and those above it.
use fair_queuing_aware_conge.Common.{
  ℕ, ◌<◌, ◌^◌, ◌≡◌, refl, ◌∙◌, ap, inl, inr, true, List, [], ◌∷◌, ◌++◌, All, ltb, Bool-cases, sub64,
}
use fair_queuing_aware_conge.Common.Int.{pos}
use fair_queuing_aware_conge.Sacks.{SackItem, SackList, Splay, new_item, count_new, insert_item}
use fair_queuing_aware_conge.Sacks.Operations.{with_pass, update_above}
use fair_queuing_aware_conge.Sacks.Ranges.{AtMost, IsAbove, All-Follows, All-Precedes}
use fair_queuing_aware_conge.Sacks.Passes.{above_pass}

module _ (t : Splay) where
  inserted :
      (s : SackList) (front back : List SackItem) (lo hi now : ℕ)
      → lo < 2 ^ 62
      → s.items ≡ front ++ back
      → All (AtMost lo) front
      → All (IsAbove lo) back
      → t.insert (new_item lo hi now) s.items ≡ front ++ (new_item lo hi now ∷ back)
  unfolding new_item
  inserted s front back lo hi now small whole low high =
      ap (λ items. t.insert (new_item lo hi now) items) whole
      ∙ t.insert_lem (new_item lo hi now) front back
          (All-Follows (new_item lo hi now) front small low)
          (All-Precedes (new_item lo hi now) back small high)

  -- Where it allocates, `update_above` makes the pass of `above_pass`.
  pub update_above-pass :
      (s : SackList) (front back : List SackItem) (lo hi now : ℕ)
      → lo < 2 ^ 62
      → s.items ≡ front ++ back
      → All (AtMost lo) front
      → All (IsAbove lo) back
      → update_above t true s front back lo hi now
        ≡ with_pass s front (above_pass s.rc lo hi now back)
  unfolding update_above above_pass insert_item
  update_above-pass s front [] lo hi now small whole low high =
      ap (λ items. (record s { items = items; rc = count_new s.rc }, pos 0))
        (inserted s front [] lo hi now small whole low high)
  update_above-pass s front (next ∷ back) lo hi now small whole low high =
      let put = inserted s front (next ∷ back) lo hi now small whole low high in
      elim (Bool-cases (ltb hi (sub64 next.start_of_sack_range 1))) [
        | inl apart ↦
            rw apart (ap (λ items. (record s { items = items; rc = count_new s.rc }, pos 0)) put)
        | inr touches ↦ rw touches refl
      ]
