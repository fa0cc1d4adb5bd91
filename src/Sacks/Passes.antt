-- ===== src/Sacks/Passes.antt =====
-- What one pass of `picoquic_update_sack_list` makes of a node and the items behind it.
use fair_queuing_aware_conge.Common.{
  ℕ, ◌+◌, ◌-◌, ◌<◌, ◌≤◌, ◌^◌, ◌≡◌, refl, ◌∙◌, inl, inr, ◌||◌, List, [], ◌∷◌, All, ltb,
  if◌then◌else◌, arith, Bool-cases, sub64,
}
use fair_queuing_aware_conge.Common.Int.{ℤ, pos}
use fair_queuing_aware_conge.Sacks.{
  SackItem, RangeCounts, new_item, record_reset, count_reset, uncount, count_new,
}
use fair_queuing_aware_conge.Sacks.Operations.{Pass, close_pass, merge_next, extend, extend_down}
use fair_queuing_aware_conge.Sacks.Ranges.{IsFrom, within, holds, IsAbove}

-- The node and the items behind it after a pass hold what the items held before and the range.
abbrev pub IsMerged : ℕ → ℕ → List SackItem → Pass → Type 0
IsMerged lo hi tail e = (n : ℕ) → holds (e.node ∷ e.back) n ≡ (holds tail n || within lo hi n)

-- One round of the loop takes the next item over, which touches the range.
holds-merge_next :
    (lo hi n : ℕ) (x next : SackItem) (back : List SackItem)
    → x.start_of_sack_range ≤ lo
    → lo ≤ x.end_of_sack_range + 1
    → x.start_of_sack_range ≤ x.end_of_sack_range
    → x.end_of_sack_range < next.start_of_sack_range
    → next.start_of_sack_range ≤ next.end_of_sack_range
    → next.start_of_sack_range ≤ hi + 1
    → (holds (merge_next x next ∷ back) n || within lo hi n)
      ≡ (holds (x ∷ (next ∷ back)) n || within lo hi n)
unfolding merge_next record_reset
holds-merge_next lo hi n x next back a b c d e f = ground arith

pub extend-IsMerged :
    (lo hi now : ℕ) (back : List SackItem) (x : SackItem) (rc : RangeCounts) (ret : ℤ)
    → x.start_of_sack_range ≤ lo
    → lo ≤ x.end_of_sack_range + 1
    → lo ≤ hi
    → IsFrom (x.start_of_sack_range) (x ∷ back)
    → IsMerged lo hi (x ∷ back) (extend hi now x back rc ret)
unfolding extend close_pass record_reset merge_next
extend-IsMerged lo hi now [] x rc ret a b le h n = ground arith
extend-IsMerged lo hi now (next ∷ back) x rc ret a b le (h0, h1, h2, (k0, k1, k2, k3)) n =
    let gap : sub64 next.start_of_sack_range 1 ≡ next.start_of_sack_range - 1 = omega arith in
    let ih =
      extend-IsMerged lo hi now back (merge_next x next) (uncount next (count_reset x rc)) (pos 0) a
        (omega arith) le (omega arith, omega arith, k2, k3) n in
    elim (Bool-cases (ltb x.end_of_sack_range hi)) [
      | inr covered ↦ rw covered (ground arith)
      | inl short ↦ elim (Bool-cases (ltb hi (next.start_of_sack_range - 1))) [
        | inl apart ↦ rw (short, gap, apart) (ground arith)
        | inr touches ↦
            rw (short, gap, touches)
              (ih ∙ holds-merge_next lo hi n x next back a b h1 (omega arith) k1 (ground arith))
      ]
    ]

-- The pass leaves ranges that are in order, and whose first begins where it did.
pub extend-IsFrom :
    (lo hi now : ℕ) (back : List SackItem) (x : SackItem) (rc : RangeCounts) (ret : ℤ)
    → hi < 2 ^ 62
    → IsFrom lo (x ∷ back)
    → IsFrom lo ((extend hi now x back rc ret).node ∷ (extend hi now x back rc ret).back)
unfolding extend close_pass record_reset merge_next
extend-IsFrom lo hi now [] x rc ret small h = ground arith
extend-IsFrom lo hi now (next ∷ back) x rc ret small (h0, h1, h2, (k0, k1, k2, k3)) =
    let gap : sub64 next.start_of_sack_range 1 ≡ next.start_of_sack_range - 1 = omega arith in
    let ih =
      extend-IsFrom lo hi now back (merge_next x next) (uncount next (count_reset x rc)) (pos 0)
        small (h0, omega arith, k2, k3) in
    elim (Bool-cases (ltb x.end_of_sack_range hi)) [
      | inr covered ↦ rw covered (h0, h1, h2, (k0, k1, k2, k3))
      | inl short ↦ elim (Bool-cases (ltb hi (next.start_of_sack_range - 1))) [
        | inl apart ↦ rw (short, gap, apart) (h0, ground arith, small, (ground arith, k1, k2, k3))
        | inr touches ↦ rw (short, gap, touches) ih
      ]
    ]

-- The pass that `update_above` makes of the items above the range, where it allocates.
unfoldable pub above_pass : RangeCounts → ℕ → ℕ → ℕ → List SackItem → Pass
above_pass rc lo hi now [] = record {
  node = new_item lo hi now;
  back = [];
  rc = count_new rc;
  ret = pos 0;
}
above_pass rc lo hi now (next ∷ back) =
    if ltb hi (sub64 next.start_of_sack_range 1)
    then record { node = new_item lo hi now; back = next ∷ back; rc = count_new rc; ret = pos 0 }
    else extend hi now (extend_down lo now next) back (count_reset next rc) (pos 0)

pub above_pass-IsMerged :
    (rc : RangeCounts) (b lo hi now : ℕ) (back : List SackItem)
    → lo ≤ hi
    → IsFrom b back
    → All (IsAbove lo) back
    → IsMerged lo hi back (above_pass rc lo hi now back)
unfolding above_pass new_item
above_pass-IsMerged rc b lo hi now [] le h above n = ground arith
above_pass-IsMerged rc b lo hi now (next ∷ back) le (k0, k1, k2, k3) ((a, a'), rest) n =
    let gap : sub64 next.start_of_sack_range 1 ≡ next.start_of_sack_range - 1 = omega arith in
    elim (Bool-cases (ltb hi (next.start_of_sack_range - 1))) [
      | inl apart ↦ rw (gap, apart) (ground arith)
      | inr touches ↦
          rw (gap, touches)
            (extend-IsMerged lo hi now back (extend_down lo now next) (count_reset next rc) (pos 0)
                (unfold extend_down record_reset in omega arith)
                (unfold extend_down record_reset in omega arith) le
                (unfold extend_down record_reset in (omega arith, omega arith, k2, k3)) n
              ∙ unfold extend_down record_reset in ground (arith, touches))
    ]

pub above_pass-IsFrom :
    (rc : RangeCounts) (b lo hi now : ℕ) (back : List SackItem)
    → b ≤ lo
    → lo ≤ hi
    → hi < 2 ^ 62
    → IsFrom b back
    → All (IsAbove lo) back
    → IsFrom b ((above_pass rc lo hi now back).node ∷ (above_pass rc lo hi now back).back)
unfolding above_pass new_item
above_pass-IsFrom rc b lo hi now [] bl le small h above = (bl, le, small, tt)
above_pass-IsFrom rc b lo hi now (next ∷ back) bl le small (k0, k1, k2, k3) ((a, a'), rest) =
    let gap : sub64 next.start_of_sack_range 1 ≡ next.start_of_sack_range - 1 = omega arith in
    elim (Bool-cases (ltb hi (next.start_of_sack_range - 1))) [
      | inl apart ↦ rw (gap, apart) (bl, le, small, (ground arith, k1, k2, k3))
      | inr touches ↦
          rw (gap, touches)
            (extend-IsFrom b hi now back (extend_down lo now next) (count_reset next rc) (pos 0)
              small (unfold extend_down record_reset in (bl, omega arith, k2, k3)))
    ]

-- A pass that starts with the result 0 ends with it.
pub extend-ret :
    (hi now : ℕ) (back : List SackItem) (x : SackItem) (rc : RangeCounts)
    → (extend hi now x back rc (pos 0)).ret ≡ pos 0
unfolding extend close_pass
extend-ret hi now [] x rc = ground arith
extend-ret hi now (next ∷ back) x rc =
    ground (arith, extend-ret hi now back (merge_next x next) (uncount next (count_reset x rc)))

-- The result tells whether the node reached as far as the range.
pub extend-ret_one :
    (hi now : ℕ) (back : List SackItem) (x : SackItem) (rc : RangeCounts)
    → (extend hi now x back rc (pos 1)).ret ≡ (if ltb x.end_of_sack_range hi then pos 0 else pos 1)
unfolding extend close_pass
extend-ret_one hi now [] x rc = ground arith
extend-ret_one hi now (next ∷ back) x rc =
    ground (arith, extend-ret hi now back (merge_next x next) (uncount next (count_reset x rc)))

pub above_pass-ret :
    (rc : RangeCounts) (lo hi now : ℕ) (back : List SackItem)
    → (above_pass rc lo hi now back).ret ≡ pos 0
unfolding above_pass
above_pass-ret rc lo hi now [] = refl
above_pass-ret rc lo hi now (next ∷ back) =
    ground (arith, extend-ret hi now back (extend_down lo now next) (count_reset next rc))
