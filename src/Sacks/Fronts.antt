-- ===== src/Sacks/Fronts.antt =====
-- A list of ranges around one of its items: what lies before and behind the item.
use fair_queuing_aware_conge.Common.{
  ℕ, ◌+◌, ◌<◌, ◌≤◌, ◌≡◌, refl, false, List, [], ◌∷◌, ◌++◌, All, arith,
}
use fair_queuing_aware_conge.Sacks.{SackItem}
use fair_queuing_aware_conge.Sacks.Ranges.{IsFrom, holds, IsAbove}

pub IsFrom-tail :
    (b : ℕ) (front : List SackItem) (x : SackItem) (back : List SackItem)
    → IsFrom b (front ++ (x ∷ back))
    → (b ≤ x.end_of_sack_range) × IsFrom (x.end_of_sack_range + 2) back
IsFrom-tail b [] x back (h0, h1, h2, h3) = (omega arith, h3)
IsFrom-tail b (y ∷ front) x back (h0, h1, h2, h3) =
    let (low, rest) = IsFrom-tail (y.end_of_sack_range + 2) front x back h3 in (omega arith, rest)

pub IsFrom-node :
    (b : ℕ) (front : List SackItem) (x : SackItem) (back : List SackItem)
    → IsFrom b (front ++ (x ∷ back))
    → IsFrom x.start_of_sack_range (x ∷ back)
IsFrom-node b [] x back (h0, h1, h2, h3) = (omega arith, h1, h2, h3)
IsFrom-node b (y ∷ front) x back (h0, h1, h2, h3) =
    IsFrom-node (y.end_of_sack_range + 2) front x back h3

-- The items that begin at a number or below do not hold it, if the last of them does not.
pub holds-front :
    (b n : ℕ) (front : List SackItem) (x : SackItem) (back : List SackItem)
    → IsFrom b (front ++ (x ∷ back))
    → x.end_of_sack_range < n
    → holds front n ≡ false
holds-front b n [] x back h gt = refl
holds-front b n (y ∷ front) x back (h0, h1, h2, h3) gt = ground (
  arith,
  holds-front (y.end_of_sack_range + 2) n front x back h3 gt,
  IsFrom-tail (y.end_of_sack_range + 2) front x back h3,
)

pub holds-high : (n : ℕ) (back : List SackItem) → All (IsAbove n) back → holds back n ≡ false
holds-high n [] h = refl
holds-high n (x ∷ back) (h, rest) = ground (arith, holds-high n back rest)
