-- ===== src/Sacks/Tree.antt =====
-- The list of the items as a tree, and what the comparison of sacks.c says of numbers below 2 ^ 62.
use fair_queuing_aware_conge.Common.{
  ℕ, suc, ◌<◌, ◌^◌, ◌≡◌, refl, ap, Bool, List, [], ◌∷◌, ◌++◌, All, length, ltb, if◌then◌else◌,
  arith,
}
use fair_queuing_aware_conge.Common.Int.{pos, ltb_ℤ}
use fair_queuing_aware_conge.Sacks.{SackItem, item_compare, Splay, Follows, Precedes}

abbrev pub precedes : SackItem → SackItem → Bool
precedes v x = ltb_ℤ (item_compare v x) (pos 0)

abbrev pub list_find : List SackItem → SackItem → ℕ
list_find [] v = 0
list_find (x ∷ xs) v = if precedes v x then 0 else suc (list_find xs v)

abbrev pub list_insert : SackItem → List SackItem → List SackItem
list_insert v [] = v ∷ []
list_insert v (x ∷ xs) = if precedes v x then v ∷ x ∷ xs else x ∷ list_insert v xs

pub list_find-append :
    (v : SackItem) (front back : List SackItem)
    → All (Follows v) front
    → All (Precedes v) back
    → list_find (front ++ back) v ≡ length front
list_find-append v [] [] f b = refl
list_find-append v [] (x ∷ xs) f (b, bs) = rw b refl
list_find-append v (x ∷ xs) back (f, fs) b = rw f (ap suc (list_find-append v xs back fs b))

pub list_insert-append :
    (v : SackItem) (front back : List SackItem)
    → All (Follows v) front
    → All (Precedes v) back
    → list_insert v (front ++ back) ≡ front ++ (v ∷ back)
list_insert-append v [] [] f b = refl
list_insert-append v [] (x ∷ xs) f (b, bs) = rw b refl
list_insert-append v (x ∷ xs) back (f, fs) b =
    rw f (ap (λ ys. x ∷ ys) (list_insert-append v xs back fs b))

-- A tree that meets the interface.
abbrev pub list_splay : Splay
list_splay = record {
  find_previous = list_find;
  insert = list_insert;
  find_previous_lem = list_find-append;
  insert_lem = list_insert-append;
}

-- Below 2 ^ 62 the difference of two numbers has the sign of their order.
pub item_compare-lt :
    (v x : SackItem)
    → v.start_of_sack_range < 2 ^ 62
    → x.start_of_sack_range < 2 ^ 62
    → ltb_ℤ (item_compare v x) (pos 0) ≡ ltb v.start_of_sack_range x.start_of_sack_range
unfolding item_compare
item_compare-lt v x hv hx = ground arith
