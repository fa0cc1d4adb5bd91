-- ===== src/Sacks/Ranges.antt =====
-- The order of the ranges of a sack list, the numbers that they hold, and the place that a search
-- returns.
use fair_queuing_aware_conge.Common.{
  ℕ, suc, ◌+◌, ◌<◌, ◌≤◌, ◌^◌, ◌≡◌, refl, sym, ◌∙◌, ap, ◌⊎◌, inl, inr, Bool, false, ◌&&◌, ◌||◌, List,
  [], ◌∷◌, ◌++◌, none, some, All, All-append, append_assoc, length, length-append, leb, arith,
  Bool-cases, leb→le,
}
use fair_queuing_aware_conge.Sacks.{
  SackItem, SackList, Splay, Follows, Precedes, place, new_item, find_range_below_number,
}
use fair_queuing_aware_conge.Sacks.Tree.{item_compare-lt}

-- The ranges are not empty, follow each other with a gap, and begin at `lo` or above.
abbrev pub IsFrom : ℕ → List SackItem → Type 0
IsFrom lo [] = Unit
IsFrom lo (x ∷ xs) =
    (lo ≤ x.start_of_sack_range)
    × (x.start_of_sack_range ≤ x.end_of_sack_range)
    × (x.end_of_sack_range < 2 ^ 62)
    × IsFrom (x.end_of_sack_range + 2) xs

-- Whether a number lies in a range, and in one of the ranges.
abbrev pub within : ℕ → ℕ → ℕ → Bool
within lo hi n = leb lo n && leb n hi

abbrev pub holds : List SackItem → ℕ → Bool
holds [] n = false
holds (x ∷ xs) n = within x.start_of_sack_range x.end_of_sack_range n || holds xs n

pub holds-append : (xs ys : List SackItem) (n : ℕ) → holds (xs ++ ys) n ≡ (holds xs n || holds ys n)
holds-append [] ys n = refl
holds-append (x ∷ xs) ys n = ground (arith, holds-append xs ys n)

pub IsFrom-weaken : (lo lo' : ℕ) (xs : List SackItem) → lo' ≤ lo → IsFrom lo xs → IsFrom lo' xs
IsFrom-weaken lo lo' [] le h = tt
IsFrom-weaken lo lo' (x ∷ xs) le (a, b, c, d) = (omega arith, b, c, d)

-- No number below the start is held.
pub holds-below : (lo n : ℕ) (xs : List SackItem) → IsFrom lo xs → n < lo → holds xs n ≡ false
holds-below lo n [] h lt = refl
holds-below lo n (x ∷ xs) h lt = ground (arith, holds-below (x.end_of_sack_range + 2) n xs)

-- The tail of a list may be replaced by one that begins no earlier.
pub IsFrom-replace :
    (lo : ℕ) (front tail tail' : List SackItem)
    → ((lo' : ℕ) → lo ≤ lo' → IsFrom lo' tail → IsFrom lo' tail')
    → IsFrom lo (front ++ tail)
    → IsFrom lo (front ++ tail')
IsFrom-replace lo [] tail tail' f h = f lo (omega arith) h
IsFrom-replace lo (x ∷ front) tail tail' f (a, b, c, d) = (
  a,
  b,
  c,
  IsFrom-replace (x.end_of_sack_range + 2) front tail tail'
      (λ lo' le. f lo' (omega (arith, le, a, b))) d,
)

abbrev pub AtMost : ℕ → SackItem → Type 0
AtMost pn x = x.start_of_sack_range ≤ pn

abbrev pub IsAbove : ℕ → SackItem → Type 0
IsAbove pn x = (pn < x.start_of_sack_range) × (x.start_of_sack_range < 2 ^ 62)

pub IsFrom-IsAbove : (lo pn : ℕ) (xs : List SackItem) → IsFrom lo xs → pn < lo → All (IsAbove pn) xs
IsFrom-IsAbove lo pn [] h lt = tt
IsFrom-IsAbove lo pn (x ∷ xs) (a, b, c, d) lt =
    ((omega arith, omega arith), IsFrom-IsAbove (x.end_of_sack_range + 2) pn xs d (omega arith))

-- The items that begin at a number or below, the last of them apart, and those above.
pub record Cut (pn : ℕ) (items : List SackItem) : Type 0 where
  pub front : List SackItem
  pub node : SackItem
  pub back : List SackItem
  pub whole : items ≡ front ++ (node ∷ back)
  pub low : All (AtMost pn) front
  pub reached : node.start_of_sack_range ≤ pn
  pub high : All (IsAbove pn) back

pub cut_items :
    (pn lo : ℕ) (items : List SackItem) → IsFrom lo items → All (IsAbove pn) items ⊎ Cut pn items
cut_items pn lo [] h = inl tt
cut_items pn lo (x ∷ xs) (a, b, c, d) = elim (Bool-cases (leb x.start_of_sack_range pn)) [
  | inr above ↦
      inl (
        (ground arith, omega arith),
        IsFrom-IsAbove (x.end_of_sack_range + 2) pn xs d (ground arith),
      )
  | inl reaches ↦ elim (cut_items pn (x.end_of_sack_range + 2) xs d) [
    | inl above ↦ inr (record {
      front = [];
      node = x;
      back = xs;
      whole = refl;
      low = tt;
      reached = leb→le _ _ reaches;
      high = above;
    })
    | inr cut ↦ inr (record {
      front = x ∷ cut.front;
      node = cut.node;
      back = cut.back;
      whole = ap (λ ys. x ∷ ys) cut.whole;
      low = (leb→le _ _ reaches, cut.low);
      reached = cut.reached;
      high = cut.high;
    })
  ]
]

pub All-Follows :
    (v : SackItem) (xs : List SackItem)
    → v.start_of_sack_range < 2 ^ 62
    → All (AtMost v.start_of_sack_range) xs
    → All (Follows v) xs
All-Follows v [] h a = tt
All-Follows v (x ∷ xs) h (a, rest) =
    (item_compare-lt v x h (omega arith) ∙ ground arith, All-Follows v xs h rest)

pub All-Precedes :
    (v : SackItem) (xs : List SackItem)
    → v.start_of_sack_range < 2 ^ 62
    → All (IsAbove v.start_of_sack_range) xs
    → All (Precedes v) xs
All-Precedes v [] h a = tt
All-Precedes v (x ∷ xs) h (a, rest) =
    (item_compare-lt v x h (a.1) ∙ ground arith, All-Precedes v xs h rest)

place-zero : (xs : List SackItem) → place 0 xs ≡ record { front = []; node = none; back = xs }
unfolding place
place-zero [] = refl
place-zero (x ∷ xs) = refl

place-length :
    (front : List SackItem) (x : SackItem) (back : List SackItem)
    → place (suc (length front)) (front ++ (x ∷ back))
      ≡ record { front = front; node = some x; back = back }
unfolding place
place-length [] x back = refl
place-length (y ∷ front) x back = rw (place-length front x back) refl

module _ (t : Splay) where
  -- The search finds nothing where every range begins above the number.
  pub find-nothing :
      (s : SackList) (pn : ℕ)
      → pn < 2 ^ 62
      → All (IsAbove pn) s.items
      → find_range_below_number t s pn ≡ record { front = []; node = none; back = s.items }
  unfolding find_range_below_number new_item
  find-nothing s pn h above =
      rw
        (t.find_previous_lem (new_item pn pn 0) [] s.items tt
          (All-Precedes (new_item pn pn 0) s.items h above))
        (place-zero s.items)

  -- The search finds the last range that begins at the number or below.
  pub find-cut :
      (s : SackList) (pn : ℕ)
      → pn < 2 ^ 62
      → (c : Cut pn s.items)
      → find_range_below_number t s pn
        ≡ record { front = c.front; node = some (c.node); back = c.back }
  unfolding find_range_below_number new_item
  find-cut s pn h c =
      let v = new_item pn pn 0 in
      let low = All-append (AtMost pn) (c.front) (c.node ∷ []) (c.low) (c.reached, tt) in
      let found =
        t.find_previous_lem v (c.front ++ (c.node ∷ [])) (c.back) (All-Follows v _ h low)
          (All-Precedes v _ h (c.high)) in
      let regroup = c.whole ∙ sym (append_assoc (c.front) (c.node ∷ []) (c.back)) in
      let count : length (c.front ++ (c.node ∷ [])) ≡ suc (length (c.front)) =
        omega (arith, length-append (c.front) (c.node ∷ [])) in
      let index : t.find_previous s.items v ≡ suc (length (c.front)) =
        ap (λ ys. t.find_previous ys v) regroup ∙ found ∙ count in
      ap (λ (k : ℕ). place k s.items) index
      ∙ ap (λ ys. place (suc (length (c.front))) ys) (c.whole)
      ∙ place-length (c.front) (c.node) (c.back)
