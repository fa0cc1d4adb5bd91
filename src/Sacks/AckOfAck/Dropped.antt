-- ===== src/Sacks/AckOfAck/Dropped.antt =====
-- The ranges that an acknowledgement of an acknowledged range drops (picoquic/sacks.c).
use fair_queuing_aware_conge.Common.{
  ℕ, ◌+◌, ◌≤◌, ◌≡◌, refl, inl, inr, true, false, not, ◌&&◌, List, [], ◌∷◌, ◌++◌, All, leb, ◌==◌,
  arith, Bool-cases,
}
use fair_queuing_aware_conge.Common.Int.{pos, ltb_ℤ}
use fair_queuing_aware_conge.Sacks.{SackItem, SackList, Splay}
use fair_queuing_aware_conge.Sacks.Acks.{
  delete_item, cut_start, forget, process_at, process_ack_of_ack_range,
}
use fair_queuing_aware_conge.Sacks.Ranges.{
  IsFrom, within, holds, holds-append, holds-below, AtMost, IsFrom-IsAbove, Cut, find-cut,
}
use fair_queuing_aware_conge.Sacks.Fronts.{IsFrom-node, IsFrom-tail}

front_below :
    (b : ℕ) (front : List SackItem) (x : SackItem) (back : List SackItem)
    → IsFrom b (front ++ (x ∷ back))
    → (b ≤ x.start_of_sack_range) × All (AtMost x.start_of_sack_range) front
front_below b [] x back (h0, h1, h2, h3) = (h0, tt)
front_below b (y ∷ front) x back (h0, h1, h2, h3) =
    let (le, rest) = front_below (y.end_of_sack_range + 2) front x back h3 in
    (omega (arith, h0, h1, le), (omega (arith, h1, le), rest))

-- A list that is split at an item is cut there.
cut_here :
    (items : List SackItem) (b : ℕ) (front : List SackItem) (x : SackItem) (back : List SackItem)
    → items ≡ front ++ (x ∷ back)
    → IsFrom b (front ++ (x ∷ back))
    → Cut x.start_of_sack_range items
cut_here items b front x back whole h = record {
  front = front;
  node = x;
  back = back;
  whole = whole;
  low = (front_below b front x back h).1;
  reached = omega arith;
  high =
      IsFrom-IsAbove (x.end_of_sack_range + 2) x.start_of_sack_range back
        ((IsFrom-tail b front x back h).1) (omega (arith, (IsFrom-node b front x back h).1));
}

-- From the start of an item on, nothing is held before it.
front_free :
    (b n : ℕ) (front : List SackItem) (x : SackItem) (back : List SackItem)
    → IsFrom b (front ++ (x ∷ back))
    → x.start_of_sack_range ≤ n
    → holds front n ≡ false
front_free b n [] x back h le = refl
front_free b n (y ∷ front) x back (h0, h1, h2, h3) le =
    let gap : y.end_of_sack_range + 2 ≤ x.start_of_sack_range =
      (front_below (y.end_of_sack_range + 2) front x back h3).0 in
    let far : leb n y.end_of_sack_range ≡ false = ground (arith, gap, le) in
    rw (front_free (y.end_of_sack_range + 2) n front x back h3 le, far) (ground arith)

-- No number of the range of an item is held before or behind it.
pub apart :
    (b n : ℕ) (front : List SackItem) (x : SackItem) (back : List SackItem)
    → IsFrom b (front ++ (x ∷ back))
    → holds (front ++ back) n
      ≡ (holds (front ++ (x ∷ back)) n && not (within x.start_of_sack_range x.end_of_sack_range n))
apart b n front x back h = elim (Bool-cases (within x.start_of_sack_range x.end_of_sack_range n)) [
  | inr out ↦ rw (holds-append front back n, holds-append front (x ∷ back) n, out) (ground arith)
  | inl inside ↦
      rw
        (
          holds-append front back n,
          holds-append front (x ∷ back) n,
          front_free b n front x back h (ground (arith, inside)),
          holds-below (x.end_of_sack_range + 2) n back ((IsFrom-tail b front x back h).1)
              (ground (arith, inside)),
        )
        (ground (arith, inside))
]

module _ (t : Splay) where
  -- Without a horizon, the item of the range is deleted.
  pub process_ack_of_ack_range-deletes :
      (s : SackList) (b : ℕ) (front : List SackItem) (x next : SackItem) (back : List SackItem)
      → s.items ≡ front ++ (x ∷ (next ∷ back))
      → IsFrom b (front ++ (x ∷ (next ∷ back)))
      → ltb_ℤ (pos 0) s.horizon_delay ≡ false
      → process_ack_of_ack_range t s x.start_of_sack_range x.end_of_sack_range
        ≡ delete_item s front x (next ∷ back)
  unfolding process_ack_of_ack_range process_at forget cut_here
  process_ack_of_ack_range-deletes s b front x next back whole h off =
      let c = cut_here s.items b front x (next ∷ back) whole h in
      let small = (IsFrom-node b front x (next ∷ back) h) in
      let same : ((x.start_of_sack_range == x.start_of_sack_range)
            && (x.end_of_sack_range == x.end_of_sack_range))
          ≡ true =
        ground arith in
      rw (find-cut t s x.start_of_sack_range (omega (arith, small.1, small.2)) c, same, off) refl

  -- The last range is cut to its highest number.
  pub process_ack_of_ack_range-cuts :
      (s : SackList) (b : ℕ) (front : List SackItem) (x : SackItem)
      → s.items ≡ front ++ (x ∷ [])
      → IsFrom b (front ++ (x ∷ []))
      → process_ack_of_ack_range t s x.start_of_sack_range x.end_of_sack_range
        ≡ record s { items = front ++ (cut_start x.end_of_sack_range x ∷ []) }
  unfolding process_ack_of_ack_range process_at cut_here
  process_ack_of_ack_range-cuts s b front x whole h =
      let c = cut_here s.items b front x [] whole h in
      let small = (IsFrom-node b front x [] h) in
      let same : (x.start_of_sack_range == x.start_of_sack_range) ≡ true = ground arith in
      rw (find-cut t s x.start_of_sack_range (omega (arith, small.1, small.2)) c, same) refl

  -- Without a horizon, the acknowledgement of exactly one of the ranges, not the last one, drops the
  -- numbers of this range from those that the list holds, and no other number.
  pub process_ack_of_ack_range-drops :
      (s : SackList) (b n : ℕ) (front : List SackItem) (x next : SackItem) (back : List SackItem)
      → s.items ≡ front ++ (x ∷ (next ∷ back))
      → IsFrom b (front ++ (x ∷ (next ∷ back)))
      → ltb_ℤ (pos 0) s.horizon_delay ≡ false
      → holds (process_ack_of_ack_range t s x.start_of_sack_range x.end_of_sack_range).items n
        ≡ (holds s.items n && not (within x.start_of_sack_range x.end_of_sack_range n))
  unfolding delete_item
  process_ack_of_ack_range-drops s b n front x next back whole h off =
      rw (process_ack_of_ack_range-deletes s b front x next back whole h off, whole)
        (apart b n front x (next ∷ back) h)
