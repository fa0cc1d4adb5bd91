-- ===== src/Sacks.antt =====
-- The ranges of received numbers: picoquic/sacks.c. A sack list keeps the ranges of the packet numbers
-- (or of the bytes of a stream) that have been received, in a splay tree ordered by their start.
--
-- The splay tree (picoquic/picosplay.c, the copy of a library) is a parameter, `Splay`: a tree is kept
-- as its items in order, a node as a place in that list, and NULL as the place 0 before the first item.
-- Following a node to the next or the previous one and deleting it are steps on the list.
pub mod Tree
pub mod Operations
pub mod Acks
pub mod Ranges
pub mod Passes
pub mod Fronts
pub mod Inserts
pub mod Update
pub mod Received
pub mod Counts
pub mod Horizon
pub mod AckOfAck
pub mod Select
pub mod Reached
mod Examples
use fair_queuing_aware_conge.Common.{
  ℕ, zero, suc, ◌+◌, ◌-◌, ◌<◌, ◌≡◌, Bool, true, false, not, ◌&&◌, ◌||◌, List, [], ◌∷◌, ◌++◌, Option,
  none, some, All, length, ltb, leb, ◌==◌, if◌then◌else◌, add64, sub64, u64_max,
}
use fair_queuing_aware_conge.Common.Int.{ℤ, pos, negsuc, ◌+ℤ◌, ◌-ℤ◌, ltb_ℤ, leb_ℤ, to_int64}

abbrev pub max_ack_range_repeat : ℕ
max_ack_range_repeat = 4

-- picoquic_sack_item_t; nb_times_sent has an element for acknowledgements that are sent as they are
-- due (`false`) and one for opportunistic ones (`true`).
pub record SackItem : Type 0 where
  pub start_of_sack_range : ℕ
  pub end_of_sack_range : ℕ
  pub time_created : ℕ
  pub nb_times_sent : Bool → ℕ

-- rc: how many items have been sent 0, 1, 2 and 3 times
abbrev pub RangeCounts : Type 0
RangeCounts = Bool → ℕ → ℤ

-- picoquic_sack_list_t; `items` are those of ack_tree in order.
pub record SackList : Type 0 where
  pub items : List SackItem
  pub ack_horizon : ℕ
  pub horizon_delay : ℤ
  pub rc : RangeCounts

-- picoquic_sack_item_compare
unfoldable pub item_compare : SackItem → SackItem → ℤ
item_compare l r = to_int64 (sub64 l.start_of_sack_range r.start_of_sack_range)

abbrev pub Follows : SackItem → SackItem → Type 0
Follows v x = ltb_ℤ (item_compare v x) (pos 0) ≡ false

abbrev pub Precedes : SackItem → SackItem → Type 0
Precedes v x = ltb_ℤ (item_compare v x) (pos 0) ≡ true

-- The splay tree: `find_previous` returns the last node that the value does not compare below, and
-- `insert` puts the value behind it.
pub record Splay : Type 0 where
  pub find_previous : List SackItem → SackItem → ℕ
  pub insert : SackItem → List SackItem → List SackItem
  pub find_previous_lem :
      (v : SackItem) (front back : List SackItem)
      → All (Follows v) front
      → All (Precedes v) back
      → find_previous (front ++ back) v ≡ length front
  pub insert_lem :
      (v : SackItem) (front back : List SackItem)
      → All (Follows v) front
      → All (Precedes v) back
      → insert v (front ++ back) ≡ front ++ (v ∷ back)

-- A node with the items before and behind it; on NULL all items are behind it.
pub record Place : Type 0 where
  pub front : List SackItem
  pub node : Option SackItem
  pub back : List SackItem

unfoldable pub place : ℕ → List SackItem → Place
place k [] = record { front = []; node = none; back = [] }
place zero (x ∷ xs) = record { front = []; node = none; back = x ∷ xs }
place (suc zero) (x ∷ xs) = record { front = []; node = some x; back = xs }
place (suc (suc k)) (x ∷ xs) =
    let p = place (suc k) xs in record { front = x ∷ p.front; node = p.node; back = p.back }

-- The counts without an item that has been sent so often, and with one more.
unfoldable pub uncount : SackItem → RangeCounts → RangeCounts
uncount x rc r i =
    if ltb (x.nb_times_sent r) max_ack_range_repeat && (x.nb_times_sent r == i)
    then rc r i -ℤ pos 1
    else rc r i

unfoldable pub count_new : RangeCounts → RangeCounts
count_new rc r i = if i == 0 then rc r i +ℤ pos 1 else rc r i

unfoldable pub new_item : ℕ → ℕ → ℕ → SackItem
new_item range_min range_max current_time = record {
  start_of_sack_range = range_min;
  end_of_sack_range = range_max;
  time_created = current_time;
  nb_times_sent = λ r. 0;
}

-- picoquic_sack_item_record_reset, on the item and on the counts
unfoldable pub record_reset : SackItem → SackItem
record_reset x = record x { nb_times_sent = λ r. 0 }

unfoldable pub count_reset : SackItem → RangeCounts → RangeCounts
count_reset x rc = count_new (uncount x rc)

-- picoquic_sack_item_record_sent, likewise
unfoldable pub record_sent : Bool → SackItem → SackItem
record_sent is_opportunistic x = record x {
  nb_times_sent = λ r.
      if is_opportunistic
      then (if r then x.nb_times_sent r + 1 else x.nb_times_sent r)
      else (if r then x.nb_times_sent r else x.nb_times_sent r + 1);
}

module _ (t : Splay) where
  -- picoquic_sack_find_range_below_number
  unfoldable pub find_range_below_number : SackList → ℕ → Place
  find_range_below_number s pn64 = place (t.find_previous s.items (new_item pn64 pn64 0)) s.items

  -- picoquic_sack_insert_item; `allocated` says whether malloc succeeds.
  unfoldable pub insert_item : Bool → SackList → ℕ → ℕ → ℕ → SackList × ℤ
  insert_item allocated s range_min range_max current_time =
      if allocated
      then (
        record s {
          items = t.insert (new_item range_min range_max current_time) s.items;
          rc = count_new s.rc;
        },
        pos 0,
      )
      else (s, negsuc 0)
