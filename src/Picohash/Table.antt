-- ===== src/Picohash/Table.antt =====
-- The tables that the operations of picoquic/picohash.c reach, and their invariant.
use fair_queuing_aware_conge.Common.{
  ℕ, suc, ◌<◌, ◌^◌, ◌≡◌, refl, sym, inl, inr, Bool, List, [], ◌∷◌, Option, zero, none, some, All,
  ◌==◌, arith, Bool-cases,
}
use mathlib.Core.Path.{subst}
use fair_queuing_aware_conge.Picohash.{
  Item, HashTable, set_bin, empty_table, bin_of, unlink, unlinked, picohash_delete_item,
  picohash_retrieve, picohash_insert, delete_found, picohash_delete_key,
}
use fair_queuing_aware_conge.Picohash.Bins.{
  total, set_bin-here, set_bin-other, total-set_bin, bin_of-bound, unlink-IsUnlinked,
}

module _ {K : Type 0} (hash_of : K → ℕ) (is_same : K → K → Bool) where
  -- The item has the hash of its key, and stands in the bin of the hash.
  abbrev pub IsIn : HashTable K → ℕ → Item K → Type 0
  IsIn t bin x = (x.hash ≡ hash_of x.key) × (bin_of t x.hash ≡ bin)

  -- Every item stands in the bin of its hash, and the count is the number of the items.
  pub record IsTable (t : HashTable K) : Type 0 where
    pub some_bins : 0 < t.nb_bin
    pub few_bins : t.nb_bin < 2 ^ 32
    pub placed : (bin : ℕ) → All (IsIn t bin) (t.hash_bin bin)
    pub counted : t.count ≡ total t.nb_bin t.hash_bin

  -- A bin that is replaced.
  placed-set_bin :
      (t : HashTable K) (b bin : ℕ) (items : List (Item K))
      → IsTable t
      → All (IsIn t b) items
      → All (IsIn t bin) (set_bin t.hash_bin b items bin)
  placed-set_bin t b bin items h new = elim (Bool-cases (bin == b)) [
    | inl here ↦
        let same : b ≡ bin = ground (arith, here) in
        subst (λ (i : ℕ). All (IsIn t i) (set_bin t.hash_bin b items i)) same
          (subst (All (IsIn t b)) (sym (set_bin-here t.hash_bin b items)) new)
    | inr other ↦
        subst (All (IsIn t bin)) (sym (set_bin-other t.hash_bin b bin items other)) (h.placed bin)
  ]

  total-empty : (n : ℕ) → total {K = K} n (λ i. []) ≡ 0
  total-empty zero = refl
  total-empty (suc n) = omega (arith, total-empty n)

  picohash_insert-IsTable :
      (t : HashTable K) (address : ℕ) (key : K)
      → IsTable t
      → IsTable (picohash_insert hash_of is_same t (some address) key).0
  unfolding picohash_insert bin_of
  picohash_insert-IsTable t address key h =
      let b = bin_of t (hash_of key) in
      let item : Item K = record { address = address; hash = hash_of key; key = key } in
      let below = bin_of-bound t (hash_of key) h.some_bins h.few_bins in
      let sum = total-set_bin t.nb_bin b t.hash_bin (item ∷ t.hash_bin b) below in
      record {
        some_bins = h.some_bins;
        few_bins = h.few_bins;
        placed = λ bin. placed-set_bin t b bin (item ∷ t.hash_bin b) h ((refl, refl), h.placed b);
        counted = omega (arith, sum, h.counted);
      }

  unlinked-IsTable :
      (t : HashTable K) (address b : ℕ) (rest : Option (List (Item K)))
      → IsTable t
      → b < t.nb_bin
      → unlink (t.hash_bin b) address ≡ rest
      → IsTable (unlinked t b rest)
  unfolding unlinked bin_of
  unlinked-IsTable t address b none h below e = h
  unlinked-IsTable t address b (some items) h below e =
      let u = unlink-IsUnlinked (IsIn t b) (t.hash_bin b) items address e in
      let sum = total-set_bin t.nb_bin b t.hash_bin items below in
      record {
        some_bins = h.some_bins;
        few_bins = h.few_bins;
        placed = λ bin. placed-set_bin t b bin items h (u.kept (h.placed b));
        counted = omega (arith, sum, h.counted, u.fewer);
      }

  picohash_delete_item-IsTable :
      (t : HashTable K) (item : Item K) → IsTable t → IsTable (picohash_delete_item t item)
  unfolding picohash_delete_item
  picohash_delete_item-IsTable t item h =
      unlinked-IsTable t item.address (bin_of t item.hash) _ h
        (bin_of-bound t item.hash h.some_bins h.few_bins) refl

  found-IsTable :
      (t : HashTable K) (found : Option (Item K))
      → IsTable t
      → IsTable (delete_found hash_of is_same t found)
  unfolding delete_found
  found-IsTable t none h = h
  found-IsTable t (some item) h = picohash_delete_item-IsTable t item h

  -- The tables that are reached from a new one: malloc may fail, and an item that is deleted need not be
  -- in the table.
  pub data Reached : HashTable K → Type 0 where
    created : (nb_bin : ℕ) → 0 < nb_bin → nb_bin < 2 ^ 32 → Reached (empty_table nb_bin)
    inserted :
        (t : HashTable K) (address : Option ℕ) (key : K)
        → Reached t
        → Reached (picohash_insert hash_of is_same t address key).0
    item_deleted :
        (t : HashTable K) (item : Item K) → Reached t → Reached (picohash_delete_item t item)
    key_deleted :
        (t : HashTable K) (key : K)
        → Reached t
        → Reached (picohash_delete_key hash_of is_same t key)

  -- In every table that is reached each item has the hash of its key and stands in the bin of this hash,
  -- and the count is the number of the items.
  pub Reached-IsTable : {t : HashTable K} → Reached t → IsTable t
  unfolding picohash_insert picohash_delete_key
  Reached-IsTable (created nb_bin pos small) = record {
    some_bins = pos;
    few_bins = small;
    placed = λ bin. tt;
    counted = sym (total-empty nb_bin);
  }
  Reached-IsTable (inserted t none key r) = Reached-IsTable r
  Reached-IsTable (inserted t (some address) key r) =
      picohash_insert-IsTable t address key (Reached-IsTable r)
  Reached-IsTable (item_deleted t item r) = picohash_delete_item-IsTable t item (Reached-IsTable r)
  Reached-IsTable (key_deleted t key r) =
      found-IsTable t (picohash_retrieve hash_of is_same t key) (Reached-IsTable r)
