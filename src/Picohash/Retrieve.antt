-- ===== src/Picohash/Retrieve.antt =====
-- What a search in the hash table (picoquic/picohash.c) finds, and what insertion and deletion do to it.
use fair_queuing_aware_conge.Common.{
  ℕ, ◌%◌, ◌^◌, ◌≡◌, refl, sym, ◌∙◌, ap, inl, inr, Bool, true, false, List, [], ◌∷◌, Option, none,
  some, All, ◌==◌, arith, Bool-cases,
}
use mathlib.Core.Path.{subst}
use fair_queuing_aware_conge.Picohash.{
  Item, HashTable, set_bin, bin_of, unlink, unlinked, picohash_delete_item, find_item,
  picohash_retrieve, picohash_insert, delete_found, picohash_delete_key,
}
use fair_queuing_aware_conge.Picohash.Bins.{set_bin-here, set_bin-other}
use fair_queuing_aware_conge.Picohash.Table.{IsIn, Reached, Reached-IsTable}

module _ {K : Type 0} (hash_of : K → ℕ) (is_same : K → K → Bool) where
  -- The answer of a search in a bin: the first item whose key compares equal, or none of them does.
  pub data IsFirst (key : K) : List (Item K) → Option (Item K) → Type 0 where
    not_found : IsFirst key [] none
    first :
        (x : Item K) (xs : List (Item K)) → is_same key x.key ≡ true → IsFirst key (x ∷ xs) (some x)
    further :
        (x : Item K) (xs : List (Item K)) (answer : Option (Item K))
        → is_same key x.key ≡ false
        → IsFirst key xs answer
        → IsFirst key (x ∷ xs) answer

  -- What the loop of picohash_retrieve answers.
  find_item-IsFirst :
      (key : K) (items : List (Item K)) → IsFirst key items (find_item hash_of is_same key items)
  unfolding find_item
  find_item-IsFirst key [] = not_found
  find_item-IsFirst key (x ∷ xs) = elim (Bool-cases (is_same key x.key)) [
    | inl same ↦ rw same (first x xs same)
    | inr other ↦ rw other (further x xs _ other (find_item-IsFirst key xs))
  ]

  -- The keys of other bins do not compare equal.
  others_differ :
      (t : HashTable K) (key : K) (bin : ℕ) (items : List (Item K))
      → ((k : K) → is_same key k ≡ true → hash_of key ≡ hash_of k)
      → (bin == bin_of t (hash_of key)) ≡ false
      → All (IsIn hash_of is_same t bin) items
      → All (λ x. is_same key x.key ≡ false) items
  others_differ t key bin [] compatible other h = tt
  others_differ t key bin (x ∷ xs) compatible other ((hash, place), h) = (
    elim (Bool-cases (is_same key x.key)) [
      | inl same ↦
          let bins = ap (bin_of t) (compatible x.key same ∙ sym hash) ∙ place in
          absurd (ground (arith, other, bins))
      | inr differs ↦ differs
    ],
    others_differ t key bin xs compatible other h,
  )

  -- In a table that is reached, where keys that compare equal have one hash, the answer of a search is
  -- the first item of its bin with an equal key, and no other bin holds such an item.
  pub picohash_retrieve-IsFirst :
      (t : HashTable K) (key : K)
      → Reached hash_of is_same t
      → ((k : K) → is_same key k ≡ true → hash_of key ≡ hash_of k)
      → IsFirst key (t.hash_bin (bin_of t (hash_of key))) (picohash_retrieve hash_of is_same t key)
        × ((bin : ℕ)
            → (bin == bin_of t (hash_of key)) ≡ false
            → All (λ x. is_same key x.key ≡ false) (t.hash_bin bin))
  unfolding picohash_retrieve
  picohash_retrieve-IsFirst t key r compatible =
      let table = Reached-IsTable hash_of is_same r in
      (
        find_item-IsFirst key (t.hash_bin (bin_of t (hash_of key))),
        λ bin other. others_differ t key bin (t.hash_bin bin) compatible other (table.placed bin),
      )

  -- A key that was inserted is found, as the item that was just put before the others of its bin.
  pub picohash_retrieve-picohash_insert :
      (t : HashTable K) (address : ℕ) (key : K)
      → is_same key key ≡ true
      → picohash_retrieve hash_of is_same
          (picohash_insert hash_of is_same t (some address) key).0
          key
        ≡ some (record { address = address; hash = hash_of key; key = key })
  unfolding picohash_retrieve picohash_insert bin_of find_item
  picohash_retrieve-picohash_insert t address key same =
      let b = hash_of key % t.nb_bin % 2 ^ 32 in
      rw
        (set_bin-here t.hash_bin b
          (record { address = address; hash = hash_of key; key = key } ∷ t.hash_bin b))
        (rw same refl)

  -- Taking the first item out of the bin it was put in gives the bins there were.
  set_bin-back :
      (bins : ℕ → List (Item K)) (b bin : ℕ) (items : List (Item K))
      → set_bin (set_bin bins b items) b (bins b) bin ≡ bins bin
  set_bin-back bins b bin items = elim (Bool-cases (bin == b)) [
    | inl here ↦
        let same : b ≡ bin = ground (arith, here) in
        subst (λ (i : ℕ). set_bin (set_bin bins b items) b (bins b) i ≡ bins i) same
          (set_bin-here (set_bin bins b items) b (bins b))
    | inr other ↦
        set_bin-other (set_bin bins b items) b bin (bins b) other
        ∙ set_bin-other bins b bin items other
  ]

  unlink-head :
      (x : Item K) (items rest : List (Item K)) (address : ℕ)
      → items ≡ x ∷ rest
      → x.address ≡ address
      → unlink items address ≡ some rest
  unfolding unlink
  unlink-head x items rest address e here =
      let found : (x.address == address) ≡ true = ground (arith, here) in rw e (rw found refl)

  -- Deleting a key that was just inserted gives the count and the bins there were before.
  pub picohash_delete_key-picohash_insert :
      (t : HashTable K) (address : ℕ) (key : K)
      → is_same key key ≡ true
      → ((picohash_delete_key hash_of is_same
            (picohash_insert hash_of is_same t (some address) key).0
            key).count
          ≡ t.count)
        × ((bin : ℕ)
            → (picohash_delete_key hash_of is_same
                  (picohash_insert hash_of is_same t (some address) key).0
                  key).hash_bin
                bin
              ≡ t.hash_bin bin)
  unfolding picohash_delete_key delete_found picohash_delete_item unlinked picohash_insert bin_of
  picohash_delete_key-picohash_insert t address key same =
      let b = bin_of t (hash_of key) in
      let item : Item K = record { address = address; hash = hash_of key; key = key } in
      let found = picohash_retrieve-picohash_insert t address key same in
      let gone =
        unlink-head item (set_bin t.hash_bin b (item ∷ t.hash_bin b) b) (t.hash_bin b) address
          (set_bin-here t.hash_bin b (item ∷ t.hash_bin b)) refl in
      rw found (rw gone (omega arith, λ bin. set_bin-back t.hash_bin b bin (item ∷ t.hash_bin b)))
