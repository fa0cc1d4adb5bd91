-- ===== src/Picohash.antt =====
-- The hash table of picoquic/picohash.c. The array of the bins is a function from its indexes, and a bin
-- the list of its items from the first one on; an item is told from others by its address. The hash
-- function and the comparison, which the caller provides, are parameters.
pub mod Bins
pub mod Table
pub mod Retrieve
mod Examples
use fair_queuing_aware_conge.Common.{
  ℕ, zero, suc, ◌+◌, ◌-◌, ◌*◌, ◌/◌, ◌%◌, ◌^◌, Bool, true, false, List, [], ◌∷◌, Option, none, some,
  length, ◌==◌, if◌then◌else◌,
}
use Prim.Native.Nat.{bit_xor}

-- picohash_item; next_in_bin is the rest of the list.
pub record Item (K : Type 0) : Type 0 where
  pub address : ℕ
  pub hash : ℕ
  pub key : K

-- picohash_table, without the two functions
pub record HashTable (K : Type 0) : Type 0 where
  pub nb_bin : ℕ
  pub count : ℕ
  pub hash_bin : ℕ → List (Item K)

-- `hash_bin[bin] = items`
unfoldable pub set_bin : {K : Type 0} → (ℕ → List (Item K)) → ℕ → List (Item K) → ℕ → List (Item K)
set_bin bins bin items i = if i == bin then items else bins i

-- The table of picohash_create
abbrev pub empty_table : {K : Type 0} → ℕ → HashTable K
empty_table nb_bin = record { nb_bin = nb_bin; count = 0; hash_bin = λ i. [] }

-- picohash_create; `allocated` says whether malloc succeeds.
unfoldable pub picohash_create : {K : Type 0} → Bool → ℕ → Option (HashTable K)
picohash_create allocated nb_bin = if allocated then some (empty_table nb_bin) else none

-- The index of a bin is cast to uint32_t.
unfoldable pub bin_of : {K : Type 0} → HashTable K → ℕ → ℕ
bin_of t hash = hash % t.nb_bin % 2 ^ 32

-- `previous` stays before what is left.
unfoldable pub put_behind : {K : Type 0} → Item K → Option (List (Item K)) → Option (List (Item K))
put_behind previous none = none
put_behind previous (some rest) = some (previous ∷ rest)

-- The bin without the item at an address, and whether it was there.
unfoldable pub unlink : {K : Type 0} → List (Item K) → ℕ → Option (List (Item K))
unlink [] address = none
unlink (x ∷ xs) address = if x.address == address then some xs else put_behind x (unlink xs address)

unfoldable pub unlinked : {K : Type 0} → HashTable K → ℕ → Option (List (Item K)) → HashTable K
unlinked t bin none = t
unlinked t bin (some items) = record t {
  count = t.count - 1;
  hash_bin = set_bin t.hash_bin bin items;
}

-- picohash_delete_item; what is freed is not seen in the table.
unfoldable pub picohash_delete_item : {K : Type 0} → HashTable K → Item K → HashTable K
picohash_delete_item t item =
    let bin = bin_of t item.hash in unlinked t bin (unlink (t.hash_bin bin) item.address)

module _ {K : Type 0} (hash_of : K → ℕ) (is_same : K → K → Bool) where
  -- The first item of a bin whose key compares equal.
  unfoldable pub find_item : K → List (Item K) → Option (Item K)
  find_item key [] = none
  find_item key (x ∷ xs) = if is_same key x.key then some x else find_item key xs

  -- picohash_retrieve
  unfoldable pub picohash_retrieve : HashTable K → K → Option (Item K)
  picohash_retrieve t key = find_item key (t.hash_bin (bin_of t (hash_of key)))

  -- picohash_insert, with the address of the new item, or none where malloc fails
  unfoldable pub picohash_insert : HashTable K → Option ℕ → K → HashTable K × Bool
  picohash_insert t none key = (t, false)
  picohash_insert t (some address) key =
      let hash = hash_of key in
      let bin = bin_of t hash in
      let item : Item K = record { address = address; hash = hash; key = key } in
      (
        record t { count = t.count + 1; hash_bin = set_bin t.hash_bin bin (item ∷ t.hash_bin bin) },
        true,
      )

  -- picohash_delete_key
  unfoldable pub delete_found : HashTable K → Option (Item K) → HashTable K
  delete_found t none = t
  delete_found t (some item) = picohash_delete_item t item

  unfoldable pub picohash_delete_key : HashTable K → K → HashTable K
  picohash_delete_key t key = delete_found t (picohash_retrieve t key)

-- picohash_hash_mix
unfoldable pub picohash_hash_mix : ℕ → ℕ → ℕ
picohash_hash_mix hash h2 =
    let mixed = bit_xor h2 (bit_xor (hash * 2 ^ 17 % 2 ^ 64) (hash / 2 ^ 37)) in
    bit_xor hash (bit_xor (mixed * 2 ^ 31 % 2 ^ 64) (mixed / 2 ^ 17))

-- picohash_bytes, on the bytes that are left
unfoldable pub mix_byte : ℕ → ℕ → ℕ
mix_byte hash byte =
    let mixed = bit_xor hash byte in
    bit_xor mixed (bit_xor (mixed * 2 ^ 31 % 2 ^ 64) (mixed / 2 ^ 17))

unfoldable pub hash_from : ℕ → List ℕ → ℕ
hash_from hash [] = hash
hash_from hash (b ∷ bs) = hash_from (mix_byte hash b) bs

unfoldable pub picohash_bytes : List ℕ → ℕ
picohash_bytes key = hash_from 0xDEADBEEF key
