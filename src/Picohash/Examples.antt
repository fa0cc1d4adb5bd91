-- ===== src/Picohash/Examples.antt =====
-- The theorems on the hash table (picoquic/picohash.c) at a table of two bins, where a key is a number
-- and its own hash.
use fair_queuing_aware_conge.Common.{
  ℕ, ◌+◌, ◌^◌, ◌≡◌, refl, Bool, false, [], none, some, All, ◌==◌, arith,
}
use fair_queuing_aware_conge.Picohash.{
  HashTable, empty_table, bin_of, set_bin, find_item, picohash_insert, picohash_retrieve,
  picohash_delete_key, picohash_bytes, hash_from, picohash_hash_mix, picohash_create,
}
use fair_queuing_aware_conge.Picohash.Table.{IsTable, Reached, created, inserted, Reached-IsTable}
use fair_queuing_aware_conge.Picohash.Retrieve.{
  IsFirst, picohash_retrieve-IsFirst, picohash_delete_key-picohash_insert,
}

abbrev own_hash : ℕ → ℕ
own_hash key = key

abbrev equal_keys : ℕ → ℕ → Bool
equal_keys a b = a == b

abbrev three_keys : HashTable ℕ
three_keys =
    (picohash_insert own_hash equal_keys
      (picohash_insert own_hash equal_keys
        (picohash_insert own_hash equal_keys (empty_table 2) (some 100) 7).0 (some 200) 9).0
      (some 300) 4).0

three_keys-Reached : Reached own_hash equal_keys three_keys
three_keys-Reached =
    inserted _ (some 300) 4
      (inserted _ (some 200) 9 (inserted _ (some 100) 7 (created 2 (omega arith) (omega arith))))

three_keys_found :
    picohash_retrieve own_hash equal_keys three_keys 7
    ≡ some (record { address = 100; hash = 7; key = 7 })
unfolding picohash_retrieve picohash_insert bin_of find_item set_bin
three_keys_found = refl

byte_hash_run : picohash_bytes [] ≡ 0xDEADBEEF
unfolding picohash_bytes hash_from
byte_hash_run = refl

mix_run : picohash_hash_mix 0 (2 ^ 17) ≡ 2 ^ 48 + 1
unfolding picohash_hash_mix
mix_run = refl

create_run : picohash_create {K = ℕ} false 2 ≡ none
unfolding picohash_create
create_run = refl

Reached-IsTable_example : IsTable own_hash equal_keys three_keys
Reached-IsTable_example = Reached-IsTable own_hash equal_keys three_keys-Reached

picohash_retrieve-IsFirst_example :
    IsFirst own_hash equal_keys 7
      (three_keys.hash_bin (bin_of three_keys 7))
      (picohash_retrieve own_hash equal_keys three_keys 7)
    × ((bin : ℕ)
        → (bin == bin_of three_keys 7) ≡ false
        → All (λ x. equal_keys 7 x.key ≡ false) (three_keys.hash_bin bin))
picohash_retrieve-IsFirst_example =
    picohash_retrieve-IsFirst own_hash equal_keys three_keys 7 three_keys-Reached
      (λ k same. ground (arith, same))

picohash_delete_key-picohash_insert_example :
    ((picohash_delete_key own_hash equal_keys
        (picohash_insert own_hash equal_keys three_keys (some 400) 11).0
        11).count
      ≡ three_keys.count)
    × ((bin : ℕ)
        → (picohash_delete_key own_hash equal_keys
              (picohash_insert own_hash equal_keys three_keys (some 400) 11).0
              11).hash_bin
            bin
          ≡ three_keys.hash_bin bin)
picohash_delete_key-picohash_insert_example =
    picohash_delete_key-picohash_insert own_hash equal_keys three_keys 400 11 refl
