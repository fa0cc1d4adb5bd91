-- ===== src/Picohash/Bins.antt =====
-- The bins of the hash table (picoquic/picohash.c): their number of items, and what an update of one bin
-- does to it.
use fair_queuing_aware_conge.Common.{
  ℕ, zero, suc, ◌+◌, ◌<◌, ◌≤◌, ◌^◌, ◌≡◌, refl, ap, inl, inr, true, false, List, [], ◌∷◌, Option,
  none, some, All, length, ◌==◌, if◌then◌else◌, arith, Bool-cases,
}
use mathlib.Core.Path.{subst}
use native.Mathlib.Nat.{mod-lt}
use fair_queuing_aware_conge.Picohash.{Item, HashTable, set_bin, bin_of, put_behind, unlink}

module _ {K : Type 0} where
  -- The items of the first `n` bins.
  abbrev pub total : ℕ → (ℕ → List (Item K)) → ℕ
  total zero bins = 0
  total (suc n) bins = total n bins + length (bins n)

  pub set_bin-here :
      (bins : ℕ → List (Item K)) (b : ℕ) (items : List (Item K)) → set_bin bins b items b ≡ items
  unfolding set_bin
  set_bin-here bins b items = let same : (b == b) ≡ true = ground arith in rw same refl

  pub set_bin-other :
      (bins : ℕ → List (Item K)) (b i : ℕ) (items : List (Item K))
      → (i == b) ≡ false
      → set_bin bins b items i ≡ bins i
  unfolding set_bin
  set_bin-other bins b i items h = rw h refl

  -- The bins behind the first `n` do not count.
  total-set_bin_above :
      (n b : ℕ) (bins : ℕ → List (Item K)) (items : List (Item K))
      → n ≤ b
      → total n (set_bin bins b items) ≡ total n bins
  total-set_bin_above zero b bins items h = refl
  total-set_bin_above (suc n) b bins items h =
      let other = set_bin-other bins b n items (ground (arith, h)) in
      omega (arith, total-set_bin_above n b bins items (omega (arith, h)), ap length other)

  pub total-set_bin :
      (n b : ℕ) (bins : ℕ → List (Item K)) (items : List (Item K))
      → b < n
      → total n (set_bin bins b items) + length (bins b) ≡ total n bins + length items
  total-set_bin zero b bins items h = absurd (omega (arith, h))
  total-set_bin (suc n) b bins items h = elim (Bool-cases (n == b)) [
    | inl here ↦
        let same : n ≡ b = ground (arith, here) in
        let above = total-set_bin_above n b bins items (omega (arith, same)) in
        let last = ap (λ (i : ℕ). length (set_bin bins b items i)) same in
        let bin = ap (λ (i : ℕ). length (bins i)) same in
        omega (arith, above, last, bin, ap length (set_bin-here bins b items))
    | inr other ↦
        let below : b < n = ground (arith, h, other) in
        let rest = total-set_bin n b bins items below in
        omega (arith, rest, ap length (set_bin-other bins b n items other))
  ]

  -- Where the index of a bin needs no more than 32 bits, it is that of a bin.
  pub bin_of-bound :
      (t : HashTable K) (hash : ℕ) → 0 < t.nb_bin → t.nb_bin < 2 ^ 32 → bin_of t hash < t.nb_bin
  unfolding bin_of
  bin_of-bound t hash pos small = let below = mod-lt hash pos in omega (arith, below, small)

  -- One item is taken from the bin, and the others stay.
  pub record IsUnlinked {ℓ} (P : Item K → Type ℓ) (items rest : List (Item K)) : Type ℓ where
    pub fewer : length items ≡ suc (length rest)
    pub kept : All P items → All P rest

  put_behind-IsUnlinked {ℓ} :
      (P : Item K → Type ℓ) (x : Item K) (xs rest : List (Item K)) (later : Option (List (Item K)))
      → put_behind x later ≡ some rest
      → ((ys : List (Item K)) → later ≡ some ys → IsUnlinked P xs ys)
      → IsUnlinked P (x ∷ xs) rest
  unfolding put_behind
  put_behind-IsUnlinked P x xs rest none e f = absurd (ground (arith, e))
  put_behind-IsUnlinked P x xs rest (some ys) e f =
      let same : x ∷ ys ≡ rest = ground (arith, e) in
      let u = f ys refl in
      subst (IsUnlinked P (x ∷ xs)) same
        (record { fewer = ap suc u.fewer; kept = λ k. (k.0, u.kept k.1) })

  pub unlink-IsUnlinked {ℓ} :
      (P : Item K → Type ℓ) (items rest : List (Item K)) (address : ℕ)
      → unlink items address ≡ some rest
      → IsUnlinked P items rest
  unfolding unlink
  unlink-IsUnlinked P [] rest address h = absurd (ground (arith, h))
  unlink-IsUnlinked P (x ∷ xs) rest address h = elim (Bool-cases (x.address == address)) [
    | inl found ↦
        let e : some xs ≡ some rest =
          subst (λ c. (if c then some xs else put_behind x (unlink xs address)) ≡ some rest) found
            h in
        let same : xs ≡ rest = ground (arith, e) in
        subst (IsUnlinked P (x ∷ xs)) same (record { fewer = refl; kept = λ k. k.1 })
    | inr later ↦
        let e : put_behind x (unlink xs address) ≡ some rest =
          subst (λ c. (if c then some xs else put_behind x (unlink xs address)) ≡ some rest) later
            h in
        put_behind-IsUnlinked P x xs rest (unlink xs address) e
          (λ ys found. unlink-IsUnlinked P xs ys address found)
  ]
