-- ===== src/Base/OrderedMap.antt =====
-- `std::map<uint32_t, V>` as a list of pairs in ascending order of their keys.
use ostinato.Base.{
  ℕ, ◌≡◌, refl, Bool, true, false, Option, none, some, List, [], ◌∷◌, arith, ltb, ◌==◌,
  if◌then◌else◌,
}
use ostinato.Base.OrderedSet.{
  contains, set_insert, AscendsFrom, AscendsFrom-lower, AscendsFrom-Ascends, Ascends,
  set_insert-Ascends,
}

module _ {ℓ} {V : Type ℓ} where
  unfoldable pub keys : List (ℕ × V) → List ℕ
  keys [] = []
  keys ((k, v) ∷ m) = k ∷ keys m

  unfoldable pub lookup : ℕ → List (ℕ × V) → Option V
  lookup k [] = none
  lookup k ((j, v) ∷ m) = if k == j then some v else lookup k m

  unfoldable pub has_key : ℕ → List (ℕ × V) → Bool
  unfolding keys
  has_key k m = contains k (keys m)

  -- `m[k] = v`.
  unfoldable pub assign : ℕ → V → List (ℕ × V) → List (ℕ × V)
  assign k v [] = (k, v) ∷ []
  assign k v ((j, w) ∷ m) =
      if ltb k j then (k, v) ∷ (j, w) ∷ m else if k == j then (k, v) ∷ m else (j, w) ∷ assign k v m

  unfoldable pub erase : ℕ → List (ℕ × V) → List (ℕ × V)
  erase k [] = []
  erase k ((j, w) ∷ m) = if k == j then m else (j, w) ∷ erase k m

  pub keys-assign : (k : ℕ) (v : V) (m : List (ℕ × V)) → keys (assign k v m) ≡ set_insert k (keys m)
  unfolding keys assign set_insert
  keys-assign k v [] = refl
  keys-assign k v ((j, w) ∷ m) = ground (arith, keys-assign k v m)

  pub lookup-assign :
      (j k : ℕ) (v : V) (m : List (ℕ × V))
      → lookup j (assign k v m) ≡ (if j == k then some v else lookup j m)
  unfolding lookup assign
  lookup-assign j k v [] = refl
  lookup-assign j k v ((i, w) ∷ m) = ground (arith, lookup-assign j k v m)

  pub lookup-none : (j : ℕ) (m : List (ℕ × V)) → AscendsFrom j (keys m) → lookup j m ≡ none
  unfolding lookup keys
  lookup-none j [] h = refl
  lookup-none j ((i, w) ∷ m) h =
      ground (arith, lookup-none j m (AscendsFrom-lower j i (keys m) (omega arith) h.1))

  erase-AscendsFrom :
      (n k : ℕ) (m : List (ℕ × V)) → AscendsFrom n (keys m) → AscendsFrom n (keys (erase k m))
  unfolding keys erase
  erase-AscendsFrom n k [] h = tt
  erase-AscendsFrom n k ((j, w) ∷ m) h =
      ground (arith, erase-AscendsFrom j k m h.1, AscendsFrom-lower n j (keys m))

  pub erase-Ascends : (k : ℕ) (m : List (ℕ × V)) → Ascends (keys m) → Ascends (keys (erase k m))
  unfolding keys erase
  erase-Ascends k [] h = tt
  erase-Ascends k ((j, w) ∷ m) h =
      ground (arith, erase-AscendsFrom j k m h, AscendsFrom-Ascends j (keys m))

  pub assign-Ascends :
      (k : ℕ) (v : V) (m : List (ℕ × V)) → Ascends (keys m) → Ascends (keys (assign k v m))
  assign-Ascends k v m h = rw keys-assign (set_insert-Ascends k (keys m) h)

  pub lookup-erase :
      (j k : ℕ) (m : List (ℕ × V))
      → Ascends (keys m)
      → lookup j (erase k m) ≡ (if j == k then none else lookup j m)
  unfolding lookup erase keys
  lookup-erase j k [] h = ground arith
  lookup-erase j k ((i, w) ∷ m) h =
      ground (arith, lookup-erase j k m (AscendsFrom-Ascends i (keys m) h), lookup-none i m h)

  -- A key is there exactly when a value is found under it.
  pub has_key-lookup :
      (k : ℕ) (m : List (ℕ × V))
      → has_key k m ≡ (elim (lookup k m) [ none ↦ false | some v ↦ true ])
  unfolding has_key contains lookup
  has_key-lookup k [] = refl
  has_key-lookup k ((j, w) ∷ m) = ground (arith, has_key-lookup k m)

  erase_absent : (k : ℕ) (m : List (ℕ × V)) → has_key k m ≡ false → erase k m ≡ m
  unfolding erase has_key keys contains
  erase_absent k [] h = refl
  erase_absent k ((j, w) ∷ m) h = ground (arith, erase_absent k m)

  -- A key that was assigned anew and erased leaves the map as it was.
  pub erase-assign :
      (k : ℕ) (v : V) (m : List (ℕ × V)) → has_key k m ≡ false → erase k (assign k v m) ≡ m
  unfolding erase assign has_key keys contains
  erase-assign k v [] h = ground arith
  erase-assign k v ((j, w) ∷ m) h = ground (arith, erase-assign k v m)
