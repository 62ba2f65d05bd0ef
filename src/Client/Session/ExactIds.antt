-- ===== src/Client/Session/ExactIds.antt =====
-- What `exactIds` of client/core/client_session.cpp compares.
use ostinato.Base.{ℕ, ◌≡◌, refl, sym, ap, ◌∙◌, true, ◌||◌, List, [], ◌∷◌, map, arith, ◌==◌}
use ostinato.Base.OrderedSet.{
  contains, contains-set_insert, Ascends, AscendsFrom, AscendsFrom-Ascends,
}
use ostinato.Base.OrderedMap.{keys, assign, keys-assign}
use ostinato.Client.PortState.{Messages, assign_streams, assign_groups}
use ostinato.Client.Session.{sort_insert, sort, same_ids, no_adjacent, exact_ids}

contains-sort_insert :
    (z x : ℕ) (ys : List ℕ) → contains z (sort_insert x ys) ≡ (z == x || contains z ys)
unfolding contains sort_insert
contains-sort_insert z x [] = refl
contains-sort_insert z x (y ∷ ys) = ground (arith, contains-sort_insert z x ys)

pub contains-sort : (z : ℕ) (xs : List ℕ) → contains z (sort xs) ≡ contains z xs
unfolding contains sort
contains-sort z [] = refl
contains-sort z (x ∷ xs) = ground (arith, contains-sort_insert z x (sort xs), contains-sort z xs)

same_ids-eq : (xs ys : List ℕ) → same_ids xs ys ≡ true → xs ≡ ys
unfolding same_ids
same_ids-eq [] [] h = refl
same_ids-eq [] (y ∷ ys) h = cc
same_ids-eq (x ∷ xs) [] h = cc
same_ids-eq (x ∷ xs) (y ∷ ys) h = ground (arith, same_ids-eq xs ys)

-- Lists that pass hold the same ids.
pub exact_ids-contains :
    (z : ℕ) (actual expected : List ℕ)
    → exact_ids actual expected ≡ true
    → contains z actual ≡ contains z expected
unfolding exact_ids
exact_ids-contains z actual expected h =
    let same : sort actual ≡ sort expected =
      same_ids-eq (sort actual) (sort expected) (ground arith) in
    sym (contains-sort z actual) ∙ ap (contains z) same ∙ contains-sort z expected

-- A list in order passes the comparison with itself.
sorted_self : (xs : List ℕ) → Ascends xs → sort xs ≡ xs
unfolding sort sort_insert
sorted_self [] h = refl
sorted_self (x ∷ xs) h =
    ap (sort_insert x) (sorted_self xs (AscendsFrom-Ascends x xs h)) ∙ first xs h
  where
    first : (xs : List ℕ) → AscendsFrom x xs → sort_insert x xs ≡ x ∷ xs
    first [] h = refl
    first (y ∷ ys) h = ground arith

same_ids_self : (xs : List ℕ) → same_ids xs xs ≡ true
unfolding same_ids
same_ids_self [] = refl
same_ids_self (x ∷ xs) = ground (arith, same_ids_self xs)

ascending_no_adjacent : (xs : List ℕ) → Ascends xs → no_adjacent xs ≡ true
unfolding no_adjacent
ascending_no_adjacent [] h = refl
ascending_no_adjacent (x ∷ []) h = refl
ascending_no_adjacent (x ∷ y ∷ ys) h = ground (arith, ascending_no_adjacent (y ∷ ys) h.1)

pub exact_ids_self : (xs : List ℕ) → Ascends xs → exact_ids xs xs ≡ true
unfolding exact_ids
exact_ids_self xs h =
    let sorted = sorted_self xs h in
    rw sorted (ground (arith, same_ids_self xs, ascending_no_adjacent xs h))

module _ (M : Messages) where
  open M use {Stream, DeviceGroup, stream_id, device_group_id}

  -- The keys of a map that was filled by assignments.
  pub contains-assign_streams :
      (z : ℕ) (vs : List Stream) (m : List (ℕ × Stream))
      → contains z (keys (assign_streams M vs m))
        ≡ (contains z (map stream_id vs) || contains z (keys m))
  unfolding contains assign_streams
  contains-assign_streams z [] m = refl
  contains-assign_streams z (v ∷ vs) m =
      contains-assign_streams z vs (assign (stream_id v) v m)
      ∙ ground (
        arith,
        ap (contains z) (keys-assign (stream_id v) v m),
        contains-set_insert z (stream_id v) (keys m),
      )

  pub contains-assign_groups :
      (z : ℕ) (vs : List DeviceGroup) (m : List (ℕ × DeviceGroup))
      → contains z (keys (assign_groups M vs m))
        ≡ (contains z (map device_group_id vs) || contains z (keys m))
  unfolding contains assign_groups
  contains-assign_groups z [] m = refl
  contains-assign_groups z (v ∷ vs) m =
      contains-assign_groups z vs (assign (device_group_id v) v m)
      ∙ ground (
        arith,
        ap (contains z) (keys-assign (device_group_id v) v m),
        contains-set_insert z (device_group_id v) (keys m),
      )
