-- ===== src/Client/Session/Distinct.antt =====
-- Ids that pass `exactIds` of client/core/client_session.cpp are different, so that it does not matter
-- whether a map keeps the first or the last value of an id.
use ostinato.Base.{
  ℕ, ◌+◌, ◌≤◌, ◌≡◌, refl, ap, ◌∙◌, Bool, true, false, ◌&&◌, Option, none, some, List, [], ◌∷◌, map,
  arith, ◌==◌, if_cases, subst, ==_iff,
}
use ostinato.Base.OrderedSet.{contains, Ascends, AscendsFrom, AscendsFrom-lower, contains_below}
use ostinato.Base.OrderedMap.{lookup, has_key, assign, has_key-lookup, lookup-assign}
use ostinato.Client.PortState.{Messages, assign_streams}
use ostinato.Client.Session.{
  Agent, sort_insert, sort, no_adjacent, exact_ids, emplace_all, all_equivalent,
}
use ostinato.Client.Session.ExactIds.{contains-sort}

abbrev pub Distinct : List ℕ → Type 0
Distinct [] = Unit
Distinct (x ∷ xs) = (contains x xs ≡ false) × Distinct xs

-- In order, with equals.
abbrev RisesFrom : ℕ → List ℕ → Type 0
RisesFrom n [] = Unit {0}
RisesFrom n (x ∷ xs) = (n ≤ x) × RisesFrom x xs

abbrev Rises : List ℕ → Type 0
Rises [] = Unit {0}
Rises (x ∷ xs) = RisesFrom x xs

sort_insert-RisesFrom :
    (n x : ℕ) (ys : List ℕ) → n ≤ x → RisesFrom n ys → RisesFrom n (sort_insert x ys)
unfolding sort_insert
sort_insert-RisesFrom n x [] l h = (l, tt)
sort_insert-RisesFrom n x (y ∷ ys) l h = ground (arith, sort_insert-RisesFrom y x ys)

sort_insert-Rises : (x : ℕ) (ys : List ℕ) → Rises ys → Rises (sort_insert x ys)
unfolding sort_insert
sort_insert-Rises x [] h = tt
sort_insert-Rises x (y ∷ ys) h = ground (arith, sort_insert-RisesFrom y x ys)

sort-Rises : (xs : List ℕ) → Rises (sort xs)
unfolding sort
sort-Rises [] = tt
sort-Rises (x ∷ xs) = sort_insert-Rises x (sort xs) (sort-Rises xs)

no_adjacent-Ascends : (xs : List ℕ) → Rises xs → no_adjacent xs ≡ true → Ascends xs
unfolding no_adjacent
no_adjacent-Ascends [] h e = tt
no_adjacent-Ascends (x ∷ []) h e = tt
no_adjacent-Ascends (x ∷ y ∷ ys) h e = ground (arith, no_adjacent-Ascends (y ∷ ys))

-- Into a list that then ascends, a new element was inserted.
inserted_above :
    (n x : ℕ) (ys : List ℕ)
    → AscendsFrom n (sort_insert x ys)
    → (n + 1 ≤ x) × (contains x ys ≡ false) × AscendsFrom n ys
unfolding sort_insert contains
inserted_above n x [] h = ground arith
inserted_above n x (y ∷ ys) h =
    ground (arith, inserted_above y x ys, contains_below x ys, AscendsFrom-lower x y ys)

inserted : (x : ℕ) (ys : List ℕ) → Ascends (sort_insert x ys) → (contains x ys ≡ false) × Ascends ys
unfolding sort_insert contains
inserted x [] h = (refl, tt)
inserted x (y ∷ ys) h =
    ground (arith, inserted_above y x ys, contains_below x ys, AscendsFrom-lower x y ys)

sort-Distinct : (xs : List ℕ) → Ascends (sort xs) → Distinct xs
unfolding sort
sort-Distinct [] h = tt
sort-Distinct (x ∷ xs) h =
    let (new, rest) = inserted x (sort xs) h in
    (ground (arith, new, contains-sort x xs), sort-Distinct xs rest)

pub exact_ids-Distinct :
    (actual expected : List ℕ) → exact_ids actual expected ≡ true → Distinct actual
unfolding exact_ids
exact_ids-Distinct actual expected e =
    sort-Distinct actual (no_adjacent-Ascends (sort actual) (sort-Rises actual) (ground arith))

module _ {M : Messages} {R : Type 0} (agent : Agent M R) where
  open M use {Stream, stream_id}

  pub emplace_all-Distinct :
      (vs : List Stream) (m : List (ℕ × Stream))
      → Distinct (map stream_id vs)
      → ((z : ℕ) → contains z (map stream_id vs) ≡ true → has_key z m ≡ false)
      → emplace_all agent vs m ≡ assign_streams M vs m
  unfolding emplace_all assign_streams contains
  emplace_all-Distinct [] m d h = refl
  emplace_all-Distinct (v ∷ vs) m d h =
      let id = stream_id v in
      rw (h id (ground arith)) (
        emplace_all-Distinct vs (assign id v m) d.1 (λ z e. ground (
          arith,
          h z,
          d.0,
          e,
          has_key-lookup z m,
          has_key-lookup z (assign id v m),
          lookup-assign z id v m,
          λ (same : z ≡ id). ap (λ (t : ℕ). contains t (map stream_id vs)) same,
        )))

  -- The value of an id, in a desired map whose first entry was compared with this answer.
  found_step :
      (id : ℕ) (u : Stream) (desired confirmed : List (ℕ × Stream)) (k : ℕ) (v : Stream)
      → ((w : Stream) × (lookup id confirmed ≡ some w) × (agent.equivalent u w ≡ true))
      → (lookup k desired ≡ some v
          → (w : Stream) × (lookup k confirmed ≡ some w) × (agent.equivalent v w ≡ true))
      → lookup k ((id, u) ∷ desired) ≡ some v
      → (w : Stream) × (lookup k confirmed ≡ some w) × (agent.equivalent v w ≡ true)
  unfolding lookup
  found_step id u desired confirmed k v (w, found, same) rest f =
      if_cases
        (λ (t : Option Stream).
          t ≡ some v → (w : Stream) × (lookup k confirmed ≡ some w) × (agent.equivalent v w ≡ true))
        (k == id) (some u) (lookup k desired)
        (λ e f.
          let same_id : k ≡ id = (==_iff k id).0 e in
          let same_value : u ≡ v = cc in
          (
            w,
            ap (λ (t : ℕ). lookup t confirmed) same_id ∙ found,
            subst (λ (t : Stream). agent.equivalent t w ≡ true) same_value same,
          ))
        (λ e f. rest f) f

  -- The first entry was found and equivalent, and so were the others.
  all_equivalent_head :
      (v : Stream) (o : Option Stream) (b : Bool)
      → elim o [ none ↦ false | some w ↦ agent.equivalent v w && b ] ≡ true
      → ((w : Stream) × (o ≡ some w) × (agent.equivalent v w ≡ true)) × (b ≡ true)
  all_equivalent_head v none b e = absurd cc
  all_equivalent_head v (some w) b e = ((w, refl, ground arith), ground arith)

  pub all_equivalent_found :
      (desired confirmed : List (ℕ × Stream)) (k : ℕ) (v : Stream)
      → all_equivalent agent desired confirmed ≡ true
      → lookup k desired ≡ some v
      → (w : Stream) × (lookup k confirmed ≡ some w) × (agent.equivalent v w ≡ true)
  unfolding all_equivalent lookup
  all_equivalent_found [] confirmed k v e f = absurd cc
  all_equivalent_found ((id, u) ∷ desired) confirmed k v e f =
      let (head, rest) =
        all_equivalent_head u (lookup id confirmed) (all_equivalent agent desired confirmed) e in
      found_step id u desired confirmed k v head
        (λ g. all_equivalent_found desired confirmed k v rest g) f
