-- ===== src/Base/MapEntries.antt =====
-- What holds of each entry of a map.
use ostinato.Base.{
  ℕ, Option, none, some, List, [], ◌∷◌, All, if_cases, ltb, ◌==◌, ==_iff, subst, sym,
}
use ostinato.Base.OrderedMap.{lookup, assign}

module _ {W : Type 0} (Q : ℕ → W → Type 0) where
  abbrev pub AllEntries : List (ℕ × W) → Type 0
  AllEntries = All (λ (e : ℕ × W). Q e.0 e.1)

  -- What is found, if anything is.
  abbrev pub Found : ℕ → Option W → Type 0
  Found k none = Unit
  Found k (some w) = Q k w

  pub assign-AllEntries :
      (k : ℕ) (w : W) (m : List (ℕ × W)) → Q k w → AllEntries m → AllEntries (assign k w m)
  unfolding assign
  assign-AllEntries k w [] h all = (h, tt)
  assign-AllEntries k w ((j, x) ∷ m) h all =
      if_cases AllEntries (ltb k j) ((k, w) ∷ (j, x) ∷ m) _ (λ e. (h, all))
        λ e.
          if_cases AllEntries (k == j) ((k, w) ∷ m) ((j, x) ∷ assign k w m) (λ e. (h, all.1))
            (λ e. (all.0, assign-AllEntries k w m h all.1))

  pub lookup-AllEntries : (k : ℕ) (m : List (ℕ × W)) → AllEntries m → Found k (lookup k m)
  unfolding lookup
  lookup-AllEntries k [] all = tt
  lookup-AllEntries k ((j, x) ∷ m) all =
      if_cases (Found k) (k == j) (some x) (lookup k m)
        (λ e. subst (λ i. Q i x) (sym ((==_iff k j).0 e)) all.0) (λ e. lookup-AllEntries k m all.1)
