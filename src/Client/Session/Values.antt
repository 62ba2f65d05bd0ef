-- ===== src/Client/Session/Values.antt =====
-- The maps that `ClientSession::apply` of client/core/client_session.cpp makes of the values of a map,
-- and its comparison of the confirmed streams.
use ostinato.Base.{
  ℕ, ◌≡◌, refl, ap, ap₂, ◌∙◌, true, false, ◌&&◌, ◌||◌, Option, none, some, List, [], ◌∷◌, map,
  arith, if_cases, ◌==◌, if◌then◌else◌,
}
use ostinato.Base.OrderedSet.{contains, Ascends, AscendsFrom-Ascends}
use ostinato.Base.OrderedMap.{
  keys, lookup, has_key, assign, lookup-assign, lookup-none, has_key-lookup,
}
use ostinato.Client.PortState.{Messages, assign_streams, assign_groups}
use ostinato.Client.PortState.Edits.{IsKeyed}
use ostinato.Client.Session.{Agent, values, values_at, emplace_all, all_equivalent}

-- What a map found under a key, or what else there is.
abbrev pub or_else {ℓ} : {A : Type ℓ} → Option A → Option A → Option A
or_else none o = o
or_else (some a) o = some a

pub tail-IsKeyed :
    (M : Messages) {W : Type 0} (id_of : W → ℕ) (j : ℕ) (w : W) (m : List (ℕ × W))
    → IsKeyed M id_of ((j, w) ∷ m)
    → IsKeyed M id_of m
unfolding keys lookup
tail-IsKeyed M id_of j w m h = record {
  ordered = AscendsFrom-Ascends j (keys m) h.ordered;
  own_id = λ k v e. ground (arith, h.own_id k v, lookup-none j m h.ordered);
}

head_id :
    (M : Messages) {W : Type 0} (id_of : W → ℕ) (j : ℕ) (w : W) (m : List (ℕ × W))
    → IsKeyed M id_of ((j, w) ∷ m)
    → id_of w ≡ j
unfolding lookup
head_id M id_of j w m h = h.own_id j w (ground arith)

pub map-values :
    (M : Messages) {W : Type 0} (id_of : W → ℕ) (m : List (ℕ × W))
    → IsKeyed M id_of m
    → map id_of (values m) ≡ keys m
unfolding values keys
map-values M id_of [] h = refl
map-values M id_of ((j, w) ∷ m) h =
    ap₂ ◌∷◌ (head_id M id_of j w m h) (map-values M id_of m (tail-IsKeyed M id_of j w m h))

module _ {M : Messages} {R : Type 0} (agent : Agent M R) where
  open M use {Stream, DeviceGroup, stream_id, device_group_id}

  -- All values of a map, assigned to another one.
  pub lookup-assign_values :
      (k : ℕ) (m m' : List (ℕ × Stream))
      → IsKeyed M stream_id m
      → lookup k (assign_streams M (values m) m') ≡ or_else (lookup k m) (lookup k m')
  unfolding assign_streams values lookup keys
  lookup-assign_values k [] m' h = refl
  lookup-assign_values k ((j, v) ∷ m) m' h =
      let own = head_id M stream_id j v m h in
      lookup-assign_values k m (assign (stream_id v) v m') (tail-IsKeyed M stream_id j v m h)
      ∙ ground (
        arith,
        own,
        lookup-assign k (stream_id v) v m',
        λ (e : k ≡ j). ap (λ (t : ℕ). lookup t m) e ∙ lookup-none j m h.ordered,
      )

  -- The values under some ids of a map, assigned to another one.
  pub lookup-assign_values_at :
      (k : ℕ) (ids : List ℕ) (m m' : List (ℕ × DeviceGroup))
      → IsKeyed M device_group_id m
      → lookup k (assign_groups M (values_at ids m) m')
        ≡ (if contains k ids then or_else (lookup k m) (lookup k m') else lookup k m')
  unfolding assign_groups values_at contains
  lookup-assign_values_at k [] m m' h = refl
  lookup-assign_values_at k (i ∷ ids) m m' h =
      found (lookup i m) refl (λ n. lookup-assign_values_at k ids m n h)
    where
      found :
          (o : Option DeviceGroup)
          → lookup i m ≡ o
          → ((n : List (ℕ × DeviceGroup))
              → lookup k (assign_groups M (values_at ids m) n)
                ≡ (if contains k ids then or_else (lookup k m) (lookup k n) else lookup k n))
          → lookup k (
              assign_groups M (elim o [ none ↦ values_at ids m | some v ↦ v ∷ values_at ids m ]) m')
            ≡ (if k == i || contains k ids then or_else (lookup k m) (lookup k m') else lookup k m')
      found none e later =
          later m' ∙ ground (arith, e, λ (same : k ≡ i). ap (λ (t : ℕ). lookup t m) same)
      found (some v) e later =
          later (assign (device_group_id v) v m')
          ∙ ground (
            arith,
            e,
            h.own_id i v e,
            lookup-assign k (device_group_id v) v m',
            λ (same : k ≡ i). ap (λ (t : ℕ). lookup t m) same,
          )

  -- The same where the first value of a key is kept.
  pub lookup-emplace_values :
      (k : ℕ) (m m' : List (ℕ × Stream))
      → IsKeyed M stream_id m
      → lookup k (emplace_all agent (values m) m') ≡ or_else (lookup k m') (lookup k m)
  unfolding emplace_all values lookup keys
  lookup-emplace_values k [] m' h = ground arith
  lookup-emplace_values k ((j, v) ∷ m) m' h =
      let own = head_id M stream_id j v m h in
      lookup-emplace_values k m (if has_key (stream_id v) m' then m' else assign (stream_id v) v m')
        (tail-IsKeyed M stream_id j v m h)
      ∙ if_cases
          (λ (n : List (ℕ × Stream)).
            or_else (lookup k n) (lookup k m)
            ≡ or_else (lookup k m') (if k == j then some v else lookup k m))
          (has_key (stream_id v) m') m' (assign (stream_id v) v m')
          (λ e. ground (
            arith,
            own,
            has_key-lookup k m',
            λ (e : k ≡ j). ap (λ (t : ℕ). has_key t m') e,
            ap (λ (t : ℕ). has_key t m') own,
          ))
          (λ e. ground (
            arith,
            own,
            lookup-assign k (stream_id v) v m',
            has_key-lookup k m',
            λ (e : k ≡ j). ap (λ (t : ℕ). has_key t m') e,
            ap (λ (t : ℕ). has_key t m') own,
          ))

  pub all_equivalent-same :
      (desired confirmed : List (ℕ × Stream))
      → Ascends (keys desired)
      → ((v : Stream) → agent.equivalent v v ≡ true)
      → ((k : ℕ) (v : Stream) → lookup k desired ≡ some v → lookup k confirmed ≡ some v)
      → all_equivalent agent desired confirmed ≡ true
  unfolding all_equivalent keys lookup
  all_equivalent-same [] confirmed h same found = refl
  all_equivalent-same ((id, v) ∷ desired) confirmed h same found =
      let here : lookup id confirmed ≡ some v = found id v (ground arith) in
      let later =
        all_equivalent-same desired confirmed (AscendsFrom-Ascends id (keys desired) h) same
          (λ k w e. found k w (
            ground (
              arith,
              e,
              λ (e : k ≡ id). ap (λ (t : ℕ). lookup t desired) e ∙ lookup-none id desired h,
            ))) in
      ap
        (λ (o : Option Stream). elim o [
          | none ↦ false
          | some w ↦ agent.equivalent v w && all_equivalent agent desired confirmed
        ])
        here
      ∙ ground (arith, same v, later)
