-- ===== src/Protocol/Gcd/Stein.antt =====
-- `gcd` of common/abstractprotocol.cpp ends with the greatest common divisor.
use ostinato.Base.{
  ℕ, zero, suc, ◌+◌, ◌-◌, ◌*◌, ◌/◌, ◌%◌, ◌^◌, ◌<◌, ◌≤◌, bit_and, bit_or, ◌≡◌, ◌≢◌, refl, sym, ap,
  subst, ◌∙◌, ◌⊎◌, inl, inr, true, false, ◌||◌, arith, ltb, ◌==◌, if◌then◌else◌, if_cases, if_false,
  u64, ◌<<<◌, ◌>>>◌, dec_lt, ltb→lt, ltb→le, Bool-cases,
}
use native.Mathlib.Nat.{pow-suc, mul_assoc}
use ostinato.Base.Bits.{bit_and_mask, bit_or_digit, bit_or_comm, bit_or-zero}
use ostinato.Protocol.Gcd.{strip_both, strip, gcd_loop, gcd}
use ostinato.Protocol.Gcd.Divides.{
  IsGcd, IsGcd-zero, IsGcd-sym, IsGcd-sub, IsGcd-half, IsGcd-double, Divides-le,
}

low_bit : (u : ℕ) → bit_and u 1 ≡ u % 2
low_bit u = bit_and_mask 1 u

-- What is left of a number without its factors two: it is odd, and it has the same common divisors
-- with an odd number.
record Stripped (u r : ℕ) : Type 0 where
  odd : r % 2 ≡ 1
  below : r ≤ u
  same : (g w : ℕ) → w % 2 ≡ 1 → IsGcd g w r → IsGcd g w u

strip-Stripped : (fuel u : ℕ) → 1 ≤ u → u ≤ fuel → Stripped u (strip fuel u)
unfolding strip
strip-Stripped zero u pos enough = absurd (omega arith)
strip-Stripped (suc fuel) u pos enough =
    if_cases (Stripped u) (bit_and u 1 == 0) (strip fuel (u >>> 1)) u
      (λ e.
        let even : u % 2 ≡ 0 = ground (arith, low_bit u) in
        let rest = strip-Stripped fuel (u >>> 1) (omega arith) (omega arith) in
        record {
          odd = rest.odd;
          below = omega (arith, rest.below);
          same = λ g w o h.
              subst (λ t. IsGcd g w t) {x = 2 * (u >>> 1)} {y = u} (omega arith)
                (IsGcd-half g w (u >>> 1) o (rest.same g w o h));
        })
      (λ e. record { odd = ground (arith, low_bit u); below = omega arith; same = λ g w o h. h })

-- One round, from the smaller odd number and the difference.
abbrev next_round : ℕ → ℕ → ℕ → ℕ
next_round fuel u diff = if diff >>> 1 == 0 then u else gcd_loop fuel u (diff >>> 1)

gcd_loop_smaller :
    (fuel u v : ℕ)
    → ltb u (strip v v) ≡ true
    → gcd_loop (suc fuel) u v ≡ next_round fuel u (strip v v - u)
unfolding gcd_loop
gcd_loop_smaller fuel u v h = rw h refl

gcd_loop_larger :
    (fuel u v : ℕ)
    → ltb u (strip v v) ≡ false
    → gcd_loop (suc fuel) u v ≡ next_round fuel (strip v v) (u - strip v v)
unfolding gcd_loop
gcd_loop_larger fuel u v h = rw h refl

next_round-IsGcd :
    (fuel u diff : ℕ)
    → u % 2 ≡ 1
    → diff % 2 ≡ 0
    → (1 ≤ diff / 2 → IsGcd (gcd_loop fuel u (diff / 2)) u (diff / 2))
    → IsGcd (next_round fuel u diff) u diff
next_round-IsGcd fuel u diff odd even later =
    if_cases (λ t. IsGcd t u diff) (diff >>> 1 == 0) u (gcd_loop fuel u (diff >>> 1))
      (λ e. subst (λ t. IsGcd u u t) {x = 0} {y = diff} (ground arith) (IsGcd-zero u))
      λ e.
        subst (λ t. IsGcd (gcd_loop fuel u (diff / 2)) u t) {x = 2 * (diff / 2)} {y = diff}
          (omega arith)
          (IsGcd-half (gcd_loop fuel u (diff / 2)) u (diff / 2) odd (later (ground arith)))

-- The outer loop, for an odd `u` and a positive `v`: each round makes the sum of both smaller.
gcd_loop-IsGcd : (fuel u v : ℕ) → u % 2 ≡ 1 → 1 ≤ v → u + v ≤ fuel → IsGcd (gcd_loop fuel u v) u v
gcd_loop-IsGcd zero u v odd pos enough = absurd (omega arith)
gcd_loop-IsGcd (suc fuel) u v odd pos enough =
    let r = strip v v in
    let stripped = strip-Stripped v v pos (omega arith) in
    elim (Bool-cases (ltb u r)) [
      | inl lower ↦
          let less = ltb→lt u r lower in
          rw (gcd_loop_smaller fuel u v lower) (
            stripped.same _ u odd (
              IsGcd-sub _ u r (omega arith) (
                next_round-IsGcd fuel u (r - u) odd (omega (arith, stripped.odd)) (λ k.
                  gcd_loop-IsGcd fuel u ((r - u) / 2) odd k (omega (arith, stripped.below))))))
      | inr upper ↦
          let less = ltb→le u r upper in
          rw (gcd_loop_larger fuel u v upper) (
            stripped.same _ u odd (
              IsGcd-sym _ r u (
                IsGcd-sub _ r u less (
                  next_round-IsGcd fuel r (u - r) stripped.odd (omega (arith, stripped.odd)) (λ k.
                    gcd_loop-IsGcd fuel r ((u - r) / 2) stripped.odd k
                      (omega (arith, stripped.below)))))))
    ]

strip_odd : (u : ℕ) → u % 2 ≡ 1 → strip u u ≡ u
unfolding strip
strip_odd zero odd = refl
strip_odd (suc u) odd = if_false (bit_and (suc u) 1 == 0) _ _ (ground (arith, low_bit (suc u)))

-- What the first loop leaves: one number is odd, and the factors two are counted.
record Shared (u v shift : ℕ) (r : ℕ × ℕ × ℕ) : Type 0 where
  count : ℕ
  counted : r.2 ≡ shift + count
  left : (1 ≤ r.0) × (r.0 ≤ u)
  right : (1 ≤ r.1) × (r.1 ≤ v)
  odd : (r.0 % 2 ≡ 1) ⊎ (r.1 % 2 ≡ 1)
  scaled : (g : ℕ) → IsGcd g r.0 r.1 → IsGcd (g * 2 ^ count) u v

both_even : (u v : ℕ) → bit_and (bit_or u v) 1 ≡ 0 → (u % 2 ≡ 0) × (v % 2 ≡ 0)
both_even u v e = (
  omega (arith, e, low_bit (bit_or u v), bit_or_digit u v),
  omega (arith, e, low_bit (bit_or u v), bit_or_digit u v),
)

one_odd : (u v : ℕ) → bit_and (bit_or u v) 1 ≢ 0 → (u % 2 ≡ 1) ⊎ (v % 2 ≡ 1)
one_odd u v e = elim (dec_lt (u % 2) 1) [
  | no odd ↦ inl (omega arith)
  | yes even ↦ inr (ground (arith, low_bit (bit_or u v), bit_or_digit u v))
]

strip_both-Shared :
    (fuel u v shift : ℕ) → 1 ≤ u → 1 ≤ v → u ≤ fuel → Shared u v shift (strip_both fuel u v shift)
unfolding strip_both
strip_both-Shared zero u v shift pu pv enough = absurd (omega arith)
strip_both-Shared (suc fuel) u v shift pu pv enough =
    if_cases (Shared u v shift) (bit_and (bit_or u v) 1 == 0)
      (strip_both fuel (u >>> 1) (v >>> 1) (suc shift)) (u, v, shift)
      (λ e.
        let (eu, ev) = both_even u v (ground arith) in
        let rest =
          strip_both-Shared fuel (u >>> 1) (v >>> 1) (suc shift) (omega arith) (omega arith)
            (omega arith) in
        record {
          count = suc rest.count;
          counted = omega (arith, rest.counted);
          left = (rest.left.0, omega (arith, rest.left.1));
          right = (rest.right.0, omega (arith, rest.right.1));
          odd = rest.odd;
          scaled = λ g h. doubled g rest.count u v eu ev (rest.scaled g h);
        })
      (λ e. record {
        count = 0;
        counted = omega arith;
        left = (pu, omega arith);
        right = (pv, omega arith);
        odd = one_odd u v (ground arith);
        scaled = λ g h. subst (λ t. IsGcd t u v) {x = g} {y = g * 2 ^ 0} (omega arith) h;
      })
  where
    doubled :
        (g k u v : ℕ)
        → u % 2 ≡ 0
        → v % 2 ≡ 0
        → IsGcd (g * 2 ^ k) (u / 2) (v / 2)
        → IsGcd (g * 2 ^ suc k) u v
    doubled g k u v eu ev h =
        let whole : 2 * (u / 2) ≡ u = omega arith in
        let whole' : 2 * (v / 2) ≡ v = omega arith in
        let twice : 2 * (g * 2 ^ k) ≡ g * 2 ^ suc k =
          omega (arith, ap (◌*◌ g) (pow-suc 2 k), mul_assoc g (2 ^ k) 2) in
        subst (λ t. IsGcd t u v) twice
          (subst (λ t. IsGcd (2 * (g * 2 ^ k)) t v) whole
            (subst (λ t. IsGcd (2 * (g * 2 ^ k)) (2 * (u / 2)) t) whole'
              (IsGcd-double (g * 2 ^ k) (u / 2) (v / 2) h)))

-- The rest of the function: for numbers of which one is odd.
odd-IsGcd :
    (fuel u v : ℕ)
    → 1 ≤ u
    → 1 ≤ v
    → u + v ≤ fuel
    → (u % 2 ≡ 1) ⊎ (v % 2 ≡ 1)
    → IsGcd (gcd_loop fuel (strip u u) v) u v
odd-IsGcd fuel u v pu pv enough (inl odd) =
    rw (strip_odd u odd) (gcd_loop-IsGcd fuel u v odd pv enough)
odd-IsGcd fuel u v pu pv enough (inr odd) =
    let stripped = strip-Stripped u u pu (omega arith) in
    let g = gcd_loop fuel (strip u u) v in
    IsGcd-sym g v u (
      stripped.same g v odd (
        IsGcd-sym g (strip u u) v
          (gcd_loop-IsGcd fuel (strip u u) v stripped.odd pv (omega (arith, stripped.below)))))

bit_or-IsGcd : (u v : ℕ) → (u == 0 || v == 0) ≡ true → IsGcd (bit_or u v) u v
bit_or-IsGcd zero v e =
    subst (λ t. IsGcd t 0 v) (sym (bit_or_comm 0 v ∙ bit_or-zero v))
      (IsGcd-sym v v 0 (IsGcd-zero v))
bit_or-IsGcd (suc u) v e =
    let none_there : 0 ≡ v = ground arith in
    subst (λ t. IsGcd (bit_or (suc u) t) (suc u) t) none_there
      (subst (λ t. IsGcd t (suc u) 0) (sym (bit_or-zero (suc u))) (IsGcd-zero (suc u)))

-- For 64-bit numbers the function ends, without overflow, with their greatest common divisor: it
-- divides both, and each common divisor divides it. The rounds given to each loop are enough.
pub gcd-IsGcd : (u v : ℕ) → u < 2 ^ 64 → v < 2 ^ 64 → IsGcd (gcd u v) u v
unfolding gcd
gcd-IsGcd u v hu hv =
    let (u', v', s) = strip_both u u v 0 in
    if_cases (λ t. IsGcd t u v) (u == 0 || v == 0) (bit_or u v)
      (u64 (gcd_loop (u + v) (strip u' u') v' <<< s)) (λ e. bit_or-IsGcd u v e)
      λ e.
        let shared = strip_both-Shared u u v 0 (ground arith) (ground arith) (omega arith) in
        let g = gcd_loop (u + v) (strip u' u') v' in
        let one =
          odd-IsGcd (u + v) u' v' shared.left.0 shared.right.0
            (omega (arith, shared.left, shared.right)) shared.odd in
        let all = shared.scaled g one in
        let same : s ≡ shared.count = shared.counted ∙ omega arith in
        let small = Divides-le (g * 2 ^ shared.count) u (ground arith) all.left in
        rw same (subst (λ t. IsGcd t u v) {x = g * 2 ^ shared.count} (omega (arith, small)) all)
