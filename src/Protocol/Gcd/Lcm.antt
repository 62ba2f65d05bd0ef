-- ===== src/Protocol/Gcd/Lcm.antt =====
-- `lcm` of common/abstractprotocol.cpp against `gcd`.
use ostinato.Base.{
  ℕ, zero, suc, ◌*◌, ◌/◌, ◌^◌, ◌<◌, ◌≤◌, ◌≡◌, refl, sym, ap, ◌∙◌, inl, inr, true, ◌||◌, arith, ◌==◌,
  if_cases, if_false, u64, Bool-cases,
}
use native.Mathlib.Nat.{mul_assoc, mul_comm, mul_left_comm, mod-eq_of_lt, mul-div_right}
use ostinato.Protocol.Gcd.{gcd, lcm}
use ostinato.Protocol.Gcd.Divides.{Divides, IsGcd, Divides-le}
use ostinato.Protocol.Gcd.Stein.{gcd-IsGcd}

positive : (g n : ℕ) → 1 ≤ n → Divides g n → 1 ≤ g
positive zero n pos h = absurd (omega (arith, h.exact))
positive (suc g) n pos h = omega arith

gcd_one : (u v : ℕ) → IsGcd (gcd u v) u v → (u == 1 || v == 1) ≡ true → gcd u v ≡ 1
gcd_one u v h e = elim (Bool-cases (u == 1)) [
  | inl first ↦
      let one : u ≡ 1 = ground arith in
      let low = Divides-le (gcd u v) u (omega (arith, one)) h.left in
      let high = positive (gcd u v) u (omega (arith, one)) h.left in omega (arith, low, high, one)
  | inr other ↦
      let one : v ≡ 1 = ground arith in
      let low = Divides-le (gcd u v) v (omega (arith, one)) h.right in
      let high = positive (gcd u v) v (omega (arith, one)) h.right in omega (arith, low, high, one)
]

lcm_value :
    (u v : ℕ) → 1 ≤ u → 1 ≤ v → u * v < 2 ^ 64 → IsGcd (gcd u v) u v → lcm u v ≡ u * v / gcd u v
unfolding lcm
lcm_value u v pu pv small h =
    let exact : u64 (u * v) ≡ u * v = mod-eq_of_lt small in
    rw (if_false (u == 0) 1 u (ground arith), if_false (v == 0) 1 v (ground arith), exact)
      (if_cases (λ t. t ≡ u * v / gcd u v) (u == 1 || v == 1) (u * v) (u * v / gcd u v)
        (λ e. rw (gcd_one u v h e) (omega arith)) (λ e. refl))

-- What `lcm` gives is a multiple of both numbers, and its product with what `gcd` gives is their
-- product: for positive numbers whose product does not overflow 64 bits.
pub lcm-gcd :
    (u v : ℕ)
    → 1 ≤ u
    → 1 ≤ v
    → u < 2 ^ 64
    → v < 2 ^ 64
    → u * v < 2 ^ 64
    → Divides u (lcm u v) × Divides v (lcm u v) × (lcm u v * gcd u v ≡ u * v)
lcm-gcd u v pu pv hu hv small =
    let h = gcd-IsGcd u v hu hv in
    let g = gcd u v in
    let value = lcm_value u v pu pv small h in
    let pos = positive g u pu h.left in
    let s = h.left.times in
    let t = h.right.times in
    let by_v : u * v ≡ g * (u * t) = ap (◌*◌ u) h.right.exact ∙ mul_left_comm u g t in
    let by_u : u * v ≡ g * (s * v) = ap (λ (k : ℕ). k * v) h.left.exact ∙ mul_assoc g s v in
    let first : lcm u v ≡ u * t = value ∙ ap (λ (k : ℕ). k / g) by_v ∙ mul-div_right (u * t) pos in
    let second : lcm u v ≡ v * s =
      value ∙ ap (λ (k : ℕ). k / g) by_u ∙ mul-div_right (s * v) pos ∙ mul_comm s v in
    (
      record { times = t; exact = first },
      record { times = s; exact = second },
      ap (λ (k : ℕ). k * g) first ∙ mul_comm (u * t) g ∙ sym by_v,
    )
