-- ===== src/Protocol/Gcd/Divides.antt =====
-- Greatest common divisors, and what the steps of Stein's algorithm do to them.
use native.Mathlib.Nat.{mul-add, mul-suc, mul-sub, mul_comm, mul_left_comm}
use ostinato.Base.{
  ℕ, zero, suc, ◌+◌, ◌-◌, ◌*◌, ◌/◌, ◌%◌, ◌≤◌, ◌≡◌, ap, subst, ◌∙◌, ◌⊎◌, inl, inr, arith, dec_lt,
}

pub record Divides (d n : ℕ) : Type 0 where
  pub times : ℕ
  pub exact : n ≡ d * times

Divides-add : (d m n : ℕ) → Divides d m → Divides d n → Divides d (m + n)
Divides-add d m n h k = record {
  times = h.times + k.times;
  exact = omega (arith, h.exact, k.exact, mul-add d h.times k.times);
}

Divides-sub : (d m n : ℕ) → Divides d m → Divides d n → Divides d (m - n)
Divides-sub d m n h k = record {
  times = h.times - k.times;
  exact = omega (arith, h.exact, k.exact, mul-sub d h.times k.times);
}

-- A product by the halves of one factor.
halved :
    (a b : ℕ)
    → ((b % 2 ≡ 0) × (a * b ≡ 2 * (a * (b / 2)))) ⊎ ((b % 2 ≡ 1) × (a * b ≡ 2 * (a * (b / 2)) + a))
halved a b = elim (dec_lt (b % 2) 1) [
  | yes even ↦
      let whole : b ≡ 2 * (b / 2) = omega arith in
      inl (omega arith, ap (◌*◌ a) whole ∙ mul_left_comm a 2 (b / 2))
  | no odd ↦
      let whole : b ≡ 2 * (b / 2) + 1 = omega arith in
      inr (
        omega arith,
        ap (◌*◌ a) whole ∙ mul-add a (2 * (b / 2)) 1 ∙ omega (arith, mul_left_comm a 2 (b / 2)),
      )
]

-- A divisor of an odd number is odd.
Divides-odd : (d u : ℕ) → u % 2 ≡ 1 → Divides d u → d % 2 ≡ 1
Divides-odd d u odd h = elim (halved h.times d) [
  | inl (even, e) ↦ omega (arith, h.exact, mul_comm d h.times, e)
  | inr (one, e) ↦ one
]

-- It divides the half of an even number that it divides.
Divides-half : (d w : ℕ) → d % 2 ≡ 1 → Divides d (2 * w) → Divides d w
Divides-half d w odd k = elim (halved d k.times) [
  | inl (even, e) ↦ record { times = k.times / 2; exact = omega (arith, k.exact, e) }
  | inr (one, e) ↦ absurd (omega (arith, k.exact, e))
]

Divides-double : (d n : ℕ) → Divides d n → Divides d (2 * n)
Divides-double d n h = record {
  times = 2 * h.times;
  exact = omega (arith, h.exact, mul_left_comm d 2 h.times);
}

Divides-both : (d n : ℕ) → Divides d n → Divides (2 * d) (2 * n)
Divides-both d n h = record {
  times = h.times;
  exact =
      omega
        (arith, h.exact, mul_comm (2 * d) h.times, mul_left_comm h.times 2 d, mul_comm d h.times);
}

Divides-halves : (d n : ℕ) → d % 2 ≡ 0 → Divides d (2 * n) → Divides (d / 2) n
Divides-halves d n even h = record {
  times = h.times;
  exact = omega (
    arith,
    h.exact,
    mul_comm d h.times,
    ap (◌*◌ h.times) {x = d} {y = 2 * (d / 2)} (omega arith),
    mul_left_comm h.times 2 (d / 2),
    mul_comm (d / 2) h.times,
  );
}

-- The greatest common divisor, by what it divides and what divides it.
pub record IsGcd (g u v : ℕ) : Type 0 where
  pub left : Divides g u
  pub right : Divides g v
  pub greatest : (d : ℕ) → Divides d u → Divides d v → Divides d g

pub IsGcd-zero : (u : ℕ) → IsGcd u u 0
IsGcd-zero u = record {
  left = record { times = 1; exact = omega arith };
  right = record { times = 0; exact = omega arith };
  greatest = λ d h k. h;
}

pub IsGcd-sym : (g u v : ℕ) → IsGcd g u v → IsGcd g v u
IsGcd-sym g u v h = record { left = h.right; right = h.left; greatest = λ d i k. h.greatest d k i }

pub IsGcd-sub : (g u v : ℕ) → u ≤ v → IsGcd g u (v - u) → IsGcd g u v
IsGcd-sub g u v le h = record {
  left = h.left;
  right =
      subst (λ t. Divides g t) {x = u + (v - u)} {y = v} (omega arith)
        (Divides-add g u (v - u) h.left h.right);
  greatest = λ d i k. h.greatest d i (Divides-sub d v u k i);
}

pub IsGcd-half : (g u w : ℕ) → u % 2 ≡ 1 → IsGcd g u w → IsGcd g u (2 * w)
IsGcd-half g u w odd h = record {
  left = h.left;
  right = Divides-double g w h.right;
  greatest = λ d i k. h.greatest d i (Divides-half d w (Divides-odd d u odd i) k);
}

pub IsGcd-double : (g u v : ℕ) → IsGcd g u v → IsGcd (2 * g) (2 * u) (2 * v)
IsGcd-double g u v h = record {
  left = Divides-both g u h.left;
  right = Divides-both g v h.right;
  greatest = λ d i k. elim (dec_lt (d % 2) 1) [
    | yes even ↦
        subst (λ t. Divides t (2 * g)) {x = 2 * (d / 2)} {y = d} (omega arith)
          (Divides-both (d / 2) g (
            h.greatest (d / 2) (Divides-halves d u (omega arith) i)
              (Divides-halves d v (omega arith) k)))
    | no odd ↦
        let one : d % 2 ≡ 1 = omega arith in
        Divides-double d g (h.greatest d (Divides-half d u one i) (Divides-half d v one k))
  ];
}

-- A divisor of a positive number is at most that number.
pub Divides-le : (d n : ℕ) → 1 ≤ n → Divides d n → d ≤ n
Divides-le d n pos h = by_times h.times h.exact
  where
    by_times : (t : ℕ) → n ≡ d * t → d ≤ n
    by_times zero e = absurd (omega (arith, e))
    by_times (suc t) e = omega (arith, e, mul-suc d t)
