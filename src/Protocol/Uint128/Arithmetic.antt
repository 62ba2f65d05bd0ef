-- ===== src/Protocol/Uint128/Arithmetic.antt =====
-- The operators of `UInt128`, common/uint128.h, against numbers of 128 bits.
use native.Mathlib.Nat.{
  pow-suc, one-le-pow, mul-add-mod_self_left, mod-eq_of_lt, div-add-mod, mod-lt,
}
use ostinato.Base.{
  ℕ, ◌+◌, ◌-◌, ◌*◌, ◌/◌, ◌%◌, ◌^◌, ◌≤◌, ◌<◌, bit_and, bit_or, ◌≡◌, ◌↔◌, ap, ap₂, zero, suc, sym,
  subst, not, ◌∙◌, true, arith, ltb, if_cases, u64, ◌<<<◌, ◌>>>◌,
}
use ostinato.Base.Bits.{bit_or_shifted}
use ostinato.Base.Xor.{digitwise-lt, digitwise-parts, bit_or-IsDigitwise, bit_and-IsDigitwise}
use ostinato.Protocol.Uint128.{
  Uint128, is_zero, equal, differs, carry, add, subtract, multiply, shift_up, complement,
  conjunction, disjunction,
}

-- Both halves fit their width.
abbrev pub IsUint128 : Uint128 → Type 0
IsUint128 a = (a.hi < 2 ^ 64) × (a.lo < 2 ^ 64)

abbrev pub value : Uint128 → ℕ
value a = a.hi * 2 ^ 64 + a.lo

-- A result that fits and stands for this number.
pub record Stands (a : Uint128) (n : ℕ) : Type 0 where
  pub fits : IsUint128 a
  pub number : value a ≡ n

add-Stands :
    (a b : Uint128) → IsUint128 a → IsUint128 b → Stands (add a b) ((value a + value b) % 2 ^ 128)
unfolding add carry
add-Stands a b fa fb = record { fits = omega arith; number = ground arith }

subtract-Stands :
    (a b : Uint128)
    → IsUint128 a
    → IsUint128 b
    → Stands (subtract a b) ((value a + 2 ^ 128 - value b) % 2 ^ 128)
unfolding subtract carry
subtract-Stands a b fa fb = record { fits = omega arith; number = ground arith }

multiply-Stands : (a : Uint128) (k : ℕ) → Stands (multiply a k) (value a * k % 2 ^ 64)
unfolding multiply
multiply-Stands a k = record {
  fits = omega arith;
  number = sym (
      ap (λ (t : ℕ). t % 2 ^ 64) (product a.hi a.lo k)
      ∙ mul-add-mod_self_left (2 ^ 64) (a.hi * k) (a.lo * k)
      ∙ omega arith);
}
  where
    product : (h l k : ℕ) → (h * 2 ^ 64 + l) * k ≡ 2 ^ 64 * (h * k) + l * k
    product h l k = grind arith

complement-Stands : (a : Uint128) → IsUint128 a → Stands (complement a) (2 ^ 128 - 1 - value a)
unfolding complement
complement-Stands a fa = record { fits = omega arith; number = omega arith }

conjunction-Stands :
    (a b : Uint128)
    → IsUint128 a
    → IsUint128 b
    → Stands (conjunction a b) (bit_and (value a) (value b))
unfolding conjunction
conjunction-Stands a b fa fb = record {
  fits = (
    digitwise-lt _ _ bit_and-IsDigitwise 64 a.hi b.hi fa.0 fb.0,
    digitwise-lt _ _ bit_and-IsDigitwise 64 a.lo b.lo fa.1 fb.1,
  );
  number = sym (digitwise-parts _ _ bit_and-IsDigitwise 64 a.hi a.lo b.hi b.lo fa.1 fb.1);
}

disjunction-Stands :
    (a b : Uint128)
    → IsUint128 a
    → IsUint128 b
    → Stands (disjunction a b) (bit_or (value a) (value b))
unfolding disjunction
disjunction-Stands a b fa fb = record {
  fits = (
    digitwise-lt _ _ bit_or-IsDigitwise 64 a.hi b.hi fa.0 fb.0,
    digitwise-lt _ _ bit_or-IsDigitwise 64 a.lo b.lo fa.1 fb.1,
  );
  number = sym (digitwise-parts _ _ bit_or-IsDigitwise 64 a.hi a.lo b.hi b.lo fa.1 fb.1);
}

-- The tests agree with those on numbers.
equal_iff :
    (a b : Uint128)
    → IsUint128 a
    → IsUint128 b
    → ((equal a b ≡ true) ↔ (value a ≡ value b))
      × (differs a b ≡ not (equal a b))
      × ((is_zero a ≡ true) ↔ (value a ≡ 0))
unfolding equal differs is_zero
equal_iff a b fa fb = (ground arith, ground arith, ground arith)

-- What a shift by `w` keeps of a half, where `v` is the other part of the width.
low_part : (x v w : ℕ) → 1 ≤ v → 1 ≤ w → x * w % (v * w) ≡ x % v * w
low_part x v w hv hw =
    let whole : x * w ≡ v * w * (x / v) + x % v * w =
      sym (ap (λ (t : ℕ). t * w) (div-add-mod x v)) ∙ grind arith in
    ap (λ (t : ℕ). t % (v * w)) whole
    ∙ mul-add-mod_self_left (v * w) (x / v) _
    ∙ mod-eq_of_lt (grind (arith, mod-lt x hv))

pow_add : (m n : ℕ) → 2 ^ m * 2 ^ n ≡ 2 ^ (m + n)
pow_add m zero =
    let same : 2 ^ m ≡ 2 ^ (m + 0) = ap (λ (t : ℕ). 2 ^ t) {x = m} {y = m + 0} (omega arith) in
    omega (arith, same)
pow_add m (suc n) =
    let turned : 2 ^ m * (2 ^ n * 2) ≡ 2 ^ m * 2 ^ n * 2 = grind arith in
    ap (λ (t : ℕ). 2 ^ m * t) (pow-suc 2 n)
    ∙ turned
    ∙ ap (λ (t : ℕ). t * 2) (pow_add m n)
    ∙ sym (pow-suc 2 (m + n))
    ∙ ap (λ (t : ℕ). 2 ^ t) {x = suc (m + n)} {y = m + suc n} (omega arith)

split_width : (s : ℕ) → s ≤ 64 → 2 ^ (64 - s) * 2 ^ s ≡ 2 ^ 64
split_width s h = pow_add (64 - s) s ∙ ap (λ (t : ℕ). 2 ^ t) {x = 64 - s + s} {y = 64} (omega arith)

two_digits : (n x y : ℕ) → x < n → y < n → x * n + y < n * n
two_digits n x y h k = grind arith

quotient-lt : (v w x : ℕ) → 1 ≤ v → x < v * w → x / v < w
quotient-lt v w x hv h = grind (arith, div-add-mod x v)

two_parts : (v w r p : ℕ) → r < v → p < w → r * w + p < v * w
two_parts v w r p h k = grind arith

-- The halves after a shift by `w` of a number in base `v * w`.
shifted_halves :
    (h l v w : ℕ)
    → 1 ≤ v
    → 1 ≤ w
    → l < v * w
    → (h % v * w + l / v) * (v * w) + l % v * w ≡ (h * (v * w) + l) * w % (v * w * (v * w))
shifted_halves h l v w hv hw fits =
    let r = (h % v * w + l / v) * (v * w) + l % v * w in
    let whole : (h * (v * w) + l) * w ≡ v * w * (v * w) * (h / v) + r =
      ap₂ (λ (x y : ℕ). (x * (v * w) + y) * w) (sym (div-add-mod h v)) (sym (div-add-mod l v))
      ∙ expand v w (h / v) (h % v) (l / v) (l % v) in
    let high : h % v * w + l / v < v * w =
      two_parts v w (h % v) (l / v) (mod-lt h hv) (quotient-lt v w l hv fits) in
    let low : l % v * w < v * w = grind (arith, mod-lt l hv) in
    sym (
      ap (λ (t : ℕ). t % (v * w * (v * w))) whole
      ∙ mul-add-mod_self_left (v * w * (v * w)) (h / v) r
      ∙ mod-eq_of_lt (two_digits (v * w) _ _ high low))
  where
    expand :
        (v w q r p t : ℕ)
        → ((v * q + r) * (v * w) + (v * p + t)) * w
          ≡ v * w * (v * w) * q + ((r * w + p) * (v * w) + t * w)
    expand v w q r p t = grind arith

-- The halves that a shift by less than 64 computes, in base `2 ^ 64`.
short_shift_halves :
    (h l s : ℕ)
    → h < 2 ^ 64
    → l < 2 ^ 64
    → s ≤ 64
    → let v = 2 ^ (64 - s) in
      let w = 2 ^ s in
      (bit_or (u64 (h <<< s)) (l >>> (64 - s)) ≡ h % v * w + l / v) × (u64 (l <<< s) ≡ l % v * w)
short_shift_halves h l s fh fl k =
    let v = 2 ^ (64 - s) in
    let w = 2 ^ s in
    let hv : 1 ≤ v = one-le-pow (64 - s) 2 (omega arith) in
    let hw : 1 ≤ w = one-le-pow s 2 (omega arith) in
    let width : v * w ≡ 2 ^ 64 = split_width s k in
    let kept : (x : ℕ) → u64 (x * w) ≡ x % v * w =
      λ x. ap (λ (t : ℕ). x * w % t) (sym width) ∙ low_part x v w hv hw in
    (
      ap (λ (t : ℕ). bit_or t (l / v)) (kept h)
          ∙ bit_or_shifted s (h % v) (l / v) (quotient-lt v w l hv (rw width fl)),
      kept l,
    )

short_shift-Stands :
    (a : Uint128) (s : ℕ) → IsUint128 a → s < 64 → Stands (shift_up a s) (value a * 2 ^ s % 2 ^ 128)
unfolding shift_up
short_shift-Stands a s fa k =
    let v = 2 ^ (64 - s) in
    let w = 2 ^ s in
    let hv : 1 ≤ v = one-le-pow (64 - s) 2 (omega arith) in
    let hw : 1 ≤ w = one-le-pow s 2 (omega arith) in
    let width : v * w ≡ 2 ^ 64 = split_width s (omega arith) in
    let (high, low) = short_shift_halves a.hi a.lo s fa.0 fa.1 (omega arith) in
    if_cases (λ t. Stands t (value a * 2 ^ s % 2 ^ 128)) (ltb s 64) _ _
      (λ e. record {
        fits = (
          rw (high, sym width)
              (two_parts v w (a.hi % v) (a.lo / v) (mod-lt a.hi hv)
                (quotient-lt v w a.lo hv (rw width fa.1))),
          omega arith,
        );
        number =
            rw (high, low)
              (subst
                (λ (n : ℕ).
                  (a.hi % v * w + a.lo / v) * n + a.lo % v * w ≡ (a.hi * n + a.lo) * w % (n * n))
                width (shifted_halves a.hi a.lo v w hv hw (rw width fa.1)));
      })
      (λ e. absurd (ground arith))

long_shift-Stands : (a : Uint128) (s : ℕ) → 64 ≤ s → Stands (shift_up a s) (a.hi * 2 ^ s % 2 ^ 128)
unfolding shift_up
long_shift-Stands a s k =
    let narrow = a.hi * 2 ^ (s - 64) in
    let whole : a.hi * 2 ^ s ≡ narrow * 2 ^ 64 =
      ap (λ (t : ℕ). a.hi * 2 ^ t) {x = s} {y = s - 64 + 64} (omega arith)
      ∙ ap (λ (t : ℕ). a.hi * t) (sym (pow_add (s - 64) 64))
      ∙ turned a.hi (2 ^ (s - 64)) (2 ^ 64) in
    let kept : narrow * 2 ^ 64 % 2 ^ 128 ≡ narrow % 2 ^ 64 * 2 ^ 64 =
      low_part narrow (2 ^ 64) (2 ^ 64) (omega arith) (omega arith) in
    if_cases (λ t. Stands t (a.hi * 2 ^ s % 2 ^ 128)) (ltb s 64) _ _ (λ e. absurd (ground arith))
      (λ e. record {
        fits = (omega arith, omega arith);
        number = omega arith ∙ sym (ap (λ (t : ℕ). t % 2 ^ 128) whole ∙ kept);
      })
  where
    turned : (x y z : ℕ) → x * (y * z) ≡ x * y * z
    turned x y z = grind arith

-- The operators of the class, its product and its shifts aside, are those on numbers below 2^128:
-- sums and differences wrap, `~`, `&` and `|` work on all 128 bits, the results fit their halves, and
-- the tests `==`, `!=` and `!` compare the numbers.
pub operators-Stands :
    (a b : Uint128)
    → IsUint128 a
    → IsUint128 b
    → Stands (add a b) ((value a + value b) % 2 ^ 128)
      × Stands (subtract a b) ((value a + 2 ^ 128 - value b) % 2 ^ 128)
      × Stands (complement a) (2 ^ 128 - 1 - value a)
      × Stands (conjunction a b) (bit_and (value a) (value b))
      × Stands (disjunction a b) (bit_or (value a) (value b))
      × ((equal a b ≡ true) ↔ (value a ≡ value b))
      × (differs a b ≡ not (equal a b))
      × ((is_zero a ≡ true) ↔ (value a ≡ 0))
operators-Stands a b fa fb = (
  add-Stands a b fa fb,
  subtract-Stands a b fa fb,
  complement-Stands a fa,
  conjunction-Stands a b fa fb,
  disjunction-Stands a b fa fb,
  (equal_iff a b fa fb).0,
  (equal_iff a b fa fb).1,
  (equal_iff a b fa fb).2,
)

-- A shift by 1 to 63 multiplies modulo 2^128. A shift by 64 to 127 multiplies the high half only:
-- the low half, which such a shift would move up, is lost. A product is right modulo 2^64 only.
pub shifts-Stands :
    (a : Uint128) (s k : ℕ)
    → IsUint128 a
    → 1 ≤ s
    → s < 128
    → ((s < 64) → Stands (shift_up a s) (value a * 2 ^ s % 2 ^ 128))
      × ((64 ≤ s) → Stands (shift_up a s) (a.hi * 2 ^ s % 2 ^ 128))
      × Stands (multiply a k) (value a * k % 2 ^ 64)
shifts-Stands a s k fa h l =
    (λ i. short_shift-Stands a s fa i, λ i. long_shift-Stands a s i, multiply-Stands a k)
