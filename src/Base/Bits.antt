-- ===== src/Base/Bits.antt =====
-- `|`, `&` and `^` on numbers of any width, one binary digit at a time, and the two readings that
-- the program's byte code needs: `|` of disjoint fields is a sum, `&` with a low mask a remainder.
use Prim.Native.Nat.{max, digits, bit_and-bitwise, bit_or-bitwise}
use mathlib.Core.Path.{◌≡⟨◌⟩◌, ◌∎}
use native.Mathlib.Nat.{
  pow-suc, div-div-eq-div-mul, one-le-pow, div-add-mod, mod-lt, mod-eq_of_lt, mul-add-mod_self_left,
}
use ostinato.Base.{
  ℕ, zero, suc, ◌+◌, ◌-◌, ◌*◌, ◌/◌, ◌%◌, ◌^◌, ◌≤◌, ◌<◌, min, bit_and, bit_or, ◌≡◌, refl, ap, ◌∙◌,
  arith, strong_induction,
}

-- `digits` reads as many digits as the left number can have: more fuel changes nothing.
pub digits_enough :
    (z : ℕ → ℕ) (f : ℕ → ℕ → ℕ) (k l a b : ℕ) → a ≤ k → a ≤ l → digits z f k a b ≡ digits z f l a b
digits_enough z f k l zero b h i = zeros k l
  where
    zeros : (k l : ℕ) → digits z f k 0 b ≡ digits z f l 0 b
    zeros zero zero = refl
    zeros zero (suc l) = refl
    zeros (suc k) zero = refl
    zeros (suc k) (suc l) = refl
digits_enough z f zero l (suc a) b h i = absurd (omega arith)
digits_enough z f (suc k) zero (suc a) b h i = absurd (omega arith)
digits_enough z f (suc k) (suc l) (suc a) b h i =
    ap (λ (t : ℕ). t * 2 + f (suc a % 2) (b % 2))
      (digits_enough z f k l (suc a / 2) (b / 2) (omega arith) (omega arith))

-- The lowest digit of `|` and of `&`.
pub bit_or_digit : (a b : ℕ) → bit_or a b ≡ bit_or (a / 2) (b / 2) * 2 + max (a % 2) (b % 2)
bit_or_digit zero b = omega (arith, bit_or-bitwise 0 b, bit_or-bitwise 0 (b / 2))
bit_or_digit (suc a) b = omega (
  arith,
  bit_or-bitwise (suc a) b,
  bit_or-bitwise (suc a / 2) (b / 2),
  digits_enough (λ y. y) max a (suc a / 2) (suc a / 2) (b / 2) (omega arith) (omega arith),
)

pub bit_and_digit : (a b : ℕ) → bit_and a b ≡ bit_and (a / 2) (b / 2) * 2 + min (a % 2) (b % 2)
bit_and_digit zero b = omega (arith, bit_and-bitwise 0 b, bit_and-bitwise 0 (b / 2))
bit_and_digit (suc a) b = omega (
  arith,
  bit_and-bitwise (suc a) b,
  bit_and-bitwise (suc a / 2) (b / 2),
  digits_enough (λ y. 0) min a (suc a / 2) (suc a / 2) (b / 2) (omega arith) (omega arith),
)

-- Induction over the halves of a number, as the digits of the two operations go.
pub by_halves {ℓ} : (P : ℕ → Type ℓ) → P 0 → ((x : ℕ) → P (suc x / 2) → P (suc x)) → (x : ℕ) → P x
by_halves P base more = strong_induction P from_below
  where
    from_below : (x : ℕ) → ((y : ℕ) → y < x → P y) → P x
    from_below zero below = base
    from_below (suc x) below = more x (below (suc x / 2) (omega arith))

pub bit_or-zero : (a : ℕ) → bit_or a 0 ≡ a
bit_or-zero =
    by_halves (λ a. bit_or a 0 ≡ a) refl (λ x half. omega (arith, bit_or_digit (suc x) 0, half))

pub bit_and-zero : (a : ℕ) → bit_and a 0 ≡ 0
bit_and-zero =
    by_halves (λ a. bit_and a 0 ≡ 0) refl (λ x half. omega (arith, bit_and_digit (suc x) 0, half))

-- `(q << k) | r` is a sum where `r` has at most `k` bits.
pub bit_or_shifted : (k q r : ℕ) → r < 2 ^ k → bit_or (q * 2 ^ k) r ≡ q * 2 ^ k + r
bit_or_shifted zero q zero h = bit_or-zero (q * 1) ∙ omega arith
bit_or_shifted zero q (suc r) h = absurd (omega arith)
bit_or_shifted (suc k) q r h =
    let double : q * 2 ^ suc k ≡ q * 2 ^ k * 2 =
      omega (arith, ap (λ (t : ℕ). q * t) (pow-suc 2 k)) in
    let half = bit_or_shifted k q (r / 2) (omega (arith, pow-suc 2 k)) in
    rw double (
      bit_or (q * 2 ^ k * 2) r
      ≡⟨ bit_or_digit (q * 2 ^ k * 2) r ⟩
        bit_or (q * 2 ^ k * 2 / 2) (r / 2) * 2 + max (q * 2 ^ k * 2 % 2) (r % 2)
      ≡⟨ ap (λ (t : ℕ). bit_or t (r / 2) * 2 + max (q * 2 ^ k * 2 % 2) (r % 2))
          {x = q * 2 ^ k * 2 / 2} {y = q * 2 ^ k} (omega arith) ⟩
        bit_or (q * 2 ^ k) (r / 2) * 2 + max (q * 2 ^ k * 2 % 2) (r % 2)
      ≡⟨ omega (arith, half) ⟩ q * 2 ^ k * 2 + r ∎)

-- The same where the left number is not written as a shift.
pub bit_or-eq-add : (k x r : ℕ) → x % 2 ^ k ≡ 0 → r < 2 ^ k → bit_or x r ≡ x + r
bit_or-eq-add k x r e h =
    let whole : x ≡ x / 2 ^ k * 2 ^ k = grind (arith, one-le-pow k 2) in
    rw whole (bit_or_shifted k (x / 2 ^ k) r h)

pub mod_double : (a m : ℕ) → 1 ≤ m → a % (m * 2) ≡ a / 2 % m * 2 + a % 2
mod_double a m h =
    let whole : a ≡ m * 2 * (a / 2 / m) + (a / 2 % m * 2 + a % 2) =
      omega (arith, div-add-mod (a / 2) m) in
    let small : a / 2 % m * 2 + a % 2 < m * 2 = omega (arith, mod-lt (a / 2) h) in
    ap (λ (t : ℕ). t % (m * 2)) whole
    ∙ mul-add-mod_self_left (m * 2) (a / 2 / m) _
    ∙ mod-eq_of_lt small

-- A mask of `k` low bits is the remainder by `2 ^ k`.
pub bit_and_mask : (k a : ℕ) → bit_and a (2 ^ k - 1) ≡ a % 2 ^ k
bit_and_mask zero a = bit_and-zero a ∙ omega arith
bit_and_mask (suc k) a =
    let pos : 1 ≤ 2 ^ k = one-le-pow k 2 (omega arith) in
    let half : (2 ^ suc k - 1) / 2 ≡ 2 ^ k - 1 = omega (arith, pow-suc 2 k) in
    bit_and_digit a (2 ^ suc k - 1)
    ∙ rw half
        (rw (bit_and_mask k (a / 2), pow-suc 2 k) (rw (mod_double a (2 ^ k) pos) (omega arith)))

-- `&` with a multiple of a power of two does not see the bits below it.
pub bit_and_high : (k x q : ℕ) → bit_and x (q * 2 ^ k) ≡ bit_and (x / 2 ^ k) q * 2 ^ k
bit_and_high zero x q =
    let whole : q * 1 ≡ q = omega arith in
    let same : x ≡ x / 1 = omega arith in
    ap (bit_and x) whole ∙ ap (λ (t : ℕ). bit_and t q) same ∙ omega arith
bit_and_high (suc k) x q =
    let double : q * 2 ^ suc k ≡ q * 2 ^ k * 2 =
      omega (arith, ap (λ (t : ℕ). q * t) (pow-suc 2 k)) in
    let half : q * 2 ^ k * 2 / 2 ≡ q * 2 ^ k = omega arith in
    let two : 2 * 2 ^ k ≡ 2 ^ suc k = omega (arith, pow-suc 2 k) in
    let twice : x / 2 / 2 ^ k ≡ x / 2 ^ suc k = div-div-eq-div-mul x 2 (2 ^ k) ∙ ap (◌/◌ x) two in
    ap (bit_and x) double
    ∙ bit_and_digit x (q * 2 ^ k * 2)
    ∙ ap (λ (t : ℕ). bit_and (x / 2) t * 2 + min (x % 2) (q * 2 ^ k * 2 % 2)) half
    ∙ ap (λ (t : ℕ). t * 2 + min (x % 2) (q * 2 ^ k * 2 % 2)) (bit_and_high k (x / 2) q)
    ∙ ap (λ (t : ℕ). bit_and t q * 2 ^ k * 2 + min (x % 2) (q * 2 ^ k * 2 % 2)) twice
    ∙ omega (arith, ap (λ (t : ℕ). bit_and (x / 2 ^ suc k) q * t) (pow-suc 2 k))

pub bit_or_comm : (a b : ℕ) → bit_or a b ≡ bit_or b a
bit_or_comm =
    by_halves (λ a. (b : ℕ) → bit_or a b ≡ bit_or b a)
      (λ b. omega (arith, bit_or-bitwise 0 b, bit_or-zero b))
      λ x half b. omega (arith, bit_or_digit (suc x) b, bit_or_digit b (suc x), half (b / 2))
