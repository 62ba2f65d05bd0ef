-- ===== src/Base/Xor.antt =====
-- The algebra of `^` on numbers of any width, for the checksums that shift and add without carries,
-- and `|`, `&` on numbers that are kept in two halves.
use Prim.Native.Nat.{max, differ, bit_xor-bitwise}
use native.Mathlib.Nat.{pow-suc}
use ostinato.Base.{
  ℕ, zero, suc, ◌+◌, ◌*◌, ◌/◌, ◌%◌, ◌^◌, ◌≤◌, ◌<◌, min, bit_and, bit_or, bit_xor, ◌≡◌, refl, ap,
  ap₂, sym, ◌∙◌, arith, strong_induction,
}
use ostinato.Base.Bits.{digits_enough, by_halves, bit_or_digit, bit_and_digit}

differ-parity : (d e : ℕ) → d < 2 → e < 2 → differ d e ≡ (d + e) % 2
differ-parity zero zero h k = refl
differ-parity zero (suc zero) h k = refl
differ-parity (suc zero) zero h k = refl
differ-parity (suc zero) (suc zero) h k = refl
differ-parity zero (suc (suc e)) h k = absurd (omega arith)
differ-parity (suc zero) (suc (suc e)) h k = absurd (omega arith)
differ-parity (suc (suc d)) e h k = absurd (omega arith)

-- The lowest digit of `^`.
pub bit_xor_digit : (a b : ℕ) → bit_xor a b ≡ bit_xor (a / 2) (b / 2) * 2 + (a % 2 + b % 2) % 2
bit_xor_digit zero b = omega (arith, bit_xor-bitwise 0 b, bit_xor-bitwise 0 (b / 2))
bit_xor_digit (suc a) b = omega (
  arith,
  bit_xor-bitwise (suc a) b,
  bit_xor-bitwise (suc a / 2) (b / 2),
  digits_enough (λ y. y) differ a (suc a / 2) (suc a / 2) (b / 2) (omega arith) (omega arith),
  differ-parity (suc a % 2) (b % 2) (omega arith) (omega arith),
)

pub zero-bit_xor : (b : ℕ) → bit_xor 0 b ≡ b
zero-bit_xor b = bit_xor-bitwise 0 b

pub bit_xor_comm : (a b : ℕ) → bit_xor a b ≡ bit_xor b a
bit_xor_comm =
    by_halves (λ a. (b : ℕ) → bit_xor a b ≡ bit_xor b a)
      (strong_induction (λ b. bit_xor 0 b ≡ bit_xor b 0) from_below)
      λ x half b. omega (arith, bit_xor_digit (suc x) b, bit_xor_digit b (suc x), half (b / 2))
  where
    from_below : (b : ℕ) → ((y : ℕ) → y < b → bit_xor 0 y ≡ bit_xor y 0) → bit_xor 0 b ≡ bit_xor b 0
    from_below zero below = refl
    from_below (suc b) below =
        omega
          (arith, bit_xor_digit 0 (suc b), bit_xor_digit (suc b) 0, below (suc b / 2) (omega arith))

pub bit_xor-zero : (a : ℕ) → bit_xor a 0 ≡ a
bit_xor-zero a = bit_xor_comm a 0 ∙ zero-bit_xor a

pub bit_xor_self : (a : ℕ) → bit_xor a a ≡ 0
bit_xor_self =
    by_halves (λ a. bit_xor a a ≡ 0) (zero-bit_xor 0)
      (λ x half. omega (arith, bit_xor_digit (suc x) (suc x), half))

pub bit_xor-half : (a b : ℕ) → bit_xor a b / 2 ≡ bit_xor (a / 2) (b / 2)
bit_xor-half a b = omega (arith, bit_xor_digit a b)

pub bit_xor-parity : (a b : ℕ) → bit_xor a b % 2 ≡ (a % 2 + b % 2) % 2
bit_xor-parity a b = omega (arith, bit_xor_digit a b)

pub bit_xor_assoc : (a b c : ℕ) → bit_xor (bit_xor a b) c ≡ bit_xor a (bit_xor b c)
bit_xor_assoc =
    by_halves (λ a. (b c : ℕ) → bit_xor (bit_xor a b) c ≡ bit_xor a (bit_xor b c))
      (λ b c. ap (λ (t : ℕ). bit_xor t c) (zero-bit_xor b) ∙ sym (zero-bit_xor (bit_xor b c)))
      λ x half b c.
        rw (bit_xor_digit (bit_xor (suc x) b) c, bit_xor_digit (suc x) (bit_xor b c))
          (rw
            (bit_xor-half (suc x) b, bit_xor-half b c, bit_xor-parity (suc x) b, bit_xor-parity b c)
            (omega (arith, half (b / 2) (c / 2))))

-- An operation that works digit by digit.
pub record IsDigitwise (f d : ℕ → ℕ → ℕ) : Type 0 where
  pub law : (a b : ℕ) → f a b ≡ f (a / 2) (b / 2) * 2 + d (a % 2) (b % 2)
  pub zeros : f 0 0 ≡ 0
  pub digit : (x y : ℕ) → x < 2 → y < 2 → d x y < 2

pub bit_or-IsDigitwise : IsDigitwise bit_or max
bit_or-IsDigitwise = record { law = bit_or_digit; zeros = refl; digit = λ x y h k. omega arith }

pub bit_and-IsDigitwise : IsDigitwise bit_and min
bit_and-IsDigitwise = record { law = bit_and_digit; zeros = refl; digit = λ x y h k. omega arith }

pub bit_xor-IsDigitwise : IsDigitwise bit_xor (λ x y. (x + y) % 2)
bit_xor-IsDigitwise = record { law = bit_xor_digit; zeros = refl; digit = λ x y h k. omega arith }

module _ (f d : ℕ → ℕ → ℕ) (is : IsDigitwise f d) where
  pub digitwise-lt : (k a b : ℕ) → a < 2 ^ k → b < 2 ^ k → f a b < 2 ^ k
  digitwise-lt zero zero zero h i = omega (arith, is.zeros)
  digitwise-lt zero zero (suc b) h i = absurd (omega arith)
  digitwise-lt zero (suc a) b h i = absurd (omega arith)
  digitwise-lt (suc k) a b h i = omega (
    arith,
    pow-suc 2 k,
    is.law a b,
    is.digit (a % 2) (b % 2) (omega arith) (omega arith),
    digitwise-lt k (a / 2) (b / 2) (omega (arith, pow-suc 2 k)) (omega (arith, pow-suc 2 k)),
  )

  -- The operation on numbers of a high part and `k` low digits works on the parts.
  pub digitwise-parts :
      (k x a y b : ℕ)
      → a < 2 ^ k
      → b < 2 ^ k
      → f (x * 2 ^ k + a) (y * 2 ^ k + b) ≡ f x y * 2 ^ k + f a b
  digitwise-parts zero x zero y zero h i =
      let left : x * 1 + 0 ≡ x = omega arith in
      let right : y * 1 + 0 ≡ y = omega arith in ap₂ f left right ∙ omega (arith, is.zeros)
  digitwise-parts zero x zero y (suc b) h i = absurd (omega arith)
  digitwise-parts zero x (suc a) y b h i = absurd (omega arith)
  digitwise-parts (suc k) x a y b h i =
      let half : (z c : ℕ) → (z * 2 ^ suc k + c) / 2 ≡ z * 2 ^ k + c / 2 =
        λ z c. omega (arith, ap (λ (t : ℕ). z * t) (pow-suc 2 k)) in
      let parity : (z c : ℕ) → (z * 2 ^ suc k + c) % 2 ≡ c % 2 =
        λ z c. omega (arith, ap (λ (t : ℕ). z * t) (pow-suc 2 k)) in
      let low =
        digitwise-parts k x (a / 2) y (b / 2) (omega (arith, pow-suc 2 k))
          (omega (arith, pow-suc 2 k)) in
      is.law (x * 2 ^ suc k + a) (y * 2 ^ suc k + b)
      ∙ rw (half x a, half y b, parity x a, parity y b)
          (rw (low, is.law a b) (omega (arith, ap (λ (t : ℕ). f x y * t) (pow-suc 2 k))))

-- `^` of a high part and `k` low digits is their sum.
pub bit_xor_shifted : (k q r : ℕ) → 1 ≤ 2 ^ k → r < 2 ^ k → bit_xor (q * 2 ^ k) r ≡ q * 2 ^ k + r
bit_xor_shifted k q r p h =
    let left : q * 2 ^ k ≡ q * 2 ^ k + 0 = omega arith in
    let right : r ≡ 0 * 2 ^ k + r = omega arith in
    ap₂ bit_xor left right
    ∙ digitwise-parts _ _ bit_xor-IsDigitwise k q 0 0 r p h
    ∙ ap₂ (λ (x y : ℕ). x * 2 ^ k + y) (bit_xor-zero q) (zero-bit_xor r)

-- The high part alone sees what `^` adds below it.
pub bit_xor_low :
    (k q a b : ℕ) → a < 2 ^ k → b < 2 ^ k → bit_xor (q * 2 ^ k + a) b ≡ q * 2 ^ k + bit_xor a b
bit_xor_low k q a b h i =
    let right : b ≡ 0 * 2 ^ k + b = omega arith in
    ap (bit_xor (q * 2 ^ k + a)) right
    ∙ digitwise-parts _ _ bit_xor-IsDigitwise k q a 0 b h i
    ∙ ap (λ (x : ℕ). x * 2 ^ k + bit_xor a b) (bit_xor-zero q)
