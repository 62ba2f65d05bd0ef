-- ===== src/Protocol/FrameValue/Bytes.antt =====
-- The eight binary digits of a byte, and what the shifts of common/abstractprotocol.cpp do to them.
use ostinato.Base.{
  ℕ, zero, suc, ◌+◌, ◌-◌, ◌/◌, ◌%◌, ◌^◌, ◌<◌, ◌≤◌, bit_or, ◌≡◌, ap, List, [], ◌∷◌, ◌++◌, arith, u8,
  ◌<<<◌, ◌>>>◌, get_or, take, drop, replicate,
}
use ostinato.Base.Bits.{bit_or-eq-add}

abbrev pub byte_bits : ℕ → List ℕ
byte_bits x =
    x / 128 % 2
    ∷ x / 64 % 2
    ∷ x / 32 % 2
    ∷ x / 16 % 2
    ∷ x / 8 % 2
    ∷ x / 4 % 2
    ∷ x / 2 % 2
    ∷ x % 2
    ∷ []

abbrev pub bits_of : List ℕ → List ℕ
bits_of [] = []
bits_of (x ∷ xs) = byte_bits x ++ bits_of xs

-- Eight digits that are equal one by one.
eight :
    {a b c d e f g h a' b' c' d' e' f' g' h' : ℕ}
    → a ≡ a'
    → b ≡ b'
    → c ≡ c'
    → d ≡ d'
    → e ≡ e'
    → f ≡ f'
    → g ≡ g'
    → h ≡ h'
    → a ∷ b ∷ c ∷ d ∷ e ∷ f ∷ g ∷ h ∷ [] ≡ a' ∷ b' ∷ c' ∷ d' ∷ e' ∷ f' ∷ g' ∷ h' ∷ []
eight i j k l m n o p = cc

-- A claim for each number of bits in a byte.
pub up_to_eight {ℓ} :
    (P : ℕ → Type ℓ) → P 0 → P 1 → P 2 → P 3 → P 4 → P 5 → P 6 → P 7 → P 8 → (k : ℕ) → k ≤ 8 → P k
up_to_eight P a b c d e f g h i zero le = a
up_to_eight P a b c d e f g h i (suc zero) le = b
up_to_eight P a b c d e f g h i (suc (suc zero)) le = c
up_to_eight P a b c d e f g h i (suc (suc (suc zero))) le = d
up_to_eight P a b c d e f g h i (suc (suc (suc (suc zero)))) le = e
up_to_eight P a b c d e f g h i (suc (suc (suc (suc (suc zero))))) le = f
up_to_eight P a b c d e f g h i (suc (suc (suc (suc (suc (suc zero)))))) le = g
up_to_eight P a b c d e f g h i (suc (suc (suc (suc (suc (suc (suc zero))))))) le = h
up_to_eight P a b c d e f g h i (suc (suc (suc (suc (suc (suc (suc (suc zero)))))))) le = i
up_to_eight P a b c d e f g h i (suc (suc (suc (suc (suc (suc (suc (suc (suc k))))))))) le =
    absurd (omega arith)

-- The low bits of one byte next to the high bits of another: the code's `|` is a sum.
joined_add :
    (x y k : ℕ)
    → k ≤ 8
    → y < 256
    → bit_or (u8 (x <<< k)) (y >>> (8 - k)) ≡ u8 (x <<< k) + y >>> (8 - k)
joined_add x y k le h =
    up_to_eight (λ k. bit_or (u8 (x <<< k)) (y >>> (8 - k)) ≡ u8 (x <<< k) + y >>> (8 - k))
      (bit_or-eq-add 0 (u8 (x <<< 0)) (y >>> 8) (omega arith) (omega arith))
      (bit_or-eq-add 1 (u8 (x <<< 1)) (y >>> 7) (omega arith) (omega arith))
      (bit_or-eq-add 2 (u8 (x <<< 2)) (y >>> 6) (omega arith) (omega arith))
      (bit_or-eq-add 3 (u8 (x <<< 3)) (y >>> 5) (omega arith) (omega arith))
      (bit_or-eq-add 4 (u8 (x <<< 4)) (y >>> 4) (omega arith) (omega arith))
      (bit_or-eq-add 5 (u8 (x <<< 5)) (y >>> 3) (omega arith) (omega arith))
      (bit_or-eq-add 6 (u8 (x <<< 6)) (y >>> 2) (omega arith) (omega arith))
      (bit_or-eq-add 7 (u8 (x <<< 7)) (y >>> 1) (omega arith) (omega arith))
      (bit_or-eq-add 8 (u8 (x <<< 8)) (y >>> 0) (omega arith) (omega arith)) k le

Glued : ℕ → ℕ → ℕ → Type 0
Glued x y k =
    byte_bits (u8 (x <<< k) + y >>> (8 - k)) ≡ drop k (byte_bits x) ++ take k (byte_bits y)

glued : (x y k : ℕ) → k ≤ 8 → y < 256 → Glued x y k
unfolding Glued
glued x y k le h =
    up_to_eight (Glued x y)
      (eight (omega arith) (omega arith) (omega arith) (omega arith) (omega arith) (omega arith)
        (omega arith) (omega arith))
      (eight (omega arith) (omega arith) (omega arith) (omega arith) (omega arith) (omega arith)
        (omega arith) (omega arith))
      (eight (omega arith) (omega arith) (omega arith) (omega arith) (omega arith) (omega arith)
        (omega arith) (omega arith))
      (eight (omega arith) (omega arith) (omega arith) (omega arith) (omega arith) (omega arith)
        (omega arith) (omega arith))
      (eight (omega arith) (omega arith) (omega arith) (omega arith) (omega arith) (omega arith)
        (omega arith) (omega arith))
      (eight (omega arith) (omega arith) (omega arith) (omega arith) (omega arith) (omega arith)
        (omega arith) (omega arith))
      (eight (omega arith) (omega arith) (omega arith) (omega arith) (omega arith) (omega arith)
        (omega arith) (omega arith))
      (eight (omega arith) (omega arith) (omega arith) (omega arith) (omega arith) (omega arith)
        (omega arith) (omega arith))
      (eight (omega arith) (omega arith) (omega arith) (omega arith) (omega arith) (omega arith)
        (omega arith) (omega arith))
      k le

pub glue :
    (x y k : ℕ)
    → k ≤ 8
    → y < 256
    → byte_bits (bit_or (u8 (x <<< k)) (y >>> (8 - k)))
      ≡ drop k (byte_bits x) ++ take k (byte_bits y)
unfolding Glued
glue x y k le h = rw (joined_add x y k le h) (glued x y k le h)

-- The result is a byte.
pub glue-lt : (x y k : ℕ) → k ≤ 8 → y < 256 → bit_or (u8 (x <<< k)) (y >>> (8 - k)) < 256
glue-lt x y k le h = rw (joined_add x y k le h) (
    up_to_eight (λ k. u8 (x <<< k) + y >>> (8 - k) < 256) (omega arith) (omega arith) (omega arith)
      (omega arith) (omega arith) (omega arith) (omega arith) (omega arith) (omega arith) k le)

-- A byte whose low bits are free.
Free : ℕ → ℕ → Type 0
Free d pad = drop (8 - pad) (byte_bits d) ≡ replicate pad 0 → d % 2 ^ pad ≡ 0

digit : {xs ys : List ℕ} (i : ℕ) → xs ≡ ys → get_or xs i 0 ≡ get_or ys i 0
digit i e = ap (λ (l : List ℕ). get_or l i 0) e

Free-low : (d pad : ℕ) → pad ≤ 8 → Free d pad
unfolding Free
Free-low d pad le =
    up_to_eight (Free d) (λ e. omega (arith)) (λ e. omega (arith, digit 0 e))
      (λ e. omega (arith, digit 0 e, digit 1 e))
      (λ e. omega (arith, digit 0 e, digit 1 e, digit 2 e))
      (λ e. omega (arith, digit 0 e, digit 1 e, digit 2 e, digit 3 e))
      (λ e. omega (arith, digit 0 e, digit 1 e, digit 2 e, digit 3 e, digit 4 e))
      (λ e. omega (arith, digit 0 e, digit 1 e, digit 2 e, digit 3 e, digit 4 e, digit 5 e))
      (λ e.
        omega (arith, digit 0 e, digit 1 e, digit 2 e, digit 3 e, digit 4 e, digit 5 e, digit 6 e))
      (λ e. omega (
        arith,
        digit 0 e,
        digit 1 e,
        digit 2 e,
        digit 3 e,
        digit 4 e,
        digit 5 e,
        digit 6 e,
        digit 7 e,
      ))
      pad le

Filled : ℕ → ℕ → ℕ → Type 0
Filled d c pad =
    d % 2 ^ pad ≡ 0
    → byte_bits (bit_or d (c >>> (8 - pad)))
      ≡ take (8 - pad) (byte_bits d) ++ take pad (byte_bits c)

filled : (d c pad : ℕ) → pad ≤ 8 → c < 256 → Filled d c pad
unfolding Filled
filled d c pad le h =
    up_to_eight (Filled d c)
      (λ e. rw (bit_or-eq-add 0 d (c >>> 8) e (omega arith)) (
        eight (omega arith) (omega arith) (omega arith) (omega arith) (omega arith) (omega arith)
          (omega arith) (omega arith)))
      (λ e. rw (bit_or-eq-add 1 d (c >>> 7) e (omega arith)) (
        eight (omega arith) (omega arith) (omega arith) (omega arith) (omega arith) (omega arith)
          (omega arith) (omega arith)))
      (λ e. rw (bit_or-eq-add 2 d (c >>> 6) e (omega arith)) (
        eight (omega arith) (omega arith) (omega arith) (omega arith) (omega arith) (omega arith)
          (omega arith) (omega arith)))
      (λ e. rw (bit_or-eq-add 3 d (c >>> 5) e (omega arith)) (
        eight (omega arith) (omega arith) (omega arith) (omega arith) (omega arith) (omega arith)
          (omega arith) (omega arith)))
      (λ e. rw (bit_or-eq-add 4 d (c >>> 4) e (omega arith)) (
        eight (omega arith) (omega arith) (omega arith) (omega arith) (omega arith) (omega arith)
          (omega arith) (omega arith)))
      (λ e. rw (bit_or-eq-add 5 d (c >>> 3) e (omega arith)) (
        eight (omega arith) (omega arith) (omega arith) (omega arith) (omega arith) (omega arith)
          (omega arith) (omega arith)))
      (λ e. rw (bit_or-eq-add 6 d (c >>> 2) e (omega arith)) (
        eight (omega arith) (omega arith) (omega arith) (omega arith) (omega arith) (omega arith)
          (omega arith) (omega arith)))
      (λ e. rw (bit_or-eq-add 7 d (c >>> 1) e (omega arith)) (
        eight (omega arith) (omega arith) (omega arith) (omega arith) (omega arith) (omega arith)
          (omega arith) (omega arith)))
      (λ e. rw (bit_or-eq-add 8 d (c >>> 0) e (omega arith)) (
        eight (omega arith) (omega arith) (omega arith) (omega arith) (omega arith) (omega arith)
          (omega arith) (omega arith)))
      pad le

-- It takes the high bits of another one.
pub fill :
    (d c pad : ℕ)
    → pad ≤ 8
    → c < 256
    → drop (8 - pad) (byte_bits d) ≡ replicate pad 0
    → byte_bits (bit_or d (c >>> (8 - pad)))
      ≡ take (8 - pad) (byte_bits d) ++ take pad (byte_bits c)
unfolding Filled Free
fill d c pad le h e = filled d c pad le h (Free-low d pad le e)
