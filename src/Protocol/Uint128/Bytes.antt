-- ===== src/Protocol/Uint128/Bytes.antt =====
-- The two constructions of a `UInt128` from bytes and back, common/uint128.h.
use ostinato.Base.{
  ℕ, ◌+◌, ◌*◌, ◌%◌, ◌^◌, ◌<◌, bit_or, ◌≡◌, refl, ap, ap₂, ◌∙◌, List, [], ◌∷◌, ◌++◌, arith, All,
  length, ◌<<<◌,
}
use ostinato.Base.Bits.{bit_or-eq-add}
use ostinato.Rpc.Wire.Codec.{IsByte}
use ostinato.Protocol.Uint128.{
  Uint128, uint128, half_from_bytes, from_bytes, half_to_bytes, to_array,
}
use ostinato.Protocol.Uint128.Arithmetic.{IsUint128}

abbrev big_endian64 : (a b c d e f g h : ℕ) → ℕ
big_endian64 a b c d e f g h =
    a * 2 ^ 56 + b * 2 ^ 48 + c * 2 ^ 40 + d * 2 ^ 32 + e * 2 ^ 24 + f * 2 ^ 16 + g * 2 ^ 8 + h

glued :
    (a b c d e f g h : ℕ)
    → All IsByte (a ∷ b ∷ c ∷ d ∷ e ∷ f ∷ g ∷ h ∷ [])
    → bit_or
        (bit_or
          (bit_or
            (bit_or
              (bit_or (bit_or (bit_or (a <<< 56) (b <<< 48)) (c <<< 40)) (d <<< 32))
              (e <<< 24))
            (f <<< 16))
          (g <<< 8))
        (h <<< 0)
      ≡ big_endian64 a b c d e f g h
glued a b c d e f g h all =
    let step : (k x y : ℕ) (t : ℕ) → (e1 : t ≡ x) → x % 2 ^ k ≡ 0 → y < 2 ^ k → bit_or t y ≡ x + y =
      λ k x y t e1 e2 e3. ap (λ (z : ℕ). bit_or z y) e1 ∙ bit_or-eq-add k x y e2 e3 in
    step 8 _ _ _
      (step 16 _ _ _
        (step 24 _ _ _
          (step 32 _ _ _
            (step 40 _ _ _
              (step 48 _ _ _ (step 56 _ _ _ refl (omega arith) (omega arith)) (omega arith)
                (omega arith))
              (omega arith) (omega arith))
            (omega arith) (omega arith))
          (omega arith) (omega arith))
        (omega arith) (omega arith))
      (omega arith) (omega arith)
    ∙ omega arith

half_bytes-IsByte : (x : ℕ) → All IsByte (half_to_bytes x)
unfolding half_to_bytes
half_bytes-IsByte x = ground arith

halves : (x : ℕ) → x < 2 ^ 64 → half_from_bytes (half_to_bytes x) 0 ≡ x
unfolding half_from_bytes half_to_bytes
halves x h = glued _ _ _ _ _ _ _ _ (half_bytes-IsByte x) ∙ omega arith

-- `toArray` writes sixteen bytes, from which `UInt128(quint8 *)` reads the same value, whatever
-- follows them.
pub from_bytes-to_array :
    (a : Uint128) (rest : List ℕ)
    → IsUint128 a
    → (from_bytes (to_array a ++ rest) ≡ a) × (length (to_array a) ≡ 16) × All IsByte (to_array a)
unfolding from_bytes to_array half_from_bytes half_to_bytes
from_bytes-to_array a rest fits =
    (ap₂ uint128 (halves a.hi fits.0) (halves a.lo fits.1), refl, ground arith)
