-- ===== src/Protocol/Uint128.antt =====
-- The class `UInt128` of common/uint128.h, which keeps an IPv6 address in two halves of 64 bits. An
-- `int` or a `uint` is its pattern of 32 bits; shifts are by 1 to 127, as the source defines them.
pub mod Arithmetic
pub mod Bytes
mod Tests
use ostinato.Base.{
  ℕ, ◌+◌, ◌-◌, ◌*◌, ◌/◌, ◌%◌, ◌^◌, bit_and, bit_or, Bool, true, false, not, ◌&&◌, ◌||◌, List, [],
  ◌++◌, ◌∷◌, ltb, ◌==◌, if◌then◌else◌, u8, u64, ◌<<<◌, ◌>>>◌, get_or,
}

pub record Uint128 : Type 0 where
  pub hi : ℕ
  pub lo : ℕ

abbrev pub uint128 : ℕ → ℕ → Uint128
uint128 h l = record { hi = h; lo = l }

-- `UInt128(int)`: a negative number fills the low half with its sign.
unfoldable pub from_int : ℕ → Uint128
from_int w = uint128 0 (if ltb w (2 ^ 31) then w else w + (2 ^ 64 - 2 ^ 32))

-- Eight bytes from `i` on, put together from the left.
unfoldable pub half_from_bytes : List ℕ → ℕ → ℕ
half_from_bytes value i =
    let at = λ (k : ℕ). get_or value (i + k) 0 in
    bit_or
      (bit_or
        (bit_or
          (bit_or (bit_or (bit_or (bit_or (at 0 <<< 56) (at 1 <<< 48)) (at 2 <<< 40)) (at 3 <<< 32))
            (at 4 <<< 24))
          (at 5 <<< 16))
        (at 6 <<< 8))
      (at 7 <<< 0)

-- `UInt128(quint8 *)`.
unfoldable pub from_bytes : List ℕ → Uint128
from_bytes value = uint128 (half_from_bytes value 0) (half_from_bytes value 8)

-- `qToBigEndian` of 64 bits.
unfoldable pub half_to_bytes : ℕ → List ℕ
half_to_bytes x =
    u8 (x >>> 56)
    ∷ u8 (x >>> 48)
    ∷ u8 (x >>> 40)
    ∷ u8 (x >>> 32)
    ∷ u8 (x >>> 24)
    ∷ u8 (x >>> 16)
    ∷ u8 (x >>> 8)
    ∷ u8 x
    ∷ []

unfoldable pub to_array : Uint128 → List ℕ
to_array a = half_to_bytes a.hi ++ half_to_bytes a.lo

unfoldable pub is_zero : Uint128 → Bool
is_zero a = a.hi == 0 && a.lo == 0

unfoldable pub equal : Uint128 → Uint128 → Bool
equal a b = a.hi == b.hi && a.lo == b.lo

unfoldable pub differs : Uint128 → Uint128 → Bool
differs a b = not (a.hi == b.hi) || not (a.lo == b.lo)

-- A comparison counts as a number in the source.
unfoldable pub carry : Bool → ℕ
carry true = 1
carry false = 0

unfoldable pub add : Uint128 → Uint128 → Uint128
add a b = let lo = u64 (a.lo + b.lo) in uint128 (u64 (a.hi + b.hi + carry (ltb lo a.lo))) lo

unfoldable pub subtract : Uint128 → Uint128 → Uint128
subtract a b =
    let lo = u64 (a.lo + 2 ^ 64 - b.lo) in
    uint128 (u64 (u64 (a.hi + 2 ^ 64 - b.hi) + 2 ^ 64 - carry (ltb a.lo lo))) lo

-- The high half of the product is 0 whatever the high half was.
unfoldable pub multiply : Uint128 → ℕ → Uint128
multiply a k = uint128 0 (u64 (a.lo * k))

unfoldable pub shift_up : Uint128 → ℕ → Uint128
shift_up a shift =
    if ltb shift 64
    then uint128 (bit_or (u64 (a.hi <<< shift)) (a.lo >>> (64 - shift))) (u64 (a.lo <<< shift))
    else uint128 (u64 (a.hi <<< (shift - 64))) 0

unfoldable pub complement : Uint128 → Uint128
complement a = uint128 (2 ^ 64 - 1 - a.hi) (2 ^ 64 - 1 - a.lo)

unfoldable pub conjunction : Uint128 → Uint128 → Uint128
conjunction a b = uint128 (bit_and a.hi b.hi) (bit_and a.lo b.lo)

unfoldable pub disjunction : Uint128 → Uint128 → Uint128
disjunction a b = uint128 (bit_or a.hi b.hi) (bit_or a.lo b.lo)
