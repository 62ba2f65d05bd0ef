-- ===== src/Protocol/Uint128/Tests.antt =====
-- Runs of `UInt128`, common/uint128.h.
use ostinato.Base.{
  ◌+◌, ◌-◌, ◌*◌, ◌%◌, ◌^◌, ◌≤◌, ◌<◌, bit_and, bit_or, ◌≡◌, ◌↔◌, refl, not, true, [], ◌∷◌, ◌++◌,
  arith, All, length,
}
use ostinato.Rpc.Wire.Codec.{IsByte}
use ostinato.Protocol.Uint128.{
  Uint128, uint128, from_int, from_bytes, to_array, is_zero, equal, differs, carry, add, subtract,
  multiply, shift_up, complement, conjunction, disjunction,
}
use ostinato.Protocol.Uint128.Arithmetic.{value, Stands, operators-Stands, shifts-Stands}
use ostinato.Protocol.Uint128.Bytes.{from_bytes-to_array}

abbrev ones : Uint128
ones = uint128 7 0xffff_ffff_ffff_ffff

abbrev one : Uint128
one = uint128 0 1

carries : add ones one ≡ uint128 8 0
unfolding add carry
carries = refl

borrows : subtract (uint128 8 0) one ≡ ones
unfolding subtract carry
borrows = refl

-- The low half is lost: the sum of the shifts would be `uint128 1 0`.
shifts_by_64 : shift_up one 64 ≡ uint128 0 0
unfolding shift_up
shifts_by_64 = refl

minus_one : from_int (2 ^ 32 - 1) ≡ uint128 0 0xffff_ffff_ffff_ffff
unfolding from_int
minus_one = refl

operators-Stands_example :
    Stands (add ones one) ((value ones + value one) % 2 ^ 128)
    × Stands (subtract ones one) ((value ones + 2 ^ 128 - value one) % 2 ^ 128)
    × Stands (complement ones) (2 ^ 128 - 1 - value ones)
    × Stands (conjunction ones one) (bit_and (value ones) (value one))
    × Stands (disjunction ones one) (bit_or (value ones) (value one))
    × ((equal ones one ≡ true) ↔ (value ones ≡ value one))
    × (differs ones one ≡ not (equal ones one))
    × ((is_zero ones ≡ true) ↔ (value ones ≡ 0))
operators-Stands_example = operators-Stands ones one (omega arith) (omega arith)

shifts-Stands_example :
    ((68 < 64) → Stands (shift_up ones 68) (value ones * 2 ^ 68 % 2 ^ 128))
    × ((64 ≤ 68) → Stands (shift_up ones 68) (ones.hi * 2 ^ 68 % 2 ^ 128))
    × Stands (multiply ones 3) (value ones * 3 % 2 ^ 64)
shifts-Stands_example = shifts-Stands ones 68 3 (omega arith) (omega arith) (omega arith)

from_bytes-to_array_example :
    (from_bytes (to_array ones ++ 5 ∷ []) ≡ ones)
    × (length (to_array ones) ≡ 16)
    × All IsByte (to_array ones)
from_bytes-to_array_example = from_bytes-to_array ones (5 ∷ []) (omega arith)
