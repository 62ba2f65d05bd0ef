-- ===== src/Protocol/Crc32c/Tests.antt =====
-- Runs of `checksumCrc32C`, common/crc32c.cpp.
use ostinato.Base.{ℕ, ◌+◌, ◌-◌, ◌*◌, ◌/◌, ◌%◌, ◌^◌, ◌≡◌, refl, List, [], ◌∷◌, arith}
use ostinato.Protocol.Crc32c.{crc_step, crc_loop, swap_bytes, checksum_crc32c}
use ostinato.Protocol.Crc32c.Bitwise.{register, checksum_crc32c-register}

-- "123456789".
abbrev nine_digits : List ℕ
nine_digits = 49 ∷ 50 ∷ 51 ∷ 52 ∷ 53 ∷ 54 ∷ 55 ∷ 56 ∷ 57 ∷ []

-- The check value of CRC-32C is 0xe3069283.
check_value : checksum_crc32c nine_digits ≡ 0x839206e3
unfolding checksum_crc32c crc_loop crc_step swap_bytes
check_value = refl

checksum_crc32c-register_example :
    let r = 2 ^ 32 - 1 - register nine_digits (2 ^ 32 - 1) in
    checksum_crc32c nine_digits
    ≡ r % 256 * 2 ^ 24 + r / 256 % 256 * 2 ^ 16 + r / 2 ^ 16 % 256 * 2 ^ 8 + r / 2 ^ 24 % 256
checksum_crc32c-register_example = checksum_crc32c-register nine_digits (omega arith)
