-- ===== src/Protocol/Crc32c/Bitwise.antt =====
-- `checksumCrc32C` of common/crc32c.cpp against the register that the polynomial describes.
use ostinato.Base.{
  ℕ, zero, suc, ◌+◌, ◌-◌, ◌*◌, ◌/◌, ◌%◌, ◌^◌, ◌<◌, bit_or, bit_xor, ◌≡◌, refl, ap, ap₂, sym, ◌∙◌,
  Bool, true, ◌&&◌, List, [], ◌∷◌, arith, ◌==◌, ==_iff, All, get_or, u32,
}
use ostinato.Base.Bits.{bit_and_mask}
use ostinato.Base.Xor.{digitwise-lt, bit_xor_low, bit_xor-IsDigitwise}
use ostinato.Rpc.Wire.Codec.{IsByte, big_endian32}
use ostinato.Protocol.Crc32c.{crc_c, crc_step, crc_loop, swap_bytes, checksum_crc32c}
use ostinato.Protocol.Crc32c.Linear.{
  feedback, bit_step, bit_steps, eight_steps, shift_in_bits, bit_steps-bit_xor,
}

-- A test on every number below a bound.
below : ℕ → (ℕ → Bool) → Bool
below zero test = true
below (suc n) test = test n && below n test

below-test : (n : ℕ) (test : ℕ → Bool) (x : ℕ) → below n test ≡ true → x < n → test x ≡ true
unfolding below
below-test zero test x h k = absurd (omega arith)
below-test (suc n) test x h k = ground (arith, below-test n test x)

table_checked : below 256 (λ i. get_or crc_c i 0 == bit_steps 8 i) ≡ true
unfolding below bit_steps bit_step feedback
table_checked = refl

-- Each entry of the table is what eight steps make of its index.
table_entry : (i : ℕ) → i < 256 → get_or crc_c i 0 ≡ bit_steps 8 i
table_entry i h = (==_iff _ (bit_steps 8 i)).0 (below-test 256 _ i table_checked h)

with_byte : (c d : ℕ) → d < 256 → bit_xor c d / 256 ≡ c / 256
with_byte c d h =
    let parts : c ≡ c / 256 * 256 + c % 256 = omega arith in
    let same : bit_xor c d ≡ bit_xor (c / 256 * 256 + c % 256) d =
      ap (λ (t : ℕ). bit_xor t d) parts in
    omega (
      arith,
      same,
      bit_xor_low 8 (c / 256) (c % 256) d (omega arith) h,
      digitwise-lt _ _ bit_xor-IsDigitwise 8 (c % 256) d (omega arith) h,
    )

crc_step-shift_in_bits : (c d : ℕ) → d < 256 → crc_step c d ≡ shift_in_bits 8 d c
unfolding crc_step
crc_step-shift_in_bits c d h =
    let x = bit_xor c d in
    ap₂ bit_xor (sym (with_byte c d h))
      (ap (λ (i : ℕ). get_or crc_c i 0) (bit_and_mask 8 x) ∙ table_entry (x % 256) (omega arith))
    ∙ sym (eight_steps x)
    ∙ bit_steps-bit_xor 8 c d h

-- The register after a message, each byte lowest bit first.
unfoldable pub register : List ℕ → ℕ → ℕ
register [] c = c
register (b ∷ message) c = register message (shift_in_bits 8 b c)

crc_loop-register :
    (message : List ℕ) (c : ℕ) → All IsByte message → crc_loop message c ≡ register message c
unfolding crc_loop register
crc_loop-register [] c all = refl
crc_loop-register (b ∷ message) c all =
    ap (crc_loop message) (crc_step-shift_in_bits c b all.0)
    ∙ crc_loop-register message (shift_in_bits 8 b c) all.1

swap_bytes-lem :
    (r : ℕ)
    → swap_bytes r
      ≡ r % 256 * 2 ^ 24 + r / 256 % 256 * 2 ^ 16 + r / 2 ^ 16 % 256 * 2 ^ 8 + r / 2 ^ 24 % 256
unfolding swap_bytes
swap_bytes-lem r =
    let second : r / 256 % 256 * 2 ^ 16 ≡ u32 (r / 256 % 256 * 2 ^ 16) = omega arith in
    let third : r / 2 ^ 16 % 256 * 2 ^ 8 ≡ u32 (r / 2 ^ 16 % 256 * 2 ^ 8) = omega arith in
    rw
      (
        bit_and_mask 8 r,
        bit_and_mask 8 (r / 2 ^ 8),
        bit_and_mask 8 (r / 2 ^ 16),
        bit_and_mask 8 (r / 2 ^ 24),
      )
      (ap₂ (λ (x y : ℕ). bit_or (bit_or (bit_or (u32 (r % 256 * 2 ^ 24)) x) y) (r / 2 ^ 24 % 256))
          second third
        ∙ big_endian32 (r % 256) (r / 256 % 256) (r / 2 ^ 16 % 256) (r / 2 ^ 24 % 256) (omega arith)
            (omega arith) (omega arith) (omega arith))

-- The checksum of bytes is the register of 32 bits that starts with all ones, takes the message
-- bit by bit, the lowest bit of each byte first, and divides by the reflected polynomial
-- 0x82f63b78; it is then complemented, and its four bytes are written in the other order.
pub checksum_crc32c-register :
    (message : List ℕ)
    → All IsByte message
    → let r = 2 ^ 32 - 1 - register message (2 ^ 32 - 1) in
      checksum_crc32c message
      ≡ r % 256 * 2 ^ 24 + r / 256 % 256 * 2 ^ 16 + r / 2 ^ 16 % 256 * 2 ^ 8 + r / 2 ^ 24 % 256
unfolding checksum_crc32c
checksum_crc32c-register message all =
    ap (λ (c : ℕ). swap_bytes (2 ^ 32 - 1 - c)) (crc_loop-register message (2 ^ 32 - 1) all)
    ∙ swap_bytes-lem (2 ^ 32 - 1 - register message (2 ^ 32 - 1))
