-- ===== src/Protocol/Crc32c/Linear.antt =====
-- The division by the polynomial of CRC-32C, one bit at a time, and that it is linear: what the
-- table of common/crc32c.cpp is made from.
use native.Mathlib.Nat.{pow-suc}
use ostinato.Base.{
  ℕ, zero, suc, ◌+◌, ◌*◌, ◌/◌, ◌%◌, ◌^◌, ◌<◌, bit_xor, ◌≡◌, refl, ap, ap₂, sym, ◌∙◌, arith,
}
use ostinato.Base.Xor.{
  bit_xor-half, bit_xor-parity, bit_xor_comm, bit_xor_assoc, bit_xor-zero, bit_xor_shifted,
}

-- The Castagnoli polynomial, its bits reflected.
abbrev pub polynomial : ℕ
polynomial = 0x82f63b78

-- What the lowest bit of the remainder adds.
unfoldable pub feedback : ℕ → ℕ
feedback zero = 0
feedback (suc n) = polynomial

unfoldable pub bit_step : ℕ → ℕ
bit_step c = bit_xor (c / 2) (feedback (c % 2))

unfoldable pub bit_steps : ℕ → ℕ → ℕ
bit_steps zero c = c
bit_steps (suc k) c = bit_steps k (bit_step c)

swap_middle :
    (a b c d : ℕ) → bit_xor (bit_xor a b) (bit_xor c d) ≡ bit_xor (bit_xor a c) (bit_xor b d)
swap_middle a b c d =
    bit_xor_assoc a b (bit_xor c d)
    ∙ ap (bit_xor a) (
        sym (bit_xor_assoc b c d)
        ∙ ap (λ (t : ℕ). bit_xor t d) (bit_xor_comm b c)
        ∙ bit_xor_assoc c b d)
    ∙ sym (bit_xor_assoc a c (bit_xor b d))

feedback-parity :
    (x y : ℕ) → x < 2 → y < 2 → feedback ((x + y) % 2) ≡ bit_xor (feedback x) (feedback y)
unfolding feedback
feedback-parity zero zero h k = refl
feedback-parity zero (suc zero) h k = refl
feedback-parity (suc zero) zero h k = refl
feedback-parity (suc zero) (suc zero) h k = refl
feedback-parity zero (suc (suc e)) h k = absurd (omega arith)
feedback-parity (suc zero) (suc (suc e)) h k = absurd (omega arith)
feedback-parity (suc (suc d)) e h k = absurd (omega arith)

bit_step_linear : (a b : ℕ) → bit_step (bit_xor a b) ≡ bit_xor (bit_step a) (bit_step b)
unfolding bit_step
bit_step_linear a b =
    ap₂ bit_xor (bit_xor-half a b) (
      ap feedback (bit_xor-parity a b)
      ∙ feedback-parity (a % 2) (b % 2) (omega arith) (omega arith))
    ∙ swap_middle (a / 2) (b / 2) (feedback (a % 2)) (feedback (b % 2))

pub bit_steps_linear :
    (k a b : ℕ) → bit_steps k (bit_xor a b) ≡ bit_xor (bit_steps k a) (bit_steps k b)
unfolding bit_steps
bit_steps_linear zero a b = refl
bit_steps_linear (suc k) a b =
    ap (bit_steps k) (bit_step_linear a b) ∙ bit_steps_linear k (bit_step a) (bit_step b)

-- The bits above the lowest `k` only move down.
bit_steps_high : (k q : ℕ) → bit_steps k (q * 2 ^ k) ≡ q
unfolding bit_steps bit_step feedback
bit_steps_high zero q = omega arith
bit_steps_high (suc k) q =
    let even : q * 2 ^ suc k % 2 ≡ 0 = omega (arith, ap (λ (t : ℕ). q * t) (pow-suc 2 k)) in
    let half : q * 2 ^ suc k / 2 ≡ q * 2 ^ k = omega (arith, ap (λ (t : ℕ). q * t) (pow-suc 2 k)) in
    ap (bit_steps k)
      (ap₂ (λ (x y : ℕ). bit_xor x (feedback y)) half even ∙ bit_xor-zero (q * 2 ^ k))
    ∙ bit_steps_high k q

-- Eight steps take the lowest byte alone, and add what is above it.
pub eight_steps : (c : ℕ) → bit_steps 8 c ≡ bit_xor (c / 256) (bit_steps 8 (c % 256))
eight_steps c =
    let parts : c ≡ bit_xor (c / 256 * 2 ^ 8) (c % 256) =
      omega (arith, bit_xor_shifted 8 (c / 256) (c % 256) (omega arith) (omega arith)) in
    ap (bit_steps 8) parts
    ∙ bit_steps_linear 8 (c / 256 * 2 ^ 8) (c % 256)
    ∙ ap (λ (t : ℕ). bit_xor t (bit_steps 8 (c % 256))) (bit_steps_high 8 (c / 256))

-- The register after one bit of the message.
unfoldable pub shift_in : ℕ → ℕ → ℕ
shift_in b c = bit_xor (c / 2) (feedback ((c % 2 + b) % 2))

-- The register after the lowest `k` bits of a number, lowest first.
unfoldable pub shift_in_bits : ℕ → ℕ → ℕ → ℕ
shift_in_bits zero d c = c
shift_in_bits (suc k) d c = shift_in_bits k (d / 2) (shift_in (d % 2) c)

-- To add `k` bits first and then step `k` times is to shift the bits in one at a time.
pub bit_steps-bit_xor : (k c d : ℕ) → d < 2 ^ k → bit_steps k (bit_xor c d) ≡ shift_in_bits k d c
unfolding bit_steps bit_step shift_in_bits shift_in
bit_steps-bit_xor zero c zero h = bit_xor-zero c
bit_steps-bit_xor zero c (suc d) h = absurd (omega arith)
bit_steps-bit_xor (suc k) c d h =
    ap (bit_steps k) (
      ap₂ (λ (x y : ℕ). bit_xor x (feedback y)) (bit_xor-half c d)
        (bit_xor-parity c d ∙ (ap (λ (t : ℕ). t % 2) {x = c % 2 + d % 2} refl))
      ∙ move (c / 2) (d / 2) (feedback ((c % 2 + d % 2) % 2)))
    ∙ bit_steps-bit_xor k (shift_in (d % 2) c) (d / 2) (omega (arith, pow-suc 2 k))
  where
    move : (x y z : ℕ) → bit_xor (bit_xor x y) z ≡ bit_xor (bit_xor x z) y
    move x y z = bit_xor_assoc x y z ∙ ap (bit_xor x) (bit_xor_comm y z) ∙ sym (bit_xor_assoc x z y)
