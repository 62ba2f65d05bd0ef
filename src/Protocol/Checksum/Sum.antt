-- ===== src/Protocol/Checksum/Sum.antt =====
-- The one's complement sum of common/abstractprotocol.cpp, modulo 65535.
use ostinato.Base.{
  ℕ, ◌+◌, ◌-◌, ◌*◌, ◌/◌, ◌%◌, ◌^◌, ◌<◌, bit_and, ◌≡◌, ap, ◌∙◌, Bool, false, not, List, [], ◌∷◌,
  arith, ◌==◌, if◌then◌else◌, if_cases, u32, ◌<<<◌, ◌>>>◌, All,
}
use ostinato.Base.Bits.{bit_and_mask, bit_and_high, bit_or_comm, bit_or-eq-add}
use ostinato.Protocol.Checksum.{fold, word_sum, fold_all, complement16, swap16, ip_cksum}
use ostinato.Protocol.FrameValue.Shift.{IsByte}

-- The sum of the 16-bit words in network order, of bytes that begin at an even offset or, with
-- `true`, at an odd one; a last single byte counts as a word with a zero behind it.
unfoldable pub network_sum : Bool → List ℕ → ℕ
network_sum odd [] = 0
network_sum odd (x ∷ xs) = (if odd then x else 256 * x) + network_sum (not odd) xs

pub fold_value : (sum : ℕ) → sum < 2 ^ 32 → fold sum ≡ sum % 65536 + sum / 65536
unfolding fold
fold_value sum h = rw (bit_and_mask 16 sum) (omega arith)

-- The loop ends with 16 bits, which are the sum modulo 65535.
pub fold_all_value :
    (sum : ℕ)
    → sum < 2 ^ 32
    → (fold_all 2 sum < 65536) × (q : ℕ) × (sum ≡ fold_all 2 sum + 65535 * q)
unfolding fold_all
fold_all_value sum h =
    let once = fold_value sum h in
    let twice = fold_value (fold sum) (omega (arith, once)) in
    let Goal = λ (t : ℕ). (t < 65536) × (q : ℕ) × (sum ≡ t + 65535 * q) in
    if_cases Goal (sum >>> 16 == 0) _ _ (λ e. (ground arith, 0, omega arith))
      λ e.
        if_cases Goal (fold sum >>> 16 == 0) _ _
          (λ e. (ground arith, sum / 65536, omega (arith, once)))
          λ e.
            (omega (arith, once, twice), sum / 65536 + fold sum / 65536, omega (arith, once, twice))

high_bit : (s : ℕ) → s < 2 ^ 32 → bit_and s 0x80000000 ≡ s / 2 ^ 31 * 2 ^ 31
high_bit s h =
    bit_and_high 31 s 1 ∙ ap (λ (t : ℕ). t * 2 ^ 31) (bit_and_mask 1 (s / 2 ^ 31) ∙ omega arith)

-- What the loop over the words keeps: no addition wraps around, and 256 times the sum of the words
-- as the host reads them is the sum in network order, modulo 65535.
pub word_sum_value :
    (fv : List ℕ) (sum : ℕ)
    → All IsByte fv
    → sum < 2 ^ 31
    → (word_sum fv sum < 2 ^ 32)
      × (p q : ℕ) × (256 * sum + network_sum false fv + 65535 * p
          ≡ 256 * word_sum fv sum + 65535 * q)
unfolding word_sum network_sum
word_sum_value [] sum all h = (omega arith, 0, 0, omega arith)
word_sum_value (a ∷ []) sum all h = (omega arith, 0, 0, omega (arith, all.0))
word_sum_value (a ∷ b ∷ rest) sum all h =
    let added = u32 (sum + (a + 256 * b)) in
    let exact : added ≡ sum + (a + 256 * b) = omega (arith, all.0, all.1.0) in
    let high = high_bit added (omega arith) in
    let once = fold_value added (omega arith) in
    let Goal = λ (t : ℕ).
      (t < 2 ^ 32)
      × (p q : ℕ) × (256 * sum + (256 * a + (b + network_sum false rest)) + 65535 * p
          ≡ 256 * t + 65535 * q) in
    if_cases Goal (bit_and added 0x80000000 == 0) _ _
      (λ e.
        let small : added < 2 ^ 31 = ground (arith, high) in
        let (l, p, q, i) = word_sum_value rest added all.1.1 small in
        (l, p + b, q, omega (arith, i, exact)))
      λ e.
        let (l, p, q, i) = word_sum_value rest (fold added) all.1.1 (omega (arith, once)) in
        (l, p + b, q + 256 * (added / 65536), omega (arith, i, exact, once))

pub swap16_value : (w : ℕ) → w < 65536 → swap16 w ≡ w / 256 + w % 256 * 256
unfolding swap16
swap16_value w h =
    let low : bit_and (w >>> 8) 0xff ≡ w / 256 = bit_and_mask 8 (w >>> 8) ∙ omega arith in
    let high : bit_and (w <<< 8) 0xff00 ≡ w % 256 * 256 =
      bit_and_high 8 (w <<< 8) 255
      ∙ ap (λ (t : ℕ). t * 256) (bit_and_mask 8 ((w <<< 8) / 256) ∙ omega arith) in
    rw (low, high)
      (bit_or_comm (w / 256) (w % 256 * 256)
        ∙ bit_or-eq-add 8 (w % 256 * 256) (w / 256) (omega arith) (omega arith)
        ∙ omega arith)

pub complement16_value : (w : ℕ) → w < 65536 → complement16 w ≡ 65535 - w
unfolding complement16
complement16_value w h = omega arith

-- The checksum of any bytes completes their sum in network order to a multiple of 65535, as the
-- receiver of a packet checks: an odd last byte counts as a word with a zero behind it.
pub ip_cksum-network_sum :
    (fv : List ℕ)
    → All IsByte fv
    → (ip_cksum fv < 65536) × ((network_sum false fv + ip_cksum fv) % 65535 ≡ 0)
unfolding ip_cksum
ip_cksum-network_sum fv all =
    let (small, p, q, sum) = word_sum_value fv 0 all (omega arith) in
    let (half, r, folded) = fold_all_value (word_sum fv 0) small in
    let total = fold_all 2 (word_sum fv 0) in
    let flip = complement16_value total half in
    let turned = swap16_value (complement16 total) (omega (arith, flip)) in
    (omega (arith, turned, flip, half), omega (arith, turned, flip, half, folded, sum))
