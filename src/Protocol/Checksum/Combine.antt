-- ===== src/Protocol/Checksum/Combine.antt =====
-- Checksums of parts that common/abstractprotocol.cpp combines to those of the whole (RFC 1071).
use ostinato.Base.{
  ℕ, ◌+◌, ◌-◌, ◌*◌, ◌/◌, ◌%◌, ◌^◌, ◌<◌, ◌≤◌, ◌≡◌, ap, ◌∙◌, Bool, true, false, not, none, List, [],
  ◌∷◌, ◌++◌, arith, if◌then◌else◌, u32, All, length,
}
use ostinato.Protocol.Checksum.{
  fold_all, complement16, swap16, ip_cksum, tcp_udp_cksum, icmp_igmp_cksum, Behind, payload_sum,
  payload_cksum,
}
use ostinato.Protocol.Checksum.Sum.{
  network_sum, fold_all_value, swap16_value, complement16_value, ip_cksum-network_sum,
}
use ostinato.Protocol.FrameValue.Shift.{IsByte}

-- Numbers that are the same modulo 65535.
abbrev Same : ℕ → ℕ → Type 0
Same a b = (p q : ℕ) × (a + 65535 * p ≡ b + 65535 * q)

-- Whether an offset that follows these bytes is odd.
unfoldable pub after : Bool → List ℕ → Bool
after odd [] = odd
after odd (x ∷ xs) = after (not odd) xs

network_sum-append :
    (odd : Bool) (xs ys : List ℕ)
    → network_sum odd (xs ++ ys) ≡ network_sum odd xs + network_sum (after odd xs) ys
unfolding network_sum after
network_sum-append odd [] ys = omega arith
network_sum-append odd (x ∷ xs) ys = omega (arith, network_sum-append (not odd) xs ys)

network_sum_turned :
    (odd : Bool) (xs : List ℕ) → Same (256 * network_sum odd xs) (network_sum (not odd) xs)
unfolding network_sum
network_sum_turned odd [] = (0, 0, omega arith)
network_sum_turned true (x ∷ xs) =
    let (p, q, e) = network_sum_turned false xs in (p, q, omega (arith, e))
network_sum_turned false (x ∷ xs) =
    let (p, q, e) = network_sum_turned true xs in (p, q + x, omega (arith, e))

-- The complement of a checksum is the sum of its bytes, and swapping its two bytes gives that of the
-- same bytes at an odd offset.
complement-Same :
    (fv : List ℕ)
    → All IsByte fv
    → (complement16 (ip_cksum fv) < 65536)
      × Same (complement16 (ip_cksum fv)) (network_sum false fv)
complement-Same fv all =
    let (small, e) = ip_cksum-network_sum fv all in
    let c = complement16_value (ip_cksum fv) small in
    (omega (arith, c), ((network_sum false fv + ip_cksum fv) / 65535, 1, omega (arith, c, e)))

turned-Same :
    (fv : List ℕ)
    → All IsByte fv
    → (complement16 (swap16 (ip_cksum fv)) < 65536)
      × Same (complement16 (swap16 (ip_cksum fv))) (network_sum true fv)
turned-Same fv all =
    let (small, e) = ip_cksum-network_sum fv all in
    let s = swap16_value (ip_cksum fv) small in
    let c = complement16_value (swap16 (ip_cksum fv)) (omega (arith, s)) in
    let (p, q, t) = network_sum_turned false fv in
    let k = (network_sum false fv + ip_cksum fv) / 65535 in
    (omega (arith, c, s), (p + 256 * k, q + 1 + ip_cksum fv / 256, omega (arith, c, s, e, t)))

-- The bytes of the protocols one behind the other, where each knows whether its offset is odd.
pub data Laid : Bool → List Behind → List ℕ → Type 0 where
  nothing : {odd : Bool} → Laid odd [] []
  next :
      (odd : Bool) (fv : List ℕ) {ps : List Behind} {bytes : List ℕ}
      → All IsByte fv
      → Laid (after odd fv) ps bytes
      → Laid odd (record { value = fv; odd_offset = odd } ∷ ps) (fv ++ bytes)

placed-Same :
    (odd : Bool) (fv : List ℕ)
    → All IsByte fv
    → let c = complement16 (if odd then swap16 (ip_cksum fv) else ip_cksum fv) in
      (c < 65536) × Same c (network_sum odd fv)
placed-Same true fv all = turned-Same fv all
placed-Same false fv all = complement-Same fv all

payload_sum-Same :
    {odd : Bool} {ps : List Behind} {bytes : List ℕ} (sum : ℕ)
    → Laid odd ps bytes
    → sum + 65536 * length ps < 2 ^ 32
    → (payload_sum ps sum ≤ sum + 65536 * length ps)
      × Same (payload_sum ps sum) (sum + network_sum odd bytes)
unfolding payload_sum network_sum
payload_sum-Same sum nothing room = (omega arith, (0, 0, omega arith))
payload_sum-Same sum (next odd fv {ps} {bytes} all rest) room =
    let c = complement16 (if odd then swap16 (ip_cksum fv) else ip_cksum fv) in
    let (small, (p, q, e)) = placed-Same odd fv all in
    let exact : u32 (sum + c) ≡ sum + c = omega arith in
    let (bound, (s, t, i)) = payload_sum-Same (u32 (sum + c)) rest (omega (arith, exact)) in
    (
      omega (arith, exact, bound),
      (p + s, q + t, omega (arith, exact, e, i, network_sum-append odd fv bytes)),
    )

-- What closes a checksum: the complement of the folded sum completes the sum.
closed :
    (sum total : ℕ)
    → sum < 2 ^ 32
    → Same sum total
    → (complement16 (fold_all 2 sum) < 65536)
      × ((total + complement16 (fold_all 2 sum)) % 65535 ≡ 0)
closed sum total small (p, q, e) =
    let (half, k, folded) = fold_all_value sum small in
    let c = complement16_value (fold_all 2 sum) half in
    (omega (arith, c), omega (arith, c, folded, e))

-- The checksum of the protocols behind this one, in the scope of all of them, completes the sum of
-- their bytes, the first of which stands at an even offset: for fewer than 65535 protocols behind
-- the first, each of which knows whether its offset is odd, and no parent.
pub payload_cksum-network_sum :
    (fv : List ℕ) (odd : Bool) (ps : List Behind) (rest : List ℕ)
    → All IsByte fv
    → Laid (after false fv) ps rest
    → length ps < 65535
    → let c = payload_cksum false (record { value = fv; odd_offset = odd } ∷ ps) none in
      (c < 65536) × ((network_sum false (fv ++ rest) + c) % 65535 ≡ 0)
unfolding payload_cksum
payload_cksum-network_sum fv odd ps rest all laid few =
    let first = complement16 (ip_cksum fv) in
    let (small, (p, q, e)) = complement-Same fv all in
    let (bound, (s, t, i)) = payload_sum-Same first laid (omega arith) in
    closed (payload_sum ps first) (network_sum false (fv ++ rest)) (omega arith)
      (p + s, q + t, omega (arith, e, i, network_sum-append false fv rest))

-- The checksums that TCP and UDP, and ICMP and IGMP, make of their own bytes, the payload and, for
-- the first two, the pseudo header complete the sum of all of these: where the own bytes are an
-- even number, and the payload is as for its own checksum.
pub transport_cksum :
    (own fv : List ℕ) (odd : Bool) (ps : List Behind) (rest : List ℕ) (pseudo : ℕ)
    → All IsByte own
    → after false own ≡ false
    → All IsByte fv
    → Laid (after false fv) ps rest
    → length ps < 65535
    → pseudo < 65536
    → let payload = payload_cksum false (record { value = fv; odd_offset = odd } ∷ ps) none in
      let sum = network_sum false (own ++ (fv ++ rest)) in
      ((sum + (65535 - pseudo) + tcp_udp_cksum (ip_cksum own) payload pseudo) % 65535 ≡ 0)
      × ((sum + icmp_igmp_cksum (ip_cksum own) payload) % 65535 ≡ 0)
unfolding tcp_udp_cksum icmp_igmp_cksum
transport_cksum own fv odd ps rest pseudo all even ok laid few small =
    let payload = payload_cksum false (record { value = fv; odd_offset = odd } ∷ ps) none in
    let sum = network_sum false (own ++ (fv ++ rest)) in
    let (below, e) = payload_cksum-network_sum fv odd ps rest ok laid few in
    let (mine, (p, q, i)) = complement-Same own all in
    let c = complement16_value payload below in
    let d = complement16_value pseudo small in
    let parts : sum ≡ network_sum false own + network_sum false (fv ++ rest) =
      network_sum-append false own (fv ++ rest)
      ∙ ap (λ (t : Bool). network_sum false own + network_sum t (fv ++ rest)) even in
    let k = (network_sum false (fv ++ rest) + payload) / 65535 in
    let two = complement16 (ip_cksum own) + complement16 payload in
    (
      (closed (u32 (u32 two + complement16 pseudo)) (sum + (65535 - pseudo)) (omega arith)
          (p + k, q + 1, omega (arith, c, d, e, i, parts, mine))).1,
      (closed (u32 two) sum (omega arith) (p + k, q + 1, omega (arith, c, e, i, parts, mine))).1,
    )
