-- ===== src/Protocol/Checksum.antt =====
-- The checksums of `AbstractProtocol`, common/abstractprotocol.cpp, on a little-endian host. The
-- bytes of a protocol come from `protocolFrameValue`, its offset from the protocols before it.
pub mod Sum
pub mod Combine
use ostinato.Base.{
  ℕ, zero, suc, ◌+◌, ◌-◌, ◌*◌, ◌/◌, ◌%◌, ◌^◌, bit_and, bit_or, Bool, true, false, not, Option, none,
  some, List, [], ◌∷◌, ◌==◌, if◌then◌else◌, u16, u32, ◌<<<◌, ◌>>>◌,
}

-- `sum = (sum & 0xFFFF) + (sum >> 16)`.
unfoldable pub fold : ℕ → ℕ
fold sum = u32 (bit_and sum 0xffff + sum >>> 16)

-- The loop over the 16-bit words.
unfoldable pub word_sum : List ℕ → ℕ → ℕ
word_sum [] sum = sum
word_sum (a ∷ []) sum = u32 (sum + a)
word_sum (a ∷ b ∷ rest) sum =
    let added = u32 (sum + (a + 256 * b)) in
    if bit_and added 0x80000000 == 0 then word_sum rest added else word_sum rest (fold added)

-- `while (sum >> 16)`: two rounds are enough for 32 bits.
unfoldable pub fold_all : ℕ → ℕ → ℕ
fold_all zero sum = sum
fold_all (suc fuel) sum =
    let rest = fold_all fuel (fold sum) in if sum >>> 16 == 0 then sum else rest

-- `(quint16) ~sum`.
unfoldable pub complement16 : ℕ → ℕ
complement16 sum = u16 (2 ^ 32 - 1 - sum)

-- `qFromBigEndian` of 16 bits, and `swap16` of common/bswap.h.
unfoldable pub swap16 : ℕ → ℕ
swap16 w = bit_or (bit_and (w >>> 8) 0xff) (bit_and (w <<< 8) 0xff00)

-- `protocolFrameCksum` for `CksumIp`.
unfoldable pub ip_cksum : List ℕ → ℕ
ip_cksum fv = swap16 (complement16 (fold_all 2 (word_sum fv 0)))

-- The cases `CksumTcpUdp` and `CksumIcmpIgmp`, from the checksums that they combine.
unfoldable pub tcp_udp_cksum : ℕ → ℕ → ℕ → ℕ
tcp_udp_cksum own payload pseudo =
    complement16
      (fold_all 2 (u32 (u32 (complement16 own + complement16 payload) + complement16 pseudo)))

unfoldable pub icmp_igmp_cksum : ℕ → ℕ → ℕ
icmp_igmp_cksum own payload =
    complement16 (fold_all 2 (u32 (complement16 own + complement16 payload)))

-- A protocol behind this one: its bytes, and whether it starts at an odd offset of the frame.
pub record Behind : Type 0 where
  pub value : List ℕ
  pub odd_offset : Bool

-- The loop of `protocolFramePayloadCksum` over the protocols behind the first one.
unfoldable pub payload_sum : List Behind → ℕ → ℕ
payload_sum [] sum = sum
payload_sum (p ∷ ps) sum =
    let cksum = ip_cksum p.value in
    let turned = if p.odd_offset then swap16 cksum else cksum in
    payload_sum ps (u32 (sum + complement16 turned))

-- `protocolFramePayloadCksum` for `CksumIp`, for the protocols of this list and, in the end, what
-- the parent protocol returns.
unfoldable pub payload_cksum : Bool → List Behind → Option ℕ → ℕ
payload_cksum adjacent [] parent = 0xffff
payload_cksum adjacent (p ∷ ps) parent =
    let first = complement16 (ip_cksum p.value) in
    let all = payload_sum ps first in
    let with_parent : ℕ = elim parent [ none ↦ all | some c ↦ u32 (all + complement16 (u16 c)) ] in
    if adjacent then complement16 (fold_all 2 first) else complement16 (fold_all 2 with_parent)
