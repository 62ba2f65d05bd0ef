-- ===== src/Emulation/Ip4/Receive.antt =====
-- What `receiveArp` of server/emuldevice.cpp does with an ARP packet.
use ostinato.Base.{
  ℕ, ◌+◌, ◌/◌, ◌%◌, ◌^◌, ◌<◌, bit_or, ◌≡◌, refl, ap₂, ◌∙◌, true, not, List, [], arith, ◌==◌,
  if◌then◌else◌, ◌<<<◌,
}
use ostinato.Base.Bits.{bit_and_mask, bit_or_shifted}
use ostinato.Emulation.PacketBuffer.{PacketBuffer, read16, read32, bytes16, bytes32}
use ostinato.Emulation.PacketBuffer.Contents.{Parts}
use ostinato.Emulation.PacketBuffer.Reads.{read8-Parts, read16-Parts, read32-Parts}
use ostinato.Emulation.Device.{Device}
use ostinato.Emulation.Encap.{transmit, eth_type_arp}
use ostinato.Emulation.Ip4.{arp_packet, learn_arp, is_arp, read_mac, receive_arp}
use ostinato.Emulation.Ip4.Arp.{arp_bytes}

module _ (p : PacketBuffer) (before after : List ℕ) (oper src_mac src_ip tgt_mac tgt_ip : ℕ)
    (h : Parts p before (arp_bytes oper src_mac src_ip tgt_mac tgt_ip) after) where
  tgt_ip-lem : tgt_ip < 2 ^ 32 → read32 (p.data' + 24) p ≡ tgt_ip
  unfolding bytes32 bytes16
  tgt_ip-lem l = omega (arith, read32-Parts p before _ after h (p.data' + 24) 24 refl (omega arith))

  src_ip-lem : src_ip < 2 ^ 32 → read32 (p.data' + 14) p ≡ src_ip
  unfolding bytes32 bytes16
  src_ip-lem l = omega (arith, read32-Parts p before _ after h (p.data' + 14) 14 refl (omega arith))

  op_code-lem : oper < 2 ^ 16 → read16 (p.data' + 6) p ≡ oper
  unfolding bytes32 bytes16
  op_code-lem l = omega (arith, read16-Parts p before _ after h (p.data' + 6) 6 refl (omega arith))

  is_arp-lem : oper < 2 ^ 16 → is_arp p.data' p ≡ true
  unfolding is_arp bytes32 bytes16
  is_arp-lem l =
      let a = read16-Parts p before _ after h p.data' 0 (omega arith) (omega arith) in
      let b = read16-Parts p before _ after h (p.data' + 2) 2 refl (omega arith) in
      let c = read8-Parts p before _ after h (p.data' + 4) 4 refl (omega arith) in
      let d = read8-Parts p before _ after h (p.data' + 5) 5 refl (omega arith) in ground arith

  src_mac-lem : src_mac < 2 ^ 48 → read_mac (p.data' + 8) p ≡ src_mac
  unfolding read_mac bytes32 bytes16
  src_mac-lem l =
      let high : read32 (p.data' + 8) p ≡ src_mac / 2 ^ 16 =
        omega (arith, read32-Parts p before _ after h (p.data' + 8) 8 refl (omega arith)) in
      let low : read16 (p.data' + 8 + 4) p ≡ src_mac % 2 ^ 16 = omega (
        arith,
        read16-Parts p before _ after h (p.data' + 8 + 4) 12 (omega arith) (omega arith),
        bit_and_mask 16 src_mac,
      ) in
      ap₂ (λ (x y : ℕ). bit_or (x <<< 16) y) high low
      ∙ bit_or_shifted 16 (src_mac / 2 ^ 16) (src_mac % 2 ^ 16) (omega arith)
      ∙ omega arith

  -- What a device does with an ARP packet, by its operation and where it is for its address.
  pub receive_arp-bytes :
      (memory : List ℕ) (d : Device)
      → oper < 2 ^ 16
      → src_mac < 2 ^ 48
      → src_ip < 2 ^ 32
      → tgt_ip < 2 ^ 32
      → let learned = learn_arp src_ip src_mac d in
        let reply =
          transmit learned src_mac eth_type_arp (arp_packet memory learned 2 src_mac src_ip) in
        receive_arp memory d p ≡ (
          if not (tgt_ip == d.ip4)
          then (d, [])
          else if oper == 1
          then (learned, reply.2)
          else if oper == 2
          then (learned, [])
          else (d, []))
  unfolding receive_arp
  receive_arp-bytes memory d lo lm ls lt =
      rw (tgt_ip-lem lt, is_arp-lem lo, op_code-lem lo, src_mac-lem lm, src_ip-lem ls) refl
