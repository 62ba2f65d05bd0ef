-- ===== src/Emulation/Ip4/Arp.antt =====
-- The ARP packets of server/emuldevice.cpp, as bytes.
use ostinato.Base.{
  ℕ, ◌+◌, ◌≤◌, ◌≡◌, refl, ap, ap₂, sym, ◌∙◌, subst, List, [], ◌++◌, append-nil, arith, length,
  length-take, length-drop, take, drop, take-append-drop,
}
use ostinato.Emulation.PacketBuffer.{
  PacketBuffer, new_buffer, reserve, put, write, bytes16, bytes32,
}
use ostinato.Emulation.PacketBuffer.Bounds.{put_room, pointed-some}
use ostinato.Emulation.PacketBuffer.Contents.{Parts, put-Parts, write-write}
use ostinato.Emulation.Device.{Device}
use ostinato.Emulation.Encap.{encap_size}
use ostinato.Emulation.Encap.Frame.{mac_bytes, write_mac-lem}
use ostinato.Emulation.Ip4.{write_arp, arp_packet}

-- An ARP packet for Ethernet and IPv4.
abbrev pub arp_bytes : (oper src_mac src_ip tgt_mac tgt_ip : ℕ) → List ℕ
arp_bytes oper src_mac src_ip tgt_mac tgt_ip =
    bytes32 0x00010800
    ++ bytes32 (0x06040000 + oper)
    ++ mac_bytes src_mac
    ++ bytes32 src_ip
    ++ mac_bytes tgt_mac
    ++ bytes32 tgt_ip

write_arp-lem :
    (at oper src_mac src_ip tgt_mac tgt_ip : ℕ) (p : PacketBuffer)
    → write_arp at oper src_mac src_ip tgt_mac tgt_ip p
      ≡ write at (arp_bytes oper src_mac src_ip tgt_mac tgt_ip) p
unfolding write_arp bytes32 bytes16
write_arp-lem at oper src_mac src_ip tgt_mac tgt_ip p =
    let a = bytes32 0x00010800 in
    let b = a ++ bytes32 (0x06040000 + oper) in
    let c = b ++ mac_bytes src_mac in
    let d = c ++ bytes32 src_ip in
    let e = d ++ mac_bytes tgt_mac in
    ap (write (at + 24) (bytes32 tgt_ip)) (
      write_mac-lem (at + 18) tgt_mac _
      ∙ ap (write (at + 18) (mac_bytes tgt_mac)) (
          ap (write (at + 14) (bytes32 src_ip)) (
            write_mac-lem (at + 8) src_mac _
            ∙ ap (write (at + 8) (mac_bytes src_mac))
                (write-write at (at + 4) a (bytes32 (0x06040000 + oper)) p refl)
            ∙ write-write at (at + 8) b (mac_bytes src_mac) p refl)
          ∙ write-write at (at + 14) c (bytes32 src_ip) p refl)
      ∙ write-write at (at + 18) d (mac_bytes tgt_mac) p refl)
    ∙ write-write at (at + 24) e (bytes32 tgt_ip) p refl

-- The packet stands behind room for the encapsulation.
pub arp_packet-Parts :
    (memory : List ℕ) (d : Device) (oper tgt_mac tgt_ip : ℕ)
    → encap_size d + 28 ≤ length memory
    → let n = encap_size d in
      Parts
        (arp_packet memory d oper tgt_mac tgt_ip)
        (take n memory)
        (arp_bytes oper d.mac d.ip4 tgt_mac tgt_ip)
        (drop 28 (drop n memory))
unfolding arp_packet reserve new_buffer bytes32 bytes16
arp_packet-Parts memory d oper tgt_mac tgt_ip room =
    let n = encap_size d in
    let bs = arp_bytes oper d.mac d.ip4 tgt_mac tgt_ip in
    let q : PacketBuffer = record { memory = memory; data' = 0 + n; tail = 0 + n } in
    let rest = drop n memory in
    let start : Parts q (take n memory) [] (take 28 rest ++ drop 28 rest) = record {
      memory = sym (
          ap₂ (λ (k l : List ℕ). k ++ l) (append-nil (take n memory)) (take-append-drop 28 rest)
          ∙ take-append-drop n memory);
      start = omega (arith, length-take n memory);
      end = omega (arith, length-take n memory);
    } in
    subst (λ (p : PacketBuffer). Parts p (take n memory) bs (drop 28 rest))
      (sym (
        pointed-some (put 28 q) q.tail (record q { tail = 0 + n + 28 }) _ _
          (put_room q 28 (omega arith))
        ∙ write_arp-lem q.tail oper d.mac d.ip4 tgt_mac tgt_ip _))
      (put-Parts q (take n memory) [] (take 28 rest) (drop 28 rest) bs start
        (omega (arith, length-take 28 rest, length-drop n memory)))
