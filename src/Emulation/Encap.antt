-- ===== src/Emulation/Encap.antt =====
-- `encapSize` and `encap` of server/emuldevice.cpp: the Ethernet header and the VLAN tags in front of
-- a packet, and the checksum update that the replies share.
pub mod Frame
use ostinato.Base.{
  ℕ, zero, suc, ◌+◌, ◌-◌, ◌*◌, bit_and, bit_or, Option, none, some, List, [], ◌∷◌, ◌++◌, u16, u32,
  ◌<<<◌, ◌>>>◌, length, take,
}
use ostinato.Protocol.Checksum.{fold_all, complement16}
use ostinato.Emulation.PacketBuffer.{
  PacketBuffer, push_data, write, contents, pointed, bytes16, bytes32,
}
use ostinato.Emulation.Device.{Device, max_vlan}

abbrev pub bcast_mac : ℕ
bcast_mac = 0xffffffffffff

abbrev pub eth_type_arp : ℕ
eth_type_arp = 0x0806

abbrev pub eth_type_ip4 : ℕ
eth_type_ip4 = 0x0800

abbrev pub eth_type_ip6 : ℕ
eth_type_ip6 = 0x86dd

abbrev pub ip_proto_icmp6 : ℕ
ip_proto_icmp6 = 58

abbrev pub ip6_hdr_len : ℕ
ip6_hdr_len = 40

-- A device, a buffer and the frames that the device has sent.
abbrev pub Outcome : Type 0
Outcome = Device × PacketBuffer × List (List ℕ)

unfoldable pub encap_size : Device → ℕ
encap_size d = 14 + max_vlan * d.num_vlan_tags

-- Stores of a list of values of 32 bits, one behind the other.
unfoldable pub write_tags : ℕ → List ℕ → PacketBuffer → PacketBuffer
write_tags at [] p = p
write_tags at (v ∷ vs) p = write_tags (at + 4) vs (write at (bytes32 v) p)

-- A MAC address is stored in 32 and then 16 bits.
unfoldable pub write_mac : ℕ → ℕ → PacketBuffer → PacketBuffer
write_mac at mac p =
    write (at + 4) (bytes16 (bit_and mac 0xffff)) (write at (bytes32 (u32 (mac >>> 16))) p)

unfoldable pub encap : Device → ℕ → ℕ → PacketBuffer → PacketBuffer
encap d dst_mac type p =
    pointed (push_data (encap_size d) p) (λ q. q)
      (λ at q.
        let tags = take d.num_vlan_tags d.vlan in
        let macs = write_mac (at + 6) d.mac (write_mac at dst_mac q) in
        write (at + 12 + 4 * length tags) (bytes16 type) (write_tags (at + 12) tags macs))

-- `encap` and then `transmitPacket`.
unfoldable pub transmit : Device → ℕ → ℕ → PacketBuffer → Outcome
transmit d dst_mac type p = let q = encap d dst_mac type p in (d, q, contents q ∷ [])

-- The incremental update of a checksum (RFC 1624) when the word `old` becomes `new`.
unfoldable pub updated_cksum : ℕ → ℕ → ℕ → ℕ
updated_cksum cksum old new =
    complement16 (fold_all 2 (u32 (complement16 cksum + complement16 old + new)))
