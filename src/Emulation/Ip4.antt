-- ===== src/Emulation/Ip4.antt =====
-- The IPv4 part of `EmulDevice`, server/emuldevice.cpp: ARP, and the replies to echo requests.
pub mod Arp
pub mod Receive
use ostinato.Base.{
  ℕ, ◌+◌, ◌-◌, ◌*◌, ◌%◌, bit_and, bit_or, Bool, true, false, not, ◌&&◌, Option, none, some, List,
  [], ◌∷◌, ltb, ◌==◌, if◌then◌else◌, u16, u32, ◌<<<◌, ◌>>>◌,
}
use ostinato.Base.OrderedMap.{has_key, assign}
use ostinato.Emulation.PacketBuffer.{
  PacketBuffer, new_buffer, buffer_length, reserve, pull, push_data, put, write, read8, read16,
  read32, bytes16, bytes32, pointed,
}
use ostinato.Emulation.Device.{Device, arp_lookup, ip4_next_hop}
use ostinato.Emulation.Encap.{
  Outcome, bcast_mac, eth_type_arp, eth_type_ip4, encap_size, write_mac, transmit, updated_cksum,
}

-- The stores of an ARP packet for Ethernet and IPv4.
unfoldable pub write_arp : ℕ → ℕ → (src_mac src_ip tgt_mac tgt_ip : ℕ) → PacketBuffer → PacketBuffer
write_arp at oper src_mac src_ip tgt_mac tgt_ip p =
    let fixed = write (at + 4) (bytes32 (0x06040000 + oper)) (write at (bytes32 0x00010800) p) in
    let source = write (at + 14) (bytes32 src_ip) (write_mac (at + 8) src_mac fixed) in
    write (at + 24) (bytes32 tgt_ip) (write_mac (at + 18) tgt_mac source)

-- A new packet with an ARP packet, behind room for the encapsulation.
unfoldable pub arp_packet : List ℕ → Device → (oper tgt_mac tgt_ip : ℕ) → PacketBuffer
arp_packet memory d oper tgt_mac tgt_ip =
    pointed (put 28 (reserve (encap_size d) (new_buffer memory))) (λ p. p)
      (λ at p. write_arp at oper d.mac d.ip4 tgt_mac tgt_ip p)

-- `insert` of the ARP table.
unfoldable pub learn_arp : ℕ → ℕ → Device → Device
learn_arp ip mac d = record d { arp_table = assign ip mac d.arp_table }

-- The fixed fields of an ARP packet for Ethernet and IPv4.
unfoldable pub is_arp : ℕ → PacketBuffer → Bool
is_arp at p =
    read16 at p == 1
    && read16 (at + 2) p == eth_type_ip4
    && read8 (at + 4) p == 6
    && read8 (at + 5) p == 4

unfoldable pub read_mac : ℕ → PacketBuffer → ℕ
read_mac at p = bit_or (read32 at p <<< 16) (read16 (at + 4) p)

-- `memory` is what `new` returns for a packet that is sent.
unfoldable pub receive_arp : List ℕ → Device → PacketBuffer → Device × List (List ℕ)
receive_arp memory d p =
    let at = p.data' in
    let op_code = read16 (at + 6) p in
    let src_mac = read_mac (at + 8) p in
    let src_ip = read32 (at + 14) p in
    let learned = learn_arp src_ip src_mac d in
    let reply =
      transmit learned src_mac eth_type_arp (arp_packet memory learned 2 src_mac src_ip) in
    if not (read32 (at + 24) p == d.ip4)
    then (d, [])
    else if not (is_arp at p)
    then (d, [])
    else if op_code == 1
    then (learned, reply.2)
    else if op_code == 2
    then (learned, [])
    else (d, [])

-- `sendArpRequest(quint32)`.
unfoldable pub send_arp_request : List ℕ → ℕ → Device → Device × List (List ℕ)
send_arp_request memory tgt_ip d =
    let sent = transmit d bcast_mac eth_type_arp (arp_packet memory d 1 0 tgt_ip) in
    if tgt_ip == 0 then (d, []) else (learn_arp tgt_ip 0 d, sent.2)

-- The header that an IPv4 reply has: addresses swapped, TTL 64, the checksum updated.
unfoldable pub write_ip4_reply : ℕ → PacketBuffer → PacketBuffer
write_ip4_reply at p =
    let orig_ttl = read8 (at + 8) p in
    let ip_proto = read8 (at + 9) p in
    let dst_ip = read32 (at + 12) p in
    let src_ip = read32 (at + 16) p in
    let cksum =
      updated_cksum (read16 (at + 10) p) (bit_or (orig_ttl <<< 8) ip_proto)
        (bit_or (64 <<< 8) ip_proto) in
    let addresses = write (at + 16) (bytes32 dst_ip) (write (at + 12) (bytes32 src_ip) p) in
    write (at + 10) (bytes16 cksum) (write (at + 8) (64 ∷ []) addresses)

-- `sendIp4Reply`: its `push` undoes a `pull` of 20.
unfoldable pub send_ip4_reply : Device → PacketBuffer → Outcome
send_ip4_reply d p =
    pointed (push_data 20 p) (λ q. (d, q, []))
      (λ at q.
        let tgt_ip = ip4_next_hop (read32 (at + 12) q) d in
        if has_key tgt_ip d.arp_table
        then transmit d (arp_lookup tgt_ip d) eth_type_ip4 (write_ip4_reply at q)
        else (d, q, []))

-- The ICMP header that an echo reply has.
unfoldable pub write_echo_reply : ℕ → (request reply : ℕ) → PacketBuffer → PacketBuffer
write_echo_reply at request reply p =
    let code = read8 (at + 1) p in
    let cksum =
      updated_cksum (read16 (at + 2) p) (bit_or (request <<< 8) code) (bit_or (reply <<< 8) code) in
    write (at + 2) (bytes16 cksum) (write at (reply ∷ []) p)

unfoldable pub receive_icmp4 : Device → PacketBuffer → Outcome
receive_icmp4 d p =
    if read8 p.data' p == 8 then send_ip4_reply d (write_echo_reply p.data' 8 0 p) else (d, p, [])

unfoldable pub receive_ip4 : Device → PacketBuffer → Outcome
receive_ip4 d p =
    let at = p.data' in
    if not (read8 at p == 0x45)
    then (d, p, [])
    else if ltb (buffer_length p) 20
    then (d, p, [])
    else if not (read32 (at + 16) p == d.ip4)
    then (d, p, [])
    else if read8 (at + 9) p == 1
    then receive_icmp4 d (pull 20 p).1
    else (d, p, [])
