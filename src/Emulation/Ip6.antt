-- ===== src/Emulation/Ip6.antt =====
-- The IPv6 part of `EmulDevice`, server/emuldevice.cpp: neighbor discovery, and the replies to echo
-- requests.
use ostinato.Base.{
  ℕ, ◌+◌, ◌*◌, ◌^◌, bit_and, bit_or, Bool, true, false, not, ◌&&◌, ◌||◌, List, [], ◌∷◌, ltb, leb,
  ◌==◌, if◌then◌else◌, u16, u32, ◌<<<◌, ◌>>>◌,
}
use ostinato.Base.OrderedMap.{has_key, assign}
use ostinato.Protocol.Uint128.{Uint128, uint128, to_array, equal}
use ostinato.Protocol.Checksum.{fold_all, complement16}
use ostinato.Emulation.PacketBuffer.{
  PacketBuffer, new_buffer, buffer_length, reserve, pull, push_data, put, write, read8, read32,
  bytes16, bytes32, pointed,
}
use ostinato.Emulation.Device.{Device, ndp_key, ndp_lookup, ip6_next_hop}
use ostinato.Emulation.Encap.{
  Outcome, eth_type_ip6, ip_proto_icmp6, ip6_hdr_len, encap_size, write_mac, transmit,
}
use ostinato.Emulation.Ip4.{read_mac, write_echo_reply}

-- `qFromBigEndian<UInt128>`.
unfoldable pub read128 : ℕ → PacketBuffer → Uint128
read128 at p =
    uint128 (read32 at p * 2 ^ 32 + read32 (at + 4) p)
      (read32 (at + 8) p * 2 ^ 32 + read32 (at + 12) p)

unfoldable pub sum_words : ℕ → ℕ
sum_words x = u16 (x >>> 48) + u16 (x >>> 32) + u16 (x >>> 16) + u16 x

-- `sumUInt128`: the eight words of 16 bits.
unfoldable pub sum_uint128 : Uint128 → ℕ
sum_uint128 a = sum_words a.hi + sum_words a.lo

unfoldable pub is_ip6_mcast : Uint128 → Bool
is_ip6_mcast ip = ip.hi >>> 56 == 0xff

unfoldable pub learn_ndp : Uint128 → ℕ → Device → Device
learn_ndp ip mac d = record d { ndp_table = assign (ndp_key ip) mac d.ndp_table }

-- The MAC address that a packet for this address is sent to; 0 where none is known.
unfoldable pub ip6_dst_mac : Uint128 → Device → ℕ
ip6_dst_mac dst_ip d =
    if dst_ip.hi >>> 56 == 0xff
    then bit_or (0x3333 <<< 32) (bit_and dst_ip.lo 0xffffffff)
    else ndp_lookup (ip6_next_hop dst_ip d) d

unfoldable pub write_ip6 :
    ℕ → (payload_len protocol : ℕ) → (src dst : Uint128) → PacketBuffer → PacketBuffer
write_ip6 at payload_len protocol src dst p =
    let lengths = write (at + 4) (bytes16 (u16 payload_len)) (write at (bytes32 0x60000000) p) in
    let limits = write (at + 7) (255 ∷ []) (write (at + 6) (protocol ∷ []) lengths) in
    write (at + 24) (to_array dst) (write (at + 8) (to_array src) limits)

-- The result of `sendIp6`, and what it leaves.
unfoldable pub send_ip6 : Device → PacketBuffer → Uint128 → ℕ → Bool × Outcome
send_ip6 d p dst_ip protocol =
    let payload_len = buffer_length p in
    let dst_mac = ip6_dst_mac dst_ip d in
    pointed (push_data ip6_hdr_len p) (λ q. (false, (d, q, [])))
      (λ at q. if dst_mac == 0 then (false, (d, q, [])) else (
        true,
        transmit d dst_mac eth_type_ip6 (write_ip6 at payload_len protocol d.ip6 dst_ip q),
      ))

-- The header that an IPv6 reply has: addresses swapped, hop limit 64.
unfoldable pub write_ip6_reply : ℕ → PacketBuffer → PacketBuffer
write_ip6_reply at p =
    let dst_ip = read128 (at + 8) p in
    let src_ip = read128 (at + 24) p in
    let addresses = write (at + 24) (to_array dst_ip) (write (at + 8) (to_array src_ip) p) in
    write (at + 7) (64 ∷ []) addresses

-- `sendIp6Reply`: its `push` undoes a `pull` of 40.
unfoldable pub send_ip6_reply : Device → PacketBuffer → Outcome
send_ip6_reply d p =
    pointed (push_data ip6_hdr_len p) (λ q. (d, q, []))
      (λ at q.
        let tgt_ip = ip6_next_hop (read128 (at + 8) q) d in
        if has_key (ndp_key tgt_ip) d.ndp_table
        then transmit d (ndp_lookup tgt_ip d) eth_type_ip6 (write_ip6_reply at q)
        else (d, q, []))

-- The three words of a MAC address.
unfoldable pub sum_mac : ℕ → ℕ
sum_mac mac = mac >>> 32 + bit_and (mac >>> 16) 0xffff + bit_and mac 0xffff

-- The stores of a neighbor solicitation or advertisement of 32 bytes, with one option.
unfoldable pub write_ndp :
    ℕ → (type cksum flags : ℕ) → Uint128 → (option mac : ℕ) → PacketBuffer → PacketBuffer
write_ndp at type cksum flags target option mac p =
    let head = write (at + 2) (bytes16 cksum) (write at (bytes16 type) p) in
    let body = write (at + 8) (to_array target) (write (at + 4) (bytes32 flags) head) in
    write_mac (at + 26) mac (write (at + 24) (bytes16 option) body)

-- The checksum of such a message: its words, and those of the pseudo header.
unfoldable pub ndp_cksum : (type flags option mac : ℕ) → (target src dst : Uint128) → ℕ
ndp_cksum type flags option mac target src dst =
    let fixed = type + flags + option + (32 + ip_proto_icmp6) in
    complement16 (
      fold_all 2
        (u32 (fixed + sum_uint128 target + sum_mac mac + sum_uint128 src + sum_uint128 dst)))

-- A new packet with such a message, behind room for what encapsulates it.
unfoldable pub ndp_packet :
    List ℕ → Device → (type flags : ℕ) → Uint128 → (option : ℕ) → Uint128 → PacketBuffer
ndp_packet memory d type flags target option dst =
    pointed (put 32 (reserve (encap_size d + ip6_hdr_len) (new_buffer memory))) (λ p. p)
      (λ at p.
        let cksum = ndp_cksum type flags option d.mac target d.ip6 dst in
        write_ndp at type cksum (u32 (flags <<< 16)) target option d.mac p)

-- The solicited-node address of a target.
unfoldable pub solicited_node : Uint128 → Uint128
solicited_node tgt_ip =
    uint128 (0xff02 <<< 48) (bit_or (0x01ff <<< 24) (bit_and tgt_ip.lo 0xffffff))

-- `sendNeighborSolicit(UInt128)`.
unfoldable pub send_neighbor_solicit : List ℕ → Uint128 → Device → Device × List (List ℕ)
send_neighbor_solicit memory tgt_ip d =
    let dst_ip = solicited_node tgt_ip in
    let sent =
      send_ip6 d (ndp_packet memory d 0x8700 0 tgt_ip 0x0101 dst_ip) dst_ip ip_proto_icmp6 in
    if equal tgt_ip (uint128 0 0)
    then (d, [])
    else if sent.0
    then (learn_ndp tgt_ip 0 sent.1.0, sent.1.2)
    else (sent.1.0, sent.1.2)

-- What an advertisement goes to, with its flags, and the device, from the source of the
-- solicitation. The length is tested after the `push`, so it counts the IPv6 header too.
unfoldable pub solicited_by : Device → ℕ → PacketBuffer → Uint128 → Device × Uint128 × ℕ
solicited_by d at q src_ip =
    if equal src_ip (uint128 0 0)
    then (d, uint128 (0xff02 <<< 48) 1, 0x2000)
    else if leb 32 (buffer_length q) && (read8 (at + 24) q == 1 && read8 (at + 25) q == 1)
    then (learn_ndp src_ip (read_mac (at + 26) q) d, src_ip, 0x6000)
    else (d, src_ip, 0x6000)

-- `sendNeighborAdvertisement`; `at` is the start of the ICMPv6 header.
unfoldable pub send_neighbor_advertisement : List ℕ → Device → PacketBuffer → Outcome
send_neighbor_advertisement memory d p =
    let at = p.data' in
    let tgt_ip = read128 (at + 8) p in
    pointed (push_data ip6_hdr_len p) (λ q. (d, q, []))
      (λ hdr q.
        let (e, dst_ip, flags) = solicited_by d at q (read128 (hdr + 8) q) in
        let sent =
          send_ip6 e (ndp_packet memory e 0x8800 flags tgt_ip 0x0201 dst_ip) dst_ip
            ip_proto_icmp6 in
        if not (equal tgt_ip d.ip6) then (d, q, []) else (sent.1.0, q, sent.1.2))

-- The case of an advertisement in `receiveNdp`.
unfoldable pub receive_advertisement : Device → PacketBuffer → Device
receive_advertisement d p =
    let at = p.data' in
    let flags = read8 (at + 4) p in
    let tgt_ip = read128 (at + 8) p in
    let learned = learn_ndp tgt_ip (read_mac (at + 26) p) d in
    if bit_and flags 0x40 == 0
    then d
    else if not (bit_and flags 0x20 == 0) || ndp_lookup tgt_ip d == 0
    then (if not (read8 (at + 24) p == 2) || not (read8 (at + 25) p == 1) then d else learned)
    else d

unfoldable pub receive_ndp : List ℕ → Device → PacketBuffer → Outcome
receive_ndp memory d p =
    let type = read8 p.data' p in
    let advertised : Outcome = (receive_advertisement d p, p, []) in
    let advertising = send_neighbor_advertisement memory d p in
    if ltb (buffer_length p) (24 + (if type == 136 then 8 else 0))
    then (d, p, [])
    else if type == 135
    then advertising
    else if type == 136
    then advertised
    else (d, p, [])

unfoldable pub receive_icmp6 : List ℕ → Device → PacketBuffer → Outcome
receive_icmp6 memory d p =
    let type = read8 p.data' p in
    if type == 128
    then send_ip6_reply d (write_echo_reply p.data' 128 129 p)
    else if type == 135 || type == 136
    then receive_ndp memory d p
    else (d, p, [])

unfoldable pub receive_ip6 : List ℕ → Device → PacketBuffer → Outcome
receive_ip6 memory d p =
    let at = p.data' in
    let dst_ip = read128 (at + 24) p in
    if not (bit_and (read8 at p) 0xf0 == 0x60)
    then (d, p, [])
    else if ltb (buffer_length p) ip6_hdr_len
    then (d, p, [])
    else if not (is_ip6_mcast dst_ip) && not (equal dst_ip d.ip6)
    then (d, p, [])
    else if read8 (at + 6) p == ip_proto_icmp6
    then receive_icmp6 memory d (pull ip6_hdr_len p).1
    else (d, p, [])
