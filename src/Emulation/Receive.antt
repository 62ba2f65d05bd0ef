-- ===== src/Emulation/Receive.antt =====
-- `receivePacket` of server/emuldevice.cpp, and the resolution of gateways and of the neighbors of a
-- packet of server/device.cpp, which choose between the two versions of IP.
pub mod Resolution
use ostinato.Base.{
  ℕ, ◌+◌, ◌-◌, ◌*◌, ◌^◌, bit_and, bit_or, ◌>>>◌, Bool, true, false, not, ◌&&◌, List, [], ◌∷◌, ◌++◌,
  ltb, ◌==◌, if◌then◌else◌, ◌<<<◌,
}
use ostinato.Protocol.Uint128.{Uint128, uint128, equal}
use ostinato.Emulation.PacketBuffer.{
  PacketBuffer, buffer_length, pull, push_data, read8, read16, read32,
}
use ostinato.Emulation.Device.{Device, arp_lookup, ndp_lookup, ip4_next_hop, ip6_next_hop}
use ostinato.Emulation.Encap.{Outcome, eth_type_arp, eth_type_ip4, eth_type_ip6, ip6_hdr_len}
use ostinato.Emulation.Ip4.{receive_arp, receive_ip4, send_arp_request}
use ostinato.Emulation.Ip6.{read128, receive_ip6, send_neighbor_solicit}

-- The switch of `receivePacket`, behind the type.
unfoldable pub by_type : List ℕ → ℕ → Device → PacketBuffer → Outcome
by_type memory type d p =
    let arp = receive_arp memory d p in
    if type == eth_type_arp
    then (if d.has_ip4 then (arp.0, p, arp.1) else (d, p, []))
    else if type == eth_type_ip4
    then (if d.has_ip4 then receive_ip4 d p else (d, p, []))
    else if type == eth_type_ip6
    then (if d.has_ip6 then receive_ip6 memory d p else (d, p, []))
    else (d, p, [])

-- The data are at the type of the packet, and are put back there.
unfoldable pub receive_packet : List ℕ → Device → PacketBuffer → Outcome
receive_packet memory d p =
    let (e, q, sent) = by_type memory (read16 p.data' p) d (pull 2 p).1 in
    (e, (push_data 2 q).1, sent)

-- `sendArpRequest(PacketBuffer *)`: the data are at the IP header.
unfoldable pub resolve_ip4 : List ℕ → PacketBuffer → Device → Device × List (List ℕ)
resolve_ip4 memory p d =
    let ip_hdr_len = bit_and (read8 p.data' p) 0x0f <<< 2 in
    let tgt_ip = ip4_next_hop (read32 (p.data' + ip_hdr_len - 4) p) d in
    let requested = send_arp_request memory tgt_ip d in
    if ltb (buffer_length p) ip_hdr_len
    then (d, [])
    else if ltb 0 (arp_lookup tgt_ip d)
    then (d, [])
    else requested

-- `sendNeighborSolicit(PacketBuffer *)`.
unfoldable pub resolve_ip6 : List ℕ → PacketBuffer → Device → Device × List (List ℕ)
resolve_ip6 memory p d =
    let tgt_ip = ip6_next_hop (read128 (p.data' + 24) p) d in
    let solicited = send_neighbor_solicit memory tgt_ip d in
    if ltb (buffer_length p) ip6_hdr_len
    then (d, [])
    else if ltb 0 (ndp_lookup tgt_ip d)
    then (d, [])
    else solicited

unfoldable pub resolve_neighbor : List ℕ → Device → PacketBuffer → Outcome
resolve_neighbor memory d p =
    let type = read16 p.data' p in
    let q = (pull 2 p).1 in
    let by_ip4 = resolve_ip4 memory q d in
    let by_ip6 = resolve_ip6 memory q d in
    let (e, sent) =
      if type == eth_type_ip4 && d.has_ip4
      then by_ip4
      else if type == eth_type_ip6 && d.has_ip6
      then by_ip6
      else (d, []) in
    (e, (push_data 2 q).1, sent)

unfoldable pub resolve_gateway4 : List ℕ → Device → Device × List (List ℕ)
resolve_gateway4 memory d =
    let requested = send_arp_request memory d.ip4_gateway d in
    if d.has_ip4 && (not (d.ip4_gateway == 0) && not (ltb 0 (arp_lookup d.ip4_gateway d)))
    then requested
    else (d, [])

unfoldable pub resolve_gateway6 : List ℕ → Device → Device × List (List ℕ)
resolve_gateway6 memory d =
    let solicited = send_neighbor_solicit memory d.ip6_gateway d in
    if d.has_ip6
      && (not (equal d.ip6_gateway (uint128 0 0)) && not (ltb 0 (ndp_lookup d.ip6_gateway d)))
    then solicited
    else (d, [])

-- Each packet is sent from memory of its own.
unfoldable pub resolve_gateway : List ℕ → List ℕ → Device → Device × List (List ℕ)
resolve_gateway memory4 memory6 d =
    let (e, sent4) = resolve_gateway4 memory4 d in
    let (f, sent6) = resolve_gateway6 memory6 e in (f, sent4 ++ sent6)

-- Whether the packet at the type comes from this device.
unfoldable pub is_origin : Device → PacketBuffer → Bool
is_origin d p =
    let type = read16 p.data' p in
    let at = p.data' + 2 in
    let ip_hdr_len = bit_and (read8 at p) 0x0f <<< 2 in
    if type == eth_type_ip4 && d.has_ip4
    then (if ltb (buffer_length p) (ip_hdr_len + 2)
        then false
        else read32 (at + ip_hdr_len - 8) p == d.ip4)
    else if type == eth_type_ip6 && d.has_ip6
    then (if ltb (buffer_length p) (ip6_hdr_len + 2)
        then false
        else equal (read128 (at + 8) p) d.ip6)
    else false

-- The MAC address that the packet at the type is sent to; the length is compared without the two
-- bytes of the type for IPv4.
unfoldable pub neighbor_mac : Device → PacketBuffer → ℕ
neighbor_mac d p =
    let type = read16 p.data' p in
    let at = p.data' + 2 in
    let ip_hdr_len = bit_and (read8 at p) 0x0f <<< 2 in
    let dst4 = read32 (at + ip_hdr_len - 4) p in
    let dst6 = read128 (at + 24) p in
    if type == eth_type_ip4 && d.has_ip4
    then (if ltb (buffer_length p) ip_hdr_len
        then 0
        else if bit_and dst4 0xf0000000 == 0xe0000000
        then bit_or (0x01005e <<< 24) (bit_and dst4 0x7fffff)
        else arp_lookup (ip4_next_hop dst4 d) d)
    else if type == eth_type_ip6 && d.has_ip6
    then (if ltb (buffer_length p) (ip6_hdr_len + 2)
        then 0
        else if dst6.hi >>> 56 == 0xff
        then bit_or (0x3333 <<< 32) (bit_and dst6.lo 0xffffffff)
        else ndp_lookup (ip6_next_hop dst6 d) d)
    else 0
