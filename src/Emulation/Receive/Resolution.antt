-- ===== src/Emulation/Receive/Resolution.antt =====
-- Two emulated devices of server/emuldevice.cpp that resolve each other by ARP.
use ostinato.Base.{
  ℕ, some, ◌+◌, ◌-◌, ◌^◌, ◌≤◌, ◌<◌, ◌≡◌, ◌≢◌, refl, ap, subst, ◌∙◌, true, not, List, [], ◌∷◌, ◌++◌,
  append_assoc, arith, length, length-append, length-take, take, drop, drop-append_self, ◌==◌,
  ==_iff, if◌then◌else◌, if_true, if_false,
}
use ostinato.Base.OrderedMap.{lookup, lookup-assign}
use ostinato.Emulation.PacketBuffer.{PacketBuffer, contents, pull, read16, bytes16, bytes32}
use ostinato.Emulation.PacketBuffer.Bounds.{Fits, pull_room}
use ostinato.Emulation.PacketBuffer.Contents.{Parts, Fits-Parts, Parts-Fits, contents-Parts}
use ostinato.Emulation.PacketBuffer.Reads.{pull-Parts, read16-Parts}
use ostinato.Emulation.Device.{Device, arp_lookup, value_or_zero}
use ostinato.Emulation.Encap.{bcast_mac, eth_type_arp, encap_size, encap, transmit, Outcome}
use ostinato.Emulation.Encap.Frame.{
  mac_bytes, tag_bytes, header_bytes, HasTags, length-header_bytes, encap-contents,
}
use ostinato.Emulation.Ip4.{arp_packet, learn_arp, receive_arp, send_arp_request}
use ostinato.Emulation.Ip4.Arp.{arp_bytes, arp_packet-Parts}
use ostinato.Emulation.Ip4.Receive.{receive_arp-bytes}
use ostinato.Emulation.Receive.{by_type, receive_packet}

-- A device with addresses of their widths, and memory that holds its packets.
pub record Ready (memory : List ℕ) (d : Device) : Type 0 where
  pub tags : HasTags d
  pub room : encap_size d + 28 ≤ length memory
  pub mac : d.mac < 2 ^ 48
  pub ip4 : d.ip4 < 2 ^ 32
  pub has_ip4 : d.has_ip4 ≡ true

-- The frame of a device with an ARP packet in it.
abbrev pub arp_frame : Device → (dst oper tgt_mac tgt_ip : ℕ) → List ℕ
arp_frame d dst oper tgt_mac tgt_ip =
    header_bytes d dst eth_type_arp ++ arp_bytes oper d.mac d.ip4 tgt_mac tgt_ip

-- A buffer that holds a frame of this device from the type on, as it is given to a device.
pub record Arrives (p : PacketBuffer) (d : Device) (frame : List ℕ) : Type 0 where
  pub fits : Fits p
  pub bytes : contents p ≡ drop (encap_size d - 2) frame

arp_frame-sent :
    (memory : List ℕ) (d : Device) (dst oper tgt_mac tgt_ip : ℕ)
    → Ready memory d
    → contents (encap d dst eth_type_arp (arp_packet memory d oper tgt_mac tgt_ip))
      ≡ arp_frame d dst oper tgt_mac tgt_ip
arp_frame-sent memory d dst oper tgt_mac tgt_ip ready =
    let parts = arp_packet-Parts memory d oper tgt_mac tgt_ip ready.room in
    let p = arp_packet memory d oper tgt_mac tgt_ip in
    encap-contents d dst eth_type_arp p (Parts-Fits p _ _ _ parts) ready.tags
      (omega (arith, parts.start, length-take (encap_size d) memory, ready.room))
    ∙ ap (◌++◌ (header_bytes d dst eth_type_arp)) (contents-Parts p _ _ _ parts)

-- From its type on, a frame is the type and the ARP packet.
from_type :
    (d : Device) (dst : ℕ) (body : List ℕ)
    → HasTags d
    → drop (encap_size d - 2) (header_bytes d dst eth_type_arp ++ body)
      ≡ bytes16 eth_type_arp ++ body
unfolding bytes16
from_type d dst body tags =
    let front = mac_bytes dst ++ mac_bytes d.mac ++ tag_bytes (take d.num_vlan_tags d.vlan) in
    ap (drop (encap_size d - 2)) (append_assoc front (bytes16 eth_type_arp) body)
    ∙ drop-append_self (encap_size d - 2) front (bytes16 eth_type_arp ++ body) (
        omega (
          arith,
          length-header_bytes d dst eth_type_arp tags,
          length-append front (bytes16 eth_type_arp),
        ))

-- What a device does with an ARP frame that arrives.
module _ (memory : List ℕ) (sender d : Device) (p : PacketBuffer) (dst oper tgt_mac tgt_ip : ℕ)
    (tags : HasTags sender) (has : d.has_ip4 ≡ true)
    (arrives : Arrives p sender (arp_frame sender dst oper tgt_mac tgt_ip)) where
  packet_Parts :
      Parts p
        (take p.data' p.memory)
        (bytes16 eth_type_arp ++ arp_bytes oper sender.mac sender.ip4 tgt_mac tgt_ip)
        (drop p.tail p.memory)
  packet_Parts =
      subst (λ (bytes : List ℕ). Parts p (take p.data' p.memory) bytes (drop p.tail p.memory))
        (arrives.bytes ∙ from_type sender dst _ tags) (Fits-Parts p arrives.fits)

  by_type-arp : by_type memory (read16 p.data' p) d (pull 2 p).1 ≡ (
      let q : PacketBuffer = record p { data' = p.data' + 2 } in
      let r = receive_arp memory d q in (r.0, q, r.1))
  unfolding by_type bytes16 bytes32
  by_type-arp =
      let type : read16 p.data' p ≡ 0x0806 =
        omega (arith, read16-Parts p _ _ _ packet_Parts p.data' 0 (omega arith) (omega arith)) in
      let room : 2 ≤ p.tail - p.data' = omega (arith, packet_Parts.start, packet_Parts.end) in
      rw (type, pull_room p 2 room, has) refl

  -- The device and the frames, by the operation and the address of the ARP packet.
  received :
      oper < 2 ^ 16
      → sender.mac < 2 ^ 48
      → sender.ip4 < 2 ^ 32
      → tgt_ip < 2 ^ 32
      → let learned = learn_arp sender.ip4 sender.mac d in
        let reply =
          transmit learned sender.mac eth_type_arp
            (arp_packet memory learned 2 sender.mac sender.ip4) in
        let expected : Device × List (List ℕ) =
          if not (tgt_ip == d.ip4)
          then (d, [])
          else if oper == 1
          then (learned, reply.2)
          else if oper == 2
          then (learned, [])
          else (d, []) in
        ((receive_packet memory d p).0 ≡ expected.0) × ((receive_packet memory d p).2 ≡ expected.1)
  unfolding receive_packet bytes16
  received lo lm ls lt =
      let q : PacketBuffer = record p { data' = p.data' + 2 } in
      let parts = pull-Parts p _ (bytes16 eth_type_arp) _ _ packet_Parts in
      let answer =
        receive_arp-bytes q _ _ oper sender.mac sender.ip4 tgt_mac tgt_ip parts memory d lo lm ls
          lt in
      (
        ap (λ (o : Outcome). o.0) by_type-arp ∙ ap (λ (r : Device × List (List ℕ)). r.0) answer,
        ap (λ (o : Outcome). o.2) by_type-arp ∙ ap (λ (r : Device × List (List ℕ)). r.1) answer,
      )

same_ip : {A : Type 0} (ip : ℕ) (x y : A) → (if not (ip == ip) then x else y) ≡ y
same_ip ip x y = if_false (not (ip == ip)) x y (ground arith)

learned_Ready :
    (memory : List ℕ) (ip mac : ℕ) (d : Device) → Ready memory d → Ready memory (learn_arp ip mac d)
unfolding learn_arp encap_size
learned_Ready memory ip mac d h = record {
  tags = h.tags;
  room = h.room;
  mac = h.mac;
  ip4 = h.ip4;
  has_ip4 = h.has_ip4;
}

learned_lookup : (ip mac : ℕ) (d : Device) → arp_lookup ip (learn_arp ip mac d) ≡ mac
unfolding learn_arp arp_lookup value_or_zero
learned_lookup ip mac d = ap value_or_zero (
    lookup-assign ip ip mac d.arp_table
    ∙ if_true (ip == ip) (some mac) (lookup ip d.arp_table) ((==_iff ip ip).1 refl))

requested :
    (memory : List ℕ) (ip : ℕ) (a : Device)
    → Ready memory a
    → ip ≢ 0
    → send_arp_request memory ip a ≡ (learn_arp ip 0 a, arp_frame a bcast_mac 1 0 ip ∷ [])
unfolding send_arp_request transmit
requested memory ip a ready known =
    if_false (ip == 0) _ _ (ground arith)
    ∙ ap (λ (f : List ℕ). (learn_arp ip 0 a, f ∷ []))
        (arp_frame-sent memory a bcast_mac 1 0 ip ready)

-- Two devices with addresses of their widths, IPv4 and room for their frames, the second one's
-- address not 0. What `sendArpRequest` of the first sends, from its type on, makes the second record
-- the first one's MAC address and send one reply; the reply makes the first record the second
-- one's MAC address, and send nothing.
pub arp_resolves :
    (m1 m2 m3 : List ℕ) (a b : Device) (p q : PacketBuffer)
    → Ready m1 a
    → Ready m2 b
    → b.ip4 ≢ 0
    → Arrives p a (arp_frame a bcast_mac 1 0 b.ip4)
    → Arrives q b (arp_frame b a.mac 2 a.mac a.ip4)
    → let sent = send_arp_request m1 b.ip4 a in
      let answered = receive_packet m2 b p in
      let done = receive_packet m3 sent.0 q in
      (sent.1 ≡ arp_frame a bcast_mac 1 0 b.ip4 ∷ [])
      × (answered.2 ≡ arp_frame b a.mac 2 a.mac a.ip4 ∷ [])
      × (arp_lookup a.ip4 answered.0 ≡ a.mac)
      × (arp_lookup b.ip4 done.0 ≡ b.mac)
      × (done.2 ≡ [])
unfolding transmit learn_arp
arp_resolves m1 m2 m3 a b p q ra rb known to_b to_a =
    let sent = requested m1 b.ip4 a ra known in
    let learned = learn_arp a.ip4 a.mac b in
    let asking = learn_arp b.ip4 0 a in
    let there =
      received m2 a b p bcast_mac 1 0 b.ip4 ra.tags rb.has_ip4 to_b (omega arith) ra.mac ra.ip4
        rb.ip4 in
    let back =
      received m3 b asking q a.mac 2 a.mac a.ip4 rb.tags ra.has_ip4 to_a (omega arith) rb.mac rb.ip4
        ra.ip4 in
    (
      ap (λ (r : Device × List (List ℕ)). r.1) sent,
      there.1
          ∙ ap (λ (r : Device × List (List ℕ)). r.1) (same_ip b.ip4 _ _)
          ∙ ap (λ (f : List ℕ). f ∷ [])
              (arp_frame-sent m2 learned a.mac 2 a.mac a.ip4 (learned_Ready m2 a.ip4 a.mac b rb)),
      ap (arp_lookup a.ip4) (there.0 ∙ ap (λ (r : Device × List (List ℕ)). r.0) (same_ip b.ip4 _ _))
          ∙ learned_lookup a.ip4 a.mac b,
      ap (λ (d : Device). arp_lookup b.ip4 (receive_packet m3 d q).0)
            (ap (λ (r : Device × List (List ℕ)). r.0) sent)
          ∙ ap (arp_lookup b.ip4)
              (back.0 ∙ ap (λ (r : Device × List (List ℕ)). r.0) (same_ip a.ip4 _ _))
          ∙ learned_lookup b.ip4 b.mac asking,
      ap (λ (d : Device). (receive_packet m3 d q).2) (ap (λ (r : Device × List (List ℕ)). r.0) sent)
          ∙ back.1
          ∙ ap (λ (r : Device × List (List ℕ)). r.1) (same_ip a.ip4 _ _),
    )
