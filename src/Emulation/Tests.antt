-- ===== src/Emulation/Tests.antt =====
-- Runs of the emulated devices, server/packetbuffer.cpp and server/emuldevice.cpp.
use ostinato.Base.{ℕ, ◌≤◌, ◌≡◌, ◌↔◌, refl, List, [], ◌∷◌, arith, length, replicate}
use ostinato.Protocol.Uint128.{uint128, complement, shift_up, half_to_bytes}
use ostinato.Emulation.PacketBuffer.{
  PacketBuffer, reserve, pull, push_data, put, contents, bytes16, bytes32, store,
}
use ostinato.Emulation.PacketBuffer.Bounds.{Moves, Fits, Moves-Fits}
use ostinato.Emulation.Device.{
  Device, arp_lookup, new_device, set_mac, set_ip4, set_ip6, set_vlan, clear_key,
}
use ostinato.Emulation.Encap.{bcast_mac, encap_size}
use ostinato.Emulation.Encap.Frame.{tag_bytes}
use ostinato.Emulation.Ip4.{send_arp_request}
use ostinato.Emulation.Receive.{receive_packet}
use ostinato.Emulation.Receive.Resolution.{Ready, Arrives, arp_frame, arp_resolves}

abbrev buffer : PacketBuffer
buffer = record { memory = replicate 20 0; data' = 4; tail = 10 }

Moves-Fits_example :
    Moves buffer 6 8 (pull 8 buffer) 12 12 10
    × Moves buffer 4 8 (push_data 8 buffer) 0 0 10
    × Moves buffer 10 8 (put 8 buffer) 10 4 18
    × (Fits (reserve 8 buffer) ↔ (18 ≤ 20))
    × (8 ≤ 6 → (push_data 8 (pull 8 buffer).1).1 ≡ buffer)
Moves-Fits_example = Moves-Fits buffer 8 (omega arith)

abbrev here : Device
here = set_ip4 0x0a000001 24 0x0a0000fe (set_mac 0x020000000001 new_device)

abbrev there : Device
there = set_ip4 0x0a000002 24 0x0a0000fe (set_mac 0x020000000002 new_device)

-- The mask of a prefix of 64 bits.
mask64 : (set_ip6 (uint128 5 7) 64 (uint128 0 0) here).ip6_mask ≡ uint128 0xffffffffffffffff 0
unfolding set_ip6 shift_up complement
mask64 = refl

tagged_key :
    (set_vlan 1 0x2123 0x8100 (set_mac 0x020000000001 new_device)).key
    ≡ 0 ∷ 0 ∷ 1 ∷ 0x23 ∷ 0 ∷ 0 ∷ 0 ∷ 0 ∷ 0 ∷ 0 ∷ 2 ∷ 0 ∷ 0 ∷ 0 ∷ 0 ∷ 1 ∷ []
unfolding set_vlan set_mac new_device clear_key store half_to_bytes
tagged_key = refl

abbrev memory : List ℕ
memory = replicate 60 0

abbrev holding : List ℕ → PacketBuffer
holding frame = record { memory = frame; data' = 12; tail = length frame }

here-Ready : Ready memory here
unfolding set_ip4 set_mac new_device encap_size
here-Ready = record {
  tags = omega arith;
  room = omega arith;
  mac = omega arith;
  ip4 = omega arith;
  has_ip4 = refl;
}

there-Ready : Ready memory there
unfolding set_ip4 set_mac new_device encap_size
there-Ready = record {
  tags = omega arith;
  room = omega arith;
  mac = omega arith;
  ip4 = omega arith;
  has_ip4 = refl;
}

abbrev asked : List ℕ
asked = arp_frame here bcast_mac 1 0 there.ip4

abbrev replied : List ℕ
replied = arp_frame there here.mac 2 here.mac here.ip4

asked-Arrives : Arrives (holding asked) here asked
unfolding set_ip4 set_mac new_device encap_size contents bytes16 bytes32 tag_bytes
asked-Arrives = record { fits = omega arith; bytes = refl }

replied-Arrives : Arrives (holding replied) there replied
unfolding set_ip4 set_mac new_device encap_size contents bytes16 bytes32 tag_bytes
replied-Arrives = record { fits = omega arith; bytes = refl }

arp_resolves_example :
    let sent = send_arp_request memory there.ip4 here in
    let answered = receive_packet memory there (holding asked) in
    let done = receive_packet memory sent.0 (holding replied) in
    (sent.1 ≡ asked ∷ [])
    × (answered.2 ≡ replied ∷ [])
    × (arp_lookup here.ip4 answered.0 ≡ here.mac)
    × (arp_lookup there.ip4 done.0 ≡ there.mac)
    × (done.2 ≡ [])
unfolding set_ip4 set_mac new_device
arp_resolves_example =
    arp_resolves memory memory memory here there (holding asked) (holding replied) here-Ready
      there-Ready (λ e. omega arith) asked-Arrives replied-Arrives
