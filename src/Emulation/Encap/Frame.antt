-- ===== src/Emulation/Encap/Frame.antt =====
-- The frame that `encap` of server/emuldevice.cpp makes of a packet.
use ostinato.Base.{
  ℕ, ◌+◌, ◌-◌, ◌*◌, ◌≤◌, bit_and, ◌≡◌, refl, ap, sym, ◌∙◌, List, [], ◌∷◌, ◌++◌, arith, length,
  length-append, length-take, length-drop, take, drop, take-append-drop, subst, u32, ◌>>>◌,
}
use ostinato.Emulation.PacketBuffer.{
  PacketBuffer, store, push_data, write, contents, bytes16, bytes32,
}
use ostinato.Emulation.PacketBuffer.Bounds.{Fits, push_data_room, pointed-some}
use ostinato.Emulation.PacketBuffer.Contents.{
  Parts, Fits-Parts, contents-Parts, push-Parts, write-write,
}
use ostinato.Emulation.Device.{Device}
use ostinato.Emulation.Encap.{encap_size, write_tags, write_mac, encap}

abbrev pub mac_bytes : ℕ → List ℕ
mac_bytes mac = bytes32 (u32 (mac >>> 16)) ++ bytes16 (bit_and mac 0xffff)

unfoldable pub tag_bytes : List ℕ → List ℕ
tag_bytes [] = []
tag_bytes (v ∷ vs) = bytes32 v ++ tag_bytes vs

-- The bytes in front of a packet.
abbrev pub header_bytes : Device → ℕ → ℕ → List ℕ
header_bytes d dst type =
    mac_bytes dst ++ mac_bytes d.mac ++ tag_bytes (take d.num_vlan_tags d.vlan) ++ bytes16 type

-- The counted tags are entries of the array.
abbrev pub HasTags : Device → Type 0
HasTags d = d.num_vlan_tags ≤ length d.vlan

length-tag_bytes : (vs : List ℕ) → length (tag_bytes vs) ≡ 4 * length vs
unfolding tag_bytes bytes32
length-tag_bytes [] = refl
length-tag_bytes (v ∷ vs) = omega (arith, length-tag_bytes vs)

pub write_mac-lem :
    (at mac : ℕ) (p : PacketBuffer) → write_mac at mac p ≡ write at (mac_bytes mac) p
unfolding write_mac bytes32
write_mac-lem at mac p = write-write at (at + 4) (bytes32 (u32 (mac >>> 16))) _ p refl

write_tags-lem :
    (at : ℕ) (vs : List ℕ) (p : PacketBuffer) → write_tags at vs p ≡ write at (tag_bytes vs) p
unfolding write_tags tag_bytes bytes32 write store
write_tags-lem at [] p = refl
write_tags-lem at (v ∷ vs) p =
    write_tags-lem (at + 4) vs (write at (bytes32 v) p)
    ∙ write-write at (at + 4) (bytes32 v) (tag_bytes vs) p refl

-- The stores of `encap` are one write of the header.
header-write :
    (d : Device) (dst type at : ℕ) (q : PacketBuffer)
    → let tags = take d.num_vlan_tags d.vlan in
      write
        (at + 12 + 4 * length tags)
        (bytes16 type)
        (write_tags (at + 12) tags (write_mac (at + 6) d.mac (write_mac at dst q)))
      ≡ write at (header_bytes d dst type) q
unfolding bytes32 bytes16
header-write d dst type at q =
    let tags = take d.num_vlan_tags d.vlan in
    ap (write (at + 12 + 4 * length tags) (bytes16 type)) (
      write_tags-lem (at + 12) tags _
      ∙ ap (write (at + 12) (tag_bytes tags)) (
          write_mac-lem (at + 6) d.mac _
          ∙ ap (write (at + 6) (mac_bytes d.mac)) (write_mac-lem at dst q)
          ∙ write-write at (at + 6) (mac_bytes dst) (mac_bytes d.mac) q refl)
      ∙ write-write at (at + 12) (mac_bytes dst ++ mac_bytes d.mac) (tag_bytes tags) q refl)
    ∙ write-write at (at + 12 + 4 * length tags)
        (mac_bytes dst ++ mac_bytes d.mac ++ tag_bytes tags) (bytes16 type) q
        (omega (
          arith,
          length-append (mac_bytes dst ++ mac_bytes d.mac) (tag_bytes tags),
          length-tag_bytes tags,
        ))

pub length-header_bytes :
    (d : Device) (dst type : ℕ) → HasTags d → length (header_bytes d dst type) ≡ encap_size d
unfolding bytes32 bytes16 encap_size
length-header_bytes d dst type h =
    let tags = take d.num_vlan_tags d.vlan in
    omega (
      arith,
      length-append (mac_bytes dst ++ mac_bytes d.mac ++ tag_bytes tags) (bytes16 type),
      length-append (mac_bytes dst ++ mac_bytes d.mac) (tag_bytes tags),
      length-tag_bytes tags,
      length-take d.num_vlan_tags d.vlan,
    )

-- With room for it, the header stands in front of the packet.
pub encap-contents :
    (d : Device) (dst type : ℕ) (p : PacketBuffer)
    → Fits p
    → HasTags d
    → encap_size d ≤ p.data'
    → contents (encap d dst type p) ≡ header_bytes d dst type ++ contents p
unfolding encap
encap-contents d dst type p fits tags room =
    let header = header_bytes d dst type in
    let size = length-header_bytes d dst type tags in
    let parts = Fits-Parts p fits in
    let before = take p.data' p.memory in
    let cut = p.data' - encap_size d in
    let front = take cut before in
    let old = drop cut before in
    let split =
      subst (λ (b : List ℕ). Parts p b (contents p) (drop p.tail p.memory))
        (sym (take-append-drop cut before)) parts in
    let old_size : length old ≡ length header =
      omega (arith, length-drop cut before, length-take p.data' p.memory, size) in
    ap contents (
      pointed-some (push_data (encap_size d) p) cut (record p { data' = cut }) _ _
        (push_data_room p (encap_size d) room)
      ∙ header-write d dst type cut (record p { data' = cut }))
    ∙ ap (λ (n : ℕ). contents (write n header (record p { data' = n }))) {x = cut}
        {y = p.data' - length header} (omega (arith, size))
    ∙ contents-Parts _ front (header ++ contents p) (drop p.tail p.memory)
        (push-Parts p front old (contents p) (drop p.tail p.memory) header split old_size)
