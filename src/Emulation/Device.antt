-- ===== src/Emulation/Device.antt =====
-- `Device` of server/device.h and server/device.cpp, with the two tables of `EmulDevice`: what an
-- emulated device is, its key, and the neighbors that it knows. An IPv6 address is the key of its
-- table by its number.
use ostinato.Base.{
  ℕ, ◌+◌, ◌-◌, ◌*◌, ◌^◌, bit_and, bit_or, Bool, true, false, Option, none, some, List, [], ◌∷◌, leb,
  ◌==◌, if◌then◌else◌, u32, ◌<<<◌, ◌>>>◌, replicate, set,
}
use ostinato.Base.OrderedMap.{lookup}
use ostinato.Protocol.Uint128.{Uint128, uint128, complement, conjunction, shift_up, equal}
use ostinato.Protocol.Uint128.{half_to_bytes}
use ostinato.Emulation.PacketBuffer.{store}

abbrev pub max_vlan : ℕ
max_vlan = 4

abbrev pub vlan_tpid : ℕ
vlan_tpid = 0x8100

pub record Device : Type 0 where
  pub num_vlan_tags : ℕ
  pub vlan : List ℕ
  pub mac : ℕ
  pub has_ip4 : Bool
  pub ip4 : ℕ
  pub ip4_gateway : ℕ
  pub ip4_mask : ℕ
  pub ip4_subnet : ℕ
  pub has_ip6 : Bool
  pub ip6 : Uint128
  pub ip6_gateway : Uint128
  pub ip6_mask : Uint128
  pub ip6_subnet : Uint128
  pub key : List ℕ
  pub arp_table : List (ℕ × ℕ)
  pub ndp_table : List (ℕ × ℕ)

-- `key_.fill(0, ...)`.
unfoldable pub clear_key : List ℕ
clear_key = replicate 16 0

-- The constructor; what it leaves undefined is 0 here, and is read only after `set_ip4`, `set_ip6`.
unfoldable pub new_device : Device
new_device = record {
  num_vlan_tags = 0;
  vlan = replicate max_vlan 0;
  mac = 0;
  has_ip4 = false;
  ip4 = 0;
  ip4_gateway = 0;
  ip4_mask = 0;
  ip4_subnet = 0;
  has_ip6 = false;
  ip6 = uint128 0 0;
  ip6_gateway = uint128 0 0;
  ip6_mask = uint128 0 0;
  ip6_subnet = uint128 0 0;
  key = clear_key;
  arp_table = [];
  ndp_table = [];
}

-- An index is not negative.
unfoldable pub set_vlan : ℕ → ℕ → ℕ → Device → Device
set_vlan index vlan tpid d =
    let ofs = index * 2 in
    if leb max_vlan index then d else record d {
      vlan = set d.vlan index (bit_or (u32 (tpid <<< 16)) vlan);
      key = store ofs (bit_and (vlan >>> 8) 0x0f ∷ bit_and vlan 0xff ∷ []) d.key;
      num_vlan_tags = if leb d.num_vlan_tags index then index + 1 else d.num_vlan_tags;
    }

unfoldable pub set_mac : ℕ → Device → Device
set_mac mac d =
    let kept = bit_and mac (2 ^ 48 - 1) in
    record d { mac = kept; key = store (max_vlan * 2) (half_to_bytes kept) d.key }

-- A prefix length is 1 to 32: a shift by 32 is undefined in the source.
unfoldable pub set_ip4 : ℕ → ℕ → ℕ → Device → Device
set_ip4 address prefix_length gateway d =
    let mask = u32 ((2 ^ 32 - 1) <<< (32 - prefix_length)) in
    record d {
      ip4 = address;
      ip4_gateway = gateway;
      has_ip4 = true;
      ip4_mask = mask;
      ip4_subnet = bit_and address mask;
    }

-- A prefix length is 1 to 127: the others shift by 128 or by 0.
unfoldable pub set_ip6 : Uint128 → ℕ → Uint128 → Device → Device
set_ip6 address prefix_length gateway d =
    let mask = shift_up (complement (uint128 0 0)) (128 - prefix_length) in
    record d {
      ip6 = address;
      ip6_gateway = gateway;
      has_ip6 = true;
      ip6_mask = mask;
      ip6_subnet = conjunction address mask;
    }

-- `QHash::value`: 0 where there is no entry.
unfoldable pub value_or_zero : Option ℕ → ℕ
value_or_zero none = 0
value_or_zero (some v) = v

unfoldable pub arp_lookup : ℕ → Device → ℕ
arp_lookup ip d = value_or_zero (lookup ip d.arp_table)

abbrev pub ndp_key : Uint128 → ℕ
ndp_key ip = ip.hi * 2 ^ 64 + ip.lo

unfoldable pub ndp_lookup : Uint128 → Device → ℕ
ndp_lookup ip d = value_or_zero (lookup (ndp_key ip) d.ndp_table)

-- The address that a packet for this one is sent to.
unfoldable pub ip4_next_hop : ℕ → Device → ℕ
ip4_next_hop dst_ip d = if bit_and dst_ip d.ip4_mask == d.ip4_subnet then dst_ip else d.ip4_gateway

unfoldable pub ip6_next_hop : Uint128 → Device → Uint128
ip6_next_hop dst_ip d =
    if equal (conjunction dst_ip d.ip6_mask) d.ip6_subnet then dst_ip else d.ip6_gateway

-- The two values of `NeighborSet`.
pub data NeighborSet : Type 0 where
  all_neighbors unresolved_neighbors : NeighborSet

-- The loop that removes the entries with the value 0.
unfoldable pub resolved_only : List (ℕ × ℕ) → List (ℕ × ℕ)
resolved_only [] = []
resolved_only ((ip, mac) ∷ table) =
    let rest = resolved_only table in if mac == 0 then rest else (ip, mac) ∷ rest

unfoldable pub clear_neighbors : NeighborSet → Device → Device
clear_neighbors all_neighbors d = record d { arp_table = []; ndp_table = [] }
clear_neighbors unresolved_neighbors d = record d {
  arp_table = resolved_only d.arp_table;
  ndp_table = resolved_only d.ndp_table;
}
