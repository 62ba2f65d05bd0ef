-- ===== src/Protocol/Sign.antt =====
-- `SignProtocol` of common/sign.h and common/sign.cpp: the trailer that marks a packet of a stream,
-- and the two functions that read it from a packet, backwards from its end. A pointer into the
-- packet is the number of bytes up to and with the one it points to, so 0 is before the packet.
pub mod Tlv
pub mod Trailer
mod Tests
use Prim.Native.String.{String}
use ostinato.Base.{
  ℕ, zero, suc, ◌+◌, ◌-◌, ◌*◌, ◌/◌, ◌%◌, ◌^◌, bit_and, Bool, true, false, Option, none, some, List,
  [], ◌∷◌, ◌==◌, if◌then◌else◌, ltb, u8, u32, ◌>>>◌, length, get_elem?, get_or, drop,
}
use ostinato.Protocol.FrameValue.{Field}

abbrev pub sign_magic_value : ℕ
sign_magic_value = 0x1d10c0da

abbrev pub invalid_guid : ℕ
invalid_guid = 2 ^ 32 - 1

abbrev pub ttag_placeholder_type : ℕ
ttag_placeholder_type = 0x22

abbrev pub ttag_type : ℕ
ttag_type = 0x23

abbrev pub end_type : ℕ
end_type = 0x00

abbrev pub guid_type : ℕ
guid_type = 0x61

abbrev pub tx_port_type : ℕ
tx_port_type = 0x24

-- `samplefield`.
pub data SignField : Type 0 where
  sign_tlv_end sign_tlv_tx_port sign_tlv_guid sign_tlv_ttag sign_magic : SignField

-- The port of the stream, and the protocol's data.
pub record SignProtocol : Type 0 where
  pub port_id : ℕ
  pub stream_guid : ℕ

unfoldable pub guid_of : SignProtocol → ℕ
guid_of s = bit_and s.stream_guid 0xffffff

-- `qToBigEndian` of 32 bits.
unfoldable pub big_endian_bytes : ℕ → List ℕ
big_endian_bytes x = u8 (x >>> 24) ∷ u8 (x >>> 16) ∷ u8 (x >>> 8) ∷ u8 x ∷ []

-- The attributes of a field that `fieldData` is asked for; `other_attrib` is any other.
pub data FieldAttrib : Type 0 where
  field_name field_value field_text_value field_frame_value other_attrib : FieldAttrib

-- What `fieldData` returns: `decimal` is the text of a number, `inherited` what the base class returns.
pub data Variant : Type 0 where
  text : String → Variant
  decimal number : ℕ → Variant
  byte_array : List ℕ → Variant
  inherited : Variant

unfoldable pub field_data : SignProtocol → SignField → FieldAttrib → Variant
field_data s sign_magic field_name = text "Magic"
field_data s sign_magic field_value = number sign_magic_value
field_data s sign_magic field_text_value = decimal sign_magic_value
field_data s sign_magic field_frame_value = byte_array (big_endian_bytes sign_magic_value)
field_data s sign_tlv_ttag field_name = text "T-Tag"
field_data s sign_tlv_ttag field_value = number 0
field_data s sign_tlv_ttag field_text_value = decimal 0
field_data s sign_tlv_ttag field_frame_value = byte_array (0 ∷ ttag_placeholder_type ∷ [])
field_data s sign_tlv_tx_port field_name = text "TxPort"
field_data s sign_tlv_tx_port field_value = number s.port_id
field_data s sign_tlv_tx_port field_text_value = decimal s.port_id
field_data s sign_tlv_tx_port field_frame_value =
    byte_array (bit_and s.port_id 0xff ∷ tx_port_type ∷ [])
field_data s sign_tlv_guid field_name = text "Stream GUID"
field_data s sign_tlv_guid field_value = number (guid_of s)
field_data s sign_tlv_guid field_text_value = decimal (guid_of s)
field_data s sign_tlv_guid field_frame_value =
    let guid = guid_of s in
    byte_array (
      bit_and (guid >>> 16) 0xff
      ∷ bit_and (guid >>> 8) 0xff
      ∷ bit_and (guid >>> 0) 0xff
      ∷ guid_type
      ∷ [])
field_data s sign_tlv_end field_name = text "End TLV"
field_data s sign_tlv_end field_value = number 0
field_data s sign_tlv_end field_text_value = text "NA"
field_data s sign_tlv_end field_frame_value = byte_array (end_type ∷ [])
field_data s f other_attrib = inherited

-- `toByteArray`.
unfoldable pub to_byte_array : Variant → List ℕ
to_byte_array (byte_array bytes) = bytes
to_byte_array v = []

-- `setFieldData` of the GUID, from what `toUInt` gives; the other fields are fatal.
unfoldable pub set_guid : SignProtocol → Option ℕ → SignProtocol × Bool
set_guid s none = (s, false)
set_guid s (some guid) = (record s { stream_guid = bit_and guid 0xffffff }, true)

-- A field as the base class concatenates it: it has as many bits as its frame value.
unfoldable pub sign_field : SignProtocol → SignField → Field
sign_field s f =
    let value = to_byte_array (field_data s f field_frame_value) in
    record { is_frame = true; is_cksum = false; bit_size = length value * 8; value = value }

-- The fields by their index, from 0 to `fieldCount() - 1`.
unfoldable pub sign_fields : SignProtocol → List Field
sign_fields s =
    sign_field s sign_tlv_end
    ∷ sign_field s sign_tlv_tx_port
    ∷ sign_field s sign_tlv_guid
    ∷ sign_field s sign_tlv_ttag
    ∷ sign_field s sign_magic
    ∷ []

-- What a scan ends with: `outside` is a read before the start of the packet, which the source does
-- not guard against.
pub data Scanned {ℓ} (A : Type ℓ) : Type ℓ where
  result : A → Scanned A
  outside : Scanned A

-- `*p`.
unfoldable pub byte_at : List ℕ → ℕ → Option ℕ
byte_at pkt zero = none
byte_at pkt (suc i) = get_elem? pkt i

-- `qFromBigEndian<quint32>(p - 3)`.
unfoldable pub big_endian_at : List ℕ → ℕ → Option ℕ
big_endian_at pkt p =
    let at = λ (i : ℕ). get_or pkt i 0 in
    if ltb p 4
    then none
    else some (at (p - 4) * 2 ^ 24 + at (p - 3) * 2 ^ 16 + at (p - 2) * 2 ^ 8 + at (p - 1))

-- The value of a GUID TLV whose type is at `p`.
unfoldable pub guid_at : List ℕ → ℕ → Option ℕ
guid_at pkt p = elim (big_endian_at pkt p) [ none ↦ none | some word ↦ some (word >>> 8) ]

unfoldable pub scanned {ℓ κ} : {A : Type ℓ} {B : Type κ} → Option A → (A → Scanned B) → Scanned B
scanned none next = outside
scanned (some a) next = next a

-- The loop of `packetGuid`: the GUID, if it returns true. Each round moves back, so the bytes up
-- to `p` are fuel enough, and without fuel `p` is before the packet.
unfoldable pub guid_loop : ℕ → List ℕ → ℕ → Scanned (Option ℕ)
guid_loop zero pkt p = outside
guid_loop (suc fuel) pkt p = scanned (byte_at pkt p) (λ t.
    let rest = guid_loop fuel pkt (p - (1 + t >>> 5)) in
    if t == end_type
    then result none
    else if t == guid_type
    then scanned (guid_at pkt p) (λ guid. result (some guid))
    else rest)

unfoldable pub packet_guid : List ℕ → Scanned (Option ℕ)
packet_guid pkt = scanned (big_endian_at pkt (length pkt)) (λ magic.
    if magic == sign_magic_value then guid_loop (length pkt) pkt (length pkt - 4) else result none)

-- What `packetTtagId` returns, and what it writes.
pub record TtagId : Type 0 where
  pub ret : Bool
  pub ttag_id : ℕ
  pub guid : ℕ

-- The loop of `packetTtagId`, off Windows.
unfoldable pub ttag_loop : ℕ → List ℕ → ℕ → TtagId → Scanned TtagId
ttag_loop zero pkt p r = outside
ttag_loop (suc fuel) pkt p r = scanned (byte_at pkt p) (λ t.
    let q = p - (1 + t >>> 5) in
    let tagged =
      scanned (byte_at pkt (p - 1))
        (λ id. ttag_loop fuel pkt q (record r { ret = true; ttag_id = id })) in
    let named = scanned (guid_at pkt p) (λ guid. ttag_loop fuel pkt q (record r { guid = guid })) in
    let rest = ttag_loop fuel pkt q r in
    if t == end_type
    then result r
    else if t == ttag_type
    then tagged
    else if t == guid_type
    then named
    else rest)

-- With what the caller's two variables hold before.
unfoldable pub packet_ttag_id : List ℕ → ℕ → ℕ → Scanned TtagId
packet_ttag_id pkt ttag_id guid = scanned (big_endian_at pkt (length pkt)) (λ magic.
    if magic == sign_magic_value
    then ttag_loop (length pkt) pkt (length pkt - 4)
        (record { ret = false; ttag_id = ttag_id; guid = invalid_guid })
    else result (record { ret = false; ttag_id = ttag_id; guid = guid }))
