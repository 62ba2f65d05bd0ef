-- ===== src/Protocol/Sign/Trailer.antt =====
-- The packets that `SignProtocol` of common/sign.cpp marks, as its two scans read them.
use ostinato.Base.{
  ℕ, ◌+◌, ◌-◌, ◌*◌, ◌%◌, ◌^◌, ◌<◌, bit_and, ◌≡◌, refl, ap, sym, ◌∙◌, true, false, some, List, [],
  ◌∷◌, ◌++◌, append_assoc, arith, All, length, length-append, set, ◌⊎◌, inl, inr, ◌>>>◌,
}
use ostinato.Base.Bits.{bit_and_mask}
use ostinato.Protocol.FrameValue.{
  frame_fields, field_bytes, whole_field, part_field, shift_left, straddle, merge, or_last,
}
use ostinato.Protocol.Sign.{
  sign_magic_value, invalid_guid, guid_type, ttag_type, ttag_placeholder_type, tx_port_type,
  SignProtocol, guid_of, big_endian_bytes, field_data, to_byte_array, sign_field, sign_fields,
  result, scanned, big_endian_at, packet_guid, packet_ttag_id,
}
use ostinato.Protocol.Sign.Tlv.{
  Tlv, IsTlv, stacked, first_guid, all_tags, guid_value, scanned-some, big_endian_at-append,
  guid_loop-stacked, ttag_loop-stacked,
}

-- A packet that ends with TLVs and the magic.
abbrev pub marked : List ℕ → List Tlv → List ℕ
marked pre ts = stacked pre ts ++ big_endian_bytes sign_magic_value

magic_at_end :
    (pre : List ℕ) (ts : List Tlv)
    → big_endian_at (marked pre ts) (length (marked pre ts)) ≡ some sign_magic_value
unfolding big_endian_bytes
magic_at_end pre ts =
    big_endian_at-append (stacked pre ts) 0x1d 0x10 0xc0 0xda [] _
      (length-append (stacked pre ts) (0x1d ∷ 0x10 ∷ 0xc0 ∷ 0xda ∷ []))

-- On a packet that ends with an end TLV, TLVs of any types and lengths and the magic, both scans stay
-- inside the packet. `packetGuid` finds the GUID nearest to the magic, if there is one;
-- `packetTtagId` finds whether there is a T-Tag, and the T-Tag and the GUID farthest from the magic.
pub scans-marked :
    (pre : List ℕ) (ts : List Tlv) (ttag_id guid : ℕ)
    → All IsTlv ts
    → (packet_guid (marked pre ts) ≡ result (first_guid ts))
      × (packet_ttag_id (marked pre ts) ttag_id guid
          ≡ result (all_tags ts (record { ret = false; ttag_id = ttag_id; guid = invalid_guid })))
unfolding packet_guid packet_ttag_id scanned big_endian_bytes
scans-marked pre ts ttag_id guid all =
    let P = marked pre ts in
    let long = length-append (stacked pre ts) (0x1d ∷ 0x10 ∷ 0xc0 ∷ 0xda ∷ []) in
    (
      scanned-some (big_endian_at P (length P)) sign_magic_value _ (magic_at_end pre ts)
          ∙ guid_loop-stacked P pre ts _ (length P) (length P - 4) refl all (omega (arith, long))
              (omega arith),
      scanned-some (big_endian_at P (length P)) sign_magic_value _ (magic_at_end pre ts)
          ∙ ttag_loop-stacked P pre ts _ (length P) (length P - 4) _ refl all (omega (arith, long))
              (omega arith),
    )

stacked-append : (pre : List ℕ) (ts : List Tlv) → stacked pre ts ≡ pre ++ stacked [] ts
unfolding stacked
stacked-append pre [] = refl
stacked-append pre (t ∷ ts) =
    ap (λ (l : List ℕ). l ++ t.value ++ t.type_len ∷ []) (stacked-append pre ts)
    ∙ ap (λ (l : List ℕ). l ++ t.type_len ∷ []) (append_assoc pre (stacked [] ts) t.value)
    ∙ append_assoc pre (stacked [] ts ++ t.value) (t.type_len ∷ [])

-- The TLVs of the protocol, with this byte in the T-Tag.
abbrev sign_tlvs : SignProtocol → ℕ → ℕ → List Tlv
sign_tlvs s tag type =
    record { value = tag ∷ []; type_len = type }
    ∷ record {
      value =
          bit_and (guid_of s >>> 16) 0xff
          ∷ bit_and (guid_of s >>> 8) 0xff
          ∷ bit_and (guid_of s >>> 0) 0xff
          ∷ [];
      type_len = guid_type;
    }
    ∷ record { value = bit_and s.port_id 0xff ∷ []; type_len = tx_port_type }
    ∷ []

-- The bytes that the base class makes of the fields.
sign_bytes :
    (s : SignProtocol)
    → frame_fields false (sign_fields s) 0 []
      ≡ some (marked [] (sign_tlvs s 0 ttag_placeholder_type))
unfolding frame_fields field_bytes whole_field part_field shift_left straddle merge or_last stacked
    sign_fields sign_field field_data to_byte_array big_endian_bytes
sign_bytes s = refl

mask-lt : (x : ℕ) → bit_and x 0xff < 256
mask-lt x = omega (arith, bit_and_mask 8 x)

sign_tlvs-IsTlv :
    (s : SignProtocol) (tag type : ℕ)
    → tag < 256
    → type ≡ 0x22 ⊎ type ≡ 0x23
    → All IsTlv (sign_tlvs s tag type)
sign_tlvs-IsTlv s tag type h either =
    let tag_tlv : IsTlv (record { value = tag ∷ []; type_len = type }) = record {
      type_byte = ground arith;
      not_end = λ e. ground arith;
      bytes = (h, tt);
      sized = ground arith;
    } in
    (
      tag_tlv,
      (
        record {
          type_byte = omega arith;
          not_end = λ e. omega arith;
          bytes = (mask-lt _, (mask-lt _, (mask-lt _, tt)));
          sized = refl;
        },
        (
          record {
            type_byte = omega arith;
            not_end = λ e. omega arith;
            bytes = (mask-lt _, tt);
            sized = refl;
          },
          tt,
        ),
      ),
    )

-- The three bytes of the GUID are its 24 bits.
guid_bytes :
    (s : SignProtocol)
    → bit_and (guid_of s >>> 16) 0xff * 2 ^ 16
        + bit_and (guid_of s >>> 8) 0xff * 2 ^ 8
        + bit_and (guid_of s >>> 0) 0xff
      ≡ s.stream_guid % 2 ^ 24
unfolding guid_of
guid_bytes s =
    let x = s.stream_guid in
    omega (
      arith,
      bit_and_mask 24 x,
      bit_and_mask 8 (bit_and x 0xffffff >>> 16),
      bit_and_mask 8 (bit_and x 0xffffff >>> 8),
      bit_and_mask 8 (bit_and x 0xffffff >>> 0),
    )

marked_at_end : (payload : List ℕ) (ts : List Tlv) → payload ++ marked [] ts ≡ marked payload ts
marked_at_end payload ts =
    sym (append_assoc payload (stacked [] ts) _)
    ∙ ap (λ (l : List ℕ). l ++ big_endian_bytes sign_magic_value) (sym (stacked-append payload ts))

-- The bytes that `protocolFrameValue` makes of the fields of the protocol, at the end of any packet,
-- are read back: `packetGuid` and `packetTtagId` give the lower 24 bits of the stream's GUID, and the
-- latter finds no T-Tag. Once the T-Tag placeholder is overwritten, it finds that T-Tag too.
pub scans-sign_bytes :
    (s : SignProtocol) (payload : List ℕ) (tag ttag_id guid : ℕ)
    → tag < 256
    → (bytes : List ℕ) × (frame_fields false (sign_fields s) 0 [] ≡ some bytes)
      × (packet_guid (payload ++ bytes) ≡ result (some (s.stream_guid % 2 ^ 24)))
      × (packet_ttag_id (payload ++ bytes) ttag_id guid
          ≡ result (record { ret = false; ttag_id = ttag_id; guid = s.stream_guid % 2 ^ 24 }))
      × (packet_ttag_id (payload ++ set (set bytes 7 tag) 8 ttag_type) ttag_id guid
          ≡ result (record { ret = true; ttag_id = tag; guid = s.stream_guid % 2 ^ 24 }))
unfolding first_guid all_tags guid_value stacked
scans-sign_bytes s payload tag ttag_id guid h =
    let plain =
      scans-marked payload (sign_tlvs s 0 ttag_placeholder_type) ttag_id guid
        (sign_tlvs-IsTlv s 0 ttag_placeholder_type (omega arith) (inl refl)) in
    let tagged =
      scans-marked payload (sign_tlvs s tag ttag_type) ttag_id guid
        (sign_tlvs-IsTlv s tag ttag_type h (inr refl)) in
    let at = marked_at_end payload in
    let placeholder = sign_tlvs s 0 ttag_placeholder_type in
    (
      marked [] placeholder,
      sign_bytes s,
      ap packet_guid (at placeholder) ∙ plain.0 ∙ ap (λ (g : ℕ). result (some g)) (guid_bytes s),
      ap (λ (p : List ℕ). packet_ttag_id p ttag_id guid) (at placeholder)
          ∙ plain.1
          ∙ ap (λ (g : ℕ). result (record { ret = false; ttag_id = ttag_id; guid = g }))
              (guid_bytes s),
      ap (λ (p : List ℕ). packet_ttag_id p ttag_id guid) (at (sign_tlvs s tag ttag_type))
          ∙ tagged.1
          ∙ ap (λ (g : ℕ). result (record { ret = true; ttag_id = tag; guid = g })) (guid_bytes s),
    )
