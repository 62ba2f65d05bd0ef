-- ===== src/Protocol/Sign/Tests.antt =====
-- Runs of `SignProtocol`, common/sign.cpp.
use ostinato.Base.{ℕ, ◌%◌, ◌^◌, ◌≡◌, refl, true, false, some, List, [], ◌∷◌, ◌++◌, arith, set}
use ostinato.Protocol.FrameValue.{frame_fields}
use ostinato.Protocol.Sign.{
  invalid_guid, ttag_type, SignProtocol, sign_fields, result, outside, scanned, byte_at,
  big_endian_at, guid_at, guid_loop, packet_guid, packet_ttag_id,
}
use ostinato.Protocol.Sign.Tlv.{Tlv, first_guid, all_tags}
use ostinato.Protocol.Sign.Trailer.{marked, scans-marked, scans-sign_bytes}

abbrev signed : SignProtocol
signed = record { port_id = 0x102; stream_guid = 0x5000007 }

abbrev two_tlvs : List Tlv
two_tlvs =
    record { value = 9 ∷ []; type_len = 0x23 }
    ∷ record { value = 1 ∷ 2 ∷ 3 ∷ []; type_len = 0x61 }
    ∷ []

-- The magic with no TLV behind it: the scan leaves the packet.
leaves_packet : packet_guid (0x22 ∷ 0x1d ∷ 0x10 ∷ 0xc0 ∷ 0xda ∷ []) ≡ outside
unfolding packet_guid guid_loop scanned byte_at big_endian_at guid_at
leaves_packet = refl

scans-marked_example :
    (packet_guid (marked (1 ∷ 2 ∷ []) two_tlvs) ≡ result (first_guid two_tlvs))
    × (packet_ttag_id (marked (1 ∷ 2 ∷ []) two_tlvs) 4 5
        ≡ result (all_tags two_tlvs (record { ret = false; ttag_id = 4; guid = invalid_guid })))
scans-marked_example = scans-marked (1 ∷ 2 ∷ []) two_tlvs 4 5 (
  record { type_byte = omega arith; not_end = λ e. omega arith; bytes = omega arith; sized = refl },
  (
    record {
      type_byte = omega arith;
      not_end = λ e. omega arith;
      bytes = omega arith;
      sized = refl;
    },
    tt,
  ),
)

scans-sign_bytes_example :
    (bytes : List ℕ) × (frame_fields false (sign_fields signed) 0 [] ≡ some bytes)
    × (packet_guid (3 ∷ 4 ∷ [] ++ bytes) ≡ result (some (signed.stream_guid % 2 ^ 24)))
    × (packet_ttag_id (3 ∷ 4 ∷ [] ++ bytes) 0 1
        ≡ result (record { ret = false; ttag_id = 0; guid = signed.stream_guid % 2 ^ 24 }))
    × (packet_ttag_id (3 ∷ 4 ∷ [] ++ set (set bytes 7 5) 8 ttag_type) 0 1
        ≡ result (record { ret = true; ttag_id = 5; guid = signed.stream_guid % 2 ^ 24 }))
scans-sign_bytes_example = scans-sign_bytes signed (3 ∷ 4 ∷ []) 5 0 1 (omega arith)
