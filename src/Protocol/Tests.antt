-- ===== src/Protocol/Tests.antt =====
-- Runs of the protocol code on small inputs, and its theorems at inputs that meet their hypotheses.
use ostinato.Base.{
  ℕ, ◌+◌, ◌-◌, ◌*◌, ◌%◌, ◌^◌, ◌<◌, ◌≡◌, refl, inr, true, false, none, some, List, [], ◌∷◌, ◌++◌,
  arith, take, drop,
}
use ostinato.Protocol.FrameValue.{
  Field, field_bytes, or_last, straddle, shift_left, merge, whole_field, part_field, frame_fields,
}
use ostinato.Protocol.FrameValue.Bytes.{bits_of}
use ostinato.Protocol.FrameValue.Concat.{no_more, whole, part, FramedAs, frame_fields-FramedAs}
use ostinato.Protocol.Checksum.{
  word_sum, fold, fold_all, complement16, swap16, ip_cksum, tcp_udp_cksum, icmp_igmp_cksum,
  payload_cksum,
}
use ostinato.Protocol.Checksum.Sum.{network_sum, ip_cksum-network_sum}
use ostinato.Protocol.Checksum.Combine.{
  nothing, next, after, payload_cksum-network_sum, transport_cksum,
}
use ostinato.Protocol.Gcd.{strip_both, strip, gcd_loop, gcd, lcm}
use ostinato.Protocol.Gcd.Divides.{Divides, IsGcd}
use ostinato.Protocol.Gcd.Stein.{gcd-IsGcd}
use ostinato.Protocol.Gcd.Lcm.{lcm-gcd}
use ostinato.Protocol.Vary.{
  VariableField, counter16, increment, read_big_endian, write_big_endian, varied, vary_counter,
  vary_field, vary_fields, protocol_frame_value,
}
use ostinato.Protocol.Vary.Local.{
  SameOutside, vary_counter-SameOutside, word, vary_counter-increment,
}

-- The first fields of an IPv6 header: version, traffic class and flow label.
abbrev version : Field
version = record { is_frame = true; is_cksum = false; bit_size = 4; value = 6 ∷ [] }

abbrev traffic_class : Field
traffic_class = record { is_frame = true; is_cksum = false; bit_size = 8; value = 0xab ∷ [] }

abbrev flow_label : Field
flow_label = record {
  is_frame = true;
  is_cksum = false;
  bit_size = 20;
  value = 0x01 ∷ 0x23 ∷ 0x45 ∷ [];
}

abbrev ip6_fields : List Field
ip6_fields = version ∷ traffic_class ∷ flow_label ∷ []

ip6_bytes : frame_fields false ip6_fields 0 [] ≡ some (0x6a ∷ 0xb1 ∷ 0x23 ∷ 0x45 ∷ [])
unfolding frame_fields field_bytes whole_field part_field shift_left straddle merge or_last
ip6_bytes = refl

-- Eight bits that begin at the third bit of a byte: the last byte would be 0xe0.
three_then_eight :
    frame_fields false
      (record { is_frame = true; is_cksum = false; bit_size = 3; value = 5 ∷ [] }
        ∷ record { is_frame = true; is_cksum = false; bit_size = 8; value = 0xff ∷ [] }
        ∷ [])
      0
      []
    ≡ some (0xbf ∷ 0xf8 ∷ [])
unfolding frame_fields field_bytes whole_field part_field shift_left straddle merge or_last
three_then_eight = refl

frame_fields-FramedAs_example : FramedAs false ip6_fields 0 [] (
    drop 4 (bits_of (6 ∷ []))
    ++ bits_of (0xab ∷ [])
    ++ drop 4 (bits_of (0x01 ∷ 0x23 ∷ 0x45 ∷ []))
    ++ [])
unfolding field_bytes
frame_fields-FramedAs_example = frame_fields-FramedAs false ip6_fields _ (
    part 0 version refl (omega arith, tt) (omega arith) (omega arith) (omega arith)
      (whole 4 traffic_class refl (omega arith, tt) refl (inr refl)
        (part 4 flow_label refl (ground arith) (omega arith) (omega arith) (omega arith)
          (no_more 0))))

-- The header of RFC 1071's kind: a checksum over an odd number of bytes.
abbrev odd_bytes : List ℕ
odd_bytes = 0x45 ∷ 0x00 ∷ 0x1c ∷ []

odd_cksum : ip_cksum odd_bytes ≡ 0x9eff
unfolding ip_cksum word_sum fold fold_all complement16 swap16
odd_cksum = refl

ip_cksum-network_sum_example :
    (ip_cksum odd_bytes < 65536) × ((network_sum false odd_bytes + ip_cksum odd_bytes) % 65535 ≡ 0)
ip_cksum-network_sum_example = ip_cksum-network_sum odd_bytes (ground arith)

payload_cksum-network_sum_example :
    let c =
      payload_cksum false
        (record { value = odd_bytes; odd_offset = false }
          ∷ record { value = 1 ∷ 2 ∷ []; odd_offset = true }
          ∷ [])
        none in
    (c < 65536) × ((network_sum false (odd_bytes ++ (1 ∷ 2 ∷ []) ++ []) + c) % 65535 ≡ 0)
unfolding after
payload_cksum-network_sum_example =
    payload_cksum-network_sum odd_bytes false
      (record { value = 1 ∷ 2 ∷ []; odd_offset = true } ∷ []) ((1 ∷ 2 ∷ []) ++ []) (ground arith)
      (next true (1 ∷ 2 ∷ []) (ground arith) nothing) (omega arith)

transport_cksum_example :
    let payload =
      payload_cksum false (record { value = odd_bytes; odd_offset = false } ∷ []) none in
    let sum = network_sum false ((7 ∷ 8 ∷ []) ++ (odd_bytes ++ [])) in
    ((sum + (65535 - 5) + tcp_udp_cksum (ip_cksum (7 ∷ 8 ∷ [])) payload 5) % 65535 ≡ 0)
    × ((sum + icmp_igmp_cksum (ip_cksum (7 ∷ 8 ∷ [])) payload) % 65535 ≡ 0)
unfolding after
transport_cksum_example =
    transport_cksum (7 ∷ 8 ∷ []) odd_bytes false [] [] 5 (ground arith) refl (ground arith) nothing
      (omega arith) (omega arith)

gcd_run : gcd 48 36 ≡ 12
unfolding gcd strip_both strip gcd_loop
gcd_run = refl

gcd-IsGcd_example : IsGcd (gcd 48 36) 48 36
gcd-IsGcd_example = gcd-IsGcd 48 36 (omega arith) (omega arith)

lcm-gcd_example :
    Divides 48 (lcm 48 36) × Divides 36 (lcm 48 36) × (lcm 48 36 * gcd 48 36 ≡ 48 * 36)
lcm-gcd_example =
    lcm-gcd 48 36 (omega arith) (omega arith) (omega arith) (omega arith) (omega arith)

abbrev counting : VariableField
counting = record {
  type = counter16;
  offset = 2;
  mask = 0xffff;
  value = 0xfffe;
  mode = increment;
  count = 4;
  step = 1;
  random_value = 0;
}

varied_header :
    protocol_frame_value false ip6_fields (counting ∷ []) 7 ≡ some (0x6a ∷ 0xb1 ∷ 0x00 ∷ 0x01 ∷ [])
unfolding protocol_frame_value frame_fields field_bytes whole_field part_field shift_left straddle
    merge or_last vary_fields vary_field vary_counter varied read_big_endian write_big_endian
varied_header = refl

vary_counter-SameOutside_example :
    SameOutside 2 2 (1 ∷ 2 ∷ 3 ∷ []) (vary_counter 2 (1 ∷ 2 ∷ 3 ∷ []) 7 counting)
    × (3 < 4 → vary_counter 2 (1 ∷ 2 ∷ 3 ∷ []) 7 counting ≡ 1 ∷ 2 ∷ 3 ∷ [])
vary_counter-SameOutside_example = vary_counter-SameOutside 2 (1 ∷ 2 ∷ 3 ∷ []) 7 counting

vary_counter-increment_example :
    read_big_endian (take 2 (drop 2 (vary_counter 2 (1 ∷ 2 ∷ 3 ∷ 4 ∷ []) 7 counting)))
    ≡ (0xfffe + 7 % 4 * 1) % 256 ^ 2
vary_counter-increment_example =
    vary_counter-increment 2 0xffff (1 ∷ 2 ∷ 3 ∷ 4 ∷ []) 7 counting word refl refl (ground arith)
      (omega arith)
