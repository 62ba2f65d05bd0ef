-- ===== src/Protocol/Vary.antt =====
-- The variable fields of common/abstractprotocol.cpp: `varyCounter`, `varyProtocolFrameValue` and
-- the second loop of `protocolFrameValue`. The fields of `OstProto::VariableField` have 32 bits.
pub mod Local
use ostinato.Base.{
  ℕ, zero, suc, ◌+◌, ◌-◌, ◌*◌, ◌/◌, ◌%◌, ◌^◌, bit_and, bit_or, Bool, true, false, Option, none,
  some, List, [], ◌∷◌, ◌++◌, ltb, ◌==◌, if◌then◌else◌, u32, u8, ◌<<<◌, ◌>>>◌, length, get_or, take,
  drop,
}
use ostinato.Protocol.FrameValue.{Field, frame_fields}

pub data CounterType : Type 0 where
  counter8 counter16 counter32 : CounterType
  other_type : ℕ → CounterType

pub data Mode : Type 0 where
  increment decrement random : Mode
  other_mode : ℕ → Mode

-- `random_value` is what `qrand` returns when this field is varied.
pub record VariableField : Type 0 where
  pub type : CounterType
  pub offset : ℕ
  pub mask : ℕ
  pub value : ℕ
  pub mode : Mode
  pub count : ℕ
  pub step : ℕ
  pub random_value : ℕ

-- A number of `size` bytes in network order.
unfoldable pub read_big_endian : List ℕ → ℕ
read_big_endian [] = 0
read_big_endian (b ∷ bs) = b * 256 ^ length bs + read_big_endian bs

unfoldable pub write_big_endian : ℕ → ℕ → List ℕ
write_big_endian zero v = []
write_big_endian (suc size) v = u8 (v / 256 ^ size) ∷ write_big_endian size v

-- The number that is masked into the field: `none` for another mode.
unfoldable pub varied : VariableField → ℕ → Option ℕ
varied f x = elim f.mode [
  | increment ↦ some (u32 (f.value + x))
  | decrement ↦ some (u32 (f.value + (2 ^ 32 - x)))
  | random ↦ some (u32 (f.value + f.random_value))
  | other_mode m ↦ none
]

-- `varyCounter` for a type of `size` bytes. A count of zero, by which the code divides, is left to
-- the caller: see `vary_field`.
unfoldable pub vary_counter : ℕ → List ℕ → ℕ → VariableField → List ℕ
vary_counter size buf index f =
    let x = u32 (index % f.count * f.step) in
    let old = read_big_endian (take size (drop f.offset buf)) in
    let varied_buf : List ℕ = elim (varied f x) [
      | none ↦ buf
      | some v ↦
          take f.offset buf
          ++ write_big_endian size (bit_or (bit_and old (2 ^ 32 - 1 - f.mask)) (bit_and v f.mask))
          ++ drop (f.offset + size) buf
    ] in
    if ltb (length buf) (f.offset + size) then buf else varied_buf

-- `varyProtocolFrameValue`: `none` where a count of zero ends the program.
unfoldable pub vary_field : List ℕ → ℕ → VariableField → Option (List ℕ)
vary_field buf index f =
    let sized : Option (List ℕ) = elim f.type [
      | counter8 ↦ some (vary_counter 1 buf index f)
      | counter16 ↦ some (vary_counter 2 buf index f)
      | counter32 ↦ some (vary_counter 4 buf index f)
      | other_type t ↦ some buf
    ] in
    let known : Bool = elim f.type [ other_type t ↦ false | _ ↦ true ] in
    if known then (if f.count == 0 then none else sized) else some buf

unfoldable pub vary_fields : List VariableField → ℕ → List ℕ → Option (List ℕ)
vary_fields [] index buf = some buf
vary_fields (f ∷ fs) index buf = elim (vary_field buf index f) [
  | none ↦ none
  | some varied_buf ↦ vary_fields fs index varied_buf
]

-- `protocolFrameValue`.
unfoldable pub protocol_frame_value : Bool → List Field → List VariableField → ℕ → Option (List ℕ)
protocol_frame_value for_cksum fields variable index = elim (frame_fields for_cksum fields 0 []) [
  | none ↦ none
  | some proto ↦ vary_fields variable index proto
]
