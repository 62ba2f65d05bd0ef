-- ===== src/Protocol/FrameValue.antt =====
-- `AbstractProtocol::protocolFrameValue` of common/abstractprotocol.cpp up to the variable fields.
-- What the virtual functions `fieldFlags` and `fieldData` return for each index is a parameter.
pub mod Bytes
pub mod Shift
pub mod Merge
pub mod Concat
use ostinato.Base.{
  ℕ, zero, suc, ◌+◌, ◌-◌, ◌*◌, ◌/◌, ◌%◌, bit_or, Bool, true, false, not, ◌&&◌, ◌||◌, Option, none,
  some, List, [], ◌∷◌, ◌++◌, ltb, ◌==◌, if◌then◌else◌, u8, ◌<<<◌, ◌>>>◌, length, replicate,
}

pub record Field : Type 0 where
  pub is_frame : Bool
  pub is_cksum : Bool
  pub bit_size : ℕ
  pub value : List ℕ

-- The bytes that the field contributes.
unfoldable pub field_bytes : Bool → Field → List ℕ
field_bytes for_cksum f =
    if for_cksum && f.is_cksum then replicate ((f.bit_size + 7) / 8) 0 else f.value

-- `proto[proto.size() - 1] = proto[proto.size() - 1] | b`.
unfoldable pub or_last : List ℕ → ℕ → List ℕ
or_last [] b = []
or_last (x ∷ []) b = bit_or x b ∷ []
or_last (x ∷ y ∷ rest) b = x ∷ or_last (y ∷ rest) b

-- The loop over the bytes of a field of whole bytes, for a position inside a byte.
unfoldable pub straddle : ℕ → List ℕ → List ℕ
straddle pos [] = []
straddle pos (x ∷ []) = u8 (x <<< pos) ∷ []
straddle pos (x ∷ y ∷ rest) = bit_or (u8 (x <<< pos)) (y >>> pos) ∷ straddle pos (y ∷ rest)

-- The bytes `c` of both loops over a field that has `v` unused bits.
unfoldable pub shift_left : ℕ → List ℕ → List ℕ
shift_left v [] = []
shift_left v (x ∷ []) = u8 (x <<< v) ∷ []
shift_left v (x ∷ y ∷ rest) = bit_or (u8 (x <<< v)) (y >>> (8 - v)) ∷ shift_left v (y ∷ rest)

-- The second of these loops: `j` counts the bytes `c`.
unfoldable pub merge : ℕ → ℕ → ℕ → ℕ → List ℕ → List ℕ → List ℕ
merge pos bits v j [] proto = proto
merge pos bits v j (c ∷ cs) proto =
    let merged = or_last proto (c >>> pos) in
    if ltb (8 * j + (8 - v)) bits
    then merge pos bits v (suc j) cs (merged ++ u8 (c <<< (8 - pos)) ∷ [])
    else merge pos bits v (suc j) cs merged

unfoldable pub whole_field : ℕ → List ℕ → List ℕ → List ℕ
whole_field pos [] proto = proto
whole_field pos (x ∷ xs) proto =
    if pos == 0 then proto ++ x ∷ xs else or_last proto (x >>> pos) ++ straddle pos (x ∷ xs)

unfoldable pub part_field : ℕ → ℕ → List ℕ → List ℕ → List ℕ
part_field pos bits field proto =
    let v = length field * 8 - bits in
    if pos == 0 then proto ++ shift_left v field else merge pos bits v 0 (shift_left v field) proto

-- The loop over the fields: `none` where the code aborts, by an assertion or by `qFatal`.
unfoldable pub frame_fields : Bool → List Field → ℕ → List ℕ → Option (List ℕ)
frame_fields for_cksum [] pos proto = some proto
frame_fields for_cksum (f ∷ fs) pos proto =
    let field = field_bytes for_cksum f in
    let bits = f.bit_size in
    let skipped = frame_fields for_cksum fs pos proto in
    let whole = frame_fields for_cksum fs pos (whole_field pos field proto) in
    let part = frame_fields for_cksum fs ((pos + bits) % 8) (part_field pos bits field proto) in
    if not f.is_frame || bits == 0
    then skipped
    else if bits == length field * 8
    then whole
    else if ltb bits (length field * 8)
    then if ltb (length field * 8 - bits) 8 then part else none
    else none
