-- ===== src/Rpc/Wire.antt =====
-- rpc/pbrpc_core.h and rpc/pbrpc_core.cpp: the header codec, the frame encoder and the
-- incremental frame parser. A byte is a number below 256; a `ByteView` is a pointer with a size.
pub mod Codec
pub mod Scan
pub mod Stream
pub mod Chunks
pub mod Frames
use Prim.Native.String.{String}
use ostinato.Base.{
  ℕ, zero, suc, ◌+◌, ◌-◌, ◌*◌, ◌/◌, ◌%◌, ◌^◌, bit_or, ◌≡◌, Bool, true, false, not, ◌&&◌, ◌||◌,
  Option, none, some, List, [], ◌∷◌, ◌++◌, ltb, leb, ◌==◌, if◌then◌else◌, u8, u16, u32, ◌<<<◌,
  ◌>>>◌, length, get_or, take, drop,
}

abbrev pub header_size : ℕ
header_size = 8

abbrev pub default_max_payload : ℕ
default_max_payload = 0x7ffffff7

-- The enumerators of `MessageType`. A `Header` holds the raw 16 bits that stand for one.
abbrev pub request : ℕ
request = 1

abbrev pub response : ℕ
response = 2

abbrev pub binary_blob : ℕ
binary_blob = 3

abbrev pub error : ℕ
error = 4

abbrev pub notification : ℕ
notification = 5

-- A null pointer has a size too; a pointer to `size` bytes is the list of these bytes.
pub data ByteView : Type 0 where
  null : ℕ → ByteView
  bytes : List ℕ → ByteView

pub record Header : Type 0 where
  pub type : ℕ
  pub method : ℕ
  pub length : ℕ

pub record Frame : Type 0 where
  pub header : Header
  pub payload : List ℕ

unfoldable pub is_valid_message_type : ℕ → Bool
is_valid_message_type t = leb request t && leb t notification

unfoldable pub encode_header : ℕ → ℕ → ℕ → List ℕ
encode_header type method length =
    u8 (type >>> 8)
    ∷ u8 type
    ∷ u8 (method >>> 8)
    ∷ u8 method
    ∷ u8 (length >>> 24)
    ∷ u8 (length >>> 16)
    ∷ u8 (length >>> 8)
    ∷ u8 length
    ∷ []

-- The fields that `decodeHeader` reads from the first eight bytes.
unfoldable pub read_header : List ℕ → Header
read_header data' =
    let at = λ (i : ℕ). get_or data' i 0 in
    record {
      type = u16 (bit_or (at 0 <<< 8) (at 1));
      method = u16 (bit_or (at 2 <<< 8) (at 3));
      length =
          bit_or (bit_or (bit_or (u32 (at 4 <<< 24)) (u32 (at 5 <<< 16))) (u32 (at 6 <<< 8)))
            (at 7);
    }

-- `none` is the result false, which leaves the header as it was.
unfoldable pub decode_header : ByteView → Option Header
decode_header (null size) = none
decode_header (bytes data') =
    if ltb (length data') header_size then none else some (read_header data')

-- What `encodeFrame` throws.
pub data EncodeError : Type 0 where
  length_error invalid_argument : EncodeError

pub data Encoded : Type 0 where
  wire : List ℕ → Encoded
  throws : EncodeError → Encoded

unfoldable pub encode_frame : ℕ → ℕ → ByteView → Encoded
encode_frame type method (null size) =
    if ltb (2 ^ 32 - 1) size
    then throws length_error
    else if size == 0
    then wire (encode_header type method (u32 size))
    else throws invalid_argument
encode_frame type method (bytes payload) =
    if ltb (2 ^ 32 - 1) (length payload)
    then throws length_error
    else wire (encode_header type method (u32 (length payload)) ++ payload)

pub record FrameParser : Type 0 where
  pub max_payload : ℕ
  pub buffer : List ℕ
  pub frames : List Frame
  pub failed : Bool
  pub error_text : String

unfoldable pub new_parser : ℕ → FrameParser
new_parser max = record {
  max_payload = max;
  buffer = [];
  frames = [];
  failed = false;
  error_text = "";
}

unfoldable pub fail : FrameParser → String → FrameParser
fail p text = record p { failed = true; error_text = text }

unfoldable pub push_back : FrameParser → Frame → FrameParser
push_back p f = record p { frames = p.frames ++ f ∷ [] }

-- The frame that stands at `consumed` in the buffer.
unfoldable pub frame_at : FrameParser → ℕ → Header → Frame
frame_at p consumed header = record {
  header = header;
  payload = take header.length (drop (consumed + header_size) p.buffer);
}

-- The loop of `parse`: the parser and `consumed` when it stops. Each round consumes eight bytes or
-- more, so the size of the buffer is fuel enough.
unfoldable pub parse_loop : ℕ → FrameParser → ℕ → FrameParser × ℕ
parse_loop zero p consumed = (p, consumed)
parse_loop (suc fuel) p consumed =
    let header = read_header (drop consumed p.buffer) in
    let frame_size = header_size + header.length in
    let rest = parse_loop fuel (push_back p (frame_at p consumed header)) (consumed + frame_size) in
    if ltb (length p.buffer - consumed) header_size
    then (p, consumed)
    else if not (is_valid_message_type header.type)
    then (fail p "invalid RPC message type", consumed)
    else if ltb p.max_payload header.length
    then (fail p "RPC payload exceeds configured maximum", consumed)
    else if ltb (length p.buffer - consumed) frame_size
    then (p, consumed)
    else rest

unfoldable pub parse : FrameParser → FrameParser
parse p =
    let (q, consumed) = parse_loop (length p.buffer) p 0 in
    record q { buffer = drop consumed q.buffer }

-- The new parser; the result of `push` is `not` its `failed`.
unfoldable pub push : FrameParser → ByteView → FrameParser
push p (null size) = if p.failed then p else if size == 0 then parse p else fail p "null input"
push p (bytes data') = if p.failed then p else parse (record p { buffer = p.buffer ++ data' })

-- `none` is the exception out_of_range.
pop_list : FrameParser → List Frame → Option (Frame × FrameParser)
pop_list p [] = none
pop_list p (f ∷ rest) = some (f, record p { frames = rest })

unfoldable pub pop_frame : FrameParser → Option (Frame × FrameParser)
unfolding pop_list
pop_frame p = pop_list p p.frames

unfoldable pub reset : FrameParser → FrameParser
reset p = record p { buffer = []; frames = []; failed = false; error_text = "" }
