-- ===== src/Rpc/Wire/Codec.antt =====
-- `encodeHeader`, `decodeHeader` and `encodeFrame` of rpc/pbrpc_core.cpp against each other.
use ostinato.Base.{
  ℕ, ◌+◌, ◌*◌, ◌^◌, ◌≤◌, ◌<◌, bit_or, ◌≡◌, ◌⊎◌, inl, inr, refl, ap, ◌∙◌, none, some, List, [], ◌∷◌,
  ◌++◌, arith, All, length, take, length-append, dec_lt, u8, u16, u32, ◌<<<◌, ◌>>>◌,
}
use ostinato.Base.Bits.{bit_or-eq-add}
use ostinato.Rpc.Wire.{bytes, Header, encode_header, read_header, decode_header}

abbrev pub IsByte : ℕ → Type 0
IsByte b = b < 256

-- A header whose fields fit the widths of the struct.
abbrev pub IsHeader : Header → Type 0
IsHeader h = (h.type < 2 ^ 16) × (h.method < 2 ^ 16) × (h.length < 2 ^ 32)

-- Two and four bytes in network order, as `decodeHeader` puts them together.
pub big_endian16 : (a b : ℕ) → a < 256 → b < 256 → u16 (bit_or (a <<< 8) b) ≡ a * 256 + b
big_endian16 a b ha hb = rw (bit_or-eq-add 8 (a * 2 ^ 8) b (omega arith) hb) (omega arith)

pub big_endian32 :
    (a b c d : ℕ)
    → a < 256
    → b < 256
    → c < 256
    → d < 256
    → bit_or (bit_or (bit_or (u32 (a <<< 24)) (u32 (b <<< 16))) (u32 (c <<< 8))) d
      ≡ a * 2 ^ 24 + b * 2 ^ 16 + c * 2 ^ 8 + d
big_endian32 a b c d ha hb hc hd =
    ap (λ (t : ℕ). bit_or (bit_or t (u32 (c * 2 ^ 8))) d)
      (bit_or-eq-add 24 (u32 (a * 2 ^ 24)) (u32 (b * 2 ^ 16)) (omega arith) (omega arith))
    ∙ ap (λ (t : ℕ). bit_or t d)
        (bit_or-eq-add 16 (u32 (a * 2 ^ 24) + u32 (b * 2 ^ 16)) (u32 (c * 2 ^ 8)) (omega arith)
          (omega arith))
    ∙ bit_or-eq-add 8 (u32 (a * 2 ^ 24) + u32 (b * 2 ^ 16) + u32 (c * 2 ^ 8)) d (omega arith) hd
    ∙ omega arith

-- The header that eight bytes stand for.
pub read_header-bytes :
    (a b c d e f g h : ℕ) (rest : List ℕ)
    → All IsByte (a ∷ b ∷ c ∷ d ∷ e ∷ f ∷ g ∷ h ∷ [])
    → read_header (a ∷ b ∷ c ∷ d ∷ e ∷ f ∷ g ∷ h ∷ rest) ≡ record {
      type = a * 256 + b;
      method = c * 256 + d;
      length = e * 2 ^ 24 + f * 2 ^ 16 + g * 2 ^ 8 + h;
    }
unfolding read_header
read_header-bytes a b c d e f g h rest all = ground (
  arith,
  big_endian16 a b all.0 all.1.0,
  big_endian16 c d all.1.1.0 all.1.1.1.0,
  big_endian32 e f g h all.1.1.1.1.0 all.1.1.1.1.1.0 all.1.1.1.1.1.1.0 all.1.1.1.1.1.1.1.0,
)

pub read_header-encode_header :
    (h : Header) (rest : List ℕ)
    → IsHeader h
    → read_header (encode_header h.type h.method h.length ++ rest) ≡ h
unfolding encode_header
read_header-encode_header h rest fits =
    read_header-bytes (u8 (h.type >>> 8)) (u8 h.type) (u8 (h.method >>> 8)) (u8 h.method)
      (u8 (h.length >>> 24)) (u8 (h.length >>> 16)) (u8 (h.length >>> 8)) (u8 h.length) rest
      (omega arith)
    ∙ ground arith

pub length-encode_header : (t m l : ℕ) → length (encode_header t m l) ≡ 8
unfolding encode_header
length-encode_header t m l = refl

pub decode_header-long :
    (data' : List ℕ) → 8 ≤ length data' → decode_header (bytes data') ≡ some (read_header data')
unfolding decode_header
decode_header-long data' h = ground arith

-- What `encodeHeader` writes is a list of bytes that `decodeHeader` reads back, whatever follows
-- it, for every header whose fields fit their widths.
pub decode_header-encode_header :
    (h : Header) (rest : List ℕ)
    → IsHeader h
    → decode_header (bytes (encode_header h.type h.method h.length ++ rest)) ≡ some h
decode_header-encode_header h rest fits =
    decode_header-long _ (
      omega (
        arith,
        length-append (encode_header h.type h.method h.length) rest,
        length-encode_header h.type h.method h.length,
      ))
    ∙ ap some (read_header-encode_header h rest fits)

decode_header_short : (data' : List ℕ) → length data' < 8 → decode_header (bytes data') ≡ none
unfolding decode_header
decode_header_short data' h = ground arith

-- The header that eight bytes hold fits its widths, and its encoding is these bytes.
pub encode_header-read_header :
    (data' : List ℕ)
    → 8 ≤ length data'
    → All IsByte data'
    → IsHeader (read_header data')
      × (let h = read_header data' in encode_header h.type h.method h.length ≡ take 8 data')
unfolding encode_header
encode_header-read_header [] n all = absurd (omega arith)
encode_header-read_header (a ∷ []) n all = absurd (omega arith)
encode_header-read_header (a ∷ b ∷ []) n all = absurd (omega arith)
encode_header-read_header (a ∷ b ∷ c ∷ []) n all = absurd (omega arith)
encode_header-read_header (a ∷ b ∷ c ∷ d ∷ []) n all = absurd (omega arith)
encode_header-read_header (a ∷ b ∷ c ∷ d ∷ e ∷ []) n all = absurd (omega arith)
encode_header-read_header (a ∷ b ∷ c ∷ d ∷ e ∷ f ∷ []) n all = absurd (omega arith)
encode_header-read_header (a ∷ b ∷ c ∷ d ∷ e ∷ f ∷ g ∷ []) n all = absurd (omega arith)
encode_header-read_header (a ∷ b ∷ c ∷ d ∷ e ∷ f ∷ g ∷ h ∷ rest) n all =
    rw (read_header-bytes a b c d e f g h rest (omega arith)) (omega arith, ground arith)

-- Conversely, a view of bytes is decoded exactly when it has eight or more; the header then fits
-- its widths, and encoding it gives the first eight bytes back.
pub encode_header-decode_header :
    (data' : List ℕ)
    → All IsByte data'
    → ((length data' < 8) × (decode_header (bytes data') ≡ none))
      ⊎ ((h : Header) × (decode_header (bytes data') ≡ some h)
          × IsHeader h
          × (encode_header h.type h.method h.length ≡ take 8 data'))
encode_header-decode_header data' all = elim (dec_lt (length data') 8) [
  | yes few ↦ inl (few, decode_header_short data' few)
  | no many ↦
      let (fits, same) = encode_header-read_header data' (omega arith) all in
      inr (read_header data', decode_header-long data' (omega arith), fits, same)
]
