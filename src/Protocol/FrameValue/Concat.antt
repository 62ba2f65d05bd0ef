-- ===== src/Protocol/FrameValue/Concat.antt =====
-- The bytes that the fields of a protocol become, common/abstractprotocol.cpp, bit by bit.
use ostinato.Base.{
  ℕ, ◌+◌, ◌-◌, ◌*◌, ◌%◌, ◌<◌, ◌≤◌, ◌≡◌, refl, sym, ap, ◌∙◌, ◌⊎◌, Bool, true, false, not, ◌||◌, some,
  List, [], ◌∷◌, ◌++◌, append-nil, append_assoc, arith, ltb, ◌==◌, if_true, if_false, lt→ltb, All,
  length, drop, replicate,
}
use ostinato.Protocol.FrameValue.{Field, field_bytes, whole_field, part_field, frame_fields}
use ostinato.Protocol.FrameValue.Bytes.{bits_of}
use ostinato.Protocol.FrameValue.Shift.{IsByte}
use ostinato.Protocol.FrameValue.Merge.{Packed, flat, inside, whole-Packed, part-Packed}

-- The bits of a field that are not used.
abbrev pub unused : Bool → Field → ℕ
unused for_cksum f = length (field_bytes for_cksum f) * 8 - f.bit_size

-- Fields that the code puts together: a field of whole bytes begins at a byte or in its middle, and
-- a field with `v` unused bits, fewer than eight, at a bit up to the `v`-th of a byte. The last list
-- holds the bits of the fields, one field behind the other, each from its most significant bit.
pub data Placed (for_cksum : Bool) : ℕ → List Field → List ℕ → Type 0 where
  no_more : (pos : ℕ) → Placed for_cksum pos [] []
  left_out :
      (pos : ℕ) (f : Field) {fs : List Field} {bits : List ℕ}
      → (not f.is_frame || f.bit_size == 0) ≡ true
      → Placed for_cksum pos fs bits
      → Placed for_cksum pos (f ∷ fs) bits
  whole :
      (pos : ℕ) (f : Field) {fs : List Field} {bits : List ℕ}
      → (not f.is_frame || f.bit_size == 0) ≡ false
      → All IsByte (field_bytes for_cksum f)
      → f.bit_size ≡ length (field_bytes for_cksum f) * 8
      → (pos ≡ 0) ⊎ (pos ≡ 4)
      → Placed for_cksum pos fs bits
      → Placed for_cksum pos (f ∷ fs) (bits_of (field_bytes for_cksum f) ++ bits)
  part :
      (pos : ℕ) (f : Field) {fs : List Field} {bits : List ℕ}
      → (not f.is_frame || f.bit_size == 0) ≡ false
      → All IsByte (field_bytes for_cksum f)
      → f.bit_size < length (field_bytes for_cksum f) * 8
      → unused for_cksum f < 8
      → pos ≤ unused for_cksum f
      → Placed for_cksum ((pos + f.bit_size) % 8) fs bits
      → Placed for_cksum pos
          (f ∷ fs)
          (drop (unused for_cksum f) (bits_of (field_bytes for_cksum f)) ++ bits)

abbrev pub FramedAs : Bool → List Field → ℕ → List ℕ → List ℕ → Type 0
FramedAs for_cksum fs pos proto bits =
    (out : List ℕ) × (pad : ℕ) × (frame_fields for_cksum fs pos proto ≡ some out)
    × (pad < 8)
    × (bits_of out ≡ bits ++ replicate pad 0)

Packed-done :
    (ck : Bool) (pos : ℕ) (proto b : List ℕ) → Packed pos proto b → FramedAs ck [] pos proto b
unfolding frame_fields
Packed-done ck pos proto b (flat z e) = (proto, 0, refl, omega arith, e ∙ sym (append-nil b))
Packed-done ck pos proto b (inside pad p p1 p2 e) = (proto, pad, refl, omega arith, e)

frame_whole :
    (ck : Bool) (pos : ℕ) (f : Field) (fs : List Field) (proto : List ℕ)
    → (not f.is_frame || f.bit_size == 0) ≡ false
    → f.bit_size ≡ length (field_bytes ck f) * 8
    → frame_fields ck (f ∷ fs) pos proto
      ≡ frame_fields ck fs pos (whole_field pos (field_bytes ck f) proto)
unfolding frame_fields
frame_whole ck pos f fs proto used same =
    if_false (not f.is_frame || f.bit_size == 0) _ _ used
    ∙ if_true (f.bit_size == length (field_bytes ck f) * 8) _ _ (ground arith)

frame_part :
    (ck : Bool) (pos : ℕ) (f : Field) (fs : List Field) (proto : List ℕ)
    → (not f.is_frame || f.bit_size == 0) ≡ false
    → f.bit_size < length (field_bytes ck f) * 8
    → length (field_bytes ck f) * 8 - f.bit_size < 8
    → frame_fields ck (f ∷ fs) pos proto
      ≡ frame_fields ck fs
          ((pos + f.bit_size) % 8)
          (part_field pos f.bit_size (field_bytes ck f) proto)
unfolding frame_fields
frame_part ck pos f fs proto used less v8 =
    if_false (not f.is_frame || f.bit_size == 0) _ _ used
    ∙ if_false (f.bit_size == length (field_bytes ck f) * 8) _ _ (ground arith)
    ∙ if_true (ltb f.bit_size (length (field_bytes ck f) * 8)) _ _ (lt→ltb _ _ less)
    ∙ if_true (ltb (length (field_bytes ck f) * 8 - f.bit_size) 8) _ _ (lt→ltb _ _ v8)

frame_left_out :
    (ck : Bool) (pos : ℕ) (f : Field) (fs : List Field) (proto : List ℕ)
    → (not f.is_frame || f.bit_size == 0) ≡ true
    → frame_fields ck (f ∷ fs) pos proto ≡ frame_fields ck fs pos proto
unfolding frame_fields
frame_left_out ck pos f fs proto out = if_true (not f.is_frame || f.bit_size == 0) _ _ out

FramedAs-by :
    (ck : Bool) (fs gs : List Field) (pos pos' : ℕ) (proto proto' b : List ℕ) (f : List ℕ)
    (g : List ℕ)
    → frame_fields ck (fs) pos proto ≡ frame_fields ck gs pos' proto'
    → FramedAs ck gs pos' proto' ((b ++ f) ++ g)
    → FramedAs ck fs pos proto (b ++ (f ++ g))
FramedAs-by ck fs gs pos pos' proto proto' b f g e (out, pad, h, short, same) =
    (out, pad, e ∙ h, short, same ∙ ap (λ (l : List ℕ). l ++ replicate pad 0) (append_assoc b f g))

Placed-FramedAs :
    (ck : Bool) {pos : ℕ} {fs : List Field} {bits : List ℕ} (proto b : List ℕ)
    → Placed ck pos fs bits
    → Packed pos proto b
    → FramedAs ck fs pos proto (b ++ bits)
Placed-FramedAs ck proto b (no_more pos) h = rw append-nil (Packed-done ck pos proto b h)
Placed-FramedAs ck proto b (left_out pos f {fs} {bits} out rest) h =
    let (o, pad, e, short, same) = Placed-FramedAs ck proto b rest h in
    (o, pad, frame_left_out ck pos f fs proto out ∙ e, short, same)
Placed-FramedAs ck proto b (whole pos f {fs} {bits} used all same at rest) h =
    let field = field_bytes ck f in
    FramedAs-by ck (f ∷ fs) fs pos pos proto (whole_field pos field proto) b (bits_of field) bits
      (frame_whole ck pos f fs proto used same)
      (Placed-FramedAs ck (whole_field pos field proto) (b ++ bits_of field) rest
        (whole-Packed pos field proto b at all h))
Placed-FramedAs ck proto b (part pos f {fs} {bits} used all less v8 fit rest) h =
    let field = field_bytes ck f in
    let taken = drop (unused ck f) (bits_of field) in
    let next = part_field pos f.bit_size field proto in
    FramedAs-by ck (f ∷ fs) fs pos ((pos + f.bit_size) % 8) proto next b taken bits
      (frame_part ck pos f fs proto used less v8)
      (Placed-FramedAs ck next (b ++ taken) rest
        (part-Packed pos f.bit_size field proto b less v8 fit all h))

-- The bytes of a protocol's header are the bits of its fields, one field behind the other, filled up
-- with fewer than eight zeros: for fields that are placed as `Placed` says. The code does not
-- abort on these.
pub frame_fields-FramedAs :
    (for_cksum : Bool) (fs : List Field) (bits : List ℕ)
    → Placed for_cksum 0 fs bits
    → FramedAs for_cksum fs 0 [] bits
frame_fields-FramedAs for_cksum fs bits placed =
    Placed-FramedAs for_cksum [] [] placed (flat refl refl)
