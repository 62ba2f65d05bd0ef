-- ===== src/Protocol/FrameValue/Merge.antt =====
-- One field behind the bits so far, in each branch of the loop of common/abstractprotocol.cpp.
use ostinato.Base.{
  ℕ, zero, suc, ◌+◌, ◌-◌, ◌*◌, ◌%◌, ◌<◌, ◌≤◌, ◌≡◌, refl, sym, ap, ap₂, ◌∙◌, ◌⊎◌, inl, inr, List, [],
  ◌∷◌, ◌++◌, append-nil, append_assoc, arith, ltb, ◌==◌, if_true, if_false, dec_lt, u8, ◌<<<◌,
  ◌>>>◌, All, length, take, drop, replicate, length-append, length-replicate, take-append-drop,
  drop-append-le,
}
use ostinato.Protocol.FrameValue.{or_last, straddle, shift_left, merge, whole_field, part_field}
use ostinato.Protocol.FrameValue.Bytes.{byte_bits, bits_of}
use ostinato.Protocol.FrameValue.Shift.{
  IsByte, bits_of-append, regroup, shift_left-bits, shift_left-IsByte, straddle-shift_left, cut,
  or_last-bits, spilled,
}

take_zeros_many : (n v : ℕ) → n ≤ v → take n (replicate v zero) ≡ replicate n zero
take_zeros_many zero v h = refl
take_zeros_many (suc n) zero h = absurd (omega arith)
take_zeros_many (suc n) (suc v) h = ap (◌∷◌ 0) (take_zeros_many n v (omega arith))

take_past :
    (n v : ℕ) (f : List ℕ)
    → length f ≤ n
    → n ≤ length f + v
    → take n (f ++ replicate v 0) ≡ f ++ replicate (n - length f) 0
take_past n v [] h k =
    take_zeros_many n v (omega arith)
    ∙ ap (λ (t : ℕ). replicate t zero) {x = n} {y = n - 0} (omega arith)
take_past zero v (x ∷ f) h k = absurd (omega arith)
take_past (suc n) v (x ∷ f) h k =
    ap (◌∷◌ x) (take_past n v f (omega arith) (omega arith))
    ∙ ap (λ (t : ℕ). x ∷ (f ++ replicate t 0)) {x = n - length f} {y = suc n - suc (length f)}
        (omega arith)

merge_more :
    (pos bits v j c : ℕ) (cs proto : List ℕ)
    → 8 * j + (8 - v) < bits
    → merge pos bits v j (c ∷ cs) proto
      ≡ merge pos bits v (suc j) cs (or_last proto (c >>> pos) ++ u8 (c <<< (8 - pos)) ∷ [])
unfolding merge
merge_more pos bits v j c cs proto h = if_true (ltb (8 * j + (8 - v)) bits) _ _ (ground arith)

merge_last :
    (pos bits v j c : ℕ) (proto : List ℕ)
    → bits ≤ 8 * j + (8 - v)
    → merge pos bits v j (c ∷ []) proto ≡ or_last proto (c >>> pos)
unfolding merge
merge_last pos bits v j c proto h = if_false (ltb (8 * j + (8 - v)) bits) _ _ (ground arith)

-- The loop over a field that has `v` unused bits. Where these are at least the bits used of the
-- last byte so far, the field's bits go behind those of the earlier fields.
merge-bits :
    (pos pad bits v j : ℕ) (cs proto b f : List ℕ)
    → pos + pad ≡ 8
    → 1 ≤ pos
    → 1 ≤ pad
    → v < 8
    → pos ≤ v
    → 1 ≤ length cs
    → bits + v ≡ 8 * (j + length cs)
    → All IsByte cs
    → bits_of proto ≡ b ++ replicate pad 0
    → bits_of cs ≡ f ++ replicate v 0
    → bits_of (merge pos bits v j cs proto) ≡ (b ++ f) ++ replicate (v - pos) 0
merge-bits pos pad bits v j [] proto b f p p1 p2 v1 fit n m all e k = absurd (omega arith)
merge-bits pos pad bits v j (c ∷ []) proto b f p p1 p2 v1 fit n m all e k =
    let size : length f ≡ 8 - v =
      omega (arith, ap length k, length-append f (replicate v 0), length-replicate v zero) in
    let lower : 8 - pad ≡ pos = omega arith in
    let left : pad - length f ≡ v - pos = omega arith in
    ap bits_of (merge_last pos bits v j c proto (omega arith))
    ∙ ap (λ (t : ℕ). bits_of (or_last proto (c >>> t))) (sym lower)
    ∙ or_last-bits c pad proto b (omega arith) p2 all.0 e
    ∙ ap (λ (l : List ℕ). b ++ take pad l) (sym (append-nil (byte_bits c)) ∙ k)
    ∙ ap (◌++◌ b) (take_past pad v f (omega arith) (omega arith))
    ∙ ap (λ (t : ℕ). b ++ (f ++ replicate t 0)) left
    ∙ sym (append_assoc b f (replicate (v - pos) 0))
merge-bits pos pad bits v j (c ∷ d ∷ cs) proto b f p p1 p2 v1 fit n m all e k =
    let rest = bits_of (d ∷ cs) in
    let next = or_last proto (c >>> pos) ++ u8 (c <<< (8 - pos)) ∷ [] in
    let size = length rest - v in
    let (i, z) =
      cut size (byte_bits c) rest f (replicate v 0) k (omega (arith, length-replicate v zero)) in
    let tail : rest ≡ take size rest ++ replicate v 0 =
      sym (take-append-drop size rest) ∙ ap (◌++◌ (take size rest)) z in
    let lower : pos ≡ 8 - pad = omega arith in
    let upper : 8 - pos ≡ pad = omega arith in
    let placed : bits_of next ≡ (b ++ byte_bits c) ++ replicate pad 0 =
      ap₂ (λ (s t : ℕ). bits_of (or_last proto (c >>> s) ++ u8 (c <<< t) ∷ [])) lower upper
      ∙ spilled c pad proto b (omega arith) p2 all.0 e in
    ap bits_of (merge_more pos bits v j c (d ∷ cs) proto (omega arith))
    ∙ merge-bits pos pad bits v (suc j) (d ∷ cs) next (b ++ byte_bits c) (take size rest) p p1 p2 v1
        fit (omega arith) (omega arith) all.1 placed tail
    ∙ ap (λ (l : List ℕ). l ++ replicate (v - pos) 0)
        (append_assoc b (byte_bits c) (take size rest) ∙ ap (◌++◌ b) (sym i))

-- What stands in `proto` at a position: the bits so far, and zeros up to the end of the last byte.
pub data Packed (pos : ℕ) (proto b : List ℕ) : Type 0 where
  flat : pos ≡ 0 → bits_of proto ≡ b → Packed pos proto b
  inside :
      (pad : ℕ)
      → pos + pad ≡ 8
      → 1 ≤ pos
      → 1 ≤ pad
      → bits_of proto ≡ b ++ replicate pad 0
      → Packed pos proto b

whole_field_flat :
    (field proto : List ℕ) → bits_of (whole_field 0 field proto) ≡ bits_of proto ++ bits_of field
unfolding whole_field
whole_field_flat [] proto = sym (append-nil (bits_of proto))
whole_field_flat (x ∷ xs) proto = bits_of-append proto (x ∷ xs)

whole_field_half :
    (field proto b : List ℕ)
    → All IsByte field
    → bits_of proto ≡ b ++ replicate 4 0
    → bits_of (whole_field 4 field proto) ≡ (b ++ bits_of field) ++ replicate 4 0
unfolding whole_field
whole_field_half [] proto b all e = rw append-nil e
whole_field_half (x ∷ xs) proto b all e =
    let z : List ℕ = replicate 4 0 in
    bits_of-append (or_last proto (x >>> 4)) (straddle 4 (x ∷ xs))
    ∙ ap (λ (l : List ℕ). l ++ bits_of (straddle 4 (x ∷ xs)))
        (or_last-bits x 4 proto b (omega arith) (omega arith) all.0 e)
    ∙ ap (λ (l : List ℕ). (b ++ take 4 (byte_bits x)) ++ bits_of l) (straddle-shift_left (x ∷ xs))
    ∙ ap (◌++◌ (b ++ take 4 (byte_bits x))) (shift_left-bits 4 x xs (omega arith) all)
    ∙ regroup b (take 4 (byte_bits x)) (drop 4 (byte_bits x)) (bits_of xs) z

pub whole-Packed :
    (pos : ℕ) (field proto b : List ℕ)
    → (pos ≡ 0) ⊎ (pos ≡ 4)
    → All IsByte field
    → Packed pos proto b
    → Packed pos (whole_field pos field proto) (b ++ bits_of field)
whole-Packed pos field proto b at all (flat z e) =
    flat z (rw z (whole_field_flat field proto) ∙ ap (λ (l : List ℕ). l ++ bits_of field) e)
whole-Packed pos field proto b (inl z) all (inside pad p p1 p2 e) = absurd (omega arith)
whole-Packed pos field proto b (inr z) all (inside pad p p1 p2 e) =
    let four : pad ≡ 4 = omega arith in
    inside pad p p1 p2 (
      rw (z, four)
        (whole_field_half field proto b all (e ∙ ap (λ (t : ℕ). b ++ replicate t 0) four)))

length-bits_of : (xs : List ℕ) → length (bits_of xs) ≡ 8 * length xs
length-bits_of [] = omega arith
length-bits_of (x ∷ xs) = omega (arith, length-bits_of xs)

length-shift_left : (v : ℕ) (xs : List ℕ) → length (shift_left v xs) ≡ length xs
unfolding shift_left
length-shift_left v [] = refl
length-shift_left v (x ∷ []) = refl
length-shift_left v (x ∷ y ∷ ys) = ap suc (length-shift_left v (y ∷ ys))

shift_left-drop :
    (v : ℕ) (field : List ℕ)
    → v ≤ 8
    → 1 ≤ length field
    → All IsByte field
    → bits_of (shift_left v field) ≡ drop v (bits_of field) ++ replicate v 0
shift_left-drop v [] h n all = absurd (omega arith)
shift_left-drop v (x ∷ xs) h n all =
    shift_left-bits v x xs h all
    ∙ ap (λ (l : List ℕ). l ++ replicate v 0) (sym (drop-append-le v (byte_bits x) (bits_of xs) h))

part_field_flat :
    (bits : ℕ) (field proto : List ℕ)
    → part_field 0 bits field proto ≡ proto ++ shift_left (length field * 8 - bits) field
unfolding part_field
part_field_flat bits field proto = refl

part_field_inside :
    (pos bits : ℕ) (field proto : List ℕ)
    → 1 ≤ pos
    → part_field pos bits field proto
      ≡ (let v = length field * 8 - bits in merge pos bits v 0 (shift_left v field) proto)
unfolding part_field
part_field_inside pos bits field proto h = if_false (pos == 0) _ _ (ground arith)

pub part-Packed :
    (pos bits : ℕ) (field proto b : List ℕ)
    → let v = length field * 8 - bits in
      bits < length field * 8
      → v < 8
      → pos ≤ v
      → All IsByte field
      → Packed pos proto b
      → Packed ((pos + bits) % 8) (part_field pos bits field proto) (b ++ drop v (bits_of field))
part-Packed pos bits field proto b less v8 fit all (flat z e) =
    let v = length field * 8 - bits in
    inside v (omega arith) (omega arith) (omega arith) (
      rw z (
        ap bits_of (part_field_flat bits field proto)
        ∙ bits_of-append proto (shift_left v field)
        ∙ ap (λ (l : List ℕ). l ++ bits_of (shift_left v field)) e
        ∙ ap (◌++◌ b) (shift_left-drop v field (omega arith) (omega arith) all)
        ∙ sym (append_assoc b (drop v (bits_of field)) (replicate v 0))))
part-Packed pos bits field proto b less v8 fit all (inside pad p p1 p2 e) =
    let v = length field * 8 - bits in
    let done : bits_of (part_field pos bits field proto)
        ≡ (b ++ drop v (bits_of field)) ++ replicate (v - pos) 0 =
      ap bits_of (part_field_inside pos bits field proto p1)
      ∙ merge-bits pos pad bits v 0 (shift_left v field) proto b (drop v (bits_of field)) p p1 p2 v8
          fit (omega (arith, length-shift_left v field)) (omega (arith, length-shift_left v field))
          (shift_left-IsByte v field (omega arith) all) e
          (shift_left-drop v field (omega arith) (omega arith) all) in
    elim (dec_lt pos v) [
      | yes more ↦ inside (v - pos) (omega arith) (omega arith) (omega arith) done
      | no full ↦
          let none_left : v - pos ≡ 0 = omega arith in
          flat (omega arith) (
            done
            ∙ ap (λ (t : ℕ). (b ++ drop v (bits_of field)) ++ replicate t 0) none_left
            ∙ append-nil (b ++ drop v (bits_of field)))
    ]
