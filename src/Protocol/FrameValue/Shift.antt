-- ===== src/Protocol/FrameValue/Shift.antt =====
-- Shifts of whole lists of bytes in common/abstractprotocol.cpp, read as lists of bits.
use ostinato.Base.{
  ℕ, zero, ◌+◌, ◌-◌, ◌<◌, ◌≤◌, bit_or, ◌≡◌, refl, sym, ap, subst, ◌∙◌, List, [], ◌∷◌, ◌++◌,
  append-nil, append_assoc, arith, u8, ◌<<<◌, ◌>>>◌, All, length, take, drop, replicate,
  length-append, length-replicate, take-append-drop, take-append_self, drop-append_self,
}
use ostinato.Base.Bits.{bit_or-zero}
use ostinato.Protocol.FrameValue.{or_last, straddle, shift_left}
use ostinato.Protocol.FrameValue.Bytes.{byte_bits, bits_of, up_to_eight, glue, glue-lt, fill}

pub bits_of-append : (xs ys : List ℕ) → bits_of (xs ++ ys) ≡ bits_of xs ++ bits_of ys
bits_of-append [] ys = refl
bits_of-append (x ∷ xs) ys = ap (◌++◌ (byte_bits x)) (bits_of-append xs ys)

abbrev pub IsByte : ℕ → Type 0
IsByte b = b < 256

take_zeros : (k : ℕ) → k ≤ 8 → take k (byte_bits 0) ≡ replicate k 0
take_zeros k h =
    up_to_eight (λ k. take k (byte_bits 0) ≡ replicate k 0) refl refl refl refl refl refl refl refl
      refl k h

zero_shift : (k : ℕ) → k ≤ 8 → 0 >>> (8 - k) ≡ 0
zero_shift k h =
    up_to_eight (λ k. 0 >>> (8 - k) ≡ 0) refl refl refl refl refl refl refl refl refl k h

-- The last byte of a shift: its low bits are free.
shifted : (x k : ℕ) → k ≤ 8 → byte_bits (u8 (x <<< k)) ≡ drop k (byte_bits x) ++ replicate k 0
shifted x k h =
    ap byte_bits (sym (bit_or-zero (u8 (x <<< k))))
    ∙ subst
        (λ z. byte_bits (bit_or (u8 (x <<< k)) z) ≡ drop k (byte_bits x) ++ take k (byte_bits 0))
        (zero_shift k h) (glue x 0 k h (omega arith))
    ∙ ap (◌++◌ (drop k (byte_bits x))) (take_zeros k h)

pub regroup : (a t d b z : List ℕ) → (a ++ t) ++ ((d ++ b) ++ z) ≡ (a ++ ((t ++ d) ++ b)) ++ z
regroup a t d b z = simp append_assoc refl

pub shift_left-bits :
    (v x : ℕ) (xs : List ℕ)
    → v ≤ 8
    → All IsByte (x ∷ xs)
    → bits_of (shift_left v (x ∷ xs)) ≡ drop v (byte_bits x) ++ bits_of xs ++ replicate v 0
unfolding shift_left
shift_left-bits v x [] h all =
    shifted x v h
    ∙ ap (λ (l : List ℕ). l ++ replicate v 0) (sym (append-nil (drop v (byte_bits x))))
shift_left-bits v x (y ∷ ys) h (a, b) =
    let more = bits_of (shift_left v (y ∷ ys)) in
    ap (λ (l : List ℕ). l ++ more) (glue x y v h b.0)
    ∙ ap (◌++◌ (drop v (byte_bits x) ++ take v (byte_bits y))) (shift_left-bits v y ys h b)
    ∙ regroup (drop v (byte_bits x)) (take v (byte_bits y)) (drop v (byte_bits y)) (bits_of ys) _
    ∙ ap (λ (l : List ℕ). drop v (byte_bits x) ++ (l ++ bits_of ys) ++ replicate v 0)
        (take-append-drop v (byte_bits y))

pub shift_left-IsByte : (v : ℕ) (xs : List ℕ) → v ≤ 8 → All IsByte xs → All IsByte (shift_left v xs)
unfolding shift_left
shift_left-IsByte v [] h all = tt
shift_left-IsByte v (x ∷ []) h all = (omega arith, tt)
shift_left-IsByte v (x ∷ y ∷ ys) h (a, b) = (glue-lt x y v h b.0, shift_left-IsByte v (y ∷ ys) h b)

pub straddle-shift_left : (xs : List ℕ) → straddle 4 xs ≡ shift_left 4 xs
unfolding straddle shift_left
straddle-shift_left [] = refl
straddle-shift_left (x ∷ []) = refl
straddle-shift_left (x ∷ y ∷ ys) =
    ap (◌∷◌ (bit_or (u8 (x <<< 4)) (y >>> 4))) (straddle-shift_left (y ∷ ys))

-- Where a list ends in another, the last part of it does too.
pub cut :
    (k : ℕ) (xs ys b z : List ℕ)
    → xs ++ ys ≡ b ++ z
    → k + length z ≡ length ys
    → (b ≡ xs ++ take k ys) × (drop k ys ≡ z)
cut k [] ys b z e n =
    let size : length b ≡ k = omega (arith, ap length e, length-append b z) in
    rw e (sym (take-append_self k b z size), drop-append_self k b z size)
cut k (x ∷ xs) ys [] z e n = absurd (omega (arith, ap length e, length-append xs ys))
cut k (x ∷ xs) ys (b ∷ bs) z e n =
    let (head, tail) : (x ≡ b) × (xs ++ ys ≡ bs ++ z) = (cc, cc) in
    let (i, j) = cut k xs ys bs z tail n in (rw (head, i) refl, j)

-- A byte in front leaves the last byte alone.
pub or_last-bits :
    (c pad : ℕ) (proto b : List ℕ)
    → pad ≤ 8
    → 1 ≤ pad
    → c < 256
    → bits_of proto ≡ b ++ replicate pad 0
    → bits_of (or_last proto (c >>> (8 - pad))) ≡ b ++ take pad (byte_bits c)
unfolding or_last
or_last-bits c pad [] b le some' h e =
    absurd
      (omega (arith, ap length e, length-append b (replicate pad 0), length-replicate pad zero))
or_last-bits c pad (d ∷ []) b le some' h e =
    let (i, j) =
      cut (8 - pad) [] (byte_bits d) b (replicate pad 0) (sym (append-nil (byte_bits d)) ∙ e)
        (omega (arith, length-replicate pad zero)) in
    append-nil _ ∙ fill d c pad le h j ∙ ap (λ (l : List ℕ). l ++ take pad (byte_bits c)) (sym i)
or_last-bits c pad (d ∷ x ∷ proto) b le some' h e =
    let ys = bits_of (x ∷ proto) in
    let k = length ys - pad in
    let (i, j) =
      cut k (byte_bits d) ys b (replicate pad 0) e (omega (arith, length-replicate pad zero)) in
    let whole : ys ≡ take k ys ++ replicate pad 0 =
      sym (take-append-drop k ys) ∙ ap (◌++◌ (take k ys)) j in
    ap (◌++◌ (byte_bits d)) (or_last-bits c pad (x ∷ proto) (take k ys) le some' h whole)
    ∙ sym (append_assoc (byte_bits d) (take k ys) (take pad (byte_bits c)))
    ∙ ap (λ (l : List ℕ). l ++ take pad (byte_bits c)) (sym i)

-- The high bits of a byte behind the bits so far, and its low bits in a byte of their own.
pub spilled :
    (c pad : ℕ) (proto b : List ℕ)
    → pad ≤ 8
    → 1 ≤ pad
    → c < 256
    → bits_of proto ≡ b ++ replicate pad 0
    → bits_of (or_last proto (c >>> (8 - pad)) ++ u8 (c <<< pad) ∷ [])
      ≡ (b ++ byte_bits c) ++ replicate pad 0
spilled c pad proto b le some' h e =
    bits_of-append (or_last proto (c >>> (8 - pad))) _
    ∙ ap (λ (l : List ℕ). l ++ bits_of (u8 (c <<< pad) ∷ []))
        (or_last-bits c pad proto b le some' h e)
    ∙ ap (◌++◌ (b ++ take pad (byte_bits c))) (append-nil _ ∙ shifted c pad le)
    ∙ respill b (take pad (byte_bits c)) (drop pad (byte_bits c)) (replicate pad 0)
    ∙ ap (λ (l : List ℕ). (b ++ l) ++ replicate pad 0) (take-append-drop pad (byte_bits c))
  where
    respill : (b t d z : List ℕ) → (b ++ t) ++ (d ++ z) ≡ (b ++ (t ++ d)) ++ z
    respill b t d z = simp append_assoc refl
