-- ===== src/Protocol/Vary/Local.antt =====
-- What `varyCounter` of common/abstractprotocol.cpp changes, and what it leaves.
use ostinato.Base.{
  ℕ, zero, suc, ◌+◌, ◌-◌, ◌*◌, ◌%◌, ◌^◌, ◌<◌, ◌≤◌, bit_and, bit_or, ◌≡◌, refl, ap, subst, ◌∙◌, inl,
  inr, none, some, List, [], ◌∷◌, ◌++◌, append_assoc, arith, ltb, if_true, if_false, lt→ltb, le→ltb,
  dec_lt, Option-cases, u32, All, All-take, All-drop, length, take, drop, length-append,
  length-take, length-drop, take-append_self, drop-append_self,
}
use Prim.Native.Nat.{bit_and-bitwise}
use native.Mathlib.Nat.{pow-suc, mul-le-mul_right, div-eq_of_lt}
use ostinato.Base.Bits.{bit_and_mask, bit_and_high, bit_or_comm, bit_or-zero}
use ostinato.Protocol.FrameValue.Shift.{IsByte}
use ostinato.Protocol.Vary.{
  VariableField, increment, read_big_endian, write_big_endian, varied, vary_counter,
}

length-write_big_endian : (size v : ℕ) → length (write_big_endian size v) ≡ size
unfolding write_big_endian
length-write_big_endian zero v = refl
length-write_big_endian (suc size) v = ap suc (length-write_big_endian size v)

-- The bytes before the field and behind it are the same, and as many.
pub record SameOutside (offset size : ℕ) (buf out : List ℕ) : Type 0 where
  pub whole : length out ≡ length buf
  pub before : take offset out ≡ take offset buf
  pub behind : drop (offset + size) out ≡ drop (offset + size) buf

SameOutside-refl : (offset size : ℕ) (buf : List ℕ) → SameOutside offset size buf buf
SameOutside-refl offset size buf = record { whole = refl; before = refl; behind = refl }

module _ (offset size : ℕ) (buf new : List ℕ) (fits : offset + size ≤ length buf)
    (sized : length new ≡ size) where
  abbrev replaced : List ℕ
  replaced = take offset buf ++ new ++ drop (offset + size) buf

  replaced-SameOutside : SameOutside offset size buf replaced
  replaced-SameOutside =
      let front : length (take offset buf) ≡ offset = omega (arith, length-take offset buf) in
      let both : length (take offset buf ++ new) ≡ offset + size =
        omega (arith, length-append (take offset buf) new, front, sized) in
      record {
        whole = omega (
          arith,
          length-append (take offset buf ++ new) (drop (offset + size) buf),
          length-drop (offset + size) buf,
          both,
        );
        before =
            ap (take offset) (append_assoc (take offset buf) new (drop (offset + size) buf))
            ∙ take-append_self offset (take offset buf) _ front;
        behind = drop-append_self (offset + size) (take offset buf ++ new) _ both;
      }

  replaced-field : take size (drop offset replaced) ≡ new
  replaced-field =
      let front : length (take offset buf) ≡ offset = omega (arith, length-take offset buf) in
      ap (λ (l : List ℕ). take size (drop offset l))
        (append_assoc (take offset buf) new (drop (offset + size) buf))
      ∙ ap (take size) (drop-append_self offset (take offset buf) _ front)
      ∙ take-append_self size new _ sized

-- The bytes that `varyCounter` writes.
abbrev new_bytes : ℕ → List ℕ → VariableField → ℕ → List ℕ
new_bytes size buf f v =
    let old = read_big_endian (take size (drop f.offset buf)) in
    write_big_endian size (bit_or (bit_and old (2 ^ 32 - 1 - f.mask)) (bit_and v f.mask))

vary_counter_written :
    (size : ℕ) (buf : List ℕ) (index v : ℕ) (f : VariableField)
    → f.offset + size ≤ length buf
    → varied f (u32 (index % f.count * f.step)) ≡ some v
    → vary_counter size buf index f
      ≡ take f.offset buf ++ new_bytes size buf f v ++ drop (f.offset + size) buf
unfolding vary_counter
vary_counter_written size buf index v f fits e =
    rw e (if_false (ltb (length buf) (f.offset + size)) _ _ (le→ltb _ _ fits))

vary_counter_beyond :
    (size : ℕ) (buf : List ℕ) (index : ℕ) (f : VariableField)
    → length buf < f.offset + size
    → vary_counter size buf index f ≡ buf
unfolding vary_counter
vary_counter_beyond size buf index f h =
    if_true (ltb (length buf) (f.offset + size)) _ _ (lt→ltb _ _ h)

vary_counter_other :
    (size : ℕ) (buf : List ℕ) (index : ℕ) (f : VariableField)
    → f.offset + size ≤ length buf
    → varied f (u32 (index % f.count * f.step)) ≡ none
    → vary_counter size buf index f ≡ buf
unfolding vary_counter
vary_counter_other size buf index f fits e =
    rw e (if_false (ltb (length buf) (f.offset + size)) _ _ (le→ltb _ _ fits))

-- Whatever the field, `varyCounter` keeps the length of the header and every byte outside of the
-- field; one that reaches beyond the header changes nothing.
pub vary_counter-SameOutside :
    (size : ℕ) (buf : List ℕ) (index : ℕ) (f : VariableField)
    → SameOutside f.offset size buf (vary_counter size buf index f)
      × (length buf < f.offset + size → vary_counter size buf index f ≡ buf)
vary_counter-SameOutside size buf index f = (
  elim (dec_lt (length buf) (f.offset + size)) [
    | yes beyond ↦
        rw (vary_counter_beyond size buf index f beyond) (SameOutside-refl f.offset size buf)
    | no within ↦ elim (Option-cases (varied f (u32 (index % f.count * f.step)))) [
      | inl e ↦
          rw (vary_counter_other size buf index f (omega arith) e)
            (SameOutside-refl f.offset size buf)
      | inr (v, e) ↦ rw (vary_counter_written size buf index v f (omega arith) e) (
          replaced-SameOutside f.offset size buf (new_bytes size buf f v) (omega arith)
            (length-write_big_endian size _))
    ]
  ],
  vary_counter_beyond size buf index f,
)

-- A field of one, two or four bytes, with the bits of a mask that covers it.
pub data Covered : ℕ → ℕ → Type 0 where
  byte : Covered 1 0xff
  word : Covered 2 0xffff
  double : Covered 4 0xffffffff

read_write :
    (size mask v : ℕ)
    → Covered size mask
    → read_big_endian (write_big_endian size v) ≡ v % 256 ^ size
unfolding read_big_endian write_big_endian
read_write _ _ v byte = omega arith
read_write _ _ v word = omega arith
read_write _ _ v double = omega arith

read-lt : (bs : List ℕ) → All IsByte bs → read_big_endian bs < 256 ^ length bs
unfolding read_big_endian
read-lt [] all = omega arith
read-lt (b ∷ bs) all = omega (
  arith,
  read-lt bs all.1,
  pow-suc 256 (length bs),
  mul-le-mul_right {m = b} {n = 255} (256 ^ length bs) (omega (arith, all.0)),
)

-- Nothing is left of a number below the mask, and the mask takes a remainder.
masked_by :
    (k q old v : ℕ)
    → old < 2 ^ k
    → bit_or (bit_and old (q * 2 ^ k)) (bit_and v (2 ^ k - 1)) ≡ v % 2 ^ k
masked_by k q old v h =
    let nothing : bit_and 0 q ≡ 0 = omega (arith, bit_and-bitwise 0 q) in
    let none_left : bit_and old (q * 2 ^ k) ≡ 0 =
      bit_and_high k old q
      ∙ ap (λ (t : ℕ). bit_and t q * 2 ^ k) (div-eq_of_lt h)
      ∙ ap (λ (t : ℕ). t * 2 ^ k) nothing
      ∙ omega arith in
    rw (none_left, bit_and_mask k v) (bit_or_comm 0 (v % 2 ^ k) ∙ bit_or-zero (v % 2 ^ k))

masked :
    (size mask old v : ℕ)
    → Covered size mask
    → old < 256 ^ size
    → bit_or (bit_and old (2 ^ 32 - 1 - mask)) (bit_and v mask) ≡ v % 256 ^ size
masked _ _ old v byte h = masked_by 8 (2 ^ 24 - 1) old v h
masked _ _ old v word h = masked_by 16 (2 ^ 16 - 1) old v h
masked _ _ old v double h = masked_by 32 0 old v h

-- A counter that counts up over a mask that covers it holds, in the frame with this index, its start
-- value and as many steps as the index has come since the count last began again, without the
-- bits that do not fit: in a header of bytes that the field lies in.
pub vary_counter-increment :
    (size mask : ℕ) (buf : List ℕ) (index : ℕ) (f : VariableField)
    → Covered size mask
    → f.mask ≡ mask
    → f.mode ≡ increment
    → All IsByte buf
    → f.offset + size ≤ length buf
    → read_big_endian (take size (drop f.offset (vary_counter size buf index f)))
      ≡ (f.value + index % f.count * f.step) % 256 ^ size
unfolding varied
vary_counter-increment size mask buf index f covered same mode all fits =
    let x = u32 (index % f.count * f.step) in
    let v = u32 (f.value + x) in
    let old = take size (drop f.offset buf) in
    let result : varied f x ≡ some v = rw mode refl in
    let long : length old ≡ size =
      omega (arith, length-take size (drop f.offset buf), length-drop f.offset buf) in
    let small : read_big_endian old < 256 ^ size =
      subst (λ (n : ℕ). read_big_endian old < 256 ^ n) long
        (read-lt old
          (All-take IsByte size (drop f.offset buf) (All-drop IsByte f.offset buf all))) in
    ap (λ (l : List ℕ). read_big_endian (take size (drop f.offset l)))
      (vary_counter_written size buf index v f fits result)
    ∙ ap read_big_endian (
        replaced-field f.offset size buf (new_bytes size buf f v) fits
          (length-write_big_endian size _))
    ∙ read_write size mask _ covered
    ∙ ap
        (λ (m : ℕ).
          bit_or (bit_and (read_big_endian old) (2 ^ 32 - 1 - m)) (bit_and v m) % 256 ^ size)
        same
    ∙ ap (λ (t : ℕ). t % 256 ^ size) (masked size mask (read_big_endian old) v covered small)
    ∙ wrapped size mask f.value (index % f.count * f.step) covered
  where
    wrapped :
        (size mask a b : ℕ)
        → Covered size mask
        → u32 (a + u32 b) % 256 ^ size % 256 ^ size ≡ (a + b) % 256 ^ size
    wrapped _ _ a b byte = omega arith
    wrapped _ _ a b word = omega arith
    wrapped _ _ a b double = omega arith
