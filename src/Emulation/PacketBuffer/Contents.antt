-- ===== src/Emulation/PacketBuffer/Contents.antt =====
-- What a write behind the tail or in front of the data makes of the contents of a `PacketBuffer`,
-- server/packetbuffer.cpp.
use ostinato.Base.{
  ℕ, zero, suc, ◌+◌, ◌-◌, ◌≡◌, refl, ap, ap₂, sym, ◌∙◌, List, [], ◌∷◌, ◌++◌, append_assoc, arith,
  length, length-append, length-take, length-drop, take, drop, set, take-append-drop,
  take-append_self, drop-append_self, take-append-take-drop,
}
use ostinato.Emulation.PacketBuffer.{PacketBuffer, store, contents, write}
use ostinato.Emulation.PacketBuffer.Bounds.{Fits}

set-append : (xs ys : List ℕ) (y b n : ℕ) → n ≡ length xs → set (xs ++ y ∷ ys) n b ≡ xs ++ b ∷ ys
set-append [] ys y b zero e = refl
set-append [] ys y b (suc n) e = absurd (omega arith)
set-append (x ∷ xs) ys y b zero e = absurd (omega arith)
set-append (x ∷ xs) ys y b (suc n) e = ap (◌∷◌ x) (set-append xs ys y b n (omega arith))

-- A store into the middle of a memory.
pub store-append :
    (at : ℕ) (xs bs old ys : List ℕ)
    → at ≡ length xs
    → length old ≡ length bs
    → store at bs (xs ++ old ++ ys) ≡ xs ++ bs ++ ys
unfolding store
store-append at xs [] [] ys e l = refl
store-append at xs [] (o ∷ old) ys e l = absurd (omega arith)
store-append at xs (b ∷ bs) [] ys e l = absurd (omega arith)
store-append at xs (b ∷ bs) (o ∷ old) ys e l =
    ap (store (at + 1) bs) (
      ap (λ (m : List ℕ). set m at b) (append_assoc xs (o ∷ old) ys)
      ∙ set-append xs (old ++ ys) o b at e
      ∙ sym (append_assoc xs (b ∷ []) (old ++ ys))
      ∙ sym (append_assoc (xs ++ b ∷ []) old ys))
    ∙ store-append (at + 1) (xs ++ b ∷ []) bs old ys (omega (arith, length-append xs (b ∷ [])))
        (omega arith)
    ∙ ap (λ (m : List ℕ). m ++ ys) (append_assoc xs (b ∷ []) bs)

-- Two stores, one behind the other, are one.
pub store-store :
    (at : ℕ) (cs bs memory : List ℕ)
    → store (at + length cs) bs (store at cs memory) ≡ store at (cs ++ bs) memory
unfolding store
store-store at [] bs memory = ap (λ (n : ℕ). store n bs memory) (omega arith)
store-store at (a ∷ cs) bs memory =
    ap (λ (n : ℕ). store n bs (store (at + 1) cs (set memory at a))) {x = at + suc (length cs)}
      {y = at + 1 + length cs} (omega arith)
    ∙ store-store (at + 1) cs bs (set memory at a)

-- A buffer whose memory is in parts: what is before the data, the contents, what is behind the tail.
pub record Parts (p : PacketBuffer) (before inside after : List ℕ) : Type 0 where
  pub memory : p.memory ≡ before ++ inside ++ after
  pub start : p.data' ≡ length before
  pub end : p.tail ≡ length before + length inside

pub Fits-Parts :
    (p : PacketBuffer)
    → Fits p
    → Parts p (take p.data' p.memory) (contents p) (drop p.tail p.memory)
unfolding contents
Fits-Parts p h =
    let n = p.tail - p.data' in
    let reach : p.data' + n ≡ p.tail = omega arith in
    record {
      memory = sym (
          ap₂ (λ (x y : List ℕ). x ++ y)
            (take-append-take-drop p.data' n p.memory ∙ ap (λ (k : ℕ). take k p.memory) reach) refl
          ∙ take-append-drop p.tail p.memory);
      start = omega (arith, length-take p.data' p.memory);
      end = omega (
        arith,
        length-take p.data' p.memory,
        length-take n (drop p.data' p.memory),
        length-drop p.data' p.memory,
      );
    }

pub contents-Parts :
    (p : PacketBuffer) (before inside after : List ℕ)
    → Parts p before inside after
    → contents p ≡ inside
unfolding contents
contents-Parts p before inside after h =
    ap₂ take {x = p.tail - p.data'} {y = length inside} (omega (arith, h.start, h.end)) refl
    ∙ ap (take (length inside)) (
        ap₂ drop h.start h.memory
        ∙ ap (drop (length before)) (append_assoc before inside after)
        ∙ drop-append_self (length before) before (inside ++ after) refl)
    ∙ take-append_self (length inside) inside after refl

-- A write of bytes behind the tail, which `put` makes room for.
pub put-Parts :
    (p : PacketBuffer) (before inside old after bs : List ℕ)
    → Parts p before inside (old ++ after)
    → length old ≡ length bs
    → Parts (write p.tail bs (record p { tail = p.tail + length bs })) before (inside ++ bs) after
unfolding write
put-Parts p before inside old after bs h l = record {
  memory =
      ap (store p.tail bs) (h.memory ∙ sym (append_assoc (before ++ inside) old after))
      ∙ store-append p.tail (before ++ inside) bs old after
          (omega (arith, h.end, length-append before inside)) l
      ∙ ap (λ (m : List ℕ). m ++ after) (append_assoc before inside bs);
  start = h.start;
  end = omega (arith, h.end, length-append inside bs);
}

-- A write of bytes in front of the data, which `push` makes room for.
pub push-Parts :
    (p : PacketBuffer) (before old inside after bs : List ℕ)
    → Parts p (before ++ old) inside after
    → length old ≡ length bs
    → Parts
        (write (p.data' - length bs) bs (record p { data' = p.data' - length bs }))
        before
        (bs ++ inside)
        after
unfolding write
push-Parts p before old inside after bs h l =
    let start : p.data' - length bs ≡ length before =
      omega (arith, h.start, length-append before old) in
    record {
      memory =
          ap (store (p.data' - length bs) bs) (h.memory ∙ append_assoc (before ++ old) inside after)
          ∙ store-append (p.data' - length bs) before bs old (inside ++ after) start l
          ∙ sym (append_assoc (before ++ bs) inside after)
          ∙ ap (λ (m : List ℕ). m ++ after) (append_assoc before bs inside);
      start = start;
      end = omega (arith, h.end, length-append before old, length-append bs inside);
    }

-- A write over a part of the contents.
pub over-Parts :
    (p : PacketBuffer) (before left old right after bs : List ℕ) (at : ℕ)
    → Parts p before (left ++ old ++ right) after
    → at ≡ p.data' + length left
    → length old ≡ length bs
    → Parts (write at bs p) before (left ++ bs ++ right) after
unfolding write
over-Parts p before left old right after bs at h e l = record {
  memory =
      ap (store at bs) (
        h.memory
        ∙ ap (λ (m : List ℕ). m ++ after) (spread old)
        ∙ append_assoc (before ++ left ++ old) right after)
      ∙ store-append at (before ++ left) bs old (right ++ after)
          (omega (arith, h.start, length-append before left)) l
      ∙ sym (append_assoc (before ++ left ++ bs) right after)
      ∙ ap (λ (m : List ℕ). m ++ after) (sym (spread bs));
  start = h.start;
  end = omega (
    arith,
    h.end,
    length-append (left ++ old) right,
    length-append left old,
    length-append (left ++ bs) right,
    length-append left bs,
  );
}
  where
    spread : (m : List ℕ) → before ++ (left ++ m ++ right) ≡ before ++ left ++ m ++ right
    spread m =
        sym (append_assoc before (left ++ m) right)
        ∙ ap (λ (l : List ℕ). l ++ right) (sym (append_assoc before left m))

-- Two writes, one behind the other, are one.
pub write-write :
    (at next : ℕ) (cs bs : List ℕ) (p : PacketBuffer)
    → next ≡ at + length cs
    → write next bs (write at cs p) ≡ write at (cs ++ bs) p
unfolding write
write-write at next cs bs p e =
    ap (λ (m : List ℕ). record p { memory = m })
      (ap (λ (n : ℕ). store n bs (store at cs p.memory)) e ∙ store-store at cs bs p.memory)

pub Parts-Fits :
    (p : PacketBuffer) (before inside after : List ℕ) → Parts p before inside after → Fits p
Parts-Fits p before inside after h = (
  omega (arith, h.start, h.end),
  omega (
    arith,
    h.end,
    ap length h.memory,
    length-append (before ++ inside) after,
    length-append before inside,
  ),
)
