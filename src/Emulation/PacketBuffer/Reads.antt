-- ===== src/Emulation/PacketBuffer/Reads.antt =====
-- What is read from the contents of a `PacketBuffer`, server/packetbuffer.cpp.
use ostinato.Base.{
  ℕ, zero, suc, ◌+◌, ◌*◌, ◌^◌, ◌<◌, ◌≡◌, refl, ap, sym, ◌∙◌, List, [], ◌∷◌, ◌++◌, append_assoc,
  arith, length, length-append, get_or, get_or-append,
}
use ostinato.Emulation.PacketBuffer.{PacketBuffer, read8, read16, read32}
use ostinato.Emulation.PacketBuffer.Contents.{Parts}

get_or-append_left :
    (xs ys : List ℕ) (k : ℕ) → k < length xs → get_or (xs ++ ys) k 0 ≡ get_or xs k 0
get_or-append_left [] ys k h = absurd (omega arith)
get_or-append_left (x ∷ xs) ys zero h = refl
get_or-append_left (x ∷ xs) ys (suc k) h = get_or-append_left xs ys k (omega arith)

-- The data moves over the first bytes of the contents.
pub pull-Parts :
    (p : PacketBuffer) (before cs inside after : List ℕ)
    → Parts p before (cs ++ inside) after
    → Parts (record p { data' = p.data' + length cs }) (before ++ cs) inside after
pull-Parts p before cs inside after h = record {
  memory = h.memory ∙ ap (λ (m : List ℕ). m ++ after) (sym (append_assoc before cs inside));
  start = omega (arith, h.start, length-append before cs);
  end = omega (arith, h.end, length-append before cs, length-append cs inside);
}

module _ (p : PacketBuffer) (before inside after : List ℕ) (h : Parts p before inside after) where
  pub read8-Parts :
      (at k : ℕ) → at ≡ p.data' + k → k < length inside → read8 at p ≡ get_or inside k 0
  unfolding read8
  read8-Parts at k e l =
      ap (λ (m : List ℕ). get_or m at 0) (h.memory ∙ append_assoc before inside after)
      ∙ get_or-append before (inside ++ after) at k 0 (omega (arith, h.start))
      ∙ get_or-append_left inside after k l

  pub read16-Parts :
      (at k : ℕ)
      → at ≡ p.data' + k
      → k + 1 < length inside
      → read16 at p ≡ get_or inside k 0 * 2 ^ 8 + get_or inside (k + 1) 0
  unfolding read16
  read16-Parts at k e l =
      omega (arith, read8-Parts at k e (omega arith), read8-Parts (at + 1) (k + 1) (omega arith) l)

  pub read32-Parts :
      (at k : ℕ)
      → at ≡ p.data' + k
      → k + 3 < length inside
      → read32 at p
        ≡ get_or inside k 0 * 2 ^ 24
          + get_or inside (k + 1) 0 * 2 ^ 16
          + get_or inside (k + 2) 0 * 2 ^ 8
          + get_or inside (k + 3) 0
  unfolding read32
  read32-Parts at k e l =
      let same : get_or inside (k + 2 + 1) 0 ≡ get_or inside (k + 3) 0 =
        ap (λ (j : ℕ). get_or inside j 0) {x = k + 2 + 1} {y = k + 3} (omega arith) in
      omega (
        arith,
        read16-Parts at k e (omega arith),
        read16-Parts (at + 2) (k + 2) (omega arith) (omega arith),
        same,
      )
