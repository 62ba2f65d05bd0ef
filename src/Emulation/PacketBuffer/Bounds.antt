-- ===== src/Emulation/PacketBuffer/Bounds.antt =====
-- The pointers of a `PacketBuffer`, server/packetbuffer.cpp, stay in order inside its memory.
use ostinato.Base.{
  ℕ, ◌+◌, ◌-◌, ◌≤◌, ◌<◌, ◌≡◌, ap, ◌∙◌, Option, none, some, arith, ltb, length, if◌then◌else◌,
  if_true, if_false, lt→ltb, le→ltb, ◌↔◌,
}
use ostinato.Emulation.PacketBuffer.{PacketBuffer, reserve, pull, push_data, put, pointed}

-- `head_ <= data_ <= tail_ <= end_`.
abbrev pub Fits : PacketBuffer → Type 0
Fits p = (p.data' ≤ p.tail) × (p.tail ≤ length p.memory)

-- Where there is no room the pointer is null and nothing changes; where there is, this pointer and
-- these new ones.
abbrev pub Moves : PacketBuffer → ℕ → ℕ → Option ℕ × PacketBuffer → ℕ → ℕ → ℕ → Type 0
Moves p room len r pointer d t =
    (room < len → r ≡ (none, p))
    × (len ≤ room → r ≡ (some pointer, record p { data' = d; tail = t }) × Fits (r.1))

pub pull_room :
    (p : PacketBuffer) (len : ℕ)
    → len ≤ p.tail - p.data'
    → pull len p ≡ (some (p.data' + len), record p { data' = p.data' + len })
unfolding pull
pull_room p len h = if_false (ltb (p.tail - p.data') len) _ _ (le→ltb _ _ h)

pub push_data_room :
    (p : PacketBuffer) (len : ℕ)
    → len ≤ p.data'
    → push_data len p ≡ (some (p.data' - len), record p { data' = p.data' - len })
unfolding push_data
push_data_room p len h = if_false (ltb p.data' len) _ _ (le→ltb _ _ h)

pub put_room :
    (p : PacketBuffer) (len : ℕ)
    → len ≤ length p.memory - p.tail
    → put len p ≡ (some p.tail, record p { tail = p.tail + len })
unfolding put
put_room p len h = if_false (ltb (length p.memory - p.tail) len) _ _ (le→ltb _ _ h)

pub pointed-some {ℓ} :
    {A : Type ℓ} (r : Option ℕ × PacketBuffer) (at : ℕ) (q : PacketBuffer) (null : PacketBuffer → A)
    (next : ℕ → PacketBuffer → A)
    → r ≡ (some at, q)
    → pointed r null next ≡ next at q
unfolding pointed
pointed-some r at q null next e = ap (λ (t : Option ℕ × PacketBuffer). pointed t null next) e

guarded :
    (p : PacketBuffer) (room len pointer d t : ℕ)
    → (len ≤ room → (d ≤ t) × (t ≤ length p.memory))
    → Moves p room len
        (if ltb room len then (none, p) else (some pointer, record p { data' = d; tail = t }))
        pointer
        d
        t
guarded p room len pointer d t fits =
    let q : PacketBuffer = record p { data' = d; tail = t } in
    (
      λ few. if_true (ltb room len) (none, p) (some pointer, q) (lt→ltb _ _ few),
      λ enough.
          let e = if_false (ltb room len) (none, p) (some pointer, q) (le→ltb _ _ enough) in
          (e, rw e (fits enough)),
    )

-- `pull`, `push` and `put` check their room, the first from the data to the tail, the second from
-- the head to the data, the third from the tail to the end: they move their pointer by the length
-- or, without room, do nothing. So all keep the pointers in order; `reserve` does so exactly
-- where its length is free at the end. A `push` undoes a `pull`.
pub Moves-Fits :
    (p : PacketBuffer) (len : ℕ)
    → Fits p
    → Moves p (p.tail - p.data') len (pull len p) (p.data' + len) (p.data' + len) p.tail
      × Moves p p.data' len (push_data len p) (p.data' - len) (p.data' - len) p.tail
      × Moves p (length p.memory - p.tail) len (put len p) p.tail p.data' (p.tail + len)
      × (Fits (reserve len p) ↔ (p.tail + len ≤ length p.memory))
      × (len ≤ p.tail - p.data' → (push_data len (pull len p).1).1 ≡ p)
unfolding pull push_data put reserve
Moves-Fits p len h =
    let back : p.data' + len - len ≡ p.data' = omega arith in
    (
      guarded p (p.tail - p.data') len _ _ _ (λ enough. omega arith),
      guarded p p.data' len _ _ _ (λ enough. omega arith),
      guarded p (length p.memory - p.tail) len _ _ _ (λ enough. omega arith),
      (λ fits. fits.1, λ enough. (omega arith, enough)),
      λ enough.
          ap (λ (r : Option ℕ × PacketBuffer). (push_data len r.1).1) (pull_room p len enough)
          ∙ ap (λ (r : Option ℕ × PacketBuffer). r.1)
              (push_data_room (record p { data' = p.data' + len }) len (omega arith))
          ∙ ap (λ (d : ℕ). record p { data' = d }) back,
    )
