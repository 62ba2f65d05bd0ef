-- ===== src/Protocol/Sign/Tlv.antt =====
-- The scans of common/sign.cpp on a trailer of any TLVs, common/sign.h: each has up to seven bytes of
-- value and then a byte with the length in its upper three bits and the type in the lower five.
use ostinato.Base.{
  ℕ, zero, suc, ◌+◌, ◌-◌, ◌*◌, ◌/◌, ◌^◌, ◌≤◌, ◌<◌, ◌≡◌, ◌≢◌, refl, ap, ◌∙◌, Bool, true, false,
  Option, none, some, List, [], ◌∷◌, ◌++◌, append_assoc, arith, All, ◌==◌, if◌then◌else◌, ==_iff,
  length, length-append, get_elem?-append, get_or-append, get_or, ◌>>>◌, ltb, if_false, le→ltb,
}
use ostinato.Rpc.Wire.Codec.{IsByte}
use ostinato.Protocol.Sign.{
  end_type, guid_type, ttag_type, Scanned, result, byte_at, big_endian_at, guid_at, scanned,
  guid_loop, TtagId, ttag_loop,
}

pub record Tlv : Type 0 where
  pub value : List ℕ
  pub type_len : ℕ

pub record IsTlv (t : Tlv) : Type 0 where
  pub type_byte : t.type_len < 256
  pub not_end : t.type_len ≢ 0
  pub bytes : All IsByte t.value
  pub sized : length t.value ≡ t.type_len / 32

-- The bytes before the magic: what is before the trailer, the end TLV and the TLVs, the last first.
unfoldable pub stacked : List ℕ → List Tlv → List ℕ
stacked pre [] = pre ++ end_type ∷ []
stacked pre (t ∷ ts) = stacked pre ts ++ t.value ++ t.type_len ∷ []

-- Three bytes of a GUID.
unfoldable pub guid_value : List ℕ → ℕ
guid_value v = get_or v 0 0 * 2 ^ 16 + get_or v 1 0 * 2 ^ 8 + get_or v 2 0

-- The GUID that is nearest to the magic.
unfoldable pub first_guid : List Tlv → Option ℕ
first_guid [] = none
first_guid (t ∷ ts) = if t.type_len == guid_type then some (guid_value t.value) else first_guid ts

-- What the TLVs say, each overriding what is nearer to the magic.
unfoldable pub all_tags : List Tlv → TtagId → TtagId
all_tags [] r = r
all_tags (t ∷ ts) r =
    if t.type_len == ttag_type
    then all_tags ts (record r { ret = true; ttag_id = get_or t.value 0 0 })
    else if t.type_len == guid_type
    then all_tags ts (record r { guid = guid_value t.value })
    else all_tags ts r

byte_at-append :
    (xs : List ℕ) (x : ℕ) (ys : List ℕ) (n : ℕ)
    → n ≡ suc (length xs)
    → byte_at (xs ++ x ∷ ys) n ≡ some x
unfolding byte_at
byte_at-append xs x ys zero e = absurd (omega arith)
byte_at-append xs x ys (suc n) e = get_elem?-append xs (x ∷ ys) n 0 (omega arith)

-- The number that four bytes hold where they end at `n`.
pub big_endian_at-append :
    (xs : List ℕ) (a b c d : ℕ) (ys : List ℕ) (n : ℕ)
    → n ≡ length xs + 4
    → big_endian_at (xs ++ a ∷ b ∷ c ∷ d ∷ ys) n ≡ some (a * 2 ^ 24 + b * 2 ^ 16 + c * 2 ^ 8 + d)
unfolding big_endian_at
big_endian_at-append xs a b c d ys n e =
    let at = λ (i k : ℕ) (h : i ≡ length xs + k). get_or-append xs (a ∷ b ∷ c ∷ d ∷ ys) i k 0 h in
    let four : ltb n 4 ≡ false = le→ltb n 4 (omega arith) in
    rw
      (
        four,
        at (n - 4) 0 (omega arith),
        at (n - 3) 1 (omega arith),
        at (n - 2) 2 (omega arith),
        at (n - 1) 3 (omega arith),
      )
      refl

-- The GUID whose type byte is the last of these bytes.
guid_at-append :
    (xs v : List ℕ) (t : ℕ) (ys : List ℕ) (n : ℕ)
    → length v ≡ 3
    → All IsByte v
    → t < 256
    → n ≡ length xs + 4
    → guid_at (xs ++ (v ++ t ∷ ys)) n ≡ some (guid_value v)
unfolding guid_at guid_value
guid_at-append xs [] t ys n l all ht e = absurd (omega arith)
guid_at-append xs (a ∷ []) t ys n l all ht e = absurd (omega arith)
guid_at-append xs (a ∷ b ∷ []) t ys n l all ht e = absurd (omega arith)
guid_at-append xs (a ∷ b ∷ c ∷ d ∷ v) t ys n l all ht e = absurd (omega arith)
guid_at-append xs (a ∷ b ∷ c ∷ []) t ys n l all ht e =
    ap (λ (o : Option ℕ). elim o [ none ↦ none | some word ↦ some (word >>> 8) ])
      (big_endian_at-append xs a b c t ys n e)
    ∙ ap some (omega arith)

pub scanned-some {ℓ κ} :
    {A : Type ℓ} {B : Type κ} (o : Option A) (a : A) (next : A → Scanned B)
    → o ≡ some a
    → scanned o next ≡ next a
unfolding scanned
scanned-some {A = A} o a next e = ap (λ (t : Option A). scanned t next) e

found_byte {ℓ} :
    {A : Type ℓ} (P xs : List ℕ) (x : ℕ) (ys : List ℕ) (n : ℕ) (next : ℕ → Scanned A)
    → P ≡ xs ++ x ∷ ys
    → n ≡ suc (length xs)
    → scanned (byte_at P n) next ≡ next x
found_byte P xs x ys n next same e =
    scanned-some (byte_at P n) x next
      (ap (λ (l : List ℕ). byte_at l n) same ∙ byte_at-append xs x ys n e)

-- A trailer with its last TLV apart.
module _ (P pre : List ℕ) (t : Tlv) (ts : List Tlv) (after : List ℕ)
    (same : P ≡ stacked pre (t ∷ ts) ++ after) where
  type_last : P ≡ stacked pre ts ++ t.value ++ t.type_len ∷ after
  unfolding stacked
  type_last = same ∙ append_assoc (stacked pre ts ++ t.value) (t.type_len ∷ []) after

  value_last : P ≡ stacked pre ts ++ (t.value ++ t.type_len ∷ after)
  value_last = type_last ∙ append_assoc (stacked pre ts) t.value (t.type_len ∷ after)

length-stacked :
    (pre : List ℕ) (t : Tlv) (ts : List Tlv)
    → length (stacked pre (t ∷ ts)) ≡ length (stacked pre ts) + length t.value + 1
unfolding stacked
length-stacked pre t ts = omega (
  arith,
  length-append (stacked pre ts ++ t.value) (t.type_len ∷ []),
  length-append (stacked pre ts) t.value,
)

branches {ℓ} :
    {A : Type ℓ} (b : Bool) (x y : Scanned A) (u v : A)
    → (b ≡ true → x ≡ result u)
    → (b ≡ false → y ≡ result v)
    → (if b then x else y) ≡ result (if b then u else v)
branches true x y u v h k = h refl
branches false x y u v h k = k refl

one_byte : (v : List ℕ) → length v ≡ 1 → v ≡ get_or v 0 0 ∷ []
one_byte [] l = absurd (omega arith)
one_byte (x ∷ []) l = refl
one_byte (x ∷ y ∷ v) l = absurd (omega arith)

module _ {ℓ} {A : Type ℓ} (P pre : List ℕ) (t : Tlv) (ts : List Tlv) (after : List ℕ) (n : ℕ)
    (next : ℕ → Scanned A) (same : P ≡ stacked pre (t ∷ ts) ++ after) (is : IsTlv t)
    (e : n ≡ length (stacked pre (t ∷ ts))) where
  found_guid :
      (t.type_len == guid_type) ≡ true → scanned (guid_at P n) next ≡ next (guid_value t.value)
  found_guid guid =
      let type : t.type_len ≡ 0x61 = (==_iff t.type_len guid_type).0 guid in
      scanned-some (guid_at P n) (guid_value t.value) next (
        ap (λ (l : List ℕ). guid_at l n) (value_last P pre t ts after same)
        ∙ guid_at-append (stacked pre ts) t.value t.type_len after n (omega (arith, is.sized))
            is.bytes is.type_byte (omega (arith, length-stacked pre t ts, is.sized)))

  found_tag :
      (t.type_len == ttag_type) ≡ true
      → scanned (byte_at P (n - 1)) next ≡ next (get_or t.value 0 0)
  found_tag tag =
      let type : t.type_len ≡ 0x23 = (==_iff t.type_len ttag_type).0 tag in
      let value = one_byte t.value (omega (arith, is.sized)) in
      found_byte P (stacked pre ts) (get_or t.value 0 0) (t.type_len ∷ after) (n - 1) next
        (value_last P pre t ts after same
          ∙ ap (λ (v : List ℕ). stacked pre ts ++ (v ++ t.type_len ∷ after)) value)
        (omega (arith, length-stacked pre t ts, is.sized))

pub guid_loop-stacked :
    (P pre : List ℕ) (ts : List Tlv) (after : List ℕ) (fuel n : ℕ)
    → P ≡ stacked pre ts ++ after
    → All IsTlv ts
    → n ≡ length (stacked pre ts)
    → n ≤ fuel
    → guid_loop fuel P n ≡ result (first_guid ts)
unfolding guid_loop first_guid stacked
guid_loop-stacked P pre [] after zero n same all e h =
    absurd (omega (arith, length-append pre (0 ∷ [])))
guid_loop-stacked P pre [] after (suc fuel) n same all e h =
    found_byte P pre 0 after n _ (same ∙ append_assoc pre (0 ∷ []) after)
      (omega (arith, length-append pre (0 ∷ [])))
guid_loop-stacked P pre (t ∷ ts) after zero n same all e h =
    absurd (omega (arith, length-stacked pre t ts))
guid_loop-stacked P pre (t ∷ ts) after (suc fuel) n same all e h =
    let is = all.0 in
    found_byte P (stacked pre ts ++ t.value) t.type_len after n _ (type_last P pre t ts after same)
      (omega (arith, length-stacked pre t ts, length-append (stacked pre ts) t.value))
    ∙ if_false (t.type_len == end_type) _ _ (ground (arith, is.not_end))
    ∙ branches (t.type_len == guid_type) _ _ _ _
        (λ guid. found_guid P pre t ts after n _ same is e guid)
        (λ other.
          guid_loop-stacked P pre ts (t.value ++ t.type_len ∷ after) fuel _
            (value_last P pre t ts after same) all.1
            (omega (arith, length-stacked pre t ts, is.sized)) (omega (arith)))

pub ttag_loop-stacked :
    (P pre : List ℕ) (ts : List Tlv) (after : List ℕ) (fuel n : ℕ) (r : TtagId)
    → P ≡ stacked pre ts ++ after
    → All IsTlv ts
    → n ≡ length (stacked pre ts)
    → n ≤ fuel
    → ttag_loop fuel P n r ≡ result (all_tags ts r)
unfolding ttag_loop all_tags stacked
ttag_loop-stacked P pre [] after zero n r same all e h =
    absurd (omega (arith, length-append pre (0 ∷ [])))
ttag_loop-stacked P pre [] after (suc fuel) n r same all e h =
    found_byte P pre 0 after n _ (same ∙ append_assoc pre (0 ∷ []) after)
      (omega (arith, length-append pre (0 ∷ [])))
ttag_loop-stacked P pre (t ∷ ts) after zero n r same all e h =
    absurd (omega (arith, length-stacked pre t ts))
ttag_loop-stacked P pre (t ∷ ts) after (suc fuel) n r same all e h =
    let is = all.0 in
    let rest = λ (r' : TtagId).
      ttag_loop-stacked P pre ts (t.value ++ t.type_len ∷ after) fuel (n - (1 + t.type_len >>> 5))
        r' (value_last P pre t ts after same) all.1
        (omega (arith, length-stacked pre t ts, is.sized)) (omega (arith)) in
    found_byte P (stacked pre ts ++ t.value) t.type_len after n _ (type_last P pre t ts after same)
      (omega (arith, length-stacked pre t ts, length-append (stacked pre ts) t.value))
    ∙ if_false (t.type_len == end_type) _ _ (ground (arith, is.not_end))
    ∙ branches (t.type_len == ttag_type) _ _ _ _
        (λ tag. found_tag P pre t ts after n _ same is e tag ∙ rest _)
        (λ other.
          branches (t.type_len == guid_type) _ _ _ _
            (λ guid. found_guid P pre t ts after n _ same is e guid ∙ rest _) (λ other. rest r))
