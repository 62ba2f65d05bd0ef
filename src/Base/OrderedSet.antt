-- ===== src/Base/OrderedSet.antt =====
-- `std::set<uint32_t>` and the key order of `std::map`, as ascending lists: `insert`, the range
-- constructor, `count`, and `std::set_difference` as the walk over two sorted ranges.
use ostinato.Base.{
  ℕ, ◌≤◌, ◌<◌, ◌≡◌, refl, sym, ap₂, ◌∙◌, Bool, false, not, ◌&&◌, ◌||◌, List, [], ◌∷◌, arith, ltb,
  ◌==◌, if◌then◌else◌,
}

unfoldable pub contains : ℕ → List ℕ → Bool
contains x [] = false
contains x (y ∷ ys) = x == y || contains x ys

unfoldable pub set_insert : ℕ → List ℕ → List ℕ
set_insert x [] = x ∷ []
set_insert x (y ∷ ys) =
    if ltb x y then x ∷ y ∷ ys else if x == y then y ∷ ys else y ∷ set_insert x ys

unfoldable pub insert_all : List ℕ → List ℕ → List ℕ
insert_all [] s = s
insert_all (x ∷ xs) s = insert_all xs (set_insert x s)

-- `std::set_difference`.
unfoldable pub set_difference : List ℕ → List ℕ → List ℕ
set_difference [] ys = []
set_difference (x ∷ xs) [] = x ∷ xs
set_difference (x ∷ xs) (y ∷ ys) =
    let less = x ∷ set_difference xs (y ∷ ys) in
    let more = set_difference (x ∷ xs) ys in
    let same = set_difference xs ys in if ltb x y then less else if ltb y x then more else same

-- Every element is above `n`, and they ascend.
abbrev pub AscendsFrom : ℕ → List ℕ → Type 0
AscendsFrom n [] = Unit {0}
AscendsFrom n (x ∷ xs) = (n < x) × AscendsFrom x xs

abbrev pub Ascends : List ℕ → Type 0
Ascends [] = Unit {0}
Ascends (x ∷ xs) = AscendsFrom x xs

pub AscendsFrom-Ascends : (n : ℕ) (xs : List ℕ) → AscendsFrom n xs → Ascends xs
AscendsFrom-Ascends n [] h = tt
AscendsFrom-Ascends n (x ∷ xs) h = h.1

pub AscendsFrom-lower : (m n : ℕ) (xs : List ℕ) → m ≤ n → AscendsFrom n xs → AscendsFrom m xs
AscendsFrom-lower m n [] l h = tt
AscendsFrom-lower m n (x ∷ xs) l h = (omega arith, h.1)

set_insert-AscendsFrom :
    (n x : ℕ) (ys : List ℕ) → n < x → AscendsFrom n ys → AscendsFrom n (set_insert x ys)
unfolding set_insert
set_insert-AscendsFrom n x [] l h = (l, tt)
set_insert-AscendsFrom n x (y ∷ ys) l h = ground (arith, set_insert-AscendsFrom y x ys)

pub set_insert-Ascends : (x : ℕ) (ys : List ℕ) → Ascends ys → Ascends (set_insert x ys)
unfolding set_insert
set_insert-Ascends x [] h = tt
set_insert-Ascends x (y ∷ ys) h = ground (arith, set_insert-AscendsFrom y x ys)

pub insert_all-Ascends : (xs s : List ℕ) → Ascends s → Ascends (insert_all xs s)
unfolding insert_all
insert_all-Ascends [] s h = h
insert_all-Ascends (x ∷ xs) s h = insert_all-Ascends xs (set_insert x s) (set_insert-Ascends x s h)

pub contains-set_insert :
    (z x : ℕ) (ys : List ℕ) → contains z (set_insert x ys) ≡ (z == x || contains z ys)
unfolding contains set_insert
contains-set_insert z x [] = refl
contains-set_insert z x (y ∷ ys) = ground (arith, contains-set_insert z x ys)

pub contains-insert_all :
    (z : ℕ) (xs s : List ℕ) → contains z (insert_all xs s) ≡ (contains z xs || contains z s)
unfolding insert_all contains
contains-insert_all z [] s = refl
contains-insert_all z (x ∷ xs) s =
    contains-insert_all z xs (set_insert x s) ∙ ground (arith, contains-set_insert z x s)

-- Below the first element there is none.
pub contains_below : (z : ℕ) (xs : List ℕ) → AscendsFrom z xs → contains z xs ≡ false
unfolding contains
contains_below z [] h = refl
contains_below z (x ∷ xs) h =
    ground (arith, contains_below z xs (AscendsFrom-lower z x xs (omega arith) h.1))

not_in_tail : (z x : ℕ) (xs : List ℕ) → AscendsFrom x xs → z ≤ x → contains z xs ≡ false
not_in_tail z x xs h l = contains_below z xs (AscendsFrom-lower z x xs l h)

-- The walk finds the elements of the first set that are not in the second.
pub contains-set_difference :
    (z : ℕ) (xs ys : List ℕ)
    → Ascends xs
    → Ascends ys
    → contains z (set_difference xs ys) ≡ (contains z xs && not (contains z ys))
unfolding contains set_difference
contains-set_difference z [] ys h k = refl
contains-set_difference z (x ∷ xs) [] h k = ground arith
contains-set_difference z (x ∷ xs) (y ∷ ys) h k = ground (
  arith,
  contains-set_difference z xs (y ∷ ys) (AscendsFrom-Ascends x xs h) k,
  contains-set_difference z (x ∷ xs) ys h (AscendsFrom-Ascends y ys k),
  contains-set_difference z xs ys (AscendsFrom-Ascends x xs h) (AscendsFrom-Ascends y ys k),
  not_in_tail z x xs h,
  not_in_tail z y ys k,
)

head-le :
    (x y : ℕ) (xs ys : List ℕ)
    → AscendsFrom y ys
    → ((z : ℕ) → contains z (x ∷ xs) ≡ contains z (y ∷ ys))
    → y ≤ x
unfolding contains
head-le x y xs ys h same = ground (arith, same x, contains_below x ys, AscendsFrom-lower x y ys)

-- Ascending lists with the same elements are equal.
pub contains-ext :
    (xs ys : List ℕ) → Ascends xs → Ascends ys → ((z : ℕ) → contains z xs ≡ contains z ys) → xs ≡ ys
unfolding contains
contains-ext [] [] h k same = refl
contains-ext [] (y ∷ ys) h k same = absurd (ground (arith, same y))
contains-ext (x ∷ xs) [] h k same = absurd (ground (arith, same x))
contains-ext (x ∷ xs) (y ∷ ys) h k same =
    let head : x ≡ y =
      omega (arith, head-le x y xs ys k same, head-le y x ys xs h (λ z. sym (same z))) in
    ap₂ ◌∷◌ head (
      contains-ext xs ys (AscendsFrom-Ascends x xs h) (AscendsFrom-Ascends y ys k)
        (λ z. ground (arith, head, same z, not_in_tail z x xs h, not_in_tail z y ys k)))
