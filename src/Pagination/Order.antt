-- ===== src/Pagination/Order.antt =====
-- Lists of items in the order of the pages, newest first.
use mootd.Prelude.{
  ℕ, zero, suc, ◌≤◌, ◌<◌, Bool, true, false, ◌&&◌, some, List, [], ◌∷◌, ◌++◌, ◌≡◌, refl, ap, arith,
  inl, inr, ltb, if◌then◌else◌, text_eq, text_lt, text_lt_asym, text_lt_irrefl, length, take,
  get_elem?, All, Bool-cases, ◌==◌, ◌||◌, ok,
}
use mathlib.Core.List.{append_assoc}
use mootd.Pagination.{
  Cursor, Item, Encoding, Field, by_created_at, by_id, Direction, ascending, descending, Find,
  cursor_of, is_below,
}

abbrev pub filter : (Item → Bool) → List Item → List Item
filter p [] = []
filter p (e ∷ es) = if p e then e ∷ filter p es else filter p es

-- Every item is newer than those after it, or as new with a larger id.
abbrev pub IsDescending : List Item → Type 0
IsDescending [] = Unit
IsDescending (e ∷ es) = All (λ x. is_below (cursor_of e) x ≡ true) es × IsDescending es

pub is_below_asym :
    (a b : Item) → is_below (cursor_of a) b ≡ true → is_below (cursor_of b) a ≡ false
is_below_asym a b h = ground (arith, text_lt_asym b.id a.id)

pub is_below_irrefl : (a : Item) → is_below (cursor_of a) a ≡ false
is_below_irrefl a = ground (arith, text_lt_irrefl a.id)

pub filter-All : (p : Item → Bool) (es : List Item) → All (λ x. p x ≡ true) es → filter p es ≡ es
filter-All p [] a = refl
filter-All p (e ∷ es) (h, a) = rw h (ap (λ l. e ∷ l) (filter-All p es a))

pub All-filter :
    (P : Item → Type 0) (p : Item → Bool) (es : List Item) → All P es → All P (filter p es)
All-filter P p [] a = tt
All-filter P p (e ∷ es) (h, a) = elim (Bool-cases (p e)) [
  | inl t ↦ rw t (h, All-filter P p es a)
  | inr t ↦ rw t (All-filter P p es a)
]

pub filter-IsDescending :
    (p : Item → Bool) (es : List Item) → IsDescending es → IsDescending (filter p es)
filter-IsDescending p [] d = tt
filter-IsDescending p (e ∷ es) (h, d) = elim (Bool-cases (p e)) [
  | inl t ↦
      rw t (All-filter (λ x. is_below (cursor_of e) x ≡ true) p es h, filter-IsDescending p es d)
  | inr t ↦ rw t (filter-IsDescending p es d)
]

pub filter-filter :
    (p q : Item → Bool) (es : List Item) → filter (λ e. p e && q e) es ≡ filter q (filter p es)
filter-filter p q [] = refl
filter-filter p q (e ∷ es) = ground (arith, filter-filter p q es)

All_middle :
    (P : Item → Type 0) (xs : List Item) (y : Item) (ys : List Item) → All P (xs ++ y ∷ ys) → P y
All_middle P [] y ys (h, a) = h
All_middle P (x ∷ xs) y ys (h, a) = All_middle P xs y ys a

-- The cursor of an item selects the items after it.
pub filter_after :
    (xs : List Item) (y : Item) (ys : List Item)
    → IsDescending (xs ++ y ∷ ys)
    → filter (is_below (cursor_of y)) (xs ++ y ∷ ys) ≡ ys
filter_after [] y ys (h, d) = rw (is_below_irrefl y) (filter-All (is_below (cursor_of y)) ys h)
filter_after (x ∷ xs) y ys (h, d) =
    rw (is_below_asym x y (All_middle (λ z. is_below (cursor_of x) z ≡ true) xs y ys h))
      (filter_after xs y ys d)

pub take_all : (n : ℕ) (es : List Item) → length es ≤ n → take n es ≡ es
take_all zero [] h = refl
take_all zero (e ∷ es) h = ground arith
take_all (suc n) [] h = refl
take_all (suc n) (e ∷ es) h = ap (λ l. e ∷ l) (take_all n es (omega arith))

pub take-take : (n : ℕ) (es : List Item) → take n (take (suc n) es) ≡ take n es
take-take zero es = refl
take-take (suc n) [] = refl
take-take (suc n) (e ∷ es) = ap (λ l. e ∷ l) (take-take n es)

pub length-take : (n : ℕ) (es : List Item) → n < length es → length (take (suc n) es) ≡ suc n
length-take zero [] h = ground arith
length-take zero (e ∷ es) h = refl
length-take (suc n) [] h = ground arith
length-take (suc n) (e ∷ es) h = ap suc (length-take n es (omega arith))

-- A full page, its last item and what follows.
pub split_page :
    (k : ℕ) (es : List Item)
    → k < length es
    → (init : List Item) × (y : Item) × (rest : List Item) × (es ≡ init ++ y ∷ rest)
      × (take (suc k) es ≡ init ++ y ∷ [])
      × (get_elem? (take (suc k) es) k ≡ some y)
      × (length rest < length es)
split_page k [] h = absurd (ground arith)
split_page zero (e ∷ es) h = ([], e, es, refl, refl, refl, omega arith)
split_page (suc k) (e ∷ es) h =
    let (init, y, rest, whole, page, last, less) = split_page k es (omega arith) in
    (e ∷ init, y, rest, ap (λ l. e ∷ l) whole, ap (λ l. e ∷ l) page, last, omega (arith, less))

pub regroup :
    (pre init : List Item) (y : Item) (rest : List Item)
    → pre ++ (init ++ y ∷ rest) ≡ (pre ++ init ++ y ∷ []) ++ rest
regroup pre init y rest = simp append_assoc

-- What a sort by these keys puts first, whatever the pages do.
abbrev pub less : Field → Item → Item → Bool
less by_created_at a b = ltb a.created_at b.created_at
less by_id a b = text_lt a.id b.id

abbrev pub same_key : Field → Item → Item → Bool
same_key by_created_at a b = a.created_at == b.created_at
same_key by_id a b = text_eq a.id b.id

abbrev pub precedes : List (Field × Direction) → Item → Item → Bool
precedes [] a b = false
precedes ((f, ascending) ∷ keys) a b = less f a b || same_key f a b && precedes keys a b
precedes ((f, descending) ∷ keys) a b = less f b a || same_key f a b && precedes keys a b

abbrev pub IsSorted : List (Field × Direction) → List Item → Type 0
IsSorted keys [] = Unit
IsSorted keys (e ∷ es) = All (λ x. precedes keys e x ≡ true) es × IsSorted keys es

-- `sorted` is the collection in the order of the keys, in which its unique `_id`s leave no two items equal;
-- a find gives the first ones that the filter selects.
pub record IsFind (find : Find) (sorted : List (Field × Direction) → List Item) : Type 0 where
  pub found :
      (p : Item → Bool) (keys : List (Field × Direction)) (n : ℕ)
      → find p keys n ≡ ok (take n (filter p (sorted keys)))
  pub in_order :
      IsSorted
        ((by_created_at, descending) ∷ (by_id, descending) ∷ [])
        (sorted ((by_created_at, descending) ∷ (by_id, descending) ∷ []))

-- An encoded cursor is not empty and decodes to itself.
pub record IsEncoding (encoding : Encoding) : Type 0 where
  pub decodes : (c : Cursor) → encoding.decode_cursor (encoding.encode_cursor c) ≡ some c
  pub not_empty : (c : Cursor) → text_eq (encoding.encode_cursor c) [] ≡ false

abbrev pub newest_first : List (Field × Direction)
newest_first = (by_created_at, descending) ∷ (by_id, descending) ∷ []

precedes-is_below :
    (a b : Item) → precedes newest_first a b ≡ true → is_below (cursor_of a) b ≡ true
precedes-is_below a b h = ground arith

All-precedes :
    (a : Item) (es : List Item)
    → All (λ x. precedes newest_first a x ≡ true) es
    → All (λ x. is_below (cursor_of a) x ≡ true) es
All-precedes a [] h = tt
All-precedes a (e ∷ es) (h, hs) = (precedes-is_below a e h, All-precedes a es hs)

pub IsSorted-IsDescending : (es : List Item) → IsSorted newest_first es → IsDescending es
IsSorted-IsDescending [] h = tt
IsSorted-IsDescending (e ∷ es) (h, hs) = (All-precedes e es h, IsSorted-IsDescending es hs)
