-- ===== src/Endpoints/Parsing.antt =====
-- What `NewPool` makes of its text.
use mootd.Prelude.{
  ◌^◌, ◌<◌, ◌≡◌, refl, false, List, [], ◌∷◌, ◌++◌, arith, length, All, All-append, ◌||◌, ◌==◌, ◌⊎◌,
  Text, text_eq, trim_space, split, Bool-cases, inl, inr,
}
use mootd.Endpoints.{Pool, contains, or_empty, add_url, add_urls, new_pool}

-- No URL stands twice.
abbrev pub IsDistinct : List Text → Type 0
IsDistinct [] = Unit
IsDistinct (x ∷ xs) = (contains xs x ≡ false) × IsDistinct xs

pub record IsValid (p : Pool) : Type 0 where
  pub nonempty : 0 < length p.urls
  pub distinct : IsDistinct p.urls
  pub in_range : p.idx < 2 ^ 64

contains-append :
    (xs ys : List Text) (u : Text) → contains (xs ++ ys) u ≡ (contains xs u || contains ys u)
contains-append [] ys u = refl
contains-append (x ∷ xs) ys u = ground (arith, contains-append xs ys u)

text_eq_comm : (s t : Text) → text_eq s t ≡ text_eq t s
text_eq_comm [] [] = refl
text_eq_comm [] (d ∷ t) = refl
text_eq_comm (c ∷ s) [] = refl
text_eq_comm (c ∷ s) (d ∷ t) = ground (arith, text_eq_comm s t)

IsDistinct-snoc :
    (xs : List Text) (u : Text)
    → IsDistinct xs
    → contains xs u ≡ false
    → IsDistinct (xs ++ (u ∷ []))
IsDistinct-snoc [] u d h = (refl, tt)
IsDistinct-snoc (x ∷ xs) u d h = (
  ground (arith, contains-append xs (u ∷ []) x, text_eq_comm x u),
  IsDistinct-snoc xs u d.1 (ground arith),
)

abbrev pub IsClean : List Text → Type 0
IsClean urls = IsDistinct urls × All (λ u. 0 < length u) urls

add_url-IsClean : (urls : List Text) (raw : Text) → IsClean urls → IsClean (add_url urls raw)
unfolding add_url
add_url-IsClean urls raw (d, n) = elim (Bool-cases (contains urls (trim_space raw))) [
  | inl old ↦ ground (arith, old)
  | inr new_ ↦
      let snoc = IsDistinct-snoc urls (trim_space raw) d new_ in
      elim (Bool-cases (length (trim_space raw) == 0)) [
        | inl z ↦ rw z (d, n)
        | inr z ↦ rw (z, new_) (snoc, All-append _ urls _ n (ground arith, tt))
      ]
]

add_urls-IsClean : (urls raws : List Text) → IsClean urls → IsClean (add_urls urls raws)
unfolding add_urls
add_urls-IsClean urls [] c = c
add_urls-IsClean urls (raw ∷ raws) c =
    add_urls-IsClean (add_url urls raw) raws (add_url-IsClean urls raw c)

or_empty-IsValid :
    (urls : List Text)
    → IsClean urls
    → let p : Pool = record { urls = or_empty urls; idx = 0 } in
      IsValid p × (All (λ u. 0 < length u) p.urls ⊎ (p.urls ≡ [] ∷ []))
or_empty-IsValid [] c =
    (record { nonempty = omega arith; distinct = (refl, tt); in_range = omega arith }, inr refl)
or_empty-IsValid (u ∷ us) (d, n) =
    (record { nonempty = omega arith; distinct = d; in_range = omega arith }, inl n)

-- A pool is never without an entry, has no URL twice, and has an empty one only as its single entry.
pub new_pool-IsValid :
    (text : Text)
    → IsValid (new_pool text)
      × (All (λ u. 0 < length u) (new_pool text).urls ⊎ ((new_pool text).urls ≡ [] ∷ []))
unfolding new_pool
new_pool-IsValid text =
    or_empty-IsValid (add_urls [] (split b',' text))
      (add_urls-IsClean [] (split b',' text) (tt, tt))
