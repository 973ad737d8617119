-- ===== src/Pagination/Tests.antt =====
-- The pages of a user's items: a run over three items of two users.
use mootd.Prelude.{
  ℕ, Option, none, some, List, [], ◌∷◌, ◌≡◌, refl, arith, Text, text_eq, codes, take, ok,
}
use mootd.Pagination.{Item, Find, Encoding, all_pages, parse_params}
use mootd.Pagination.Complete.{all_pages_lem}
use mootd.Pagination.Order.{filter, IsFind}

abbrev item : Text → Text → ℕ → Item
item id user at = record { id = id; user_id = user; created_at = at }

abbrev docs : List Item
docs =
    item (codes "c") (codes "ann") 30
    ∷ item (codes "b") (codes "bob") 20
    ∷ item (codes "z") (codes "ann") 10
    ∷ item (codes "a") (codes "ann") 10
    ∷ []

abbrev find : Find
find p keys n = ok (take n (filter p docs))

abbrev encoding : Encoding
encoding = record {
  encode_cursor = λ c. c.created_at ∷ c.id;
  decode_cursor = λ t. elim t [ [] ↦ none | n ∷ id ↦ some (record { created_at = n; id = id }) ];
}

-- The limit is 2, or 20 where none is given.
abbrev atoi : Text → Option ℕ
atoi t = some 2

two_pages :
    all_pages 2 atoi encoding find (codes "ann") (codes "2") []
    ≡ item (codes "c") (codes "ann") 30
      ∷ item (codes "z") (codes "ann") 10
      ∷ item (codes "a") (codes "ann") 10
      ∷ []
unfolding all_pages
two_pages = refl

capped : parse_params (λ t. some 900) (λ t. none) (codes "900") [] 20 200 ≡ (200, none)
unfolding parse_params
capped = refl

find-IsFind : IsFind find (λ keys. docs)
find-IsFind = record {
  found = λ p keys n. refl;
  in_order = ((refl, (refl, (refl, tt))), ((refl, (refl, tt)), ((refl, tt), (tt, tt))));
}

all_pages_lem_example :
    all_pages 3 atoi encoding find (codes "ann") (codes "2") []
    ≡ filter (λ e. text_eq e.user_id (codes "ann")) docs
all_pages_lem_example =
    all_pages_lem atoi encoding (record { decodes = λ c. refl; not_empty = λ c. refl }) find
      (λ keys. docs) find-IsFind (codes "ann") (codes "2") 3 (omega arith)
