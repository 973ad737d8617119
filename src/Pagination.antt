-- ===== src/Pagination.antt =====
-- backend/internal/shared/pagination/pagination.go, and the pages of a user's items:
-- wardrobe/repository.go, FindByUserPaginated, and wardrobe/handler.go, Items.
pub mod Order
pub mod Complete
pub mod Tests
use mootd.Prelude.{
  ℕ, zero, suc, ◌+◌, ◌-◌, Bool, true, false, ◌&&◌, ◌||◌, Option, none, some, List, [], ◌∷◌, ◌++◌,
  ltb, ◌==◌, if◌then◌else◌, Text, text_eq, text_lt, length, take, get_elem?, Result, ok, err,
}

pub record Cursor : Type 0 where
  pub created_at : ℕ
  pub id : Text

-- EncodeCursor and DecodeCursor, which are JSON and base64; an error of the second is `none`.
pub record Encoding : Type 0 where
  pub encode_cursor : Cursor → Text
  pub decode_cursor : Text → Option Cursor

-- The two query parameters, "" where missing; `atoi` is 0 where the number is negative.
unfoldable pub parse_params :
    (Text → Option ℕ) → (Text → Option Cursor) → Text → Text → ℕ → ℕ → ℕ × Option Cursor
parse_params atoi decode limit cursor default_limit max_limit =
    let asked : ℕ = if text_eq limit [] then default_limit else elim (atoi limit) [
      | none ↦ default_limit
      | some n ↦ if ltb 0 n then n else default_limit
    ] in
    (
      if ltb max_limit asked then max_limit else asked,
      if text_eq cursor [] then none else decode cursor,
    )

-- What the pages need of an item.
pub record Item : Type 0 where
  pub id : Text
  pub user_id : Text
  pub created_at : ℕ

abbrev pub cursor_of : Item → Cursor
cursor_of e = record { created_at = e.created_at; id = e.id }

-- The condition that BuildFilter adds.
abbrev pub is_below : Cursor → Item → Bool
is_below c e = ltb e.created_at c.created_at || e.created_at == c.created_at && text_lt e.id c.id

abbrev pub build_filter : (Item → Bool) → Option Cursor → Item → Bool
build_filter filter none e = filter e
build_filter filter (some c) e = filter e && is_below c e

-- The keys of a sort.
pub data Field : Type 0 where
  by_created_at by_id : Field

pub data Direction : Type 0 where
  ascending descending : Direction

-- Find, with a filter, a sort and a limit, and the decoding of all that it finds.
abbrev pub Find : Type 0
Find = (Item → Bool) → List (Field × Direction) → ℕ → Result (List Item)

unfoldable pub find_by_user_paginated : Find → Text → ℕ → Option Cursor → Result (List Item)
find_by_user_paginated find user_id limit cursor =
    find (build_filter (λ e. text_eq e.user_id user_id) cursor)
      ((by_created_at, descending) ∷ (by_id, descending) ∷ []) (limit + 1)

abbrev pub next_cursor : Encoding → Option Item → Option Text
next_cursor encoding none = none
next_cursor encoding (some e) = some (encoding.encode_cursor (cursor_of e))

-- The page that is found, and the cursor of the next one.
abbrev pub page_of : Encoding → ℕ → List Item → List Item × Option Text
page_of encoding limit found =
    if ltb limit (length found)
    then (take limit found, next_cursor encoding (get_elem? (take limit found) (limit - 1)))
    else (found, none)

-- The handler, for the two query parameters; an error is answered with 500.
unfoldable pub items :
    (Text → Option ℕ) → Encoding → Find → Text → Text → Text → Result (List Item × Option Text)
unfolding find_by_user_paginated parse_params
items atoi encoding find user_id limit cursor =
    let (n, c) = parse_params atoi encoding.decode_cursor limit cursor 20 200 in
    elim (find_by_user_paginated find user_id n c) [
      | err e ↦ err e
      | ok found ↦ ok (page_of encoding n found)
    ]

-- A client that follows the cursors, for at most so many pages.
unfoldable pub all_pages : ℕ → (Text → Option ℕ) → Encoding → Find → Text → Text → Text → List Item
unfolding items
all_pages zero atoi encoding find user_id limit cursor = []
all_pages (suc pages) atoi encoding find user_id limit cursor =
    elim (items atoi encoding find user_id limit cursor) [
      | err e ↦ []
      | ok (page, next) ↦
          page
          ++ elim next [ none ↦ [] | some c ↦ all_pages pages atoi encoding find user_id limit c ]
    ]
