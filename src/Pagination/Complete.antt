-- ===== src/Pagination/Complete.antt =====
-- The pages of a user's items show every item once.
use mootd.Prelude.{
  ℕ, zero, suc, ◌+◌, ◌-◌, ◌≤◌, ◌<◌, Bool, true, Option, none, some, List, [], ◌∷◌, ◌++◌, ◌≡◌, refl,
  sym, ap, ◌∙◌, subst, arith, inl, inr, ltb, ltb→lt, lt→ltb, Text, text_eq, length, take, get_elem?,
  Bool-cases, Option-cases, ok,
}
use mathlib.Core.List.{append_assoc, append-nil}
use mootd.Pagination.{
  Cursor, Item, Encoding, Field, Direction, Find, page_of, parse_params, cursor_of, is_below,
  build_filter, find_by_user_paginated, next_cursor, items, all_pages,
}
use mootd.Pagination.Order.{
  filter, IsDescending, filter-IsDescending, filter-filter, filter_after, take_all, take-take,
  length-take, split_page, regroup, newest_first, IsFind, IsEncoding, IsSorted-IsDescending,
}

-- The limit that the parameters give is positive.
limit_pos :
    (atoi : Text → Option ℕ) (decode : Text → Option Cursor) (limit cursor : Text)
    → (k : ℕ) × ((parse_params atoi decode limit cursor 20 200).0 ≡ suc k)
unfolding parse_params
limit_pos atoi decode limit cursor =
    let n = (parse_params atoi decode limit cursor 20 200).0 in (n - 1, omega (arith, positive))
  where
    positive : 0 < (parse_params atoi decode limit cursor 20 200).0
    positive = elim (Option-cases (atoi limit)) [
      | inl e ↦ ground (arith, e)
      | inr (m, e) ↦ ground (arith, e)
    ]

module _ (atoi : Text → Option ℕ) (encoding : Encoding) (codec : IsEncoding encoding) (find : Find)
    (sorted : List (Field × Direction) → List Item) (laws : IsFind find sorted)
    (user limit : Text) where
  abbrev docs : List Item
  docs = sorted newest_first

  descends : IsDescending docs
  descends = IsSorted-IsDescending docs laws.in_order

  abbrev parsed : Text → ℕ × Option Cursor
  parsed cursor = parse_params atoi encoding.decode_cursor limit cursor 20 200

  next_parsed :
      (k : ℕ) (t : Text) (e : Item)
      → (parsed t).0 ≡ suc k
      → parsed (encoding.encode_cursor (cursor_of e)) ≡ (suc k, some (cursor_of e))
  unfolding parse_params
  next_parsed k t e h =
      let c = cursor_of e in
      let cursor : (parsed (encoding.encode_cursor c)).1 ≡ some c =
        rw (codec.not_empty c) (codec.decodes c) in
      λ i. (h i, cursor i)

  abbrev owned : Item → Bool
  owned e = text_eq e.user_id user

  -- What the query gives for a cursor.
  selected :
      (k : ℕ) (c : Option Cursor) (suf : List Item)
      → filter (build_filter owned c) docs ≡ suf
      → find_by_user_paginated find user (suc k) c ≡ ok (take (suc k + 1) suf)
  unfolding find_by_user_paginated
  selected k c suf e =
      laws.found (build_filter owned c) newest_first (suc k + 1)
      ∙ ap (λ l. ok (take (suc k + 1) l)) e

  items_of :
      (k : ℕ) (t : Text) (c : Option Cursor) (suf : List Item)
      → parsed t ≡ (suc k, c)
      → filter (build_filter owned c) docs ≡ suf
      → items atoi encoding find user limit t ≡ ok (page_of encoding (suc k) (take (suc k + 1) suf))
  unfolding items
  items_of k t c suf p e =
      let n : (parsed t).0 ≡ suc k = ap (λ x. x.0) p in
      let d : (parsed t).1 ≡ c = ap (λ x. x.1) p in
      rw (n, d, selected k c suf e, items)
        (ap (λ m. ok (page_of encoding m (take (suc k + 1) suf))) n)

  short_page :
      (k : ℕ) (suf : List Item)
      → length suf ≤ suc k
      → page_of encoding (suc k) (take (suc k + 1) suf) ≡ (suf, none)
  short_page k suf h = rw (take_all (suc k + 1) suf (omega (arith, h))) (ground (arith, h))

  full_page :
      (k : ℕ) (suf init : List Item) (y : Item)
      → suc k < length suf
      → take (suc k) suf ≡ init ++ y ∷ []
      → get_elem? (take (suc k) suf) k ≡ some y
      → page_of encoding (suc k) (take (suc k + 1) suf)
        ≡ (init ++ y ∷ [], some (encoding.encode_cursor (cursor_of y)))
  full_page k suf init y h page last =
      let rows = take (suc (suc k)) suf in
      let count : suc k + 1 ≡ suc (suc k) = omega arith in
      let before : suc k - 1 ≡ k = omega arith in
      let all : take (suc k + 1) suf ≡ rows = ap (λ n. take n suf) count in
      let long : ltb (suc k) (length rows) ≡ true =
        lt→ltb (suc k) (length rows) (omega (arith, length-take (suc k) suf h)) in
      let kept : take (suc k) rows ≡ init ++ y ∷ [] = take-take (suc k) suf ∙ page in
      let next : next_cursor encoding (get_elem? (take (suc k) rows) (suc k - 1))
          ≡ some (encoding.encode_cursor (cursor_of y)) =
        ap (next_cursor encoding) (
          ap (λ n. get_elem? (take (suc k) rows) n) before
          ∙ ap (λ l. get_elem? l k) (take-take (suc k) suf)
          ∙ last) in
      rw all (rw long (λ i. (kept i, next i)))

  after_cursor :
      (pre init : List Item) (y : Item) (rest : List Item)
      → filter owned docs ≡ pre ++ (init ++ y ∷ rest)
      → filter (build_filter owned (some (cursor_of y))) docs ≡ rest
  after_cursor pre init y rest e =
      let split : filter owned docs ≡ (pre ++ init) ++ y ∷ rest =
        e ∙ sym (append_assoc pre init (y ∷ rest)) in
      filter-filter owned (is_below (cursor_of y)) docs
      ∙ ap (λ l. filter (is_below (cursor_of y)) l) split
      ∙ filter_after (pre ++ init) y rest
          (subst IsDescending split (filter-IsDescending owned docs descends))

  pages_from :
      (k pages : ℕ) (t : Text) (c : Option Cursor) (pre suf : List Item)
      → parsed t ≡ (suc k, c)
      → filter owned docs ≡ pre ++ suf
      → filter (build_filter owned c) docs ≡ suf
      → length suf ≤ pages
      → all_pages pages atoi encoding find user limit t ≡ suf
  unfolding all_pages
  pages_from k zero t c pre [] q e f h = refl
  pages_from k zero t c pre (x ∷ suf) q e f h = ground arith
  pages_from k (suc pages) t c pre suf q e f h = elim (Bool-cases (ltb (suc k) (length suf))) [
    | inr short ↦
        rw (items_of k t c suf q f ∙ ap ok (short_page k suf (ground (arith, short))), all_pages)
          (append-nil suf)
    | inl full ↦
        let large : suc k < length suf = ltb→lt (suc k) (length suf) full in
        let (init, y, rest, whole, page, last, less) = split_page k suf (omega (arith, large)) in
        let there : filter owned docs ≡ pre ++ (init ++ y ∷ rest) = e ∙ ap (λ l. pre ++ l) whole in
        let next = encoding.encode_cursor (cursor_of y) in
        let ih : all_pages pages atoi encoding find user limit next ≡ rest =
          pages_from k pages next (some (cursor_of y)) (pre ++ init ++ y ∷ []) rest
            (next_parsed k t y (ap (λ x. x.0) q)) (there ∙ regroup pre init y rest)
            (after_cursor pre init y rest there) (omega (arith, less, h)) in
        rw (items_of k t c suf q f ∙ ap ok (full_page k suf init y large page last), all_pages)
          (ap (λ l. (init ++ y ∷ []) ++ l) ih ∙ append_assoc init (y ∷ []) rest ∙ sym whole)
  ]

  -- If finds succeed, sort by the keys they are given and apply the filter and the limit, and an encoded
  -- cursor decodes to itself, then a client that follows the cursors from the first page on, for as many
  -- pages as there are items, sees exactly the user's items, each once, by falling createdAt and then by
  -- falling id, whatever the limit that it asks for.
  pub all_pages_lem :
      (pages : ℕ)
      → length (filter owned docs) ≤ pages
      → all_pages pages atoi encoding find user limit [] ≡ filter owned docs
  unfolding parse_params
  all_pages_lem pages h =
      let (k, positive) = limit_pos atoi encoding.decode_cursor limit [] in
      pages_from k pages [] none [] (filter owned docs) (λ i. (positive i, none)) refl refl h
