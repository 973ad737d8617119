-- ===== src/Wardrobe/Owners.antt =====
-- backend/internal/wardrobe/handler.go: no handler of one item reads or changes another user's item.
use mootd.Prelude.{
  Bool, true, false, Option, none, some, List, [], ◌∷◌, ◌≡◌, ◌≢◌, refl, ap, ◌∙◌, inl, inr,
  if◌then◌else◌, Error, ok, err, Text, text_eq, Bool-cases, Result-cases,
}
use mootd.Prelude.Mongo.{IsMongo, first_match, matches}
use mootd.Wardrobe.{
  ClothingItem, Image, MongoRepository, Handler, Patch, updated, deleted, found, is_owned,
  owns_item, delete, update_item_handler, delete_item_handler, search_handler,
}

abbrev pub delete_first : (ClothingItem → Bool) → List ClothingItem → List ClothingItem
delete_first p [] = []
delete_first p (x ∷ xs) = if p x then xs else x ∷ delete_first p xs

-- The repository over `docs` and `images`.
pub record IsStore {W : Type 0} (repo : MongoRepository W) (docs : W → List ClothingItem)
    (images : W → Text → Option Image) : Type 0 where
  pub is_mongo : IsMongo repo.items_col docs
  pub delete_ok :
      (p : ClothingItem → Bool) (w : W) (d : Bool)
      → (repo.delete_one p w).0 ≡ ok d
      → (d ≡ matches p (docs w)) × (docs (repo.delete_one p w).1 ≡ delete_first p (docs w))
  pub delete_err :
      (p : ClothingItem → Bool) (w : W) (e : Error)
      → (repo.delete_one p w).0 ≡ err e
      → docs (repo.delete_one p w).1 ≡ docs w
  pub find_keeps :
      (p : ClothingItem → Bool) (w : W) → images (repo.items_col.find_one p w).1 ≡ images w
  pub delete_keeps : (p : ClothingItem → Bool) (w : W) → images (repo.delete_one p w).1 ≡ images w

some-ne-none : {A : Type 0} {a : A} → ◌≢◌ {A = Option A} (some a) none
some-ne-none h = cc

matches-none :
    (p : ClothingItem → Bool) (xs : List ClothingItem)
    → first_match p xs ≡ none
    → matches p xs ≡ false
matches-none p xs h = rw (h, matches) refl

delete_none :
    (p : ClothingItem → Bool) (xs : List ClothingItem)
    → first_match p xs ≡ none
    → delete_first p xs ≡ xs
delete_none p [] = λ h. refl
delete_none p (x ∷ xs) = elim (Bool-cases (p x)) [
  | inl e ↦ rw e (λ h. absurd (some-ne-none h))
  | inr e ↦ rw e (λ h. ap (λ l. x ∷ l) (delete_none p xs h))
]

module _ {W : Type 0} (repo : MongoRepository W) (h : Handler W) (docs : W → List ClothingItem)
    (images : W → Text → Option Image) (laws : IsStore repo docs images) where
  abbrev pub Untouched : W → W → Type 0
  Untouched w w' = (docs w' ≡ docs w) × (images w' ≡ images w)

  foreign_owns :
      (u id : Text) (w : W)
      → first_match (is_owned id u) (docs w) ≡ none
      → ((owns_item repo id u w).0 ≢ ok true) × Untouched w (owns_item repo id u w).1
  unfolding owns_item
  foreign_owns u id w f =
      let p = is_owned id u in
      let kept : Untouched w (repo.items_col.find_one p w).1 =
        (laws.is_mongo.find_docs p w, laws.find_keeps p w) in
      elim (Result-cases (repo.items_col.find_one p w).0) [
        | inr (x, e) ↦ rw (e, owns_item) ((λ r. cc), kept)
        | inl (o, e) ↦
            let absent : o ≡ none = laws.is_mongo.find_ok p w o e ∙ f in
            rw (e, owns_item) (rw absent ((λ r. cc), kept))
      ]

  update_refused :
      (u id : Text) (w : W)
      → first_match (is_owned id u) (docs w) ≡ none
      → (body : Option Patch)
      → ((update_item_handler repo h (some u) id body w).0 ≢ updated)
        × Untouched w (update_item_handler repo h (some u) id body w).1
  unfolding update_item_handler
  update_refused u id w f body =
      let (never, kept) = foreign_owns u id w f in
      elim (Bool-cases (text_eq id [])) [
        | inl e ↦ rw (e, update_item_handler) ((λ r. cc), (refl, refl))
        | inr e ↦ elim (Result-cases (owns_item repo id u w).0) [
          | inr (x, o) ↦ rw (e, update_item_handler) (rw o ((λ r. cc), kept))
          | inl (b, o) ↦ elim (Bool-cases b) [
            | inl t ↦ absurd (never (o ∙ ap ok t))
            | inr t ↦ rw (e, update_item_handler) (rw o (rw t ((λ r. cc), kept)))
          ]
        ]
      ]

  search_refused :
      (u id : Text) (w : W)
      → first_match (is_owned id u) (docs w) ≡ none
      → (brand : Option Text)
      → ((products : List Text) → (search_handler repo h (some u) id brand w).0 ≢ found products)
        × Untouched w (search_handler repo h (some u) id brand w).1
  unfolding search_handler
  search_refused u id w f brand =
      let (never, kept) = foreign_owns u id w f in
      elim (Bool-cases (text_eq id [])) [
        | inl e ↦ rw (e, search_handler) ((λ ps r. cc), (refl, refl))
        | inr e ↦ elim (Result-cases (owns_item repo id u w).0) [
          | inr (x, o) ↦ rw (e, search_handler) (rw o ((λ ps r. cc), kept))
          | inl (b, o) ↦ elim (Bool-cases b) [
            | inl t ↦ absurd (never (o ∙ ap ok t))
            | inr t ↦ rw (e, search_handler) (rw o (rw t ((λ ps r. cc), kept)))
          ]
        ]
      ]

  delete_refused :
      (u id : Text) (w : W)
      → first_match (is_owned id u) (docs w) ≡ none
      → ((delete_item_handler repo h (some u) id w).0 ≢ deleted)
        × Untouched w (delete_item_handler repo h (some u) id w).1
  unfolding delete_item_handler delete
  delete_refused u id w f =
      let p = is_owned id u in
      let images_kept = laws.delete_keeps p w in
      elim (Bool-cases (text_eq id [])) [
        | inl e ↦ rw (e, delete_item_handler) ((λ r. cc), (refl, refl))
        | inr e ↦ elim (Result-cases (repo.delete_one p w).0) [
          | inr (x, o) ↦
              rw (e, delete_item_handler)
                (rw (o, delete) ((λ r. cc), (laws.delete_err p w x o, images_kept)))
          | inl (b, o) ↦
              let (count, after) = laws.delete_ok p w b o in
              let nothing : b ≡ false = count ∙ matches-none p (docs w) f in
              let same : docs (repo.delete_one p w).1 ≡ docs w = after ∙ delete_none p (docs w) f in
              rw (e, delete_item_handler)
                (rw (o, delete) (rw nothing ((λ r. cc), (same, images_kept))))
        ]
      ]

  -- A request on an item that its user does not own: no item of the wardrobe and no image changes, and
  -- the answer is neither that it was updated or deleted nor a result of the search by its image.
  pub foreign-Untouched :
      (u id : Text) (w : W)
      → first_match (is_owned id u) (docs w) ≡ none
      → ((body : Option Patch)
          → ((update_item_handler repo h (some u) id body w).0 ≢ updated)
            × Untouched w (update_item_handler repo h (some u) id body w).1)
        × (((delete_item_handler repo h (some u) id w).0 ≢ deleted)
            × Untouched w (delete_item_handler repo h (some u) id w).1)
        × ((brand : Option Text)
            → ((products : List Text)
                → (search_handler repo h (some u) id brand w).0 ≢ found products)
              × Untouched w (search_handler repo h (some u) id brand w).1)
  foreign-Untouched u id w f =
      (update_refused u id w f, delete_refused u id w f, search_refused u id w f)
