-- ===== src/Wardrobe.antt =====
-- backend/internal/wardrobe/repository.go and handler.go: the items of a wardrobe, their images, and the
-- handlers that change, delete and search one item. Deletion, GridFS, the search service and the
-- background removal are parameters.
pub mod Download
pub mod Peers
pub mod Owners
pub mod Tests
use mootd.Prelude.{
  ℕ, Bool, true, false, not, ◌&&◌, Option, none, some, List, [], ◌∷◌, ◌++◌, String, if◌then◌else◌,
  Error, Result, ok, err, Text, text_eq, codes,
}
use mootd.Prelude.Mongo.{Collection}

pub record ClothingItem : Type 0 where
  pub id : Text
  pub user_id : Text
  pub category : String
  pub label : Text
  pub image_url : Text
  pub png_image_url : Text
  pub traits : List (String × String)
  pub created_at : ℕ

pub record Image : Type 0 where
  pub content : List ℕ
  pub content_type : Text

-- The collection, whose DeleteOne tells whether a document was deleted, and the images by their name.
pub record MongoRepository (W : Type 0) : Type 0 where
  pub items_col : Collection ClothingItem W
  pub delete_one : (ClothingItem → Bool) → W → Result Bool × W
  pub save_image : Text → Image → W → Option Error × W
  pub get_image : Text → W → Result Image × W

abbrev pub is_owned : Text → Text → ClothingItem → Bool
is_owned id user_id item = text_eq item.id id && text_eq item.user_id user_id

-- `mongo.ErrNoDocuments` has its own constructor.
pub data Outcome : Type 0 where
  done no_documents : Outcome
  failed : Error → Outcome

abbrev pub matched : Result Bool → Outcome
matched (ok true) = done
matched (ok false) = no_documents
matched (err e) = failed e

abbrev pub or_old : Text → Text → Text
or_old new old = if text_eq new [] then old else new

-- The fields that UpdateItem sets.
abbrev pub with_fields : List (String × String) → Text → Text → ClothingItem → ClothingItem
with_fields traits label image_url item = record item {
  traits = traits;
  label = or_old label item.label;
  image_url = or_old image_url item.image_url;
  png_image_url = if text_eq image_url [] then item.png_image_url else [];
}

module _ {W : Type 0} (repo : MongoRepository W) where
  open repo use {items_col, delete_one, save_image, get_image}

  abbrev pub exists : Result (Option ClothingItem) → Result Bool
  exists (ok none) = ok false
  exists (ok (some item)) = ok true
  exists (err e) = err e

  unfoldable pub owns_item : Text → Text → W → Result Bool × W
  owns_item id user_id w =
      let (r, w1) = items_col.find_one (is_owned id user_id) w in (exists r, w1)

  unfoldable pub update_item : Text → Text → List (String × String) → Text → Text → W → Outcome × W
  update_item id user_id traits label image_url w =
      let (r, w1) =
        items_col.update_one (is_owned id user_id) (with_fields traits label image_url) w in
      (matched r, w1)

  unfoldable pub delete : Text → Text → W → Outcome × W
  delete id user_id w = let (r, w1) = delete_one (is_owned id user_id) w in (matched r, w1)

-- A body that does not decode is `none`; missing traits are [].
pub record Patch : Type 0 where
  pub traits : List (String × String)
  pub label : Text
  pub image_url : Text

pub data Answer : Type 0 where
  unauthorized bad_request not_found unprocessable server_error updated deleted : Answer
  found : List Text → Answer

-- What the handlers call: the URL check, the download, and the search by image and brand.
pub record Handler (W : Type 0) : Type 0 where
  pub is_allowed_image_url : Text → Bool
  pub download_image : Text → W → Result Image × W
  pub search : Image → Text → W → Result (List Text) × W

abbrev pub starts_with : Text → Text → Bool
starts_with [] s = true
starts_with (c ∷ prefix) [] = false
starts_with (c ∷ prefix) (d ∷ s) = text_eq (c ∷ []) (d ∷ []) && starts_with prefix s

abbrev pub image_path : Text → Text
image_path id = codes "/v1/wardrobe/items/" ++ id ++ codes "/image"

module _ {W : Type 0} (repo : MongoRepository W) (h : Handler W) where
  open h use {is_allowed_image_url, download_image, search}

  -- The URL to store, and the image whose background is to be removed in a goroutine of its own.
  unfoldable pub stable_image_url : Text → Text → W → (Text × Option Image) × W
  stable_image_url id url w =
      if starts_with (codes "http") url && is_allowed_image_url url
      then (let (got, w1) = download_image url w in
          elim got [
            | err _ ↦ (([], none), w1)
            | ok image ↦
                let (failure, w2) = repo.save_image id image w1 in
                elim failure [
                  | some _ ↦ (([], none), w2)
                  | none ↦ ((image_path id, some image), w2)
                ]
          ])
      else ((url, none), w)

  abbrev pub update_answer : Outcome → Answer
  update_answer done = updated
  update_answer no_documents = not_found
  update_answer (failed _) = server_error

  abbrev pub patch : Text → Text → Option Patch → W → Answer × W
  patch user id none w = (bad_request, w)
  patch user id (some body) w =
      let ((url, image), w1) = stable_image_url id body.image_url w in
      let (r, w2) = update_item repo id user body.traits body.label url w1 in (update_answer r, w2)

  -- updateItem; `user` is UserIDFromContext.
  unfoldable pub update_item_handler : Option Text → Text → Option Patch → W → Answer × W
  unfolding owns_item stable_image_url update_item
  update_item_handler user id body w = elim user [
    | none ↦ (unauthorized, w)
    | some u ↦
        if text_eq id []
        then (bad_request, w)
        else (let (owned, w1) = owns_item repo id u w in
            elim owned [
              | err _ ↦ (server_error, w1)
              | ok false ↦ (not_found, w1)
              | ok true ↦ patch u id body w1
            ])
  ]

  abbrev pub delete_answer : Outcome → Answer
  delete_answer done = deleted
  delete_answer no_documents = not_found
  delete_answer (failed _) = server_error

  -- deleteItem
  unfoldable pub delete_item_handler : Option Text → Text → W → Answer × W
  unfolding delete
  delete_item_handler user id w = elim user [
    | none ↦ (unauthorized, w)
    | some u ↦
        if text_eq id []
        then (bad_request, w)
        else let (r, w1) = delete repo id u w in (delete_answer r, w1)
  ]

  abbrev pub search_image : Text → Result Image → W → Answer × W
  search_image brand (err _) w = (not_found, w)
  search_image brand (ok image) w =
      let (products, w1) = search image brand w in
      elim products [ err _ ↦ (unprocessable, w1) | ok ps ↦ (found ps, w1) ]

  abbrev pub search_brand : Text → Option Text → W → Answer × W
  search_brand id none w = (bad_request, w)
  search_brand id (some brand) w =
      if text_eq brand []
      then (bad_request, w)
      else let (got, w1) = repo.get_image id w in search_image brand got w1

  -- Search
  unfoldable pub search_handler : Option Text → Text → Option Text → W → Answer × W
  unfolding owns_item
  search_handler user id brand w = elim user [
    | none ↦ (unauthorized, w)
    | some u ↦
        if text_eq id []
        then (bad_request, w)
        else (let (owned, w1) = owns_item repo id u w in
            elim owned [
              | err _ ↦ (server_error, w1)
              | ok false ↦ (not_found, w1)
              | ok true ↦ search_brand id brand w1
            ])
  ]
