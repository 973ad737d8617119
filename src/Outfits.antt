-- ===== src/Outfits.antt =====
-- backend/internal/outfit/service.go: the outfits that a provider proposes, validated against the
-- wardrobe, with the snapshots and surface URLs that the client renders; and the roles of prompts.go.
pub mod Valid
pub mod Snapshots
pub mod Fallback
pub mod Fill
pub mod Progress
pub mod Critic
pub mod CriticTests
pub mod ProgressTests
pub mod Tests
use mootd.Prelude.{
  ℕ, ◌+◌, Bool, true, false, not, ◌&&◌, ◌||◌, Option, none, some, List, [], ◌∷◌, String, str_eq,
  ltb, map, length, any, if◌then◌else◌, Map, empty, update, lookup, put, Text, codes, text_eq,
  contains,
}
use text.Mathlib.Text.{starts_with, is_lt}
use Prim.Native.String.{compare, ◌++◌ as append}

pub data Role : Type 0 where
  tops bottoms outerwear footwear accessories : Role

-- `lower` is unicode.ToLower of one code point.
module _ (lower : ℕ → ℕ) where
  unfoldable pub classify_role : Text → Role
  classify_role category =
      let has : String → Bool = λ word. contains (map lower category) (codes word) in
      if has "top" || has "shirt" || has "blouse" || has "tshirt"
      then tops
      else if has "bottom"
          || has "pant"
          || has "trouser"
          || has "jean"
          || has "skirt"
          || has "short"
      then bottoms
      else if has "outer" || has "jacket" || has "coat" || has "blazer"
      then outerwear
      else if has "footwear" || has "shoe" || has "sneaker" || has "boot"
      then footwear
      else accessories

abbrev pub role_eq : Role → Role → Bool
role_eq tops tops = true
role_eq bottoms bottoms = true
role_eq outerwear outerwear = true
role_eq footwear footwear = true
role_eq accessories accessories = true
role_eq _ _ = false

pub record ClothingItem : Type 0 where
  pub id : String
  pub category : Text
  pub label : String
  pub image_url : String
  pub png_image_url : String
  pub traits : Map String

pub data Source : Type 0 where
  owned filler : Source

pub record OutfitItemSnapshot : Type 0 where
  pub id : String
  pub category : Text
  pub label : String
  pub image_url : String
  pub png_image_url : String
  pub source : Source

-- `Sc` is a map of archetype scores, or nil. The other fields pass through unchanged.
pub record Outfit (Sc : Type 0) : Type 0 where
  pub name : String
  pub description : String
  pub rationale : String
  pub items : List String
  pub item_snapshots : List OutfitItemSnapshot
  pub layout_roles : List (String × String)
  pub visual_weights : List (String × String)
  pub archetype_scores : Sc
  pub smart_suggestion : String
  pub panel_id : String
  pub background_id : String
  pub panel_url : String
  pub background_url : String

-- itemByID, and validIDs, which has the same keys.
abbrev pub index : Map ClothingItem → List ClothingItem → Map ClothingItem
index m [] = m
index m (item ∷ items) = index (update m item.id item) items

abbrev pub has_key {ℓ} : {V : Type ℓ} → Map V → String → Bool
has_key m k = elim (m k) [ none ↦ false | some _ ↦ true ]

abbrev pub valid_items : Map ClothingItem → List String → List String
valid_items m [] = []
valid_items m (id ∷ ids) = if has_key m id then id ∷ valid_items m ids else valid_items m ids

abbrev pub items_of : Map ClothingItem → List String → List ClothingItem
items_of m [] = []
items_of m (id ∷ ids) = elim (m id) [ none ↦ items_of m ids | some item ↦ item ∷ items_of m ids ]

-- The ids that are not those of archetype defaults.
abbrev pub owned_ids : List String → List String
owned_ids [] = []
owned_ids (id ∷ ids) = if starts_with id "ad_" then owned_ids ids else id ∷ owned_ids ids

abbrev pub insert : String → List String → List String
insert x [] = x ∷ []
insert x (y ∷ ys) = if is_lt (compare y x) then y ∷ insert x ys else x ∷ y ∷ ys

-- sort.Strings
abbrev pub sort : List String → List String
sort [] = []
sort (x ∷ xs) = insert x (sort xs)

-- strings.Join
abbrev pub join : String → List String → String
join sep [] = ""
join sep (x ∷ []) = x
join sep (x ∷ y ∷ xs) = append x (append sep (join sep (y ∷ xs)))

unfoldable pub outfit_fingerprint : {Sc : Type 0} → Outfit Sc → String
outfit_fingerprint o = join "," (sort o.items)

-- The entries of a map for the ids that the outfit keeps.
abbrev pub cleaned :
    List (String × String) → List (String × String) → List String → List (String × String)
cleaned m acc [] = acc
cleaned m acc (id ∷ ids) = elim (lookup m id) [
  | none ↦ cleaned m acc ids
  | some v ↦ cleaned m (put acc id v) ids
]

abbrev pub strip : List (String × String) → List String → List (String × String)
strip m ids = if ltb 0 (length m) then cleaned m [] ids else m

-- `score` is ScoreItems of the items' traits, and `suggest` is SuggestMissingCategory for the top three.
module _ {Sc : Type 0} (lower : ℕ → ℕ) (score : List ClothingItem → Sc)
    (suggest : Sc → (Text → Bool) → String) (items : List ClothingItem) where
  abbrev pub item_by_id : Map ClothingItem
  item_by_id = index empty items

  abbrev pub existing_categories : Text → Bool
  existing_categories category = any (λ item. text_eq (map lower item.category) category) items

  unfoldable pub has_role : Role → List String → Bool
  has_role role ids =
      any (λ item. role_eq (classify_role lower item.category) role) (items_of item_by_id ids)

  -- The outfit with the items that exist, where they are enough.
  unfoldable pub admit : Outfit Sc → Option (Outfit Sc)
  admit o =
      let ids = valid_items item_by_id o.items in
      if ltb (length ids) 4
      then none
      else if not (has_role tops ids) || not (has_role bottoms ids) || not (has_role footwear ids)
      then none
      else some (record o { items = ids })

  unfoldable pub rescore : Outfit Sc → Outfit Sc
  rescore o =
      let owned = items_of item_by_id (owned_ids o.items) in
      let scores = score (if ltb 0 (length owned) then owned else items_of item_by_id o.items) in
      let suggestion = suggest scores existing_categories in
      record o {
        archetype_scores = scores;
        layout_roles = strip o.layout_roles o.items;
        visual_weights = strip o.visual_weights o.items;
        smart_suggestion =
            if ltb (length items) 20 && not (str_eq suggestion "")
            then suggestion
            else o.smart_suggestion;
      }

  unfoldable pub validate : Map Bool → List (Outfit Sc) → List (Outfit Sc)
  validate seen [] = []
  validate seen (o ∷ os) = elim (admit o) [
    | none ↦ validate seen os
    | some v ↦ elim (has_key seen (outfit_fingerprint v)) [
      | true ↦ validate seen os
      | false ↦ rescore v ∷ validate (update seen (outfit_fingerprint v) true) os
    ]
  ]

  -- ValidateOutfits, whose last argument is not used.
  unfoldable pub validate_outfits : List (Outfit Sc) → List (Outfit Sc)
  validate_outfits outfits = validate empty outfits
