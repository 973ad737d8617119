-- ===== src/Outfits/Tests.antt =====
-- Outfits over a wardrobe of five items.
use mootd.Prelude.{
  ℕ, ◌+◌, ◌≡◌, refl, Bool, Option, none, some, List, [], ◌∷◌, map, String, if◌then◌else◌, leb, ltb,
  ◌-◌, ◌*◌, ◌/◌, ◌&&◌, length, All, empty, Text, codes, map,
}
use mootd.Outfits.{
  ClothingItem, Outfit, classify_role, has_role, outfit_fingerprint, admit, validate,
  validate_outfits,
}
use mootd.Outfits.Valid.{IsWearable, IsDistinct, validate_outfits-IsWearable}
use mootd.Prelude.{Error}
use mootd.Prelude.Float.{Float64}
use mootd.Outfits.Fallback.{
  build_fallback_outfits, rank_by_archetype, slots, draft, dressed, accented,
}
use mootd.Outfits.Fallback.Wearable.{admit-build_fallback_outfits}

abbrev pub lower : ℕ → ℕ
lower c = if leb 65 c && leb c 90 then c + 32 else c

abbrev pub item : String → String → ClothingItem
item id category = record {
  id = id;
  category = codes category;
  label = id;
  image_url = "";
  png_image_url = "";
  traits = empty;
}

abbrev pub wardrobe : List ClothingItem
wardrobe =
    item "t1" "T-Shirt"
    ∷ item "b1" "jeans"
    ∷ item "f1" "Sneakers"
    ∷ item "o1" "Coat"
    ∷ item "a1" "bag"
    ∷ []

abbrev pub look : List String → Outfit ℕ
look items = record {
  name = "look";
  description = "";
  rationale = "";
  items = items;
  item_snapshots = [];
  layout_roles = [];
  visual_weights = [];
  archetype_scores = 0;
  smart_suggestion = "";
  panel_id = "linen";
  background_id = "made up";
  panel_url = "";
  background_url = "";
}

abbrev pub suggest : ℕ → (Text → Bool) → String
suggest s has = ""

abbrev pub proposed : List (Outfit ℕ)
proposed =
    look ("t1" ∷ "b1" ∷ "f1" ∷ "o1" ∷ "zz" ∷ [])
    ∷ look ("o1" ∷ "b1" ∷ "f1" ∷ "t1" ∷ [])
    ∷ look ("t1" ∷ "o1" ∷ "f1" ∷ "a1" ∷ [])
    ∷ []

abbrev kept : Outfit ℕ
kept = look ("t1" ∷ "b1" ∷ "f1" ∷ "o1" ∷ [])

admits :
    admit lower length suggest wardrobe (look ("t1" ∷ "b1" ∷ "f1" ∷ "o1" ∷ "zz" ∷ [])) ≡ some kept
unfolding admit has_role classify_role
admits = refl

-- The unknown id goes, the second look has the same items, and the third has no bottom.
one_is_kept : length (validate_outfits lower length suggest wardrobe proposed) ≡ 1
unfolding validate_outfits validate admit has_role classify_role outfit_fingerprint
one_is_kept = refl

validate_outfits-IsWearable_example :
    All
      (λ o. IsWearable lower length suggest wardrobe o.items)
      (validate_outfits lower length suggest wardrobe proposed)
    × IsDistinct lower length suggest wardrobe empty
        (validate_outfits lower length suggest wardrobe proposed)
validate_outfits-IsWearable_example =
    validate_outfits-IsWearable lower length suggest wardrobe proposed

abbrev pub whole : Float64 ℕ
whole = record {
  of_int = λ n. n;
  neg = λ n. 0;
  add = ◌+◌;
  sub = ◌-◌;
  mul = ◌*◌;
  div = ◌/◌;
  le = leb;
  lt = ltb;
  truncate = λ n. n;
}

abbrev fallback : ℕ → List (Outfit ℕ)
fallback = build_fallback_outfits whole (λ it name. none) lower 0 (λ n. "") empty wardrobe []

-- The five items make one outfit, over and over.
built_items :
    map (λ o. o.items) (fallback 2)
    ≡ ("t1" ∷ "b1" ∷ "f1" ∷ "o1" ∷ "a1" ∷ []) ∷ ("t1" ∷ "b1" ∷ "f1" ∷ "o1" ∷ "a1" ∷ []) ∷ []
unfolding build_fallback_outfits rank_by_archetype slots draft dressed accented classify_role
built_items = refl

admit-build_fallback_outfits_example :
    All (λ o. admit lower length suggest wardrobe o ≡ some o) (fallback 2)
admit-build_fallback_outfits_example =
    admit-build_fallback_outfits lower length suggest wardrobe whole (λ it name. none) 0 (λ n. "")
      empty [] 2 (refl, (refl, (refl, (refl, (refl, tt)))))

abbrev other : String → Outfit ℕ
other id = look (id ∷ "t1" ∷ "b1" ∷ "f1" ∷ [])

abbrev no_error : Option Error
no_error = none
