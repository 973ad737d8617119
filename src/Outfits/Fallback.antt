-- ===== src/Outfits/Fallback.antt =====
-- backend/internal/outfit/fallback.go: the outfits that are built when no provider gives enough.
pub mod Pieces
pub mod Wearable
use mootd.Prelude.{
  ℕ, zero, suc, ◌+◌, ◌%◌, Bool, true, false, ◌||◌, Option, none, some, List, [], ◌∷◌, ◌++◌, String,
  ltb, length, get_or, if◌then◌else◌, Map, empty, update, put,
}
use mootd.Prelude.Float.{Float64}
use mootd.Outfits.{
  Role, tops, bottoms, outerwear, footwear, accessories, classify_role, role_eq, ClothingItem,
  Outfit,
}
use Prim.Native.String.{◌++◌ as append}

pub record ScoredArchetype (F : Type 0) : Type 0 where
  pub name : String
  pub score : F

-- The outfit in the making.
pub record Draft : Type 0 where
  pub ids : List String
  pub layout : List (String × String)
  pub used : Map Bool

abbrev pub attach : ClothingItem → String → Draft → Draft
attach item role d = record {
  ids = d.ids ++ (item.id ∷ []);
  layout = put d.layout item.id role;
  used = update d.used item.id true;
}

abbrev pub is_used : Map Bool → String → Bool
is_used used id = elim (used id) [ none ↦ false | some b ↦ b ]

abbrev pub first_unused : List ClothingItem → Map Bool → Option ClothingItem
first_unused [] used = none
first_unused (item ∷ items) used =
    if is_used used item.id then first_unused items used else some item

abbrev pub filter_by_role : (ℕ → ℕ) → List ClothingItem → Role → List ClothingItem
filter_by_role lower [] role = []
filter_by_role lower (item ∷ items) role =
    let rest = filter_by_role lower items role in
    if role_eq (classify_role lower item.category) role then item ∷ rest else rest

-- xs[i % len(xs)] of `x ∷ xs`
abbrev pub pick : ClothingItem → List ClothingItem → ℕ → ClothingItem
pick x xs i = get_or (x ∷ xs) (i % length (x ∷ xs)) x

-- `scores` is ScoreItems of one item's traits.
module _ {F : Type 0} (float : Float64 F) (scores : ClothingItem → Map F) where
  abbrev pub zero_or : Option F → F
  zero_or none = float.of_int 0
  zero_or (some v) = v

  abbrev pub total : F → ClothingItem → List (ScoredArchetype F) → F
  total acc item [] = acc
  total acc item (a ∷ top) =
      total (float.add acc (float.mul (zero_or (scores item a.name)) a.score)) item top

  abbrev pub item_scores : Map F → List ClothingItem → List (ScoredArchetype F) → Map F
  item_scores m [] top = m
  item_scores m (item ∷ items) top =
      item_scores (update m item.id (total (float.of_int 0) item top)) items top

  -- The place of an item before the first one that does not have a higher score.
  abbrev pub insert_ranked : Map F → ClothingItem → List ClothingItem → List ClothingItem
  insert_ranked m x [] = x ∷ []
  insert_ranked m x (y ∷ ys) =
      if float.lt (zero_or (m x.id)) (zero_or (m y.id))
      then y ∷ insert_ranked m x ys
      else x ∷ y ∷ ys

  -- sort.SliceStable, the highest score first
  abbrev pub sort_ranked : Map F → List ClothingItem → List ClothingItem
  sort_ranked m [] = []
  sort_ranked m (x ∷ xs) = insert_ranked m x (sort_ranked m xs)

  unfoldable pub rank_by_archetype :
      List ClothingItem → List (ScoredArchetype F) → List ClothingItem
  rank_by_archetype items [] = items
  rank_by_archetype items (a ∷ top) = sort_ranked (item_scores empty items (a ∷ top)) items

-- The best of the optional pieces at a slot, where there are any.
abbrev pub attach_picked : List ClothingItem → ℕ → String → Draft → Draft → Draft
attach_picked [] i role d otherwise = otherwise
attach_picked (x ∷ xs) i role d otherwise = attach (pick x xs i) role d

abbrev pub attach_found : Option ClothingItem → Draft → Draft → Draft
attach_found none d otherwise = otherwise
attach_found (some extra) d otherwise = attach extra "accent" d

abbrev pub attach_unused : List ClothingItem → Draft → Draft → Draft
attach_unused items d otherwise = attach_found (first_unused items d.used) d otherwise

-- One turn of the loop, given the five buckets; those of tops, bottoms and footwear are not empty.
module _ (t : ClothingItem) (ts : List ClothingItem) (b : ClothingItem) (bs : List ClothingItem)
    (f : ClothingItem) (fs os as' : List ClothingItem) where
  abbrev pub basics : ℕ → Draft
  basics i =
      let x = pick t ts i in
      let y = pick b bs i in
      let z = pick f fs i in
      record {
        ids = x.id ∷ y.id ∷ z.id ∷ [];
        layout = put (put (put [] x.id "support") y.id "support") z.id "support";
        used = update (update (update empty x.id true) y.id true) z.id true;
      }

  -- With the outerwear, or the top promoted.
  unfoldable pub dressed : ℕ → Draft
  dressed i =
      let d = basics i in
      attach_picked os i "hero" d (record d { layout = put d.layout (pick t ts i).id "hero" })

  unfoldable pub accented : ℕ → Draft
  accented i = let d = dressed i in attach_picked as' i "accent" d d

  unfoldable pub draft : ℕ → Draft
  draft i =
      let d = accented i in
      if ltb (length d.ids) 4 then attach_unused (t ∷ ts) d (attach_unused (b ∷ bs) d d) else d

  module _ {Sc : Type 0} (no_scores : Sc) (decimal : ℕ → String) (primary : String) where
    unfoldable pub slots : ℕ → ℕ → List (Outfit Sc)
    slots i zero = []
    slots i (suc n) =
        let d = draft i in
        let rest = slots (suc i) n in
        if ltb (length d.ids) 4
        then rest
        else record {
          name = append primary (append " Look " (decimal (i + 1)));
          description =
              append "Wardrobe basics anchored by "
                (append (pick t ts i).label (append " and " (append (pick b bs i).label ".")));
          rationale = append "Built from your highest-scoring items for " (append primary ".");
          items = d.ids;
          item_snapshots = [];
          layout_roles = d.layout;
          visual_weights = [];
          archetype_scores = no_scores;
          smart_suggestion = "";
          panel_id = "";
          background_id = "";
          panel_url = "";
          background_url = "";
        }
          ∷ rest

-- The loop, where no required bucket is empty.
abbrev pub from_buckets :
    {Sc : Type 0}
    → Sc
    → (ℕ → String)
    → String
    → ℕ
    → List ClothingItem
    → List ClothingItem
    → List ClothingItem
    → List ClothingItem
    → List ClothingItem
    → List (Outfit Sc)
from_buckets no_scores decimal primary count [] bs fs os as' = []
from_buckets no_scores decimal primary count (t ∷ ts) [] fs os as' = []
from_buckets no_scores decimal primary count (t ∷ ts) (b ∷ bs) [] os as' = []
from_buckets no_scores decimal primary count (t ∷ ts) (b ∷ bs) (f ∷ fs) os as' =
    slots t ts b bs f fs os as' no_scores decimal primary 0 count

-- `titles` are those of archetype.Profiles, and `decimal` prints a number.
module _ {F Sc : Type 0} (float : Float64 F) (scores : ClothingItem → Map F) (lower : ℕ → ℕ)
    (no_scores : Sc) (decimal : ℕ → String) (titles : Map String) where
  abbrev pub primary_archetype : List (ScoredArchetype F) → String
  primary_archetype [] = "your style"
  primary_archetype (a ∷ top) = elim (titles a.name) [ none ↦ "your style" | some title ↦ title ]

  unfoldable pub build_fallback_outfits :
      List ClothingItem → List (ScoredArchetype F) → ℕ → List (Outfit Sc)
  build_fallback_outfits items top count =
      let bucket : Role → List ClothingItem =
        λ role. rank_by_archetype float scores (filter_by_role lower items role) top in
      from_buckets no_scores decimal (primary_archetype top) count (bucket tops) (bucket bottoms)
        (bucket footwear) (bucket outerwear) (bucket accessories)
