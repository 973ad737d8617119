-- ===== src/Outfits/Snapshots.antt =====
-- backend/internal/outfit/service.go: attachItemSnapshots and resolveSurfaceURLs.
use mootd.Prelude.{
  ◌≡◌, refl, subst, Bool, true, false, not, ◌||◌, Option, none, some, List, [], ◌∷◌, map, String,
  str_eq, eq_iff, arith, if◌then◌else◌, any, All, Map, empty, update, Option-cases, Bool-cases, inl,
  inr, ◌⊎◌,
}
use mootd.Outfits.{ClothingItem, Outfit, OutfitItemSnapshot, owned, filler, index, has_key}

-- `preferred` is the set preferredIDs.
abbrev pub snapshot : (String → Bool) → String → ClothingItem → OutfitItemSnapshot
snapshot preferred id it = record {
  id = it.id;
  category = it.category;
  label = it.label;
  image_url = it.image_url;
  png_image_url = it.png_image_url;
  source = if preferred id then owned else filler;
}

abbrev pub snapshots : Map ClothingItem → (String → Bool) → List String → List OutfitItemSnapshot
snapshots by_id preferred [] = []
snapshots by_id preferred (id ∷ ids) = elim (by_id id) [
  | none ↦ snapshots by_id preferred ids
  | some it ↦ snapshot preferred id it ∷ snapshots by_id preferred ids
]

abbrev pub is_empty {ℓ} : {A : Type ℓ} → List A → Bool
is_empty [] = true
is_empty (x ∷ xs) = false

unfoldable pub attach_item_snapshots :
    {Sc : Type 0} → List (Outfit Sc) → List ClothingItem → (String → Bool) → List (Outfit Sc)
attach_item_snapshots outfits items preferred =
    let by_id = index empty items in
    if is_empty outfits || is_empty items
    then outfits
    else map
        (λ o.
          if is_empty o.items
          then o
          else record o { item_snapshots = snapshots by_id preferred o.items })
        outfits

-- A nil list of surfaces is `none`; a list is that of its ids.
abbrev pub is_allowed : Option (List String) → String → Bool
is_allowed list id =
    if str_eq id ""
    then false
    else elim list [ none ↦ true | some ids ↦ any (λ a. str_eq a id) ids ]

module _ {Sc : Type 0} (url : String → String) (allowed : Option (List String)) where
  unfoldable pub resolve_panel : Outfit Sc → Outfit Sc
  resolve_panel o =
      if is_allowed allowed o.panel_id
      then record o { panel_url = url o.panel_id }
      else if not (str_eq o.panel_id "")
      then record o { panel_id = ""; panel_url = "" }
      else o

  unfoldable pub resolve_background : Outfit Sc → Outfit Sc
  resolve_background o =
      if is_allowed allowed o.background_id
      then record o { background_url = url o.background_id }
      else if not (str_eq o.background_id "")
      then record o { background_id = ""; background_url = "" }
      else o

-- `surfaces` is the provider's ResolveURL, or `none` for a nil provider.
unfoldable pub resolve_surface_urls :
    {Sc : Type 0}
    → Option (String → String)
    → Option (List String)
    → Option (List String)
    → List (Outfit Sc)
    → List (Outfit Sc)
resolve_surface_urls none panels backgrounds outfits = outfits
resolve_surface_urls (some url) panels backgrounds outfits =
    map (λ o. resolve_background url backgrounds (resolve_panel url panels o)) outfits

index-id :
    (m : Map ClothingItem) (items : List ClothingItem) (id : String) (it : ClothingItem)
    → ((j : String) (x : ClothingItem) → m j ≡ some x → x.id ≡ j)
    → index m items id ≡ some it
    → it.id ≡ id
index-id m [] id it law h = law id it h
index-id m (x ∷ items) id it law h =
    index-id (update m x.id x) items id it (λ j y e. ground (arith, e, eq_iff x.id j, law j y)) h

snapshots-id :
    (by_id : Map ClothingItem) (preferred : String → Bool) (ids : List String)
    → ((j : String) (x : ClothingItem) → by_id j ≡ some x → x.id ≡ j)
    → All (λ id. has_key by_id id ≡ true) ids
    → map (λ s. s.id) (snapshots by_id preferred ids) ≡ ids
snapshots-id by_id preferred [] law h = refl
snapshots-id by_id preferred (id ∷ ids) law (h, hs) = elim (Option-cases (by_id id)) [
  | inl e ↦ ground (arith, e, h)
  | inr (it, e) ↦ rw (e, map) (ground (arith, law id it e, snapshots-id by_id preferred ids law hs))
]

module _ {Sc : Type 0} (items : List ClothingItem) (preferred : String → Bool) where
  -- Each of its items is in the wardrobe.
  abbrev pub Exist : Outfit Sc → Type 0
  Exist o = All (λ id. has_key (index empty items) id ≡ true) o.items

  abbrev pub IsComplete : Outfit Sc → Type 0
  IsComplete o = map (λ s. s.id) o.item_snapshots ≡ o.items

  with_snapshots : Outfit Sc → Outfit Sc
  with_snapshots o =
      if is_empty o.items
      then o
      else record o { item_snapshots = snapshots (index empty items) preferred o.items }

  with_snapshots-IsComplete :
      (o : Outfit Sc) → is_empty o.items ≡ false → Exist o → IsComplete (with_snapshots o)
  unfolding with_snapshots
  with_snapshots-IsComplete o n h = rw n (
      snapshots-id (index empty items) preferred o.items
        (λ j x e. index-id empty items j x (λ k y z. ground arith) e) h)

  map-IsComplete :
      (os : List (Outfit Sc))
      → All (λ o. is_empty o.items ≡ false) os
      → All Exist os
      → All IsComplete (map with_snapshots os)
  map-IsComplete [] ns hs = tt
  map-IsComplete (o ∷ os) (n, ns) (h, hs) =
      (with_snapshots-IsComplete o n h, map-IsComplete os ns hs)

  -- If each outfit has items and they all exist, then each one's snapshots are those of its items, one for
  -- each, in their order.
  pub attach_item_snapshots-IsComplete :
      (os : List (Outfit Sc))
      → is_empty items ≡ false
      → All (λ o. is_empty o.items ≡ false) os
      → All Exist os
      → All IsComplete (attach_item_snapshots os items preferred)
  unfolding attach_item_snapshots with_snapshots
  attach_item_snapshots-IsComplete [] i ns hs = tt
  attach_item_snapshots-IsComplete (o ∷ os) i ns hs = rw i (map-IsComplete (o ∷ os) ns hs)

module _ {Sc : Type 0} (url : String → String) (panels backgrounds : Option (List String)) where
  -- A surface that was picked is an allowed one, with its URL.
  abbrev pub IsResolved : Outfit Sc → Type 0
  IsResolved o =
      ((o.panel_id ≡ "") ⊎ (is_allowed panels o.panel_id ≡ true) × (o.panel_url ≡ url o.panel_id))
      × ((o.background_id ≡ "")
          ⊎ (is_allowed backgrounds o.background_id ≡ true)
            × (o.background_url ≡ url o.background_id))

  abbrev IsPanel : Outfit Sc → Type 0
  IsPanel o =
      (o.panel_id ≡ "") ⊎ (is_allowed panels o.panel_id ≡ true) × (o.panel_url ≡ url o.panel_id)

  resolve_panel-IsPanel : (o : Outfit Sc) → IsPanel (resolve_panel url panels o)
  unfolding resolve_panel
  resolve_panel-IsPanel o = elim (Bool-cases (is_allowed panels o.panel_id)) [
    | inl a ↦
        let e : record o { panel_url = url o.panel_id } ≡ resolve_panel url panels o =
          ground (arith, a) in
        subst IsPanel e (inr (a, refl))
    | inr a ↦ elim (Bool-cases (str_eq o.panel_id "")) [
      | inl n ↦ inl (ground (arith, a, n, eq_iff o.panel_id ""))
      | inr n ↦ inl (ground (arith, a, n))
    ]
  ]

  resolve_background-IsResolved :
      (o : Outfit Sc) → IsPanel o → IsResolved (resolve_background url backgrounds o)
  unfolding resolve_background
  resolve_background-IsResolved o p = elim (Bool-cases (is_allowed backgrounds o.background_id)) [
    | inl a ↦
        let e : record o { background_url = url o.background_id }
            ≡ resolve_background url backgrounds o =
          ground (arith, a) in
        subst IsResolved e (p, inr (a, refl))
    | inr a ↦ elim (Bool-cases (str_eq o.background_id "")) [
      | inl n ↦
          let e : o ≡ resolve_background url backgrounds o = ground (arith, a, n) in
          subst IsResolved e (p, inl ((eq_iff o.background_id "").0 n))
      | inr n ↦
          let e : record o { background_id = ""; background_url = "" }
              ≡ resolve_background url backgrounds o =
            ground (arith, a, n) in
          subst IsResolved e (p, inl refl)
    ]
  ]

  -- After the resolution each outfit has no panel, or an allowed one with the provider's URL for it, and
  -- so for its background.
  pub resolve_surface_urls-IsResolved :
      (os : List (Outfit Sc))
      → All IsResolved (resolve_surface_urls (some url) panels backgrounds os)
  unfolding resolve_surface_urls
  resolve_surface_urls-IsResolved [] = tt
  resolve_surface_urls-IsResolved (o ∷ os) = (
    resolve_background-IsResolved (resolve_panel url panels o) (resolve_panel-IsPanel o),
    resolve_surface_urls-IsResolved os,
  )
