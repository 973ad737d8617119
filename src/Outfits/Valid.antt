-- ===== src/Outfits/Valid.antt =====
-- What the validation promises of the outfits that it lets through, and which those are.
use mootd.Prelude.{
  ℕ, ◌≤◌, ◌≡◌, refl, sym, ap, ◌∙◌, Bool, true, false, ◌||◌, Option, none, some, List, [], ◌∷◌,
  String, str_eq, eq_refl, arith, if◌then◌else◌, ltb, length, any, All, Map, empty, update, Text,
  Option-cases, Bool-cases, inl, inr, ◌⊎◌,
}
use mathlib.Core.List.{Memᴰ}
use mootd.Outfits.{
  tops, bottoms, footwear, ClothingItem, Outfit, index, has_key, valid_items, outfit_fingerprint,
  has_role, admit, rescore, validate, validate_outfits,
}

valid_items-exist :
    (m : Map ClothingItem) (ids : List String) → All (λ id. has_key m id ≡ true) (valid_items m ids)
valid_items-exist m [] = tt
valid_items-exist m (id ∷ ids) = elim (Bool-cases (has_key m id)) [
  | inl e ↦ rw e (e, valid_items-exist m ids)
  | inr e ↦ rw e (valid_items-exist m ids)
]

or_true : (b : Bool) → (b || true) ≡ true
or_true true = refl
or_true false = refl

updated :
    (b : Bool) (o : Option Bool)
    → has_key (λ _. if b then some true else o) "" ≡ true
    → (b ≡ true) ⊎ (has_key (λ _. o) "" ≡ true)
updated true o h = inl refl
updated false o h = inr h

has_key-update :
    (m : Map Bool) (k j : String)
    → has_key (update m k true) j ≡ true
    → (str_eq k j ≡ true) ⊎ (has_key m j ≡ true)
has_key-update m k j h = updated (str_eq k j) (m j) h

valid_items-All :
    (m : Map ClothingItem) (ids : List String)
    → All (λ id. has_key m id ≡ true) ids
    → valid_items m ids ≡ ids
valid_items-All m [] h = refl
valid_items-All m (id ∷ ids) (h, hs) =
    rw (h, valid_items) (ap (λ r. id ∷ r) (valid_items-All m ids hs))

module _ {Sc : Type 0} (lower : ℕ → ℕ) (score : List ClothingItem → Sc)
    (suggest : Sc → (Text → Bool) → String) (items : List ClothingItem) where
  -- At least four items of the wardrobe, with a top, a bottom and footwear among them.
  pub record IsWearable (ids : List String) : Type 0 where
    pub enough : 4 ≤ length ids
    pub exist : All (λ id. has_key (index empty items) id ≡ true) ids
    pub top : has_role lower score suggest items tops ids ≡ true
    pub bottom : has_role lower score suggest items bottoms ids ≡ true
    pub shoes : has_role lower score suggest items footwear ids ≡ true

  abbrev admitted : Outfit Sc → Outfit Sc
  admitted o = record o { items = valid_items (index empty items) o.items }

  admit_cases :
      (o : Outfit Sc)
      → (admit lower score suggest items o ≡ none)
        ⊎ IsWearable (admitted o).items × (admit lower score suggest items o ≡ some (admitted o))
  unfolding admit
  admit_cases o =
      let ids = valid_items (index empty items) o.items in
      elim (Bool-cases (ltb (length ids) 4)) [
        | inl e ↦ inl (ground (arith, e))
        | inr e ↦ elim (Bool-cases (has_role lower score suggest items tops ids)) [
          | inr t ↦ inl (ground (arith, e, t))
          | inl t ↦ elim (Bool-cases (has_role lower score suggest items bottoms ids)) [
            | inr b ↦ inl (ground (arith, e, t, b))
            | inl b ↦ elim (Bool-cases (has_role lower score suggest items footwear ids)) [
              | inr f ↦ inl (ground (arith, e, t, b, f))
              | inl f ↦ inr (
                record {
                  enough = ground (arith, e);
                  exist = valid_items-exist (index empty items) o.items;
                  top = t;
                  bottom = b;
                  shoes = f;
                },
                ground (arith, e, t, b, f),
              )
            ]
          ]
        ]
      ]

  -- A wearable outfit is admitted as it is.
  pub admit-wearable :
      (o : Outfit Sc) → IsWearable o.items → admit lower score suggest items o ≡ some o
  unfolding admit
  admit-wearable o w =
      let same = valid_items-All (index empty items) o.items w.exist in
      rw (same, w.top, w.bottom, w.shoes) (ground (arith, w.enough))

  -- No two outfits have one fingerprint, and none has one of `seen`.
  abbrev pub IsDistinct : Map Bool → List (Outfit Sc) → Type 0
  IsDistinct seen [] = Unit
  IsDistinct seen (o ∷ os) =
      (has_key seen (outfit_fingerprint o) ≡ false)
      × IsDistinct (update seen (outfit_fingerprint o) true) os

  IsSound : Map Bool → List (Outfit Sc) → Type 0
  IsSound seen os = All (λ o. IsWearable o.items) os × IsDistinct seen os

  validate-IsSound :
      (seen : Map Bool) (os : List (Outfit Sc))
      → IsSound seen (validate lower score suggest items seen os)
  unfolding validate IsSound rescore outfit_fingerprint
  validate-IsSound seen [] = (tt, tt)
  validate-IsSound seen (o ∷ os) = elim (admit_cases o) [
    | inl e ↦ rw (e, validate) (validate-IsSound seen os)
    | inr (w, e) ↦ elim (Bool-cases (has_key seen (outfit_fingerprint (admitted o)))) [
      | inl k ↦ rw (e, k, validate) (validate-IsSound seen os)
      | inr k ↦
          let (ws, d) = validate-IsSound (update seen (outfit_fingerprint (admitted o)) true) os in
          rw (e, k, validate) ((w, ws), (k, d))
    ]
  ]

  -- The validated outfits have each at least four items, all of them of the wardrobe and a top, a bottom
  -- and footwear among them, and no two have the same fingerprint.
  pub validate_outfits-IsWearable :
      (os : List (Outfit Sc))
      → All (λ o. IsWearable o.items) (validate_outfits lower score suggest items os)
        × IsDistinct empty (validate_outfits lower score suggest items os)
  unfolding validate_outfits IsSound
  validate_outfits-IsWearable os = validate-IsSound empty os

  abbrev pub IsListed : String → List (Outfit Sc) → Type 0
  IsListed key os = any (λ r. str_eq (outfit_fingerprint r) key) os ≡ true

  fingerprint-rescore :
      (o : Outfit Sc)
      → outfit_fingerprint (rescore lower score suggest items o) ≡ outfit_fingerprint o
  unfolding rescore outfit_fingerprint
  fingerprint-rescore o = refl

  kept_or_IsListed :
      (q : Outfit Sc) (key : String) (seen : Map Bool) (all rest : List (Outfit Sc))
      → all ≡ rescore lower score suggest items q ∷ rest
      → (has_key (update seen (outfit_fingerprint q) true) key ≡ true) ⊎ IsListed key rest
      → (has_key seen key ≡ true) ⊎ IsListed key all
  kept_or_IsListed q key seen all rest e (inr l) = inr (rw (e, l) (or_true _))
  kept_or_IsListed q key seen all rest e (inl k) =
      elim (has_key-update seen (outfit_fingerprint q) key k) [
        | inl same ↦ inr (rw (e, fingerprint-rescore q, same) refl)
        | inr old ↦ inl old
      ]

  validate-IsListed :
      (seen : Map Bool) (o v : Outfit Sc) (os : List (Outfit Sc))
      → Memᴰ o os
      → admit lower score suggest items o ≡ some v
      → (has_key seen (outfit_fingerprint v) ≡ true)
        ⊎ IsListed (outfit_fingerprint v) (validate lower score suggest items seen os)
  unfolding validate
  validate-IsListed seen o v [] m h = elim m [ ]
  validate-IsListed seen o v (p ∷ os) (Memᴰ.head e) h =
      let a : admit lower score suggest items p ≡ some v =
        ap (admit lower score suggest items) (sym e) ∙ h in
      elim (Bool-cases (has_key seen (outfit_fingerprint v))) [
        | inl k ↦ inl k
        | inr k ↦ inr (ground (arith, a, k, fingerprint-rescore v, eq_refl (outfit_fingerprint v)))
      ]
  validate-IsListed seen o v (p ∷ os) (Memᴰ.tail m) h =
      elim (Option-cases (admit lower score suggest items p)) [
        | inl e ↦ ground (arith, e, validate-IsListed seen o v os m h)
        | inr (q, e) ↦ elim (Bool-cases (has_key seen (outfit_fingerprint q))) [
          | inl k ↦ ground (arith, e, k, validate-IsListed seen o v os m h)
          | inr k ↦
              let kept : validate lower score suggest items seen (p ∷ os)
                  ≡ rescore lower score suggest items q
                    ∷ validate lower score suggest items (update seen (outfit_fingerprint q) true)
                        os =
                ground (arith, e, k) in
              kept_or_IsListed q (outfit_fingerprint v) seen _ _ kept
                (validate-IsListed (update seen (outfit_fingerprint q) true) o v os m h)
        ]
      ]

  -- Each proposed outfit that passes the tests for items and roles is among the validated ones, or another
  -- with its fingerprint is.
  pub validate_outfits-IsListed :
      (o v : Outfit Sc) (os : List (Outfit Sc))
      → Memᴰ o os
      → admit lower score suggest items o ≡ some v
      → IsListed (outfit_fingerprint v) (validate_outfits lower score suggest items os)
  unfolding validate_outfits
  validate_outfits-IsListed o v os m h = elim (validate-IsListed empty o v os m h) [
    | inl k ↦ ground arith
    | inr l ↦ l
  ]
