-- ===== src/Routing/Updates.antt =====
-- What an accepted edit of the routing table gives to a reader of it.
use mootd.Prelude.{
  ℕ, ◌+◌, ◌≡◌, refl, sym, subst, ◌⊎◌, inl, inr, Bool, true, false, Option, none, some, List, [],
  ◌∷◌, String, str_eq, eq_iff, arith, length, All, Map, empty, update,
}
use mootd.Routing.{
  ModelRoutingTier, fill, read, valid_tiers, all_false, is_allowed, check_tiers,
  validate_routing_update,
}

-- A provider that the code may be sent to.
abbrev pub IsServable : List String → String → Type 0
IsServable allowed p = (str_eq p "" ≡ false) × (is_allowed allowed p ≡ true)

weight : Option Bool → ℕ
weight none = 0
weight (some true) = 0
weight (some false) = 1

abbrev unseen : Map Bool → ℕ
unseen seen =
    weight (seen "free") + weight (seen "paid") + weight (seen "founder") + weight (seen "beta")

mark : Map Bool → List ModelRoutingTier → Map Bool
mark seen [] = seen
mark seen (t ∷ ts) = mark (update seen t.tier true) ts

-- The keys of `seen` are valid tiers.
abbrev IsTiers : Map Bool → Type 0
IsTiers seen =
    (k : String) → (seen k ≡ none) ⊎ (k ≡ "free") ⊎ (k ≡ "paid") ⊎ (k ≡ "founder") ⊎ (k ≡ "beta")

module _ (allowed : List String) where
  check_tiers-step :
      (seen : Map Bool) (t : ModelRoutingTier) (ts : List ModelRoutingTier)
      → check_tiers seen allowed (t ∷ ts) ≡ none
      → (seen t.tier ≡ some false)
        × IsServable allowed t.provider
        × (check_tiers (update seen t.tier true) allowed ts ≡ none)
  unfolding check_tiers
  check_tiers-step seen t ts h = ground arith

  check_tiers-IsServable :
      (seen : Map Bool) (ts : List ModelRoutingTier)
      → check_tiers seen allowed ts ≡ none
      → All (λ t. IsServable allowed t.provider) ts
  check_tiers-IsServable seen [] h = tt
  check_tiers-IsServable seen (t ∷ ts) h =
      let (_, p, k) = check_tiers-step seen t ts h in
      (p, check_tiers-IsServable (update seen t.tier true) ts k)

  unseen-update :
      (seen : Map Bool) (k : String)
      → IsTiers seen
      → seen k ≡ some false
      → unseen seen ≡ 1 + unseen (update seen k true)
  unfolding weight
  unseen-update seen k d h =
      let drop : String → Type 0 =
        λ k. seen k ≡ some false → unseen seen ≡ 1 + unseen (update seen k true) in
      elim (d k) [
        | inl e ↦ ground (arith, e, h)
        | inr (inl e) ↦ subst drop (sym e) (λ h. ground arith) h
        | inr (inr (inl e)) ↦ subst drop (sym e) (λ h. ground arith) h
        | inr (inr (inr (inl e))) ↦ subst drop (sym e) (λ h. ground arith) h
        | inr (inr (inr (inr e))) ↦ subst drop (sym e) (λ h. ground arith) h
      ]

  update-IsTiers :
      (seen : Map Bool) (k : String)
      → IsTiers seen
      → seen k ≡ some false
      → IsTiers (update seen k true)
  update-IsTiers seen k d h j = ground (arith, d j, d k, eq_iff k j)

  unseen-mark :
      (seen : Map Bool) (ts : List ModelRoutingTier)
      → IsTiers seen
      → check_tiers seen allowed ts ≡ none
      → unseen seen ≡ length ts + unseen (mark seen ts)
  unfolding mark
  unseen-mark seen [] d h = omega arith
  unseen-mark seen (t ∷ ts) d h =
      let (s, _, k) = check_tiers-step seen t ts h in
      let less = unseen-update seen t.tier d s in
      omega
        (arith, less, unseen-mark (update seen t.tier true) ts (update-IsTiers seen t.tier d s) k)

  fill-IsServable :
      (seen : Map Bool) (m : Map String) (name : String) (ts : List ModelRoutingTier)
      → All (λ t. IsServable allowed t.provider) ts
      → ((mark seen ts name ≡ seen name) × (fill m ts name ≡ m name))
        ⊎ IsServable allowed (read (fill m ts) name)
  unfolding mark fill
  fill-IsServable seen m name [] h = inl (refl, refl)
  fill-IsServable seen m name (t ∷ ts) (p, ps) =
      ground (
        arith,
        p,
        fill-IsServable (update seen t.tier true) (update m t.tier t.provider) name ts ps,
      )

  all_false-IsTiers : IsTiers (all_false valid_tiers)
  all_false-IsTiers k =
      ground (arith, eq_iff "free" k, eq_iff "paid" k, eq_iff "founder" k, eq_iff "beta" k)

  IsAccepted : List ModelRoutingTier → Type 0
  IsAccepted tiers = (length tiers ≡ 4) × (check_tiers (all_false valid_tiers) allowed tiers ≡ none)

  validate_routing_update-IsAccepted :
      (tiers : List ModelRoutingTier)
      → validate_routing_update tiers allowed ≡ none
      → IsAccepted tiers
  unfolding validate_routing_update IsAccepted
  validate_routing_update-IsAccepted tiers h = ground arith

  nothing_unseen :
      (tiers : List ModelRoutingTier)
      → IsAccepted tiers
      → unseen (mark (all_false valid_tiers) tiers) ≡ 0
  unfolding IsAccepted weight
  nothing_unseen tiers (l, k) =
      omega (arith, unseen-mark (all_false valid_tiers) tiers all_false-IsTiers k)

  -- If the validation accepts an edit, then a reader of the new table finds for each of the four tiers
  -- a provider that is not empty and that is one of those allowed.
  pub validate_routing_update-IsServable :
      (tiers : List ModelRoutingTier)
      → validate_routing_update tiers allowed ≡ none
      → All (λ name. IsServable allowed (read (fill empty tiers) name)) valid_tiers
  unfolding IsAccepted weight
  validate_routing_update-IsServable tiers h =
      let a = validate_routing_update-IsAccepted tiers h in
      let ps = check_tiers-IsServable (all_false valid_tiers) tiers a.1 in
      let found = λ (name : String). fill-IsServable (all_false valid_tiers) empty name tiers ps in
      ground
        (arith, nothing_unseen tiers a, found "free", found "paid", found "founder", found "beta")
