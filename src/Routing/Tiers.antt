-- ===== src/Routing/Tiers.antt =====
-- The routing by tier on top of its fallback.
use mootd.Prelude.{
  ◌≡◌, ◌≢◌, Option, none, some, String, str_eq, arith, Error, Result, Map, Option-cases, Bool-cases,
  inl, inr,
}
use mootd.Cascade.{Reply, Generator}
use mootd.Cascade.Billing.{Bills}
use mootd.Routing.{pick_provider, generate_routed}

module _ {R O U W : Type 0} (tier_for_user : String → W → Result String × W)
    (provider_for : String → W → Result String × W) (by_provider : Map (Generator R O U W))
    (fallback : Generator R O U W) (user_id : R → String) (req : R) where
  abbrev routed : W → Reply O U × W
  routed = generate_routed tier_for_user provider_for by_provider fallback user_id req

  abbrev picked : W → String × W
  picked = pick_provider tier_for_user provider_for by_provider fallback user_id (user_id req)

  -- An error of the routed call is always an error of the fallback: neither a failed lookup of the
  -- tier or of its provider, nor an unknown provider, nor a failure of the chosen one is returned.
  pub error-generate_routed :
      (w : W) (e : Error)
      → (routed w).0.error ≡ some e
      → (w' : W) × ((fallback.generate req w').0.error ≡ some e)
  unfolding generate_routed
  error-generate_routed w e h = elim (Bool-cases (str_eq (picked w).0 "")) [
    | inl unset ↦ ((picked w).1, ground (arith, unset))
    | inr set_ ↦ elim (Option-cases (by_provider (picked w).0)) [
      | inl missing ↦ ((picked w).1, ground (arith, set_, missing))
      | inr (gen, built) ↦ ((gen.generate req (picked w).1).1, ground (arith, set_, built))
    ]
  ]

  -- If the routed call fails, the usage that it returns is that of the latest failed call that had one,
  -- the chosen provider's as well as the fallback's.
  pub usage-generate_routed :
      (billed : W → Option U) (w : W)
      → ((name : String) (gen : Generator R O U W)
          → by_provider name ≡ some gen
          → Bills req billed gen)
      → Bills req billed fallback
      → billed (picked w).1 ≡ none
      → (routed w).0.error ≢ none
      → (routed w).0.usage ≡ billed (routed w).1
  unfolding generate_routed
  usage-generate_routed billed w laws law start h = elim (Bool-cases (str_eq (picked w).0 "")) [
    | inl unset ↦ ground (arith, unset, law (picked w).1)
    | inr set_ ↦ elim (Option-cases (by_provider (picked w).0)) [
      | inl missing ↦ ground (arith, set_, missing, law (picked w).1)
      | inr (gen, built) ↦
          let w1 = (picked w).1 in
          let bills = laws (picked w).0 gen built w1 in
          ground (arith, set_, built, bills, law (gen.generate req w1).1)
    ]
  ]
