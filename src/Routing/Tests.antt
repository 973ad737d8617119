-- ===== src/Routing/Tests.antt =====
-- The routing on concrete tables.
use mootd.Prelude.{
  ℕ, ◌≡◌, ◌≢◌, arith, refl, subst, Option, none, some, List, [], ◌∷◌, String, Error, network, new,
  Result, ok, Map, empty, update, true, All,
}
use mootd.Cascade.{Reply, Generator}
use mootd.Cascade.Billing.{Bills}
use mootd.Routing.{
  ModelRoutingTier, fill, read, reload, provider_for_tier, invalidate, new_cached_routing_reader,
  pick_provider, generate_routed, check_tiers, validate_routing_update, valid_tiers,
}
use mootd.Routing.Cached.{
  Event, asked, invalidated, world_changed, run, IsAnswer, provider_for_tier_history,
}
use mootd.Routing.Updates.{IsServable, validate_routing_update-IsServable}

abbrev table : List ModelRoutingTier
table =
    record { tier = "free"; provider = "local" }
    ∷ record { tier = "paid"; provider = "cloud" }
    ∷ record { tier = "beta"; provider = "cloud" }
    ∷ record { tier = "founder"; provider = "local" }
    ∷ []

accepts : validate_routing_update table ("cloud" ∷ "local" ∷ []) ≡ none
unfolding validate_routing_update check_tiers
accepts = refl

validate_routing_update-IsServable_example :
    All (λ name. IsServable ("cloud" ∷ "local" ∷ []) (read (fill empty table) name)) valid_tiers
validate_routing_update-IsServable_example =
    validate_routing_update-IsServable ("cloud" ∷ "local" ∷ []) table accepts

-- The stored document.
abbrev repo : List ModelRoutingTier → Result (List ModelRoutingTier) × List ModelRoutingTier
repo w = (ok w, w)

abbrev events : List (Event (List ModelRoutingTier))
events = world_changed (λ w. []) ∷ asked 10 "paid" ∷ invalidated ∷ asked 3 "free" ∷ []

stale :
    (provider_for_tier repo 60 (run repo 100 table events).0 "free" (run repo 100 table events).1).0
    ≡ ok "local"
unfolding provider_for_tier reload fill run new_cached_routing_reader invalidate
stale = refl

provider_for_tier_history_example :
    IsAnswer repo 100 table events 60 "free"
      (provider_for_tier repo 60
        (run repo 100 table events).0
        "free"
        (run repo 100 table events).1).0
provider_for_tier_history_example = provider_for_tier_history repo 100 table 60 "free" events

-- The world is the usage of the latest failed call that had one.
abbrev World : Type 0
World = Option ℕ

abbrev cloud : Generator String ℕ ℕ World
cloud = record {
  name = "cloud";
  generate = λ _ w. (record { outfits = []; usage = some 7; error = some (network true) }, some 7);
}

abbrev local : Generator String ℕ ℕ World
local = record {
  name = "local";
  generate = λ _ w. (record { outfits = []; usage = none; error = some (new "down") }, w);
}

abbrev tier_for_user : String → World → Result String × World
tier_for_user user w = (ok "paid", w)

abbrev provider_for : String → World → Result String × World
provider_for tier w = (ok "cloud", w)

abbrev providers : Map (Generator String ℕ ℕ World)
providers = update empty "cloud" cloud

abbrev routed : Reply ℕ ℕ × World
routed = generate_routed tier_for_user provider_for providers local (λ user. user) "ann" none

routed_error : routed.0.error ≡ some (new "down")
unfolding generate_routed pick_provider
routed_error = refl

some_injective : (gen : Generator String ℕ ℕ World) → some cloud ≡ some gen → cloud ≡ gen
some_injective gen e = cc

cloud-Bills : Bills "ann" (λ w. w) cloud
cloud-Bills w e = refl

is_cloud :
    (name : String) (gen : Generator String ℕ ℕ World) → providers name ≡ some gen → cloud ≡ gen
is_cloud name gen e = ground arith

providers-Bills :
    (name : String) (gen : Generator String ℕ ℕ World)
    → providers name ≡ some gen
    → Bills "ann" (λ w. w) gen
providers-Bills name gen e = subst (Bills "ann" (λ w. w)) (is_cloud name gen e) cloud-Bills

is_some : (x : Error) → some x ≢ none
is_some x e = cc
