-- ===== src/Routing.antt =====
-- backend/internal/outfit/tier_routing.go and backend/internal/admin/routing.go: which provider serves
-- a user's tier, the cached table behind it, and the check of an edit of that table.
pub mod Tiers
pub mod Cached
pub mod Updates
pub mod Tests
use mootd.Prelude.{
  ℕ, zero, suc, ◌+◌, Bool, true, false, not, ◌&&◌, ◌||◌, Option, none, some, List, [], ◌∷◌, String,
  str_eq, ltb, ◌==◌, length, if◌then◌else◌, Error, new, Result, ok, err, Map, empty, update,
}
use mootd.Cascade.{Reply, Generator, keep}

-- The admin side's routing table.
pub record ModelRoutingTier : Type 0 where
  pub tier : String
  pub provider : String

abbrev pub default_ttl : ℕ
default_ttl = 30_000_000_000

-- `tier` is nil as `none`, and `repo` is the repository's `Get`, with the document's tiers.
pub record CachedRoutingReader : Type 0 where
  pub tier : Option (Map String)
  pub exp : ℕ
  pub ttl : ℕ

unfoldable pub new_cached_routing_reader : ℕ → CachedRoutingReader
new_cached_routing_reader ttl = record {
  tier = none;
  exp = 0;
  ttl = if ttl == 0 then default_ttl else ttl;
}

-- m[t.Tier] = t.Provider, over the document's tiers
unfoldable pub fill : Map String → List ModelRoutingTier → Map String
fill m [] = m
fill m (t ∷ ts) = fill (update m t.tier t.provider) ts

-- A read of a Go map: the zero value where the key is missing.
abbrev pub read : Map String → String → String
read m k = elim (m k) [ none ↦ "" | some v ↦ v ]

module _ {W : Type 0} (repo : W → Result (List ModelRoutingTier) × W) where
  -- The part of `ProviderForTier` under the write lock, where the cache has nothing to serve.
  unfoldable pub reload :
      ℕ → CachedRoutingReader → String → W → Result String × CachedRoutingReader × W
  unfolding fill
  reload now c tier w =
      let (doc, w') = repo w in
      elim doc [
        | err e ↦ (err e, c, w')
        | ok tiers ↦
            let m = fill empty tiers in
            (ok (read m tier), record c { tier = some m; exp = now + c.ttl }, w')
      ]

  -- No other call comes between the two locks, so the second look at the cache sees what the first saw.
  unfoldable pub provider_for_tier :
      ℕ → CachedRoutingReader → String → W → Result String × CachedRoutingReader × W
  unfolding reload
  provider_for_tier now c tier w =
      let reloaded = reload now c tier w in
      elim c.tier [
        | none ↦ reloaded
        | some m ↦ if ltb now c.exp then (ok (read m tier), c, w) else reloaded
      ]

unfoldable pub invalidate : CachedRoutingReader → CachedRoutingReader
invalidate c = record c { tier = none; exp = 0 }

-- The outfit side. `tier_for_user` and `provider_for` are the two interfaces that it is given.
module _ {R O U W : Type 0} (tier_for_user : String → W → Result String × W)
    (provider_for : String → W → Result String × W) (by_provider : Map (Generator R O U W))
    (fallback : Generator R O U W) (user_id : R → String) where
  unfoldable pub pick_provider : String → W → String × W
  pick_provider user w =
      let (tier, w1) = tier_for_user user w in
      elim tier [
        | err e ↦ ("", w1)
        | ok t ↦
            let (provider, w2) = provider_for t w1 in
            if str_eq t "" then ("", w1) else elim provider [ err e ↦ ("", w2) | ok p ↦ (p, w2) ]
      ]

  unfoldable pub generate_routed : R → W → Reply O U × W
  unfolding pick_provider
  generate_routed req w =
      let (chosen, w1) = pick_provider (user_id req) w in
      if str_eq chosen "" then fallback.generate req w1 else elim (by_provider chosen) [
        | none ↦ fallback.generate req w1
        | some gen ↦
            let (reply, w2) = gen.generate req w1 in
            elim reply.error [
              | none ↦ (record reply { error = none }, w2)
              | some e ↦
                  let (fb, w3) = fallback.generate req w2 in
                  (record fb { usage = keep fb.usage reply.usage }, w3)
            ]
      ]

-- The validation of an edit.
abbrev pub valid_tiers : List String
valid_tiers = "free" ∷ "paid" ∷ "founder" ∷ "beta" ∷ []

pub data UpdateError : Type 0 where
  wrong_count : ℕ → UpdateError
  unknown_tier duplicate_tier empty_provider : String → UpdateError
  unknown_provider : String → String → UpdateError

abbrev pub all_false : List String → Map Bool
all_false [] = empty
all_false (t ∷ ts) = update (all_false ts) t false

abbrev pub is_allowed : List String → String → Bool
is_allowed [] p = false
is_allowed (a ∷ as') p = str_eq a p || is_allowed as' p

unfoldable pub check_tiers : Map Bool → List String → List ModelRoutingTier → Option UpdateError
check_tiers seen allowed [] = none
check_tiers seen allowed (t ∷ ts) =
    let rest = check_tiers (update seen t.tier true) allowed ts in
    elim (seen t.tier) [
      | none ↦ some (unknown_tier t.tier)
      | some true ↦ some (duplicate_tier t.tier)
      | some false ↦
          if str_eq t.provider ""
          then some (empty_provider t.tier)
          else if is_allowed allowed t.provider
          then rest
          else some (unknown_provider t.tier t.provider)
    ]

-- `none` is a nil error.
unfoldable pub validate_routing_update : List ModelRoutingTier → List String → Option UpdateError
unfolding check_tiers
validate_routing_update tiers allowed =
    if length tiers == length valid_tiers
    then check_tiers (all_false valid_tiers) allowed tiers
    else some (wrong_count (length tiers))
