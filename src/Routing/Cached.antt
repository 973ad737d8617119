-- ===== src/Routing/Cached.antt =====
-- How old a table the cached reader may serve.
use mootd.Prelude.{
  ℕ, ◌+◌, ◌<◌, ◌≡◌, refl, Option, none, some, List, [], ◌∷◌, String, arith, Error, Result, ok, err,
  Map, empty, Option-cases, Bool-cases, Result-cases, inl, inr, ◌⊎◌, ltb, ltb→lt, ap, sym, subst,
  true, false,
}
use mootd.Routing.{
  ModelRoutingTier, CachedRoutingReader, new_cached_routing_reader, fill, read, reload,
  provider_for_tier, invalidate,
}

-- What happens to the reader and to the world around it.
pub data Event (W : Type 0) : Type 0 where
  asked : ℕ → String → Event W
  invalidated : Event W
  world_changed : (W → W) → Event W

module _ {W : Type 0} (repo : W → Result (List ModelRoutingTier) × W) (ttl : ℕ) (initial : W) where
  -- The events, the last one first.
  unfoldable pub run : List (Event W) → CachedRoutingReader × W
  run [] = (new_cached_routing_reader ttl, initial)
  run (asked now tier ∷ es) =
      let (c, w) = run es in
      ((provider_for_tier repo now c tier w).1, (provider_for_tier repo now c tier w).2)
  run (invalidated ∷ es) = let (c, w) = run es in (invalidate c, w)
  run (world_changed f ∷ es) = let (c, w) = run es in (c, f w)

  module _ {κ} (now : ℕ) (c : CachedRoutingReader) (tier : String) (w : W)
      (Q : Result String × CachedRoutingReader × W → Type κ)
      (failed : (e : Error) → Q (err e, c, (repo w).1))
      (filled : (tiers : List ModelRoutingTier)
        → (repo w).0 ≡ ok tiers
        → Q (
          ok (read (fill empty tiers) tier),
          record c { tier = some (fill empty tiers); exp = now + c.ttl },
          (repo w).1,
        )) where
    reload-Q : Q (reload repo now c tier w)
    unfolding reload
    reload-Q = elim (Result-cases (repo w).0) [
      | inl (tiers, e) ↦ rw (e, reload) (filled tiers e)
      | inr (x, e) ↦ rw (e, reload) (failed x)
    ]

    miss : c.tier ≡ none → provider_for_tier repo now c tier w ≡ reload repo now c tier w
    unfolding provider_for_tier
    miss e = cc

    fresh :
        (m : Map String)
        → c.tier ≡ some m
        → ltb now c.exp ≡ true
        → provider_for_tier repo now c tier w ≡ (ok (read m tier), c, w)
    unfolding provider_for_tier
    fresh m e l = cc

    stale :
        (m : Map String)
        → c.tier ≡ some m
        → ltb now c.exp ≡ false
        → provider_for_tier repo now c tier w ≡ reload repo now c tier w
    unfolding provider_for_tier
    stale m e l = cc

    -- A call is a hit, a failed read or a fill.
    provider_for_tier-Q :
        ((m : Map String) → c.tier ≡ some m → now < c.exp → Q (ok (read m tier), c, w))
        → Q (provider_for_tier repo now c tier w)
    provider_for_tier-Q hit = elim (Option-cases c.tier) [
      | inl e ↦ subst Q (sym (miss e)) reload-Q
      | inr (m, e) ↦ elim (Bool-cases (ltb now c.exp)) [
        | inl l ↦ subst Q (sym (fresh m e l)) (hit m e (ltb→lt now c.exp l))
        | inr l ↦ subst Q (sym (stale m e l)) reload-Q
      ]
    ]

  -- The reader was asked at time `at`, when the world was `w`, and not invalidated since.
  abbrev pub IsSource : List (Event W) → ℕ → W → Type 0
  IsSource [] at w = ⊥
  IsSource (asked now tier ∷ es) at w = ((at ≡ now) × (w ≡ (run es).1)) ⊎ IsSource es at w
  IsSource (invalidated ∷ es) at w = ⊥
  IsSource (world_changed f ∷ es) at w = IsSource es at w

  -- The cached table is what the repository returned to the call at time `at`.
  record IsFrom (es : List (Event W)) (m : Map String) (exp : ℕ) : Type 0 where
    at : ℕ
    world : W
    tiers : List ModelRoutingTier
    source : IsSource es at world
    returned : (repo world).0 ≡ ok tiers
    filled : m ≡ fill empty tiers
    expires : exp ≡ at + (new_cached_routing_reader ttl).ttl

  abbrev IsTable : List (Event W) → Option (Map String) → ℕ → Type 0
  IsTable es none exp = Unit
  IsTable es (some m) exp = IsFrom es m exp

  ttl-run : (es : List (Event W)) → (run es).0.ttl ≡ (new_cached_routing_reader ttl).ttl
  unfolding run provider_for_tier invalidate
  ttl-run [] = refl
  ttl-run (asked now tier ∷ es) = ground (arith, ttl-run es)
  ttl-run (invalidated ∷ es) = ttl-run es
  ttl-run (world_changed f ∷ es) = ttl-run es

  kept :
      (es fs : List (Event W)) (o : Option (Map String)) (exp : ℕ)
      → ((at : ℕ) (w : W) → IsSource es at w → IsSource fs at w)
      → IsTable es o exp
      → IsTable fs o exp
  kept es fs none exp sub t = tt
  kept es fs (some m) exp sub t = record {
    at = t.at;
    world = t.world;
    tiers = t.tiers;
    source = sub t.at t.world t.source;
    returned = t.returned;
    filled = t.filled;
    expires = t.expires;
  }

  asked-IsTable :
      (now : ℕ) (tier : String) (es : List (Event W))
      → IsTable es (run es).0.tier (run es).0.exp
      → IsTable
          (asked now tier ∷ es)
          (run (asked now tier ∷ es)).0.tier
          (run (asked now tier ∷ es)).0.exp
  unfolding run
  asked-IsTable now tier es h =
      let (c, w) = run es in
      let old = kept es (asked now tier ∷ es) c.tier c.exp (λ at w s. inr s) h in
      provider_for_tier-Q now c tier w (λ r. IsTable (asked now tier ∷ es) r.1.tier r.1.exp)
        (λ e. old)
        (λ tiers e. record {
          at = now;
          world = w;
          tiers = tiers;
          source = inl (refl, refl);
          returned = e;
          filled = refl;
          expires = ap (λ t. now + t) (ttl-run es);
        })
        (λ m e l. old)

  run-IsTable : (es : List (Event W)) → IsTable es (run es).0.tier (run es).0.exp
  unfolding run invalidate new_cached_routing_reader
  run-IsTable [] = tt
  run-IsTable (asked now tier ∷ es) = asked-IsTable now tier es (run-IsTable es)
  run-IsTable (invalidated ∷ es) = tt
  run-IsTable (world_changed f ∷ es) =
      kept es (world_changed f ∷ es) (run es).0.tier (run es).0.exp (λ at w s. s) (run-IsTable es)

  -- A served value, the document it is from, and that document's age.
  pub record IsServed (es : List (Event W)) (now : ℕ) (tier v : String) : Type 0 where
    at : ℕ
    world : W
    tiers : List ModelRoutingTier
    source : IsSource (asked now tier ∷ es) at world
    returned : (repo world).0 ≡ ok tiers
    entry : v ≡ read (fill empty tiers) tier
    age : (at ≡ now) ⊎ (now < at + (new_cached_routing_reader ttl).ttl)

  hit-IsServed :
      (now : ℕ) (tier : String) (es : List (Event W)) (m : Map String)
      → (run es).0.tier ≡ some m
      → now < (run es).0.exp
      → IsServed es now tier (read m tier)
  hit-IsServed now tier es m e l =
      let t : IsFrom es m (run es).0.exp =
        subst (λ o. IsTable es o (run es).0.exp) e (run-IsTable es) in
      record {
        at = t.at;
        world = t.world;
        tiers = t.tiers;
        source = inr t.source;
        returned = t.returned;
        entry = ap (λ m. read m tier) t.filled;
        age = inr (subst (λ x. now < x) t.expires l);
      }

  abbrev pub IsAnswer : List (Event W) → ℕ → String → Result String → Type 0
  IsAnswer es now tier (ok v) = IsServed es now tier v
  IsAnswer es now tier (err e) = Unit

  -- Whatever calls, invalidations and changes of the store came before, an answer that is not an
  -- error is the tier's entry of a document that the repository returned to this call, or to an earlier
  -- one that no invalidation followed and that is less than the TTL ago.
  pub provider_for_tier_history :
      (now : ℕ) (tier : String) (es : List (Event W))
      → IsAnswer es now tier (provider_for_tier repo now (run es).0 tier (run es).1).0
  provider_for_tier_history now tier es =
      let (c, w) = run es in
      provider_for_tier-Q now c tier w (λ r. IsAnswer es now tier r.0) (λ e. tt)
        (λ tiers e. record {
          at = now;
          world = w;
          tiers = tiers;
          source = inl (refl, refl);
          returned = e;
          entry = refl;
          age = inl refl;
        })
        (hit-IsServed now tier es)
