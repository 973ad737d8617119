-- ===== src/Cascade/Results.antt =====
-- How a call of the cascade can end.
use mathlib.Core.List.{Memᴰ}
use mootd.Prelude.{
  ℕ, ◌<◌, ◌≡◌, ◌⊎◌, inl, inr, refl, true, false, none, some, List, length, Error,
  all_providers_failed,
}
use mootd.Health.{HealthTracker}
use mootd.Cascade.{Reply, Generator, should_not_fallback, generate}
use mootd.Cascade.Rule.{generate-Q}

-- A success, an error that ends the chain, or the last of the errors that another provider could
-- have avoided.
abbrev pub IsResult : {O U : Type 0} → Reply O U → Type 0
IsResult r =
    (r.error ≡ none)
    ⊎ (should_not_fallback r.error ≡ true)
    ⊎ ((e : Error) × (r.error ≡ some (all_providers_failed e))
        × (should_not_fallback (some e) ≡ false))

module _ {R O U W : Type 0} (now : W → ℕ) (message : Error → List ℕ) (req : R) where
  -- A cascade of one or more providers never ends with the error "no provider attempted": its error
  -- is one that ends the chain, or wraps the last of those that do not.
  pub generate-IsResult :
      (chain : List (Generator R O U W)) (h : HealthTracker) (w : W)
      → 0 < length chain
      → IsResult (generate now message req chain h w).0
  generate-IsResult chain h w n =
      generate-Q now message req (λ u w'. Unit {0}) (λ r w'. IsResult r) chain h w
        (record {
          success = λ g u w' m p e. inl refl;
          final = λ g u w' x m p e stop. inr (inl stop);
          fall = λ g u w' x m p e go. tt;
          exhaust = λ u w' x p go. inr (inr (x, refl, go));
        })
        n tt

  -- `r` is what a provider of the chain replied without an error, by a call that left the world `end`.
  abbrev pub IsReplyOf : List (Generator R O U W) → Reply O U → W → Type 0
  IsReplyOf chain r end =
      (g : Generator R O U W) × Memᴰ g chain
      × (w : W) × ((g.generate req w).0.error ≡ none)
      × (r.outfits ≡ (g.generate req w).0.outfits)
      × (r.usage ≡ (g.generate req w).0.usage)
      × (end ≡ (g.generate req w).1)

  -- A success is a reply that a provider of the chain gave without an error, and its call was the
  -- last that the cascade made.
  pub generate_success :
      (chain : List (Generator R O U W)) (h : HealthTracker) (w : W)
      → 0 < length chain
      → (generate now message req chain h w).0.error ≡ none
      → IsReplyOf chain
          (generate now message req chain h w).0
          (generate now message req chain h w).2
  generate_success chain h w n =
      generate-Q now message req (λ u w'. Unit {0})
        (λ r end. r.error ≡ none → IsReplyOf chain r end) chain h w
        (record {
          success = λ g u w' m p e _. (g, m, w', e, refl, refl, refl);
          final = λ g u w' x m p e stop f. cc;
          fall = λ g u w' x m p e go. tt;
          exhaust = λ u w' x p go f. cc;
        })
        n tt
