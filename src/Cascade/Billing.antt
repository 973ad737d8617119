-- ===== src/Cascade/Billing.antt =====
-- The usage that a failed cascade hands on to the ledger.
use mootd.Prelude.{
  ℕ, ◌<◌, ◌≡◌, ◌≢◌, refl, sym, ap, ◌∙◌, true, false, Option, none, List, length, All, All-mem,
  Error,
}
use mootd.Health.{HealthTracker}
use mootd.Cascade.{Generator, should_not_fallback, keep, generate}
use mootd.Cascade.Rule.{generate-Q}

-- `billed` is, in the world that a failed call of the provider leaves, the usage of that call if it had
-- one, and what it was before otherwise.
abbrev pub Bills : {R O U W : Type 0} → R → (W → Option U) → Generator R O U W → Type 0
Bills {W = W} req billed g =
    (w : W)
    → (g.generate req w).0.error ≢ none
    → billed (g.generate req w).1 ≡ keep (g.generate req w).0.usage (billed w)

-- `last` is, in the world that a call of the provider leaves, the usage of that call.
abbrev pub Reports : {R O U W : Type 0} → R → (W → Option U) → Generator R O U W → Type 0
Reports {W = W} req last g = (w : W) → last (g.generate req w).1 ≡ (g.generate req w).0.usage

module _ {R O U W : Type 0} (now : W → ℕ) (message : Error → List ℕ) (req : R) where
  -- If every provider that was called failed and none of the errors ended the chain, then the reply
  -- carries the usage of the latest failed call that had one.
  pub usage-generate :
      (billed : W → Option U) (chain : List (Generator R O U W)) (h : HealthTracker) (w : W)
      → All (Bills req billed) chain
      → 0 < length chain
      → billed w ≡ none
      → (generate now message req chain h w).0.error ≢ none
      → should_not_fallback (generate now message req chain h w).0.error ≡ false
      → (generate now message req chain h w).0.usage ≡ billed (generate now message req chain h w).2
  usage-generate billed chain h w law n fresh =
      generate-Q now message req (λ u w'. billed w' ≡ u)
        (λ r end. r.error ≢ none → should_not_fallback r.error ≡ false → r.usage ≡ billed end) chain
        h w
        (record {
          success = λ g u w' m p e f. absurd (f refl);
          final = λ g u w' x m p e stop f c. cc;
          fall = λ g u w' x m p e go.
              All-mem (Bills req billed) g chain law m w' (λ z. cc)
              ∙ ap (keep (g.generate req w').0.usage) p;
          exhaust = λ u w' x p go f c. sym p;
        })
        n fresh

  -- If an error of a call ends the chain, then the reply carries the usage of that call, and none if it
  -- reports none, whatever the calls that failed before it were billed.
  pub usage-generate_ended :
      (last : W → Option U) (chain : List (Generator R O U W)) (h : HealthTracker) (w : W)
      → All (Reports req last) chain
      → 0 < length chain
      → should_not_fallback (generate now message req chain h w).0.error ≡ true
      → (generate now message req chain h w).0.usage ≡ last (generate now message req chain h w).2
  unfolding should_not_fallback
  usage-generate_ended last chain h w law n =
      generate-Q now message req (λ u w'. Unit)
        (λ r end. should_not_fallback r.error ≡ true → r.usage ≡ last end) chain h w
        (record {
          success = λ g u w' m p e f. cc;
          final = λ g u w' x m p e stop f. sym (All-mem (Reports req last) g chain law m w');
          fall = λ g u w' x m p e go. tt;
          exhaust = λ u w' x p go f. cc;
        })
        n tt
