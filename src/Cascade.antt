-- ===== src/Cascade.antt =====
-- backend/internal/outfit/cascade.go: the chain of LLM providers, tried in order. The providers and
-- all that they touch are the world `W`; the clock is read from it.
pub mod Rule
pub mod Results
pub mod Billing
pub mod Tests
use mootd.Prelude.{
  ℕ, Bool, true, false, ◌||◌, Option, none, some, List, [], ◌∷◌, String, if◌then◌else◌, Error, new,
  all_providers_failed, is_canceled, is_deadline_exceeded, is_fatal,
}
use mootd.Health.{HealthTracker, is_healthy, record_success, record_failure}

-- What a `Generate` returns: outfits, usage (`none` is nil) and error.
pub record Reply (O U : Type 0) : Type 0 where
  pub outfits : List O
  pub usage : Option U
  pub error : Option Error

pub record Generator (R O U W : Type 0) : Type 0 where
  pub name : String
  pub generate : R → W → Reply O U × W

unfoldable pub should_not_fallback : Option Error → Bool
should_not_fallback none = false
should_not_fallback (some e) = is_canceled e || is_deadline_exceeded e || is_fatal e

-- The variables of the loops.
pub record Pass (U : Type 0) : Type 0 where
  pub any_tried : Bool
  pub last_err : Option Error
  pub last_usage : Option U

-- A loop returns from the function, or runs through.
pub data Outcome (O U : Type 0) : Type 0 where
  returned : Reply O U → Outcome O U
  ran_through : Pass U → Outcome O U

-- The rest of a loop, from its variables and the state.
abbrev pub Loop : Type 0 → Type 0 → Type 0 → Type 0
Loop O U W = Pass U → HealthTracker → W → Outcome O U × HealthTracker × W

-- The rest of a loop runs where the round did not return.
abbrev pub and_then :
    {O U W : Type 0}
    → Outcome O U × HealthTracker × W
    → Loop O U W
    → Outcome O U × HealthTracker × W
and_then (returned r, h, w) rest = (returned r, h, w)
and_then (ran_through pass, h, w) rest = rest pass h w

abbrev pub keep {ℓ} : {A : Type ℓ} → Option A → Option A → Option A
keep (some a) old = some a
keep none old = old

abbrev pub start : {U : Type 0} → Pass U
start = record { any_tried = false; last_err = none; last_usage = none }

-- What the function returns after the loops.
unfoldable pub exhausted : {O U : Type 0} → Pass U → Reply O U
exhausted pass = elim pass.last_err [
  | some e ↦ record { outfits = []; usage = pass.last_usage; error = some (all_providers_failed e) }
  | none ↦ record {
    outfits = [];
    usage = none;
    error = some (new "cascade: no provider attempted");
  }
]

abbrev pub finish :
    {O U W : Type 0} → Outcome O U × HealthTracker × W → Reply O U × HealthTracker × W
finish (returned r, h, w) = (r, h, w)
finish (ran_through pass, h, w) = (exhausted pass, h, w)

module _ {R O U W : Type 0} (now : W → ℕ) (message : Error → List ℕ) (req : R) where
  -- One call with its bookkeeping, the same in both loops. In the first loop `any` is set.
  unfoldable pub attempt :
      Bool → Generator R O U W → Pass U → HealthTracker → W → Outcome O U × HealthTracker × W
  attempt tried g pass h w =
      let (reply, w') = g.generate req w in
      elim reply.error [
        | none ↦ (
          returned (record { outfits = reply.outfits; usage = reply.usage; error = none }),
          record_success (now w') h g.name,
          w',
        )
        | some e ↦
            let h' = record_failure message (now w') h g.name (some e) in
            if should_not_fallback (some e)
            then (returned (record { outfits = []; usage = reply.usage; error = some e }), h', w')
            else (
              ran_through (record {
                any_tried = tried;
                last_err = some e;
                last_usage = keep reply.usage pass.last_usage;
              }),
              h',
              w',
            )
      ]

  -- The first loop tries the healthy providers.
  unfoldable pub first_pass : List (Generator R O U W) → Loop O U W
  first_pass [] pass h w = (ran_through pass, h, w)
  first_pass (g ∷ gs) pass h w =
      let (healthy, h') = is_healthy (now w) h g.name in
      elim healthy [
        | false ↦ first_pass gs pass h' w
        | true ↦ and_then (attempt true g pass h' w) (first_pass gs)
      ]

  -- The second loop tries them all.
  unfoldable pub last_resort : List (Generator R O U W) → Loop O U W
  last_resort [] pass h w = (ran_through pass, h, w)
  last_resort (g ∷ gs) pass h w = and_then (attempt pass.any_tried g pass h w) (last_resort gs)

  abbrev pub second_pass :
      List (Generator R O U W) → Outcome O U × HealthTracker × W → Outcome O U × HealthTracker × W
  second_pass chain (returned r, h, w) = (returned r, h, w)
  second_pass chain (ran_through pass, h, w) =
      let again = last_resort chain pass h w in
      if pass.any_tried then (ran_through pass, h, w) else again

  unfoldable pub generate :
      List (Generator R O U W) → HealthTracker → W → Reply O U × HealthTracker × W
  generate [] h w =
      (record { outfits = []; usage = none; error = some (new "cascade: empty chain") }, h, w)
  generate (g ∷ gs) h w = finish (second_pass (g ∷ gs) (first_pass (g ∷ gs) start h w))
