-- ===== src/Cascade/Tests.antt =====
-- Cascades of two providers. The world is the usage of the latest failed call that had one.
use mootd.Prelude.{
  ℕ, ◌≡◌, refl, ap, all_providers_failed, true, false, Option, none, some, List, [], ◌∷◌, arith,
  Error, http_error, fatal, new, deadline_exceeded, network, wrap,
}
use mootd.Health.{new_health_tracker, is_healthy, record_success, record_failure, entry}
use mootd.Cascade.{Reply, Generator, should_not_fallback, attempt, first_pass, exhausted, generate}
use mootd.Cascade.Billing.{usage-generate, usage-generate_ended}

abbrev World : Type 0
World = Option ℕ

abbrev reply : List ℕ → Option ℕ → Option Error → Reply ℕ ℕ
reply outfits usage error = record { outfits = outfits; usage = usage; error = error }

-- It bills 7 tokens and fails.
abbrev claude : Generator Unit ℕ ℕ World
claude = record {
  name = "claude";
  generate = λ _ w. (reply [] (some 7) (some (http_error 503)), some 7);
}

abbrev openai : Generator Unit ℕ ℕ World
openai = record { name = "openai"; generate = λ _ w. (reply (1 ∷ 2 ∷ []) none none, w) }

-- It refuses the request as such.
abbrev ollama : Generator Unit ℕ ℕ World
ollama = record {
  name = "ollama";
  generate = λ _ w. (reply [] none (some (fatal (new "bad request"))), w);
}

-- The clock stands still.
abbrev now : World → ℕ
now w = 100

abbrev message : Error → List ℕ
message e = []

falls_through :
    (generate now message tt (claude ∷ openai ∷ []) new_health_tracker none).0
    ≡ reply (1 ∷ 2 ∷ []) none none
unfolding generate first_pass attempt is_healthy record_success record_failure entry
    new_health_tracker should_not_fallback
falls_through = refl

-- A time-out of a call ends the chain if it is the context's own error, and not otherwise.
timeouts :
    (should_not_fallback (some (wrap "ollama" deadline_exceeded)) ≡ true)
    × (should_not_fallback (some (network true)) ≡ false)
unfolding should_not_fallback
timeouts = (refl, refl)

exhausts :
    (generate now message tt (claude ∷ []) new_health_tracker none).0
    ≡ reply [] (some 7) (some (all_providers_failed (http_error 503)))
unfolding generate first_pass attempt is_healthy record_failure entry new_health_tracker exhausted
    should_not_fallback
exhausts = refl

usage-generate_example :
    (generate now message tt (claude ∷ []) new_health_tracker none).0.usage
    ≡ (generate now message tt (claude ∷ []) new_health_tracker none).2
unfolding should_not_fallback
usage-generate_example =
    usage-generate now message tt (λ w. w) (claude ∷ []) new_health_tracker none ((λ w e. refl), tt)
      (omega arith) refl (λ e. cc (ap (λ r. r.error) exhausts, e))
      (ap (λ r. should_not_fallback r.error) exhausts)

-- It refuses the request, and the world is the usage of the latest call.
abbrev unbilled : Generator Unit ℕ ℕ World
unbilled = record {
  name = "ollama";
  generate = λ _ w. (reply [] none (some (fatal (new "bad request"))), none);
}

ends :
    (generate now message tt (claude ∷ unbilled ∷ []) new_health_tracker none).0
    ≡ reply [] none (some (fatal (new "bad request")))
unfolding generate first_pass attempt is_healthy record_failure entry new_health_tracker exhausted
    should_not_fallback
ends = refl

usage-generate_ended_example :
    (generate now message tt (claude ∷ unbilled ∷ []) new_health_tracker none).0.usage
    ≡ (generate now message tt (claude ∷ unbilled ∷ []) new_health_tracker none).2
unfolding should_not_fallback
usage-generate_ended_example =
    usage-generate_ended now message tt (λ w. w) (claude ∷ unbilled ∷ []) new_health_tracker none
      ((λ w. refl), ((λ w. refl), tt)) (omega arith) (ap (λ r. should_not_fallback r.error) ends)
