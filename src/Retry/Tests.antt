-- ===== src/Retry/Tests.antt =====
-- Runs of the retry loop against a scripted caller, and the theorems at concrete inputs.
use mootd.Prelude.{
  ℕ, zero, suc, ◌+◌, ◌-◌, ◌*◌, ◌/◌, ◌≡◌, refl, true, Option, none, some, List, [], ◌∷◌, ltb, leb,
  if◌then◌else◌, Error, http_error, wrap,
}
use mootd.Prelude.Float.{Float64}
use mootd.Retry.{
  Options, Env, is_retryable, do_retry, do_from, jittered, attempts_of, initial_of, cap_of,
  retry_on_of, hook_of, next_delay,
}
use mootd.Retry.Calls.{IsCounter, do_retry_exhausts}
use mootd.Retry.Delays.{nth_delay}

-- Whole numbers stand for the floats; the runs have no jitter.
abbrev pub whole : Float64 ℕ
whole = record {
  of_int = λ n. n;
  neg = λ n. 0;
  add = ◌+◌;
  sub = ◌-◌;
  mul = ◌*◌;
  div = ◌/◌;
  le = leb;
  lt = ltb;
  truncate = λ n. n;
}

-- The world is the number of calls so far and the delays slept, the last one first.
abbrev World : Type 0
World = ℕ × List ℕ

abbrev quiet : Env World ℕ
quiet = record { ctx_err = λ _. none; sleep = λ d w. (none, (w.0, d ∷ w.1)); random = λ w. (0, w) }

abbrev zero_options : Options World ℕ
zero_options = record {
  max_attempts = 0;
  initial_delay = 0;
  max_delay = 600_000_000;
  jitter = 0;
  retry_on = none;
  on_retry = none;
}

abbrev down : World → Option Error × World
down w = (some (http_error 503), (w.0 + 1, w.1))

-- It succeeds at the third call.
abbrev flaky : World → Option Error × World
flaky w = (if ltb w.0 2 then some (http_error 503) else none, (w.0 + 1, w.1))

abbrev refused : World → Option Error × World
refused w = (some (http_error 404), (w.0 + 1, w.1))

five_hundreds_retry : is_retryable (wrap "generate" (http_error 503)) ≡ true
unfolding is_retryable
five_hundreds_retry = refl

flaky_run :
    do_retry whole quiet zero_options flaky (0, []) ≡ (none, (3, 500_000_000 ∷ 250_000_000 ∷ []))
unfolding do_retry do_from jittered attempts_of initial_of cap_of retry_on_of hook_of next_delay
    is_retryable
flaky_run = refl

counted : IsCounter whole quiet zero_options flaky (λ w. w.0)
unfolding hook_of
counted = record {
  call = λ w. refl;
  sleep = λ d w. refl;
  random = λ w. refl;
  hook = λ n e d w. refl;
}

counted_down : IsCounter whole quiet zero_options down (λ w. w.0)
unfolding hook_of
counted_down = record {
  call = λ w. refl;
  sleep = λ d w. refl;
  random = λ w. refl;
  hook = λ n e d w. refl;
}

do_retry_exhausts_example :
    let (r, w) = do_retry whole quiet zero_options down (0, []) in
    (w.0 ≡ 0 + attempts_of zero_options) × ((e : Error) × (r ≡ some e))
unfolding retry_on_of is_retryable
do_retry_exhausts_example =
    do_retry_exhausts whole quiet zero_options down counted_down (0, [])
      (record { fails = λ w. (http_error 503, refl, refl); live = λ w. refl; fires = λ d w. refl })

-- The delays slept after k of them, the last one first.
abbrev slept : ℕ → List ℕ
slept zero = []
slept (suc k) = nth_delay 600_000_000 250_000_000 k ∷ slept k
