-- ===== src/Retry.antt =====
-- backend/internal/shared/retry/retry.go: the exponential-backoff loop around outbound calls.
-- A `time.Duration` is a number of nanoseconds; the code's tests treat a negative count of attempts
-- like 0, so the count is a natural number. `none` is a nil error.
pub mod Calls
pub mod Delays
pub mod Tests
use mootd.Prelude.{
  ◌≡◌, arith, ℕ, zero, suc, ◌+◌, ◌-◌, ◌*◌, Bool, true, false, not, ◌&&◌, ◌||◌, Option, none, some,
  ltb, leb, ◌==◌, if◌then◌else◌, Error, as_http_error, as_network, is_transient,
}
use mootd.Prelude.Float.{Float64}

-- The value of `RetryOn` when the caller gives none.
unfoldable pub is_retryable : Error → Bool
is_retryable e = elim (as_http_error e) [
  | some status ↦ leb 500 status && ltb status 600
  | none ↦ elim (as_network e) [ some timeout ↦ timeout | none ↦ is_transient e ]
]

pub record Options (W F : Type 0) : Type 0 where
  pub max_attempts : ℕ
  pub initial_delay : ℕ
  pub max_delay : ℕ
  pub jitter : F
  pub retry_on : Option (Error → Bool)
  pub on_retry : Option (ℕ → Error → ℕ → W → W)

-- What surrounds the loop: the parent context's `Err()`, the `select` between its `Done()` and the
-- timer (an error is the context's, `none` that the timer fired), and `rand.Float64()`.
pub record Env (W F : Type 0) : Type 0 where
  pub ctx_err : W → Option Error
  pub sleep : ℕ → W → Option Error × W
  pub random : W → F × W

abbrev pub default_max_attempts : ℕ
default_max_attempts = 3

abbrev pub default_initial_delay : ℕ
default_initial_delay = 250_000_000

abbrev pub default_max_delay : ℕ
default_max_delay = 5_000_000_000

module _ {W F : Type 0} where
  -- The values that the loop runs with.
  unfoldable pub attempts_of : Options W F → ℕ
  attempts_of o = if ltb o.max_attempts 1 then default_max_attempts else o.max_attempts

  unfoldable pub initial_of : Options W F → ℕ
  initial_of o = if o.initial_delay == 0 then default_initial_delay else o.initial_delay

  unfoldable pub cap_of : Options W F → ℕ
  cap_of o = if o.max_delay == 0 then default_max_delay else o.max_delay

  unfoldable pub retry_on_of : Options W F → Error → Bool
  retry_on_of o = elim o.retry_on [ none ↦ is_retryable | some f ↦ f ]

  unfoldable pub hook_of : Options W F → ℕ → Error → ℕ → W → W
  hook_of o = elim o.on_retry [ none ↦ (λ _ _ _ w. w) | some f ↦ f ]

module _ {W F : Type 0} where
  pub attempts_suc : (o : Options W F) → (k : ℕ) × (attempts_of o ≡ suc k)
  unfolding attempts_of
  attempts_suc o = (attempts_of o - 1, ground arith)

-- delay *= 2, held at the cap
unfoldable pub next_delay : ℕ → ℕ → ℕ
next_delay cap delay = if ltb cap (delay * 2) then cap else delay * 2

module _ {W F : Type 0} (float : Float64 F) (env : Env W F) where
  open float use {of_int, add, sub, mul, le, lt, truncate}

  -- d ± (jitter * d), clamped at zero
  unfoldable pub jittered : ℕ → F → W → ℕ × W
  jittered d jitter w =
      if le jitter (of_int 0)
      then (d, w)
      else let spread = if lt (of_int 1) jitter then of_int 1 else jitter in
        let (r, w') = env.random w in
        let delta = mul (mul (of_int d) spread) (sub (mul (of_int 2) r) (of_int 1)) in
        let out = add (of_int d) delta in (if lt out (of_int 0) then 0 else truncate out, w')

  module _ (opts : Options W F) (fn : W → Option Error × W) where
    -- The rounds `attempt … max_attempts`, with `left` of them to go.
    unfoldable pub do_from : (left attempt delay : ℕ) → Option Error → W → Option Error × W
    do_from zero attempt delay last w = (last, w)
    do_from (suc left) attempt delay last w = elim (env.ctx_err w) [
      | some e ↦ (some e, w)
      | none ↦
          let (r, w1) = fn w in
          elim r [
            | none ↦ (none, w1)
            | some e ↦ elim (attempt == attempts_of opts || not (retry_on_of opts e)) [
              | true ↦ (some e, w1)
              | false ↦
                  let (d, w2) = jittered delay opts.jitter w1 in
                  let (c, w3) = env.sleep d (hook_of opts attempt e d w2) in
                  elim c [
                    | some e' ↦ (some e', w3)
                    | none ↦ do_from left (attempt + 1) (next_delay (cap_of opts) delay) (some e) w3
                  ]
            ]
          ]
    ]

    unfoldable pub do_retry : W → Option Error × W
    unfolding do_from
    do_retry w = do_from (attempts_of opts) 1 (initial_of opts) none w
