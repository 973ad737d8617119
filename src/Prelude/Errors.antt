-- ===== src/Prelude/Errors.antt =====
-- Go's `error` values, with what `errors.Is` and `errors.As` see of a wrapped chain. An operation that
-- returns `(A, error)` returns a `Result A`.
use Prim.Native.Nat.{ℕ}
use Prim.Native.String.{String}
use mathlib.Core.Path.{◌≡◌, refl}
use mathlib.Core.Bool.{Bool, true, false}
use mathlib.Core.Option.{Option, none, some}
use mathlib.Core.Logic.{◌⊎◌, inl, inr}

-- `new` is `errors.New`, `wrap` is `fmt.Errorf("…: %w", err)`, `canceled` and `deadline_exceeded` are
-- the context's sentinels, `network` is a `net.Error` with its `Timeout()`, and the rest are the
-- error types that the program declares.
pub data Error : Type 0 where
  new : String → Error
  wrap : String → Error → Error
  canceled deadline_exceeded : Error
  network : Bool → Error
  http_error : ℕ → Error
  transient : Error
  fatal : Error → Error
  all_providers_failed : Error → Error

pub data Result {ℓ} (A : Type ℓ) : Type ℓ where
  ok : A → Result A
  err : Error → Result A

-- The test of one link, down the chain that `Unwrap` gives.
abbrev pub is_canceled : Error → Bool
is_canceled canceled = true
is_canceled (wrap _ e) = is_canceled e
is_canceled (fatal e) = is_canceled e
is_canceled (all_providers_failed e) = is_canceled e
is_canceled _ = false

abbrev pub is_deadline_exceeded : Error → Bool
is_deadline_exceeded deadline_exceeded = true
is_deadline_exceeded (wrap _ e) = is_deadline_exceeded e
is_deadline_exceeded (fatal e) = is_deadline_exceeded e
is_deadline_exceeded (all_providers_failed e) = is_deadline_exceeded e
is_deadline_exceeded _ = false

abbrev pub is_transient : Error → Bool
is_transient transient = true
is_transient (wrap _ e) = is_transient e
is_transient (fatal e) = is_transient e
is_transient (all_providers_failed e) = is_transient e
is_transient _ = false

-- `errors.As` for `*HTTPError`.
abbrev pub as_http_error : Error → Option ℕ
as_http_error (http_error status) = some status
as_http_error (wrap _ e) = as_http_error e
as_http_error (fatal e) = as_http_error e
as_http_error (all_providers_failed e) = as_http_error e
as_http_error _ = none

-- `errors.As` for `net.Error`, as its `Timeout()`; `context.DeadlineExceeded` is one, and times out.
abbrev pub as_network : Error → Option Bool
as_network (network timeout) = some timeout
as_network deadline_exceeded = some true
as_network (wrap _ e) = as_network e
as_network (fatal e) = as_network e
as_network (all_providers_failed e) = as_network e
as_network _ = none

-- `errors.As` for `ErrFatal`.
abbrev pub is_fatal : Error → Bool
is_fatal (fatal _) = true
is_fatal (wrap _ e) = is_fatal e
is_fatal (all_providers_failed e) = is_fatal e
is_fatal _ = false

pub Result-cases {ℓ} :
    {A : Type ℓ} (r : Result A) → ((a : A) × (r ≡ ok a)) ⊎ ((e : Error) × (r ≡ err e))
Result-cases (ok a) = inl (a, refl)
Result-cases (err e) = inr (e, refl)
