-- ===== src/RateLimit.antt =====
-- backend/internal/shared/middleware/ratelimit.go and ratelimit_redis.go: the limits on requests.
pub mod Window
pub mod Counter
pub mod Tests
use mootd.Prelude.{
  ℕ, suc, ◌+◌, ◌-◌, ◌*◌, ◌/◌, Bool, true, false, Option, none, some, String, str_eq, ltb, ◌==◌,
  if◌then◌else◌, Error, Result, ok, err, Map, empty, update,
}
use Prim.Native.String.{◌++◌ as append}

pub record Visitor : Type 0 where
  pub count : ℕ
  pub window_start : ℕ

-- The state that the middleware's closure keeps; times count nanoseconds.
module _ (max_requests window : ℕ) where
  -- Whether the request is passed on.
  unfoldable pub request : ℕ → String → Map Visitor → Bool × Map Visitor
  request now ip visitors =
      let renewed = update visitors ip (record { count = 1; window_start = now }) in
      elim (visitors ip) [
        | none ↦ (true, renewed)
        | some v ↦ if ltb window (now - v.window_start) then (true, renewed) else (
          if ltb max_requests (v.count + 1) then false else true,
          update visitors ip (record v { count = v.count + 1 }),
        )
      ]

  -- One tick of the cleanup goroutine.
  unfoldable pub cleanup : ℕ → Map Visitor → Map Visitor
  cleanup now visitors ip = elim (visitors ip) [
    | none ↦ none
    | some v ↦ if ltb window (now - v.window_start) then none else some v
  ]

-- A counter in Redis and when it expires, in milliseconds, if it does.
pub record Counted : Type 0 where
  pub value : ℕ
  pub expires : Option ℕ

-- What Redis sees of a key at `now`: nothing from its expiry on.
abbrev pub live : ℕ → Option Counted → Option Counted
live now none = none
live now (some c) = elim c.expires [ none ↦ some c | some at ↦ if ltb now at then some c else none ]

-- INCR, which keeps an expiry.
abbrev pub bump : Option Counted → Counted
bump none = record { value = 1; expires = none }
bump (some c) = record c { value = c.value + 1 }

-- PEXPIRE after the first one.
abbrev pub stamp : ℕ → Counted → Counted
stamp at c = if c.value == 1 then record c { expires = some at } else c

-- rateLimitIncrScript
unfoldable pub rate_limit_incr : ℕ → ℕ → String → Map Counted → ℕ × Map Counted
rate_limit_incr now millis key store =
    let c = bump (live now (store key)) in (c.value, update store key (stamp (now + millis) c))

pub data Answer : Type 0 where
  passed : Answer
  too_many : ℕ → Answer

-- The handler, given what the script's run returned; `too_many` has the Retry-After in seconds.
unfoldable pub redis_rate_limit_scoped : ℕ → ℕ → Result ℕ → Answer
redis_rate_limit_scoped max_requests window ran = elim ran [
  | err e ↦ passed
  | ok count ↦ if ltb max_requests count then too_many (window / 1_000_000_000) else passed
]

-- `user` is UserIDFromContext, and `ip` the printed clientIP.
unfoldable pub rate_limit_key : Option String → Option String → String → String
rate_limit_key user ip remote_addr =
    let by_ip : String = elim ip [ none ↦ append "ip:" remote_addr | some i ↦ append "ip:" i ] in
    elim user [ none ↦ by_ip | some u ↦ if str_eq u "" then by_ip else append "user:" u ]
