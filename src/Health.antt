-- ===== src/Health.antt =====
-- backend/internal/outfit/cascade.go, `HealthTracker`: the rolling health of the LLM providers. Each
-- method holds the mutex, so it is one step; the clock is read once in a step. A zero `time.Time` is
-- `none`, instants are nanoseconds, and the counters are taken as unbounded (they are `int64`).
pub mod History
pub mod Tests
use mootd.Prelude.{
  ℕ, ◌+◌, Bool, true, Option, none, some, List, [], ◌∷◌, ◌++◌, String, length, take, ltb, leb,
  if◌then◌else◌, Error, Map, empty, update,
}

pub record ProviderHealth : Type 0 where
  pub name : String
  pub successes : ℕ
  pub failures : ℕ
  pub consecutive_fails : ℕ
  pub last_success : Option ℕ
  pub last_failure : Option ℕ
  pub unhealthy_until : Option ℕ
  pub last_failure_reason : List ℕ  -- bytes

pub record HealthTracker : Type 0 where
  pub stats : Map ProviderHealth
  pub cooldown : ℕ
  pub fails_to_cooldown : ℕ

unfoldable pub new_health_tracker : HealthTracker
new_health_tracker = record { stats = empty; cooldown = 60_000_000_000; fails_to_cooldown = 3 }

abbrev pub fresh : String → ProviderHealth
fresh name = record {
  name = name;
  successes = 0;
  failures = 0;
  consecutive_fails = 0;
  last_success = none;
  last_failure = none;
  unhealthy_until = none;
  last_failure_reason = [];
}

-- `h.get` as it reads: the entry, or the fresh one that it adds.
unfoldable pub entry : HealthTracker → String → ProviderHealth
entry h name = elim (h.stats name) [ some s ↦ s | none ↦ fresh name ]

-- The map after the fields of the entry were set through its pointer.
abbrev pub put : HealthTracker → String → ProviderHealth → HealthTracker
put h name s = record h { stats = update h.stats name s }

unfoldable pub is_healthy : ℕ → HealthTracker → String → Bool × HealthTracker
unfolding entry
is_healthy now h name =
    let s = entry h name in
    (elim s.unhealthy_until [ none ↦ true | some until ↦ ltb until now ], put h name s)

unfoldable pub record_success : ℕ → HealthTracker → String → HealthTracker
unfolding entry
record_success now h name =
    let s = entry h name in
    put h name (record s {
      successes = s.successes + 1;
      consecutive_fails = 0;
      last_success = some now;
      unhealthy_until = none;
      last_failure_reason = [];
    })

-- msg[:200] + "…"
unfoldable pub truncate_reason : List ℕ → List ℕ
truncate_reason msg =
    if ltb 200 (length msg) then take 200 msg ++ (0xe2 ∷ 0x80 ∷ 0xa6 ∷ []) else msg

-- `message` is the text that the error's `Error()` returns.
unfoldable pub record_failure :
    (message : Error → List ℕ) → ℕ → HealthTracker → String → Option Error → HealthTracker
unfolding entry
record_failure message now h name err =
    let s = entry h name in
    put h name (record s {
      failures = s.failures + 1;
      consecutive_fails = s.consecutive_fails + 1;
      last_failure = some now;
      last_failure_reason = elim err [
        | none ↦ s.last_failure_reason
        | some e ↦ truncate_reason (message e)
      ];
      unhealthy_until =
          if leb h.fails_to_cooldown (s.consecutive_fails + 1)
          then some (now + h.cooldown)
          else s.unhealthy_until;
    })

-- A copy of the entries.
unfoldable pub snapshot : HealthTracker → Map ProviderHealth
snapshot h = h.stats
