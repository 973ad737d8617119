-- ===== src/Health/History.antt =====
-- The tracker against the history of the calls that it was told of.
use mootd.Prelude.{
  ℕ, ◌+◌, ◌≡◌, not, ◌&&◌, Option, none, some, List, [], ◌∷◌, String, arith, leb, if◌then◌else◌,
  str_eq, eq_iff, Error,
}
use mootd.Health.{
  HealthTracker, new_health_tracker, entry, is_healthy, record_success, record_failure,
}

pub data Event : Type 0 where
  succeeded : ℕ → String → Event
  failed : ℕ → String → Option Error → Event
  asked : ℕ → String → Event

module _ (message : Error → List ℕ) where
  abbrev pub step : Event → HealthTracker → HealthTracker
  step (succeeded now name) h = record_success now h name
  step (failed now name e) h = record_failure message now h name e
  step (asked now name) h = (is_healthy now h name).1

  -- The events, the last one first.
  unfoldable pub run : List Event → HealthTracker
  run [] = new_health_tracker
  run (e ∷ es) = step e (run es)

-- How many failures of `name` the history ends in, with no success of it between them.
unfoldable pub trailing_failures : String → List Event → ℕ
trailing_failures name [] = 0
trailing_failures name (succeeded now n ∷ es) =
    let t = trailing_failures name es in if str_eq n name then 0 else t
trailing_failures name (failed now n e ∷ es) =
    let t = trailing_failures name es in if str_eq n name then t + 1 else t
trailing_failures name (asked now n ∷ es) = trailing_failures name es

unfoldable pub last_failure_of : String → List Event → ℕ
last_failure_of name [] = 0
last_failure_of name (succeeded now n ∷ es) = last_failure_of name es
last_failure_of name (failed now n e ∷ es) =
    let t = last_failure_of name es in if str_eq n name then now else t
last_failure_of name (asked now n ∷ es) = last_failure_of name es

-- What the tracker knows of a provider.
record Knows (h : HealthTracker) (name : String) (fails last : ℕ) : Type 0 where
  count : (entry h name).consecutive_fails ≡ fails
  until :
      (entry h name).unhealthy_until ≡ (if leb 3 fails then some (last + 60_000_000_000) else none)
  cooldown : h.cooldown ≡ 60_000_000_000
  threshold : h.fails_to_cooldown ≡ 3

new-Knows : (name : String) → Knows new_health_tracker name 0 0
unfolding entry new_health_tracker
new-Knows name = ground arith

module _ (message : Error → List ℕ) (name : String) where
  record_success-Knows :
      (now : ℕ) (n : String) (h : HealthTracker) (t l : ℕ)
      → Knows h name t l
      → Knows (record_success now h n) name (if str_eq n name then 0 else t) l
  unfolding record_success
  record_success-Knows now n h t l k = ground (arith, eq_iff n name)

  record_failure-Knows :
      (now : ℕ) (n : String) (e : Option Error) (h : HealthTracker) (t l : ℕ)
      → Knows h name t l
      → Knows
          (record_failure message now h n e)
          name
          (if str_eq n name then t + 1 else t)
          (if str_eq n name then now else l)
  unfolding record_failure
  record_failure-Knows now n e h t l k = ground (arith, eq_iff n name)

  is_healthy-Knows :
      (now : ℕ) (n : String) (h : HealthTracker) (t l : ℕ)
      → Knows h name t l
      → Knows (is_healthy now h n).1 name t l
  unfolding is_healthy
  is_healthy-Knows now n h t l k = ground (arith, eq_iff n name)

  run-Knows :
      (es : List Event)
      → Knows (run message es) name (trailing_failures name es) (last_failure_of name es)
  unfolding run trailing_failures last_failure_of
  run-Knows [] = new-Knows name
  run-Knows (succeeded now n ∷ es) = record_success-Knows now n (run message es) _ _ (run-Knows es)
  run-Knows (failed now n e ∷ es) = record_failure-Knows now n e (run message es) _ _ (run-Knows es)
  run-Knows (asked now n ∷ es) = is_healthy-Knows now n (run message es) _ _ (run-Knows es)

  -- After any history of calls from a new tracker, a provider is unhealthy exactly when its last
  -- three or more outcomes were failures and at most 60 s have passed since the last one.
  pub is_healthy_history :
      (now : ℕ) (es : List Event)
      → (is_healthy now (run message es) name).0
        ≡ not (
            leb 3 (trailing_failures name es) && leb now (last_failure_of name es + 60_000_000_000))
  unfolding is_healthy
  is_healthy_history now es = ground (arith, run-Knows es)
