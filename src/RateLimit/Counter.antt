-- ===== src/RateLimit/Counter.antt =====
-- The counters that the script keeps in Redis.
use mootd.Prelude.{
  ℕ, suc, ◌+◌, ◌/◌, ◌≤◌, ◌<◌, ◌≡◌, refl, Option, none, some, List, [], ◌∷◌, String, str_eq, eq_refl,
  arith, ltb, if◌then◌else◌, All, Map, Bool-cases, AllOption, branch, inl, inr, ok,
}
use mootd.RateLimit.{
  Counted, bump, stamp, live, rate_limit_incr, passed, too_many, redis_rate_limit_scoped,
}

-- It has counted something, and it expires.
abbrev pub Expires : Counted → Type 0
Expires c = (1 ≤ c.value) × (at : ℕ) × (c.expires ≡ some at)

abbrev pub IsExpiring : Map Counted → Type 0
IsExpiring store = (k : String) → AllOption Expires (store k)

stamp-Expires :
    (now at : ℕ) (o : Option Counted) → AllOption Expires o → Expires (stamp at (bump (live now o)))
stamp-Expires now at none e = (omega arith, at, refl)
stamp-Expires now at (some c) (n, till, e) = elim (Bool-cases (ltb now till)) [
  | inl l ↦ (ground (arith, e, l, n), till, ground (arith, e, l, n))
  | inr l ↦ (ground (arith, e, l), at, ground (arith, e, l))
]

-- A run of the script leaves every counter with an expiry, if they all had one.
pub rate_limit_incr-IsExpiring :
    (now millis : ℕ) (key : String) (store : Map Counted)
    → IsExpiring store
    → IsExpiring (rate_limit_incr now millis key store).1
unfolding rate_limit_incr
rate_limit_incr-IsExpiring now millis key store h k =
    branch (AllOption Expires) (str_eq key k)
      (some (stamp (now + millis) (bump (live now (store key))))) (store k)
      (stamp-Expires now (now + millis) (store key) (h key)) (h k)

module _ (millis : ℕ) (key : String) where
  -- The runs of the script for a key, at the given times, the last one first.
  unfoldable pub runs : List ℕ → Map Counted → Map Counted
  runs [] store = store
  runs (now ∷ times) store = (rate_limit_incr now millis key (runs times store)).1

  abbrev pub length_of : List ℕ → ℕ
  length_of [] = 0
  length_of (t ∷ ts) = suc (length_of ts)

  runs-value :
      (start : ℕ) (times : List ℕ) (store : Map Counted)
      → store key ≡ some (record { value = 1; expires = some (start + millis) })
      → All (λ t. t < start + millis) times
      → runs times store key
        ≡ some (record { value = length_of times + 1; expires = some (start + millis) })
  unfolding runs rate_limit_incr
  runs-value start [] store e ts = e
  runs-value start (now ∷ times) store e (t, ts) =
      ground (arith, runs-value start times store e ts, eq_refl key)

  -- If a key has no live counter when the script first runs for it, then a later run of it before the window
  -- of the first has ended lets the request pass exactly if it is not beyond the maximum, all counted.
  pub redis_rate_limit_scoped-runs :
      (max_requests window start now : ℕ) (times : List ℕ) (store : Map Counted)
      → live start (store key) ≡ none
      → All (λ t. t < start + millis) (now ∷ times)
      → let first = (rate_limit_incr start millis key store).1 in
        redis_rate_limit_scoped max_requests window
          (ok (rate_limit_incr now millis key (runs times first)).0)
        ≡ (if ltb max_requests (length_of times + 2)
            then too_many (window / 1_000_000_000)
            else passed)
  unfolding rate_limit_incr redis_rate_limit_scoped
  redis_rate_limit_scoped-runs max_requests window start now times store e (t, ts) =
      let first = (rate_limit_incr start millis key store).1 in
      let known : first key ≡ some (record { value = 1; expires = some (start + millis) }) =
        ground (arith, e, eq_refl key) in
      ground (arith, runs-value start times first known ts)
