-- ===== src/AbTests.antt =====
-- backend/internal/admin/prompt_ab_tests.go: the A/B tests of prompt templates, their cache, and which
-- users get the candidate. The collection is the list of its rows, and hashing is a parameter.
pub mod Store
pub mod Buckets
pub mod Cache
pub mod Tests
use mootd.Prelude.{
  ℕ, ◌+◌, ◌*◌, ◌%◌, Bool, true, false, not, ◌&&◌, ◌||◌, Option, none, some, List, [], ◌∷◌, String,
  str_eq, ltb, ◌==◌, take, any, if◌then◌else◌, Error, new, Result, ok, err, Map, empty, update,
}
use Prim.Native.String.{◌++◌ as append}

pub data AbTestStatus : Type 0 where
  active ended : AbTestStatus

pub record AbTest : Type 0 where
  pub id : String
  pub template_name : String
  pub production_version : ℕ
  pub candidate_version : ℕ
  pub traffic_pct : ℕ
  pub status : AbTestStatus
  pub started_by : String
  pub started_at : Option ℕ
  pub ended_at : Option ℕ
  pub ended_by : String
  pub notes : String

abbrev pub is_active : AbTest → Bool
is_active t = elim t.status [ active ↦ true | ended ↦ false ]

-- The filter of a template's active test.
abbrev pub matches : String → AbTest → Bool
matches name t = str_eq t.template_name name && is_active t

-- FindOne
abbrev pub find_active : String → List AbTest → Option AbTest
find_active name [] = none
find_active name (t ∷ ts) =
    let rest = find_active name ts in if matches name t then some t else rest

abbrev pub filled : ℕ → String → AbTest → AbTest
filled now fresh_id t = record t {
  id = if str_eq t.id "" then fresh_id else t.id;
  started_at = elim t.started_at [ none ↦ some now | some at ↦ some at ];
  status = active;
}

-- `Start`. The insertion fails on the partial unique index if the template has an active test, and on the
-- primary key if the id is taken.
unfoldable pub start : ℕ → String → AbTest → List AbTest → Option Error × List AbTest
start now fresh_id t rows =
    let row = filled now fresh_id t in
    if str_eq t.template_name ""
    then (some (new "admin: ab test templateName required"), rows)
    else if ltb t.traffic_pct 1 || ltb 99 t.traffic_pct
    then (some (new "admin: trafficPct must be 1-99 (50 = balanced split)"), rows)
    else if any (matches t.template_name) rows || any (λ r. str_eq r.id row.id) rows
    then (some (new "admin: a test is already active on this template; end it first"), rows)
    else (none, row ∷ rows)

abbrev pub closed : ℕ → String → String → AbTest → AbTest
closed now by notes t = record t {
  status = ended;
  ended_at = some now;
  ended_by = by;
  notes = notes;
}

abbrev pub is_open : String → AbTest → Bool
is_open id t = str_eq t.id id && is_active t

-- UpdateOne
abbrev pub close_first : ℕ → String → String → String → List AbTest → List AbTest
close_first now id by notes [] = []
close_first now id by notes (t ∷ ts) =
    let rest = close_first now id by notes ts in
    if is_open id t then closed now by notes t ∷ ts else t ∷ rest

unfoldable pub end : ℕ → String → String → String → List AbTest → Option Error × List AbTest
end now id by notes rows =
    if any (is_open id) rows
    then (none, close_first now id by notes rows)
    else (some (new "admin: no active test with that id"), rows)

-- The cache. A nil map is `none`; a key's value is nil as `some none`.
pub record CachedAbTests : Type 0 where
  pub cached : Option (Map (Option AbTest))
  pub exp : ℕ
  pub ttl : ℕ

unfoldable pub new_cached_ab_tests : ℕ → CachedAbTests
new_cached_ab_tests ttl = record {
  cached = none;
  exp = 0;
  ttl = if ttl == 0 then 60_000_000_000 else ttl;
}

-- c.active[name]
abbrev pub read : Map (Option AbTest) → String → Option AbTest
read m name = elim (m name) [ none ↦ none | some t ↦ t ]

module _ {W : Type 0} (repo : String → W → Result (Option AbTest) × W) where
  -- The part of ActiveForTemplate under the write lock, where the cache has nothing to serve.
  unfoldable pub reload : ℕ → CachedAbTests → String → W → Option AbTest × CachedAbTests × W
  reload now c name w =
      let (found, w') = repo name w in
      let m : Map (Option AbTest) = elim c.cached [ none ↦ empty | some m ↦ m ] in
      elim found [
        | err e ↦ (none, c, w')
        | ok t ↦ (t, record c { cached = some (update m name t); exp = now + c.ttl }, w')
      ]

  unfoldable pub active_for_template :
      ℕ → CachedAbTests → String → W → Option AbTest × CachedAbTests × W
  active_for_template now c name w =
      let reloaded = reload now c name w in
      elim c.cached [
        | none ↦ reloaded
        | some m ↦ if ltb now c.exp then (read m name, c, w) else reloaded
      ]

unfoldable pub invalidate : CachedAbTests → CachedAbTests
invalidate c = record c { cached = none; exp = 0 }

-- binary.BigEndian.Uint64 of the bytes
abbrev pub big_endian : ℕ → List ℕ → ℕ
big_endian acc [] = acc
big_endian acc (b ∷ bs) = big_endian (acc * 256 + b) bs

-- `sum256` is sha256.Sum256, as its bytes.
module _ (sum256 : String → List ℕ) where
  unfoldable pub user_bucket_pct : String → String → ℕ
  user_bucket_pct user template =
      if str_eq user ""
      then 0
      else big_endian 0 (take 8 (sum256 (append user (append ":" template)))) % 100

  unfoldable pub is_candidate_user : String → Option AbTest → Bool
  is_candidate_user user test = elim test [
    | none ↦ false
    | some t ↦
        if not (is_active t)
        then false
        else if str_eq user ""
        then false
        else ltb (user_bucket_pct user t.template_name) t.traffic_pct
  ]
