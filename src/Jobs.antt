-- ===== src/Jobs.antt =====
-- backend/internal/outfit/jobs.go: the store of the generation jobs, in Mongo and cached in Redis. Both
-- servers are parameters.
pub mod Stored
pub mod Ends
pub mod Slots
pub mod Replay
pub mod Polls
pub mod Handler
pub mod Tests
pub mod SubmitTests
use mootd.Prelude.{
  ℕ, ◌-◌, ◌*◌, ◌/◌, Bool, true, false, ◌&&◌, Option, none, some, List, [], String, str_eq, ltb,
  if◌then◌else◌, Error, new, wrap, Result, ok, err, Text, text_eq,
}

pub data JobStatus : Type 0 where
  pending processing completed failed : JobStatus

abbrev pub is_processing : JobStatus → Bool
is_processing processing = true
is_processing _ = false

pub record Job (O : Type 0) : Type 0 where
  pub id : String
  pub user_id : String
  pub status : JobStatus
  pub outfits : List O
  pub error : String
  pub created_at : ℕ
  pub updated_at : ℕ

-- Durations count nanoseconds.
abbrev pub job_stale_processing : ℕ
job_stale_processing = 600_000_000_000

abbrev pub redis_ttl : ℕ
redis_ttl = 600_000_000_000

abbrev pub idempotency_key_ttl : ℕ
idempotency_key_ttl = 60_000_000_000

-- ReplaceOne with upsert, FindOne by id, and UpdateMany by a filter; `none` is a nil error.
pub record Collection (O W : Type 0) : Type 0 where
  pub replace_one : Job O → W → Option Error × W
  pub find_one : String → W → Result (Job O) × W
  pub update_many : (Job O → Bool) → (Job O → Job O) → W → Option Error × W

-- The values under "outfit:job:" and an id, which are JSON documents, and those under "outfit:idem:", a
-- user and a key, which are ids of jobs. `redis.Nil` is `none`.
pub record Redis (D W : Type 0) : Type 0 where
  pub get : String → W → Result (Option D) × W
  pub set : String → D → ℕ → W → Option Error × W
  pub get_id : String → Text → W → Result (Option String) × W
  pub set_id : String → Text → String → ℕ → W → Option Error × W

-- json.Marshal and json.Unmarshal at jobs.
pub record Json (O D : Type 0) : Type 0 where
  pub marshal : Job O → Result D
  pub unmarshal : D → Result (Job O)

-- `redis` is `none` where the client is nil.
pub record JobStore (O D W : Type 0) : Type 0 where
  pub mongo_col : Collection O W
  pub redis : Option (Redis D W)
  pub json : Json O D

module _ {O D W : Type 0} (now : W → ℕ) (s : JobStore O D W) where
  -- The write to the cache, whose errors are logged or dropped.
  abbrev pub cache : String → Job O → W → W
  cache id j w = elim s.redis [
    | none ↦ w
    | some r ↦ elim (s.json.marshal j) [ err _ ↦ w | ok text ↦ (r.set id text redis_ttl w).1 ]
  ]

  -- With the job as it is left, since `Save` sets its `UpdatedAt`.
  unfoldable pub save : Job O → W → Option Error × Job O × W
  save j w =
      let j' : Job O = record j { updated_at = now w } in
      let (failure, w1) = s.mongo_col.replace_one j' w in
      elim failure [
        | some e ↦ (some (wrap "outfit: mongo save" e), j', w1)
        | none ↦ (none, j', cache j'.id j' w1)
      ]

  abbrev pub from_mongo : String → W → Result (Job O) × W
  from_mongo id w =
      let (found, w1) = s.mongo_col.find_one id w in
      elim found [ err e ↦ (err e, w1) | ok j ↦ (ok j, cache id j w1) ]

  unfoldable pub get : String → W → Result (Job O) × W
  get id w = elim s.redis [
    | none ↦ from_mongo id w
    | some r ↦
        let (cached, w1) = r.get id w in
        elim cached [
          | err _ ↦ from_mongo id w1
          | ok none ↦ from_mongo id w1
          | ok (some text) ↦ elim (s.json.unmarshal text) [
            | ok j ↦ (ok j, w1)
            | err _ ↦ from_mongo id w1
          ]
        ]
  ]

  -- "" is no mapping.
  unfoldable pub lookup_idempotency : String → Text → W → Result String × W
  lookup_idempotency user key w = elim s.redis [
    | none ↦ (ok "", w)
    | some r ↦
        if text_eq key []
        then (ok "", w)
        else if str_eq user ""
        then (ok "", w)
        else let (found, w1) = r.get_id user key w in
          elim found [ ok (some id) ↦ (ok id, w1) | ok none ↦ (ok "", w1) | err e ↦ (err e, w1) ]
  ]

  unfoldable pub save_idempotency : String → Text → String → W → Option Error × W
  save_idempotency user key id w = elim s.redis [
    | none ↦ (none, w)
    | some r ↦
        if text_eq key []
        then (none, w)
        else if str_eq user ""
        then (none, w)
        else r.set_id user key id idempotency_key_ttl w
  ]

abbrev pub is_stale : {O : Type 0} → ℕ → Job O → Bool
is_stale cutoff j = is_processing j.status && ltb j.created_at cutoff

abbrev pub interrupted : {O : Type 0} → ℕ → Job O → Job O
interrupted at j = record j {
  status = failed;
  error = "server restart — generation interrupted; please retry";
  updated_at = at;
}

-- A BSON date counts milliseconds.
abbrev pub in_millis : ℕ → ℕ
in_millis n = n / 1_000_000 * 1_000_000

-- One sweep, at the start and at each tick of the sweeper.
unfoldable pub recover_stale_jobs : {O W : Type 0} → (W → ℕ) → Collection O W → W → Option Error × W
recover_stale_jobs now col w =
    col.update_many (is_stale (in_millis (now w - job_stale_processing)))
      (interrupted (in_millis (now w))) w
