-- ===== src/Jobs/Tests.antt =====
-- A server with Mongo and Redis as maps.
use mootd.Prelude.{
  ℕ, ◌+◌, ◌≤◌, ◌≡◌, refl, Option, none, some, String, str_eq, arith, Map, update, update_self, ◌⊎◌,
  Error, new, wrap, ok, err, if◌then◌else◌, ltb, Text, text_eq,
}
use mootd.Jobs.{
  Job, pending, processing, Collection, Redis, Json, JobStore, save, in_millis, recover_stale_jobs,
  get,
}
use mootd.Jobs.Handler.{Outcome, panicked, marked, generate_job}
use mootd.Jobs.Stored.{IsCollection, IsCache, get-save, get-save_stale, store}
use mootd.Jobs.Ends.{IsOver, generate_job-IsOver}

-- The clock, the documents, and the values in Redis.
pub record World : Type 0 where
  pub clock : ℕ
  pub docs : Map (Job ℕ)
  pub jobs : Map (Job ℕ)
  pub ids : String → Text → Option String

abbrev pub now : World → ℕ
now w = w.clock

-- What a driver stores.
abbrev pub in_bson : Job ℕ → Job ℕ
in_bson j = record j { created_at = in_millis j.created_at; updated_at = in_millis j.updated_at }

abbrev pub mongo : Collection ℕ World
mongo = record {
  replace_one = λ j w. (none, record w { docs = update w.docs j.id (in_bson j) });
  find_one = λ id w. (elim (w.docs id) [ none ↦ err (new "no documents") | some j ↦ ok j ], w);
  update_many = λ p f w. (
    none,
    record w {
      docs = λ id. elim (w.docs id) [ none ↦ none | some j ↦ some (if p j then f j else j) ];
    },
  );
}

abbrev pub redis : Redis (Job ℕ) World
redis = record {
  get = λ id w. (ok (w.jobs id), w);
  set = λ id j ttl w. (none, record w { jobs = update w.jobs id j });
  get_id = λ user key w. (ok (w.ids user key), w);
  set_id = λ user key id ttl w. (
    none,
    record w {
      ids = λ u k.
          if str_eq u user then (if text_eq k key then some id else w.ids u k) else w.ids u k;
    },
  );
}

abbrev pub json : Json ℕ (Job ℕ)
json = record { marshal = ok; unmarshal = ok }

abbrev pub rows : World → String → Option (Job ℕ)
rows w = w.docs

in_millis-le : (n : ℕ) → in_millis n ≤ n
in_millis-le n = omega arith

pub mongo_laws : IsCollection mongo rows in_bson
mongo_laws = record {
  replace_ok = λ j w k h. refl;
  replace_err = λ j w k e h. ground arith;
  find_ok = λ id w j h. ground (arith, h);
  update_ok = λ p f w k h. refl;
  stored_status = λ j. refl;
  stored_user = λ j. refl;
  stored_created = λ j. in_millis-le j.created_at;
}

redis_laws : IsCache redis json rows (λ w. w.jobs)
redis_laws = record {
  set_ok = λ k v ttl w h. update_self w.jobs k v;
  set_rows = λ k v ttl w. refl;
  get_ok = λ k w o h. ground (arith, h);
  get_rows = λ k w. refl;
  encodes = λ j. (j, refl, refl);
}

abbrev pub empty_world : World
empty_world = record {
  clock = 5_000_000_000;
  docs = λ id. none;
  jobs = λ id. none;
  ids = λ user key. none;
}

abbrev the_job : Job ℕ
the_job = marked now "ann-1-2" "ann" processing empty_world

finds : (id : String) (w : World) (j : Job ℕ) → rows w id ≡ some j → (mongo.find_one id w).0 ≡ ok j
finds id w j h = rw h

taken :
    (save now (store now mongo json rows in_bson mongo_laws (some redis)) the_job empty_world).0
    ≡ none
unfolding save
taken = refl

abbrev pub the_store : JobStore ℕ (Job ℕ) World
the_store = store now mongo json rows in_bson mongo_laws (some redis)

abbrev saved : World
saved = (save now the_store the_job empty_world).2

get-save_example :
    ((get now the_store "ann-1-2" saved).0 ≡ ok (record the_job { updated_at = 5_000_000_000 }))
    ⊎ ((get now the_store "ann-1-2" saved).0
        ≡ ok (in_bson (record the_job { updated_at = 5_000_000_000 })))
get-save_example =
    get-save now mongo json rows in_bson mongo_laws (λ w. w.jobs) finds (some redis) the_job
      empty_world redis_laws (λ k v ttl u. refl) taken

-- A Redis that refuses writes of jobs.
abbrev refusing : Redis (Job ℕ) World
refusing = record redis { set = λ id j ttl w. (some (new "redis down"), w) }

abbrev pending_world : World
pending_world = record empty_world {
  jobs = update (λ id. none) "ann-1-2" (record the_job { status = pending });
}

abbrev refusing_store : JobStore ℕ (Job ℕ) World
refusing_store = store now mongo json rows in_bson mongo_laws (some refusing)

get-save_stale_example :
    ((save now refusing_store the_job pending_world).0 ≡ none)
    × ((get now refusing_store "ann-1-2" (save now refusing_store the_job pending_world).2).0
        ≡ ok (record the_job { status = pending }))
get-save_stale_example =
    get-save_stale now mongo json rows in_bson mongo_laws (λ w. w.jobs) refusing the_job
      (record the_job { status = pending }) pending_world (record the_job { status = pending })
      (λ id v ttl u. refl) (λ i u k. refl) (λ k u. refl) refl refl refl

-- A Mongo that takes no write from `until` on.
abbrev failing : ℕ → Collection ℕ World
failing until = record mongo {
  replace_one = λ j w.
      if ltb w.clock until
      then (none, record w { docs = update w.docs j.id (in_bson j) })
      else (some (new "mongo down"), w);
}

failing_laws : (until : ℕ) → IsCollection (failing until) rows in_bson
failing_laws until = record {
  replace_ok = λ j w k h. ground (arith, h);
  replace_err = λ j w k e h. ground (arith, h);
  find_ok = λ id w j h. ground (arith, h);
  update_ok = λ p f w k h. refl;
  stored_status = λ j. refl;
  stored_user = λ j. refl;
  stored_created = λ j. in_millis-le j.created_at;
}

-- A generation that takes a minute and fails.
abbrev pub slow : World → Outcome ℕ × World
slow w = (panicked, record w { clock = w.clock + 60_000_000_000 })

abbrev failing_store : ℕ → JobStore ℕ (Job ℕ) World
failing_store until = store now (failing until) json rows in_bson (failing_laws until) none

abbrev later : World → World
later w = record w { clock = w.clock + 601_000_000_000 }

first_taken :
    (save now
      (failing_store 6_000_000_000)
      (marked now "ann-1-2" "ann" processing empty_world)
      empty_world).0
    ≡ none
unfolding save
first_taken = refl

abbrev after_run : World
after_run = generate_job now (failing_store 6_000_000_000) slow "ann-1-2" "ann" empty_world

clock_later : now empty_world + 600_000_000_000 + 1_000_000 ≤ now (later after_run)
unfolding generate_job save
clock_later = omega arith

swept_ok : (recover_stale_jobs now (failing 6_000_000_000) (later after_run)).0 ≡ none
unfolding recover_stale_jobs
swept_ok = refl

generate_job-IsOver_example :
    (j : Job ℕ) × (rows
        (recover_stale_jobs now (failing 6_000_000_000) (later after_run)).1
        "ann-1-2"
      ≡ some j)
    × IsOver j
generate_job-IsOver_example =
    generate_job-IsOver now (failing 6_000_000_000) json rows in_bson (failing_laws 6_000_000_000)
      (λ w. w.jobs) none tt slow "ann-1-2" "ann" empty_world (later after_run) (λ u. refl)
      first_taken refl clock_later swept_ok

-- The same job where Mongo takes no write at all.
abbrev waiting : World
waiting = record empty_world {
  docs = update (λ id. none) "ann-1-2" (record the_job { status = pending });
}

down : (i : Job ℕ) (u : World) → (e : Error) × ((save now (failing_store 0) i u).0 ≡ some e)
unfolding save
down i u = (wrap "outfit: mongo save" (new "mongo down"), ground arith)
