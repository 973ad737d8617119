-- ===== src/Jobs/SubmitTests.antt =====
-- Submissions to a server with one slot.
use mootd.Prelude.{
  ℕ, ◌≡◌, ◌≤◌, ◌↔◌, refl, true, false, List, [], Option, none, some, String, eq_refl, text_eq_self,
  arith, codes, Text, if◌then◌else◌, ltb, trim_space,
}
use mootd.Jobs.{save, lookup_idempotency, save_idempotency}
use mootd.Jobs.Handler.{
  GenSem, with_max_concurrent, accepted, Request, acquire_gen_slot, submit_json, start_job,
  create_job,
}
use mootd.Jobs.Slots.{
  Server, take, launch, Reach, here, next, starting, generations, acquire_gen_slot-Reach,
}
use mootd.Jobs.Replay.{submit_json-replay}
use mootd.Jobs.Tests.{World, now, mongo, redis, json, empty_world, the_store}

abbrev one_running : Server
one_running = record {
  sem = some (record { cap = 1; used = 1 });
  requests = 0;
  goroutines = 1;
  streams = 0;
}

reached : Reach (starting 1) one_running
unfolding acquire_gen_slot with_max_concurrent
reached = next (next here (take (starting 1) refl)) (
    launch (record (starting 1) { sem = some (record { cap = 1; used = 1 }); requests = 1 }) 0 refl)

acquire_gen_slot-Reach_example :
    (generations one_running ≤ 1)
    × (((acquire_gen_slot one_running.sem).0 ≡ false) ↔ (generations one_running ≡ 1))
acquire_gen_slot-Reach_example = acquire_gen_slot-Reach 1 one_running (omega arith) reached

abbrev decimal : ℕ → String
decimal n = if ltb n 5 then "4" else "5"

abbrev random : World → ℕ × World
random w = (4, w)

abbrev slot : Option GenSem
slot = some (record { cap = 1; used = 0 })

abbrev post : Request
post = record {
  is_post = true;
  user = some "ann";
  accept = codes "application/json";
  idempotency_key = codes "k1";
}

abbrev stream : String → World → List ℕ × World
stream user w = ([], w)

first :
    (submit_json now {E = ℕ} decimal random (some the_store) "ann" (codes "k1") slot empty_world).0
    ≡ accepted "ann-5-4"
unfolding submit_json start_job create_job save lookup_idempotency save_idempotency acquire_gen_slot
    trim_space
first = refl

abbrev after : World
after =
    (submit_json now {E = ℕ} decimal random (some the_store) "ann" (codes "k1") slot empty_world).3

set_here :
    (user : String) (key : Text) (id : String) (w : World)
    → ((redis.set_id user key id 0 w).1).ids user key ≡ some id
set_here user key id w = ground (arith, eq_refl user, text_eq_self key)

submit_json-replay_example :
    let again =
      submit_json now {E = ℕ} decimal random
        (some the_store)
        "ann"
        (codes "k1")
        (some (record { cap = 1; used = 1 }))
        after in
    (again.0 ≡ accepted "ann-5-4")
    × (again.1 ≡ none)
    × (again.2 ≡ some (record { cap = 1; used = 1 }))
unfolding trim_space
submit_json-replay_example =
    submit_json-replay ℕ now decimal random mongo json redis (λ w. w.ids)
      (λ user key id ttl u. (refl, set_here user key id u)) (λ user key u. (refl, refl)) "ann"
      (codes "k1") refl refl refl "ann-5-4" slot (some (record { cap = 1; used = 1 })) empty_world
      after first refl
