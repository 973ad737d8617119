-- ===== src/Jobs/Handler.antt =====
-- backend/internal/outfit/handler.go: the slots, the submission of a generation, its run and the poll.
use mootd.Prelude.{
  ℕ, zero, suc, ◌+◌, ◌-◌, ◌/◌, ◌%◌, Bool, true, false, not, Option, none, some, List, [], ◌∷◌,
  String, str_eq, ltb, any, if◌then◌else◌, Error, Result, ok, err, Text, codes, text_eq, trim_space,
  split,
}
use Prim.Native.String.{◌++◌ as append}
use mootd.Totp.{byte_length}
use mootd.Jobs.{
  Job, JobStatus, pending, processing, completed, failed, JobStore, save, get, lookup_idempotency,
  save_idempotency,
}

-- A buffered channel: its capacity and how much of it is taken. `none` is a nil channel.
pub record GenSem : Type 0 where
  pub cap : ℕ
  pub used : ℕ

unfoldable pub with_max_concurrent : ℕ → Option GenSem → Option GenSem
with_max_concurrent n sem = if ltb 0 n then some (record { cap = n; used = 0 }) else sem

unfoldable pub acquire_gen_slot : Option GenSem → Bool × Option GenSem
acquire_gen_slot none = (true, none)
acquire_gen_slot (some c) =
    if ltb c.used c.cap then (true, some (record c { used = c.used + 1 })) else (false, some c)

unfoldable pub release_gen_slot : Option GenSem → Option GenSem
release_gen_slot none = none
release_gen_slot (some c) = some (record c { used = c.used - 1 })

-- What `GenerateOutfits` does; `budget_denied` is a `*BudgetError` in the chain, with the message of
-- its reason where that has one.
pub data Outcome (O : Type 0) : Type 0 where
  generated : List O → Outcome O
  budget_denied : Option String → Outcome O
  broken : Error → Outcome O
  panicked : Outcome O

-- BudgetError.Error
unfoldable pub budget_message : Option String → String
budget_message none = "outfit: budget exceeded"
budget_message (some m) = if str_eq m "" then "outfit: budget exceeded" else append "outfit: " m

-- The first part of "a;b", without its outer spaces.
abbrev pub media_type : Text → Text
media_type part = elim (split b';' part) [ [] ↦ [] | m ∷ _ ↦ trim_space m ]

unfoldable pub wants_sse : Text → Bool
wants_sse accept =
    any (λ part. text_eq (media_type part) (codes "text/event-stream")) (split b',' accept)

-- userID[:min(8, len)], of a user id in ASCII
abbrev pub first_chars : ℕ → String → String
first_chars zero s = ""
first_chars (suc n) String.[] = ""
first_chars (suc n) (String.◌∷◌ c s) = String.◌∷◌ c (first_chars n s)

-- `accept` and `idempotency_key` are the headers, "" where there is none.
pub record Request : Type 0 where
  pub is_post : Bool
  pub user : Option String
  pub accept : Text
  pub idempotency_key : Text

-- An answer by its status; `accepted` has the job's id, and `streamed` what went over the stream.
pub data Answer (E : Type 0) : Type 0 where
  method_not_allowed unauthorized unavailable bad_request busy server_error : Answer E
  accepted : String → Answer E
  streamed : List E → Answer E

-- Answers of a poll.
pub data Polled (O : Type 0) : Type 0 where
  method_not_allowed unavailable unauthorized bad_request not_found : Polled O
  found : Job O → Polled O

-- "%s-%d-%d"
abbrev pub job_id : (ℕ → String) → String → ℕ → ℕ → String
job_id decimal user millis r =
    append (first_chars 8 user) (append "-" (append (decimal millis) (append "-" (decimal r))))

-- The answer, the job that was launched, if one was, the slots and the world.
abbrev pub Submission : Type 0 → Type 0 → Type 0
Submission E W = Answer E × Option String × Option GenSem × W

-- handleSSEStream, where the writer can flush; `stream` is what the generation emits.
unfoldable pub handle_sse_stream :
    {E W : Type 0} → (String → W → List E × W) → String → Option GenSem → W → Submission E W
unfolding acquire_gen_slot release_gen_slot
handle_sse_stream stream user sem w =
    let (taken, sem') = acquire_gen_slot sem in
    let (events, w1) = stream user w in
    if taken then (streamed events, none, release_gen_slot sem', w1) else (busy, none, sem', w)

module _ {O W : Type 0} (now : W → ℕ) where
  -- A job before its first save, whose `UpdatedAt` is zero.
  abbrev pub marked : String → String → JobStatus → W → Job O
  marked id user status w = record {
    id = id;
    user_id = user;
    status = status;
    outfits = [];
    error = "";
    created_at = now w;
    updated_at = 0;
  }

  abbrev pub failure : String → Job O → Job O
  failure message j = record j { status = failed; error = message }

  -- The job of the last save; after a panic it is a new one.
  abbrev pub finished : String → String → Job O → W → Outcome O → Job O
  finished id user j w (generated os) = record j { status = completed; outfits = os }
  finished id user j w (budget_denied m) = failure (budget_message m) j
  finished id user j w (broken _) = failure "outfit generation failed" j
  finished id user j w panicked = failure "outfit generation failed" (marked id user failed w)

module _ {O D W : Type 0} (now : W → ℕ) where
  -- The job's goroutine up to its deferred release; the errors of its saves are logged.
  unfoldable pub generate_job : JobStore O D W → (W → Outcome O × W) → String → String → W → W
  generate_job s generate id user w =
      let (_, j, w1) = save now s (marked now id user processing w) w in
      let (outcome, w2) = generate w1 in (save now s (finished now id user j w2 outcome) w2).2

  unfoldable pub run_async_generation :
      JobStore O D W → (W → Outcome O × W) → String → String → Option GenSem → W → Option GenSem × W
  unfolding generate_job release_gen_slot
  run_async_generation s generate id user sem w =
      (release_gen_slot sem, generate_job s generate id user w)

  module _ {E : Type 0} (decimal : ℕ → String) (random : W → ℕ × W) where
    -- The rest of the submission once a slot is taken.
    unfoldable pub create_job : JobStore O D W → String → Text → Option GenSem → W → Submission E W
    unfolding release_gen_slot
    create_job s user key sem w =
        let (r, w1) = random w in
        let id = job_id decimal user (now w / 1_000_000) (r % 10_000) in
        let (failed_save, _, w2) = save now s (marked now id user pending w1) w1 in
        elim failed_save [
          | some _ ↦ (server_error, none, release_gen_slot sem, w2)
          | none ↦
              let w3 = if text_eq key [] then w2 else (save_idempotency now s user key id w2).1 in
              (accepted id, some id, sem, w3)
        ]

    unfoldable pub start_job : JobStore O D W → String → Text → Option GenSem → W → Submission E W
    unfolding acquire_gen_slot create_job
    start_job s user key sem w =
        let (taken, sem') = acquire_gen_slot sem in
        if taken then create_job s user key sem' w else (busy, none, sem', w)

    -- What follows the lookup of the idempotency key.
    abbrev pub replay :
        JobStore O D W → String → Text → Option GenSem → W → Result String → Submission E W
    replay s user key sem w (err _) = start_job s user key sem w
    replay s user key sem w (ok id) =
        if str_eq id "" then start_job s user key sem w else (accepted id, none, sem, w)

    unfoldable pub submit_json :
        Option (JobStore O D W) → String → Text → Option GenSem → W → Submission E W
    submit_json none user header sem w = (unavailable, none, sem, w)
    submit_json (some s) user header sem w =
        let key = trim_space header in
        let (existing, w1) = lookup_idempotency now s user key w in
        if ltb 128 (byte_length key)
        then (bad_request, none, sem, w)
        else if text_eq key []
        then start_job s user key sem w
        else replay s user key sem w1 existing

    abbrev pub submit_as :
        Option (JobStore O D W)
        → (String → W → List E × W)
        → Request
        → Option GenSem
        → W
        → Option String
        → Submission E W
    submit_as store stream q sem w none = (unauthorized, none, sem, w)
    submit_as store stream q sem w (some user) =
        if wants_sse q.accept
        then handle_sse_stream stream user sem w
        else submit_json store user q.idempotency_key sem w

    unfoldable pub submit_generate :
        Option (JobStore O D W)
        → (String → W → List E × W)
        → Request
        → Option GenSem
        → W
        → Submission E W
    unfolding wants_sse handle_sse_stream submit_json
    submit_generate store stream q sem w =
        if q.is_post
        then submit_as store stream q sem w q.user
        else (method_not_allowed, none, sem, w)

  -- `id` is what follows "/v1/outfits/jobs/" in the path.
  unfoldable pub poll_job :
      Option (JobStore O D W) → Bool → Option String → String → W → Polled O × W
  poll_job store is_get user id w = if not is_get then (method_not_allowed, w) else elim store [
    | none ↦ (unavailable, w)
    | some s ↦ elim user [
      | none ↦ (unauthorized, w)
      | some u ↦
          if str_eq id ""
          then (bad_request, w)
          else let (r, w1) = get now s id w in
            elim r [
              | err _ ↦ (not_found, w1)
              | ok j ↦ if str_eq j.user_id u then (found j, w1) else (not_found, w1)
            ]
    ]
  ]
