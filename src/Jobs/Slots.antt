-- ===== src/Jobs/Slots.antt =====
-- The slots for generations, over requests, goroutines and streams that interleave.
use mootd.Prelude.{
  ℕ, suc, ◌+◌, ◌≤◌, ◌<◌, ◌≡◌, ◌↔◌, refl, true, false, Option, none, some, List, [], String, str_eq,
  arith, Bool-cases, branch, Result, ok, err, trim_space, ltb, inl, inr, Text, text_eq,
}
use mootd.Totp.{byte_length}
use mootd.Jobs.{JobStore, lookup_idempotency}
use mootd.Jobs.Handler.{
  GenSem, with_max_concurrent, acquire_gen_slot, release_gen_slot, Request, Submission, create_job,
  start_job, replay, submit_json, submit_as, wants_sse, method_not_allowed, handle_sse_stream,
  submit_generate, Outcome, run_async_generation,
}

-- The semaphore, and how many requests are between the slot that they took and the launch of their
-- goroutine, how many goroutines run, and how many streams are open.
pub record Server : Type 0 where
  pub sem : Option GenSem
  pub requests : ℕ
  pub goroutines : ℕ
  pub streams : ℕ

pub data Step : Server → Server → Type 0 where
  take :
      (s : Server)
      → (acquire_gen_slot s.sem).0 ≡ true
      → Step s (record s { sem = (acquire_gen_slot s.sem).1; requests = s.requests + 1 })
  give_up :
      (s : Server) (n : ℕ)
      → s.requests ≡ suc n
      → Step s (record s { sem = release_gen_slot s.sem; requests = n })
  launch :
      (s : Server) (n : ℕ)
      → s.requests ≡ suc n
      → Step s (record s { requests = n; goroutines = s.goroutines + 1 })
  finish :
      (s : Server) (n : ℕ)
      → s.goroutines ≡ suc n
      → Step s (record s { sem = release_gen_slot s.sem; goroutines = n })
  connect :
      (s : Server)
      → (acquire_gen_slot s.sem).0 ≡ true
      → Step s (record s { sem = (acquire_gen_slot s.sem).1; streams = s.streams + 1 })
  close :
      (s : Server) (n : ℕ)
      → s.streams ≡ suc n
      → Step s (record s { sem = release_gen_slot s.sem; streams = n })

pub data Reach (s : Server) : Server → Type 0 where
  here : Reach s s
  next : {t u : Server} → Reach s t → Step t u → Reach s u

abbrev pub starting : ℕ → Server
starting n = record { sem = with_max_concurrent n none; requests = 0; goroutines = 0; streams = 0 }

abbrev pub generations : Server → ℕ
generations s = s.requests + s.goroutines + s.streams

-- The semaphore counts the generations, of which there are no more than its capacity.
abbrev pub IsCounted : ℕ → Server → Type 0
IsCounted n s = (s.sem ≡ some (record { cap = n; used = generations s })) × (generations s ≤ n)

Step-IsCounted : (n : ℕ) {s t : Server} → Step s t → IsCounted n s → IsCounted n t
unfolding acquire_gen_slot release_gen_slot
Step-IsCounted n (take s h) (e, l) = ground (arith, e, h, l)
Step-IsCounted n (give_up s m h) (e, l) = ground (arith, e, h, l)
Step-IsCounted n (launch s m h) (e, l) = ground (arith, e, h, l)
Step-IsCounted n (finish s m h) (e, l) = ground (arith, e, h, l)
Step-IsCounted n (connect s h) (e, l) = ground (arith, e, h, l)
Step-IsCounted n (close s m h) (e, l) = ground (arith, e, h, l)

Reach-IsCounted : (n : ℕ) {s t : Server} → IsCounted n s → Reach s t → IsCounted n t
Reach-IsCounted n c here = c
Reach-IsCounted n c (next r st) = Step-IsCounted n st (Reach-IsCounted n c r)

-- With a cap of `n` generations, however requests, goroutines and streams interleave, there are never
-- more than `n` of them, and a request is turned away exactly while there are `n`.
pub acquire_gen_slot-Reach :
    (n : ℕ) (s : Server)
    → 0 < n
    → Reach (starting n) s
    → (generations s ≤ n) × (((acquire_gen_slot s.sem).0 ≡ false) ↔ (generations s ≡ n))
unfolding acquire_gen_slot with_max_concurrent
acquire_gen_slot-Reach n s pos r =
    let (e, l) = Reach-IsCounted n (ground arith, omega arith) r in
    (l, (λ h. ground (arith, e, l, h), λ h. ground (arith, e, l, h)))

-- A slot that is given back leaves the semaphore as it was before.
release-acquire :
    (sem : Option GenSem)
    → (acquire_gen_slot sem).0 ≡ true
    → release_gen_slot (acquire_gen_slot sem).1 ≡ sem
unfolding acquire_gen_slot release_gen_slot
release-acquire none h = refl
release-acquire (some c) h = ground (arith, h)

acquire_failed :
    (sem : Option GenSem) → (acquire_gen_slot sem).0 ≡ false → (acquire_gen_slot sem).1 ≡ sem
unfolding acquire_gen_slot
acquire_failed none h = refl
acquire_failed (some c) h = ground (arith, h)

-- The slots after a submission: one more is taken if it launched a job, and otherwise they are as before.
abbrev pub IsBalanced : {E W : Type 0} → Option GenSem → Submission E W → Type 0
IsBalanced sem (answer, launched, sem', w) = elim launched [
  | none ↦ sem' ≡ sem
  | some _ ↦ release_gen_slot sem' ≡ sem
]

handle_sse_stream-IsBalanced :
    {E W : Type 0} (stream : String → W → List E × W) (user : String) (sem : Option GenSem) (w : W)
    → IsBalanced sem (handle_sse_stream stream user sem w)
unfolding handle_sse_stream
handle_sse_stream-IsBalanced stream user sem w = elim (Bool-cases (acquire_gen_slot sem).0) [
  | inr e ↦ ground (arith, e, acquire_failed sem e)
  | inl e ↦ ground (arith, e, release-acquire sem e)
]

module _ (E : Type 0) {O D W : Type 0} (now : W → ℕ) (decimal : ℕ → String)
    (random : W → ℕ × W) where
  start_job-IsBalanced :
      (s : JobStore O D W) (user : String) (key : Text) (sem : Option GenSem) (w : W)
      → IsBalanced sem (start_job now {E = E} decimal random s user key sem w)
  unfolding start_job create_job
  start_job-IsBalanced s user key sem w = elim (Bool-cases (acquire_gen_slot sem).0) [
    | inr e ↦ ground (arith, e, acquire_failed sem e)
    | inl e ↦ ground (arith, e, release-acquire sem e)
  ]

  replay-IsBalanced :
      (s : JobStore O D W) (user : String) (key : Text) (sem : Option GenSem) (w : W)
      (found : Result String)
      → IsBalanced sem (replay now {E = E} decimal random s user key sem w found)
  replay-IsBalanced s user key sem w (err _) = start_job-IsBalanced s user key sem w
  replay-IsBalanced s user key sem w (ok id) =
      branch (IsBalanced sem) (str_eq id "") _ _ (start_job-IsBalanced s user key sem w) refl

  submit_json-IsBalanced :
      (store : Option (JobStore O D W)) (user : String) (header : Text) (sem : Option GenSem)
      (w : W)
      → IsBalanced sem (submit_json now {E = E} decimal random store user header sem w)
  unfolding submit_json
  submit_json-IsBalanced none user header sem w = refl
  submit_json-IsBalanced (some s) user header sem w =
      let key = trim_space header in
      let (existing, w1) = lookup_idempotency now s user key w in
      branch (IsBalanced sem) (ltb 128 (byte_length key)) _ _ refl (
        branch (IsBalanced sem) (text_eq key []) _ _ (start_job-IsBalanced s user key sem w)
          (replay-IsBalanced s user key sem w1 existing))

  submit_as-IsBalanced :
      (store : Option (JobStore O D W)) (stream : String → W → List E × W) (q : Request)
      (sem : Option GenSem) (w : W) (user : Option String)
      → IsBalanced sem (submit_as now decimal random store stream q sem w user)
  submit_as-IsBalanced store stream q sem w none = refl
  submit_as-IsBalanced store stream q sem w (some user) =
      branch (IsBalanced sem) (wants_sse q.accept) _ _
        (handle_sse_stream-IsBalanced stream user sem w)
        (submit_json-IsBalanced store user q.idempotency_key sem w)

  -- The slots are as before, once the job that was launched, if one was, has run from `v`.
  abbrev pub IsReturned :
      JobStore O D W → (W → Outcome O × W) → String → W → Option GenSem → Submission E W → Type 0
  IsReturned s generate user v sem (answer, launched, sem', w) = elim launched [
    | none ↦ sem' ≡ sem
    | some id ↦ (run_async_generation now s generate id user sem' v).0 ≡ sem
  ]

  -- Whatever is submitted, one more slot is taken if the answer came with a launched job, whose run
  -- gives it back, and otherwise the slots are as before.
  pub submit_generate-slots :
      (s : JobStore O D W) (store : Option (JobStore O D W)) (stream : String → W → List E × W)
      (q : Request) (generate : W → Outcome O × W) (user : String) (sem : Option GenSem) (w v : W)
      → IsReturned s generate user v sem (submit_generate now decimal random store stream q sem w)
  unfolding submit_generate run_async_generation
  submit_generate-slots s store stream q generate user sem w v =
      branch (IsBalanced sem) q.is_post (submit_as now decimal random store stream q sem w q.user)
        (method_not_allowed, none, sem, w) (submit_as-IsBalanced store stream q sem w q.user) refl
