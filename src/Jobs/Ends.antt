-- ===== src/Jobs/Ends.antt =====
-- How a job ends, whatever saves of its goroutine fail. Mongo's own removal of documents that are older
-- than 24 hours is left out.
use mootd.Prelude.{
  ℕ, ◌+◌, ◌≤◌, ◌≡◌, refl, ap, ◌∙◌, subst, Option, none, some, String, eq_refl, arith, Option-cases,
  inl, inr, ◌⊎◌, Error,
}
use mootd.Jobs.{
  Job, pending, processing, completed, failed, Collection, Redis, Json, JobStore, save,
  recover_stale_jobs, job_stale_processing,
}
use mootd.Jobs.Handler.{
  Outcome, generated, budget_denied, broken, panicked, marked, finished, generate_job,
}
use mootd.Jobs.Stored.{
  IsCollection, store, swept, rows-recover_stale_jobs, IsCached, rows-save, rows-save_failed,
}

abbrev pub IsOver : {O : Type 0} → Job O → Type 0
IsOver j = (j.status ≡ completed) ⊎ (j.status ≡ failed)

-- A job that is over, or that was made by `at` and is being processed.
abbrev pub IsKnown : {O : Type 0} → ℕ → Job O → Type 0
IsKnown at j = IsOver j ⊎ ((j.status ≡ processing) × (j.created_at ≤ at))

swept-IsOver :
    {O : Type 0} (at now : ℕ) (j : Job O)
    → at + job_stale_processing + 1_000_000 ≤ now
    → IsKnown at j
    → IsOver (swept now j)
swept-IsOver at now j l (inl o) = ground (arith, o)
swept-IsOver at now j l (inr (p, c)) = ground (arith, p, c)

module _ {O D W : Type 0} (now : W → ℕ) (col : Collection O W) (json : Json O D)
    (rows : W → String → Option (Job O)) (stored : Job O → Job O)
    (is_col : IsCollection col rows stored) (cached : W → String → Option D)
    (redis : Option (Redis D W))
    (laws : IsCached now col json rows stored is_col cached redis) where
  abbrev pub Holds : (Job O → Type 0) → W → String → Type 0
  Holds P w id = (j : Job O) × (rows w id ≡ some j) × P j

  abbrev jobs : JobStore O D W
  jobs = store now col json rows stored is_col redis

  over : (j : Job O) → IsOver j → IsOver (stored j)
  over j o = ground (arith, o, is_col.stored_status j)

  -- A save of a job that is over leaves one, or the document as it was.
  save-IsKnown :
      (at : ℕ) (j : Job O) (w : W)
      → IsOver j
      → Holds (IsKnown at) w j.id
      → Holds (IsKnown at) (save now jobs j w).2 j.id
  save-IsKnown at j w o (i, e, known) = elim (Option-cases (save now jobs j w).0) [
    | inl q ↦
        let j' : Job O = record j { updated_at = now w } in
        (
          stored j',
          ground (
            arith,
            rows-save now col json rows stored is_col cached redis j w j.id laws q,
            eq_refl j.id,
          ),
          inl (over j' o),
        )
    | inr (x, q) ↦
        (i, rows-save_failed now col json rows stored is_col cached redis j w j.id x q ∙ e, known)
  ]

  saved_id : (j : Job O) (w : W) → (save now jobs j w).1.id ≡ j.id
  unfolding save
  saved_id j w = ground arith

  finished-IsOver :
      (id user : String) (j : Job O) (w : W)
      → j.id ≡ id
      → (outcome : Outcome O)
      → ((finished now id user j w outcome).id ≡ id) × IsOver (finished now id user j w outcome)
  finished-IsOver id user j w e (generated os) = (e, inl refl)
  finished-IsOver id user j w e (budget_denied m) = (e, inr refl)
  finished-IsOver id user j w e (broken _) = (e, inr refl)
  finished-IsOver id user j w e panicked = (refl, inr refl)

  -- The document after the job's goroutine has ended, if its first save was taken.
  generate_job-IsKnown :
      (generate : W → Outcome O × W) (id user : String) (w : W)
      → ((u : W) → rows (generate u).1 ≡ rows u)
      → (save now jobs (marked now id user processing w) w).0 ≡ none
      → Holds (IsKnown (now w)) (generate_job now jobs generate id user w) id
  unfolding generate_job
  generate_job-IsKnown generate id user w quiet h =
      let start : Job O = record (marked now id user processing w) { updated_at = now w } in
      let w1 = (save now jobs (marked now id user processing w) w).2 in
      let w2 = (generate w1).1 in
      let first : rows w1 id ≡ some (stored start) = ground (
        arith,
        rows-save now col json rows stored is_col cached redis (marked now id user processing w) w
            id laws h,
        eq_refl id,
      ) in
      let known : IsKnown (now w) (stored start) =
        inr (is_col.stored_status start, is_col.stored_created start) in
      let end =
        finished now id user (save now jobs (marked now id user processing w) w).1 w2
          (generate w1).0 in
      let (same_id, over_end) =
        finished-IsOver id user (save now jobs (marked now id user processing w) w).1 w2
          (saved_id (marked now id user processing w) w) (generate w1).0 in
      subst (Holds (IsKnown (now w)) (save now jobs end w2).2) same_id (
        save-IsKnown (now w) end w2 over_end
          (stored start, rw same_id (ap (λ f. f id) (quiet w1) ∙ first), known))

  -- If the first save of a job's goroutine is taken, then whatever its generation does, a panic included,
  -- and whether or not its last save is taken, the first successful sweep at 10 minutes and a millisecond
  -- after its start or later leaves the job completed or failed.
  pub generate_job-IsOver :
      (generate : W → Outcome O × W) (id user : String) (w v : W)
      → ((u : W) → rows (generate u).1 ≡ rows u)
      → (save now jobs (marked now id user processing w) w).0 ≡ none
      → rows v id ≡ rows (generate_job now jobs generate id user w) id
      → now w + job_stale_processing + 1_000_000 ≤ now v
      → (recover_stale_jobs now col v).0 ≡ none
      → Holds IsOver (recover_stale_jobs now col v).1 id
  generate_job-IsOver generate id user w v quiet h same late ran =
      let (j, e, known) = generate_job-IsKnown generate id user w quiet h in
      (
        swept (now v) j,
        ground (arith, rows-recover_stale_jobs now col json rows stored is_col v id ran, same, e),
        swept-IsOver (now w) (now v) j late known,
      )

  -- If Mongo takes no write while a job that is still pending runs, then the job is pending for good: a
  -- sweep at any time leaves it as it is.
  pub generate_job_pending :
      (generate : W → Outcome O × W) (id user : String) (w v : W) (j : Job O)
      → ((u : W) → rows (generate u).1 ≡ rows u)
      → ((i : Job O) (u : W) → (e : Error) × ((save now jobs i u).0 ≡ some e))
      → rows w id ≡ some j
      → j.status ≡ pending
      → rows v id ≡ rows (generate_job now jobs generate id user w) id
      → (recover_stale_jobs now col v).0 ≡ none
      → rows (recover_stale_jobs now col v).1 id ≡ some j
  unfolding generate_job
  generate_job_pending generate id user w v j quiet down e p same ran =
      let start = marked now id user processing w in
      let w1 = (save now jobs start w).2 in
      let w2 = (generate w1).1 in
      let end = finished now id user (save now jobs start w).1 w2 (generate w1).0 in
      let failed_save = λ (i : Job O) (u : W).
        rows-save_failed now col json rows stored is_col cached redis i u id (down i u).0
          (down i u).1 in
      let kept : rows v id ≡ some j =
        same ∙ failed_save end w2 ∙ ap (λ f. f id) (quiet w1) ∙ failed_save start w ∙ e in
      ground (arith, rows-recover_stale_jobs now col json rows stored is_col v id ran, kept, p)
