-- ===== src/Jobs/Polls.antt =====
-- What a poll answers, to the job's owner and to others.
use mootd.Prelude.{
  ℕ, ◌≡◌, true, false, Option, none, some, String, str_eq, arith, AllOption, if◌then◌else◌, inl,
  inr, ◌⊎◌, ok, Bool-cases,
}
use mootd.Jobs.{Job, Collection, Redis, Json, save}
use mootd.Jobs.Handler.{not_found, found, poll_job}
use mootd.Jobs.Stored.{IsCollection, IsCached, store, get-save}

module _ {O D W : Type 0} (now : W → ℕ) (col : Collection O W) (json : Json O D)
    (rows : W → String → Option (Job O)) (stored : Job O → Job O)
    (is_col : IsCollection col rows stored) (cached : W → String → Option D)
    (is_up : (id : String) (w : W) (j : Job O) → rows w id ≡ some j → (col.find_one id w).0 ≡ ok j)
    (redis : Option (Redis D W))
    (laws : IsCached now col json rows stored is_col cached redis) where
  -- After a save with no error a poll by the job's user answers with the job as it was saved, or as Mongo
  -- stores it, and a poll by anyone else as if there were no such job, provided that Mongo answers and
  -- Redis, if there is one, takes the write.
  pub poll_job-save :
      (j : Job O) (w : W) (user : String)
      → AllOption (λ r. (k : String) (v : D) (ttl : ℕ) (u : W) → (r.set k v ttl u).0 ≡ none) redis
      → (save now (store now col json rows stored is_col redis) j w).0 ≡ none
      → str_eq j.id "" ≡ false
      → let s = store now col json rows stored is_col redis in
        let j' : Job O = record j { updated_at = now w } in
        let answer = (poll_job now (some s) true (some user) j.id (save now s j w).2).0 in
        if str_eq j.user_id user
        then (answer ≡ found j') ⊎ (answer ≡ found (stored j'))
        else answer ≡ not_found
  unfolding poll_job
  poll_job-save j w user takes h named =
      elim (get-save now col json rows stored is_col cached is_up redis j w laws takes h) [
        | inl e ↦ elim (Bool-cases (str_eq j.user_id user)) [
          | inl own ↦ rw own (inl (ground (arith, e, own, named)))
          | inr other ↦ rw other (ground (arith, e, other, named))
        ]
        | inr e ↦ elim (Bool-cases (str_eq j.user_id user)) [
          | inl own ↦ rw own (inr (ground (arith, e, own, named, is_col.stored_user j')))
          | inr other ↦ rw other (ground (arith, e, other, named, is_col.stored_user j'))
        ]
      ]
    where
      j' : Job O
      j' = record j { updated_at = now w }
