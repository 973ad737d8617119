-- ===== src/Jobs/Stored.antt =====
-- What the store returns of what was saved, and what a sweep makes of it.
use mootd.Prelude.{
  Bool, AllOption, ℕ, ◌-◌, ◌≤◌, ◌≡◌, refl, sym, ap, ◌∙◌, subst, Option, none, some, String, str_eq,
  eq_refl, arith, if◌then◌else◌, Option-cases, Result-cases, inl, inr, ◌⊎◌, Error, ok,
}
use mootd.Jobs.{
  Job, Collection, Redis, Json, JobStore, save, get, cache, from_mongo, is_stale, interrupted,
  recover_stale_jobs, in_millis, job_stale_processing, redis_ttl,
}

-- `rows` are the documents, and `stored j` is `j` as the driver writes it: a date counts milliseconds.
pub record IsCollection {O W : Type 0} (col : Collection O W) (rows : W → String → Option (Job O))
    (stored : Job O → Job O) : Type 0 where
  pub replace_ok :
      (j : Job O) (w : W) (k : String)
      → (col.replace_one j w).0 ≡ none
      → rows (col.replace_one j w).1 k ≡ (if str_eq j.id k then some (stored j) else rows w k)
  pub replace_err :
      (j : Job O) (w : W) (k : String) (e : Error)
      → (col.replace_one j w).0 ≡ some e
      → rows (col.replace_one j w).1 k ≡ rows w k
  pub find_ok :
      (id : String) (w : W) (j : Job O) → (col.find_one id w).0 ≡ ok j → rows w id ≡ some j
  pub update_ok :
      (p : Job O → Bool) (f : Job O → Job O) (w : W) (k : String)
      → (col.update_many p f w).0 ≡ none
      → rows (col.update_many p f w).1 k
        ≡ elim (rows w k) [ none ↦ none | some j ↦ some (if p j then f j else j) ]
  pub stored_status : (j : Job O) → (stored j).status ≡ j.status
  pub stored_user : (j : Job O) → (stored j).user_id ≡ j.user_id
  pub stored_created : (j : Job O) → (stored j).created_at ≤ j.created_at

-- `cached` is what is live under a key.
pub record IsCache {O D W : Type 0} (r : Redis D W) (json : Json O D)
    (rows : W → String → Option (Job O)) (cached : W → String → Option D) : Type 0 where
  pub set_ok :
      (k : String) (v : D) (ttl : ℕ) (w : W)
      → (r.set k v ttl w).0 ≡ none
      → cached (r.set k v ttl w).1 k ≡ some v
  pub set_rows : (k : String) (v : D) (ttl : ℕ) (w : W) → rows (r.set k v ttl w).1 ≡ rows w
  pub get_ok : (k : String) (w : W) (o : Option D) → (r.get k w).0 ≡ ok o → o ≡ cached w k
  pub get_rows : (k : String) (w : W) → rows (r.get k w).1 ≡ rows w
  pub encodes : (j : Job O) → (text : D) × (json.marshal j ≡ ok text) × (json.unmarshal text ≡ ok j)

-- What a successful sweep makes of a document.
abbrev pub swept : {O : Type 0} → ℕ → Job O → Job O
swept at j =
    if is_stale (in_millis (at - job_stale_processing)) j then interrupted (in_millis at) j else j

-- A store over a collection that behaves as one, with a cache that does, or with none.
module _ {O D W : Type 0} (now : W → ℕ) (col : Collection O W) (json : Json O D)
    (rows : W → String → Option (Job O)) (stored : Job O → Job O)
    (is_col : IsCollection col rows stored) where
  abbrev pub store : Option (Redis D W) → JobStore O D W
  store redis = record { mongo_col = col; redis = redis; json = json }

  pub rows-recover_stale_jobs :
      (w : W) (k : String)
      → (recover_stale_jobs now col w).0 ≡ none
      → rows (recover_stale_jobs now col w).1 k
        ≡ elim (rows w k) [ none ↦ none | some j ↦ some (swept (now w) j) ]
  unfolding recover_stale_jobs
  rows-recover_stale_jobs w k h =
      is_col.update_ok (is_stale (in_millis (now w - job_stale_processing)))
        (interrupted (in_millis (now w))) w k h

  module _ (cached : W → String → Option D) where
    abbrev pub IsCached : Option (Redis D W) → Type 0
    IsCached redis = AllOption (λ r. IsCache r json rows cached) redis

    rows-cache :
        (redis : Option (Redis D W)) (id : String) (j : Job O) (w : W)
        → IsCached redis
        → rows (cache now (store redis) id j w) ≡ rows w
    rows-cache none id j w laws = refl
    rows-cache (some r) id j w laws =
        let (text, e, _) = laws.encodes j in rw e (laws.set_rows id text redis_ttl w)

    -- The document after a save with no error.
    pub rows-save :
        (redis : Option (Redis D W)) (j : Job O) (w : W) (k : String)
        → IsCached redis
        → (save now (store redis) j w).0 ≡ none
        → rows (save now (store redis) j w).2 k
          ≡ (if str_eq j.id k then some (stored (record j { updated_at = now w })) else rows w k)
    unfolding save
    rows-save redis j w k laws h =
        elim (Option-cases (col.replace_one (record j { updated_at = now w }) w).0) [
          | inr (e, q) ↦ ground (arith, q, h)
          | inl q ↦ ground (
            arith,
            q,
            ap (λ f. f k)
                (rows-cache redis j.id (record j { updated_at = now w })
                  (col.replace_one (record j { updated_at = now w }) w).1 laws),
            is_col.replace_ok (record j { updated_at = now w }) w k q,
          )
        ]

    pub rows-save_failed :
        (redis : Option (Redis D W)) (j : Job O) (w : W) (k : String) (e : Error)
        → (save now (store redis) j w).0 ≡ some e
        → rows (save now (store redis) j w).2 k ≡ rows w k
    unfolding save
    rows-save_failed redis j w k e h =
        let j' : Job O = record j { updated_at = now w } in
        elim (Option-cases (col.replace_one j' w).0) [
          | inl q ↦ ground (arith, q, h)
          | inr (e', q) ↦ ground (arith, q, is_col.replace_err j' w k e' q)
        ]

    cached-cache_refused :
        (r : Redis D W) (id : String) (j : Job O) (w : W)
        → ((i : String) (v : D) (ttl : ℕ) (u : W) → cached (r.set i v ttl u).1 i ≡ cached u i)
        → cached (cache now (store (some r)) id j w) id ≡ cached w id
    cached-cache_refused r id j w refuses = elim (Result-cases (json.marshal j)) [
      | inl (text, e) ↦ rw e (refuses id text redis_ttl w)
      | inr (_, e) ↦ rw e refl
    ]

    -- If Mongo takes a save, Redis refuses it, and an older version of the job is cached, then the save
    -- returns no error, and a read that Redis answers returns the older version.
    pub get-save_stale :
        (r : Redis D W) (j old : Job O) (w : W) (text : D)
        → ((id : String) (v : D) (ttl : ℕ) (u : W) → cached (r.set id v ttl u).1 id ≡ cached u id)
        → ((i : Job O) (u : W) (k : String) → cached (col.replace_one i u).1 k ≡ cached u k)
        → ((k : String) (u : W) → (r.get k u).0 ≡ ok (cached u k))
        → (col.replace_one (record j { updated_at = now w }) w).0 ≡ none
        → cached w j.id ≡ some text
        → json.unmarshal text ≡ ok old
        → ((save now (store (some r)) j w).0 ≡ none)
          × ((get now (store (some r)) j.id (save now (store (some r)) j w).2).0 ≡ ok old)
    unfolding save get
    get-save_stale r j old w text refuses keeps answers taken kept decoded =
        let j' : Job O = record j { updated_at = now w } in
        let w1 = (col.replace_one j' w).1 in
        let same : cached (cache now (store (some r)) j.id j' w1) j.id ≡ some text =
          cached-cache_refused r j.id j' w1 refuses ∙ keeps j' w j.id ∙ kept in
        (
          ground (arith, taken),
          ground
              (arith, taken, answers j.id (cache now (store (some r)) j.id j' w1), same, decoded),
        )

    module _
        (is_up : (id : String) (w : W) (j : Job O)
          → rows w id ≡ some j
          → (col.find_one id w).0 ≡ ok j) where
      from_mongo-row :
          (redis : Option (Redis D W)) (id : String) (w : W) (j : Job O)
          → rows w id ≡ some j
          → (from_mongo now (store redis) id w).0 ≡ ok j
      from_mongo-row redis id w j h = ground (arith, is_up id w j h)

      -- What a read gives where the document and what is cached are known.
      get-row :
          (redis : Option (Redis D W)) (id : String) (w : W) (j c : Job O)
          → IsCached redis
          → rows w id ≡ some j
          → AllOption (λ text. json.unmarshal text ≡ ok c) (cached w id)
          → ((get now (store redis) id w).0 ≡ ok c) ⊎ ((get now (store redis) id w).0 ≡ ok j)
      unfolding get
      get-row none id w j c laws h k = inr (from_mongo-row none id w j h)
      get-row (some r) id w j c laws h k =
          let w1 = (r.get id w).1 in
          let missed = from_mongo-row (some r) id w1 j (ap (λ f. f id) (laws.get_rows id w) ∙ h) in
          elim (Result-cases (r.get id w).0) [
            | inr (e, q) ↦ inr (ground (arith, q, missed))
            | inl (none, q) ↦ inr (ground (arith, q, missed))
            | inl (some text, q) ↦
                let decoded =
                  subst (AllOption (λ t. json.unmarshal t ≡ ok c))
                    (sym (laws.get_ok id w (some text) q)) k in
                inl (ground (arith, q, decoded))
          ]

      -- The documents and the cache after a save with no error.
      saved_row :
          (redis : Option (Redis D W)) (j : Job O) (w : W)
          → IsCached redis
          → (save now (store redis) j w).0 ≡ none
          → rows (save now (store redis) j w).2 j.id
            ≡ some (stored (record j { updated_at = now w }))
      unfolding save
      saved_row redis j w laws h = ground (arith, rows-save redis j w j.id laws h, eq_refl j.id)

      cached-cache :
          (r : Redis D W) (id : String) (j : Job O) (w : W)
          → IsCache r json rows cached
          → ((k : String) (v : D) (ttl : ℕ) (u : W) → (r.set k v ttl u).0 ≡ none)
          → (text : D) × (cached (cache now (store (some r)) id j w) id ≡ some text)
            × (json.unmarshal text ≡ ok j)
      cached-cache r id j w laws takes =
          let (text, e, d) = laws.encodes j in
          (text, rw e (laws.set_ok id text redis_ttl w (takes id text redis_ttl w)), d)

      save-cache :
          (redis : Option (Redis D W)) (j : Job O) (w : W)
          → (save now (store redis) j w).0 ≡ none
          → (save now (store redis) j w).2
            ≡ cache now
                (store redis)
                j.id
                (record j { updated_at = now w })
                (col.replace_one (record j { updated_at = now w }) w).1
      unfolding save
      save-cache redis j w h = ground arith

      -- If a save returns no error, then a read of the job after it returns the job as it was saved, or as
      -- Mongo stores it, provided that Mongo answers and Redis, if there is one, takes the write.
      pub get-save :
          (redis : Option (Redis D W)) (j : Job O) (w : W)
          → IsCached redis
          → AllOption
              (λ r. (k : String) (v : D) (ttl : ℕ) (u : W) → (r.set k v ttl u).0 ≡ none)
              redis
          → (save now (store redis) j w).0 ≡ none
          → let j' : Job O = record j { updated_at = now w } in
            let w' = (save now (store redis) j w).2 in
            let found = (get now (store redis) j.id w').0 in
            (found ≡ ok j') ⊎ (found ≡ ok (stored j'))
      unfolding save get
      get-save none j w laws takes h = inr (
          from_mongo-row none j.id (save now (store none) j w).2
            (stored (record j { updated_at = now w })) (saved_row none j w laws h))
      get-save (some r) j w laws takes h =
          let j' : Job O = record j { updated_at = now w } in
          let (text, e, d) = cached-cache r j.id j' (col.replace_one j' w).1 laws takes in
          let e' = ap (λ u. cached u j.id) (save-cache (some r) j w h) ∙ e in
          get-row (some r) j.id (save now (store (some r)) j w).2 (stored j') j' laws
            (saved_row (some r) j w laws h)
            (subst (AllOption (λ t. json.unmarshal t ≡ ok j')) (sym e') d)
