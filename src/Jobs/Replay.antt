-- ===== src/Jobs/Replay.antt =====
-- A second submission with the same idempotency key.
use mootd.Prelude.{
  ℕ, ◌/◌, ◌%◌, ◌≡◌, ap, ◌∙◌, false, Option, none, some, String, str_eq, arith, ltb, Bool-cases,
  Option-cases, inl, inr, ok, Text, text_eq, [], trim_space,
}
use Prim.Native.String.append as concat
use Prim.Native.String.compare as order
use text.Mathlib.Text.{is_eq}
use Prim.Native.String.{◌++◌ as append}
use mootd.Totp.{byte_length}
use mootd.Jobs.{
  Collection, Redis, Json, JobStore, idempotency_key_ttl, lookup_idempotency, save_idempotency,
  save, pending,
}
use mootd.Jobs.Handler.{
  GenSem, accepted, job_id, create_job, start_job, submit_json, acquire_gen_slot, marked,
  first_chars,
}

dash_ne : (s t : String) → str_eq (append s (append "-" t)) "" ≡ false
dash_ne String.[] t =
    ap (λ u. str_eq u "") (concat.nil (append "-" t) ∙ concat.cons "-" "" t)
    ∙ ap is_eq (order.cons-nil "-" (append "" t))
dash_ne (String.◌∷◌ c s) t =
    ap (λ u. str_eq u "") (concat.cons c s (append "-" t))
    ∙ ap is_eq (order.cons-nil c (append s (append "-" t)))

module _ (E : Type 0) {O D W : Type 0} (now : W → ℕ) (decimal : ℕ → String) (random : W → ℕ × W)
    (col : Collection O W) (json : Json O D) (r : Redis D W)
    (bound_id : W → String → Text → Option String)
    (takes : (user : String) (key : Text) (id : String) (ttl : ℕ) (u : W)
      → ((r.set_id user key id ttl u).0 ≡ none)
        × (bound_id (r.set_id user key id ttl u).1 user key ≡ some id))
    (answers : (user : String) (key : Text) (u : W)
      → ((r.get_id user key u).0 ≡ ok (bound_id u user key))
        × (bound_id (r.get_id user key u).1 user key ≡ bound_id u user key)) where
  abbrev s : JobStore O D W
  s = record { mongo_col = col; redis = some r; json = json }

  module _ (user : String) (header : Text) (known : str_eq user "" ≡ false)
      (given : text_eq (trim_space header) [] ≡ false)
      (short : ltb 128 (byte_length (trim_space header)) ≡ false) where
    abbrev key : Text
    key = trim_space header

    found :
        (id : String) (w : W)
        → bound_id w user key ≡ some id
        → (lookup_idempotency now s user key w).0 ≡ ok id
    unfolding lookup_idempotency
    found id w e = ground (arith, known, given, answers user key w, e)

    kept :
        (id : String) (w : W)
        → bound_id w user key ≡ some id
        → bound_id (lookup_idempotency now s user key w).1 user key ≡ some id
    unfolding lookup_idempotency
    kept id w e = ground (arith, known, given, (answers user key w).1, e)

    missed : (w : W) → bound_id w user key ≡ none → (lookup_idempotency now s user key w).0 ≡ ok ""
    unfolding lookup_idempotency
    missed w e = ground (arith, known, given, answers user key w, e)

    replays :
        (id : String) (sem : Option GenSem) (w : W)
        → bound_id w user key ≡ some id
        → str_eq id "" ≡ false
        → let again = submit_json now {E = E} decimal random (some s) user header sem w in
          (again.0 ≡ accepted id) × (again.1 ≡ none) × (again.2 ≡ sem)
    unfolding submit_json
    replays id sem w e n = ground (arith, found id w e, n, given, short)

    bound :
        (id : String) (sem : Option GenSem) (w : W)
        → (start_job now {E = E} decimal random s user key sem w).0 ≡ accepted id
        → (bound_id (start_job now {E = E} decimal random s user key sem w).3 user key ≡ some id)
          × (str_eq id "" ≡ false)
    unfolding start_job create_job save_idempotency
    bound id sem w h =
        let sem' = (acquire_gen_slot sem).1 in
        let u = (random w).1 in
        let made = job_id decimal user (now w / 1_000_000) ((random w).0 % 10_000) in
        let saved = save now s (marked now made user pending u) u in
        elim (Bool-cases (acquire_gen_slot sem).0) [
          | inr e ↦ ground (arith, e, h)
          | inl e ↦ elim (Option-cases saved.0) [
            | inr (x, q) ↦ ground (arith, e, q, h)
            | inl q ↦ ground (
              arith,
              e,
              q,
              h,
              given,
              known,
              takes user key made idempotency_key_ttl saved.2,
              dash_ne (first_chars 8 user) (
                  append (decimal (now w / 1_000_000))
                    (append "-" (decimal ((random w).0 % 10_000)))),
            )
          ]
        ]

    -- What an accepted submission leaves under its key.
    accepted_bound :
        (id : String) (sem : Option GenSem) (w : W)
        → (submit_json now {E = E} decimal random (some s) user header sem w).0 ≡ accepted id
        → (bound_id (submit_json now {E = E} decimal random (some s) user header sem w).3 user key
            ≡ some id)
          × (str_eq id "" ≡ false)
    unfolding submit_json
    accepted_bound id sem w h =
        let w1 = (lookup_idempotency now s user key w).1 in
        elim (Option-cases (bound_id w user key)) [
          | inl e ↦ ground (arith, missed w e, h, given, short, bound id sem w1)
          | inr (i, e) ↦ elim (Bool-cases (str_eq i "")) [
            | inl blank ↦ ground (arith, found i w e, blank, h, given, short, bound id sem w1)
            | inr n ↦ ground (arith, found i w e, n, h, given, short, kept i w e)
          ]
        ]

    -- If Redis is up, a submission is accepted whose key is neither blank nor longer than 128 bytes, and
    -- the mapping is still there, then the same submission is answered with the same job, launches
    -- none, and takes no slot, though there be none left.
    pub submit_json-replay :
        (id : String) (sem sem' : Option GenSem) (w v : W)
        → (submit_json now {E = E} decimal random (some s) user header sem w).0 ≡ accepted id
        → bound_id v user key
          ≡ bound_id (submit_json now {E = E} decimal random (some s) user header sem w).3 user key
        → let again = submit_json now {E = E} decimal random (some s) user header sem' v in
          (again.0 ≡ accepted id) × (again.1 ≡ none) × (again.2 ≡ sem')
    unfolding submit_json
    submit_json-replay id sem sem' w v h same =
        let (b, n) = accepted_bound id sem w h in replays id sem' v (same ∙ b) n
