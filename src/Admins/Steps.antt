-- ===== src/Admins/Steps.antt =====
-- The last step that an admin used, which makes a code good for one login.
use mootd.Prelude.{
  ◌+◌, ℕ, ◌≤◌, ◌≡◌, refl, sym, ap, ◌∙◌, subst, Bool, true, false, ◌&&◌, not, Option, none, some,
  List, [], ◌∷◌, String, str_eq, map, arith, Bool-cases, inl, inr, ◌⊎◌, ok, Result-cases,
  Option-cases, Text, text_eq, trim_space, All,
}
use mootd.Prelude.Mongo.{IsMongo, update_first, matches}
use mootd.Totp.{verify_totp_step}
use mootd.Admins.{
  Admin, RefreshToken, MongoRepository, update_last_active, save_refresh_token, find_by_email,
  mark_totp_step_used, is_nil, has_id, is_unused, is_before,
}
use mootd.Admins.Login.{login_as-issued}
use mootd.Admins.Auth.{
  claims_of, default_admin_refresh_expiry, LoginRequest, LoginResponse, issued, issue, login_as,
  unauthorized, Crypto, unix, is_enrolled, second_factor, login,
}

-- No document of the admin has a last step before `step`, so that the update finds none.
abbrev pub IsUsed : String → ℕ → List Admin → Type 0
IsUsed id step docs = All (λ d. is_unused id step d ≡ false) docs

IsUsed-matches :
    (id : String) (step : ℕ) (docs : List Admin)
    → IsUsed id step docs
    → matches (is_unused id step) docs ≡ false
IsUsed-matches id step [] u = refl
IsUsed-matches id step (d ∷ docs) (e, u) = ground (arith, e, IsUsed-matches id step docs u)

-- An admin's document is the only one with its id.
abbrev pub IsUnique : String → List Admin → Type 0
IsUnique id [] = Unit
IsUnique id (d ∷ docs) =
    ((has_id id d ≡ false) ⊎ All (λ x. has_id id x ≡ false) docs) × IsUnique id docs

none-IsUsed :
    (id : String) (step : ℕ) (docs : List Admin)
    → All (λ x. has_id id x ≡ false) docs
    → IsUsed id step docs
none-IsUsed id step [] a = tt
none-IsUsed id step (d ∷ docs) (e, a) = (ground (arith, e), none-IsUsed id step docs a)

older :
    (id : String) (step again : ℕ) (d : Admin)
    → again ≤ step
    → is_unused id step d ≡ false
    → is_unused id again d ≡ false
older id step again d le e = by_last d.mfa_last_totp_step e
  where
    by_last :
        (last : Option ℕ)
        → (str_eq d.id id && is_before last step) ≡ false
        → (str_eq d.id id && is_before last again) ≡ false
    by_last none q = q
    by_last (some l) q = ground (arith, q, le)

IsUsed-update_first :
    (id : String) (step again : ℕ) (docs : List Admin)
    → again ≤ step
    → IsUnique id docs
    → matches (is_unused id step) docs ≡ true
    → IsUsed id again
        (update_first (is_unused id step) (λ a. record a { mfa_last_totp_step = some step }) docs)
IsUsed-update_first id step again [] le u m = ground (arith, m)
IsUsed-update_first id step again (d ∷ docs) le (h, u) m = elim (Bool-cases (is_unused id step d)) [
  | inl e ↦
      let others : All (λ x. has_id id x ≡ false) docs = elim h [
        | inl other ↦ absurd (ground (arith, e, other))
        | inr rest ↦ rest
      ] in
      rw e (ground (arith, le), none-IsUsed id again docs others)
  | inr e ↦ rw e (
    older id step again d le e,
    IsUsed-update_first id step again docs le u (ground (arith, e, m)),
  )
]

missing_one :
    (id : String) (step : ℕ) (x : String) (last : Option ℕ)
    → (str_eq x id && not (is_nil last)) ≡ false
    → (str_eq x id && is_before last step) ≡ false
missing_one id step x none h = ground arith
missing_one id step x (some l) h = ground (arith, h)

missing-IsUsed :
    (id : String) (step : ℕ) (docs : List Admin)
    → All (λ d. (has_id id d && not (is_nil d.mfa_last_totp_step)) ≡ false) docs
    → IsUsed id step docs
missing-IsUsed id step [] m = tt
missing-IsUsed id step (d ∷ docs) (h, m) =
    (missing_one id step d.id d.mfa_last_totp_step h, missing-IsUsed id step docs m)

IsUsed-touched :
    (p : Admin → Bool) (f : Admin → Admin) (id : String) (step : ℕ)
    → ((d : Admin) → is_unused id step (f d) ≡ is_unused id step d)
    → (docs : List Admin) → IsUsed id step docs
    → IsUsed id step (update_first p f docs)
IsUsed-touched p f id step keeps [] u = tt
IsUsed-touched p f id step keeps (d ∷ docs) (e, u) = elim (Bool-cases (p d)) [
  | inl h ↦ rw h (keeps d ∙ e, u)
  | inr h ↦ rw h (e, IsUsed-touched p f id step keeps docs u)
]

module _ {K W : Type 0} (now : W → ℕ) (crypto : Crypto K W) (repo : MongoRepository W)
    (user_agent ip : String) (docs : W → List Admin) (is_mongo : IsMongo repo.admins_col docs) where
  open crypto use {mac, decode}

  -- The update that marks a step as used gives an answer.
  abbrev pub IsAnswered : String → ℕ → W → Type 0
  IsAnswered id step w = (fresh : Bool) × ((mark_totp_step_used now repo id step w).0 ≡ ok fresh)

  used_step :
      (id : String) (step : ℕ) (w : W)
      → IsUsed id step (docs w)
      → IsAnswered id step w
      → (mark_totp_step_used now repo id step w).0 ≡ ok false
  unfolding mark_totp_step_used
  used_step id step w u (true, e) =
      let f = λ (a : Admin). record a { mfa_last_totp_step = some step } in
      let (hit, _) = is_mongo.update_ok (is_unused id step) f w true e in
      absurd (cc (hit refl, IsUsed-matches id step (docs w) u))
  used_step id step w u (false, e) = e

  refused_step :
      (a : Admin) (totp : Text) (step : ℕ) (w : W)
      → is_enrolled a ≡ true
      → verify_totp_step mac decode a.mfa_secret (trim_space totp) (unix (now w)) ≡ some step
      → IsUsed a.id step (docs w)
      → IsAnswered a.id step w
      → (second_factor now crypto repo user_agent ip a totp w).0 ≡ none
  unfolding second_factor
  refused_step a totp step w e v u up = elim (Bool-cases (text_eq (trim_space totp) [])) [
    | inl blank ↦ ground (arith, e, blank)
    | inr given ↦ ground (arith, e, given, v, used_step a.id step w u up)
  ]

  -- Whatever code an enrolled admin presents whose step is found, and however right the password, the
  -- login is refused as a replay if the update of the last step gives an answer (an error of it lets
  -- the login through) and no document of the admin has a last step, as that of an admin who has not
  -- logged in with a code before has none.
  pub login_first_step :
      (q : LoginRequest) (a : Admin) (step : ℕ) (w : W)
      → let email = map crypto.lower (trim_space q.email) in
        let w1 = (find_by_email now repo email w).1 in
        text_eq email [] ≡ false
        → text_eq q.password [] ≡ false
        → (find_by_email now repo email w).0 ≡ ok (some a)
        → is_enrolled a ≡ true
        → verify_totp_step mac decode a.mfa_secret (trim_space q.totp) (unix (now w1)) ≡ some step
        → All (λ d. (has_id a.id d && not (is_nil d.mfa_last_totp_step)) ≡ false) (docs w1)
        → IsAnswered a.id step w1
        → (login now crypto repo user_agent ip true (some q) w).0 ≡ unauthorized
  unfolding login
  login_first_step q a step w email password found e v missing up =
      let w1 = (find_by_email now repo (map crypto.lower (trim_space q.email)) w).1 in
      let refused =
        refused_step a q.totp step w1 e v (missing-IsUsed a.id step (docs w1) missing) up in
      ground (arith, email, password, found, refused)

  module _ (random_keeps : (w : W) → docs (crypto.generate_refresh_token w).1 ≡ docs w)
      (insert_keeps : (t : RefreshToken) (w : W)
        → docs (repo.tokens_col.insert_one t w).1 ≡ docs w) where
    last_active-IsUsed :
        (id a : String) (step at : ℕ) (w : W)
        → IsUsed id step (docs w)
        → IsUsed id step (docs (update_last_active now repo a at w).1)
    unfolding update_last_active
    last_active-IsUsed id a step at w u =
        let f = λ (d : Admin). record d { last_active_at = at } in
        let touched = IsUsed-touched (has_id a) f id step (λ d. refl) (docs w) u in
        elim (Result-cases (repo.admins_col.update_one (has_id a) f w).0) [
          | inl (hit, e) ↦
              subst (IsUsed id step) (sym (is_mongo.update_ok (has_id a) f w hit e).1) touched
          | inr (x, e) ↦ elim (is_mongo.update_err (has_id a) f w x e) [
            | inl same ↦ subst (IsUsed id step) (sym same) u
            | inr done ↦ subst (IsUsed id step) (sym done) touched
          ]
        ]

    issue-IsUsed :
        (id : String) (step : ℕ) (a : Admin) (v : Bool) (at : W → ℕ) (w : W)
        → IsUsed id step (docs w)
        → IsUsed id step (docs (issue now crypto repo user_agent ip a v at w).1)
    unfolding issue save_refresh_token claims_of
    issue-IsUsed id step a v at w u = elim (Option-cases (crypto.sign (claims_of a v (now w)))) [
      | inr (_, e) ↦ rw (e, issue) u
      | inl e ↦
          let w1 = (crypto.generate_refresh_token w).1 in
          let u1 = subst (IsUsed id step) (sym (random_keeps w)) u in
          elim (Result-cases (crypto.generate_refresh_token w).0) [
            | inr (_, q) ↦ rw (e, q, issue) u1
            | inl (raw, q) ↦
                let t : RefreshToken = record {
                  id = crypto.hash_refresh_token raw;
                  admin_id = a.id;
                  expires_at = at w1 + default_admin_refresh_expiry;
                  created_at = at w1;
                  revoked_at = none;
                  user_agent = user_agent;
                  ip = ip;
                } in
                let u2 = subst (IsUsed id step) (sym (insert_keeps t w1)) u1 in
                elim (Option-cases (repo.tokens_col.insert_one t w1).0) [
                  | inr (_, i) ↦ rw (e, q, i, issue) u2
                  | inl i ↦ rw (e, q, i, issue) (last_active-IsUsed id a.id step (at w1) _ u2)
                ]
          ]
    ]

    login_with :
        (q : LoginRequest) (r : LoginResponse) (a : Admin) (w : W)
        → (find_by_email now repo (map crypto.lower (trim_space q.email)) w).0 ≡ ok (some a)
        → (login now crypto repo user_agent ip true (some q) w).0 ≡ issued r
        → let w1 = (find_by_email now repo (map crypto.lower (trim_space q.email)) w).1 in
          ((login_as now crypto repo user_agent ip q w1 (some a)).0 ≡ issued r)
          × ((login now crypto repo user_agent ip true (some q) w).1
              ≡ (login_as now crypto repo user_agent ip q w1 (some a)).1)
    unfolding login
    login_with q r a w found h = (ground (arith, found, h), ground (arith, found, h))

    second_factor-step :
        (a : Admin) (totp : Text) (step : ℕ) (w : W) (v : Bool)
        → is_enrolled a ≡ true
        → verify_totp_step mac decode a.mfa_secret (trim_space totp) (unix (now w)) ≡ some step
        → IsAnswered a.id step w
        → (second_factor now crypto repo user_agent ip a totp w).0 ≡ some v
        → ((mark_totp_step_used now repo a.id step w).0 ≡ ok true)
          × ((second_factor now crypto repo user_agent ip a totp w).1
              ≡ (mark_totp_step_used now repo a.id step w).1)
    unfolding second_factor
    second_factor-step a totp step w v e t (true, m) h = (m, ground (arith, e, t, m, h))
    second_factor-step a totp step w v e t (false, m) h = absurd (ground (arith, e, t, m, h))

    -- What is left of the documents by a login with a step.
    login-IsUsed :
        (q : LoginRequest) (r : LoginResponse) (a : Admin) (step earlier : ℕ) (w : W)
        → let w1 = (find_by_email now repo (map crypto.lower (trim_space q.email)) w).1 in
          (find_by_email now repo (map crypto.lower (trim_space q.email)) w).0 ≡ ok (some a)
          → is_enrolled a ≡ true
          → verify_totp_step mac decode a.mfa_secret (trim_space q.totp) (unix (now w1)) ≡ some step
          → IsUnique a.id (docs w1)
          → IsAnswered a.id step w1
          → earlier ≤ step
          → (login now crypto repo user_agent ip true (some q) w).0 ≡ issued r
          → IsUsed a.id earlier (docs (login now crypto repo user_agent ip true (some q) w).1)
    unfolding mark_totp_step_used
    login-IsUsed q r a step earlier w found e v unique up le h =
        let w1 = (find_by_email now repo (map crypto.lower (trim_space q.email)) w).1 in
        let f = λ (d : Admin). record d { mfa_last_totp_step = some step } in
        let (body, end) = login_with q r a w found h in
        let (_, _, x, factor, made) = login_as-issued now crypto repo user_agent ip q w1 a r body in
        let (fresh, marked) = second_factor-step a q.totp step w1 x e v up factor in
        let w2 = (second_factor now crypto repo user_agent ip a q.totp w1).1 in
        let (hit, left) = is_mongo.update_ok (is_unused a.id step) f w1 true fresh in
        let used : IsUsed a.id earlier (docs w2) =
          subst (IsUsed a.id earlier) (sym (ap docs marked ∙ left))
            (IsUsed-update_first a.id step earlier (docs w1) le unique (hit refl)) in
        subst (IsUsed a.id earlier) (ap docs (sym (end ∙ ground (arith, factor, body))))
          (issue-IsUsed a.id earlier a x now w2 used)

    -- A code lets an admin in once: after a login that issued tokens on a code of a step, no code of this
    -- step or an earlier one is a second factor of the admin, as long as the documents are those that
    -- the login left, provided that the two updates that mark the steps give an answer (an error of
    -- them lets the login through), that the admin's id is unique and that the refresh tokens and the
    -- random numbers leave the admins alone.
    pub second_factor_once :
        (q : LoginRequest) (r : LoginResponse) (a again : Admin) (code : Text) (step earlier : ℕ)
        (w v : W)
        → let w1 = (find_by_email now repo (map crypto.lower (trim_space q.email)) w).1 in
          (find_by_email now repo (map crypto.lower (trim_space q.email)) w).0 ≡ ok (some a)
          → is_enrolled a ≡ true
          → verify_totp_step mac decode a.mfa_secret (trim_space q.totp) (unix (now w1)) ≡ some step
          → IsUnique a.id (docs w1)
          → IsAnswered a.id step w1
          → (login now crypto repo user_agent ip true (some q) w).0 ≡ issued r
          → docs v ≡ docs (login now crypto repo user_agent ip true (some q) w).1
          → is_enrolled again ≡ true
          → again.id ≡ a.id
          → verify_totp_step mac decode again.mfa_secret (trim_space code) (unix (now v))
            ≡ some earlier
          → earlier ≤ step
          → IsAnswered again.id earlier v
          → (second_factor now crypto repo user_agent ip again code v).0 ≡ none
    second_factor_once q r a again code step earlier w v found e t unique up h same e' id t' le
          up' =
        refused_step again code earlier v e' t'
          (subst (λ i. IsUsed i earlier (docs v)) (sym id)
            (subst (IsUsed a.id earlier) (sym same)
              (login-IsUsed q r a step earlier w found e t unique up le h)))
          up'
