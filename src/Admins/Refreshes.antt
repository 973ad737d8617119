-- ===== src/Admins/Refreshes.antt =====
-- A refresh token is good for one refresh, unless two come at the same time.
use mootd.Prelude.{
  ℕ, ◌+◌, ◌≡◌, ◌≢◌, refl, sym, ap, ◌∙◌, subst, Bool, true, false, ◌&&◌, Option, none, some, List,
  [], ◌∷◌, String, arith, if◌then◌else◌, Bool-cases, Option-cases, Result-cases, inl, inr, ◌⊎◌,
  Result, ok, err, Text, text_eq, All,
}
use mootd.Prelude.Mongo.{IsMongo, first_match, update_first}
use mootd.Admins.{
  Admin, RefreshToken, MongoRepository, find_refresh_token, find_by_id, revoke_refresh_token,
  save_refresh_token, update_last_active, is_nil, has_id, has_hash, is_live,
}
use mootd.Admins.Auth.{
  LoginResponse, Answer, issued, unauthorized, server_error, Crypto, claims_of, issue, Checked,
  answered, admitted, check_admin, check_token, check_refresh, rotate, refresh_token, refresh,
  default_admin_refresh_expiry,
}

-- No token with the hash is left that is not revoked.
abbrev pub IsDead : Text → List RefreshToken → Type 0
IsDead hash docs = All (λ t. (has_hash hash t && is_nil t.revoked_at) ≡ false) docs

abbrev pub IsUnique : Text → List RefreshToken → Type 0
IsUnique hash [] = Unit
IsUnique hash (t ∷ docs) =
    ((has_hash hash t ≡ false) ⊎ All (λ x. has_hash hash x ≡ false) docs) × IsUnique hash docs

others-IsDead :
    (hash : Text) (docs : List RefreshToken)
    → All (λ x. has_hash hash x ≡ false) docs
    → IsDead hash docs
others-IsDead hash [] a = tt
others-IsDead hash (t ∷ docs) (e, a) = (ground (arith, e), others-IsDead hash docs a)

update_first-IsDead :
    (hash : Text) (at : ℕ) (docs : List RefreshToken)
    → IsUnique hash docs
    → IsDead hash (update_first (has_hash hash) (λ t. record t { revoked_at = some at }) docs)
update_first-IsDead hash at [] u = tt
update_first-IsDead hash at (t ∷ docs) (h, u) = elim (Bool-cases (has_hash hash t)) [
  | inl e ↦
      let others : All (λ x. has_hash hash x ≡ false) docs = elim h [
        | inl other ↦ absurd (ground (arith, e, other))
        | inr rest ↦ rest
      ] in
      rw e (ground arith, others-IsDead hash docs others)
  | inr e ↦ rw e (ground (arith, e), update_first-IsDead hash at docs u)
]

first_match-IsDead :
    (hash : Text) (at : ℕ) (docs : List RefreshToken)
    → IsDead hash docs
    → first_match (is_live hash at) docs ≡ none
first_match-IsDead hash at [] d = refl
first_match-IsDead hash at (t ∷ docs) (e, d) = ground (arith, e, first_match-IsDead hash at docs d)

-- The checks before the rotation answer with no tokens.
abbrev pub Admits : Checked → Type 0
Admits (answered (issued _)) = ⊥
Admits (answered _) = Unit
Admits (admitted a) = a.disabled_at ≡ none

check_admin-Admits : (found : Result (Option Admin)) → Admits (check_admin found)
check_admin-Admits (err _) = tt
check_admin-Admits (ok none) = tt
check_admin-Admits (ok (some a)) = by_disabled a.disabled_at refl
  where
    by_disabled :
        (d : Option ℕ)
        → a.disabled_at ≡ d
        → Admits (if is_nil d then admitted a else answered unauthorized)
    by_disabled none e = e
    by_disabled (some _) e = tt

module _ {K W : Type 0} (now : W → ℕ) (crypto : Crypto K W) (repo : MongoRepository W)
    (user_agent ip : String) (docs : W → List RefreshToken)
    (is_mongo : IsMongo repo.tokens_col docs)
    (find_keeps : (p : Admin → Bool) (w : W) → docs (repo.admins_col.find_one p w).1 ≡ docs w)
    (update_keeps : (p : Admin → Bool) (f : Admin → Admin) (w : W)
      → docs (repo.admins_col.update_one p f w).1 ≡ docs w)
    (random_keeps : (w : W) → docs (crypto.generate_refresh_token w).1 ≡ docs w) where
  issue-docs :
      (a : Admin) (v : Bool) (at : W → ℕ) (w : W) (r : LoginResponse)
      → (issue now crypto repo user_agent ip a v at w).0 ≡ issued r
      → (t : RefreshToken) × (docs (issue now crypto repo user_agent ip a v at w).1 ≡ t ∷ docs w)
        × (t.id ≡ crypto.hash_refresh_token r.refresh_token)
  unfolding issue save_refresh_token update_last_active
  issue-docs a v at w r h = elim (Option-cases (crypto.sign (claims_of a v (now w)))) [
    | inr (_, e) ↦ absurd (ground (arith, e, h))
    | inl e ↦ elim (Result-cases (crypto.generate_refresh_token w).0) [
      | inr (_, q) ↦ absurd (ground (arith, e, q, h))
      | inl (raw, q) ↦
          let w1 = (crypto.generate_refresh_token w).1 in
          let t : RefreshToken = record {
            id = crypto.hash_refresh_token raw;
            admin_id = a.id;
            expires_at = at w1 + default_admin_refresh_expiry;
            created_at = at w1;
            revoked_at = none;
            user_agent = user_agent;
            ip = ip;
          } in
          elim (Option-cases (repo.tokens_col.insert_one t w1).0) [
            | inr (_, i) ↦ absurd (ground (arith, e, q, i, h))
            | inl i ↦ (
              t,
              ground (
                arith,
                e,
                q,
                i,
                update_keeps (has_id a.id) (λ x. record x { last_active_at = at w1 })
                    (repo.tokens_col.insert_one t w1).1,
                is_mongo.insert_ok t w1 i,
                random_keeps w,
              ),
              ap crypto.hash_refresh_token (ground (arith, e, q, i, h)),
            )
          ]
    ]
  ]

  rotate-IsDead :
      (hash : Text) (a : Admin) (w : W) (r : LoginResponse)
      → IsUnique hash (docs w)
      → text_eq (crypto.hash_refresh_token r.refresh_token) hash ≡ false
      → (rotate now crypto repo user_agent ip hash a w).0 ≡ issued r
      → IsDead hash (docs (rotate now crypto repo user_agent ip hash a w).1)
  unfolding rotate revoke_refresh_token
  rotate-IsDead hash a w r unique new h =
      let f = λ (t : RefreshToken). record t { revoked_at = some (now w) } in
      let w1 = (repo.tokens_col.update_one (has_hash hash) f w).1 in
      elim (Result-cases (repo.tokens_col.update_one (has_hash hash) f w).0) [
        | inr (_, e) ↦ absurd (ground (arith, e, h))
        | inl (m, e) ↦
            let made : (issue now crypto repo user_agent ip a false (λ _. now w) w1).0 ≡ issued r =
              ground (arith, e, h) in
            let (t, kept, id) = issue-docs a false (λ _. now w) w1 r made in
            let same : docs (rotate now crypto repo user_agent ip hash a w).1 ≡ t ∷ docs w1 =
              ground (arith, e, kept) in
            let dead : IsDead hash (docs w1) =
              subst (IsDead hash) (sym (is_mongo.update_ok (has_hash hash) f w m e).1)
                (update_first-IsDead hash (now w) (docs w) unique) in
            subst (IsDead hash) (sym same) (ground (arith, id, new), dead)
      ]

  dead-refused :
      (raw : Text) (w : W)
      → IsDead (crypto.hash_refresh_token raw) (docs w)
      → (r : LoginResponse) → (refresh_token now crypto repo user_agent ip raw w).0 ≡ issued r
      → ⊥
  unfolding check_refresh find_refresh_token
  dead-refused raw w dead r h =
      let live = is_live (crypto.hash_refresh_token raw) (now w) in
      elim (Result-cases (repo.tokens_col.find_one live w).0) [
        | inr (_, e) ↦ ground (arith, e, h)
        | inl (found, e) ↦
            let missed : found ≡ none =
              is_mongo.find_ok live w found e
              ∙ first_match-IsDead (crypto.hash_refresh_token raw) (now w) (docs w) dead in
            ground (arith, e, missed, h)
      ]

  -- The documents and the outcome of the checks before the rotation.
  check_token-Admits :
      (w : W) (found : Result (Option RefreshToken))
      → Admits (check_token now crypto repo user_agent ip w found).0
        × (docs (check_token now crypto repo user_agent ip w found).1 ≡ docs w)
  unfolding find_by_id
  check_token-Admits w (err _) = (tt, refl)
  check_token-Admits w (ok none) = (tt, refl)
  check_token-Admits w (ok (some t)) = (
    check_admin-Admits (repo.admins_col.find_one (has_id t.admin_id) w).0,
    find_keeps (has_id t.admin_id) w,
  )

  check_refresh-Admits :
      (hash : Text) (w : W)
      → Admits (check_refresh now crypto repo user_agent ip hash w).0
        × (docs (check_refresh now crypto repo user_agent ip hash w).1 ≡ docs w)
  unfolding check_refresh find_refresh_token
  check_refresh-Admits hash w =
      let (found, w1) = repo.tokens_col.find_one (is_live hash (now w)) w in
      let (a, kept) = check_token-Admits w1 found in
      (a, kept ∙ is_mongo.find_docs (is_live hash (now w)) w)

  refresh_token-IsDead :
      (raw : Text) (r : LoginResponse) (w : W)
      → IsUnique (crypto.hash_refresh_token raw) (docs w)
      → text_eq (crypto.hash_refresh_token r.refresh_token) (crypto.hash_refresh_token raw) ≡ false
      → (refresh_token now crypto repo user_agent ip raw w).0 ≡ issued r
      → IsDead
          (crypto.hash_refresh_token raw)
          (docs (refresh_token now crypto repo user_agent ip raw w).1)
  refresh_token-IsDead raw r w unique new h =
      let hash = crypto.hash_refresh_token raw in
      let (a, kept) = check_refresh-Admits hash w in
      by_check (check_refresh now crypto repo user_agent ip hash w) a
        (subst (IsUnique hash) (sym kept) unique) h
    where
      by_check :
          (c : Checked × W)
          → Admits c.0
          → IsUnique (crypto.hash_refresh_token raw) (docs c.1)
          → (elim c.0 as (λ _. Answer × W) [
            | answered x ↦ (x, c.1)
            | admitted a ↦
                rotate now crypto repo user_agent ip (crypto.hash_refresh_token raw) a c.1
          ]).0
            ≡ issued r
          → IsDead (crypto.hash_refresh_token raw) (
              docs
                (elim c.0 as (λ _. Answer × W) [
                  | answered x ↦ (x, c.1)
                  | admitted a ↦
                      rotate now crypto repo user_agent ip (crypto.hash_refresh_token raw) a c.1
                ]).1)
      by_check (answered (issued x), w1) a u q = elim a [ ]
      by_check (answered Answer.method_not_allowed, w1) a u q = absurd (cc)
      by_check (answered Answer.bad_request, w1) a u q = absurd (cc)
      by_check (answered unauthorized, w1) a u q = absurd (cc)
      by_check (answered server_error, w1) a u q = absurd (cc)
      by_check (admitted x, w1) a u q = rotate-IsDead (crypto.hash_refresh_token raw) x w1 r u new q

  -- A refresh that issues tokens uses up its token: as long as the stored tokens are those that it left, the
  -- same token is not exchanged again, provided that no two stored tokens have its hash and the new
  -- one has another.
  pub refresh_once :
      (raw : Text) (r again : LoginResponse) (w v : W)
      → IsUnique (crypto.hash_refresh_token raw) (docs w)
      → text_eq (crypto.hash_refresh_token r.refresh_token) (crypto.hash_refresh_token raw) ≡ false
      → (refresh now crypto repo user_agent ip true (some raw) w).0 ≡ issued r
      → docs v ≡ docs (refresh now crypto repo user_agent ip true (some raw) w).1
      → (refresh now crypto repo user_agent ip true (some raw) v).0 ≢ issued again
  unfolding refresh
  refresh_once raw r again w v unique new h same q = elim (Bool-cases (text_eq raw [])) [
    | inl blank ↦ ground (arith, blank, h)
    | inr given ↦
        let first : (refresh_token now crypto repo user_agent ip raw w).0 ≡ issued r =
          ground (arith, given, h) in
        let left : docs v ≡ docs (refresh_token now crypto repo user_agent ip raw w).1 =
          ground (arith, given, same) in
        dead-refused raw v
          (subst (IsDead (crypto.hash_refresh_token raw)) (sym left)
            (refresh_token-IsDead raw r w unique new first))
          again (ground (arith, given, q))
  ]
