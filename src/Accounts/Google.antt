-- ===== src/Accounts/Google.antt =====
-- backend/internal/auth/google.go and handler.go, Google: for whom a session is issued.
use mootd.Prelude.{
  ℕ, true, false, ◌||◌, Option, none, some, List, [], ◌∷◌, ◌≡◌, ◌≢◌, refl, sym, ap, ◌∙◌, subst,
  arith, ◌⊎◌, inl, inr, Error, Result, ok, err, Text, text_eq, Bool-cases, Option-cases,
  Result-cases,
}
use mootd.Accounts.{
  MongoRepository, Handler, Session, issued, server_error, bad_request, unauthorized,
  GoogleTokenInfo, GoogleUserInfo, audience_allowed, is_mismatch, check_profile,
  verify_google_token, upsert_by_google_id, issue, google,
}

ok_injective : {A : Type 0} {a b : A} → ◌≡◌ {A = Result A} (ok a) (ok b) → a ≡ b
ok_injective h = cc

List-cases : {A : Type 0} (l : List A) → (l ≡ []) ⊎ ((x : A) × (xs : List A) × (l ≡ x ∷ xs))
List-cases [] = inl refl
List-cases (x ∷ xs) = inr (x, xs, refl)

refused : {A : Type 0} {e : Error} {a : A} → ◌≡◌ {A = Result A} (err e) (ok a) → ⊥
refused h = cc

unasked : {s : Session} → bad_request ≡ issued s → ⊥
unasked h = cc

denied : {s : Session} → unauthorized ≡ issued s → ⊥
denied h = cc

failed_login : {s : Session} → server_error ≡ issued s → ⊥
failed_login h = cc

cons-ne-nil : {A : Type 0} {x : A} {xs : List A} → x ∷ xs ≢ []
cons-ne-nil h = cc

module _ {W : Type 0} (now : W → ℕ) (repo : MongoRepository W) (h : Handler W) where
  -- What Google said of a token that the program accepts.
  pub record IsVerified (token : Text) (info : GoogleUserInfo) (w : W) : Type 0 where
    pub configured : h.google_client_ids ≢ []
    pub token_info : GoogleTokenInfo
    pub told : (h.token_info token w).0 ≡ ok token_info
    pub audience : audience_allowed token_info h.google_client_ids ≡ true
    pub profile : (h.user_info token (h.token_info token w).1).0 ≡ ok info
    pub matching : is_mismatch token_info info ≡ false
    pub complete : (text_eq info.sub [] ≡ false) × (text_eq info.email [] ≡ false)

  check_profile_ok :
      (t : GoogleTokenInfo) (r : Result GoogleUserInfo) (info : GoogleUserInfo)
      → check_profile now repo h t r ≡ ok info
      → (r ≡ ok info)
        × (is_mismatch t info ≡ false)
        × ((text_eq info.sub [] ≡ false) × (text_eq info.email [] ≡ false))
  check_profile_ok t (err e) info = λ r. (cc, cc, (cc, cc))
  check_profile_ok t (ok i) info = elim (Bool-cases (is_mismatch t i)) [
    | inl m ↦ rw m (λ r. (cc, cc, (cc, cc)))
    | inr m ↦ rw m (elim (Bool-cases (text_eq i.sub [] || text_eq i.email [])) [
      | inl c ↦ rw c (λ r. (cc, cc, (cc, cc)))
      | inr c ↦ rw c (λ r.
          subst
            (λ x.
              (◌≡◌ {A = Result GoogleUserInfo} (ok i) (ok x))
              × (is_mismatch t x ≡ false)
              × ((text_eq x.sub [] ≡ false) × (text_eq x.email [] ≡ false)))
            (ok_injective r) (refl, m, (ground (arith, c), ground (arith, c))))
    ])
  ]

  verify_google_token_ok :
      (token : Text) (w : W) (info : GoogleUserInfo)
      → (verify_google_token now repo h token w).0 ≡ ok info
      → IsVerified token info w
  unfolding verify_google_token
  verify_google_token_ok token w info = elim (List-cases h.google_client_ids) [
    | inl n ↦ rw (n, verify_google_token) (λ r. elim (refused r) [ ])
    | inr (id, ids, c) ↦
        let w1 = (h.token_info token w).1 in
        elim (Result-cases (h.token_info token w).0) [
          | inr (x, e) ↦ rw (c, verify_google_token) (rw e (λ r. elim (refused r) [ ]))
          | inl (t, e) ↦ elim (Bool-cases (audience_allowed t (id ∷ ids))) [
            | inr a ↦ rw (c, verify_google_token) (rw e (rw a (λ r. elim (refused r) [ ])))
            | inl a ↦ λ r.
                let r' : check_profile now repo h t (h.user_info token w1).0 ≡ ok info =
                  rw a at (rw e at (rw (c, verify_google_token) at r)) in
                let (profile, matching, complete) =
                  check_profile_ok t (h.user_info token w1).0 info r' in
                record {
                  configured = λ n. elim (cons-ne-nil (sym c ∙ n)) [ ];
                  token_info = t;
                  told = e;
                  audience = ap (λ l. audience_allowed t l) c ∙ a;
                  profile = profile;
                  matching = matching;
                  complete = complete;
                }
          ]
        ]
  ]

  issue_for :
      (id email : Text) (w : W) (s : Session)
      → (issue now repo h id email w).0 ≡ issued s
      → (s.id ≡ id) × (s.email ≡ email)
  unfolding issue
  issue_for id email w s r = ground arith

  -- A session that Google logs in is issued for the subject and the e-mail address that Google's
  -- userinfo gives for the presented token, after Google told that the token was made for one of the
  -- configured clients; the two subjects do not differ, and neither field is empty.
  pub google-IsVerified :
      (body : Option Text) (w : W) (s : Session)
      → (google now repo h true body w).0 ≡ issued s
      → (token : Text) × (info : GoogleUserInfo) × (body ≡ some token)
        × IsVerified token info w
        × (s.id ≡ info.sub)
        × (s.email ≡ info.email)
  unfolding google
  google-IsVerified none w s = λ r. elim (unasked r) [ ]
  google-IsVerified (some token) w s = elim (Bool-cases (text_eq token [])) [
    | inl e ↦ rw (e, google) (λ r. elim (unasked r) [ ])
    | inr e ↦
        let w1 = (verify_google_token now repo h token w).1 in
        elim (Result-cases (verify_google_token now repo h token w).0) [
          | inr (x, v) ↦ rw (e, google) (rw v (λ r. elim (denied r) [ ]))
          | inl (u, v) ↦
              elim (Option-cases
                (upsert_by_google_id now repo u.sub u.email u.name u.picture w1).0) [
                  | inr (x, f) ↦ rw (e, google) (rw v (rw f (λ r. elim (failed_login r) [ ])))
                  | inl f ↦
                      rw (e, google)
                        (rw v (
                          rw f (λ r.
                            let (id, email) =
                              issue_for u.sub u.email
                                (upsert_by_google_id now repo u.sub u.email u.name u.picture w1).1 s
                                r in
                            (token, u, refl, verify_google_token_ok token w u v, id, email))))
                ]
        ]
  ]
