-- ===== src/Accounts/Ends.antt =====
-- backend/internal/auth/handler.go, Refresh and Logout: a refresh token that was used or logged out opens
-- no further session.
use mootd.Prelude.{
  ℕ, ◌+◌, true, false, none, some, List, [], ◌≡◌, ◌≢◌, sym, ap, ◌∙◌, subst, inl, inr, Text, text_eq,
  Bool-cases, Option-cases, Result-cases,
}
use mootd.Prelude.Mongo.{IsMongo, update_first}
use mootd.Tokens.{of_user, user_claims}
use mootd.Accounts.{
  UserDocument, MongoRepository, Handler, Session, issued, no_content, server_error, bad_request,
  unauthorized, has_id, has_hash, is_current, with_token, find_by_refresh_token, save_refresh_token,
  clear_refresh_token_by_hash, issue, refresh, refresh_token, logout, default_jwt_expiry,
  refresh_lifetime,
}
use mootd.Accounts.Sessions.{IsUnique, IsGone, first_match-none, cleared-IsGone, stored-IsGone}

never : {s : Session} → server_error ≡ issued s → ⊥
never h = cc

unasked : {s : Session} → bad_request ≡ issued s → ⊥
unasked h = cc

denied : {s : Session} → unauthorized ≡ issued s → ⊥
denied h = cc

failed_logout : server_error ≡ no_content → ⊥
failed_logout h = cc

issued_injective : {s t : Session} → issued s ≡ issued t → s ≡ t
issued_injective h = cc

module _ {W : Type 0} (now : W → ℕ) (repo : MongoRepository W) (h : Handler W)
    (docs : W → List UserDocument) (is_mongo : IsMongo repo.users docs)
    (random_keeps : (w : W) → docs (h.generate_refresh_token w).1 ≡ docs w) where
  gone_refused :
      (raw : Text) (w : W)
      → IsGone (h.hash_refresh_token raw) (docs w)
      → (s : Session) → (refresh now repo h true (some raw) w).0 ≢ issued s
  unfolding refresh find_by_refresh_token
  gone_refused raw w g s = elim (Bool-cases (text_eq raw [])) [
    | inl e ↦ rw (e, refresh) (λ r. cc)
    | inr e ↦
        rw (e, refresh)
          (let p = is_current (h.hash_refresh_token raw) (now w) in
            elim (Result-cases (repo.users.find_one p w).0) [
              | inr (x, f) ↦ rw (f, refresh_token) (λ r. cc)
              | inl (found, f) ↦
                  let absent : found ≡ none =
                    is_mongo.find_ok p w found f
                    ∙ first_match-none (h.hash_refresh_token raw) (now w) (docs w) g in
                  rw (f, refresh_token) (rw absent (λ r. cc))
            ])
  ]

  issue_saved :
      (id email : Text) (w : W) (s : Session)
      → (issue now repo h id email w).0 ≡ issued s
      → (until : ℕ) × (docs (issue now repo h id email w).1
          ≡ update_first
              (has_id id)
              (with_token (h.hash_refresh_token s.refresh_token) (some until))
              (docs w))
  unfolding issue save_refresh_token
  issue_saved id email w s =
      let w1 = (h.generate_refresh_token w).1 in
      elim (Option-cases (
        h.jwt.signed_string h.jwt_secret
          (of_user (user_claims id email (now w) default_jwt_expiry)))) [
            | inl e ↦ rw (e, issue) (λ r. elim (never r) [ ])
            | inr (token, e) ↦
                rw (e, issue)
                  (elim (Result-cases (h.generate_refresh_token w).0) [
                    | inr (x, f) ↦ rw f (λ r. elim (never r) [ ])
                    | inl (raw, f) ↦ rw f (
                        let until = now w1 + refresh_lifetime in
                        let set = with_token (h.hash_refresh_token raw) (some until) in
                        elim (Result-cases (repo.users.update_one (has_id id) set w1).0) [
                          | inr (x, q) ↦ rw q (λ r. elim (never r) [ ])
                          | inl (m, q) ↦ rw q (λ r. (
                            until,
                            (is_mongo.update_ok (has_id id) set w1 m q).1
                                ∙ ap (λ d. update_first (has_id id) set d) (random_keeps w)
                                ∙ ap
                                    (λ t.
                                      update_first (has_id id)
                                        (with_token (h.hash_refresh_token t) (some until)) (docs w))
                                    (ap (λ x. x.refresh_token) (issued_injective r)),
                          ))
                        ])
                  ])
          ]

  used-IsGone :
      (raw : Text) (w : W) (s : Session)
      → (refresh now repo h true (some raw) w).0 ≡ issued s
      → text_eq (h.hash_refresh_token s.refresh_token) (h.hash_refresh_token raw) ≡ false
      → IsUnique (has_hash (h.hash_refresh_token raw)) (docs w)
      → ((id : Text) → IsUnique (has_id id) (docs w))
      → IsGone (h.hash_refresh_token raw) (docs (refresh now repo h true (some raw) w).1)
  unfolding refresh find_by_refresh_token
  used-IsGone raw w s = elim (Bool-cases (text_eq raw [])) [
    | inl e ↦ rw (e, refresh) (λ r. elim (unasked r) [ ])
    | inr e ↦
        rw (e, refresh)
          (let hash = h.hash_refresh_token raw in
            let p = is_current hash (now w) in
            let w1 = (repo.users.find_one p w).1 in
            elim (Result-cases (repo.users.find_one p w).0) [
              | inr (x, f) ↦ rw (f, refresh_token) (λ r. elim (never r) [ ])
              | inl (found, f) ↦
                  rw (f, refresh_token)
                    (elim (Option-cases found) [
                      | inl q ↦ rw q (λ r. elim (denied r) [ ])
                      | inr (user, q) ↦ rw q (λ r n u v.
                          let (until, saved) = issue_saved user.id user.email w1 s r in
                          let other = h.hash_refresh_token s.refresh_token in
                          let end : docs (issue now repo h user.id user.email w1).1
                              ≡ update_first (has_id user.id) (with_token other (some until))
                                  (docs w) =
                            saved
                            ∙ ap
                                (λ d.
                                  update_first (has_id user.id) (with_token other (some until)) d)
                                (is_mongo.find_docs p w) in
                          subst (λ d. IsGone hash d) (sym end)
                            (stored-IsGone hash other (now w) until (docs w) user n u (v user.id)
                              (sym (is_mongo.find_ok p w found f) ∙ q)))
                    ])
            ])
  ]

  -- After a refresh that issued a new pair of tokens, the old refresh token opens no session any more,
  -- in any later world with the same users, provided that the new token has another hash, and that no
  -- two users share a hash or an id.
  pub refresh_rotates :
      (raw : Text) (w w2 : W) (s : Session)
      → (refresh now repo h true (some raw) w).0 ≡ issued s
      → text_eq (h.hash_refresh_token s.refresh_token) (h.hash_refresh_token raw) ≡ false
      → IsUnique (has_hash (h.hash_refresh_token raw)) (docs w)
      → ((id : Text) → IsUnique (has_id id) (docs w))
      → docs w2 ≡ docs (refresh now repo h true (some raw) w).1
      → (t : Session) → (refresh now repo h true (some raw) w2).0 ≢ issued t
  refresh_rotates raw w w2 s r n u v later =
      gone_refused raw w2
        (subst (λ d. IsGone (h.hash_refresh_token raw) d) (sym later) (used-IsGone raw w s r n u v))

  -- After a logout that was answered with no content, its refresh token opens no session any more, in
  -- any later world with the same users, provided that no two users share its hash.
  pub logout_ends :
      (raw : Text) (w w2 : W)
      → text_eq raw [] ≡ false
      → (logout now repo h true (some raw) w).0 ≡ no_content
      → text_eq [] (h.hash_refresh_token raw) ≡ false
      → IsUnique (has_hash (h.hash_refresh_token raw)) (docs w)
      → docs w2 ≡ docs (logout now repo h true (some raw) w).1
      → (t : Session) → (refresh now repo h true (some raw) w2).0 ≢ issued t
  unfolding logout clear_refresh_token_by_hash
  logout_ends raw w w2 e =
      let hash = h.hash_refresh_token raw in
      rw (e, logout)
        (elim (Result-cases (repo.users.update_one (has_hash hash) (with_token [] none) w).0) [
          | inr (x, f) ↦ rw f (λ r. elim (failed_logout r) [ ])
          | inl (m, f) ↦ rw f (λ r n u later. gone_refused raw w2 (
              subst (λ d. IsGone hash d)
                (sym (later ∙ (is_mongo.update_ok (has_hash hash) (with_token [] none) w m f).1))
                (cleared-IsGone hash (docs w) n u)))
        ])
