-- ===== src/Tokens/Issuers.antt =====
-- A token of one kind is refused on the other side, also where both sides share a secret.
use mootd.Prelude.{
  ℕ, ◌+◌, ◌*◌, ◌<◌, ◌≤◌, Bool, false, Option, none, some, List, ◌++◌, ◌≡◌, refl, String, str_eq,
  Text, codes, arith,
}
use mootd.Tokens.{
  Registered, Payload, of_user, of_admin, to_claims, to_admin_claims, numeric_date, Jwt,
  unauthorized, served, user_claims, admin_claims, issued_by, user_issuer, admin_issuer,
  validate_user_token, validate_admin_token, auth, require_admin_auth,
}

-- What parses is the object that was signed, whatever the secret and the instant.
pub record IsFaithful (jwt : Jwt) : Type 0 where
  pub faithful :
      (secret other : Text) (now : ℕ) (c d : Payload) (token : Text)
      → jwt.signed_string secret c ≡ some token
      → jwt.parse_with_claims now token other ≡ some d
      → d ≡ c

abbrev pub registered_of : Payload → Registered
registered_of p = (to_claims p).registered

-- With its own secret a token parses from the second of its issue until the second of its expiry.
pub record IsTimed (jwt : Jwt) : Type 0 where
  pub accepted :
      (secret : Text) (now : ℕ) (c : Payload) (token : Text)
      → jwt.signed_string secret c ≡ some token
      → now < (registered_of c).expires_at * 1_000_000_000
      → (registered_of c).issued_at * 1_000_000_000 ≤ now
      → jwt.parse_with_claims now token secret ≡ some c

issued_by_other :
    {C : Type 0} (read : Payload → C) (registered : C → Registered) (issuer : String)
    (parsed : Option Payload) (c : Payload)
    → ((d : Payload) → parsed ≡ some d → d ≡ c)
    → str_eq (registered (read c)).issuer issuer ≡ false
    → issued_by read registered issuer parsed ≡ none
issued_by_other read registered issuer none c same h = refl
issued_by_other read registered issuer (some d) c same h = rw (same d refl) (rw h refl)

module _ (jwt : Jwt) (laws : IsFaithful jwt) where
  -- A user's token opens no admin route and an admin's token no user route, at any instant and whatever
  -- the two secrets are, if what the library parses is what was signed.
  pub generate_token-auth :
      {A : Type 0} (user_secret admin_secret id email : Text) (roles : List String) (mfa : Bool)
      (at now expiry : ℕ) (for_user : Text → A) (for_admin : Text → List String → Bool → A)
      (user_token admin_token : Text)
      → jwt.signed_string user_secret (of_user (user_claims id email at expiry)) ≡ some user_token
      → jwt.signed_string admin_secret (of_admin (admin_claims id roles mfa at expiry))
        ≡ some admin_token
      → (require_admin_auth jwt admin_secret now (codes "Bearer " ++ user_token) for_admin
          ≡ unauthorized)
        × (auth jwt user_secret now (codes "Bearer " ++ admin_token) for_user ≡ unauthorized)
  unfolding auth require_admin_auth validate_user_token validate_admin_token user_claims
      admin_claims to_claims to_admin_claims
  generate_token-auth us sec id email roles mfa at now expiry fu fa ut at' hu ha =
      let u = of_user (user_claims id email at expiry) in
      let a = of_admin (admin_claims id roles mfa at expiry) in
      (
        rw
            (
              issued_by_other to_admin_claims (λ c. c.registered) admin_issuer
                  (jwt.parse_with_claims now ut sec) u (λ d p. laws.faithful us sec now u d ut hu p)
                  refl,
              require_admin_auth,
            )
            refl,
        rw
            (
              issued_by_other to_claims (λ c. c.registered) user_issuer
                  (jwt.parse_with_claims now at' us) a
                  (λ d p. laws.faithful sec us now a d at' ha p) refl,
              auth,
            )
            refl,
      )

module _ (jwt : Jwt) (laws : IsTimed jwt) where
  -- Until the whole second of its expiry each token opens its own side, with the subject, the roles and
  -- the mark of the second factor that were signed.
  pub generate_token-served :
      {A : Type 0} (user_secret admin_secret id email : Text) (roles : List String) (mfa : Bool)
      (at now expiry : ℕ) (for_user : Text → A) (for_admin : Text → List String → Bool → A)
      (user_token admin_token : Text)
      → jwt.signed_string user_secret (of_user (user_claims id email at expiry)) ≡ some user_token
      → jwt.signed_string admin_secret (of_admin (admin_claims id roles mfa at expiry))
        ≡ some admin_token
      → at ≤ now
      → now < numeric_date (at + expiry) * 1_000_000_000
      → (auth jwt user_secret now (codes "Bearer " ++ user_token) for_user ≡ served (for_user id))
        × (require_admin_auth jwt admin_secret now (codes "Bearer " ++ admin_token) for_admin
            ≡ served (for_admin id roles mfa))
  unfolding auth require_admin_auth validate_user_token validate_admin_token user_claims
      admin_claims to_claims to_admin_claims
  generate_token-served us sec id email roles mfa at now expiry fu fa ut at' hu ha after before =
      let u = of_user (user_claims id email at expiry) in
      let a = of_admin (admin_claims id roles mfa at expiry) in
      (
        rw (laws.accepted us now u ut hu before (omega arith), auth) refl,
        rw (laws.accepted sec now a at' ha before (omega arith), require_admin_auth) refl,
      )
