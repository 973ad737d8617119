-- ===== src/Tokens/Tests.antt =====
-- backend/internal/shared/jwt and admin/jwt.go: tests, with a signature that is the secret in front of
-- the claims' subject, over two sets of claims.
use mootd.Prelude.{
  Bool, true, false, ◌&&◌, not, none, some, List, [], ◌∷◌, ◌≡◌, refl, sym, arith, String, str_eq,
  Text, text_eq, codes, if◌then◌else◌, Bool-cases, inl, inr, text_eq→eq, eq_iff, ◌⊎◌, ◌==◌,
}
use mootd.Tokens.{
  Registered, Payload, of_user, of_admin, Jwt, unauthorized, user_claims, admin_claims, auth,
  require_admin_auth,
}
use mootd.Tokens.Issuers.{IsFaithful, generate_token-auth}

abbrev ann : Payload
ann = of_user (user_claims (codes "ann") (codes "a@b") 10 100)

abbrev boss : Payload
boss = of_admin (admin_claims (codes "ann") ("admin" ∷ []) true 10 100)

abbrev same_roles : List String → List String → Bool
same_roles [] [] = true
same_roles [] (d ∷ ds) = false
same_roles (c ∷ cs) [] = false
same_roles (c ∷ cs) (d ∷ ds) = str_eq c d && same_roles cs ds

abbrev same_bool : Bool → Bool → Bool
same_bool true b = b
same_bool false b = not b

abbrev same_registered : Registered → Registered → Bool
same_registered c d =
    text_eq c.subject d.subject
    && (c.issued_at == d.issued_at && (c.expires_at == d.expires_at && str_eq c.issuer d.issuer))

abbrev same : Payload → Payload → Bool
same (of_user c) (of_user d) = text_eq c.email d.email && same_registered c.registered d.registered
same (of_user c) (of_admin d) = false
same (of_admin c) (of_user d) = false
same (of_admin c) (of_admin d) =
    same_roles c.roles d.roles
    && (same_bool c.mfa_verified d.mfa_verified && same_registered c.registered d.registered)

same_roles_eq : (cs ds : List String) → same_roles cs ds ≡ true → cs ≡ ds
same_roles_eq [] [] h = refl
same_roles_eq [] (d ∷ ds) h = cc
same_roles_eq (c ∷ cs) [] h = cc
same_roles_eq (c ∷ cs) (d ∷ ds) h = ground (arith, (eq_iff c d).0, same_roles_eq cs ds)

same_bool_eq : (a b : Bool) → same_bool a b ≡ true → a ≡ b
same_bool_eq true b h = sym h
same_bool_eq false true h = cc
same_bool_eq false false h = refl

same_registered_eq : (c d : Registered) → same_registered c d ≡ true → c ≡ d
same_registered_eq c d h =
    ground (arith, text_eq→eq c.subject d.subject, (eq_iff c.issuer d.issuer).0)

same_eq : (c d : Payload) → same c d ≡ true → c ≡ d
same_eq (of_user c) (of_user d) h =
    ground (arith, text_eq→eq c.email d.email, same_registered_eq c.registered d.registered)
same_eq (of_user c) (of_admin d) h = cc
same_eq (of_admin c) (of_user d) h = cc
same_eq (of_admin c) (of_admin d) h = ground (
  arith,
  same_roles_eq c.roles d.roles,
  same_bool_eq c.mfa_verified d.mfa_verified,
  same_registered_eq c.registered d.registered,
)

abbrev jwt : Jwt
jwt = record {
  signed_string = λ secret c.
      if same c ann then some (codes "u") else if same c boss then some (codes "a") else none;
  parse_with_claims = λ now token secret.
      if text_eq token (codes "u")
      then some ann
      else if text_eq token (codes "a")
      then some boss
      else none;
}

signed :
    (secret : Text) (c : Payload) (token : Text)
    → jwt.signed_string secret c ≡ some token
    → ((c ≡ ann) × (token ≡ codes "u")) ⊎ ((c ≡ boss) × (token ≡ codes "a"))
signed secret c token = elim (Bool-cases (same c ann)) [
  | inl e ↦ rw e (λ h. inl (same_eq c ann e, cc))
  | inr e ↦ rw e (elim (Bool-cases (same c boss)) [
    | inl f ↦ rw f (λ h. inr (same_eq c boss f, cc))
    | inr f ↦ rw f (λ h. cc)
  ])
]

jwt-IsFaithful : IsFaithful jwt
jwt-IsFaithful = record {
  faithful = λ secret other now c d token s p. elim (signed secret c token s) [
    | inl (e, t) ↦ ground (arith, e, t, p)
    | inr (e, t) ↦ ground (arith, e, t, p)
  ];
}

generate_token-auth_example :
    (require_admin_auth jwt [] 50 (codes "Bearer u") (λ id roles mfa. id) ≡ unauthorized)
    × (auth jwt [] 50 (codes "Bearer a") (λ id. id) ≡ unauthorized)
unfolding user_claims admin_claims
generate_token-auth_example =
    generate_token-auth jwt jwt-IsFaithful [] [] (codes "ann") (codes "a@b") ("admin" ∷ []) true 10
      50 100 (λ id. id) (λ id roles mfa. id) (codes "u") (codes "a") refl refl
