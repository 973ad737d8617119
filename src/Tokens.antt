-- ===== src/Tokens.antt =====
-- backend/internal/shared/jwt/jwt.go, admin/jwt.go, admin/context.go, shared/middleware/auth.go and
-- admin_auth.go: the tokens of users and admins, and the middleware that checks them. The JWT library is
-- a parameter.
pub mod Issuers
pub mod Tests
use mootd.Prelude.{
  ℕ, ◌+◌, ◌/◌, Bool, true, false, not, Option, none, some, List, [], ◌∷◌, ◌++◌, String, str_eq,
  if◌then◌else◌, ◌==◌, ◌&&◌, Text, codes,
}

-- The library's RegisteredClaims, as far as the code sets them. Its NumericDate is in whole seconds.
pub record Registered : Type 0 where
  pub subject : Text
  pub issued_at : ℕ
  pub expires_at : ℕ
  pub issuer : String

-- The claims of a user's token, and those of an admin's.
pub record Claims : Type 0 where
  pub email : Text
  pub registered : Registered

pub record AdminClaims : Type 0 where
  pub roles : List String
  pub mfa_verified : Bool
  pub registered : Registered

-- The JSON object that claims of either kind become in a token.
pub data Payload : Type 0 where
  of_user : Claims → Payload
  of_admin : AdminClaims → Payload

-- The object read into either struct: a field that it lacks is empty, and one that the struct lacks is
-- dropped.
unfoldable pub to_claims : Payload → Claims
to_claims (of_user c) = c
to_claims (of_admin c) = record { email = []; registered = c.registered }

unfoldable pub to_admin_claims : Payload → AdminClaims
to_admin_claims (of_user c) = record { roles = []; mfa_verified = false; registered = c.registered }
to_admin_claims (of_admin c) = c

-- Signing with a secret, and parsing at an instant, which checks the signature, its method and the
-- times; an error is `none`.
pub record Jwt : Type 0 where
  pub signed_string : Text → Payload → Option Text
  pub parse_with_claims : ℕ → Text → Text → Option Payload

-- NewNumericDate, of an instant in nanoseconds.
abbrev pub numeric_date : ℕ → ℕ
numeric_date at = at / 1_000_000_000

abbrev pub user_issuer : String
user_issuer = "mootd"

abbrev pub admin_issuer : String
admin_issuer = "mootd-admin"

-- strings.CutPrefix
abbrev pub after_prefix : Text → Text → Option Text
after_prefix [] s = some s
after_prefix (c ∷ prefix) [] = none
after_prefix (c ∷ prefix) (d ∷ s) = if c == d then after_prefix prefix s else none

pub data Response (A : Type 0) : Type 0 where
  unauthorized : Response A
  served : A → Response A

unfoldable pub user_claims : Text → Text → ℕ → ℕ → Claims
user_claims user_id email now expiry = record {
  email = email;
  registered = record {
    subject = user_id;
    issued_at = numeric_date now;
    expires_at = numeric_date (now + expiry);
    issuer = user_issuer;
  };
}

unfoldable pub admin_claims : Text → List String → Bool → ℕ → ℕ → AdminClaims
admin_claims admin_id roles mfa_verified now expiry = record {
  roles = roles;
  mfa_verified = mfa_verified;
  registered = record {
    subject = admin_id;
    issued_at = numeric_date now;
    expires_at = numeric_date (now + expiry);
    issuer = admin_issuer;
  };
}

-- The claims that a payload is read into, if their issuer is the given one.
abbrev pub issued_by :
    {C : Type 0} → (Payload → C) → (C → Registered) → String → Option Payload → Option C
issued_by read registered issuer none = none
issued_by read registered issuer (some p) =
    if str_eq (registered (read p)).issuer issuer then some (read p) else none

abbrev pub bearer : Text → Option Text
bearer header = after_prefix (codes "Bearer ") header

module _ (jwt : Jwt) where
  open jwt use {parse_with_claims}

  -- jwt.ValidateToken and admin.ValidateToken
  unfoldable pub validate_user_token : ℕ → Text → Text → Option Claims
  validate_user_token now token secret =
      issued_by to_claims (λ c. c.registered) user_issuer (parse_with_claims now token secret)

  unfoldable pub validate_admin_token : ℕ → Text → Text → Option AdminClaims
  validate_admin_token now token secret =
      issued_by to_admin_claims (λ c. c.registered) admin_issuer
        (parse_with_claims now token secret)

  unfoldable pub auth : {A : Type 0} → Text → ℕ → Text → (Text → A) → Response A
  unfolding validate_user_token
  auth secret now header next = elim (bearer header) [
    | none ↦ unauthorized
    | some token ↦ elim (validate_user_token now token secret) [
      | none ↦ unauthorized
      | some c ↦ served (next c.registered.subject)
    ]
  ]

  unfoldable pub require_admin_auth :
      {A : Type 0} → Text → ℕ → Text → (Text → List String → Bool → A) → Response A
  unfolding validate_admin_token
  require_admin_auth secret now header next = elim (bearer header) [
    | none ↦ unauthorized
    | some token ↦ elim (validate_admin_token now token secret) [
      | none ↦ unauthorized
      | some c ↦ served (next c.registered.subject c.roles c.mfa_verified)
    ]
  ]
