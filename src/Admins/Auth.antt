-- ===== src/Admins/Auth.antt =====
-- backend/internal/admin/handler.go and mfa_handlers.go: Login, Refresh and MFAVerify. The password hash,
-- the signing of tokens, hashes and random numbers are parameters.
use mootd.Prelude.{
  ℕ, ◌+◌, ◌/◌, Bool, true, false, ◌&&◌, not, Option, none, some, List, [], String, map,
  if◌then◌else◌, Error, Result, ok, err, Text, text_eq, trim_space,
}
use mootd.Totp.{verify_totp_step, verify_totp, consume_recovery_code}
use mootd.Permissions.{permissions_for}
use mootd.Admins.{
  Admin, RefreshToken, MongoRepository, find_by_email, find_by_id, update_last_active,
  set_mfa_enrollment, set_mfa_recovery_codes, mark_totp_step_used, save_refresh_token,
  find_refresh_token, revoke_refresh_token, is_nil,
}

-- The claims of an admin's token, with the times in whole seconds, as NumericDate has them.
pub record Claims : Type 0 where
  pub roles : List String
  pub mfa_verified : Bool
  pub subject : String
  pub issued_at : ℕ
  pub expires_at : ℕ
  pub issuer : String

abbrev pub default_admin_jwt_expiry : ℕ
default_admin_jwt_expiry = 3_600_000_000_000

abbrev pub default_admin_refresh_expiry : ℕ
default_admin_refresh_expiry = 604_800_000_000_000

pub record LoginResponse : Type 0 where
  pub access_token : Claims
  pub refresh_token : Text
  pub expires_at : ℕ
  pub id : String
  pub email : Text
  pub roles : List String
  pub permissions : List String

pub data Answer : Type 0 where
  method_not_allowed bad_request unauthorized server_error : Answer
  issued : LoginResponse → Answer

pub record LoginRequest : Type 0 where
  pub email : Text
  pub password : Text
  pub totp : Text

pub record MfaRequest : Type 0 where
  pub secret : Text
  pub code : Text
  pub step_up_code : Text

-- `enrolled` has the recovery codes.
pub data MfaAnswer : Type 0 where
  method_not_allowed unauthorized bad_request forbidden server_error : MfaAnswer
  enrolled : List Text → MfaAnswer

-- What Refresh has when it is about to revoke the token, or its answer before that.
pub data Checked : Type 0 where
  answered : Answer → Checked
  admitted : Admin → Checked

abbrev pub check_admin : Result (Option Admin) → Checked
check_admin (err _) = answered unauthorized
check_admin (ok none) = answered unauthorized
check_admin (ok (some a)) = if is_nil a.disabled_at then admitted a else answered unauthorized

-- What the packages crypto, argon2 and jwt do: `verify_password` at a hash and a password, `mac`,
-- `decode` and `hex_sum256` as the TOTP functions take them, `lower` of a code point, the hash of a
-- refresh token, whether claims can be signed, and the random tokens and recovery codes.
pub record Crypto (K W : Type 0) : Type 0 where
  pub verify_password : Text → Text → Bool
  pub mac : K → ℕ → List ℕ
  pub decode : Text → Option K
  pub lower : ℕ → ℕ
  pub hex_sum256 : Text → Text
  pub hash_refresh_token : Text → Text
  pub sign : Claims → Option Error
  pub generate_refresh_token : W → Result Text × W
  pub generate_recovery_codes : W → Result (List Text × List Text) × W

abbrev pub unix : ℕ → ℕ
unix at = at / 1_000_000_000

-- GenerateToken, before the claims are signed
unfoldable pub claims_of : Admin → Bool → ℕ → Claims
claims_of a verified at = record {
  roles = a.roles;
  mfa_verified = verified;
  subject = a.id;
  issued_at = unix at;
  expires_at = unix (at + default_admin_jwt_expiry);
  issuer = "mootd-admin";
}

abbrev pub is_enrolled : Admin → Bool
is_enrolled a = a.mfa_enforced && not (text_eq a.mfa_secret [])

module _ {K W : Type 0} (now : W → ℕ) (crypto : Crypto K W) (repo : MongoRepository W)
    (user_agent ip : String) where
  open crypto use {
    verify_password, mac, decode, lower, hex_sum256, hash_refresh_token, sign,
    generate_refresh_token, generate_recovery_codes,
  }

  -- The end of both handlers: a pair of tokens, of which the refresh token is stored by its hash. `at` is
  -- the handler's `now`.
  unfoldable pub issue : Admin → Bool → (W → ℕ) → W → Answer × W
  unfolding claims_of save_refresh_token update_last_active
  issue a verified at w = elim (sign (claims_of a verified (now w))) [
    | some _ ↦ (server_error, w)
    | none ↦
        let (made, w1) = generate_refresh_token w in
        elim made [
          | err _ ↦ (server_error, w1)
          | ok raw ↦
              let (failure, w2) =
                save_refresh_token now repo
                  (record {
                    id = hash_refresh_token raw;
                    admin_id = a.id;
                    expires_at = at w1 + default_admin_refresh_expiry;
                    created_at = at w1;
                    revoked_at = none;
                    user_agent = user_agent;
                    ip = ip;
                  })
                  w1 in
              elim failure [
                | some _ ↦ (server_error, w2)
                | none ↦ (
                  issued (record {
                    access_token = claims_of a verified (now w);
                    refresh_token = raw;
                    expires_at = at w1 + default_admin_jwt_expiry;
                    id = a.id;
                    email = a.email;
                    roles = a.roles;
                    permissions = permissions_for a.roles;
                  }),
                  (update_last_active now repo a.id (at w1) w2).1,
                )
              ]
        ]
  ]

  -- The code of an admin with MFA: `none` refuses the login.
  abbrev pub by_recovery_code : Admin → Text → W → Option Bool × W
  by_recovery_code a presented w =
      let (matched, remaining) =
        consume_recovery_code lower hex_sum256 a.mfa_recovery_codes presented in
      if matched
      then (some true, (set_mfa_recovery_codes now repo a.id remaining w).1)
      else (none, w)

  abbrev pub by_step : Admin → ℕ → W → Option Bool × W
  by_step a step w =
      let (fresh, w1) = mark_totp_step_used now repo a.id step w in
      elim fresh [ err _ ↦ (some true, w1) | ok true ↦ (some true, w1) | ok false ↦ (none, w1) ]

  -- `mfaVerified` at the end of the MFA part, or `none` where the login is refused.
  unfoldable pub second_factor : Admin → Text → W → Option Bool × W
  second_factor a totp w =
      let presented = trim_space totp in
      if not (is_enrolled a)
      then (some false, w)
      else if text_eq presented []
      then (none, w)
      else elim (verify_totp_step mac decode a.mfa_secret presented (unix (now w))) [
        | some step ↦ by_step a step w
        | none ↦ by_recovery_code a presented w
      ]

  abbrev pub login_as : LoginRequest → W → Option Admin → Answer × W
  login_as q w none = (unauthorized, w)
  login_as q w (some a) =
      if not (verify_password a.password_hash q.password)
      then (unauthorized, w)
      else if not (is_nil a.disabled_at)
      then (unauthorized, w)
      else let (verified, w1) = second_factor a q.totp w in
        elim verified [ none ↦ (unauthorized, w1) | some v ↦ issue a v now w1 ]

  abbrev pub login_body : Option LoginRequest → W → Answer × W
  login_body none w = (bad_request, w)
  login_body (some q) w =
      let email = map lower (trim_space q.email) in
      if text_eq email []
      then (bad_request, w)
      else if text_eq q.password []
      then (bad_request, w)
      else let (found, w1) = find_by_email now repo email w in
        elim found [ err _ ↦ (server_error, w1) | ok a ↦ login_as q w1 a ]

  -- `body` is `none` where it does not decode.
  unfoldable pub login : Bool → Option LoginRequest → W → Answer × W
  unfolding second_factor issue find_by_email
  login is_post body w = if is_post then login_body body w else (method_not_allowed, w)

  abbrev pub check_token : W → Result (Option RefreshToken) → Checked × W
  check_token w (err _) = (answered server_error, w)
  check_token w (ok none) = (answered unauthorized, w)
  check_token w (ok (some t)) =
      let (found, w1) = find_by_id now repo t.admin_id w in (check_admin found, w1)

  unfoldable pub check_refresh : Text → W → Checked × W
  unfolding find_refresh_token find_by_id
  check_refresh hash w =
      let (existing, w1) = find_refresh_token now repo hash w in check_token w1 existing

  unfoldable pub rotate : Text → Admin → W → Answer × W
  unfolding revoke_refresh_token issue
  rotate hash a w =
      let at = now w in
      let (failure, w1) = revoke_refresh_token now repo hash at w in
      elim failure [ some _ ↦ (server_error, w1) | none ↦ issue a false (λ _. at) w1 ]

  abbrev pub refresh_token : Text → W → Answer × W
  refresh_token raw w =
      let hash = hash_refresh_token raw in
      let (checked, w1) = check_refresh hash w in
      elim checked [ answered x ↦ (x, w1) | admitted a ↦ rotate hash a w1 ]

  -- `body` is the token, "" where it is missing.
  unfoldable pub refresh : Bool → Option Text → W → Answer × W
  unfolding check_refresh rotate
  refresh is_post body w =
      if is_post
      then elim body [
        | none ↦ (bad_request, w)
        | some raw ↦ if text_eq raw [] then (bad_request, w) else refresh_token raw w
      ]
      else (method_not_allowed, w)

  unfoldable pub verify_existing_factor : Admin → Text → W → Bool
  verify_existing_factor a code w =
      let code' = trim_space code in
      if text_eq code' []
      then false
      else if not (text_eq a.mfa_secret [])
          && verify_totp mac decode a.mfa_secret code' (unix (now w))
      then true
      else (consume_recovery_code lower hex_sum256 a.mfa_recovery_codes code').0

  -- From the check of the new secret on; the entry of the audit log is left out.
  abbrev pub enrol : String → Text → Text → W → MfaAnswer × W
  enrol id secret code w =
      if not (verify_totp mac decode secret code (unix (now w)))
      then (bad_request, w)
      else let (made, w1) = generate_recovery_codes w in
        elim made [
          | err _ ↦ (server_error, w1)
          | ok (plain, hashes) ↦
              let (failure, w2) = set_mfa_enrollment now repo id secret hashes w1 in
              elim failure [ some _ ↦ (server_error, w2) | none ↦ (enrolled plain, w2) ]
        ]

  abbrev pub verify_as :
      String → Bool → Text → Text → Text → W → Result (Option Admin) → MfaAnswer × W
  verify_as id mfa_verified secret code step_up w (err _) = (unauthorized, w)
  verify_as id mfa_verified secret code step_up w (ok none) = (unauthorized, w)
  verify_as id mfa_verified secret code step_up w (ok (some a)) =
      if is_enrolled a && (not mfa_verified && not (verify_existing_factor a step_up w))
      then (forbidden, w)
      else enrol id secret code w

  -- `id` and `mfa_verified` are those of the context, and `body` the secret, the code and the step-up code.
  unfoldable pub mfa_verify : Bool → Option String → Bool → Option MfaRequest → W → MfaAnswer × W
  unfolding verify_existing_factor find_by_id set_mfa_enrollment
  mfa_verify is_post id mfa_verified body w =
      if is_post
      then elim id [
        | none ↦ (unauthorized, w)
        | some i ↦ elim body [
          | none ↦ (bad_request, w)
          | some b ↦
              let secret = trim_space b.secret in
              let code = trim_space b.code in
              let (found, w1) = find_by_id now repo i w in
              if text_eq secret []
              then (bad_request, w)
              else if text_eq code []
              then (bad_request, w)
              else verify_as i mfa_verified secret code (trim_space b.step_up_code) w1 found
        ]
      ]
      else (method_not_allowed, w)
