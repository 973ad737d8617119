-- ===== src/Admins.antt =====
-- backend/internal/admin/domain.go and repository.go: the admins, their refresh tokens, and what the
-- repository reads and writes in Mongo.
pub mod Auth
pub mod Login
pub mod Steps
pub mod Refreshes
pub mod Enrolment
pub mod Tests
pub mod SessionTests
use mootd.Prelude.{
  ℕ, ◌+◌, Bool, true, false, ◌&&◌, not, Option, none, some, List, [], String, str_eq, ltb,
  if◌then◌else◌, Error, new, Result, ok, err, Text, text_eq,
}
use mootd.Prelude.Mongo.{Collection}

-- A document of `admins`. Of the fields that the driver leaves out where they are zero,
-- `mfa_last_totp_step` is `none` where it is missing, and "" and [] stand for a missing one too.
pub record Admin : Type 0 where
  pub id : String
  pub email : Text
  pub password_hash : Text
  pub mfa_secret : Text
  pub mfa_enforced : Bool
  pub mfa_recovery_codes : List Text
  pub mfa_last_totp_step : Option ℕ
  pub roles : List String
  pub updated_at : ℕ
  pub last_active_at : ℕ
  pub disabled_at : Option ℕ

pub record RefreshToken : Type 0 where
  pub id : Text
  pub admin_id : String
  pub expires_at : ℕ
  pub created_at : ℕ
  pub revoked_at : Option ℕ
  pub user_agent : String
  pub ip : String

pub record MongoRepository (W : Type 0) : Type 0 where
  pub admins_col : Collection Admin W
  pub tokens_col : Collection RefreshToken W

abbrev pub error_of : {A : Type 0} → Result A → Option Error
error_of (ok _) = none
error_of (err e) = some e

abbrev pub is_nil : {A : Type 0} → Option A → Bool
is_nil none = true
is_nil (some _) = false

-- {"$lt": step}, which a document without the field does not match
abbrev pub is_before : Option ℕ → ℕ → Bool
is_before none step = false
is_before (some last) step = ltb last step

abbrev pub has_id : String → Admin → Bool
has_id id a = str_eq a.id id

abbrev pub is_unused : String → ℕ → Admin → Bool
is_unused id step a = str_eq a.id id && is_before a.mfa_last_totp_step step

abbrev pub has_hash : Text → RefreshToken → Bool
has_hash hash t = text_eq t.id hash

abbrev pub is_live : Text → ℕ → RefreshToken → Bool
is_live hash at t = text_eq t.id hash && (ltb at t.expires_at && is_nil t.revoked_at)

module _ {W : Type 0} (now : W → ℕ) (repo : MongoRepository W) where
  open repo use {admins_col, tokens_col}

  unfoldable pub find_by_email : Text → W → Result (Option Admin) × W
  find_by_email email w = admins_col.find_one (λ a. text_eq a.email email) w

  unfoldable pub find_by_id : String → W → Result (Option Admin) × W
  find_by_id id w = admins_col.find_one (has_id id) w

  unfoldable pub update_last_active : String → ℕ → W → Option Error × W
  update_last_active id at w =
      let (r, w1) = admins_col.update_one (has_id id) (λ a. record a { last_active_at = at }) w in
      (error_of r, w1)

  unfoldable pub set_mfa_enrollment : String → Text → List Text → W → Option Error × W
  set_mfa_enrollment id secret hashes w =
      if str_eq id ""
      then (some (new "admin: SetMFAEnrollment requires id + secret"), w)
      else if text_eq secret []
      then (some (new "admin: SetMFAEnrollment requires id + secret"), w)
      else let (r, w1) =
          admins_col.update_one (has_id id)
            (λ a. record a {
              mfa_secret = secret;
              mfa_recovery_codes = hashes;
              mfa_enforced = true;
              updated_at = now w;
            })
            w in
        (error_of r, w1)

  unfoldable pub set_mfa_recovery_codes : String → List Text → W → Option Error × W
  set_mfa_recovery_codes id hashes w =
      let (r, w1) =
        admins_col.update_one (has_id id) (λ a. record a { mfa_recovery_codes = hashes }) w in
      (error_of r, w1)

  -- The steps of a clock past 1970, which an int64 holds.
  unfoldable pub mark_totp_step_used : String → ℕ → W → Result Bool × W
  mark_totp_step_used id step w =
      admins_col.update_one (is_unused id step) (λ a. record a { mfa_last_totp_step = some step }) w

  unfoldable pub save_refresh_token : RefreshToken → W → Option Error × W
  save_refresh_token t w = tokens_col.insert_one t w

  unfoldable pub find_refresh_token : Text → W → Result (Option RefreshToken) × W
  find_refresh_token hash w = tokens_col.find_one (is_live hash (now w)) w

  unfoldable pub revoke_refresh_token : Text → ℕ → W → Option Error × W
  revoke_refresh_token hash at w =
      let (r, w1) =
        tokens_col.update_one (has_hash hash) (λ t. record t { revoked_at = some at }) w in
      (error_of r, w1)
