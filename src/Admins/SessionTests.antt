-- ===== src/Admins/SessionTests.antt =====
-- A refresh token of the admin of Tests, and her new second factor.
use mootd.Prelude.{◌≡◌, ◌≢◌, refl, true, false, none, some, [], ◌∷◌, inr, codes, trim_space}
use mootd.Totp.{verify_totp, verify_totp_step, hotp}
use mootd.Permissions.{permissions_for}
use mootd.Admins.{
  RefreshToken, find_by_id, find_refresh_token, revoke_refresh_token, save_refresh_token,
  set_mfa_enrollment,
}
use mootd.Admins.Auth.{
  LoginResponse, MfaRequest, issued, enrolled, claims_of, issue, check_refresh, rotate, refresh,
  verify_existing_factor, mfa_verify,
}
use mootd.Admins.Refreshes.{refresh_once}
use mootd.Admins.Tests.{World, now, repo, tokens_laws, crypto, ann, world}

abbrev token : RefreshToken
token = record {
  id = codes "t";
  admin_id = "ann";
  expires_at = 500_000_000_000;
  created_at = 0;
  revoked_at = none;
  user_agent = "";
  ip = "";
}

abbrev with_token : World
with_token = record world { tokens = token ∷ [] }

abbrev refreshed : LoginResponse
refreshed = record {
  access_token = claims_of ann false 125_000_000_000;
  refresh_token = 7 ∷ [];
  expires_at = 3_725_000_000_000;
  id = "ann";
  email = codes "ann@x";
  roles = "readonly" ∷ [];
  permissions = permissions_for ("readonly" ∷ []);
}

exchanged : (refresh now crypto repo "" "" true (some (codes "t")) with_token).0 ≡ issued refreshed
unfolding refresh check_refresh rotate issue find_refresh_token find_by_id revoke_refresh_token
    save_refresh_token
exchanged = refl

refresh_once_example :
    (refresh now crypto repo "" "" true
      (some (codes "t"))
      (refresh now crypto repo "" "" true (some (codes "t")) with_token).1).0
    ≢ issued refreshed
refresh_once_example =
    refresh_once now crypto repo "" "" (λ w. w.tokens) tokens_laws (λ p w. refl) (λ p f w. refl)
      (λ w. refl) (codes "t") refreshed refreshed with_token
      (refresh now crypto repo "" "" true (some (codes "t")) with_token).1 (inr tt, tt) refl
      exchanged refl

-- She has a factor, and gives a code of it.
abbrev renewal : MfaRequest
renewal = record { secret = codes "N"; code = codes "000004"; step_up_code = codes "000005" }

renewed :
    (mfa_verify now crypto repo "" "" true (some "ann") false (some renewal) world).0
    ≡ enrolled (codes "r1" ∷ [])
unfolding mfa_verify verify_existing_factor find_by_id set_mfa_enrollment verify_totp
    verify_totp_step hotp trim_space
renewed = refl
