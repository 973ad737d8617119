-- ===== src/Admins/Tests.antt =====
-- One admin with a second factor and one without.
use mootd.Prelude.{
  ℕ, suc, ◌≡◌, refl, Bool, true, false, none, some, List, [], ◌∷◌, arith, inr, ok, text_eq, codes,
  map, trim_space,
}
use mootd.Prelude.Mongo.{Collection, IsMongo, first_match, update_first, matches}
use mootd.Totp.{verify_totp_step, hotp}
use mootd.Permissions.{permissions_for}
use mootd.Admins.{
  Admin, RefreshToken, MongoRepository, find_by_email, mark_totp_step_used, save_refresh_token,
  update_last_active,
}
use mootd.Admins.Auth.{
  LoginResponse, LoginRequest, issued, unauthorized, Crypto, unix, claims_of, issue, second_factor,
  login,
}
use mootd.Admins.Login.{IsVerified, login-issued}
use mootd.Admins.Steps.{login_first_step, second_factor_once}

pub record World : Type 0 where
  pub clock : ℕ
  pub admins : List Admin
  pub tokens : List RefreshToken
  pub made : ℕ

abbrev pub now : World → ℕ
now w = w.clock

abbrev admins_col : Collection Admin World
admins_col = record {
  find_one = λ p w. (ok (first_match p w.admins), w);
  insert_one = λ a w. (none, record w { admins = a ∷ w.admins });
  update_one = λ p f w. (ok (matches p w.admins), record w { admins = update_first p f w.admins });
}

abbrev pub tokens_col : Collection RefreshToken World
tokens_col = record {
  find_one = λ p w. (ok (first_match p w.tokens), w);
  insert_one = λ t w. (none, record w { tokens = t ∷ w.tokens });
  update_one = λ p f w. (ok (matches p w.tokens), record w { tokens = update_first p f w.tokens });
}

abbrev pub repo : MongoRepository World
repo = record { admins_col = admins_col; tokens_col = tokens_col }

admins_laws : IsMongo admins_col (λ w. w.admins)
admins_laws = record {
  find_ok = λ p w found h. ground (arith, h);
  find_docs = λ p w. refl;
  update_ok = λ p f w m h. ((λ t. ground (arith, h, t)), refl);
  update_err = λ p f w e h. ground (arith, h);
  insert_ok = λ x w h. refl;
}

pub tokens_laws : IsMongo tokens_col (λ w. w.tokens)
tokens_laws = record {
  find_ok = λ p w found h. ground (arith, h);
  find_docs = λ p w. refl;
  update_ok = λ p f w m h. ((λ t. ground (arith, h, t)), refl);
  update_err = λ p f w e h. ground (arith, h);
  insert_ok = λ x w h. refl;
}

abbrev pub crypto : Crypto Bool World
crypto = record {
  verify_password = text_eq;
  mac = λ key counter. 0 ∷ 0 ∷ 0 ∷ counter ∷ 0 ∷ 0 ∷ 0 ∷ [];
  decode = λ secret. some true;
  lower = λ c. c;
  hex_sum256 = λ t. t;
  hash_refresh_token = λ t. t;
  sign = λ c. none;
  generate_refresh_token = λ w. (ok (w.made ∷ []), record w { made = suc w.made });
  generate_recovery_codes = λ w. (ok (codes "r1" ∷ [], codes "r1" ∷ []), w);
}

abbrev pub ann : Admin
ann = record {
  id = "ann";
  email = codes "ann@x";
  password_hash = codes "pw";
  mfa_secret = codes "S";
  mfa_enforced = true;
  mfa_recovery_codes = codes "aa" ∷ [];
  mfa_last_totp_step = some 2;
  roles = "readonly" ∷ [];
  updated_at = 0;
  last_active_at = 0;
  disabled_at = none;
}

-- At 125 seconds the step is 4.
abbrev pub world : World
world = record { clock = 125_000_000_000; admins = ann ∷ []; tokens = []; made = 7 }

abbrev by_code : LoginRequest
by_code = record { email = codes " ann@x"; password = codes "pw"; totp = codes "000005" }

abbrev response : LoginResponse
response = record {
  access_token = claims_of ann true 125_000_000_000;
  refresh_token = 7 ∷ [];
  expires_at = 3_725_000_000_000;
  id = "ann";
  email = codes "ann@x";
  roles = "readonly" ∷ [];
  permissions = permissions_for ("readonly" ∷ []);
}

logged_in : (login now crypto repo "" "" true (some by_code) world).0 ≡ issued response
unfolding login second_factor issue find_by_email verify_totp_step hotp mark_totp_step_used
    save_refresh_token trim_space claims_of update_last_active
logged_in = refl

login-issued_example :
    (a : Admin) × ((find_by_email now repo (map crypto.lower (trim_space by_code.email)) world).0
      ≡ ok (some a))
    × (text_eq a.password_hash by_code.password ≡ true)
    × (a.disabled_at ≡ none)
    × (response.access_token.subject ≡ a.id)
    × (response.access_token.roles ≡ a.roles)
    × IsVerified now crypto repo "" "" a by_code.totp
        (find_by_email now repo (map crypto.lower (trim_space by_code.email)) world).1
        response.access_token.mfa_verified
login-issued_example = login-issued now crypto repo "" "" by_code world response logged_in

-- The same admin before any login with a code.
abbrev new_world : World
new_world = record world { admins = record ann { mfa_last_totp_step = none } ∷ [] }

found_step :
    verify_totp_step crypto.mac crypto.decode ann.mfa_secret
      (trim_space by_code.totp)
      (unix 125_000_000_000)
    ≡ some 5
unfolding verify_totp_step hotp trim_space
found_step = refl

login_first_step_example :
    (login now crypto repo "" "" true (some by_code) new_world).0 ≡ unauthorized
unfolding find_by_email trim_space mark_totp_step_used
login_first_step_example =
    login_first_step now crypto repo "" "" (λ w. w.admins) admins_laws by_code
      (record ann { mfa_last_totp_step = none }) 5 new_world refl refl refl refl found_step
      (refl, tt) (false, refl)

-- The documents that the login left, fifteen seconds later.
abbrev after_login : World
after_login = record (login now crypto repo "" "" true (some by_code) world).1 {
  clock = 140_000_000_000;
}

again_step :
    verify_totp_step crypto.mac crypto.decode ann.mfa_secret
      (trim_space (codes "000005"))
      (unix 140_000_000_000)
    ≡ some 5
unfolding verify_totp_step hotp trim_space
again_step = refl

second_factor_once_example :
    (second_factor now crypto repo "" "" ann (codes "000005") after_login).0 ≡ none
unfolding login second_factor issue find_by_email verify_totp_step hotp mark_totp_step_used
    save_refresh_token trim_space claims_of update_last_active
second_factor_once_example =
    second_factor_once now crypto repo "" "" (λ w. w.admins) admins_laws (λ w. refl) (λ t w. refl)
      by_code response ann ann (codes "000005") 5 5 world after_login refl refl found_step
      (inr tt, tt) (true, refl) logged_in refl refl refl again_step (omega arith) (false, refl)
