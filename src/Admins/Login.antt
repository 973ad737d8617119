-- ===== src/Admins/Login.antt =====
-- Whom a login lets in.
use mootd.Prelude.{
  ℕ, ◌≡◌, ◌≢◌, sym, ap, subst, Bool, true, false, none, some, String, map, arith, Bool-cases,
  Option-cases, Result-cases, inl, inr, ◌⊎◌, ok, Text, text_eq, trim_space, [],
}
use mootd.Totp.{verify_totp_step, consume_recovery_code}
use mootd.Admins.{Admin, MongoRepository, find_by_email, mark_totp_step_used, is_nil}
use mootd.Admins.Auth.{
  Claims, LoginResponse, LoginRequest, issued, Crypto, unix, claims_of, issue, is_enrolled, by_step,
  second_factor, login_as, login,
}

module _ {K W : Type 0} (now : W → ℕ) (crypto : Crypto K W) (repo : MongoRepository W)
    (user_agent ip : String) where
  open crypto use {verify_password, mac, decode, lower, hex_sum256}

  -- A step of the current code that is newer than the last one, or whose record failed, or one of the
  -- recovery codes.
  pub HasFactor : Admin → Text → W → Type 0
  HasFactor a code w =
      ((step : ℕ) × (verify_totp_step mac decode a.mfa_secret code (unix (now w)) ≡ some step)
        × ((mark_totp_step_used now repo a.id step w).0 ≢ ok false))
      ⊎ ((consume_recovery_code lower hex_sum256 a.mfa_recovery_codes code).0 ≡ true)

  -- What the token says of the second factor, and what was checked for it.
  pub IsVerified : Admin → Text → W → Bool → Type 0
  IsVerified a totp w v =
      ((is_enrolled a ≡ false) × (v ≡ false))
      ⊎ ((is_enrolled a ≡ true) × (v ≡ true) × HasFactor a (trim_space totp) w)

  by_step_fresh :
      (a : Admin) (step : ℕ) (w : W) (v : Bool)
      → (by_step now crypto repo user_agent ip a step w).0 ≡ some v
      → (v ≡ true) × ((mark_totp_step_used now repo a.id step w).0 ≢ ok false)
  by_step_fresh a step w v h = ground (arith, h)

  second_factor-IsVerified :
      (a : Admin) (totp : Text) (w : W) (v : Bool)
      → (second_factor now crypto repo user_agent ip a totp w).0 ≡ some v
      → IsVerified a totp w v
  unfolding second_factor IsVerified HasFactor
  second_factor-IsVerified a totp w v h = elim (Bool-cases (is_enrolled a)) [
    | inr e ↦ inl (e, ground (arith, e, h))
    | inl e ↦ elim (Bool-cases (text_eq (trim_space totp) [])) [
      | inl blank ↦ ground (arith, e, blank, h)
      | inr given ↦
          elim (Option-cases
            (verify_totp_step mac decode a.mfa_secret (trim_space totp) (unix (now w)))) [
              | inr (step, q) ↦
                  let (v1, fresh) = by_step_fresh a step w v (ground (arith, e, given, q, h)) in
                  inr (e, v1, inl (step, q, fresh))
              | inl q ↦
                  elim (Bool-cases
                    (consume_recovery_code lower hex_sum256 a.mfa_recovery_codes
                      (trim_space totp)).0) [
                        | inl m ↦ inr (e, ground (arith, e, given, q, m, h), inr m)
                        | inr m ↦ ground (arith, e, given, q, m, h)
                      ]
            ]
    ]
  ]

  issue-claims :
      (a : Admin) (v : Bool) (at : W → ℕ) (w : W) (r : LoginResponse)
      → (issue now crypto repo user_agent ip a v at w).0 ≡ issued r
      → r.access_token ≡ claims_of a v (now w)
  unfolding issue
  issue-claims a v at w r h = elim (Option-cases (crypto.sign (claims_of a v (now w)))) [
    | inr (_, e) ↦ ground (arith, e, h)
    | inl e ↦ elim (Result-cases (crypto.generate_refresh_token w).0) [
      | inr (_, q) ↦ ground (arith, e, q, h)
      | inl (_, q) ↦ ground (arith, e, q, h)
    ]
  ]

  -- The world in which the admin has been looked up.
  abbrev pub looked_up : LoginRequest → W → W
  looked_up q w = (find_by_email now repo (map lower (trim_space q.email)) w).1

  pub login_as-issued :
      (q : LoginRequest) (w : W) (a : Admin) (r : LoginResponse)
      → (login_as now crypto repo user_agent ip q w (some a)).0 ≡ issued r
      → (verify_password a.password_hash q.password ≡ true)
        × (is_nil a.disabled_at ≡ true)
        × (v : Bool) × ((second_factor now crypto repo user_agent ip a q.totp w).0 ≡ some v)
        × ((issue now crypto repo user_agent ip a v now
              (second_factor now crypto repo user_agent ip a q.totp w).1).0
            ≡ issued r)
  login_as-issued q w a r h =
      elim (Option-cases (second_factor now crypto repo user_agent ip a q.totp w).0) [
        | inl e ↦ ground (arith, h, e)
        | inr (v, e) ↦ (ground (arith, h, e), ground (arith, h, e), v, e, ground (arith, h, e))
      ]

  -- A login that issues tokens found an admin by the email, whose password was right and who is not
  -- disabled, and the access token is that admin's and says that MFA was verified exactly if the admin
  -- has it, and then a factor was presented.
  pub login-issued :
      (q : LoginRequest) (w : W) (r : LoginResponse)
      → (login now crypto repo user_agent ip true (some q) w).0 ≡ issued r
      → (a : Admin) × ((find_by_email now repo (map lower (trim_space q.email)) w).0 ≡ ok (some a))
        × (verify_password a.password_hash q.password ≡ true)
        × (a.disabled_at ≡ none)
        × (r.access_token.subject ≡ a.id)
        × (r.access_token.roles ≡ a.roles)
        × IsVerified a q.totp (looked_up q w) r.access_token.mfa_verified
  unfolding login claims_of
  login-issued q w r h =
      elim (Result-cases (find_by_email now repo (map lower (trim_space q.email)) w).0) [
        | inr (_, e) ↦ ground (arith, e, h)
        | inl (none, e) ↦ ground (arith, e, h)
        | inl (some a, e) ↦
            let (password, enabled, v, factor, made) =
              login_as-issued q (looked_up q w) a r (ground (arith, e, h)) in
            let c =
              issue-claims a v now
                (second_factor now crypto repo user_agent ip a q.totp (looked_up q w)).1 r made in
            (
              a,
              e,
              password,
              ground (arith, enabled),
              ap (λ (x : Claims). x.subject) c,
              ap (λ (x : Claims). x.roles) c,
              subst (IsVerified a q.totp (looked_up q w))
                  (sym (ap (λ (x : Claims). x.mfa_verified) c))
                  (second_factor-IsVerified a q.totp (looked_up q w) v factor),
            )
      ]
