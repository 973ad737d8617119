-- ===== src/Admins/Enrolment.antt =====
-- Who may set a second factor.
use mootd.Prelude.{
  ℕ, ◌≡◌, Bool, true, false, none, some, List, String, arith, Result-cases, inl, inr, ◌⊎◌, ok, Text,
  trim_space,
}
use mootd.Totp.{verify_totp}
use mootd.Admins.{Admin, MongoRepository, find_by_id}
use mootd.Admins.Auth.{
  Crypto, unix, is_enrolled, MfaRequest, enrolled, verify_existing_factor, mfa_verify,
}

module _ {K W : Type 0} (now : W → ℕ) (crypto : Crypto K W) (repo : MongoRepository W)
    (user_agent ip : String) where
  open crypto use {mac, decode}

  -- The second factor of an admin is set only for one who had none, or in a session that presented it, or
  -- with a code of it, and in each case with a code of the new one.
  pub mfa_verify-enrolled :
      (id : String) (mfa_verified : Bool) (b : MfaRequest) (w : W) (codes : List Text)
      → (mfa_verify now crypto repo user_agent ip true (some id) mfa_verified (some b) w).0
        ≡ enrolled codes
      → let (found, w1) = find_by_id now repo id w in
        (a : Admin) × (found ≡ ok (some a))
        × ((is_enrolled a ≡ false)
            ⊎ ((mfa_verified ≡ true)
                ⊎ (verify_existing_factor now crypto repo user_agent ip a
                      (trim_space b.step_up_code)
                      w1
                    ≡ true)))
        × (verify_totp mac decode (trim_space b.secret) (trim_space b.code) (unix (now w1)) ≡ true)
  unfolding mfa_verify
  mfa_verify-enrolled id mfa_verified b w codes h =
      elim (Result-cases (find_by_id now repo id w).0) [
        | inr (_, e) ↦ absurd (ground (arith, e, h))
        | inl (none, e) ↦ absurd (ground (arith, e, h))
        | inl (some a, e) ↦ (a, e, ground (arith, e, h), ground (arith, e, h))
      ]
