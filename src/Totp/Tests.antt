-- ===== src/Totp/Tests.antt =====
-- Codes under a hash that is all zeros but for the counter.
use mootd.Prelude.{
  Bool, ℕ, ◌≡◌, refl, true, some, none, Option, List, [], ◌∷◌, Text, codes, trim_space,
}
use mootd.Totp.{hotp, verify_totp_step, hash_recovery_code, consume_recovery_code}

abbrev mac : Bool → ℕ → List ℕ
mac key counter = 0 ∷ 0 ∷ 0 ∷ counter ∷ 0 ∷ 0 ∷ 0 ∷ []

abbrev decode : Text → Option Bool
decode secret = some true

abbrev presented : Text
presented = codes " 000005 "

accepted : verify_totp_step mac decode [] presented 125 ≡ some 5
unfolding verify_totp_step hotp trim_space
accepted = refl

-- It is too late for the same code.
refused : verify_totp_step mac decode [] presented 260 ≡ none
unfolding verify_totp_step hotp trim_space
refused = refl

abbrev stored : List Text
stored = codes "aa" ∷ codes "bb" ∷ codes "cc" ∷ []

consumed :
    consume_recovery_code (λ c. c) (λ t. t) stored (codes "b-b")
    ≡ (true, codes "aa" ∷ codes "cc" ∷ [])
unfolding consume_recovery_code hash_recovery_code trim_space
consumed = refl
