-- ===== src/Accounts/Tests.antt =====
-- backend/internal/auth: tests, over a store that is its list of users.
use mootd.Prelude.{
  ℕ, ◌+◌, Bool, true, false, Option, none, some, List, [], ◌∷◌, ◌≡◌, ◌∙◌, ◌≢◌, refl, sym, ap, arith,
  Error, new, Result, ok, err, Text, text_eq, codes, if◌then◌else◌, inl, inr,
}
use mootd.Prelude.Mongo.{Collection, IsMongo, first_match, update_first, matches}
use mootd.Tokens.{Jwt, Claims, to_claims}
use mootd.Accounts.{
  UserDocument, MongoRepository, Handler, Answer, Session, issued, no_content, GoogleUserInfo,
  refresh, logout, google, mock_login,
}
use mootd.Accounts.Ends.{refresh_rotates, logout_ends}
use mootd.Accounts.Google.{IsVerified, google-IsVerified}

abbrev W : Type 0
W = List UserDocument

abbrev users : Collection UserDocument W
users = record {
  find_one = λ p w. (ok (first_match p w), w);
  insert_one = λ u w. (none, u ∷ w);
  update_one = λ p f w. (ok (matches p w), update_first p f w);
}

result_injective : {A : Type 0} {a b : A} → ◌≡◌ {A = Result A} (ok a) (ok b) → a ≡ b
result_injective h = cc

users-IsMongo : IsMongo users (λ w. w)
users-IsMongo = record {
  find_ok = λ p w found h. sym (result_injective h);
  find_docs = λ p w. refl;
  update_ok = λ p f w m h. ((λ t. result_injective h ∙ t), refl);
  update_err = λ p f w e h. cc;
  insert_ok = λ u w h. refl;
}

abbrev repo : MongoRepository W
repo = record {
  users = users;
  upsert_one = λ p f u w. if matches p w then (none, update_first p f w) else (none, u ∷ w);
}

abbrev handler : Handler W
handler = record {
  jwt = record {
    signed_string = λ secret c. some (to_claims c).registered.subject;
    parse_with_claims = λ now token secret. none;
  };
  jwt_secret = [];
  google_client_ids = codes "mootd" ∷ [];
  generate_refresh_token = λ w. (ok (codes "new"), w);
  hash_refresh_token = λ t. t;
  token_info = λ t w. (
    if text_eq t (codes "good")
        then ok (record { aud = codes "mootd"; azp = []; sub = codes "g1" })
        else err (new "rejected"),
    w,
  );
  user_info =
      λ t w. (ok (record { sub = codes "g1"; email = codes "a@b"; name = []; picture = [] }), w);
  lower = λ c. c;
}

abbrev now : W → ℕ
now w = 50

abbrev ann : UserDocument
ann = record {
  id = codes "g1";
  email = codes "a@b";
  name = [];
  avatar_url = [];
  google_id = codes "g1";
  refresh_token_hash = codes "old";
  refresh_expires_at = some 90;
  created_at = 1;
  updated_at = 1;
}

abbrev store : W
store = ann ∷ []

abbrev session : Session
session = record {
  access_token = codes "g1";
  refresh_token = codes "new";
  expires_at = 900_000_000_050;
  id = codes "g1";
  email = codes "a@b";
}

refreshed : (refresh now repo handler true (some (codes "old")) store).0 ≡ issued session
unfolding refresh mootd.Tokens.user_claims to_claims
refreshed = refl

logged_in : (google now repo handler true (some (codes "good")) store).0 ≡ issued session
unfolding google mootd.Tokens.user_claims to_claims
logged_in = refl

rejected : (google now repo handler true (some (codes "bad")) store).0 ≡ Answer.unauthorized
unfolding google
rejected = refl

logged_out : (logout now repo handler true (some (codes "old")) store).0 ≡ no_content
unfolding logout
logged_out = refl

-- The mock user is not stored, so that the refresh token that it gets is of no use.
mock_refresh :
    let w = (mock_login now repo handler true (some []) store).1 in
    (refresh now repo handler true (some (codes "new")) w).0 ≡ Answer.unauthorized
unfolding mock_login refresh mootd.Prelude.trim_space
mock_refresh = refl

refresh_rotates_example :
    (refresh now repo handler true
      (some (codes "old"))
      (refresh now repo handler true (some (codes "old")) store).1).0
    ≢ issued session
refresh_rotates_example =
    refresh_rotates now repo handler (λ w. w) users-IsMongo (λ w. refl) (codes "old") store
      (refresh now repo handler true (some (codes "old")) store).1 session refreshed refl
      (inr tt, tt) (λ id. (inr tt, tt)) refl session

logout_ends_example :
    (refresh now repo handler true
      (some (codes "old"))
      (logout now repo handler true (some (codes "old")) store).1).0
    ≢ issued session
logout_ends_example =
    logout_ends now repo handler (λ w. w) users-IsMongo (λ w. refl) (codes "old") store
      (logout now repo handler true (some (codes "old")) store).1 refl logged_out refl (inr tt, tt)
      refl session

google-IsVerified_example :
    (token : Text) × (info : GoogleUserInfo) × (some (codes "good") ≡ some token)
    × IsVerified now repo handler token info store
    × (session.id ≡ info.sub)
    × (session.email ≡ info.email)
google-IsVerified_example =
    google-IsVerified now repo handler (some (codes "good")) store session logged_in
