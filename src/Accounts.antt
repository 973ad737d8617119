-- ===== src/Accounts.antt =====
-- backend/internal/auth: the users' documents, the check of a Google token, and the handlers that log a
-- user in, refresh the session and end it. Google's two endpoints are parameters.
pub mod Sessions
pub mod Ends
pub mod Google
pub mod Tests
use mootd.Prelude.{
  ℕ, ◌+◌, ◌*◌, Bool, true, false, not, ◌&&◌, ◌||◌, Option, none, some, List, [], ◌∷◌, String, ltb,
  map, if◌then◌else◌, Error, new, Result, ok, err, Text, text_eq, trim_space, codes, any,
}
use mootd.Prelude.Mongo.{Collection}
use mootd.Tokens.{Claims, Jwt, of_user, user_claims}

-- A missing hash is "", and a missing instant `none`.
pub record UserDocument : Type 0 where
  pub id : Text
  pub email : Text
  pub name : Text
  pub avatar_url : Text
  pub google_id : Text
  pub refresh_token_hash : Text
  pub refresh_expires_at : Option ℕ
  pub created_at : ℕ
  pub updated_at : ℕ

-- The collection `users`, with UpdateOne that inserts its second document where none matches.
pub record MongoRepository (W : Type 0) : Type 0 where
  pub users : Collection UserDocument W
  pub upsert_one :
      (UserDocument → Bool) → (UserDocument → UserDocument) → UserDocument → W → Option Error × W

abbrev pub error_of : {A : Type 0} → Result A → Option Error
error_of (ok _) = none
error_of (err e) = some e

abbrev pub has_id : Text → UserDocument → Bool
has_id id u = text_eq u.id id

abbrev pub has_hash : Text → UserDocument → Bool
has_hash hash u = text_eq u.refresh_token_hash hash

-- {"$gt": now}, which a document without the field does not match
abbrev pub is_after : Option ℕ → ℕ → Bool
is_after none now = false
is_after (some at) now = ltb now at

abbrev pub is_current : Text → ℕ → UserDocument → Bool
is_current hash now u = has_hash hash u && is_after u.refresh_expires_at now

abbrev pub with_token : Text → Option ℕ → UserDocument → UserDocument
with_token hash expires_at u = record u {
  refresh_token_hash = hash;
  refresh_expires_at = expires_at;
}

module _ {W : Type 0} (now : W → ℕ) (repo : MongoRepository W) where
  open repo use {users, upsert_one}

  unfoldable pub upsert_by_google_id : Text → Text → Text → Text → W → Option Error × W
  upsert_by_google_id google_id email name avatar_url w =
      let set : UserDocument → UserDocument = λ u. record u {
        email = email;
        name = name;
        avatar_url = avatar_url;
        google_id = google_id;
        updated_at = now w;
      } in
      upsert_one (λ u. text_eq u.google_id google_id) set
        (set (record {
          id = google_id;
          email = [];
          name = [];
          avatar_url = [];
          google_id = [];
          refresh_token_hash = [];
          refresh_expires_at = none;
          created_at = now w;
          updated_at = now w;
        }))
        w

  unfoldable pub save_refresh_token : Text → Text → ℕ → W → Option Error × W
  save_refresh_token user_id hash expires_at w =
      let (r, w1) = users.update_one (has_id user_id) (with_token hash (some expires_at)) w in
      (error_of r, w1)

  unfoldable pub find_by_refresh_token : Text → W → Result (Option UserDocument) × W
  find_by_refresh_token hash w = users.find_one (is_current hash (now w)) w

  unfoldable pub clear_refresh_token : Text → W → Option Error × W
  clear_refresh_token user_id w =
      let (r, w1) = users.update_one (has_id user_id) (with_token [] none) w in (error_of r, w1)

  unfoldable pub clear_refresh_token_by_hash : Text → W → Result Bool × W
  clear_refresh_token_by_hash hash w = users.update_one (has_hash hash) (with_token [] none) w

pub record GoogleTokenInfo : Type 0 where
  pub aud : Text
  pub azp : Text
  pub sub : Text

pub record GoogleUserInfo : Type 0 where
  pub sub : Text
  pub email : Text
  pub name : Text
  pub picture : Text

-- The handler's collaborators besides the repository.
pub record Handler (W : Type 0) : Type 0 where
  pub jwt : Jwt
  pub jwt_secret : Text
  pub google_client_ids : List Text
  pub generate_refresh_token : W → Result Text × W
  pub hash_refresh_token : Text → Text
  pub token_info : Text → W → Result GoogleTokenInfo × W
  pub user_info : Text → W → Result GoogleUserInfo × W
  pub lower : ℕ → ℕ

abbrev pub audience_allowed : GoogleTokenInfo → List Text → Bool
audience_allowed ti allowed =
    any (λ id. not (text_eq id []) && (text_eq ti.aud id || text_eq ti.azp id)) allowed

abbrev pub is_mismatch : GoogleTokenInfo → GoogleUserInfo → Bool
is_mismatch ti info =
    not (text_eq ti.sub []) && (not (text_eq info.sub []) && not (text_eq ti.sub info.sub))

-- The two times in nanoseconds.
abbrev pub default_jwt_expiry : ℕ
default_jwt_expiry = 900_000_000_000

abbrev pub refresh_lifetime : ℕ
refresh_lifetime = 2_592_000_000_000_000

pub record Session : Type 0 where
  pub access_token : Text
  pub refresh_token : Text
  pub expires_at : ℕ
  pub id : Text
  pub email : Text

pub data Answer : Type 0 where
  method_not_allowed bad_request unauthorized server_error no_content : Answer
  issued : Session → Answer

module _ {W : Type 0} (now : W → ℕ) (repo : MongoRepository W) (h : Handler W) where
  open h use {
    jwt, jwt_secret, google_client_ids, generate_refresh_token, hash_refresh_token, token_info,
    user_info, lower,
  }

  abbrev pub check_profile : GoogleTokenInfo → Result GoogleUserInfo → Result GoogleUserInfo
  check_profile ti (err e) = err e
  check_profile ti (ok info) =
      if is_mismatch ti info
      then err (new "google token subject mismatch between tokeninfo and userinfo")
      else if text_eq info.sub [] || text_eq info.email []
      then err (new "incomplete user info from Google")
      else ok info

  unfoldable pub verify_google_token : Text → W → Result GoogleUserInfo × W
  verify_google_token access_token w = elim google_client_ids [
    | [] ↦ (err (new "no Google OAuth client IDs configured"), w)
    | id ∷ ids ↦
        let (ti, w1) = token_info access_token w in
        elim ti [
          | err e ↦ (err e, w1)
          | ok t ↦
              if audience_allowed t (id ∷ ids)
              then (let (info, w2) = user_info access_token w1 in (check_profile t info, w2))
              else (err (new "google token audience not allowed"), w1)
        ]
  ]

  -- The end of the three handlers that answer with tokens.
  unfoldable pub issue : Text → Text → W → Answer × W
  unfolding save_refresh_token
  issue id email w =
      elim (jwt.signed_string jwt_secret
        (of_user (user_claims id email (now w) default_jwt_expiry))) [
          | none ↦ (server_error, w)
          | some token ↦
              let (made, w1) = generate_refresh_token w in
              elim made [
                | err _ ↦ (server_error, w1)
                | ok raw ↦
                    let (failure, w2) =
                      save_refresh_token now repo id (hash_refresh_token raw)
                        (now w1 + refresh_lifetime) w1 in
                    elim failure [
                      | some _ ↦ (server_error, w2)
                      | none ↦ (
                        issued (record {
                          access_token = token;
                          refresh_token = raw;
                          expires_at = now w2 + default_jwt_expiry;
                          id = id;
                          email = email;
                        }),
                        w2,
                      )
                    ]
              ]
        ]

  -- A body that does not decode is `none`.
  unfoldable pub mock_login : Bool → Option Text → W → Answer × W
  unfolding issue
  mock_login is_post body w =
      if is_post
      then elim body [
        | none ↦ (bad_request, w)
        | some provider ↦
            let p = map lower (trim_space provider) in
            if text_eq p [] || text_eq p (codes "google")
            then issue (codes "user_mock_001") (codes "dev.user@mootd.local") w
            else (bad_request, w)
      ]
      else (method_not_allowed, w)

  unfoldable pub google : Bool → Option Text → W → Answer × W
  unfolding issue verify_google_token upsert_by_google_id
  google is_post body w =
      if is_post
      then elim body [
        | none ↦ (bad_request, w)
        | some access_token ↦
            if text_eq access_token []
            then (bad_request, w)
            else (let (verified, w1) = verify_google_token access_token w in
                elim verified [
                  | err _ ↦ (unauthorized, w1)
                  | ok u ↦
                      let (failure, w2) =
                        upsert_by_google_id now repo u.sub u.email u.name u.picture w1 in
                      elim failure [ some _ ↦ (server_error, w2) | none ↦ issue u.sub u.email w2 ]
                ])
      ]
      else (method_not_allowed, w)

  abbrev pub refresh_token : Text → W → Answer × W
  refresh_token raw w =
      let (found, w1) = find_by_refresh_token now repo (hash_refresh_token raw) w in
      elim found [
        | err _ ↦ (server_error, w1)
        | ok none ↦ (unauthorized, w1)
        | ok (some user) ↦ issue user.id user.email w1
      ]

  unfoldable pub refresh : Bool → Option Text → W → Answer × W
  unfolding issue find_by_refresh_token
  refresh is_post body w =
      if is_post
      then elim body [
        | none ↦ (bad_request, w)
        | some raw ↦ if text_eq raw [] then (bad_request, w) else refresh_token raw w
      ]
      else (method_not_allowed, w)

  unfoldable pub logout : Bool → Option Text → W → Answer × W
  unfolding clear_refresh_token_by_hash
  logout is_post body w =
      if is_post
      then elim body [
        | none ↦ (bad_request, w)
        | some raw ↦
            if text_eq raw []
            then (no_content, w)
            else (let (cleared, w1) =
                  clear_refresh_token_by_hash now repo (hash_refresh_token raw) w in
                elim cleared [ err _ ↦ (server_error, w1) | ok _ ↦ (no_content, w1) ])
      ]
      else (method_not_allowed, w)
