-- ===== src/Privacy.antt =====
-- backend/internal/privacy/service.go and handler.go: erasing and exporting what is stored about a user,
-- the DeleteAllByUser of the repositories that own images (wardrobe/repository.go, detection_runs.go and
-- moodboard/repository.go), and the adapter of app/app.go through which an admin erases a user.
pub mod Blobs
pub mod Erased
pub mod Budgets
pub mod Purges
pub mod Exported
pub mod PurgeUser
pub mod Tests
use mootd.Prelude.{
  ℕ, ◌+◌, Bool, true, false, Option, none, some, List, [], ◌∷◌, ◌++◌, String, ltb, ◌==◌,
  if◌then◌else◌, Error, wrap, Result, ok, err, Text, text_eq, put, codes, str_eq, ◌&&◌,
}
use Prim.Native.String.{◌++◌ as append}

-- What the service and the repositories call: CountDocuments and DeleteOne of `users` by `_id`, DeleteMany
-- and Find of a collection by a field (`find_ids` for the ids alone), FindOne by `_id`; and in the GridFS
-- bucket of a collection FindOne and Find of the files by their name, for the files' ids, and Delete.
-- `has_detection_runs` says that the repository of the detection runs was set up.
pub record Db (D W : Type 0) : Type 0 where
  pub count_users : Text → W → Result ℕ × W
  pub delete_many : String → String → Text → W → Result ℕ × W
  pub delete_user : Text → W → Result ℕ × W
  pub find_ids : String → String → Text → W → Result (List Text) × W
  pub find_file : String → Text → W → Result (Option Text) × W
  pub find_files : String → Text → W → Result (List Text) × W
  pub delete_file : String → Text → W → Option Error × W
  pub has_detection_runs : Bool
  pub find : String → String → Text → W → Result (List D) × W
  pub find_one : String → Text → W → Result (Option D) × W
  pub now : W → ℕ

pub record PurgeReport : Type 0 where
  pub user_id : Text
  pub purged_at : ℕ
  pub collections : List (String × ℕ)
  pub total : ℕ

-- `ErrUserNotFound` and the error for an empty id have their own constructors.
pub data Outcome (A : Type 0) : Type 0 where
  done : A → Outcome A
  user_not_found user_id_required : Outcome A
  failed : Error → Outcome A

abbrev pub user_scoped_collections : List (String × String)
user_scoped_collections =
    ("wardrobe_items", "userId")
    ∷ ("outfits", "userId")
    ∷ ("outfit_jobs", "userId")
    ∷ ("outfit_feedback", "userId")
    ∷ ("moodboards", "userId")
    ∷ ("events", "userId")
    ∷ ("llm_calls", "userId")
    ∷ ("detection_runs", "userId")
    ∷ ("user_budgets", "_id")
    ∷ []

-- report.Collections[name] = n and report.Total += n
abbrev pub counted : String → ℕ → PurgeReport → PurgeReport
counted name n report =
    if ltb 0 n
    then record report { collections = put report.collections name n; total = report.total + n }
    else report

abbrev pub wrap_err : {A : Type 0} → String → Result A → Result A
wrap_err name (ok a) = ok a
wrap_err name (err e) = err (wrap (append "privacy: purge " name) e)

module _ {D W : Type 0} (db : Db D W) where
  open db use {
    count_users, delete_many, delete_user, find_ids, find_file, find_files, delete_file,
    has_detection_runs, find, find_one, now,
  }

  abbrev pub delete_grid_fs_by_name : String → Text → W → Option Error × W
  delete_grid_fs_by_name bucket name w =
      let (found, w1) = find_file bucket name w in
      elim found [
        | err e ↦ (some e, w1)
        | ok none ↦ (none, w1)
        | ok (some id) ↦ delete_file bucket id w1
      ]

  abbrev pub delete_files : String → List Text → W → W
  delete_files bucket [] w = w
  delete_files bucket (id ∷ ids) w = delete_files bucket ids (delete_file bucket id w).1

  -- The images of one wardrobe item, of one moodboard and of one detection run; errors are ignored.
  unfoldable pub delete_item_images : Text → W → W
  delete_item_images id w =
      let w1 = (delete_grid_fs_by_name "wardrobe_items" id w).1 in
      (delete_grid_fs_by_name "wardrobe_items" (id ++ codes "-png") w1).1

  unfoldable pub delete_board_image : Text → W → W
  delete_board_image id w = (delete_grid_fs_by_name "moodboards" (codes "moodboard:" ++ id) w).1

  unfoldable pub delete_run_inputs : Text → W → W
  delete_run_inputs id w =
      let (found, w1) = find_files "detection_runs" id w in
      elim found [ err e ↦ w1 | ok files ↦ delete_files "detection_runs" files w1 ]

  abbrev pub delete_each : (Text → W → W) → List Text → W → W
  delete_each images [] w = w
  delete_each images (id ∷ ids) w = delete_each images ids (images id w)

  -- DeleteAllByUser of a repository, with its way to delete the images of one document.
  unfoldable pub delete_all_by_user : String → (Text → W → W) → Text → W → Result ℕ × W
  delete_all_by_user name images user_id w =
      let (found, w1) = find_ids name "userId" user_id w in
      elim found [
        | err e ↦ (err e, w1)
        | ok ids ↦ delete_many name "userId" user_id (delete_each images ids w1)
      ]

  abbrev pub blob_purgers : String → Option (Text → W → Result ℕ × W)
  blob_purgers name =
      if str_eq name "wardrobe_items"
      then some (delete_all_by_user name delete_item_images)
      else if str_eq name "moodboards"
      then some (delete_all_by_user name delete_board_image)
      else if str_eq name "detection_runs" && has_detection_runs
      then some (delete_all_by_user name delete_run_inputs)
      else none

  unfoldable pub purge_collection : String → String → Text → W → Result ℕ × W
  purge_collection name field user_id w = elim (blob_purgers name) [
    | none ↦ delete_many name field user_id w
    | some purge ↦ let (r, w1) = purge user_id w in (wrap_err name r, w1)
  ]

  unfoldable pub purge_all :
      List (String × String) → Text → PurgeReport → W → Outcome PurgeReport × W
  purge_all [] user_id report w = (done report, w)
  purge_all ((name, field) ∷ cs) user_id report w =
      let (r, w1) = purge_collection name field user_id w in
      elim r [ err e ↦ (failed e, w1) | ok n ↦ purge_all cs user_id (counted name n report) w1 ]

  abbrev pub purge_record : Text → Outcome PurgeReport × W → Outcome PurgeReport × W
  purge_record user_id (done report, w) =
      let (r, w1) = delete_user user_id w in
      elim r [ err e ↦ (failed e, w1) | ok n ↦ (done (counted "users" n report), w1) ]
  purge_record user_id (user_not_found, w) = (user_not_found, w)
  purge_record user_id (user_id_required, w) = (user_id_required, w)
  purge_record user_id (failed e, w) = (failed e, w)

  unfoldable pub purge : Text → W → Outcome PurgeReport × W
  unfolding purge_all purge_collection delete_all_by_user delete_item_images delete_board_image
      delete_run_inputs
  purge user_id w =
      if text_eq user_id []
      then (user_id_required, w)
      else let (r, w1) = count_users user_id w in
        let report : PurgeReport = record {
          user_id = user_id;
          purged_at = now w1;
          collections = [];
          total = 0;
        } in
        elim r [
          | err e ↦ (failed e, w1)
          | ok count ↦
              if count == 0
              then (user_not_found, w1)
              else purge_record user_id (purge_all user_scoped_collections user_id report w1)
        ]

pub data Answer (A : Type 0) : Type 0 where
  method_not_allowed unauthorized not_found server_error : Answer A
  served : A → Answer A

abbrev pub answer_of : {A : Type 0} → Outcome A → Answer A
answer_of (done a) = served a
answer_of user_not_found = not_found
answer_of user_id_required = server_error
answer_of (failed e) = server_error

-- SelfPurge; `user` is UserIDFromContext, and `is_delete` says that the method is DELETE.
unfoldable pub self_purge :
    {D W : Type 0} → Db D W → Bool → Option Text → W → Answer PurgeReport × W
self_purge db is_delete user w =
    if is_delete
    then elim user [
      | none ↦ (unauthorized, w)
      | some id ↦
          if text_eq id []
          then (unauthorized, w)
          else let (r, w1) = purge db id w in (answer_of r, w1)
    ]
    else (method_not_allowed, w)
