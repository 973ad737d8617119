-- ===== src/Privacy/Tests.antt =====
-- backend/internal/privacy and admin/privacy.go: tests, on a store that counts or holds documents by
-- collection and user.
use mootd.Prelude.{
  ℕ, Bool, true, false, ◌&&◌, Option, none, some, List, [], ◌∷◌, ◌≡◌, ◌≢◌, refl, sym, ap, subst,
  arith, ◌⊎◌, inl, inr, String, str_eq, eq_refl, eq_iff, if◌then◌else◌, new, Result, ok, err, Text,
  text_eq, text_eq→eq, text_eq_self, codes, All, Bool-cases, trim_space,
}
use mootd.Permissions.{has_permission}
use mootd.Privacy.{
  Db, PurgeReport, done, user_not_found, failed, purge, user_scoped_collections, self_purge, served,
  delete_all_by_user, delete_item_images,
}
use mootd.Privacy.Blobs.{Owned, IsEraser, IsDb}
use mootd.Privacy.Budgets.{purge-spares_budgets}
use mootd.Privacy.Erased.{sum_owned, every_collection}
use mootd.Privacy.Purges.{purge-IsErased, purge_failed}
use mootd.Privacy.Exported.{
  Doc, ExportData, IsReader, export, export-IsComplete, exported, has_key, to_list,
}
use mootd.Privacy.PurgeUser.{
  Handler, Request, AuditEntry, Purged, Answer, is_gated, purge_user, purge_user_served, audited,
  purged,
}

-- How many documents of a collection have a value in a field.
abbrev Counts : Type 0
Counts = String → String → Text → ℕ

abbrev erase : String → String → Text → Counts → Counts
erase c f u w d g v = if str_eq c d && (str_eq f g && text_eq u v) then 0 else w d g v

abbrev owned : Owned Counts
owned w = w

-- DeleteMany fails on the collections that `fails` names. Each collection with images has one document of
-- the user to delete the images of.
abbrev db : (String → Bool) → Db (Doc ℕ) Counts
db fails = record {
  count_users = λ u w. (ok (w "users" "_id" u), w);
  delete_many = λ c f u w. if fails c then (err (new "lost"), w) else (ok (w c f u), erase c f u w);
  delete_user = λ u w. (ok (w "users" "_id" u), erase "users" "_id" u w);
  find_ids = λ c f u w. (ok (codes "i1" ∷ []), w);
  find_file = λ b n w. (ok (some n), w);
  find_files = λ b n w. (ok (n ∷ []), w);
  delete_file = λ b i w. (none, w);
  has_detection_runs = true;
  find = λ c f u w. (ok [], w);
  find_one = λ c u w. (ok none, w);
  now = λ w. 7;
}

erase_self : (c f : String) (u : Text) (w : Counts) → erase c f u w c f u ≡ 0
erase_self c f u w = rw (eq_refl c) (rw (eq_refl f) (rw (text_eq_self u) refl))

erase_apart : (c f d g : String) (u v : Text) (w : Counts) → c ≢ d → erase c f u w d g v ≡ w d g v
erase_apart c f d g u v w h = elim (Bool-cases (str_eq c d)) [
  | inl e ↦ elim (h ((eq_iff c d).0 e)) [ ]
  | inr e ↦ rw e refl
]

erase_others : (c f : String) (u v : Text) (w : Counts) → v ≢ u → erase c f u w c f v ≡ w c f v
erase_others c f u v w h = elim (Bool-cases (text_eq u v)) [
  | inl e ↦ elim (h (sym (text_eq→eq u v e))) [ ]
  | inr e ↦ rw (eq_refl c) (rw (eq_refl f) (rw e refl))
]

erase_none :
    (c f g : String) (u v : Text) (w : Counts) → w c f u ≡ 0 → erase c f u w c g v ≡ w c g v
erase_none c f g u v w z = elim (Bool-cases (str_eq f g)) [
  | inr e ↦ rw (eq_refl c) (rw e refl)
  | inl e ↦ elim (Bool-cases (text_eq u v)) [
    | inr t ↦ rw (eq_refl c) (rw e (rw t refl))
    | inl t ↦ rw (eq_refl c) (
        rw e (
          rw t (
            sym (
              subst (λ x. w c x v ≡ 0) ((eq_iff f g).0 e)
                (subst (λ x. w c f x ≡ 0) (text_eq→eq u v t) z)))))
  ]
]

many : (fails : String → Bool) (c f : String) → IsEraser owned c f ((db fails).delete_many c f)
many fails c f = record {
  erased = λ u w n. elim (Bool-cases (fails c)) [
    | inl e ↦ rw e (λ h. (cc, cc))
    | inr e ↦ rw e (λ h. (ground arith, erase_self c f u w))
  ];
  apart = λ u w d g v h. elim (Bool-cases (fails c)) [
    | inl e ↦ rw e refl
    | inr e ↦ rw e (erase_apart c f d g u v w h)
  ];
  others = λ u w v h. elim (Bool-cases (fails c)) [
    | inl e ↦ rw e refl
    | inr e ↦ rw e (erase_others c f u v w h)
  ];
}

db-IsDb : (fails : String → Bool) → IsDb (db fails) owned
db-IsDb fails = record {
  count_ok = λ u w n h. ground arith;
  count_same = λ u w c f v. refl;
  many = many fails;
  user = record {
    erased = λ u w n h. (ground arith, erase_self "users" "_id" u w);
    apart = λ u w d g v h. erase_apart "users" "_id" d g u v w h;
    others = λ u w v h. erase_others "users" "_id" u v w h;
  };
  many_none = λ c f u w z g v. elim (Bool-cases (fails c)) [
    | inl e ↦ rw e refl
    | inr e ↦ rw e (erase_none c f g u v w z)
  ];
  ids_same = λ c f u w. refl;
  file_same = λ b n w. refl;
  files_same = λ b n w. refl;
  deleted_same = λ b i w. refl;
}

abbrev ann : Text
ann = codes "ann"

abbrev counts : Counts
counts c f u =
    if str_eq c "user_budgets" && str_eq f "_id"
    then 0
    else if text_eq u ann
    then (if str_eq c "users" then 1 else 2)
    else 5

abbrev report : PurgeReport
report = record {
  user_id = ann;
  purged_at = 7;
  collections =
      ("wardrobe_items", 2)
      ∷ ("outfits", 2)
      ∷ ("outfit_jobs", 2)
      ∷ ("outfit_feedback", 2)
      ∷ ("moodboards", 2)
      ∷ ("events", 2)
      ∷ ("llm_calls", 2)
      ∷ ("detection_runs", 2)
      ∷ ("users", 1)
      ∷ [];
  total = 17;
}

abbrev healthy : String → Bool
healthy c = false

abbrev no_events : String → Bool
no_events c = str_eq c "events"

purged_ann : (purge (db healthy) ann counts).0 ≡ done report
unfolding purge
purged_ann = refl

again : (purge (db healthy) ann (purge (db healthy) ann counts).1).0 ≡ user_not_found
unfolding purge
again = refl

lost_events : (purge (db no_events) ann counts).0 ≡ failed (new "lost")
unfolding purge
lost_events = refl

self : (self_purge (db healthy) true (some ann) counts).0 ≡ served report
unfolding self_purge purge
self = refl

purge-IsErased_example :
    (sum_owned owned every_collection ann (purge (db healthy) ann counts).1 ≡ 0)
    × (17 ≡ sum_owned owned every_collection ann counts)
    × ((v : Text)
        → v ≢ ann
        → sum_owned owned every_collection v (purge (db healthy) ann counts).1
          ≡ sum_owned owned every_collection v counts)
purge-IsErased_example =
    purge-IsErased (db healthy) owned (db-IsDb healthy) ann counts report purged_ann

purge_failed_example :
    (owned (purge (db no_events) ann counts).1 "users" "_id" ann ≡ owned counts "users" "_id" ann)
    ⊎ (sum_owned owned user_scoped_collections ann (purge (db no_events) ann counts).1 ≡ 0)
purge_failed_example =
    purge_failed (db no_events) owned (db-IsDb no_events) ann counts (new "lost") lost_events

-- Ann has a budget, by her `userId`, and the purge leaves it.
purge-spares_budgets_example : (purge (db healthy) ann counts).1 "user_budgets" "userId" ann ≡ 2
purge-spares_budgets_example =
    purge-spares_budgets (db healthy) owned (db-IsDb healthy) ann counts refl "userId" ann

-- The world is the list of the deleted files.
abbrev files : Db (Doc ℕ) (List Text)
files = record {
  count_users = λ u w. (ok 1, w);
  delete_many = λ c f u w. (ok 2, w);
  delete_user = λ u w. (ok 1, w);
  find_ids = λ c f u w. (ok (codes "a" ∷ codes "b" ∷ []), w);
  find_file = λ b n w. if text_eq n (codes "a-png") then (ok none, w) else (ok (some n), w);
  find_files = λ b n w. (ok (n ∷ []), w);
  delete_file = λ b i w. (none, i ∷ w);
  has_detection_runs = false;
  find = λ c f u w. (ok [], w);
  find_one = λ c u w. (ok none, w);
  now = λ w. 7;
}

images_go :
    delete_all_by_user files "wardrobe_items" (delete_item_images files) ann []
    ≡ (ok 2, codes "b-png" ∷ codes "b" ∷ codes "a" ∷ [])
unfolding delete_all_by_user delete_item_images
images_go = refl

-- Documents by collection: those that are found by `_id`, and the others.
abbrev Store : Type 0
Store = (String → Option (Doc ℕ)) × (String → List (Doc ℕ))

abbrev stored : Store → String → String → Text → List (Doc ℕ)
stored w c f u = if str_eq f "_id" then to_list (w.0 c) else w.1 c

abbrev store : Db (Doc ℕ) Store
store = record {
  count_users = λ u w. (ok 1, w);
  delete_many = λ c f u w. (ok 0, w);
  delete_user = λ u w. (ok 1, w);
  find_ids = λ c f u w. (ok [], w);
  find_file = λ b n w. (ok none, w);
  find_files = λ b n w. (ok [], w);
  delete_file = λ b i w. (none, w);
  has_detection_runs = false;
  find = λ c f u w. (ok (stored w c f u), w);
  find_one = λ c u w. (ok (w.0 c), w);
  now = λ w. 7;
}

result_injective : {A : Type 0} {a b : A} → ◌≡◌ {A = Result A} (ok a) (ok b) → a ≡ b
result_injective h = cc

store-IsReader : IsReader store stored
store-IsReader = record {
  find_ok = λ c f u w docs h. sym (result_injective h);
  find_same = λ c f u w. refl;
  find_one_ok = λ c u w found h. ap to_list (sym (result_injective h));
  find_one_same = λ c u w. refl;
}

abbrev documents : Store
documents = (
  λ c. some (("_id", 1) ∷ ("refreshTokenHash", 9) ∷ []),
  λ c. if str_eq c "events" then [] else (("n", 4) ∷ []) ∷ [],
)

abbrev export_of : ExportData ℕ
export_of = record {
  user_id = ann;
  generated_at = 7;
  user = ("_id", 1) ∷ [];
  arrays =
      (("wardrobe_items", (("n", 4) ∷ []) ∷ [])
        ∷ ("outfits", (("n", 4) ∷ []) ∷ [])
        ∷ ("outfit_jobs", (("n", 4) ∷ []) ∷ [])
        ∷ ("moodboards", (("n", 4) ∷ []) ∷ [])
        ∷ ("outfit_feedback", (("n", 4) ∷ []) ∷ [])
        ∷ ("llm_calls", (("n", 4) ∷ []) ∷ [])
        ∷ ("detection_runs", (("n", 4) ∷ []) ∷ [])
        ∷ []);
  user_budget = some (("_id", 1) ∷ ("refreshTokenHash", 9) ∷ []);
}

exported_ann : (export store ann documents).0 ≡ done export_of
unfolding export
exported_ann = refl

export-IsComplete_example :
    All (λ e. exported export_of e.0 ≡ stored documents e.0 e.1 ann) user_scoped_collections
    × (has_key "refreshTokenHash" export_of.user ≡ false)
export-IsComplete_example =
    export-IsComplete store stored store-IsReader ann documents export_of exported_ann

-- An admin's erasure, over a list of audit rows.
abbrev handler : Handler (List AuditEntry)
handler = record {
  user_purger = some (λ id w. (purged report, w));
  email_of = λ id w. (codes "boss@mootd", w);
  append_audit = λ e w. (none, e ∷ w);
}

abbrev request : Request
request = record {
  is_delete = true;
  roles = "admin" ∷ [];
  mfa_verified = true;
  admin_id = "ad_1";
  notes = some (codes "ticket 12");
}

answered : (purge_user handler request (codes " ann ") []).0 ≡ Answer.served report
unfolding purge_user mootd.Permissions.role_permissions
answered = refl

purge_user_served_example :
    (is_gated request ≡ true)
    × (text_eq (trim_space (codes " ann ")) [] ≡ false)
    × ((purger : Text → List AuditEntry → Purged × List AuditEntry) × (notes : Text)
        × (handler.user_purger ≡ some purger)
        × (request.notes ≡ some notes)
        × (text_eq (trim_space notes) [] ≡ false)
        × ((purger (trim_space (codes " ann ")) []).0 ≡ purged report)
        × ((purge_user handler request (codes " ann ") []).1
            ≡ (audited handler request
                (trim_space (codes " ann "))
                notes
                report
                (purger (trim_space (codes " ann ")) []).1).1))
purge_user_served_example = purge_user_served handler request (codes " ann ") [] report answered
