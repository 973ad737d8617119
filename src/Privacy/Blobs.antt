-- ===== src/Privacy/Blobs.antt =====
-- The repositories' DeleteAllByUser erases the documents as DeleteMany does.
use mootd.Prelude.{
  ℕ, Bool, true, not, ◌&&◌, ◌||◌, none, some, List, [], ◌∷◌, ◌≡◌, ◌≢◌, refl, ap, ◌∙◌, ◌⊎◌, arith,
  inl, inr, String, str_eq, eq_iff, Result, ok, err, Text, Bool-cases, Result-cases, subst, sym,
  codes, ◌++◌,
}
use mootd.Privacy.{
  Db, wrap_err, delete_all_by_user, delete_each, delete_files, delete_grid_fs_by_name,
  delete_item_images, delete_board_image, delete_run_inputs, purge_collection, blob_purgers,
}

-- How many documents of a collection have a value in a field.
abbrev pub Owned : Type 0 → Type 0
Owned W = W → String → String → Text → ℕ

-- A call that deletes the documents of one collection whose field has the given value, and returns how
-- many; a failed call may have deleted some of them.
pub record IsEraser {W : Type 0} (owned : Owned W) (c f : String) (g : Text → W → Result ℕ × W)
    : Type 0 where
  pub erased :
      (u : Text) (w : W) (n : ℕ)
      → (g u w).0 ≡ ok n
      → (n ≡ owned w c f u) × (owned (g u w).1 c f u ≡ 0)
  pub apart :
      (u : Text) (w : W) (c' f' : String) (v : Text)
      → c ≢ c'
      → owned (g u w).1 c' f' v ≡ owned w c' f' v
  pub others : (u : Text) (w : W) (v : Text) → v ≢ u → owned (g u w).1 c f v ≡ owned w c f v

-- The files of a bucket are in no collection of the list; `_id` is unique, so that deleting one user by it deletes all that match.
pub record IsDb {D W : Type 0} (db : Db D W) (owned : Owned W) : Type 0 where
  pub count_ok :
      (u : Text) (w : W) (n : ℕ) → (db.count_users u w).0 ≡ ok n → n ≡ owned w "users" "_id" u
  pub count_same :
      (u : Text) (w : W) (c f : String) (v : Text)
      → owned (db.count_users u w).1 c f v ≡ owned w c f v
  pub many : (c f : String) → IsEraser owned c f (db.delete_many c f)
  pub user : IsEraser owned "users" "_id" db.delete_user
  -- A DeleteMany whose filter no document matches deletes none.
  pub many_none :
      (c f : String) (u : Text) (w : W)
      → owned w c f u ≡ 0
      → (f' : String) (v : Text) → owned (db.delete_many c f u w).1 c f' v ≡ owned w c f' v
  pub ids_same : (c f : String) (u : Text) (w : W) → owned (db.find_ids c f u w).1 ≡ owned w
  pub file_same : (b : String) (n : Text) (w : W) → owned (db.find_file b n w).1 ≡ owned w
  pub files_same : (b : String) (n : Text) (w : W) → owned (db.find_files b n w).1 ≡ owned w
  pub deleted_same : (b : String) (i : Text) (w : W) → owned (db.delete_file b i w).1 ≡ owned w

wrap_err_ok :
    {A : Type 0} (name : String) (r : Result A) (a : A) → wrap_err name r ≡ ok a → r ≡ ok a
wrap_err_ok name (ok b) a h = h
wrap_err_ok name (err e) a h = cc

-- A collection that has a purger of its own has the field `userId`.
abbrev pub is_keyed : String → String → Bool
is_keyed c f =
    not (str_eq c "wardrobe_items" || (str_eq c "moodboards" || str_eq c "detection_runs"))
    || str_eq f "userId"

module _ {D W : Type 0} (db : Db D W) (owned : Owned W) (laws : IsDb db owned) where
  by_name_same :
      (b : String) (n : Text) (w : W) → owned (delete_grid_fs_by_name db b n w).1 ≡ owned w
  by_name_same b n w = elim (Result-cases (db.find_file b n w).0) [
    | inr (x, e) ↦ rw (e, delete_grid_fs_by_name) (laws.file_same b n w)
    | inl (none, e) ↦ rw (e, delete_grid_fs_by_name) (laws.file_same b n w)
    | inl (some i, e) ↦
        rw (e, delete_grid_fs_by_name)
          (laws.deleted_same b i (db.find_file b n w).1 ∙ laws.file_same b n w)
  ]

  files_same : (b : String) (ids : List Text) (w : W) → owned (delete_files db b ids w) ≡ owned w
  files_same b [] w = refl
  files_same b (i ∷ ids) w = files_same b ids (db.delete_file b i w).1 ∙ laws.deleted_same b i w

  Keeps : (Text → W → W) → Type 0
  Keeps images = (id : Text) (w : W) → owned (images id w) ≡ owned w

  item_images-Keeps : Keeps (delete_item_images db)
  unfolding delete_item_images Keeps
  item_images-Keeps id w =
      by_name_same "wardrobe_items" (id ++ codes "-png") _ ∙ by_name_same "wardrobe_items" id w

  board_image-Keeps : Keeps (delete_board_image db)
  unfolding delete_board_image Keeps
  board_image-Keeps id w = by_name_same "moodboards" (codes "moodboard:" ++ id) w

  run_inputs-Keeps : Keeps (delete_run_inputs db)
  unfolding delete_run_inputs Keeps
  run_inputs-Keeps id w = elim (Result-cases (db.find_files "detection_runs" id w).0) [
    | inr (x, e) ↦ rw (e, delete_run_inputs) (laws.files_same "detection_runs" id w)
    | inl (ids, e) ↦
        rw (e, delete_run_inputs)
          (files_same "detection_runs" ids _ ∙ laws.files_same "detection_runs" id w)
  ]

  each_same :
      (images : Text → W → W)
      → Keeps images
      → (ids : List Text) (w : W) → owned (delete_each db images ids w) ≡ owned w
  unfolding Keeps
  each_same images k [] w = refl
  each_same images k (i ∷ ids) w = each_same images k ids (images i w) ∙ k i w

  -- An eraser in a world with the same counts.
  after_same :
      (c f : String) (g : Text → W → Result ℕ × W) (prepare : Text → W → W)
      → ((u : Text) (w : W) → owned (prepare u w) ≡ owned w)
      → IsEraser owned c f g
      → IsEraser owned c f (λ u w. g u (prepare u w))
  after_same c f g prepare same e = record {
    erased = λ u w n h.
        let (count, zero) = e.erased u (prepare u w) n h in
        (count ∙ ap (λ o. o c f u) (same u w), zero);
    apart = λ u w c' f' v h. e.apart u (prepare u w) c' f' v h ∙ ap (λ o. o c' f' v) (same u w);
    others = λ u w v h. e.others u (prepare u w) v h ∙ ap (λ o. o c f v) (same u w);
  }

  delete_all-IsEraser :
      (c : String) (images : Text → W → W)
      → Keeps images
      → IsEraser owned c "userId" (delete_all_by_user db c images)
  unfolding delete_all_by_user
  delete_all-IsEraser c images k = record {
    erased = λ u w n. elim (Result-cases (db.find_ids c "userId" u w).0) [
      | inr (x, e) ↦ rw (e, delete_all_by_user) (λ h. cc)
      | inl (ids, e) ↦
          rw (e, delete_all_by_user)
            ((after_same c "userId" (db.delete_many c "userId") (before c images ids)
                (before_same c images k ids) (laws.many c "userId")).erased
              u w n)
    ];
    apart = λ u w c' f' v h. elim (Result-cases (db.find_ids c "userId" u w).0) [
      | inr (x, e) ↦ rw (e, delete_all_by_user) (ap (λ o. o c' f' v) (laws.ids_same c "userId" u w))
      | inl (ids, e) ↦
          rw (e, delete_all_by_user)
            ((after_same c "userId" (db.delete_many c "userId") (before c images ids)
                (before_same c images k ids) (laws.many c "userId")).apart
              u w c' f' v h)
    ];
    others = λ u w v h. elim (Result-cases (db.find_ids c "userId" u w).0) [
      | inr (x, e) ↦
          rw (e, delete_all_by_user) (ap (λ o. o c "userId" v) (laws.ids_same c "userId" u w))
      | inl (ids, e) ↦
          rw (e, delete_all_by_user)
            ((after_same c "userId" (db.delete_many c "userId") (before c images ids)
                (before_same c images k ids) (laws.many c "userId")).others
              u w v h)
    ];
  }
    where
      before : String → (Text → W → W) → List Text → Text → W → W
      before c images ids u w = delete_each db images ids (db.find_ids c "userId" u w).1

      before_same :
          (c : String) (images : Text → W → W)
          → Keeps images
          → (ids : List Text) (u : Text) (w : W) → owned (before c images ids u w) ≡ owned w
      before_same c images k ids u w =
          each_same images k ids (db.find_ids c "userId" u w).1 ∙ laws.ids_same c "userId" u w

  wrapped :
      (c f : String) (g : Text → W → Result ℕ × W)
      → IsEraser owned c f g
      → IsEraser owned c f (λ u w. (wrap_err c (g u w).0, (g u w).1))
  wrapped c f g e = record {
    erased = λ u w n h. e.erased u w n (wrap_err_ok c (g u w).0 n h);
    apart = e.apart;
    others = e.others;
  }

  by_user :
      (c f : String) (images : Text → W → W)
      → Keeps images
      → str_eq f "userId" ≡ true
      → IsEraser owned c f (delete_all_by_user db c images)
  by_user c f images k e =
      subst (λ x. IsEraser owned c x (delete_all_by_user db c images))
        (sym ((eq_iff f "userId").0 e)) (delete_all-IsEraser c images k)

  blob_purgers-IsEraser :
      (c f : String)
      → is_keyed c f ≡ true
      → (blob_purgers db c ≡ none)
        ⊎ ((g : Text → W → Result ℕ × W) × (blob_purgers db c ≡ some g) × IsEraser owned c f g)
  blob_purgers-IsEraser c f k = elim (Bool-cases (str_eq c "wardrobe_items")) [
    | inl e ↦
        inr (
          _,
          rw e refl,
          by_user c f (delete_item_images db) item_images-Keeps (ground (arith, e, k)),
        )
    | inr e ↦ elim (Bool-cases (str_eq c "moodboards")) [
      | inl m ↦ inr (
        _,
        rw (e, m) refl,
        by_user c f (delete_board_image db) board_image-Keeps (ground (arith, e, m, k)),
      )
      | inr m ↦ elim (Bool-cases (str_eq c "detection_runs" && db.has_detection_runs)) [
        | inl d ↦ inr (
          _,
          rw (e, m, d) refl,
          by_user c f (delete_run_inputs db) run_inputs-Keeps (ground (arith, e, m, d, k)),
        )
        | inr d ↦ inl (rw (e, m, d) refl)
      ]
    ]
  ]

  pub purge_collection-IsEraser :
      (c f : String) → is_keyed c f ≡ true → IsEraser owned c f (purge_collection db c f)
  unfolding purge_collection
  purge_collection-IsEraser c f k = elim (blob_purgers-IsEraser c f k) [
    | inl e ↦ rw (e, purge_collection) (laws.many c f)
    | inr (g, e, law) ↦ rw (e, purge_collection) (wrapped c f g law)
  ]
