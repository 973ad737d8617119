-- ===== src/Privacy/Exported.antt =====
-- backend/internal/privacy/service.go, Export: what it holds of the collections that Purge erases.
use mootd.Prelude.{
  ℕ, Bool, true, false, Option, none, some, List, [], ◌∷◌, ◌≡◌, ◌≢◌, refl, sym, ◌∙◌, ap, subst,
  arith, inl, inr, String, str_eq, eq_refl, eq_iff, if◌then◌else◌, Result, ok, err, Text, text_eq,
  All, Result-cases, Bool-cases, Option-cases,
}
use mootd.Privacy.{
  Db, Outcome, done, user_not_found, user_id_required, failed, user_scoped_collections,
}
use mootd.Privacy.Erased.{lacks, distinct, lacks_head, lacks_tail}

-- A document, by its fields.
abbrev pub Doc : Type 0 → Type 0
Doc V = List (String × V)

-- delete(doc, key)
abbrev pub remove : {V : Type 0} → String → Doc V → Doc V
remove key [] = []
remove key ((k, v) ∷ doc) = if str_eq k key then remove key doc else (k, v) ∷ remove key doc

abbrev pub has_key : {V : Type 0} → String → Doc V → Bool
has_key key [] = false
has_key key ((k, v) ∷ doc) = if str_eq k key then true else has_key key doc

-- The arrays are those that are not empty, by the name of their collection.
pub record ExportData (V : Type 0) : Type 0 where
  pub user_id : Text
  pub generated_at : ℕ
  pub user : Doc V
  pub arrays : List (String × List (Doc V))
  pub user_budget : Option (Doc V)

abbrev pub loaders : List (String × String)
loaders =
    ("wardrobe_items", "userId")
    ∷ ("outfits", "userId")
    ∷ ("outfit_jobs", "userId")
    ∷ ("moodboards", "userId")
    ∷ ("outfit_feedback", "userId")
    ∷ ("events", "userId")
    ∷ ("llm_calls", "userId")
    ∷ ("detection_runs", "userId")
    ∷ []

module _ {V : Type 0} where
  -- What the export holds of a collection.
  abbrev pub array_of : String → List (String × List (Doc V)) → List (Doc V)
  array_of c [] = []
  array_of c ((d, docs) ∷ arrays) = if str_eq d c then docs else array_of c arrays

  abbrev pub add_array :
      String → List (Doc V) → List (String × List (Doc V)) → List (String × List (Doc V))
  add_array c [] arrays = arrays
  add_array c (d ∷ docs) arrays = (c, d ∷ docs) ∷ arrays

  abbrev pub to_list : Option (Doc V) → List (Doc V)
  to_list none = []
  to_list (some doc) = doc ∷ []

module _ {V W : Type 0} (db : Db (Doc V) W) where
  abbrev add_result :
      String
      → List (Doc V)
      → Result (List (String × List (Doc V)))
      → Result (List (String × List (Doc V)))
  add_result c docs (ok arrays) = ok (add_array c docs arrays)
  add_result c docs (err e) = err e

  unfoldable pub load_all :
      List (String × String) → Text → W → Result (List (String × List (Doc V))) × W
  load_all [] user_id w = (ok [], w)
  load_all ((name, field) ∷ ls) user_id w =
      let (r, w1) = db.find name field user_id w in
      elim r [
        | err e ↦ (err e, w1)
        | ok docs ↦ let (rest, w2) = load_all ls user_id w1 in (add_result name docs rest, w2)
      ]

  -- The rest of the export, once the user's document is read.
  unfoldable pub export_user : Text → ℕ → Doc V → W → Outcome (ExportData V) × W
  unfolding load_all
  export_user user_id at doc w =
      let (loaded, w1) = load_all loaders user_id w in
      elim loaded [
        | err e ↦ (failed e, w1)
        | ok arrays ↦
            let (budget, w2) = db.find_one "user_budgets" user_id w1 in
            elim budget [
              | err e ↦ (failed e, w2)
              | ok found ↦ (
                done (record {
                  user_id = user_id;
                  generated_at = at;
                  user = remove "refreshTokenHash" doc;
                  arrays = arrays;
                  user_budget = found;
                }),
                w2,
              )
            ]
      ]

  unfoldable pub export : Text → W → Outcome (ExportData V) × W
  unfolding export_user
  export user_id w =
      if text_eq user_id []
      then (user_id_required, w)
      else let (r, w1) = db.find_one "users" user_id w in
        elim r [
          | err e ↦ (failed e, w1)
          | ok none ↦ (user_not_found, w1)
          | ok (some doc) ↦ export_user user_id (db.now w) doc w1
        ]

-- Reads return what is stored, and change nothing of it; `_id` is unique.
pub record IsReader {V W : Type 0} (db : Db (Doc V) W)
    (stored : W → String → String → Text → List (Doc V)) : Type 0 where
  pub find_ok :
      (c f : String) (u : Text) (w : W) (docs : List (Doc V))
      → (db.find c f u w).0 ≡ ok docs
      → docs ≡ stored w c f u
  pub find_same : (c f : String) (u : Text) (w : W) → stored (db.find c f u w).1 ≡ stored w
  pub find_one_ok :
      (c : String) (u : Text) (w : W) (found : Option (Doc V))
      → (db.find_one c u w).0 ≡ ok found
      → to_list found ≡ stored w c "_id" u
  pub find_one_same : (c : String) (u : Text) (w : W) → stored (db.find_one c u w).1 ≡ stored w

ok_injective : {A : Type 0} {a b : A} → ◌≡◌ {A = Result A} (ok a) (ok b) → a ≡ b
ok_injective h = cc

All-lacks :
    (P Q : String × String → Type 0) (d : String)
    → ((c f : String) → c ≢ d → P (c, f) → Q (c, f))
    → (ls : List (String × String)) → lacks d ls ≡ true
    → All P ls
    → All Q ls
All-lacks P Q d step [] h all = tt
All-lacks P Q d step ((c, f) ∷ ls) h (p, all) =
    (step c f (lacks_head d c f ls h) p, All-lacks P Q d step ls (lacks_tail d c f ls h) all)

remove_absent : {V : Type 0} (key : String) (doc : Doc V) → has_key key (remove key doc) ≡ false
remove_absent key [] = refl
remove_absent key ((k, v) ∷ doc) = ground (arith, remove_absent key doc)

module _ {V : Type 0} where
  array_of-add_array :
      (c : String) (docs : List (Doc V)) (arrays : List (String × List (Doc V)))
      → array_of c arrays ≡ []
      → array_of c (add_array c docs arrays) ≡ docs
  array_of-add_array c [] arrays h = h
  array_of-add_array c (d ∷ docs) arrays h = rw (eq_refl c) refl

  array_of-add_array_ne :
      (c d : String) (docs : List (Doc V)) (arrays : List (String × List (Doc V)))
      → d ≢ c
      → array_of c (add_array d docs arrays) ≡ array_of c arrays
  array_of-add_array_ne c d [] arrays h = refl
  array_of-add_array_ne c d (x ∷ docs) arrays h = elim (Bool-cases (str_eq d c)) [
    | inl e ↦ elim (h ((eq_iff d c).0 e)) [ ]
    | inr e ↦ rw e refl
  ]

module _ {V W : Type 0} (db : Db (Doc V) W) (stored : W → String → String → Text → List (Doc V))
    (laws : IsReader db stored) where
  load_all-lacks :
      (c : String) (ls : List (String × String)) (u : Text) (w : W)
      (arrays : List (String × List (Doc V)))
      → lacks c ls ≡ true
      → (load_all db ls u w).0 ≡ ok arrays
      → array_of c arrays ≡ []
  unfolding load_all
  load_all-lacks c [] u w arrays l = λ h. ground arith
  load_all-lacks c ((d, f) ∷ ls) u w arrays l =
      let w1 = (db.find d f u w).1 in
      elim (Result-cases (db.find d f u w).0) [
        | inr (x, e) ↦ rw (e, load_all) (λ h. cc)
        | inl (docs, e) ↦
            rw (e, load_all)
              (elim (Result-cases (load_all db ls u w1).0) [
                | inr (x, q) ↦ rw q (λ h. cc)
                | inl (rest, q) ↦ rw q (λ h.
                    subst (λ a. array_of c a ≡ []) (ok_injective h)
                      (array_of-add_array_ne c d docs rest (lacks_head c d f ls l)
                        ∙ load_all-lacks c ls u w1 rest (lacks_tail c d f ls l) q))
              ])
      ]

  load_all_ok :
      (ls : List (String × String)) (u : Text) (w : W) (arrays : List (String × List (Doc V)))
      → distinct ls ≡ true
      → (load_all db ls u w).0 ≡ ok arrays
      → All (λ e. array_of e.0 arrays ≡ stored w e.0 e.1 u) ls
  unfolding load_all
  load_all_ok [] u w arrays q = λ h. tt
  load_all_ok ((d, f) ∷ ls) u w arrays q =
      let w1 = (db.find d f u w).1 in
      let fresh : lacks d ls ≡ true = ground arith in
      elim (Result-cases (db.find d f u w).0) [
        | inr (x, e) ↦ rw (e, load_all) (λ h. cc)
        | inl (docs, e) ↦
            rw (e, load_all)
              (elim (Result-cases (load_all db ls u w1).0) [
                | inr (x, p) ↦ rw p (λ h. cc)
                | inl (rest, p) ↦ rw p (λ h.
                    subst (λ a. All (λ y. array_of y.0 a ≡ stored w y.0 y.1 u) ((d, f) ∷ ls))
                      (ok_injective h)
                      (
                        array_of-add_array d docs rest (load_all-lacks d ls u w1 rest fresh p)
                            ∙ laws.find_ok d f u w docs e,
                        All-lacks (λ y. array_of y.0 rest ≡ stored w1 y.0 y.1 u)
                            (λ y. array_of y.0 (add_array d docs rest) ≡ stored w y.0 y.1 u) d
                            (λ c g ne same.
                              array_of-add_array_ne c d docs rest (λ s. ne (sym s))
                              ∙ same
                              ∙ ap (λ st. st c g u) (laws.find_same d f u w))
                            ls fresh (load_all_ok ls u w1 rest (ground arith) p),
                      ))
              ])
      ]

  load_all_same :
      (ls : List (String × String)) (u : Text) (w : W) → stored (load_all db ls u w).1 ≡ stored w
  unfolding load_all
  load_all_same [] u w = refl
  load_all_same ((d, f) ∷ ls) u w =
      let w1 = (db.find d f u w).1 in
      elim (Result-cases (db.find d f u w).0) [
        | inr (x, e) ↦ rw (e, load_all) (laws.find_same d f u w)
        | inl (docs, e) ↦ rw (e, load_all) (load_all_same ls u w1 ∙ laws.find_same d f u w)
      ]

-- What the export holds of a collection, the budget included.
abbrev pub exported : {V : Type 0} → ExportData V → String → List (Doc V)
exported x c = if str_eq c "user_budgets" then to_list x.user_budget else array_of c x.arrays

module _ {V W : Type 0} (db : Db (Doc V) W) (stored : W → String → String → Text → List (Doc V))
    (laws : IsReader db stored) where
  done_injective : {A : Type 0} {a b : A} → ◌≡◌ {A = Outcome A} (done a) (done b) → a ≡ b
  done_injective h = cc

  arrays_and_budget :
      (u : Text) (w w' : W) (arrays : List (String × List (Doc V))) (found : Option (Doc V))
      → stored w' ≡ stored w
      → (load_all db loaders u w').0 ≡ ok arrays
      → (db.find_one "user_budgets" u (load_all db loaders u w').1).0 ≡ ok found
      → All
          (λ e.
            (if str_eq e.0 "user_budgets" then to_list found else array_of e.0 arrays)
            ≡ stored w e.0 e.1 u)
          user_scoped_collections
  arrays_and_budget u w w' arrays found s e f =
      let (a, (b, (c, (d, (g, (h, (i, (j, _)))))))) =
        load_all_ok db stored laws loaders u w' arrays refl e in
      let budget =
        laws.find_one_ok "user_budgets" u (load_all db loaders u w').1 found f
        ∙ ap (λ st. st "user_budgets" "_id" u) (load_all_same db stored laws loaders u w') in
      rw (← s) (a, (b, (c, (g, (d, (h, (i, (j, (budget, tt)))))))))

  export_user-IsComplete :
      (u : Text) (at : ℕ) (doc : Doc V) (w w' : W) (x : ExportData V)
      → stored w' ≡ stored w
      → (export_user db u at doc w').0 ≡ done x
      → All (λ e. exported x e.0 ≡ stored w e.0 e.1 u) user_scoped_collections
        × (has_key "refreshTokenHash" x.user ≡ false)
  unfolding export_user
  export_user-IsComplete u at doc w w' x s =
      let w1 = (load_all db loaders u w').1 in
      elim (Result-cases (load_all db loaders u w').0) [
        | inr (y, e) ↦ rw e (λ h. cc)
        | inl (arrays, e) ↦ rw e (elim (Result-cases (db.find_one "user_budgets" u w1).0) [
          | inr (y, f) ↦ rw f (λ h. cc)
          | inl (found, f) ↦ rw f (λ h.
              subst
                (λ y.
                  All (λ e. exported y e.0 ≡ stored w e.0 e.1 u) user_scoped_collections
                  × (has_key "refreshTokenHash" y.user ≡ false))
                (done_injective h)
                (arrays_and_budget u w w' arrays found s e f, remove_absent "refreshTokenHash" doc))
        ])
      ]

  -- An export that succeeds holds exactly the stored documents of each collection that Purge erases whose
  -- listed field (`userId`, for `user_budgets` the `_id`) is the user's id, in their order, and the user's
  -- own document in it has no refreshTokenHash.
  pub export-IsComplete :
      (u : Text) (w : W) (x : ExportData V)
      → (export db u w).0 ≡ done x
      → All (λ e. exported x e.0 ≡ stored w e.0 e.1 u) user_scoped_collections
        × (has_key "refreshTokenHash" x.user ≡ false)
  unfolding export
  export-IsComplete u w x = elim (Bool-cases (text_eq u [])) [
    | inl e ↦ rw e (λ h. cc)
    | inr e ↦ rw e (elim (Result-cases (db.find_one "users" u w).0) [
      | inr (y, f) ↦ rw f (λ h. cc)
      | inl (found, f) ↦ rw f (elim (Option-cases found) [
        | inl g ↦ rw g (λ h. cc)
        | inr (doc, g) ↦ rw g (
            export_user-IsComplete u (db.now w) doc w (db.find_one "users" u w).1 x
              (laws.find_one_same "users" u w))
      ])
    ])
  ]
