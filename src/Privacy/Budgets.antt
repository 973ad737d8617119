-- ===== src/Privacy/Budgets.antt =====
-- backend/internal/privacy/service.go, Purge, and the collection user_budgets, whose rows
-- admin/budgets.go stores by the field `userId`, under an `_id` of their own.
use mootd.Prelude.{
  Bool, true, not, ◌&&◌, ◌||◌, List, [], ◌∷◌, ◌≡◌, refl, sym, ap, ◌∙◌, subst, arith, inl, inr,
  String, str_eq, eq_iff, Text, Bool-cases, Result-cases,
}
use mootd.Privacy.{
  Db, PurgeReport, Outcome, done, user_not_found, user_id_required, failed, counted, purge,
  purge_all, purge_record, purge_collection, user_scoped_collections,
}
use mootd.Privacy.Blobs.{Owned, IsDb, is_keyed, purge_collection-IsEraser}
use mootd.Privacy.Erased.{keyed, purge_split}

-- `c` is listed with the field `f` alone.
abbrev listed_as : String → String → List (String × String) → Bool
listed_as c f [] = true
listed_as c f ((d, g) ∷ cs) = (not (str_eq d c) || str_eq g f) && listed_as c f cs

module _ {D W : Type 0} (db : Db D W) (owned : Owned W) (laws : IsDb db owned) where
  -- The rows of `user_budgets`, counted by any field.
  abbrev IsSame : W → W → Type 0
  IsSame w w' = (f : String) (v : Text) → owned w' "user_budgets" f v ≡ owned w "user_budgets" f v

  collection-IsSame :
      (d g : String) (u : Text) (w : W)
      → is_keyed d g ≡ true
      → (not (str_eq d "user_budgets") || str_eq g "_id") ≡ true
      → owned w "user_budgets" "_id" u ≡ 0
      → IsSame w (purge_collection db d g u w).1
  unfolding purge_collection
  collection-IsSame d g u w k l z f v = elim (Bool-cases (str_eq d "user_budgets")) [
    | inr e ↦
        (purge_collection-IsEraser db owned laws d g k).apart u w "user_budgets" f v
          (λ p. ground (arith, e, (eq_iff d "user_budgets").1 p))
    | inl e ↦
        let column = (eq_iff g "_id").0 (ground (arith, e, l)) in
        subst
          (λ x.
            owned (purge_collection db x g u w).1 "user_budgets" f v ≡ owned w "user_budgets" f v)
          (sym ((eq_iff d "user_budgets").0 e))
          (laws.many_none "user_budgets" g u w
            (subst (λ x. owned w "user_budgets" x u ≡ 0) (sym column) z) f v)
  ]

  all-IsSame :
      (cs : List (String × String)) (u : Text) (r : PurgeReport) (w : W)
      → keyed cs ≡ true
      → listed_as "user_budgets" "_id" cs ≡ true
      → owned w "user_budgets" "_id" u ≡ 0
      → IsSame w (purge_all db cs u r w).1
  unfolding purge_all
  all-IsSame [] u r w k l z f v = refl
  all-IsSame ((d, g) ∷ cs) u r w k l z f v =
      let w1 = (purge_collection db d g u w).1 in
      let same = collection-IsSame d g u w (ground arith) (ground arith) z in
      elim (Result-cases (purge_collection db d g u w).0) [
        | inr (x, e) ↦ rw (e, purge_all) (same f v)
        | inl (n, e) ↦
            rw (e, purge_all)
              (all-IsSame cs u (counted d n r) w1 (ground arith) (ground arith) (same "_id" u ∙ z) f
                  v
                ∙ same f v)
      ]

  record-IsSame :
      (u : Text) (out : Outcome PurgeReport × W) → IsSame out.1 (purge_record db u out).1
  record-IsSame u (done r, w) f v = elim (Result-cases (db.delete_user u w).0) [
    | inl (n, e) ↦ rw (e, purge_record) (laws.user.apart u w "user_budgets" f v (λ p. cc))
    | inr (x, e) ↦ rw (e, purge_record) (laws.user.apart u w "user_budgets" f v (λ p. cc))
  ]
  record-IsSame u (user_not_found, w) f v = refl
  record-IsSame u (user_id_required, w) f v = refl
  record-IsSame u (failed e, w) f v = refl

  -- If no row of `user_budgets` has the user's id as its `_id`, as the rows that admin/budgets.go stores
  -- have not, then a purge of the user, however it ends, leaves in `user_budgets` as many rows as there
  -- were, by each value of each field: the user's own row, by its `userId`, too.
  pub purge-spares_budgets :
      (u : Text) (w : W)
      → owned w "user_budgets" "_id" u ≡ 0
      → (f : String) (v : Text)
      → owned (purge db u w).1 "user_budgets" f v ≡ owned w "user_budgets" f v
  purge-spares_budgets u w z f v = elim (purge_split db owned laws u w) [
    | inr (same, never) ↦ same "user_budgets" f v
    | inl (r, t, e) ↦
        let w1 = (db.count_users u w).1 in
        let out = purge_all db user_scoped_collections u r w1 in
        ap (λ o. owned o.1 "user_budgets" f v) e
        ∙ record-IsSame u out f v
        ∙ all-IsSame user_scoped_collections u r w1 refl refl
            (laws.count_same u w "user_budgets" "_id" u ∙ z) f v
        ∙ laws.count_same u w "user_budgets" f v
  ]
