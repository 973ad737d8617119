-- ===== src/Privacy/Purges.antt =====
-- backend/internal/privacy/service.go, Purge as a whole.
use mootd.Prelude.{
  ℕ, ◌+◌, true, List, ◌∷◌, ◌≡◌, ◌≢◌, refl, sym, ◌∙◌, ap, arith, ◌⊎◌, inl, inr, String, ok, Error,
  Text, Result-cases,
}
use mootd.Privacy.{
  Db, PurgeReport, Outcome, done, user_not_found, user_id_required, failed, user_scoped_collections,
  purge, purge_all, purge_record,
}
use mootd.Privacy.Erased.{
  sum_owned, every_collection, sum-apart, purge_all_apart, purge_all_others, purge_all_done,
  record_done, purge_split, sum-count, total-counted, lacks, distinct, keyed,
}
use mootd.Privacy.Blobs.{Owned, IsDb}

module _ {D W : Type 0} (db : Db D W) (owned : Owned W) (laws : IsDb db owned) where
  module _ (cs : List (String × String)) (q : distinct cs ≡ true) (k : keyed cs ≡ true)
      (l : lacks "users" cs ≡ true) where
    abbrev after : Text → PurgeReport → W → W
    after u r w = (db.delete_user u (purge_all db cs u r w).1).1

    loop_erases :
        (u : Text) (r r1 : PurgeReport) (w : W) (n : ℕ)
        → r.total ≡ 0
        → (purge_all db cs u r w).0 ≡ done r1
        → (db.delete_user u (purge_all db cs u r w).1).0 ≡ ok n
        → (sum_owned owned (("users", "_id") ∷ cs) u (after u r w) ≡ 0)
          × (r1.total + n ≡ sum_owned owned (("users", "_id") ∷ cs) u w)
    loop_erases u r r1 w n z looped deleted =
        let out = purge_all db cs u r w in
        let (zero, total) = purge_all_done db owned laws cs u r r1 w q k looped in
        let (count, gone) = laws.user.erased u out.1 n deleted in
        (
          omega (arith, gone, zero, sum-apart owned laws.user cs u u out.1 l),
          omega
              (arith, z, total, count, purge_all_apart db owned laws cs u r w "users" "_id" u l k),
        )

    loop_spares :
        (u v : Text) (r : PurgeReport) (w : W)
        → v ≢ u
        → sum_owned owned (("users", "_id") ∷ cs) v (after u r w)
          ≡ sum_owned owned (("users", "_id") ∷ cs) v w
    loop_spares u v r w h =
        let out = purge_all db cs u r w in
        omega (
          arith,
          laws.user.others u out.1 v h,
          sum-apart owned laws.user cs u v out.1 l,
          purge_all_others db owned laws cs u r w v h q k,
          purge_all_apart db owned laws cs u r w "users" "_id" v l k,
        )

  -- After a purge that returns a report, no document is left in `users` or a listed collection whose listed
  -- field (`userId`, for `users` and `user_budgets` the `_id`) is the user's id; the report's total is the
  -- number of such documents that were there; and no such document of another id is gone.
  pub purge-IsErased :
      (u : Text) (w : W) (report : PurgeReport)
      → (purge db u w).0 ≡ done report
      → (sum_owned owned every_collection u (purge db u w).1 ≡ 0)
        × (report.total ≡ sum_owned owned every_collection u w)
        × ((v : Text)
            → v ≢ u
            → sum_owned owned every_collection v (purge db u w).1
              ≡ sum_owned owned every_collection v w)
  purge-IsErased u w report h = elim (purge_split db owned laws u w) [
    | inr (same, never) ↦ elim (never report h) [ ]
    | inl (r, z, e) ↦
        let cs = user_scoped_collections in
        let w1 = (db.count_users u w).1 in
        let out = purge_all db cs u r w1 in
        let (r1, n, looped, deleted, rep, world) =
          record_done db owned laws u out report (ap (λ o. o.0) (sym e) ∙ h) in
        let (zero, total) = loop_erases cs refl refl refl u r r1 w1 n z looped deleted in
        let end : (purge db u w).1 ≡ (db.delete_user u out.1).1 = ap (λ o. o.1) e ∙ world in
        (
          ap (λ x. sum_owned owned every_collection u x) end ∙ zero,
          ap (λ x. x.total) rep
              ∙ total-counted "users" n r1
              ∙ total
              ∙ sum-count db owned laws every_collection u u w,
          λ v d.
              ap (λ x. sum_owned owned every_collection v x) end
              ∙ loop_spares cs refl refl refl u v r w1 d
              ∙ sum-count db owned laws every_collection u v w,
        )
  ]

  record_failed :
      (u : Text) (out : Outcome PurgeReport × W) (x : Error)
      → (purge_record db u out).0 ≡ failed x
      → ((purge_record db u out).1 ≡ out.1)
        ⊎ ((r1 : PurgeReport) × (out.0 ≡ done r1)
            × ((purge_record db u out).1 ≡ (db.delete_user u out.1).1))
  record_failed u (done r, w) x = elim (Result-cases (db.delete_user u w).0) [
    | inl (n, e) ↦ rw (e, purge_record) (λ h. cc)
    | inr (y, e) ↦ rw (e, purge_record) (λ h. inr (r, refl, refl))
  ]
  record_failed u (user_not_found, w) x = λ h. cc
  record_failed u (user_id_required, w) x = λ h. cc
  record_failed u (failed e, w) x = λ h. inl refl

  -- When a purge fails, either the user's record is still there, so that the user can log in and try
  -- again, or only the last step failed and no document is left in a listed collection whose listed field
  -- (for `user_budgets` the `_id`) is the user's id.
  pub purge_failed :
      (u : Text) (w : W) (x : Error)
      → (purge db u w).0 ≡ failed x
      → (owned (purge db u w).1 "users" "_id" u ≡ owned w "users" "_id" u)
        ⊎ (sum_owned owned user_scoped_collections u (purge db u w).1 ≡ 0)
  purge_failed u w x h = elim (purge_split db owned laws u w) [
    | inr (same, never) ↦ inl (same "users" "_id" u)
    | inl (r, z, e) ↦
        let cs = user_scoped_collections in
        let w1 = (db.count_users u w).1 in
        let out = purge_all db cs u r w1 in
        elim (record_failed u out x (ap (λ o. o.0) (sym e) ∙ h)) [
          | inl end ↦ inl (
              ap (λ o. owned o.1 "users" "_id" u) e
              ∙ ap (λ y. owned y "users" "_id" u) end
              ∙ purge_all_apart db owned laws cs u r w1 "users" "_id" u refl refl
              ∙ laws.count_same u w "users" "_id" u)
          | inr (r1, looped, end) ↦ inr (
              ap (λ o. sum_owned owned cs u o.1) e
              ∙ ap (λ y. sum_owned owned cs u y) end
              ∙ sum-apart owned laws.user cs u u out.1 refl
              ∙ (purge_all_done db owned laws cs u r r1 w1 refl refl looped).0)
        ]
  ]
