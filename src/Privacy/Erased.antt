-- ===== src/Privacy/Erased.antt =====
-- backend/internal/privacy/service.go, Purge: what is left of a user, what stays of the others, and what
-- a failure leaves behind.
use mootd.Prelude.{
  ℕ, ◌+◌, Bool, true, not, ◌&&◌, List, [], ◌∷◌, ◌≡◌, ◌≢◌, refl, sym, ◌∙◌, arith, ◌⊎◌, inl, inr,
  String, str_eq, eq_iff, ◌==◌, Result, ok, Text, text_eq, Bool-cases, Result-cases,
}
use mootd.Privacy.Blobs.{Owned, IsEraser, IsDb, is_keyed, purge_collection-IsEraser}
use mootd.Privacy.{
  Db, PurgeReport, Outcome, done, user_not_found, user_id_required, failed, user_scoped_collections,
  counted, purge, purge_all, purge_collection, purge_record,
}

-- No collection of the list is `c`, by name.
abbrev pub lacks : String → List (String × String) → Bool
lacks c [] = true
lacks c ((d, f) ∷ cs) = not (str_eq d c) && lacks c cs

-- A collection that has a purger of its own has the field `userId`.
abbrev pub keyed : List (String × String) → Bool
keyed [] = true
keyed ((c, f) ∷ cs) = is_keyed c f && keyed cs

abbrev pub distinct : List (String × String) → Bool
distinct [] = true
distinct ((c, f) ∷ cs) = lacks c cs && distinct cs

-- The user's documents in the listed collections.
abbrev pub sum_owned : {W : Type 0} → Owned W → List (String × String) → Text → W → ℕ
sum_owned owned [] u w = 0
sum_owned owned ((c, f) ∷ cs) u w = owned w c f u + sum_owned owned cs u w

pub total-counted :
    (name : String) (n : ℕ) (r : PurgeReport) → (counted name n r).total ≡ r.total + n
total-counted name n r = ground arith

pub lacks_head :
    (c d f : String) (cs : List (String × String)) → lacks c ((d, f) ∷ cs) ≡ true → d ≢ c
lacks_head c d f cs h e = ground (arith, (eq_iff d c).1 e)

pub lacks_tail :
    (c d f : String) (cs : List (String × String))
    → lacks c ((d, f) ∷ cs) ≡ true
    → lacks c cs ≡ true
lacks_tail c d f cs h = ground arith

module _ {W : Type 0} (owned : Owned W) {c f : String} {g : Text → W → Result ℕ × W} where
  pub sum-apart :
      IsEraser owned c f g
      → (cs : List (String × String)) (u v : Text) (w : W) → lacks c cs ≡ true
      → sum_owned owned cs v (g u w).1 ≡ sum_owned owned cs v w
  sum-apart e [] u v w h = refl
  sum-apart e ((d, f') ∷ cs) u v w h = omega (
    arith,
    e.apart u w d f' v (λ p. lacks_head c d f' cs h (sym p)),
    sum-apart e cs u v w (lacks_tail c d f' cs h),
  )

module _ {D W : Type 0} (db : Db D W) (owned : Owned W) (laws : IsDb db owned) where
  -- What the loop does not touch.
  pub purge_all_apart :
      (cs : List (String × String)) (u : Text) (r : PurgeReport) (w : W) (c f : String) (v : Text)
      → lacks c cs ≡ true
      → keyed cs ≡ true
      → owned (purge_all db cs u r w).1 c f v ≡ owned w c f v
  unfolding purge_all
  purge_all_apart [] u r w c f v h k = refl
  purge_all_apart ((d, g) ∷ cs) u r w c f v h k =
      let w1 = (purge_collection db d g u w).1 in
      let kept =
        (purge_collection-IsEraser db owned laws d g (ground arith)).apart u w c f v
          (lacks_head c d g cs h) in
      elim (Result-cases (purge_collection db d g u w).0) [
        | inl (n, e) ↦
            rw (e, purge_all)
              (purge_all_apart cs u (counted d n r) w1 c f v (lacks_tail c d g cs h) (ground arith)
                ∙ kept)
        | inr (x, e) ↦ rw (e, purge_all) kept
      ]

  pub purge_all_others :
      (cs : List (String × String)) (u : Text) (r : PurgeReport) (w : W) (v : Text)
      → v ≢ u
      → distinct cs ≡ true
      → keyed cs ≡ true
      → sum_owned owned cs v (purge_all db cs u r w).1 ≡ sum_owned owned cs v w
  unfolding purge_all
  purge_all_others [] u r w v h q k = refl
  purge_all_others ((d, g) ∷ cs) u r w v h q k =
      let w1 = (purge_collection db d g u w).1 in
      let eraser = purge_collection-IsEraser db owned laws d g (ground arith) in
      let k' : keyed cs ≡ true = ground arith in
      let fresh : lacks d cs ≡ true = ground arith in
      elim (Result-cases (purge_collection db d g u w).0) [
        | inl (n, e) ↦
            rw (e, purge_all)
              (omega (
                arith,
                purge_all_apart cs u (counted d n r) w1 d g v fresh k',
                eraser.others u w v h,
                purge_all_others cs u (counted d n r) w1 v h (ground arith) k',
                sum-apart owned eraser cs u v w fresh,
              ))
        | inr (x, e) ↦
            rw (e, purge_all)
              (omega (arith, eraser.others u w v h, sum-apart owned eraser cs u v w fresh))
      ]

  pub purge_all_done :
      (cs : List (String × String)) (u : Text) (r r' : PurgeReport) (w : W)
      → distinct cs ≡ true
      → keyed cs ≡ true
      → (purge_all db cs u r w).0 ≡ done r'
      → (sum_owned owned cs u (purge_all db cs u r w).1 ≡ 0)
        × (r'.total ≡ r.total + sum_owned owned cs u w)
  unfolding purge_all
  purge_all_done [] u r r' w q k = λ h. (refl, ground arith)
  purge_all_done ((d, g) ∷ cs) u r r' w q k =
      let w1 = (purge_collection db d g u w).1 in
      let eraser = purge_collection-IsEraser db owned laws d g (ground arith) in
      let k' : keyed cs ≡ true = ground arith in
      let fresh : lacks d cs ≡ true = ground arith in
      elim (Result-cases (purge_collection db d g u w).0) [
        | inl (n, e) ↦
            rw (e, purge_all)
              (λ h.
                let (zero_after, total) =
                  purge_all_done cs u (counted d n r) r' w1 (ground arith) k' h in
                let (count, zero) = eraser.erased u w n e in
                (
                  omega (
                    arith,
                    purge_all_apart cs u (counted d n r) w1 d g u fresh k',
                    zero,
                    zero_after,
                  ),
                  omega (
                    arith,
                    total,
                    count,
                    total-counted d n r,
                    sum-apart owned eraser cs u u w fresh,
                  ),
                ))
        | inr (x, e) ↦ rw (e, purge_all) (λ h. cc)
      ]

-- Everything that the service erases.
abbrev pub every_collection : List (String × String)
every_collection = ("users", "_id") ∷ user_scoped_collections

module _ {D W : Type 0} (db : Db D W) (owned : Owned W) (laws : IsDb db owned) where
  pub record_done :
      (u : Text) (out : Outcome PurgeReport × W) (report : PurgeReport)
      → (purge_record db u out).0 ≡ done report
      → (r : PurgeReport) × (n : ℕ) × (out.0 ≡ done r)
        × ((db.delete_user u out.1).0 ≡ ok n)
        × (report ≡ counted "users" n r)
        × ((purge_record db u out).1 ≡ (db.delete_user u out.1).1)
  record_done u (done r, w) report = elim (Result-cases (db.delete_user u w).0) [
    | inl (n, e) ↦ rw (e, purge_record) (λ h. (r, n, refl, refl, cc, refl))
    | inr (x, e) ↦ rw (e, purge_record) (λ h. cc)
  ]
  record_done u (user_not_found, w) report = λ h. cc
  record_done u (user_id_required, w) report = λ h. cc
  record_done u (failed e, w) report = λ h. cc

  -- A purge either reaches its loop or changes nothing.
  pub purge_split :
      (u : Text) (w : W)
      → ((r : PurgeReport) × (r.total ≡ 0)
          × (purge db u w
              ≡ purge_record db u
                  (purge_all db user_scoped_collections u r (db.count_users u w).1)))
        ⊎ (((c f : String) (v : Text) → owned (purge db u w).1 c f v ≡ owned w c f v)
            × ((r : PurgeReport) → (purge db u w).0 ≢ done r))
  unfolding purge
  purge_split u w =
      let w1 = (db.count_users u w).1 in
      elim (Bool-cases (text_eq u [])) [
        | inl e ↦ rw e (inr ((λ c f v. refl), (λ r. cc)))
        | inr e ↦ rw e (elim (Result-cases (db.count_users u w).0) [
          | inr (x, f) ↦ rw f (inr ((λ c f v. laws.count_same u w c f v), (λ r. cc)))
          | inl (n, f) ↦ rw f (elim (Bool-cases (n == 0)) [
            | inl z ↦ rw z (inr ((λ c f v. laws.count_same u w c f v), (λ r. cc)))
            | inr z ↦ rw z (
                inl (
                  record { user_id = u; purged_at = db.now w1; collections = []; total = 0 },
                  refl,
                  refl,
                ))
          ])
        ])
      ]

  pub sum-count :
      (cs : List (String × String)) (u v : Text) (w : W)
      → sum_owned owned cs v (db.count_users u w).1 ≡ sum_owned owned cs v w
  sum-count [] u v w = refl
  sum-count ((c, f) ∷ cs) u v w = omega (arith, laws.count_same u w c f v, sum-count cs u v w)
