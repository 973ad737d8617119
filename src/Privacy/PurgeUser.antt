-- ===== src/Privacy/PurgeUser.antt =====
-- backend/internal/admin/privacy.go, PurgeUser, over the adapter of app/app.go: the gates of an admin's
-- erasure and its audit row.
use mootd.Prelude.{
  Bool, true, false, ◌&&◌, Option, none, some, List, [], ◌≡◌, refl, subst, ◌⊎◌, inl, inr, arith,
  String, if◌then◌else◌, Error, Text, text_eq, trim_space, Bool-cases, Option-cases,
}
use mootd.Permissions.{has_permission}
use mootd.Privacy.{Db, Outcome, PurgeReport, done, user_not_found, user_id_required, failed, purge}

-- The errors of `purge`, of which ErrUserAlreadyPurged has its own constructor.
pub data Purged : Type 0 where
  purged : PurgeReport → Purged
  already_purged : Purged
  purge_error : Purged

abbrev pub adapted : Outcome PurgeReport → Purged
adapted (done report) = purged report
adapted user_not_found = already_purged
adapted user_id_required = purge_error
adapted (failed e) = purge_error

-- adminPurgerAdapter.Purge
unfoldable pub admin_purge : {D W : Type 0} → Db D W → Text → W → Purged × W
admin_purge db id w = let (r, w1) = purge db id w in (adapted r, w1)

pub record AuditEntry : Type 0 where
  pub admin_id : String
  pub admin_email : Text
  pub target_user_id : Text
  pub notes : Text
  pub report : PurgeReport

-- `decode` is the request's body, or `none` where it is no valid JSON; `roles` and `admin_id` come from
-- the context, where a missing value is [] and "".
pub record Request : Type 0 where
  pub is_delete : Bool
  pub roles : List String
  pub mfa_verified : Bool
  pub admin_id : String
  pub notes : Option Text

pub data Answer : Type 0 where
  method_not_allowed permission_denied mfa_required not_wired missing_user_id bad_body : Answer
  notes_required not_found server_error : Answer
  served : PurgeReport → Answer

-- The handler's collaborators: the purger, FindByID's e-mail address and AppendAudit.
pub record Handler (W : Type 0) : Type 0 where
  pub user_purger : Option (Text → W → Purged × W)
  pub email_of : String → W → Text × W
  pub append_audit : AuditEntry → W → Option Error × W

abbrev pub is_gated : Request → Bool
is_gated r = r.is_delete && (has_permission r.roles "users:purge" && r.mfa_verified)

Purged-cases :
    (p : Purged) → (p ≡ already_purged) ⊎ ((p ≡ purge_error) ⊎ ((r : PurgeReport) × (p ≡ purged r)))
Purged-cases (purged r) = inr (inr (r, refl))
Purged-cases already_purged = inl refl
Purged-cases purge_error = inr (inl refl)

served_injective : {a b : PurgeReport} → served a ≡ served b → a ≡ b
served_injective h = cc

module _ {W : Type 0} (h : Handler W) where
  abbrev pub audited : Request → Text → Text → PurgeReport → W → Answer × W
  audited r id notes report w =
      let (email, w1) = h.email_of r.admin_id w in
      let (_, w2) =
        h.append_audit
          (record {
            admin_id = r.admin_id;
            admin_email = email;
            target_user_id = id;
            notes = notes;
            report = report;
          })
          w1 in
      (served report, w2)

  abbrev pub purge_with : (Text → W → Purged × W) → Request → Text → W → Answer × W
  purge_with purger r id w = if text_eq id [] then (missing_user_id, w) else elim r.notes [
    | none ↦ (bad_body, w)
    | some notes ↦
        if text_eq (trim_space notes) []
        then (notes_required, w)
        else let (end, w1) = purger id w in
          elim end [
            | already_purged ↦ (not_found, w1)
            | purge_error ↦ (server_error, w1)
            | purged report ↦ audited r id notes report w1
          ]
  ]

  unfoldable pub purge_user : Request → Text → W → Answer × W
  unfolding trim_space has_permission
  purge_user r id w =
      if r.is_delete
      then (if has_permission r.roles "users:purge"
          then (if r.mfa_verified
              then (elim h.user_purger [
                | none ↦ (not_wired, w)
                | some purger ↦ purge_with purger r (trim_space id) w
              ])
              else (mfa_required, w))
          else (permission_denied, w))
      else (method_not_allowed, w)

  purge_with_served :
      (purger : Text → W → Purged × W) (r : Request) (id : Text) (w : W) (report : PurgeReport)
      → (purge_with purger r id w).0 ≡ served report
      → (text_eq id [] ≡ false)
        × ((notes : Text) × (r.notes ≡ some notes)
            × (text_eq (trim_space notes) [] ≡ false)
            × ((purger id w).0 ≡ purged report)
            × ((purge_with purger r id w).1 ≡ (audited r id notes report (purger id w).1).1))
  purge_with_served purger r id w report = elim (Bool-cases (text_eq id [])) [
    | inl e ↦ rw e (λ g. cc)
    | inr e ↦ rw e (elim (Option-cases r.notes) [
      | inl n ↦ rw n (λ g. cc)
      | inr (notes, n) ↦ rw n (elim (Bool-cases (text_eq (trim_space notes) [])) [
        | inl b ↦ rw b (λ g. cc)
        | inr b ↦ rw b (elim (Purged-cases (purger id w).0) [
          | inl q ↦ rw q (λ g. cc)
          | inr (inl q) ↦ rw q (λ g. cc)
          | inr (inr (rep, q)) ↦ rw q (λ g.
              subst
                (λ x.
                  (◌≡◌ {A = Bool} false false)
                  × ((m : Text) × (◌≡◌ {A = Option Text} (some notes) (some m))
                      × (text_eq (trim_space m) [] ≡ false)
                      × (◌≡◌ {A = Purged} (purged rep) (purged x))
                      × ((audited r id notes rep (purger id w).1).1
                          ≡ (audited r id m x (purger id w).1).1)))
                (served_injective g) (refl, (notes, refl, b, refl, refl)))
        ])
      ])
    ])
  ]

  -- A request that is answered with a report was a DELETE by an admin with users:purge and a verified
  -- second factor, with a user id and a note that are not blank; the purger ran once, on the trimmed id,
  -- and gave that report; and then it was tried to append one audit row with the note and the report, the last thing that the
  -- request did, whether or not the row was stored.
  pub purge_user_served :
      (r : Request) (id : Text) (w : W) (report : PurgeReport)
      → (purge_user r id w).0 ≡ served report
      → (is_gated r ≡ true)
        × (text_eq (trim_space id) [] ≡ false)
        × ((purger : Text → W → Purged × W) × (notes : Text) × (h.user_purger ≡ some purger)
            × (r.notes ≡ some notes)
            × (text_eq (trim_space notes) [] ≡ false)
            × ((purger (trim_space id) w).0 ≡ purged report)
            × ((purge_user r id w).1
                ≡ (audited r (trim_space id) notes report (purger (trim_space id) w).1).1))
  unfolding purge_user
  purge_user_served r id w report = elim (Bool-cases r.is_delete) [
    | inr e ↦ rw e (λ g. cc)
    | inl e ↦ rw e (elim (Bool-cases (has_permission r.roles "users:purge")) [
      | inr p ↦ rw p (λ g. cc)
      | inl p ↦ rw p (elim (Bool-cases r.mfa_verified) [
        | inr m ↦ rw m (λ g. cc)
        | inl m ↦ rw m (elim (Option-cases h.user_purger) [
          | inl o ↦ rw o (λ g. cc)
          | inr (purger, o) ↦ rw o (λ g.
              let (target, (notes, n, b, q, end)) =
                purge_with_served purger r (trim_space id) w report g in
              (refl, target, (purger, notes, refl, n, b, q, end)))
        ])
      ])
    ])
  ]

  -- A request that lacks one of the gates changes nothing.
  pub purge_user_refused :
      (r : Request) (id : Text) (w : W) → is_gated r ≡ false → (purge_user r id w).1 ≡ w
  unfolding purge_user
  purge_user_refused r id w g = ground arith
