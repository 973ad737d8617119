-- ===== src/Audit/Pages.antt =====
-- backend/internal/admin/audit.go, ListAudit: which entries the pages can show.
use mootd.Prelude.{
  ℕ, zero, suc, ◌+◌, Bool, true, false, List, [], ◌∷◌, ◌≡◌, subst, arith, inl, inr, Result, ok,
  Text, text_eq, text_lt, text_lt_trans, ltb, length, take, All, All-mem, Bool-cases, Result-cases,
}
use mathlib.Core.List.{Memᴰ}
use mootd.Audit.{
  AuditEntry, AuditQuery, AuditRepository, selects, last_id, limit_of, page_of, list_audit,
}

-- Find returns only what its filter selects.
pub record IsFiltered {W : Type 0} (repo : AuditRepository W) : Type 0 where
  pub selected :
      (p : AuditEntry → Bool) (n : ℕ) (w : W) (es : List AuditEntry)
      → (repo.find_newest p n w).0 ≡ ok es
      → All (λ e. p e ≡ true) es

module _ {W : Type 0} (repo : AuditRepository W) (q : AuditQuery) where
  -- An entry that a client sees who asks the query at a cursor and follows the cursors that come back;
  -- the log may have changed between two pages.
  pub data Shown (e : AuditEntry) : Text → Type 0 where
    on_page :
        (c : Text) (w : W) (es : List AuditEntry) (next : Text)
        → (list_audit repo (record q { cursor = c }) w).0 ≡ ok (es, next)
        → Memᴰ e es
        → Shown e c
    later :
        (c : Text) (w : W) (es : List AuditEntry) (next : Text)
        → (list_audit repo (record q { cursor = c }) w).0 ≡ ok (es, next)
        → text_eq next [] ≡ false
        → Shown e next
        → Shown e c

pub take-All :
    (P : AuditEntry → Type 0) (n : ℕ) (es : List AuditEntry) → All P es → All P (take n es)
take-All P zero es a = tt
take-All P (suc n) [] a = tt
take-All P (suc n) (e ∷ es) (p, a) = (p, take-All P n es a)

last_id-All :
    (P : Text → Type 0) (es : List AuditEntry)
    → All (λ e. P e.id) es
    → text_eq (last_id es) [] ≡ false
    → P (last_id es)
last_id-All P [] a h = cc
last_id-All P (e ∷ []) (p, a) h = p
last_id-All P (e ∷ d ∷ es) (p, a) h = last_id-All P (d ∷ es) a h

page_of-All :
    (P : Text → Type 0) (limit : ℕ) (es : List AuditEntry)
    → All (λ e. P e.id) es
    → All (λ e. P e.id) (page_of limit es).0
      × (text_eq (page_of limit es).1 [] ≡ false → P (page_of limit es).1)
page_of-All P limit es a = elim (Bool-cases (ltb limit (length es))) [
  | inl e ↦
      rw e
        (let kept = take-All (λ x. P x.id) limit es a in (kept, last_id-All P (take limit es) kept))
  | inr e ↦ rw e (a, λ h. cc)
]

All-step :
    (P Q : AuditEntry → Type 0)
    → ((e : AuditEntry) → P e → Q e)
    → (es : List AuditEntry) → All P es
    → All Q es
All-step P Q step [] a = tt
All-step P Q step (e ∷ es) (p, a) = (step e p, All-step P Q step es a)

ok_injective : {A : Type 0} {a b : A} → ◌≡◌ {A = Result A} (ok a) (ok b) → a ≡ b
ok_injective h = cc

-- The filter bounds the ids by the cursor.
selects_below :
    (q : AuditQuery) (e : AuditEntry)
    → text_eq q.cursor [] ≡ false
    → selects q e ≡ true
    → text_lt e.id q.cursor ≡ true
selects_below q e c h = ground arith

module _ {W : Type 0} (repo : AuditRepository W) (q : AuditQuery) (laws : IsFiltered repo) where
  -- A page after a cursor, and the cursor that it gives, lie below that cursor.
  page_below :
      (c : Text) (w : W) (es : List AuditEntry) (next : Text)
      → text_eq c [] ≡ false
      → (list_audit repo (record q { cursor = c }) w).0 ≡ ok (es, next)
      → All (λ e. text_lt e.id c ≡ true) es × (text_eq next [] ≡ false → text_lt next c ≡ true)
  unfolding list_audit
  page_below c w es next h =
      let q' : AuditQuery = record q { cursor = c } in
      elim (Result-cases (repo.find_newest (selects q') (limit_of q.limit + 1) w).0) [
        | inr (x, e) ↦ rw (e, list_audit) (λ r. cc)
        | inl (found, e) ↦
            rw (e, list_audit)
              (λ r.
                subst
                  (λ p.
                    All (λ y. text_lt y.id c ≡ true) p.0
                    × (text_eq p.1 [] ≡ false → text_lt p.1 c ≡ true))
                  (ok_injective r)
                  (page_of-All (λ id. text_lt id c ≡ true) (limit_of q.limit) found
                    (All-step (λ y. selects q' y ≡ true) (λ y. text_lt y.id c ≡ true)
                      (λ y. selects_below q' y h) found
                      (laws.selected (selects q') (limit_of q.limit + 1) w found e))))
      ]

  -- Following the cursors from a cursor on shows only entries whose id is below that cursor, whatever
  -- their times: an entry that is older than the last one of a page, and so belongs on a later page, is
  -- never shown when its id is not below that one's.
  pub shown_below :
      {e : AuditEntry} (c : Text) → text_eq c [] ≡ false → Shown repo q e c → text_lt e.id c ≡ true
  shown_below {e} _ h (on_page c w es next r m) =
      All-mem (λ y. text_lt y.id c ≡ true) e es (page_below c w es next h r).0 m
  shown_below {e} _ h (later c w es next r n s) =
      text_lt_trans e.id next c (shown_below next n s) ((page_below c w es next h r).1 n)
