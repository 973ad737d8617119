-- ===== src/Audit.antt =====
-- backend/internal/admin/audit.go: the audit log and its pages.
pub mod Pages
pub mod Tests
use mootd.Prelude.{
  ℕ, ◌+◌, Bool, true, false, not, ◌&&◌, ◌||◌, Option, none, some, List, [], ◌∷◌, String, str_eq,
  ltb, leb, ◌==◌, if◌then◌else◌, Error, Result, ok, err, Text, text_eq, text_lt, length, take,
}

pub record AuditEntry : Type 0 where
  pub id : Text
  pub admin_id : String
  pub action : String
  pub target_user_id : String
  pub at : ℕ

-- `limit` is 0 also where the source's is negative.
pub record AuditQuery : Type 0 where
  pub action : String
  pub admin_id : String
  pub target_user_id : String
  pub from : Option ℕ
  pub to : Option ℕ
  pub cursor : Text
  pub limit : ℕ

-- What is asked of a field that is not "".
abbrev pub asked : String → String → Bool
asked wanted value = if str_eq wanted "" then true else str_eq value wanted

abbrev pub since : Option ℕ → ℕ → Bool
since none at = true
since (some from) at = leb from at

abbrev pub before : Option ℕ → ℕ → Bool
before none at = true
before (some to) at = ltb at to

abbrev pub below_cursor : Text → Text → Bool
below_cursor cursor id = if text_eq cursor [] then true else text_lt id cursor

-- The filter that the query becomes.
abbrev pub selects : AuditQuery → AuditEntry → Bool
selects q e =
    below_cursor q.cursor e.id
    && (asked q.action e.action
        && (asked q.admin_id e.admin_id
            && (asked q.target_user_id e.target_user_id
                && (since q.from e.at && before q.to e.at))))

-- The collection: an insert, and Find sorted by falling `at` and `_id` with a limit.
pub record AuditRepository (W : Type 0) : Type 0 where
  pub insert_one : AuditEntry → W → Option Error × W
  pub find_newest : (AuditEntry → Bool) → ℕ → W → Result (List AuditEntry) × W

abbrev pub last_id : List AuditEntry → Text
last_id [] = []
last_id (e ∷ []) = e.id
last_id (e ∷ d ∷ es) = last_id (d ∷ es)

abbrev pub limit_of : ℕ → ℕ
limit_of limit = if limit == 0 || ltb 100 limit then 25 else limit

-- The page cut to its limit, and the cursor of the next one.
abbrev pub page_of : ℕ → List AuditEntry → List AuditEntry × Text
page_of limit entries =
    if ltb limit (length entries)
    then (take limit entries, last_id (take limit entries))
    else (entries, [])

module _ {W : Type 0} (repo : AuditRepository W) where
  unfoldable pub append_audit : AuditEntry → W → Option Error × W
  append_audit entry w = repo.insert_one entry w

  unfoldable pub list_audit : AuditQuery → W → Result (List AuditEntry × Text) × W
  list_audit q w =
      let limit = limit_of q.limit in
      let (r, w1) = repo.find_newest (selects q) (limit + 1) w in
      elim r [ err e ↦ (err e, w1) | ok entries ↦ (ok (page_of limit entries), w1) ]

  -- Audit: a failure is only logged.
  unfoldable pub audit : AuditEntry → W → W
  unfolding append_audit
  audit entry w = (append_audit entry w).1
