-- ===== src/Audit/Tests.antt =====
-- backend/internal/admin/audit.go: tests, on a log that is its list of entries, newest first.
use mootd.Prelude.{
  text_lt, ℕ, Bool, true, none, List, [], ◌∷◌, ◌≡◌, refl, subst, inl, inr, Result, ok, Text, codes,
  take, if◌then◌else◌, All, Bool-cases,
}
use mathlib.Core.List.{Memᴰ}
use mootd.Audit.{AuditEntry, AuditQuery, AuditRepository, list_audit}
use mootd.Audit.Pages.{IsFiltered, Shown, shown_below, take-All}

abbrev entry : Text → ℕ → AuditEntry
entry id at = record { id = id; admin_id = "ad_1"; action = "login"; target_user_id = ""; at = at }

abbrev log : List AuditEntry
log = entry (codes "aud_b") 30 ∷ entry (codes "aud_c") 20 ∷ entry (codes "aud_a") 10 ∷ []

abbrev kept : (AuditEntry → Bool) → List AuditEntry → List AuditEntry
kept p [] = []
kept p (e ∷ es) = if p e then e ∷ kept p es else kept p es

abbrev repo : AuditRepository (List AuditEntry)
repo = record {
  insert_one = λ e w. (none, e ∷ w);
  find_newest = λ p n w. (ok (take n (kept p w)), w);
}

abbrev query : Text → AuditQuery
query cursor = record {
  action = "login";
  admin_id = "";
  target_user_id = "";
  from = none;
  to = none;
  cursor = cursor;
  limit = 1;
}

first_page : (list_audit repo (query []) log).0 ≡ ok (entry (codes "aud_b") 30 ∷ [], codes "aud_b")
unfolding list_audit
first_page = refl

-- The entry of time 20 is on neither page.
second_page :
    (list_audit repo (query (codes "aud_b")) log).0 ≡ ok (entry (codes "aud_a") 10 ∷ [], [])
unfolding list_audit
second_page = refl

kept-All : (p : AuditEntry → Bool) (es : List AuditEntry) → All (λ e. p e ≡ true) (kept p es)
kept-All p [] = tt
kept-All p (e ∷ es) = elim (Bool-cases (p e)) [
  | inl h ↦ rw h (h, kept-All p es)
  | inr h ↦ rw h (kept-All p es)
]

page_injective : {a b : List AuditEntry} → ◌≡◌ {A = Result (List AuditEntry)} (ok a) (ok b) → a ≡ b
page_injective h = cc

repo-IsFiltered : IsFiltered repo
repo-IsFiltered = record {
  selected = λ p n w es h.
      subst (All (λ e. p e ≡ true)) (page_injective h)
        (take-All (λ e. p e ≡ true) n (kept p w) (kept-All p w));
}

shown : Shown repo (query []) (entry (codes "aud_a") 10) (codes "aud_b")
shown =
    Shown.on_page (codes "aud_b") log (entry (codes "aud_a") 10 ∷ []) [] second_page
      (Memᴰ.head refl)

shown_below_example : text_lt (codes "aud_a") (codes "aud_b") ≡ true
shown_below_example = shown_below repo (query []) repo-IsFiltered (codes "aud_b") refl shown
