-- ===== src/Accounts/Sessions.antt =====
-- backend/internal/auth/handler.go and repository.go: when a refresh token stops to be good.
use mootd.Prelude.{
  ℕ, Bool, true, false, Option, none, some, List, [], ◌∷◌, ◌≡◌, ◌≢◌, refl, sym, ◌∙◌, subst, arith,
  ◌⊎◌, inl, inr, Text, text_eq, text_eq_self, All, Bool-cases,
}
use mootd.Prelude.Mongo.{first_match, update_first}
use mootd.Accounts.{UserDocument, has_id, has_hash, is_current, with_token}

-- At most one document passes the test.
abbrev pub IsUnique : (UserDocument → Bool) → List UserDocument → Type 0
IsUnique p [] = Unit
IsUnique p (u ∷ docs) = ((p u ≡ false) ⊎ All (λ x. p x ≡ false) docs) × IsUnique p docs

-- No document has the hash.
abbrev pub IsGone : Text → List UserDocument → Type 0
IsGone hash docs = All (λ u. has_hash hash u ≡ false) docs

some_injective : {A : Type 0} {a b : A} → ◌≡◌ {A = Option A} (some a) (some b) → a ≡ b
some_injective h = cc

true-ne-false : ◌≢◌ {A = Bool} true false
true-ne-false h = cc

first_match_holds :
    (p : UserDocument → Bool) (docs : List UserDocument) (u : UserDocument)
    → first_match p docs ≡ some u
    → p u ≡ true
first_match_holds p [] u = λ h. cc
first_match_holds p (x ∷ docs) u = elim (Bool-cases (p x)) [
  | inl e ↦ rw e (λ h. subst (λ y. p y ≡ true) (some_injective h) e)
  | inr e ↦ rw e (first_match_holds p docs u)
]

first_match-All :
    (p q : UserDocument → Bool) (docs : List UserDocument) (u : UserDocument)
    → All (λ x. q x ≡ false) docs
    → first_match p docs ≡ some u
    → q u ≡ false
first_match-All p q [] u a = λ h. cc
first_match-All p q (x ∷ docs) u (e, a) = elim (Bool-cases (p x)) [
  | inl f ↦ rw f (λ h. subst (λ y. q y ≡ false) (some_injective h) e)
  | inr f ↦ rw f (first_match-All p q docs u a)
]

pub first_match-none :
    (hash : Text) (at : ℕ) (docs : List UserDocument)
    → IsGone hash docs
    → first_match (is_current hash at) docs ≡ none
first_match-none hash at [] a = refl
first_match-none hash at (u ∷ docs) (e, a) = rw e (first_match-none hash at docs a)

-- Clearing the hash, and storing another one on the document that has it.
the_others :
    (p : UserDocument → Bool) (x : UserDocument) (docs : List UserDocument)
    → (p x ≡ false) ⊎ All (λ y. p y ≡ false) docs
    → p x ≡ true
    → All (λ y. p y ≡ false) docs
the_others p x docs (inl f) e = elim (true-ne-false (sym e ∙ f)) [ ]
the_others p x docs (inr a) e = a

pub cleared-IsGone :
    (hash : Text) (docs : List UserDocument)
    → text_eq [] hash ≡ false
    → IsUnique (has_hash hash) docs
    → IsGone hash (update_first (has_hash hash) (with_token [] none) docs)
cleared-IsGone hash [] n u = tt
cleared-IsGone hash (x ∷ docs) n (h, u) = elim (Bool-cases (has_hash hash x)) [
  | inl e ↦ rw e (n, the_others (has_hash hash) x docs h e)
  | inr e ↦ rw e (e, cleared-IsGone hash docs n u)
]

tail_match :
    (p : UserDocument → Bool) (x : UserDocument) (docs : List UserDocument) (u : UserDocument)
    → p x ≡ false
    → first_match p (x ∷ docs) ≡ some u
    → first_match p docs ≡ some u
tail_match p x docs u e = rw e (λ h. h)

pub stored-IsGone :
    (hash other : Text) (at until : ℕ) (docs : List UserDocument) (user : UserDocument)
    → text_eq other hash ≡ false
    → IsUnique (has_hash hash) docs
    → IsUnique (has_id user.id) docs
    → first_match (is_current hash at) docs ≡ some user
    → IsGone hash (update_first (has_id user.id) (with_token other (some until)) docs)
stored-IsGone hash other at until [] user n u v f = tt
stored-IsGone hash other at until (x ∷ docs) user n (h, u) (i, v) f =
    elim (Bool-cases (has_id user.id x)) [
      | inl p ↦ rw p (
        n,
        elim (Bool-cases (has_hash hash x)) [
          | inl q ↦ the_others (has_hash hash) x docs h q
          | inr q ↦
              let f' = tail_match (is_current hash at) x docs user (rw q refl) f in
              let absent =
                first_match-All (is_current hash at) (has_id user.id) docs user
                  (the_others (has_id user.id) x docs i p) f' in
              elim (true-ne-false (sym (text_eq_self user.id) ∙ absent)) [ ]
        ],
      )
      | inr p ↦
          let stale : is_current hash at x ≡ false = elim (Bool-cases (is_current hash at x)) [
            | inr c ↦ c
            | inl c ↦
                let same : x ≡ user = some_injective (rw c at f) in
                elim (true-ne-false
                  (sym (text_eq_self user.id) ∙ subst (λ y. has_id user.id y ≡ false) same p)) [ ]
          ] in
          let f' = tail_match (is_current hash at) x docs user stale f in
          let head : has_hash hash x ≡ false = elim (Bool-cases (has_hash hash x)) [
            | inr q ↦ q
            | inl q ↦
                let absent =
                  first_match-All (is_current hash at) (has_hash hash) docs user
                    (the_others (has_hash hash) x docs h q) f' in
                let present = first_match_holds (is_current hash at) docs user f' in
                ground (arith, absent, present)
          ] in
          rw p (head, stored-IsGone hash other at until docs user n u v f')
    ]
