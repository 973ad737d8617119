-- ===== src/Totp/Recovery.antt =====
-- A recovery code works once.
use mootd.Prelude.{
  ℕ, ◌≡◌, refl, ap, subst, Bool, true, false, none, some, List, [], ◌∷◌, arith, any, Text, text_eq,
  text_eq→eq, Bool-cases, Option-cases, inl, inr,
}
use mootd.Totp.{hash_recovery_code, remove_first, consume_recovery_code}

-- No hash is stored twice.
abbrev pub IsUnique : List Text → Type 0
IsUnique [] = Unit
IsUnique (h ∷ hs) = (any (λ x. text_eq x h) hs ≡ false) × IsUnique hs

just : (xs ys : List Text) → some xs ≡ some ys → xs ≡ ys
just xs ys e = ground arith

second : (xs ys : List Text) → ◌≡◌ {A = Bool × List Text} (true, xs) (true, ys) → xs ≡ ys
second xs ys e = ap (λ p. p.1) e

module _ (lower : ℕ → ℕ) (hex_sum256 : Text → Text) where
  remove_first_absent :
      (want : Text) (hs : List Text)
      → any (λ x. text_eq x want) hs ≡ false
      → remove_first lower hex_sum256 want hs ≡ none
  remove_first_absent want [] h = refl
  remove_first_absent want (x ∷ hs) h = ground (arith, h, remove_first_absent want hs)

  removed_absent :
      (want : Text) (hs out : List Text)
      → IsUnique hs
      → remove_first lower hex_sum256 want hs ≡ some out
      → any (λ x. text_eq x want) out ≡ false
  removed_absent want [] out u h = ground (arith, h)
  removed_absent want (x ∷ hs) out (f, u) h = elim (Bool-cases (text_eq x want)) [
    | inl e ↦
        let gone : hs ≡ out = just hs out (ground (arith, e, h)) in
        subst (λ ys. any (λ y. text_eq y want) ys ≡ false) gone
          (subst (λ w. any (λ y. text_eq y w) hs ≡ false) (text_eq→eq x want e) f)
    | inr e ↦ elim (Option-cases (remove_first lower hex_sum256 want hs)) [
      | inl n ↦ ground (arith, e, n, h)
      | inr (rest, r) ↦
          let kept : x ∷ rest ≡ out = just (x ∷ rest) out (ground (arith, e, r, h)) in
          subst (λ ys. any (λ y. text_eq y want) ys ≡ false) kept
            (ground (arith, e, removed_absent want hs rest u r))
    ]
  ]

  -- If no hash is stored twice and a code is accepted, then the same code is refused with the hashes that
  -- are left, and these stay as they are.
  pub consume_recovery_code_once :
      (stored out : List Text) (presented : Text)
      → IsUnique stored
      → consume_recovery_code lower hex_sum256 stored presented ≡ (true, out)
      → consume_recovery_code lower hex_sum256 out presented ≡ (false, out)
  unfolding consume_recovery_code
  consume_recovery_code_once stored out presented u h =
      let want = hash_recovery_code lower hex_sum256 presented in
      elim (Option-cases (remove_first lower hex_sum256 want stored)) [
        | inl n ↦ ground (arith, n, h)
        | inr (rest, r) ↦
            let same : rest ≡ out = second rest out (ground (arith, r, h)) in
            let absent =
              subst (λ ys. any (λ y. text_eq y want) ys ≡ false) same
                (removed_absent want stored rest u r) in
            ground (arith, remove_first_absent want out absent)
      ]
