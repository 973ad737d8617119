-- ===== src/Totp/Steps.antt =====
-- Which codes the verification accepts.
use mootd.Prelude.{
  ℕ, ◌/◌, ◌≡◌, ◌≢◌, subst, sym, true, false, Option, none, some, List, [], ◌∷◌, arith, All, Text,
  text_eq, text_eq→eq, text_eq_self, trim_space, Bool-cases, Option-cases, inl, inr, ◌⊎◌, ◌==◌,
}
use mootd.Totp.{byte_length, hotp, candidates, first_match, verify_totp_step}

abbrev pub IsOneOf : ℕ → List ℕ → Type 0
IsOneOf c [] = ⊥
IsOneOf c (d ∷ ds) = (c ≡ d) ⊎ IsOneOf c ds

injective : (c d : ℕ) → some c ≡ some d → c ≡ d
injective c d e = ground arith

module _ {K : Type 0} (mac : K → ℕ → List ℕ) where
  first_match_found :
      (key : K) (code : Text) (cs : List ℕ) (c : ℕ)
      → first_match mac key code cs ≡ some c
      → IsOneOf c cs × (hotp mac key c ≡ code)
  first_match_found key code [] c h = ground (arith, h)
  first_match_found key code (d ∷ cs) c h = elim (Bool-cases (text_eq (hotp mac key d) code)) [
    | inl e ↦
        let same : d ≡ c = injective d c (ground (arith, e, h)) in
        (
          inl (sym same),
          subst (λ c. hotp mac key c ≡ code) same (text_eq→eq (hotp mac key d) code e),
        )
    | inr e ↦ let (m, k) = first_match_found key code cs c (ground (arith, e, h)) in (inr m, k)
  ]

  first_match-none :
      (key : K) (code : Text) (cs : List ℕ)
      → first_match mac key code cs ≡ none
      → All (λ c. hotp mac key c ≢ code) cs
  first_match-none key code [] h = tt
  first_match-none key code (d ∷ cs) h = elim (Bool-cases (text_eq (hotp mac key d) code)) [
    | inl e ↦ ground (arith, e, h)
    | inr e ↦ (
      λ q. ground (
        arith,
        e,
        subst (λ x. text_eq (hotp mac key d) x ≡ true) q (text_eq_self (hotp mac key d)),
      ),
      first_match-none key code cs (ground (arith, e, h)),
    )
  ]

  module _ (decode : Text → Option K) (secret presented : Text) (now : ℕ) where
    -- If a step is accepted, then it is the current 30-second step, the one before or the one after, on 64
    -- bits, and the presented code without its outer spaces is the code of that step under the secret.
    pub verify_totp_step_accepts :
        (c : ℕ)
        → verify_totp_step mac decode secret presented now ≡ some c
        → IsOneOf c (candidates mac (now / 30))
          × (key : K) × (decode secret ≡ some key)
          × (hotp mac key c ≡ trim_space presented)
    unfolding verify_totp_step
    verify_totp_step_accepts c h = elim (Option-cases (decode secret)) [
      | inl e ↦ ground (arith, e, h)
      | inr (key, e) ↦
          let (m, k) =
            first_match_found key (trim_space presented) (candidates mac (now / 30)) c
              (ground (arith, e, h)) in
          (m, key, e, k)
    ]

    -- If no step is accepted under a secret that decodes, then either the code without its outer spaces
    -- is not six bytes long or it is the code of none of the three steps.
    pub verify_totp_step_refuses :
        (key : K)
        → decode secret ≡ some key
        → verify_totp_step mac decode secret presented now ≡ none
        → ((byte_length (trim_space presented) == 6) ≡ false)
          ⊎ All (λ c. hotp mac key c ≢ trim_space presented) (candidates mac (now / 30))
    unfolding verify_totp_step
    verify_totp_step_refuses key e h = elim (Bool-cases (byte_length (trim_space presented) == 6)) [
      | inr l ↦ inl l
      | inl l ↦ inr (
          first_match-none key (trim_space presented) (candidates mac (now / 30))
            (ground (arith, e, l, h)))
    ]
