-- ===== src/Outfits/Fill.antt =====
-- backend/internal/outfit/service.go: how generateOutfitsImpl fills up a short batch, and when it marks
-- the batch as degraded.
use mootd.Prelude.{
  ℕ, ◌-◌, ◌<◌, ◌≡◌, refl, sym, ap, ◌∙◌, subst, Bool, true, false, ◌||◌, Option, none, some, List,
  [], ◌∷◌, ◌++◌, String, ltb, leb, arith, length, length-append, if◌then◌else◌, Map, empty, update,
  All, All-append, branch, Bool-cases, inl, inr, ◌⊎◌, Text, Error,
}
use mootd.Outfits.{ClothingItem, Outfit, has_key, outfit_fingerprint, validate_outfits}
use mootd.Outfits.Valid.{IsWearable, IsDistinct, validate_outfits-IsWearable}

module _ {Sc : Type 0} where
  -- seenIDs after the loop over `os`
  abbrev pub marks : Map Bool → List (Outfit Sc) → Map Bool
  marks seen [] = seen
  marks seen (o ∷ os) = marks (update seen (outfit_fingerprint o) true) os

  abbrev pub appended : Map Bool → List (Outfit Sc) → Outfit Sc → List (Outfit Sc)
  appended seen filtered o =
      if has_key seen (outfit_fingerprint o) then filtered else filtered ++ (o ∷ [])

  abbrev pub marked : Map Bool → Outfit Sc → Map Bool
  marked seen o =
      if has_key seen (outfit_fingerprint o) then seen else update seen (outfit_fingerprint o) true

  unfoldable pub append_unseen : Map Bool → List (Outfit Sc) → List (Outfit Sc) → List (Outfit Sc)
  append_unseen seen filtered [] = filtered
  append_unseen seen filtered (o ∷ os) =
      let next = appended seen filtered o in
      let rest = append_unseen (marked seen o) next os in if leb 4 (length next) then next else rest

-- The batch and whether it is degraded. `fallback` is buildFallbackOutfits at a count, and `error` is the
-- generator's.
unfoldable pub fill :
    {Sc : Type 0}
    → (ℕ → List (Outfit Sc))
    → (List (Outfit Sc) → List (Outfit Sc))
    → Option Error
    → List (Outfit Sc)
    → List (Outfit Sc) × Bool
fill fallback validated error filtered =
    let failed : Bool = elim error [ none ↦ false | some e ↦ true ] in
    let filled =
      append_unseen (marks empty filtered) filtered (validated (fallback (4 - length filtered))) in
    if ltb (length filtered) 3
    then (filled, failed || ltb (length filtered) (length filled))
    else (filtered, failed)

module _ {Sc : Type 0} (lower : ℕ → ℕ) (score : List ClothingItem → Sc)
    (suggest : Sc → (Text → Bool) → String) (items : List ClothingItem) where
  IsGood : List (Outfit Sc) → Type 0
  IsGood os =
      All (λ o. IsWearable lower score suggest items o.items) os
      × IsDistinct lower score suggest items empty os

  IsDistinct-append :
      (seen : Map Bool) (xs : List (Outfit Sc)) (o : Outfit Sc)
      → IsDistinct lower score suggest items seen xs
      → has_key (marks seen xs) (outfit_fingerprint o) ≡ false
      → IsDistinct lower score suggest items seen (xs ++ (o ∷ []))
  IsDistinct-append seen [] o d f = (f, tt)
  IsDistinct-append seen (x ∷ xs) o (k, d) f =
      (k, IsDistinct-append (update seen (outfit_fingerprint x) true) xs o d f)

  marks-append :
      (seen : Map Bool) (xs : List (Outfit Sc)) (o : Outfit Sc)
      → marks seen (xs ++ (o ∷ [])) ≡ update (marks seen xs) (outfit_fingerprint o) true
  marks-append seen [] o = refl
  marks-append seen (x ∷ xs) o = marks-append (update seen (outfit_fingerprint x) true) xs o

  marked-appended :
      (seen : Map Bool) (xs : List (Outfit Sc)) (o : Outfit Sc)
      → seen ≡ marks empty xs
      → marked seen o ≡ marks empty (appended seen xs o)
  marked-appended seen xs o e = by_test (has_key seen (outfit_fingerprint o))
    where
      by_test :
          (b : Bool)
          → (if b then seen else update seen (outfit_fingerprint o) true)
            ≡ marks empty (if b then xs else xs ++ (o ∷ []))
      by_test true = e
      by_test false =
          ap (λ m. update m (outfit_fingerprint o) true) e ∙ sym (marks-append empty xs o)

  appended-IsGood :
      (seen : Map Bool) (xs : List (Outfit Sc)) (o : Outfit Sc)
      → seen ≡ marks empty xs
      → IsGood xs
      → IsWearable lower score suggest items o.items
      → IsGood (appended seen xs o)
  unfolding IsGood
  appended-IsGood seen xs o e (gw, gd) w = by_test (has_key seen (outfit_fingerprint o)) refl
    where
      by_test :
          (b : Bool)
          → has_key seen (outfit_fingerprint o) ≡ b
          → IsGood (if b then xs else xs ++ (o ∷ []))
      by_test true k = (gw, gd)
      by_test false k = (
        All-append (λ o. IsWearable lower score suggest items o.items) xs (o ∷ []) gw (w, tt),
        IsDistinct-append empty xs o gd (subst (λ m. has_key m (outfit_fingerprint o) ≡ false) e k),
      )

  append_unseen-IsGood :
      (seen : Map Bool) (xs os : List (Outfit Sc))
      → seen ≡ marks empty xs
      → IsGood xs
      → All (λ o. IsWearable lower score suggest items o.items) os
      → IsGood (append_unseen seen xs os)
  unfolding append_unseen
  append_unseen-IsGood seen xs [] e g ws = g
  append_unseen-IsGood seen xs (o ∷ os) e g (w, ws) =
      let next = appended seen xs o in
      let good = appended-IsGood seen xs o e g w in
      branch IsGood (leb 4 (length next)) next (append_unseen (marked seen o) next os) good
        (append_unseen-IsGood (marked seen o) next os (marked-appended seen xs o e) good ws)

  -- A batch that is the validation of what the provider proposed, filled up with validated fallback
  -- outfits, still has only wearable outfits and no two with the same fingerprint.
  pub fill-IsWearable :
      (fallback : ℕ → List (Outfit Sc)) (error : Option Error) (parsed : List (Outfit Sc))
      → let validated = validate_outfits lower score suggest items in
        let batch = (fill fallback validated error (validated parsed)).0 in
        All (λ o. IsWearable lower score suggest items o.items) batch
        × IsDistinct lower score suggest items empty batch
  unfolding fill IsGood
  fill-IsWearable fallback error parsed =
      let validated = validate_outfits lower score suggest items in
      let good = validate_outfits-IsWearable lower score suggest items in
      let xs = validated parsed in
      let ys = validated (fallback (4 - length xs)) in
      let filled =
        append_unseen-IsGood (marks empty xs) xs ys refl (good parsed)
          (good (fallback (4 - length xs))).0 in
      elim (Bool-cases (ltb (length xs) 3)) [ inl e ↦ rw e filled | inr e ↦ rw e (good parsed) ]

module _ {Sc : Type 0} where
  Grows : List (Outfit Sc) → List (Outfit Sc) → Type 0
  Grows xs ys = (ys ≡ xs) ⊎ (length xs < length ys)

  Grows-trans : (xs ys zs : List (Outfit Sc)) → Grows xs ys → Grows ys zs → Grows xs zs
  unfolding Grows
  Grows-trans xs ys zs (inl e) (inl f) = inl (f ∙ e)
  Grows-trans xs ys zs (inl e) (inr l) = inr (subst (λ n. n < length zs) (ap length e) l)
  Grows-trans xs ys zs (inr k) (inl f) = inr (subst (λ n. length xs < n) (ap length (sym f)) k)
  Grows-trans xs ys zs (inr k) (inr l) = inr (omega (arith, k, l))

  append_unseen-Grows :
      (seen : Map Bool) (xs os : List (Outfit Sc)) → Grows xs (append_unseen seen xs os)
  unfolding append_unseen Grows
  append_unseen-Grows seen xs [] = inl refl
  append_unseen-Grows seen xs (o ∷ os) =
      let next = appended seen xs o in
      let first =
        branch (Grows xs) (has_key seen (outfit_fingerprint o)) xs (xs ++ (o ∷ [])) (inl refl)
          (inr (omega (arith, length-append xs (o ∷ [])))) in
      branch (Grows xs) (leb 4 (length next)) next (append_unseen (marked seen o) next os) first
        (Grows-trans xs next _ first (append_unseen-Grows (marked seen o) next os))

  -- If a batch is not marked as degraded, then the generator returned no error and the batch is what the
  -- validation kept of its outfits, with nothing added.
  pub fill_clean :
      (fallback : ℕ → List (Outfit Sc)) (validated : List (Outfit Sc) → List (Outfit Sc))
      → (error : Option Error) (filtered : List (Outfit Sc))
      → (fill fallback validated error filtered).1 ≡ false
      → (error ≡ none) × ((fill fallback validated error filtered).0 ≡ filtered)
  unfolding fill Grows
  fill_clean fallback validated (some e) filtered h = ground arith
  fill_clean fallback validated none filtered h = ground (
    arith,
    append_unseen-Grows (marks empty filtered) filtered
        (validated (fallback (4 - length filtered))),
  )
