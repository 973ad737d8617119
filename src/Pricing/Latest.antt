-- ===== src/Pricing/Latest.antt =====
-- What the loop of a refresh keeps for one model.
use mootd.Prelude.{
  ℕ, ◌≤◌, ◌≡◌, refl, Bool, ◌&&◌, sym, ap, ◌∙◌, true, false, Option, none, some, List, [], ◌∷◌,
  String, str_eq, eq_iff, eq_refl, subst, arith, All, AllOption, ltb, lookup, put, if◌then◌else◌,
  Bool-cases, inl, inr, ◌⊎◌,
}
use mathlib.Core.List.{Memᴰ}
use mootd.Pricing.{ModelPrice, keep_later, collect}

same_key : (j k m : String) → str_eq j k ≡ true → str_eq j m ≡ str_eq k m
same_key j k m e = ap (λ s. str_eq s m) ((eq_iff j k).0 e)

module _ {F : Type 0} where
  -- A row of the model that is later than `n`.
  abbrev pub is_later : String → ℕ → ModelPrice F → Bool
  is_later m n r = str_eq r.model m && ltb n r.effective_from

  -- One round of the loop, as one model sees it.
  abbrev later : String → Option (ModelPrice F) → ModelPrice F → Option (ModelPrice F)
  later m acc r =
      if str_eq r.model m
      then elim acc [
        | none ↦ some r
        | some e ↦ if ltb r.effective_from e.effective_from then some e else some r
      ]
      else acc

  abbrev pub latest : String → Option (ModelPrice F) → List (ModelPrice F) → Option (ModelPrice F)
  latest m acc [] = acc
  latest m acc (r ∷ rows) = latest m (later m acc r) rows

  lookup-put :
      (t : List (String × ModelPrice F)) (k m : String) (r : ModelPrice F)
      → lookup (put t k r) m ≡ (if str_eq k m then some r else lookup t m)
  lookup-put [] k m r = refl
  lookup-put ((j, u) ∷ t) k m r = elim (Bool-cases (str_eq j k)) [
    | inl e ↦ ground (arith, e, same_key j k m e)
    | inr e ↦ elim (Bool-cases (str_eq k m)) [
      | inl s ↦ ground (arith, e, s, lookup-put t k m r, ap (str_eq j) ((eq_iff k m).0 s))
      | inr s ↦ ground (arith, e, s, lookup-put t k m r)
    ]
  ]

  lookup-keep_later :
      (t : List (String × ModelPrice F)) (r : ModelPrice F) (m : String)
      → lookup (keep_later t r) m ≡ later m (lookup t m) r
  lookup-keep_later t r m = elim (Bool-cases (str_eq r.model m)) [
    | inl e ↦
        subst (λ n. lookup (keep_later t r) n ≡ later n (lookup t n) r) ((eq_iff r.model m).0 e)
          (ground (arith, lookup-put t r.model r.model r, eq_refl r.model))
    | inr e ↦ ground (arith, e, lookup-put t r.model m r)
  ]

  pub lookup-collect :
      (t : List (String × ModelPrice F)) (rows : List (ModelPrice F)) (m : String)
      → lookup (collect t rows) m ≡ latest m (lookup t m) rows
  lookup-collect t [] m = refl
  lookup-collect t (r ∷ rows) m =
      lookup-collect (keep_later t r) rows m
      ∙ ap (λ acc. latest m acc rows) (lookup-keep_later t r m)

  pub latest-none :
      (m : String) (acc : Option (ModelPrice F)) (rows : List (ModelPrice F))
      → latest m acc rows ≡ none
      → (acc ≡ none) × All (λ r. str_eq r.model m ≡ false) rows
  latest-none m acc [] h = (h, tt)
  latest-none m acc (r ∷ rows) h =
      let (e, a) = latest-none m (later m acc r) rows h in ground (arith, e, a)

  later_cases :
      (m : String) (acc : Option (ModelPrice F)) (r : ModelPrice F)
      → (later m acc r ≡ acc) ⊎ ((later m acc r ≡ some r) × (str_eq r.model m ≡ true))
  later_cases m none r = ground arith
  later_cases m (some e) r = ground arith

  later_other :
      (m : String) (acc : Option (ModelPrice F)) (r : ModelPrice F)
      → str_eq r.model m ≡ false
      → later m acc r ≡ acc
  later_other m acc r s = ground (arith, s)

  later_bound_own :
      (m : String) (acc : Option (ModelPrice F)) (r : ModelPrice F) (n : ℕ)
      → str_eq r.model m ≡ true
      → AllOption (λ e. e.effective_from ≤ n) (later m acc r)
      → (is_later m n r ≡ false) × AllOption (λ e. e.effective_from ≤ n) acc
  later_bound_own m none r n s h =
      let k : r.effective_from ≤ n =
        subst (AllOption (λ e. e.effective_from ≤ n)) {x = later m none r} {y = some r}
          (ground (arith, s)) h in
      (ground (arith, k), tt)
  later_bound_own m (some e) r n s h = elim (Bool-cases (ltb r.effective_from e.effective_from)) [
    | inl l ↦
        let k : e.effective_from ≤ n =
          subst (AllOption (λ x. x.effective_from ≤ n)) {x = later m (some e) r} {y = some e}
            (ground (arith, s, l)) h in
        (ground (arith, k, l), k)
    | inr l ↦
        let k : r.effective_from ≤ n =
          subst (AllOption (λ x. x.effective_from ≤ n)) {x = later m (some e) r} {y = some r}
            (ground (arith, s, l)) h in
        (ground (arith, k), ground (arith, k, l))
  ]

  later_bound :
      (m : String) (acc : Option (ModelPrice F)) (r : ModelPrice F) (n : ℕ)
      → AllOption (λ e. e.effective_from ≤ n) (later m acc r)
      → (is_later m n r ≡ false) × AllOption (λ e. e.effective_from ≤ n) acc
  later_bound m acc r n h = elim (Bool-cases (str_eq r.model m)) [
    | inl s ↦ later_bound_own m acc r n s h
    | inr s ↦
        (ground (arith, s), subst (AllOption (λ e. e.effective_from ≤ n)) (later_other m acc r s) h)
  ]

  unfoldable pub IsFound : String → ModelPrice F → List (ModelPrice F) → Type 0
  IsFound m p rows = Memᴰ p rows × (str_eq p.model m ≡ true)

  IsFound-later :
      (m : String) (acc : Option (ModelPrice F)) (r p : ModelPrice F) (rows : List (ModelPrice F))
      → (later m acc r ≡ some p) ⊎ IsFound m p rows
      → (acc ≡ some p) ⊎ IsFound m p (r ∷ rows)
  unfolding IsFound
  IsFound-later m acc r p rows (inr (mem, s)) = inr (Memᴰ.tail mem, s)
  IsFound-later m acc r p rows (inl e) = elim (later_cases m acc r) [
    | inl q ↦ inl (sym q ∙ e)
    | inr (q, s) ↦
        let same : p ≡ r = ap (λ o. elim o [ none ↦ p | some x ↦ x ]) (sym e ∙ q) in
        inr (Memᴰ.head same, subst (λ x. str_eq x.model m ≡ true) (sym same) s)
  ]

  pub latest-some :
      (m : String) (acc : Option (ModelPrice F)) (rows : List (ModelPrice F)) (p : ModelPrice F)
      → latest m acc rows ≡ some p
      → ((acc ≡ some p) ⊎ IsFound m p rows)
        × All (λ r. is_later m p.effective_from r ≡ false) rows
        × AllOption (λ e. e.effective_from ≤ p.effective_from) acc
  latest-some m acc [] p h = (inl h, tt, rw h (omega arith))
  latest-some m acc (r ∷ rows) p h =
      let (found, above, old) = latest-some m (later m acc r) rows p h in
      let (bound, older) = later_bound m acc r p.effective_from old in
      (IsFound-later m acc r p rows found, (bound, above), older)
