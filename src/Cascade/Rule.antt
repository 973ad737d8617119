-- ===== src/Cascade/Rule.antt =====
-- A proof rule for the cascade: what every single call of a provider keeps, the whole call keeps.
use mathlib.Core.List.{Memᴰ}
use mootd.Prelude.{
  ℕ, ◌≡◌, inl, inr, Bool, true, false, Option, none, some, List, [], ◌∷◌, arith, Error,
  all_providers_failed, Bool-cases, Option-cases, refl, length, ◌<◌,
}
use mootd.Health.{HealthTracker, is_healthy}
use mootd.Cascade.{
  Reply, Generator, Pass, Outcome, returned, ran_through, Loop, should_not_fallback, keep, attempt,
  and_then, first_pass, last_resort, exhausted, start, finish, second_pass, generate,
}

-- The error that a loop holds is one that another provider could have avoided.
abbrev HasError : Option Error → Type 0
HasError none = ⊥
HasError (some e) = should_not_fallback (some e) ≡ false

-- `P` holds between the calls, of the usage that the loop holds and the world, and `Q` of a reply and
-- the world that the function returns.
module _ {R O U W : Type 0} (req : R) (chain : List (Generator R O U W)) (P : Option U → W → Type 0)
    (Q : Reply O U → W → Type 0) where
  pub record IsKept : Type 0 where
    pub success :
        (g : Generator R O U W) (usage : Option U) (w : W)
        → Memᴰ g chain
        → P usage w
        → (g.generate req w).0.error ≡ none
        → Q
            (record {
              outfits = (g.generate req w).0.outfits;
              usage = (g.generate req w).0.usage;
              error = none;
            })
            (g.generate req w).1
    pub final :
        (g : Generator R O U W) (usage : Option U) (w : W) (e : Error)
        → Memᴰ g chain
        → P usage w
        → (g.generate req w).0.error ≡ some e
        → should_not_fallback (some e) ≡ true
        → Q
            (record { outfits = []; usage = (g.generate req w).0.usage; error = some e })
            (g.generate req w).1
    pub fall :
        (g : Generator R O U W) (usage : Option U) (w : W) (e : Error)
        → Memᴰ g chain
        → P usage w
        → (g.generate req w).0.error ≡ some e
        → should_not_fallback (some e) ≡ false
        → P (keep (g.generate req w).0.usage usage) (g.generate req w).1
    pub exhaust :
        (usage : Option U) (w : W) (e : Error)
        → P usage w
        → should_not_fallback (some e) ≡ false
        → Q (record { outfits = []; usage = usage; error = some (all_providers_failed e) }) w

  -- With `true` the loop holds an error for sure, with `false` if it tried a provider.
  abbrev IsLeft : Bool → Outcome O U × HealthTracker × W → Type 0
  IsLeft any (returned r, h, w) = Q r w
  IsLeft true (ran_through p, h, w) = HasError p.last_err × P p.last_usage w
  IsLeft false (ran_through p, h, w) = (p.any_tried ≡ true → HasError p.last_err) × P p.last_usage w

  and_then-IsLeft :
      (b : Bool) (o : Outcome O U × HealthTracker × W) (rest : Loop O U W)
      → IsLeft true o
      → ((p : Pass U) (h : HealthTracker) (w : W)
          → HasError p.last_err
          → P p.last_usage w
          → IsLeft b (rest p h w))
      → IsLeft b (and_then o rest)
  and_then-IsLeft b (returned r, h, w) rest i k = i
  and_then-IsLeft b (ran_through p, h, w) rest i k = k p h w i.0 i.1

  module _ (kept : IsKept) (now : W → ℕ) (message : Error → List ℕ) where
    attempt-IsLeft :
        (tried : Bool) (g : Generator R O U W) (p : Pass U) (h : HealthTracker) (w : W)
        → Memᴰ g chain
        → P p.last_usage w
        → IsLeft true (attempt now message req tried g p h w)
    unfolding attempt
    attempt-IsLeft tried g p h w m i = elim (Option-cases (g.generate req w).0.error) [
      | inl e ↦ rw (e, attempt, IsLeft) (kept.success g p.last_usage w m i e)
      | inr (x, e) ↦ elim (Bool-cases (should_not_fallback (some x))) [
        | inl stop ↦ rw (e, stop, attempt, IsLeft) (kept.final g p.last_usage w x m i e stop)
        | inr go ↦ rw (e, go, attempt, IsLeft) (go, kept.fall g p.last_usage w x m i e go)
      ]
    ]

    last_resort-IsLeft :
        (gs : List (Generator R O U W)) (p : Pass U) (h : HealthTracker) (w : W)
        → ((g : Generator R O U W) → Memᴰ g gs → Memᴰ g chain)
        → HasError p.last_err
        → P p.last_usage w
        → IsLeft true (last_resort now message req gs p h w)
    unfolding last_resort
    last_resort-IsLeft [] p h w sub e i = (e, i)
    last_resort-IsLeft (g ∷ gs) p h w sub e i =
        and_then-IsLeft true (attempt now message req p.any_tried g p h w)
          (last_resort now message req gs)
          (attempt-IsLeft p.any_tried g p h w (sub g (Memᴰ.head refl)) i)
          (λ p' h' w' e' i'. last_resort-IsLeft gs p' h' w' (λ x m. sub x (Memᴰ.tail m)) e' i')

    -- The second loop needs no error to start with, if there is a provider.
    last_resort-cons-IsLeft :
        (g : Generator R O U W) (gs : List (Generator R O U W)) (p : Pass U) (h : HealthTracker)
        (w : W)
        → ((x : Generator R O U W) → Memᴰ x (g ∷ gs) → Memᴰ x chain)
        → P p.last_usage w
        → IsLeft true (last_resort now message req (g ∷ gs) p h w)
    unfolding last_resort
    last_resort-cons-IsLeft g gs p h w sub i =
        and_then-IsLeft true (attempt now message req p.any_tried g p h w)
          (last_resort now message req gs)
          (attempt-IsLeft p.any_tried g p h w (sub g (Memᴰ.head refl)) i)
          (λ p' h' w' e' i'. last_resort-IsLeft gs p' h' w' (λ x m. sub x (Memᴰ.tail m)) e' i')

    first_pass-IsLeft :
        (gs : List (Generator R O U W)) (p : Pass U) (h : HealthTracker) (w : W)
        → ((g : Generator R O U W) → Memᴰ g gs → Memᴰ g chain)
        → (p.any_tried ≡ true → HasError p.last_err)
        → P p.last_usage w
        → IsLeft false (first_pass now message req gs p h w)
    unfolding first_pass
    first_pass-IsLeft [] p h w sub e i = (e, i)
    first_pass-IsLeft (g ∷ gs) p h w sub e i =
        let rest = λ (x : Generator R O U W) (m : Memᴰ x gs). sub x (Memᴰ.tail m) in
        let h' = (is_healthy (now w) h g.name).1 in
        elim (Bool-cases (is_healthy (now w) h g.name).0) [
          | inl healthy ↦
              rw (healthy, first_pass, IsLeft)
                (and_then-IsLeft false (attempt now message req true g p h' w)
                  (first_pass now message req gs)
                  (attempt-IsLeft true g p h' w (sub g (Memᴰ.head refl)) i)
                  (λ p' h'' w' e' i'. first_pass-IsLeft gs p' h'' w' rest (λ _. e') i'))
          | inr not_healthy ↦
              rw (not_healthy, first_pass, IsLeft) (first_pass-IsLeft gs p h' w rest e i)
        ]

    exhausted-Q :
        (any : Bool) (last : Option Error) (usage : Option U) (w : W)
        → HasError last
        → P usage w
        → Q (exhausted (record { any_tried = any; last_err = last; last_usage = usage })) w
    unfolding exhausted
    exhausted-Q any none usage w e i = absurd e
    exhausted-Q any (some x) usage w e i = kept.exhaust usage w x i e

    finish-Q : (o : Outcome O U × HealthTracker × W) → IsLeft true o → Q (finish o).0 (finish o).2
    finish-Q (returned r, h, w) i = i
    finish-Q (ran_through p, h, w) i = exhausted-Q p.any_tried p.last_err p.last_usage w i.0 i.1

    second_pass-IsLeft :
        (g : Generator R O U W) (gs : List (Generator R O U W))
        (o : Outcome O U × HealthTracker × W)
        → ((x : Generator R O U W) → Memᴰ x (g ∷ gs) → Memᴰ x chain)
        → IsLeft false o
        → IsLeft true (second_pass now message req (g ∷ gs) o)
    second_pass-IsLeft g gs (returned r, h, w) sub i = i
    second_pass-IsLeft g gs (ran_through p, h, w) sub i = elim (Bool-cases p.any_tried) [
      | inl t ↦ rw (t, IsLeft) (i.0 t, i.1)
      | inr t ↦
          rw (t, IsLeft) (last_resort-cons-IsLeft g gs (record p { any_tried = false }) h w sub i.1)
    ]

module _ {R O U W : Type 0} (now : W → ℕ) (message : Error → List ℕ) (req : R)
    (P : Option U → W → Type 0) (Q : Reply O U → W → Type 0) where
  -- What every call keeps holds of what the cascade returns.
  pub generate-Q :
      (chain : List (Generator R O U W)) (h : HealthTracker) (w : W)
      → IsKept req chain P Q
      → 0 < length chain
      → P none w
      → Q (generate now message req chain h w).0 (generate now message req chain h w).2
  unfolding generate
  generate-Q [] h w kept n i = absurd (omega arith)
  generate-Q (g ∷ gs) h w kept n i =
      let o = first_pass now message req (g ∷ gs) start h w in
      let all = λ (x : Generator R O U W) (m : Memᴰ x (g ∷ gs)). m in
      let o' = second_pass now message req (g ∷ gs) o in
      finish-Q req (g ∷ gs) P Q kept now message o' (
        second_pass-IsLeft req (g ∷ gs) P Q kept now message g gs o all
          (first_pass-IsLeft req (g ∷ gs) P Q kept now message (g ∷ gs) start h w all (λ t. cc) i))
