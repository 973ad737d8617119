-- ===== src/Pricing/Cost.antt =====
-- What a call costs after any sequence of refreshes.
use mootd.Prelude.{
  ℕ, ◌≡◌, refl, sym, ap, ◌∙◌, true, false, none, some, List, [], ◌∷◌, String, str_eq, subst, arith,
  All, ltb, lookup, put, Result, ok, err, if◌then◌else◌, Option-cases, branch, inl, inr, ◌⊎◌,
}
use mathlib.Core.List.{Memᴰ}
use mootd.Prelude.Float.{Float64}
use mootd.Pricing.{
  ModelPrice, PriceTable, keep_later, collect, swap, refresh, new_price_table, compute_cost,
  cost_of, unpriced_model,
}
use mootd.Pricing.Latest.{IsFound, latest, is_later, lookup-collect, latest-none, latest-some}

module _ {F : Type 0} where
  IsTableOf : List (ModelPrice F) → PriceTable F → Type 0
  IsTableOf rows pt = pt.prices ≡ collect [] rows

  -- The rows of the last answer that has some.
  abbrev pub last_listed :
      List (ModelPrice F) → List (Result (List (ModelPrice F))) → List (ModelPrice F)
  last_listed rows [] = rows
  last_listed rows (err e ∷ replies) = last_listed rows replies
  last_listed rows (ok [] ∷ replies) = last_listed rows replies
  last_listed rows (ok (r ∷ rs) ∷ replies) = last_listed (r ∷ rs) replies

  abbrev IsCons : List (String × ModelPrice F) → Type 0
  IsCons t =
      (row : String × ModelPrice F) × (next : List (String × ModelPrice F)) × (t ≡ row ∷ next)

  put-IsCons :
      (t : List (String × ModelPrice F)) (k : String) (r : ModelPrice F) → IsCons (put t k r)
  put-IsCons [] k r = ((k, r), [], refl)
  put-IsCons ((j, u) ∷ t) k r =
      branch IsCons (str_eq j k) ((k, r) ∷ t) ((j, u) ∷ put t k r) ((k, r), t, refl)
        ((j, u), put t k r, refl)

  keep_later-IsCons :
      (x : String × ModelPrice F) (t : List (String × ModelPrice F)) (r : ModelPrice F)
      → IsCons (keep_later (x ∷ t) r)
  keep_later-IsCons x t r =
      elim (lookup (x ∷ t) r.model)
        as (λ found. IsCons (elim found [
          | none ↦ put (x ∷ t) r.model r
          | some e ↦ if ltb r.effective_from e.effective_from then x ∷ t else put (x ∷ t) r.model r
        ])) [
          | none ↦ put-IsCons (x ∷ t) r.model r
          | some e ↦
              branch IsCons (ltb r.effective_from e.effective_from) (x ∷ t) (put (x ∷ t) r.model r)
                (x, t, refl) (put-IsCons (x ∷ t) r.model r)
        ]

  collect-IsCons :
      (t : List (String × ModelPrice F)) (rows : List (ModelPrice F))
      → IsCons t
      → IsCons (collect t rows)
  collect-IsCons t [] c = c
  collect-IsCons t (r ∷ rows) (x, next, e) =
      collect-IsCons (keep_later t r) rows
        (subst (λ s. IsCons (keep_later s r)) (sym e) (keep_later-IsCons x next r))

  swap_listed :
      {W : Type 0} (pt : PriceTable F) (t : List (String × ModelPrice F)) (w : W)
      → IsCons t
      → swap pt t w ≡ (none, record { prices = t }, w)
  swap_listed pt t w (x, next, e) =
      subst (λ s. swap pt s w ≡ (none, record { prices = s }, w)) (sym e) refl

  module _ {W : Type 0} (now : W → ℕ) where
    abbrev pub answered : Result (List (ModelPrice F)) → ℕ → W → Result (List (ModelPrice F)) × W
    answered reply at w = (reply, w)

    -- One refresh for each answer of the repository.
    abbrev pub refresh_all : List (Result (List (ModelPrice F))) → W → PriceTable F → PriceTable F
    refresh_all [] w pt = pt
    refresh_all (reply ∷ replies) w pt = refresh_all replies w (refresh (answered reply) now pt w).1

    refresh_listed :
        (r : ModelPrice F) (rows : List (ModelPrice F)) (pt : PriceTable F) (w : W)
        → refresh (answered (ok (r ∷ rows))) now pt w
          ≡ (none, record { prices = collect [] (r ∷ rows) }, w)
    unfolding refresh
    refresh_listed r rows pt w =
        swap_listed pt (collect (keep_later [] r) rows) w
          (collect-IsCons (keep_later [] r) rows ((r.model, r), [], refl))

    refresh_all-IsTableOf :
        (rows : List (ModelPrice F)) (replies : List (Result (List (ModelPrice F)))) (w : W)
        (pt : PriceTable F)
        → IsTableOf rows pt
        → IsTableOf (last_listed rows replies) (refresh_all replies w pt)
    unfolding IsTableOf refresh
    refresh_all-IsTableOf rows [] w pt h = h
    refresh_all-IsTableOf rows (err e ∷ replies) w pt h = refresh_all-IsTableOf rows replies w pt h
    refresh_all-IsTableOf rows (ok [] ∷ replies) w pt h = refresh_all-IsTableOf rows replies w pt h
    refresh_all-IsTableOf rows (ok (r ∷ rs) ∷ replies) w pt h =
        refresh_all-IsTableOf (r ∷ rs) replies w (refresh (answered (ok (r ∷ rs))) now pt w).1
          (ap (λ x. x.1.prices) (refresh_listed r rs pt w))

    -- The outcome of `ComputeCost` that the listed rows call for: an error where no row has the model,
    -- and otherwise the cost by a row of it that no other one of it is later than.
    abbrev pub IsPriced :
        Float64 F → List (ModelPrice F) → String → ℕ → ℕ → ℕ → ℕ → Result F → Type 0
    IsPriced float rows model input output read write result =
        (All (λ r. str_eq r.model model ≡ false) rows × (result ≡ err (unpriced_model float)))
        ⊎ ((p : ModelPrice F) × Memᴰ p rows
            × (str_eq p.model model ≡ true)
            × All (λ r. is_later model p.effective_from r ≡ false) rows
            × (result ≡ ok (cost_of float p input output read write)))

    compute_cost-IsPriced :
        (float : Float64 F) (rows : List (ModelPrice F)) (pt : PriceTable F) (model : String)
        (input output read write : ℕ)
        → IsTableOf rows pt
        → IsPriced float rows model input output read write
            (compute_cost float pt model input output read write)
    unfolding IsTableOf compute_cost IsFound
    compute_cost-IsPriced float rows pt model input output read write h =
        let q : lookup pt.prices model ≡ latest model none rows =
          ap (λ t. lookup t model) h ∙ lookup-collect [] rows model in
        elim (Option-cases (latest model none rows)) [
          | inl e ↦ inl ((latest-none model none rows e).1, ground (arith, q, e))
          | inr (p, e) ↦
              let (found, above, _) = latest-some model none rows p e in
              elim found [
                | inl absurd ↦ ground arith
                | inr (mem, s) ↦ inr (p, mem, s, above, ground (arith, q, e))
              ]
        ]

    -- If the first answer of the repository lists a row, then the table is made, and after any further
    -- answers, with no rows and errors among them, a call is priced by the latest row of its model in the
    -- last answer that listed any, and is refused as unpriced exactly where that answer has no such row.
    pub compute_cost_history :
        (float : Float64 F) (r : ModelPrice F) (rs : List (ModelPrice F))
        (replies : List (Result (List (ModelPrice F)))) (w : W) (model : String)
        (input output read write : ℕ)
        → (pt : PriceTable F) × (new_price_table (answered (ok (r ∷ rs))) now w ≡ (ok pt, w))
          × IsPriced float
              (last_listed (r ∷ rs) replies)
              model
              input
              output
              read
              write
              (compute_cost float (refresh_all replies w pt) model input output read write)
    unfolding IsTableOf new_price_table
    compute_cost_history float r rs replies w model input output read write =
        let pt : PriceTable F = record { prices = collect [] (r ∷ rs) } in
        (
          pt,
          ap (λ x. elim x.0 [ none ↦ (ok x.1, x.2) | some e ↦ (err e, x.2) ])
              (refresh_listed r rs (record { prices = [] }) w),
          compute_cost-IsPriced float (last_listed (r ∷ rs) replies) (refresh_all replies w pt)
              model input output read write (refresh_all-IsTableOf (r ∷ rs) replies w pt refl),
        )
