-- ===== src/Pricing.antt =====
-- backend/internal/observability/pricing.go: the table of the prices that are in effect, its refresh and
-- the cost of a call. The repository's ListEffective and the clock are parameters.
pub mod Latest
pub mod Cost
pub mod Tests
use mootd.Prelude.{
  ℕ, Option, none, some, List, [], ◌∷◌, String, ltb, if◌then◌else◌, lookup, put, Error, new, wrap,
  Result, ok, err,
}
use mootd.Prelude.Float.{Float64}

-- Times are counted in one unit, here and in the repository.
pub record ModelPrice (F : Type 0) : Type 0 where
  pub id : String
  pub model : String
  pub provider : String
  pub input_usd_per_mtok : F
  pub output_usd_per_mtok : F
  pub cache_write_usd_per_mtok : F
  pub cache_read_usd_per_mtok : F
  pub effective_from : ℕ
  pub effective_until : Option ℕ
  pub notes : String

pub record PriceTable (F : Type 0) : Type 0 where
  pub prices : List (String × ModelPrice F)

module _ {F : Type 0} where
  -- One round of the loop over the rows.
  abbrev pub keep_later : List (String × ModelPrice F) → ModelPrice F → List (String × ModelPrice F)
  keep_later next r = elim (lookup next r.model) [
    | none ↦ put next r.model r
    | some existing ↦
        if ltb r.effective_from existing.effective_from then next else put next r.model r
  ]

  abbrev pub collect :
      List (String × ModelPrice F) → List (ModelPrice F) → List (String × ModelPrice F)
  collect next [] = next
  collect next (r ∷ rows) = collect (keep_later next r) rows

  abbrev pub swap :
      {W : Type 0}
      → PriceTable F
      → List (String × ModelPrice F)
      → W
      → Option Error × PriceTable F × W
  swap pt [] w = (
    some (new "price table refresh: ListEffective returned 0 rows; keeping previous table"),
    pt,
    w,
  )
  swap pt (row ∷ next) w = (none, record pt { prices = row ∷ next }, w)

  module _ {W : Type 0} (list_effective : ℕ → W → Result (List (ModelPrice F)) × W)
      (now : W → ℕ) where
    unfoldable pub refresh : PriceTable F → W → Option Error × PriceTable F × W
    refresh pt w =
        let (listed, w1) = list_effective (now w) w in
        elim listed [
          | err e ↦ (some (wrap "price table refresh" e), pt, w1)
          | ok rows ↦ swap pt (collect [] rows) w1
        ]

    unfoldable pub new_price_table : W → Result (PriceTable F) × W
    unfolding refresh
    new_price_table w =
        let (failed, pt, w1) = refresh (record { prices = [] }) w in
        elim failed [ none ↦ (ok pt, w1) | some e ↦ (err e, w1) ]

  module _ (float : Float64 F) where
    -- The sum of `int * price / 1e6` over the four buckets, added from the left.
    unfoldable pub cost_of : ModelPrice F → ℕ → ℕ → ℕ → ℕ → F
    cost_of p input_tok output_tok cache_read_tok cache_write_tok =
        let part =
          λ (n : ℕ) (usd : F). float.div (float.mul (float.of_int n) usd) (float.of_int 1000000) in
        float.add
          (float.add
            (float.add (part input_tok p.input_usd_per_mtok)
              (part output_tok p.output_usd_per_mtok))
            (part cache_write_tok p.cache_write_usd_per_mtok))
          (part cache_read_tok p.cache_read_usd_per_mtok)

    -- ErrUnpricedModel
    abbrev pub unpriced_model : Error
    unpriced_model = new "observability: model not in price table"

    unfoldable pub compute_cost : PriceTable F → String → ℕ → ℕ → ℕ → ℕ → Result F
    compute_cost pt model input_tok output_tok cache_read_tok cache_write_tok =
        elim (lookup pt.prices model) [
          | none ↦ err unpriced_model
          | some p ↦ ok (cost_of p input_tok output_tok cache_read_tok cache_write_tok)
        ]
