-- ===== src/Pricing/Tests.antt =====
-- Two rows of one model, the earlier one listed last; then an error and an answer with no rows.
use mootd.Prelude.{ℕ, ◌≡◌, refl, none, List, [], ◌∷◌, String, canceled, Result, ok, err}
use mootd.Retry.Tests.{whole}
use mootd.Pricing.{
  ModelPrice, PriceTable, refresh, new_price_table, compute_cost, cost_of, unpriced_model,
}
use mootd.Pricing.Cost.{IsPriced, answered, last_listed, refresh_all, compute_cost_history}

abbrev row : String → ℕ → ℕ → ModelPrice ℕ
row model input from = record {
  id = "";
  model = model;
  provider = "openai";
  input_usd_per_mtok = input;
  output_usd_per_mtok = 10;
  cache_write_usd_per_mtok = 0;
  cache_read_usd_per_mtok = 1;
  effective_from = from;
  effective_until = none;
  notes = "";
}

abbrev rows : List (ModelPrice ℕ)
rows = row "gpt-4o" 3 7 ∷ row "gpt-4o" 5 2 ∷ []

abbrev replies : List (Result (List (ModelPrice ℕ)))
replies = err canceled ∷ ok [] ∷ []

abbrev now : ℕ → ℕ
now w = w

abbrev table : PriceTable ℕ
table = record { prices = ("gpt-4o", row "gpt-4o" 3 7) ∷ [] }

made : new_price_table (answered {F = ℕ} now (ok rows)) now 0 ≡ (ok table, 0)
unfolding new_price_table refresh
made = refl

kept : refresh_all now replies 0 table ≡ table
unfolding refresh
kept = refl

priced : compute_cost whole table "gpt-4o" 1000000 200000 0 0 ≡ ok 5
unfolding compute_cost cost_of
priced = refl

unpriced : compute_cost whole table "gpt-5" 1 1 1 1 ≡ err (unpriced_model whole)
unfolding compute_cost
unpriced = refl

compute_cost_history_example :
    (pt : PriceTable ℕ) × (new_price_table (answered {F = ℕ} now (ok rows)) now 0 ≡ (ok pt, 0))
    × IsPriced now whole
        (last_listed rows replies)
        "gpt-4o"
        1000000
        200000
        0
        0
        (compute_cost whole (refresh_all now replies 0 pt) "gpt-4o" 1000000 200000 0 0)
compute_cost_history_example =
    compute_cost_history now whole (row "gpt-4o" 3 7) (row "gpt-4o" 5 2 ∷ []) replies 0 "gpt-4o"
      1000000 200000 0 0
