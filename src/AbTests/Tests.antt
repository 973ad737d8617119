-- ===== src/AbTests/Tests.antt =====
-- A store with one test, and a cache that has read another template.
use mootd.Prelude.{ℕ, ◌≡◌, refl, true, none, some, Option, List, [], ◌∷◌, String, arith, Result, ok}
use mootd.AbTests.{
  AbTest, active, find_active, new_cached_ab_tests, active_for_template, user_bucket_pct,
  is_candidate_user,
}
use mootd.AbTests.Cache.{active_for_template_unread}

abbrev test : AbTest
test = record {
  id = "ab_1";
  template_name = "outfit";
  production_version = 3;
  candidate_version = 4;
  traffic_pct = 50;
  status = active;
  started_by = "ann";
  started_at = none;
  ended_at = none;
  ended_by = "";
  notes = "";
}

abbrev sum256 : String → List ℕ
sum256 s = 0 ∷ 0 ∷ 0 ∷ 0 ∷ 0 ∷ 0 ∷ 0 ∷ 42 ∷ 255 ∷ []

is_candidate : is_candidate_user sum256 "ann" (some test) ≡ true
unfolding is_candidate_user user_bucket_pct
is_candidate = refl

-- The repository is the list of rows.
abbrev repo : String → List AbTest → Result (Option AbTest) × List AbTest
repo name rows = (ok (find_active name rows), rows)

-- `outfit` has an active test, and the answer for it is that there is none.
active_for_template_unread_example :
    active_for_template repo 20
      (active_for_template repo 10 (new_cached_ab_tests 100) "critic" (test ∷ [])).1
      "outfit"
      (test ∷ [])
    ≡ (
      none,
      (active_for_template repo 10 (new_cached_ab_tests 100) "critic" (test ∷ [])).1,
      test ∷ [],
    )
unfolding new_cached_ab_tests
active_for_template_unread_example =
    active_for_template_unread repo 100 10 20 "critic" "outfit" none (test ∷ []) (test ∷ []) refl
      refl (omega arith)
