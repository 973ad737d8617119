-- ===== src/AbTests/Buckets.antt =====
-- Which users are candidates.
use mootd.Prelude.{ℕ, ◌≤◌, ◌≡◌, true, some, List, String, arith}
use mootd.AbTests.{AbTest, is_candidate_user}

module _ (sum256 : String → List ℕ) where
  -- If a user gets the candidate of an active test, then the user gets it at every higher share of traffic
  -- too, and so stays in that arm while the share is raised.
  pub is_candidate_user_mono :
      (user : String) (t : AbTest) (pct : ℕ)
      → t.traffic_pct ≤ pct
      → is_candidate_user sum256 user (some t) ≡ true
      → is_candidate_user sum256 user (some (record t { traffic_pct = pct })) ≡ true
  unfolding is_candidate_user
  is_candidate_user_mono user t pct l h = ground arith
