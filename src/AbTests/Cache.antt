-- ===== src/AbTests/Cache.antt =====
-- What the cache answers for a template that it has not read.
use mootd.Prelude.{ℕ, ◌+◌, ◌<◌, ◌≡◌, arith, false, Option, none, String, str_eq, Result, ok}
use mootd.AbTests.{AbTest, new_cached_ab_tests, reload, active_for_template}

module _ {W : Type 0} (repo : String → W → Result (Option AbTest) × W) where
  -- If a new cache is asked for one template and the repository answers, then until the TTL is over it
  -- answers for every other template that there is no test, without asking, whatever the repository has.
  pub active_for_template_unread :
      (ttl at now : ℕ) (name other : String) (found : Option AbTest) (w v : W)
      → (repo name w).0 ≡ ok found
      → str_eq name other ≡ false
      → now < at + (new_cached_ab_tests ttl).ttl
      → let c = (active_for_template repo at (new_cached_ab_tests ttl) name w).1 in
        active_for_template repo now c other v ≡ (none, c, v)
  unfolding active_for_template reload new_cached_ab_tests
  active_for_template_unread ttl at now name other found w v e n l = ground (arith, e, n, l)
