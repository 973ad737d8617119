-- ===== src/Endpoints/Tests.antt =====
-- A pool of three upstreams.
use mootd.Prelude.{◌-◌, ◌^◌, ◌≡◌, refl, [], ◌∷◌, arith, Text, codes, trim_space, split}
use mootd.Endpoints.{Pool, add_url, add_urls, new_pool, next, fallback_from, fallback, size}
use mootd.Endpoints.Parsing.{IsValid}

abbrev hosts : Text
hosts = codes " http://a, http://b,,http://a ,http://c "

abbrev three : Pool
three = record { urls = codes "http://a" ∷ codes "http://b" ∷ codes "http://c" ∷ []; idx = 0 }

parsed : new_pool hosts ≡ three
unfolding new_pool add_urls add_url trim_space split
parsed = refl

skips : (fallback (record three { idx = 3 }) (codes "http://a")).0 ≡ codes "http://b"
unfolding fallback fallback_from next
skips = refl

unset : size (new_pool []) ≡ 0
unfolding size new_pool add_urls add_url trim_space split
unset = refl

-- The counter wraps during the call, and the URL at its two ends is the failed one.
abbrev worn : Pool
worn = record three { idx = 2 ^ 64 - 1 }

worn-IsValid : IsValid worn
worn-IsValid = record {
  nonempty = omega arith;
  distinct = (refl, (refl, (refl, tt)));
  in_range = omega arith;
}
