-- ===== src/Endpoints.antt =====
-- backend/internal/shared/endpoints/pool.go: the round-robin pool of upstream URLs. Each call of a
-- method is one atomic step on the counter, which is a `uint64`.
pub mod Rotation
pub mod Parsing
pub mod Tests
use mootd.Prelude.{
  ℕ, zero, suc, ◌+◌, ◌-◌, ◌%◌, ◌^◌, Bool, true, false, ◌&&◌, ◌||◌, List, [], ◌∷◌, ◌++◌, length,
  get_or, ◌==◌, if◌then◌else◌, Text, text_eq, trim_space, split,
}

pub record Pool : Type 0 where
  pub urls : List Text
  pub idx : ℕ

abbrev pub contains : List Text → Text → Bool
contains [] u = false
contains (x ∷ xs) u = text_eq x u || contains xs u

-- One round of the loop over the entries; the map `seen` has the keys that `urls` lists.
unfoldable pub add_url : List Text → Text → List Text
add_url urls raw =
    let u = trim_space raw in if length u == 0 || contains urls u then urls else urls ++ (u ∷ [])

unfoldable pub add_urls : List Text → List Text → List Text
unfolding add_url
add_urls urls [] = urls
add_urls urls (raw ∷ raws) = add_urls (add_url urls raw) raws

-- A list without an entry becomes the one empty string.
abbrev pub or_empty : List Text → List Text
or_empty [] = [] ∷ []
or_empty (u ∷ us) = u ∷ us

unfoldable pub new_pool : Text → Pool
unfolding add_urls
new_pool comma_separated = record {
  urls = or_empty (add_urls [] (split b',' comma_separated));
  idx = 0;
}

abbrev pub u64 : ℕ → ℕ
u64 n = n % 2 ^ 64

unfoldable pub next : Pool → Text × Pool
next p =
    if length p.urls == 1
    then (get_or p.urls 0 [], p)
    else let added = u64 (p.idx + 1) in
      let i = u64 (added + 2 ^ 64 - 1) in
      (get_or p.urls (i % length p.urls) [], record p { idx = added })

-- The loop of `Fallback`, with `left` rounds to go.
unfoldable pub fallback_from : ℕ → Pool → Text → Text × Pool
fallback_from zero p failed = (get_or p.urls 0 [], p)
fallback_from (suc left) p failed =
    let (url, p') = next p in
    let rest = fallback_from left p' failed in if text_eq url failed then rest else (url, p')

unfoldable pub fallback : Pool → Text → Text × Pool
unfolding fallback_from
fallback p failed = fallback_from (length p.urls) p failed

unfoldable pub size : Pool → ℕ
size p = if length p.urls == 1 && text_eq (get_or p.urls 0 []) [] then 0 else length p.urls
