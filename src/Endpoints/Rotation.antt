-- ===== src/Endpoints/Rotation.antt =====
-- The order in which the pool hands out its URLs.
use mootd.Prelude.{
  ℕ, zero, suc, ◌+◌, ◌-◌, ◌%◌, ◌^◌, ◌<◌, ◌≡◌, ◌≢◌, ◌⊎◌, refl, sym, ap, subst, ◌∙◌, true, false,
  List, [], ◌∷◌, arith, length, get_or, Text, text_eq, text_eq→eq, text_eq_self, Bool-cases, ◌==◌,
  inl, inr,
}
use native.Mathlib.Nat.{mod-add-mod, mod-lt, mod_self, mod-eq_of_lt}
use native.Mathlib.Decide.{dec_lt}
use mootd.Endpoints.{Pool, contains, u64, next, fallback_from, fallback}
use mootd.Endpoints.Parsing.{IsDistinct, IsValid}

idx_back : (i : ℕ) → i < 2 ^ 64 → u64 (u64 (i + 1) + 2 ^ 64 - 1) ≡ i
idx_back i r = omega arith

mod_one : (i n : ℕ) → n ≡ 1 → i % n ≡ 0
mod_one i n e = rw e (omega arith)

next_url : (p : Pool) → p.idx < 2 ^ 64 → (next p).0 ≡ get_or p.urls (p.idx % length p.urls) []
unfolding next
next_url p r = elim (Bool-cases (length p.urls == 1)) [
  | inl one ↦ rw (one, mod_one p.idx (length p.urls) (ground (arith, one)))
  | inr many ↦ rw (many, idx_back p.idx r)
]

suc_mod_of_lt : (r n : ℕ) → 1 < n → r < n → (r + 1) % n ≢ r
suc_mod_of_lt r n h l e = elim (dec_lt (r + 1) n) [
  | yes fits ↦ absurd (omega (arith, mod-eq_of_lt fits))
  | no over ↦
      let last : r + 1 ≡ n = omega arith in
      let wrapped : (r + 1) % n ≡ 0 = rw last (mod_self n) in absurd (omega arith)
]

suc_mod : (i n : ℕ) → 1 < n → (i + 1) % n ≢ i % n
suc_mod i n h e = suc_mod_of_lt (i % n) n h (mod-lt i (omega arith)) (mod-add-mod i n 1 ∙ e)

top_odd : (2 ^ 64 - 1) % 2 ≢ 0
top_odd = omega arith

-- The calls that follow one another name different URLs, but for one wrap of the counter, where the
-- third differs.
consecutive_mod :
    (i n : ℕ)
    → i < 2 ^ 64
    → 1 < n
    → u64 (i + 1) % n ≡ i % n
    → (2 < n) × (u64 (u64 (i + 1) + 1) % n ≢ i % n)
consecutive_mod i n r h e = elim (dec_lt (i + 1) (2 ^ 64)) [
  | yes fits ↦ let same : u64 (i + 1) ≡ i + 1 = omega arith in absurd (suc_mod i n h (rw same at e))
  | no over ↦
      let top : i ≡ 2 ^ 64 - 1 = omega arith in
      let zero_ : u64 (i + 1) ≡ 0 = omega arith in
      let start : 0 % n ≡ 0 = mod-eq_of_lt {n = 0} (omega arith) in
      let at_zero : i % n ≡ 0 = sym (rw zero_ at e) ∙ start in
      let more : n ≢ 2 = λ two. top_odd (rw (top, two) at at_zero) in
      let third : 1 % n ≡ 1 = mod-eq_of_lt (omega arith) in
      (omega arith, rw zero_ (λ q. absurd (omega arith)))
]

-- The URL list of a valid pool has each URL at one place.
contains-get_or :
    (xs : List Text) (x : Text) (j : ℕ) → contains xs x ≡ false → j < length xs → get_or xs j [] ≢ x
contains-get_or [] x j h l e = absurd (omega arith)
contains-get_or (y ∷ xs) x zero h l e = cc (rw e at h, text_eq_self x)
contains-get_or (y ∷ xs) x (suc j) h l e = contains-get_or xs x j (ground arith) (omega arith) e

distinct_get_or :
    (xs : List Text) (i j : ℕ)
    → IsDistinct xs
    → i < length xs
    → j < length xs
    → get_or xs i [] ≡ get_or xs j []
    → i ≡ j
distinct_get_or [] i j d li lj e = absurd (omega arith)
distinct_get_or (x ∷ xs) zero zero d li lj e = refl
distinct_get_or (x ∷ xs) zero (suc j) d li lj e =
    absurd (contains-get_or xs x j d.0 (omega arith) (sym e))
distinct_get_or (x ∷ xs) (suc i) zero d li lj e =
    absurd (contains-get_or xs x i d.0 (omega arith) e)
distinct_get_or (x ∷ xs) (suc i) (suc j) d li lj e =
    ap suc (distinct_get_or xs i j d.1 (omega arith) (omega arith) e)

next_pool : (p : Pool) → 1 < length p.urls → (next p).1 ≡ record p { idx = u64 (p.idx + 1) }
unfolding next
next_pool p h = ground arith

-- The state after `k` calls.
abbrev pub after : ℕ → Pool → Pool
after zero p = p
after (suc k) p = after k (next p).1

-- In a pool of two or more URLs, call number `k` names the URL at `idx + k` modulo their number, and
-- the calls leave the list as it is, until the counter wraps.
pub next_round_robin :
    (k : ℕ) (p : Pool)
    → 1 < length p.urls
    → p.idx + k < 2 ^ 64
    → ((next (after k p)).0 ≡ get_or p.urls ((p.idx + k) % length p.urls) [])
      × ((after k p).urls ≡ p.urls)
next_round_robin zero p h r =
    let same : p.idx + 0 ≡ p.idx = omega arith in (rw same (next_url p (omega arith)), refl)
next_round_robin (suc k) p h r =
    let q : Pool = record p { idx = u64 (p.idx + 1) } in
    let shifted : p.idx + suc k ≡ q.idx + k = omega arith in
    rw shifted (
      subst
        (λ r.
          ((next (after k r)).0 ≡ get_or p.urls ((q.idx + k) % length p.urls) [])
          × ((after k r).urls ≡ p.urls))
        (sym (next_pool p h)) (next_round_robin k q h (omega arith)))

-- A round of `Fallback` that fails passes on to the next call.
fallback_from_step :
    (left : ℕ) (p : Pool) (failed : Text)
    → ((next p).0 ≢ failed × (fallback_from (suc left) p failed ≡ next p))
      ⊎ (((next p).0 ≡ failed)
          × (fallback_from (suc left) p failed ≡ fallback_from left (next p).1 failed))
unfolding fallback_from
fallback_from_step left p failed = elim (Bool-cases (text_eq (next p).0 failed)) [
  | inl e ↦ inr (text_eq→eq _ _ e, rw e)
  | inr e ↦ inl (
    λ same. cc (e, subst (λ t. text_eq (next p).0 t ≡ true) same (text_eq_self (next p).0)),
    rw e,
  )
]

module _ (p : Pool) (failed : Text) (v : IsValid p) (h : 1 < length p.urls) where
  abbrev second : Pool
  second = record p { idx = u64 (p.idx + 1) }

  abbrev third : Pool
  third = record p { idx = u64 (u64 (p.idx + 1) + 1) }

  -- Where two calls in a row name the failed URL, there are more than two, and a third names another.
  third_other :
      (next p).0 ≡ failed
      → (next second).0 ≡ failed
      → (2 < length p.urls) × ((next third).0 ≢ failed)
  third_other a b =
      let n = length p.urls in
      let i = p.idx in
      let one = sym (next_url p v.in_range) ∙ a in
      let two = sym (next_url second (omega arith)) ∙ b in
      let same : u64 (i + 1) % n ≡ i % n =
        distinct_get_or p.urls _ _ v.distinct (mod-lt _ (omega arith)) (mod-lt _ (omega arith))
          (two ∙ sym one) in
      let (more, differs) = consecutive_mod i n v.in_range h same in
      (
        more,
        λ c. differs (
            distinct_get_or p.urls _ _ v.distinct (mod-lt _ (omega arith)) (mod-lt _ (omega arith))
              (sym (next_url third (omega arith)) ∙ c ∙ sym one)),
      )

  third_round :
      (l : ℕ)
      → length p.urls ≡ suc (suc l)
      → (2 < length p.urls) × ((next third).0 ≢ failed)
      → (fallback_from l third failed).0 ≢ failed
  third_round zero e (more, other) = absurd (omega arith)
  third_round (suc l) e (more, other) = elim (fallback_from_step l third failed) [
    | inl (_, r) ↦ rw r other
    | inr (c, r) ↦ absurd (other c)
  ]

  fallback_from_other :
      (l : ℕ) → length p.urls ≡ suc (suc l) → (fallback_from (suc (suc l)) p failed).0 ≢ failed
  fallback_from_other l e = elim (fallback_from_step (suc l) p failed) [
    | inl (other, r) ↦ rw r other
    | inr (a, r) ↦
        rw (r, next_pool p h)
          (elim (fallback_from_step l second failed) [
            | inl (other, r') ↦ rw r' other
            | inr (b, r') ↦ rw (r', next_pool second h) (third_round l e (third_other a b))
          ])
  ]

-- In a valid pool of two or more URLs `Fallback` returns another URL than the one that failed, also
-- where the counter wraps.
pub fallback_other :
    (p : Pool) (failed : Text) → IsValid p → 1 < length p.urls → (fallback p failed).0 ≢ failed
unfolding fallback
fallback_other p failed v h =
    let e : length p.urls ≡ suc (suc (length p.urls - 2)) = omega arith in
    rw e (fallback_from_other p failed v h (length p.urls - 2) e)
