-- ===== src/AbTests/Store.antt =====
-- At most one active test for each template.
use mootd.Prelude.{
  ℕ, suc, ◌≤◌, ◌≡◌, refl, subst, false, List, [], ◌∷◌, String, str_eq, eq_iff, arith, any,
  if◌then◌else◌, Bool-cases, inl, inr,
}
use mootd.AbTests.{AbTest, matches, filled, start, close_first, end}

-- The active tests of a template.
unfoldable pub count : String → List AbTest → ℕ
count name [] = 0
count name (t ∷ ts) = let n = count name ts in if matches name t then suc n else n

abbrev pub IsExclusive : List AbTest → Type 0
IsExclusive rows = (name : String) → count name rows ≤ 1

count-none :
    (name : String) (rows : List AbTest) → any (matches name) rows ≡ false → count name rows ≡ 0
unfolding count
count-none name [] h = refl
count-none name (t ∷ ts) h = ground (arith, count-none name ts)

count-cons :
    (t row : AbTest) (name : String) (rows : List AbTest)
    → row.template_name ≡ t.template_name
    → count name rows ≤ 1
    → any (matches t.template_name) rows ≡ false
    → count name (row ∷ rows) ≤ 1
unfolding count
count-cons t row name rows e h none_active = elim (Bool-cases (str_eq t.template_name name)) [
  | inl s ↦
      let zero_rows : count t.template_name rows ≡ 0 =
        count-none t.template_name rows none_active in
      let same : count name rows ≡ 0 =
        subst (λ n. count n rows ≡ 0) ((eq_iff t.template_name name).0 s) zero_rows in
      ground (arith, same)
  | inr s ↦ ground (arith, e, s, h)
]

-- Whatever is started, no template gets a second active test.
pub start-IsExclusive :
    (now : ℕ) (fresh_id : String) (t : AbTest) (rows : List AbTest)
    → IsExclusive rows
    → IsExclusive (start now fresh_id t rows).1
unfolding start
start-IsExclusive now fresh_id t rows h name =
    let row = filled now fresh_id t in
    elim (Bool-cases (any (matches t.template_name) rows)) [
      | inl a ↦ ground (arith, a, h name)
      | inr a ↦ ground (arith, a, h name, count-cons t row name rows refl (h name) a)
    ]

count-close_first :
    (now : ℕ) (id by notes name : String) (rows : List AbTest)
    → count name (close_first now id by notes rows) ≤ count name rows
unfolding count
count-close_first now id by notes name [] = omega arith
count-close_first now id by notes name (t ∷ ts) =
    ground (arith, count-close_first now id by notes name ts)

-- Ending a test leaves at most one active test for each template.
pub end-IsExclusive :
    (now : ℕ) (id by notes : String) (rows : List AbTest)
    → IsExclusive rows
    → IsExclusive (end now id by notes rows).1
unfolding end
end-IsExclusive now id by notes rows h name =
    ground (arith, h name, count-close_first now id by notes name rows)
