-- ===== src/ClientIp/Blocks.antt =====
-- backend/internal/shared/middleware/clientip.go and ip_allowlist.go: which blocks the configured entries
-- stand for.
use mathlib.Core.List.{Memᴰ}
use mootd.Prelude.{
  true, false, some, List, [], ◌∷◌, ◌++◌, ◌≡◌, refl, inl, inr, arith, subst, sym, Text, text_eq,
  trim_space, contains, codes, Bool-cases, Option-cases,
}
use mootd.ClientIp.{Net, parse_cidrs, with_suffix, parse_entry}

module _ {Ip Block : Type 0} (net : Net Ip Block) where
  open net use {parse_ip, is_v4, ip_string, parse_cidr, within}

  -- The block that a configured entry stands for: what it says, or for a bare address
  -- its /32 or /128 block.
  pub data Means (s : Text) (b : Block) : Type 0 where
    block : contains s (b'/' ∷ []) ≡ true → parse_cidr s ≡ some b → Means s b
    address_v4 :
        contains s (b'/' ∷ []) ≡ false
        → (a : Ip) → parse_ip s ≡ some a
        → is_v4 a ≡ true
        → parse_cidr (ip_string a ++ codes "/32") ≡ some b
        → Means s b
    address_v6 :
        contains s (b'/' ∷ []) ≡ false
        → (a : Ip) → parse_ip s ≡ some a
        → is_v4 a ≡ false
        → parse_cidr (ip_string a ++ codes "/128") ≡ some b
        → Means s b

  -- A block that an entry of the configuration stands for; spaces around an entry are left aside.
  pub record Configured (cidrs : List Text) (b : Block) : Type 0 where
    pub raw : Text
    pub member : Memᴰ raw cidrs
    pub given : text_eq (trim_space raw) [] ≡ false
    pub means : Means (trim_space raw) b

  parse_entry-Means : (s : Text) (b : Block) → parse_entry net s ≡ some b → Means s b
  unfolding with_suffix
  parse_entry-Means s b h = elim (Bool-cases (contains s (b'/' ∷ []))) [
    | inl c ↦ block c (ground (arith, c, h))
    | inr c ↦ elim (Option-cases (parse_ip s)) [
      | inl p ↦ absurd (ground (arith, c, p, h))
      | inr (a, p) ↦ elim (Bool-cases (is_v4 a)) [
        | inl v ↦ address_v4 c a p v (ground (arith, c, p, v, h))
        | inr v ↦ address_v6 c a p v (ground (arith, c, p, v, h))
      ]
    ]
  ]

  Means-parse_entry : (s : Text) (b : Block) → Means s b → parse_entry net s ≡ some b
  unfolding with_suffix
  Means-parse_entry s b (block c h) = ground (arith, c, h)
  Means-parse_entry s b (address_v4 c a p v h) = ground (arith, c, p, v, h)
  Means-parse_entry s b (address_v6 c a p v h) = ground (arith, c, p, v, h)

  later :
      (raw : Text) (cidrs : List Text) (b : Block) → Configured cidrs b → Configured (raw ∷ cidrs) b
  later raw cidrs b c = record {
    raw = c.raw;
    member = Memᴰ.tail c.member;
    given = c.given;
    means = c.means;
  }

  first_or :
      (raw : Text) (cidrs : List Text) (b x : Block)
      → text_eq (trim_space raw) [] ≡ false
      → parse_entry net (trim_space raw) ≡ some x
      → (Memᴰ b (parse_cidrs net cidrs) → Configured cidrs b)
      → Memᴰ b (x ∷ parse_cidrs net cidrs)
      → Configured (raw ∷ cidrs) b
  first_or raw cidrs b x e n rest (Memᴰ.head q) = record {
    raw = raw;
    member = Memᴰ.head refl;
    given = e;
    means = subst (Means (trim_space raw)) (sym q) (parse_entry-Means (trim_space raw) x n);
  }
  first_or raw cidrs b x e n rest (Memᴰ.tail m) = later raw cidrs b (rest m)

  pub parse_cidrs-Configured :
      (cidrs : List Text) (b : Block) → Memᴰ b (parse_cidrs net cidrs) → Configured cidrs b
  unfolding parse_cidrs
  parse_cidrs-Configured [] b = λ m. elim m [ ]
  parse_cidrs-Configured (raw ∷ cidrs) b =
      let rest = parse_cidrs-Configured cidrs b in
      elim (Bool-cases (text_eq (trim_space raw) [])) [
        | inl e ↦ rw (e, parse_cidrs) (λ m. later raw cidrs b (rest m))
        | inr e ↦ elim (Option-cases (parse_entry net (trim_space raw))) [
          | inl n ↦ rw (e, n, parse_cidrs) (λ m. later raw cidrs b (rest m))
          | inr (x, n) ↦ rw (e, n, parse_cidrs) (λ m. first_or raw cidrs b x e n rest m)
        ]
      ]

  kept :
      (raw s : Text) (cidrs : List Text) (b : Block)
      → Memᴰ s (raw ∷ cidrs)
      → text_eq (trim_space s) [] ≡ false
      → parse_entry net (trim_space s) ≡ some b
      → (Memᴰ s cidrs → Memᴰ b (parse_cidrs net cidrs))
      → Memᴰ b (parse_cidrs net (raw ∷ cidrs))
  unfolding parse_cidrs
  kept raw s cidrs b (Memᴰ.head q) e n rest =
      subst (λ x. Memᴰ b (parse_cidrs net (x ∷ cidrs))) q (rw (e, n, parse_cidrs) (Memᴰ.head refl))
  kept raw s cidrs b (Memᴰ.tail m) e n rest = elim (Bool-cases (text_eq (trim_space raw) [])) [
    | inl f ↦ rw (f, parse_cidrs) (rest m)
    | inr f ↦ elim (Option-cases (parse_entry net (trim_space raw))) [
      | inl g ↦ rw (f, g, parse_cidrs) (rest m)
      | inr (x, g) ↦ rw (f, g, parse_cidrs) (Memᴰ.tail (rest m))
    ]
  ]

  Configured-parse_cidrs :
      (cidrs : List Text) (s : Text) (b : Block)
      → Memᴰ s cidrs
      → text_eq (trim_space s) [] ≡ false
      → parse_entry net (trim_space s) ≡ some b
      → Memᴰ b (parse_cidrs net cidrs)
  Configured-parse_cidrs [] s b m e n = elim m [ ]
  Configured-parse_cidrs (raw ∷ cidrs) s b m e n =
      kept raw s cidrs b m e n (λ m'. Configured-parse_cidrs cidrs s b m' e n)

  pub from_configured :
      (cidrs : List Text) (b : Block) → Configured cidrs b → Memᴰ b (parse_cidrs net cidrs)
  from_configured cidrs b c =
      Configured-parse_cidrs cidrs c.raw b c.member c.given
        (Means-parse_entry (trim_space c.raw) b c.means)
