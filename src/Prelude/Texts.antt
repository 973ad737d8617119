-- ===== src/Prelude/Texts.antt =====
-- Text that the program takes apart, as the list of its code points, with what the code uses of Go's
-- `strings` package. Text that is only compared whole is a `String`.
use Prim.Native.Char.{code}
use mootd.Prelude.Tests.{ltb, leb, ◌==◌, if◌then◌else◌}
use Prim.Native.Nat.{ℕ}
use Prim.Native.String.{String}
use mathlib.Core.Path.{◌≡◌, refl}
use mathlib.Core.Bool.{Bool, true, false, ◌&&◌, ◌||◌}
use mathlib.Core.List.{List, [], ◌∷◌, reverse}
use native.Mathlib.Omega.{arith}

abbrev pub Text : Type 0
Text = List ℕ

abbrev pub codes : String → Text
codes String.[] = []
codes (String.◌∷◌ c s) = code c ∷ codes s

abbrev pub text_eq : Text → Text → Bool
text_eq [] [] = true
text_eq [] (d ∷ t) = false
text_eq (c ∷ s) [] = false
text_eq (c ∷ s) (d ∷ t) = c == d && text_eq s t

-- The order of texts, by code points.
abbrev pub text_lt : Text → Text → Bool
text_lt [] [] = false
text_lt [] (d ∷ t) = true
text_lt (c ∷ s) [] = false
text_lt (c ∷ s) (d ∷ t) = ltb c d || c == d && text_lt s t

pub text_lt_trans : (s t u : Text) → text_lt s t ≡ true → text_lt t u ≡ true → text_lt s u ≡ true
text_lt_trans s [] [] p q = cc
text_lt_trans [] [] (e ∷ u) p q = cc
text_lt_trans (c ∷ s) [] (e ∷ u) p q = cc
text_lt_trans [] (d ∷ t) [] p q = cc
text_lt_trans (c ∷ s) (d ∷ t) [] p q = cc
text_lt_trans [] (d ∷ t) (e ∷ u) p q = refl
text_lt_trans (c ∷ s) (d ∷ t) (e ∷ u) p q = ground (arith, text_lt_trans s t u)

pub text_lt_asym : (s t : Text) → text_lt s t ≡ true → text_lt t s ≡ false
text_lt_asym [] [] h = refl
text_lt_asym [] (d ∷ t) h = refl
text_lt_asym (c ∷ s) [] h = cc
text_lt_asym (c ∷ s) (d ∷ t) h = ground (arith, text_lt_asym s t)

pub text_lt_irrefl : (s : Text) → text_lt s s ≡ false
text_lt_irrefl [] = refl
text_lt_irrefl (c ∷ s) = ground (arith, text_lt_irrefl s)

pub text_eq→eq : (s t : Text) → text_eq s t ≡ true → s ≡ t
text_eq→eq [] [] h = refl
text_eq→eq [] (d ∷ t) h = ground arith
text_eq→eq (c ∷ s) [] h = ground arith
text_eq→eq (c ∷ s) (d ∷ t) h = ground (arith, text_eq→eq s t)

pub text_eq_self : (s : Text) → text_eq s s ≡ true
text_eq_self [] = refl
text_eq_self (c ∷ s) = ground (arith, text_eq_self s)

-- unicode.IsSpace
unfoldable pub is_space : ℕ → Bool
is_space c =
    leb 9 c && leb c 13
    || c == 32
    || c == 0x85
    || c == 0xa0
    || c == 0x1680
    || leb 0x2000 c && leb c 0x200a
    || c == 0x2028
    || c == 0x2029
    || c == 0x202f
    || c == 0x205f
    || c == 0x3000

trim_left : Text → Text
trim_left [] = []
trim_left (c ∷ s) = if is_space c then trim_left s else c ∷ s

-- strings.TrimSpace
unfoldable pub trim_space : Text → Text
unfolding trim_left is_space
trim_space s = reverse (trim_left (reverse (trim_left s)))

add_head : ℕ → List Text → List Text
add_head c [] = (c ∷ []) ∷ []
add_head c (part ∷ parts) = (c ∷ part) ∷ parts

-- strings.Split at one character
unfoldable pub split : ℕ → Text → List Text
unfolding add_head
split sep [] = [] ∷ []
split sep (c ∷ s) = let parts = split sep s in if c == sep then [] ∷ parts else add_head c parts

abbrev is_prefix : Text → Text → Bool
is_prefix [] t = true
is_prefix (c ∷ s) [] = false
is_prefix (c ∷ s) (d ∷ t) = c == d && is_prefix s t

-- strings.Contains
abbrev pub contains : Text → Text → Bool
contains [] word = is_prefix word []
contains (c ∷ s) word = is_prefix word (c ∷ s) || contains s word
