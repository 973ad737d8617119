-- ===== src/Permissions/Sets.antt =====
-- The listing of permissions and the test of one agree, and the listing is sorted.
use mootd.Prelude.{
  ◌≡◌, refl, sym, ap, ◌∙◌, Bool, true, false, ◌||◌, Option, none, some, List, [], ◌∷◌, String,
  str_eq, eq_iff, arith, Bool-cases, inl, inr, ◌↔◌,
}
use Prim.Native.String.compare as order
use Prim.Native.String.{compare, then as first}
use Prim.Native.Nat.{compare as compare_ℕ, Ordering}
use Prim.Native.Char.{code}
use mootd.Prelude.{ℕ}
use text.Mathlib.Text.{is_lt}
use mootd.Permissions.{
  granted, contains, has_permission, add, add_all, collect, sink, sort_loop, reversed, sort_strings,
  permissions_for, served, require_permission,
}

or_assoc : (a b c : Bool) → (a || b || c) ≡ (a || (b || c))
or_assoc a b c = ground arith

same_contains :
    (got : List String) (p q : String) → str_eq p q ≡ true → contains got p ≡ contains got q
same_contains got p q e = ap (contains got) ((eq_iff p q).0 e)

contains-add :
    (got : List String) (p q : String) → contains (add got p) q ≡ (contains got q || str_eq p q)
contains-add got p q = elim (Bool-cases (contains got p)) [
  | inl e ↦ ground (arith, e, same_contains got p q)
  | inr e ↦ ground (arith, e)
]

contains-add_all :
    (got ps : List String) (q : String)
    → contains (add_all got ps) q ≡ (contains got q || contains ps q)
contains-add_all got [] q = ground arith
contains-add_all got (p ∷ ps) q =
    ground (arith, contains-add_all (add got p) ps q, contains-add got p q)

contains-collect :
    (got roles : List String) (q : String)
    → contains (collect got roles) q ≡ (contains got q || has_permission roles q)
unfolding has_permission
contains-collect got [] q = ground arith
contains-collect got (r ∷ roles) q =
    ground (
      arith,
      contains-collect (add_all got (granted r)) roles q,
      contains-add_all got (granted r) q,
    )

contains-sink :
    (x : String) (ys : List String) (q : String)
    → contains (sink x ys) q ≡ (str_eq x q || contains ys q)
contains-sink x [] q = refl
contains-sink x (y ∷ ys) q = ground (arith, contains-sink x ys q)

contains-sort_loop :
    (done xs : List String) (q : String)
    → contains (sort_loop done xs) q ≡ (contains done q || contains xs q)
contains-sort_loop done [] q = ground arith
contains-sort_loop done (x ∷ xs) q =
    ground (arith, contains-sort_loop (sink x done) xs q, contains-sink x done q)

contains-reversed :
    (acc xs : List String) (q : String)
    → contains (reversed acc xs) q ≡ (contains acc q || contains xs q)
contains-reversed acc [] q = ground arith
contains-reversed acc (x ∷ xs) q = ground (arith, contains-reversed (x ∷ acc) xs q)

-- A permission is in the list that the client is shown exactly if the check of the same roles grants it.
contains-permissions_for :
    (roles : List String) (perm : String)
    → contains (permissions_for roles) perm ≡ has_permission roles perm
unfolding permissions_for sort_strings
contains-permissions_for roles perm =
    contains-reversed [] (sort_loop [] (collect [] roles)) perm
    ∙ contains-sort_loop [] (collect [] roles) perm
    ∙ contains-collect [] roles perm

-- The order of two texts is their first characters', or that of the rest.
first_asym :
    (m n : ℕ) (o p : Ordering)
    → (is_lt o ≡ true → is_lt p ≡ false)
    → is_lt (first (compare_ℕ m n) o) ≡ true
    → is_lt (first (compare_ℕ n m) p) ≡ false
first_asym m n o p f h = ground arith

compare_asym : (s t : String) → is_lt (compare s t) ≡ true → is_lt (compare t s) ≡ false
compare_asym String.[] String.[] h = refl
compare_asym String.[] (String.◌∷◌ d t) h = ap is_lt (order.cons-nil d t)
compare_asym (String.◌∷◌ c s) String.[] h = ground (arith, h, order.cons-nil c s)
compare_asym (String.◌∷◌ c s) (String.◌∷◌ d t) h =
    ap is_lt (order.cons-cons d c t s)
    ∙ first_asym (code c) (code d) (compare s t) (compare t s) (compare_asym s t)
        (sym (ap is_lt (order.cons-cons c d s t)) ∙ h)

-- Each is not after the next.
abbrev pub IsSorted : List String → Type 0
IsSorted [] = Unit
IsSorted (x ∷ []) = Unit
IsSorted (x ∷ y ∷ xs) = (is_lt (compare y x) ≡ false) × IsSorted (y ∷ xs)

-- Each is not before the next.
IsFalling : List String → Type 0
IsFalling [] = Unit
IsFalling (x ∷ []) = Unit
IsFalling (x ∷ y ∷ xs) = (is_lt (compare x y) ≡ false) × IsFalling (y ∷ xs)

sink_below :
    (x y : String) (zs : List String)
    → is_lt (compare y x) ≡ false
    → IsFalling (y ∷ zs)
    → IsFalling (y ∷ sink x zs)
unfolding IsFalling
sink_below x y [] h f = (h, tt)
sink_below x y (z ∷ zs) h (k, f) = elim (Bool-cases (is_lt (compare x z))) [
  | inl e ↦ rw (e, sink) (k, sink_below x z zs (compare_asym x z e) f)
  | inr e ↦ rw (e, sink) (h, (e, f))
]

sink-IsFalling : (x : String) (ys : List String) → IsFalling ys → IsFalling (sink x ys)
unfolding IsFalling
sink-IsFalling x [] f = tt
sink-IsFalling x (y ∷ ys) f = elim (Bool-cases (is_lt (compare x y))) [
  | inl e ↦ rw (e, sink) (sink_below x y ys (compare_asym x y e) f)
  | inr e ↦ rw (e, sink) (e, f)
]

sort_loop-IsFalling : (done xs : List String) → IsFalling done → IsFalling (sort_loop done xs)
sort_loop-IsFalling done [] f = f
sort_loop-IsFalling done (x ∷ xs) f = sort_loop-IsFalling (sink x done) xs (sink-IsFalling x done f)

IsLinked : List String → List String → Type 0
IsLinked [] ys = Unit
IsLinked (x ∷ xs) [] = Unit
IsLinked (x ∷ xs) (y ∷ ys) = is_lt (compare x y) ≡ false

cons-IsSorted :
    (acc ys : List String) (x : String) → IsSorted acc → IsLinked acc (x ∷ ys) → IsSorted (x ∷ acc)
unfolding IsLinked
cons-IsSorted [] ys x s l = tt
cons-IsSorted (a ∷ acc) ys x s l = (l, s)

reversed-IsSorted :
    (acc xs : List String)
    → IsSorted acc
    → IsFalling xs
    → IsLinked acc xs
    → IsSorted (reversed acc xs)
unfolding IsFalling IsLinked
reversed-IsSorted acc [] s f l = s
reversed-IsSorted acc (x ∷ []) s f l = cons-IsSorted acc [] x s l
reversed-IsSorted acc (x ∷ y ∷ xs) s (k, f) l =
    reversed-IsSorted (x ∷ acc) (y ∷ xs) (cons-IsSorted acc (y ∷ xs) x s l) f k

-- The list of permissions is in ascending order.
pub permissions_for-IsSorted : (roles : List String) → IsSorted (permissions_for roles)
unfolding permissions_for sort_strings IsFalling IsLinked
permissions_for-IsSorted roles =
    reversed-IsSorted [] (sort_loop [] (collect [] roles)) tt
      (sort_loop-IsFalling [] (collect [] roles) tt) tt

-- The handler behind the middleware runs exactly if the context has roles and one of them grants the
-- permission, so if the permission is one of those listed for these roles.
pub require_permission-served :
    {A : Type 0} (perm : String) (roles : Option (List String)) (next : A)
    → (require_permission perm roles next ≡ served next)
      ↔ ((rs : List String) × (roles ≡ some rs) × (contains (permissions_for rs) perm ≡ true))
unfolding require_permission
require_permission-served perm none next = (λ e. ground arith, λ (rs, e, g). ground (arith, e))
require_permission-served perm (some rs) next = (
  λ e. (rs, refl, ground (arith, e, contains-permissions_for rs perm)),
  λ (qs, e, g). ground (arith, e, g, contains-permissions_for qs perm),
)
