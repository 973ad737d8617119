-- ===== src/Outfits/Fallback/Pieces.antt =====
-- The pieces of a fallback outfit are items of the wardrobe.
use mootd.Prelude.{
  ℕ, zero, suc, ◌%◌, ◌≡◌, refl, ap, Bool, true, Option, none, some, List, [], ◌∷◌, ◌++◌, String,
  length, get_or, Map, empty, All, All-append, Bool-cases, branch, AllOption, inl, inr,
}
use mootd.Prelude.Float.{Float64}
use mootd.Outfits.{Role, classify_role, role_eq, ClothingItem, has_key}
use mootd.Outfits.Fallback.{
  ScoredArchetype, zero_or, is_used, Draft, attach, first_unused, filter_by_role, pick,
  insert_ranked, sort_ranked, item_scores, rank_by_archetype, attach_picked, attach_found,
  attach_unused,
}

module _ {κ} (P : ClothingItem → Type κ) where
  get_or-All :
      (x : ClothingItem) (xs : List ClothingItem) (i : ℕ) → P x → All P xs → P (get_or xs i x)
  get_or-All x [] i p ps = p
  get_or-All x (y ∷ ys) zero p (q, qs) = q
  get_or-All x (y ∷ ys) (suc i) p (q, qs) = get_or-All x ys i p qs

  pub pick-All :
      (x : ClothingItem) (xs : List ClothingItem) (i : ℕ) → All P (x ∷ xs) → P (pick x xs i)
  pick-All x xs i (p, ps) = get_or-All x (x ∷ xs) (i % length (x ∷ xs)) p (p, ps)

  first_unused-All :
      (xs : List ClothingItem) (used : Map Bool) → All P xs → AllOption P (first_unused xs used)
  first_unused-All [] used ps = tt
  first_unused-All (y ∷ ys) used (p, ps) =
      branch (AllOption P) (is_used used y.id) (first_unused ys used) (some y)
        (first_unused-All ys used ps) p

  module _ {F : Type 0} (float : Float64 F) (scores : ClothingItem → Map F) where
    insert_ranked-All :
        (m : Map F) (x : ClothingItem) (xs : List ClothingItem)
        → P x
        → All P xs
        → All P (insert_ranked float scores m x xs)
    insert_ranked-All m x [] p ps = (p, tt)
    insert_ranked-All m x (y ∷ ys) p (q, qs) =
        branch (All P) (float.lt (zero_or float scores (m x.id)) (zero_or float scores (m y.id)))
          (y ∷ insert_ranked float scores m x ys) (x ∷ y ∷ ys) (q, insert_ranked-All m x ys p qs)
          (p, (q, qs))

    sort_ranked-All :
        (m : Map F) (xs : List ClothingItem) → All P xs → All P (sort_ranked float scores m xs)
    sort_ranked-All m [] ps = tt
    sort_ranked-All m (x ∷ xs) (p, ps) =
        insert_ranked-All m x (sort_ranked float scores m xs) p (sort_ranked-All m xs ps)

    pub rank_by_archetype-All :
        (xs : List ClothingItem) (top : List (ScoredArchetype F))
        → All P xs
        → All P (rank_by_archetype float scores xs top)
    unfolding rank_by_archetype
    rank_by_archetype-All xs [] ps = ps
    rank_by_archetype-All xs (a ∷ top) ps =
        sort_ranked-All (item_scores float scores empty xs (a ∷ top)) xs ps

-- A piece that its id finds again in the wardrobe `by_id`, of a role.
abbrev pub IsPiece : Map ClothingItem → (ℕ → ℕ) → Role → ClothingItem → Type 0
IsPiece by_id lower role it =
    (by_id it.id ≡ some it) × (role_eq (classify_role lower it.category) role ≡ true)

pub filter_by_role-IsPiece :
    (by_id : Map ClothingItem) (lower : ℕ → ℕ) (role : Role) (items : List ClothingItem)
    → All (λ it. by_id it.id ≡ some it) items
    → All (IsPiece by_id lower role) (filter_by_role lower items role)
filter_by_role-IsPiece by_id lower role [] ps = tt
filter_by_role-IsPiece by_id lower role (it ∷ items) (p, ps) =
    elim (Bool-cases (role_eq (classify_role lower it.category) role)) [
      | inl e ↦ rw e ((p, e), filter_by_role-IsPiece by_id lower role items ps)
      | inr e ↦ rw e (filter_by_role-IsPiece by_id lower role items ps)
    ]

module _ (by_id : Map ClothingItem) (x y z : ClothingItem) where
  -- The draft has the three basics and then pieces of the wardrobe.
  pub record IsStarted (d : Draft) : Type 0 where
    pub rest : List String
    pub starts : d.ids ≡ x.id ∷ y.id ∷ z.id ∷ rest
    pub exist : All (λ id. has_key by_id id ≡ true) rest

  unfoldable pub IsKnown : ClothingItem → Type 0
  IsKnown it = by_id it.id ≡ some it

  attach-IsStarted :
      (it : ClothingItem) (role : String) (d : Draft)
      → IsKnown it
      → IsStarted d
      → IsStarted (attach it role d)
  unfolding IsKnown
  attach-IsStarted it role d k s = record {
    rest = s.rest ++ (it.id ∷ []);
    starts = ap (λ ids. ids ++ (it.id ∷ [])) s.starts;
    exist =
        All-append (λ id. has_key by_id id ≡ true) s.rest (it.id ∷ []) s.exist
          (rw (k, has_key) refl, tt);
  }

  pub attach_picked-IsStarted :
      (xs : List ClothingItem) (i : ℕ) (role : String) (d e : Draft)
      → All IsKnown xs
      → IsStarted d
      → IsStarted e
      → IsStarted (attach_picked xs i role d e)
  attach_picked-IsStarted [] i role d e ks s t = t
  attach_picked-IsStarted (w ∷ ws) i role d e ks s t =
      attach-IsStarted (pick w ws i) role d (pick-All IsKnown w ws i ks) s

  attach_found-IsStarted :
      (o : Option ClothingItem) (d e : Draft)
      → AllOption IsKnown o
      → IsStarted d
      → IsStarted e
      → IsStarted (attach_found o d e)
  attach_found-IsStarted none d e k s t = t
  attach_found-IsStarted (some w) d e k s t = attach-IsStarted w "accent" d k s

  pub attach_unused-IsStarted :
      (xs : List ClothingItem) (d e : Draft)
      → All IsKnown xs
      → IsStarted d
      → IsStarted e
      → IsStarted (attach_unused xs d e)
  attach_unused-IsStarted xs d e ks s t =
      attach_found-IsStarted (first_unused xs d.used) d e (first_unused-All IsKnown xs d.used ks) s
        t

pub All-weaken {κ μ} :
    (P : ClothingItem → Type κ) (Q : ClothingItem → Type μ) (xs : List ClothingItem)
    → ((x : ClothingItem) → P x → Q x)
    → All P xs
    → All Q xs
All-weaken P Q [] f ps = tt
All-weaken P Q (x ∷ xs) f (p, ps) = (f x p, All-weaken P Q xs f ps)
