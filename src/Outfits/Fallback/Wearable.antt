-- ===== src/Outfits/Fallback/Wearable.antt =====
-- The fallback outfits against the tests of the validation.
use mootd.Prelude.{
  ℕ, zero, suc, ◌≤◌, ◌≡◌, refl, sym, subst, Bool, true, false, some, List, [], ◌∷◌, String, ltb,
  arith, Text, length, Map, empty, All, Bool-cases, branch, inl, inr,
}
use mootd.Prelude.Float.{Float64}
use mootd.Outfits.{
  Role, tops, bottoms, outerwear, footwear, accessories, ClothingItem, Outfit, index, has_key,
  admit, has_role,
}
use mootd.Outfits.Valid.{IsWearable, admit-wearable}
use mootd.Outfits.Fallback.{
  ScoredArchetype, Draft, filter_by_role, pick, rank_by_archetype, attach_unused, dressed, accented,
  draft, slots, from_buckets, primary_archetype, build_fallback_outfits,
}
use mootd.Outfits.Fallback.Pieces.{
  pick-All, IsPiece, filter_by_role-IsPiece, rank_by_archetype-All, IsStarted, IsKnown,
  attach_picked-IsStarted, attach_unused-IsStarted, All-weaken,
}

module _ (lower : ℕ → ℕ) (by_id : Map ClothingItem) (t : ClothingItem) (ts : List ClothingItem)
    (b : ClothingItem) (bs : List ClothingItem) (f : ClothingItem) (fs os as' : List ClothingItem)
    (top : All (IsPiece by_id lower tops) (t ∷ ts))
    (bottom : All (IsPiece by_id lower bottoms) (b ∷ bs))
    (foot : All (IsPiece by_id lower footwear) (f ∷ fs))
    (outer : All (IsPiece by_id lower outerwear) os)
    (extra : All (IsPiece by_id lower accessories) as') where
  IsGood : ℕ → Draft → Type 0
  IsGood i d = IsStarted by_id (pick t ts i) (pick b bs i) (pick f fs i) d

  known :
      (role : Role) (xs : List ClothingItem)
      → All (IsPiece by_id lower role) xs
      → All (λ it. by_id it.id ≡ some it) xs
  known role xs ps =
      All-weaken (IsPiece by_id lower role) (λ it. by_id it.id ≡ some it) xs (λ it p. p.0) ps

  dressed-IsGood : (i : ℕ) → IsGood i (dressed t ts b bs f fs os as' i)
  unfolding dressed IsGood IsKnown
  dressed-IsGood i =
      attach_picked-IsStarted by_id (pick t ts i) (pick b bs i) (pick f fs i) os i "hero" _ _
        (known outerwear os outer) (record { rest = []; starts = refl; exist = tt })
        (record { rest = []; starts = refl; exist = tt })

  accented-IsGood : (i : ℕ) → IsGood i (accented t ts b bs f fs os as' i)
  unfolding accented IsGood IsKnown
  accented-IsGood i =
      attach_picked-IsStarted by_id (pick t ts i) (pick b bs i) (pick f fs i) as' i "accent" _ _
        (known accessories as' extra) (dressed-IsGood i) (dressed-IsGood i)

  draft-IsGood : (i : ℕ) → IsGood i (draft t ts b bs f fs os as' i)
  unfolding draft IsGood IsKnown
  draft-IsGood i =
      let d = accented t ts b bs f fs os as' i in
      let g : IsGood i d = accented-IsGood i in
      let unused = attach_unused-IsStarted by_id (pick t ts i) (pick b bs i) (pick f fs i) in
      let second = attach_unused (b ∷ bs) d d in
      let h : IsGood i second = unused (b ∷ bs) d d (known bottoms (b ∷ bs) bottom) g g in
      branch (IsGood i) (ltb (length d.ids) 4) (attach_unused (t ∷ ts) d second) d
        (unused (t ∷ ts) d second (known tops (t ∷ ts) top) g h) g

module _ {Sc : Type 0} (lower : ℕ → ℕ) (score : List ClothingItem → Sc)
    (suggest : Sc → (Text → Bool) → String) (items : List ClothingItem) where
  abbrev by_id : Map ClothingItem
  by_id = index empty items

  started-IsWearable :
      (x y z : ClothingItem) (rest : List String)
      → IsPiece by_id lower tops x
      → IsPiece by_id lower bottoms y
      → IsPiece by_id lower footwear z
      → All (λ id. has_key by_id id ≡ true) rest
      → 4 ≤ length (x.id ∷ y.id ∷ z.id ∷ rest)
      → IsWearable lower score suggest items (x.id ∷ y.id ∷ z.id ∷ rest)
  unfolding has_role
  started-IsWearable x y z rest (kx, px) (ky, py) (kz, pz) e n = record {
    enough = n;
    exist = (rw (kx, has_key) refl, (rw (ky, has_key) refl, (rw (kz, has_key) refl, e)));
    top = ground (arith, kx, px);
    bottom = ground (arith, kx, ky, py);
    shoes = ground (arith, kx, ky, kz, pz);
  }

  module _ (t : ClothingItem) (ts : List ClothingItem) (b : ClothingItem) (bs : List ClothingItem)
      (f : ClothingItem) (fs os as' : List ClothingItem)
      (top : All (IsPiece by_id lower tops) (t ∷ ts))
      (bottom : All (IsPiece by_id lower bottoms) (b ∷ bs))
      (foot : All (IsPiece by_id lower footwear) (f ∷ fs))
      (outer : All (IsPiece by_id lower outerwear) os)
      (extra : All (IsPiece by_id lower accessories) as') (no_scores : Sc) (decimal : ℕ → String)
      (primary : String) where
    draft-IsWearable :
        (i : ℕ)
        → ltb (length (draft t ts b bs f fs os as' i).ids) 4 ≡ false
        → IsWearable lower score suggest items (draft t ts b bs f fs os as' i).ids
    unfolding IsGood
    draft-IsWearable i n =
        let g = draft-IsGood lower by_id t ts b bs f fs os as' top bottom foot outer extra i in
        subst (IsWearable lower score suggest items) (sym g.starts) (
          started-IsWearable (pick t ts i) (pick b bs i) (pick f fs i) g.rest
            (pick-All (IsPiece by_id lower tops) t ts i top)
            (pick-All (IsPiece by_id lower bottoms) b bs i bottom)
            (pick-All (IsPiece by_id lower footwear) f fs i foot) g.exist
            (subst (λ ids. 4 ≤ length ids) g.starts (ground (arith, n))))

    slots-IsWearable :
        (i n : ℕ)
        → All
            (λ o. IsWearable lower score suggest items o.items)
            (slots t ts b bs f fs os as' no_scores decimal primary i n)
    unfolding slots
    slots-IsWearable i zero = tt
    slots-IsWearable i (suc n) =
        elim (Bool-cases (ltb (length (draft t ts b bs f fs os as' i).ids) 4)) [
          | inl e ↦ rw (e, slots) (slots-IsWearable (suc i) n)
          | inr e ↦ rw (e, slots) (draft-IsWearable i e, slots-IsWearable (suc i) n)
        ]

  module _ {F : Type 0} (float : Float64 F) (scores : ClothingItem → Map F) (no_scores : Sc)
      (decimal : ℕ → String) (titles : Map String) (archetypes : List (ScoredArchetype F)) where
    bucket : Role → List ClothingItem
    bucket role = rank_by_archetype float scores (filter_by_role lower items role) archetypes

    built : ℕ → List (Outfit Sc)
    built count =
        build_fallback_outfits float scores lower no_scores decimal titles items archetypes count

    bucket-IsPiece :
        All (λ it. by_id it.id ≡ some it) items
        → (role : Role) → All (IsPiece by_id lower role) (bucket role)
    unfolding bucket
    bucket-IsPiece unique role =
        rank_by_archetype-All (IsPiece by_id lower role) float scores
          (filter_by_role lower items role) archetypes
          (filter_by_role-IsPiece by_id lower role items unique)

    from_buckets-IsWearable :
        (primary : String) (count : ℕ) (ts bs fs os as' : List ClothingItem)
        → All (IsPiece by_id lower tops) ts
        → All (IsPiece by_id lower bottoms) bs
        → All (IsPiece by_id lower footwear) fs
        → All (IsPiece by_id lower outerwear) os
        → All (IsPiece by_id lower accessories) as'
        → All
            (λ o. IsWearable lower score suggest items o.items)
            (from_buckets no_scores decimal primary count ts bs fs os as')
    from_buckets-IsWearable primary count [] bs fs os as' pt pb pf po pa = tt
    from_buckets-IsWearable primary count (t ∷ ts) [] fs os as' pt pb pf po pa = tt
    from_buckets-IsWearable primary count (t ∷ ts) (b ∷ bs) [] os as' pt pb pf po pa = tt
    from_buckets-IsWearable primary count (t ∷ ts) (b ∷ bs) (f ∷ fs) os as' pt pb pf po pa =
        slots-IsWearable t ts b bs f fs os as' pt pb pf po pa no_scores decimal primary 0 count

    built-IsWearable :
        (count : ℕ)
        → All (λ it. by_id it.id ≡ some it) items
        → All (λ o. IsWearable lower score suggest items o.items) (built count)
    unfolding built build_fallback_outfits bucket
    built-IsWearable count unique =
        let p = bucket-IsPiece unique in
        from_buckets-IsWearable
          (primary_archetype float scores lower no_scores decimal titles archetypes) count
          (bucket tops) (bucket bottoms) (bucket footwear) (bucket outerwear) (bucket accessories)
          (p tops) (p bottoms) (p footwear) (p outerwear) (p accessories)

    All-admitted :
        (os : List (Outfit Sc))
        → All (λ o. IsWearable lower score suggest items o.items) os
        → All (λ o. admit lower score suggest items o ≡ some o) os
    All-admitted [] ws = tt
    All-admitted (o ∷ os) (w, ws) =
        (admit-wearable lower score suggest items o w, All-admitted os ws)

    -- If no two items of the wardrobe have the same id, then the validation's tests for items and roles
    -- let each fallback outfit through as it is, whatever the ranking.
    pub admit-build_fallback_outfits :
        (count : ℕ)
        → All (λ it. index empty items it.id ≡ some it) items
        → All
            (λ o. admit lower score suggest items o ≡ some o)
            (build_fallback_outfits float scores lower no_scores decimal titles items archetypes
              count)
    unfolding built
    admit-build_fallback_outfits count unique =
        All-admitted (built count) (built-IsWearable count unique)
