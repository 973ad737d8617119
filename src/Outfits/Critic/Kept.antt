-- ===== src/Outfits/Critic/Kept.antt =====
-- What the critic gate keeps of a batch.
use mootd.Prelude.{
  ℕ, ◌≤◌, ◌≡◌, refl, sym, subst, map, ◌||◌, String, Bool, true, false, Option, none, some, List, [],
  ◌∷◌, String, length, All, arith, Text, Result, ok, err, Bool-cases, inl, inr, ◌⊎◌, ltb, empty,
}
use mootd.Prelude.Float.{Float64}
use mootd.Outfits.{ClothingItem, Outfit, index, has_key, validate_outfits}
use mootd.Outfits.Valid.{IsWearable, validate_outfits-IsWearable}
use mootd.Outfits.Snapshots.{
  attach_item_snapshots, attach_item_snapshots-IsComplete, IsComplete, is_empty,
}
use mootd.Outfits.Fallback.{ScoredArchetype}
use mootd.Outfits.Critic.{
  Generator, critic_gate, judged, reviewed, CritiqueRequest, regenerated, any_below_threshold, Gate,
  CritiqueScore, Call, critique, generate, critique_request, regen_request,
}

module _ {Sc : Type 0} (lower : ℕ → ℕ) (score : List ClothingItem → Sc)
    (suggest : Sc → (Text → Bool) → String) (items : List ClothingItem)
    (preferred : String → Bool) where
  abbrev IsWorn : Outfit Sc → Type 0
  IsWorn o = IsWearable lower score suggest items o.items

  -- The outfit is wearable, and its snapshots are those of its items.
  abbrev pub IsShown : Outfit Sc → Type 0
  IsShown o = IsWearable lower score suggest items o.items × IsComplete items preferred o

  with_items :
      (xs : List ClothingItem) (ids : List String)
      → 4 ≤ length ids
      → All (λ id. has_key (index empty xs) id ≡ true) ids
      → (is_empty ids ≡ false) × (is_empty xs ≡ false)
  with_items xs [] n h = ground arith
  with_items [] (id ∷ ids) n (h, hs) = ground arith
  with_items (x ∷ xs) (id ∷ ids) n h = (refl, refl)

  All-map_items :
      (f : Outfit Sc → Outfit Sc) (os : List (Outfit Sc))
      → ((o : Outfit Sc) → (f o).items ≡ o.items)
      → All IsWorn os
      → All IsWorn (map f os)
  All-map_items f [] same w = tt
  All-map_items f (o ∷ os) same (w, ws) =
      (subst (IsWearable lower score suggest items) (sym (same o)) w, All-map_items f os same ws)

  attach-IsWorn :
      (os : List (Outfit Sc))
      → All IsWorn os
      → All IsWorn (attach_item_snapshots os items preferred)
  unfolding attach_item_snapshots
  attach-IsWorn os w = elim (Bool-cases (is_empty os || is_empty items)) [
    | inl e ↦ rw e w
    | inr e ↦ rw e (All-map_items _ os (λ o. ground arith) w)
  ]

  All-both :
      (P Q : Outfit Sc → Type 0) (os : List (Outfit Sc))
      → All P os
      → All Q os
      → All (λ o. P o × Q o) os
  All-both P Q [] p q = tt
  All-both P Q (o ∷ os) (p, ps) (q, qs) = ((p, q), All-both P Q os ps qs)

  All-imp :
      (P Q : Outfit Sc → Type 0) (os : List (Outfit Sc))
      → ((o : Outfit Sc) → P o → Q o)
      → All P os
      → All Q os
  All-imp P Q [] f p = tt
  All-imp P Q (o ∷ os) f (p, ps) = (f o p, All-imp P Q os f ps)

  -- Validated outfits with their snapshots attached are shown as they should be.
  pub attach-IsShown :
      (os : List (Outfit Sc))
      → All IsWorn os
      → All IsShown (attach_item_snapshots os items preferred)
  unfolding attach_item_snapshots
  attach-IsShown [] w = tt
  attach-IsShown (o ∷ os) w =
      All-both IsWorn (IsComplete items preferred) _ (attach-IsWorn (o ∷ os) w) (
        attach_item_snapshots-IsComplete items preferred (o ∷ os)
          (with_items items o.items w.0.enough w.0.exist).1
          (All-imp IsWorn _ (o ∷ os) (λ p v. (with_items items p.items v.enough v.exist).0) w)
          (All-imp IsWorn _ (o ∷ os) (λ p v. v.exist) w))

module _ {F Sc Weather Board Surface : Type 0} (float : Float64 F) (lower : ℕ → ℕ)
    (score : List ClothingItem → Sc) (suggest : Sc → (Text → Bool) → String)
    (generator : Generator F Sc Weather Board Surface) (use_vision : Bool) (user_id : String)
    (items : List ClothingItem) (preferred : String → Bool) (top : List (ScoredArchetype F))
    (weather : Weather) (boards : List Board) (panels backgrounds : List Surface) where
  abbrev gate : List (Outfit Sc) → Gate F Sc Weather Board Surface
  gate =
      critic_gate float lower score suggest generator use_vision user_id items preferred top weather
        boards panels backgrounds

  -- No worse than the batch: as many outfits at least, all of them shown as they should be.
  IsKept : List (Outfit Sc) → List (Outfit Sc) → Type 0
  IsKept filtered batch =
      (length filtered ≤ length batch) × All (IsShown lower score suggest items preferred) batch

  regenerated-IsKept :
      (filtered : List (Outfit Sc)) (r : Result (List (Outfit Sc)))
      → All (IsShown lower score suggest items preferred) filtered
      → IsKept filtered (
          regenerated float lower score suggest generator use_vision user_id items preferred top
            weather boards panels backgrounds filtered r)
  unfolding regenerated IsKept
  regenerated-IsKept filtered (err e) w = (omega arith, w)
  regenerated-IsKept filtered (ok os) w =
      let valid =
        attach_item_snapshots (validate_outfits lower score suggest items os) items preferred in
      elim (Bool-cases (ltb (length valid) (length filtered))) [
        | inl l ↦ rw l (omega arith, w)
        | inr l ↦ rw l (
          ground (arith, l),
          attach-IsShown lower score suggest items preferred
              (validate_outfits lower score suggest items os)
              (validate_outfits-IsWearable lower score suggest items os).0,
        )
      ]

  -- No call, a Critique, or a Critique and then a Generate, each with the request of the code.
  abbrev pub IsOnce : List (Outfit Sc) → List (Call F Sc Weather Board Surface) → Type 0
  IsOnce filtered calls =
      let first : Call F Sc Weather Board Surface = critique (
        critique_request float lower score suggest generator use_vision user_id items preferred top
          weather boards panels backgrounds filtered) in
      (calls ≡ [])
      ⊎ (calls ≡ first ∷ [])
      ⊎ (calls
          ≡ first
            ∷ generate (
                regen_request float lower score suggest generator use_vision user_id items preferred
                  top weather boards panels backgrounds)
            ∷ [])

  IsGated : List (Outfit Sc) → Gate F Sc Weather Board Surface → Type 0
  IsGated filtered g = IsKept filtered g.batch × IsOnce filtered g.calls

  same-IsKept :
      (filtered : List (Outfit Sc))
      → All (IsShown lower score suggest items preferred) filtered
      → IsKept filtered filtered
  unfolding IsKept
  same-IsKept filtered w = (omega arith, w)

  judged-IsGated :
      (filtered : List (Outfit Sc)) (r : Result (List CritiqueScore))
      → All (IsShown lower score suggest items preferred) filtered
      → IsGated filtered (
          judged float lower score suggest generator use_vision user_id items preferred top weather
            boards panels backgrounds filtered r)
  unfolding judged IsGated
  judged-IsGated filtered (err e) w = (same-IsKept filtered w, inr (inl refl))
  judged-IsGated filtered (ok scores) w = elim (Bool-cases (any_below_threshold scores)) [
    | inl b ↦ rw b (regenerated-IsKept filtered _ w, inr (inr refl))
    | inr b ↦ rw b (same-IsKept filtered w, inr (inl refl))
  ]

  reviewed-IsGated :
      (filtered : List (Outfit Sc))
      (critic : Option (CritiqueRequest F Sc Weather Board Surface → Result (List CritiqueScore)))
      → All (IsShown lower score suggest items preferred) filtered
      → IsGated filtered (
          reviewed float lower score suggest generator use_vision user_id items preferred top
            weather boards panels backgrounds filtered critic)
  unfolding reviewed IsGated
  reviewed-IsGated filtered none w = (same-IsKept filtered w, inl refl)
  reviewed-IsGated filtered (some review) w = elim (Bool-cases (is_empty filtered)) [
    | inl e ↦ rw e (same-IsKept filtered w, inl refl)
    | inr e ↦ rw e (judged-IsGated filtered _ w)
  ]

  -- If each outfit of the batch is wearable and has the snapshots of its items, then so does each outfit
  -- that the critic gate returns, which are as many at least, whatever the critic and the provider answer
  -- or fail with; and the gate calls Critique once at most and then Generate once at most.
  pub critic_gate-IsShown :
      (filtered : List (Outfit Sc))
      → All (IsShown lower score suggest items preferred) filtered
      → (length filtered ≤ length (gate filtered).batch)
        × All (IsShown lower score suggest items preferred) (gate filtered).batch
        × IsOnce filtered (gate filtered).calls
  unfolding critic_gate IsKept IsGated
  critic_gate-IsShown filtered w =
      let ((n, s), o) = reviewed-IsGated filtered generator.critic w in (n, s, o)
