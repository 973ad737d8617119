-- ===== src/Outfits/CriticTests.antt =====
-- The critic gate over the wardrobe of five items.
use mootd.Prelude.{
  ℕ, ◌≤◌, ◌≡◌, refl, Bool, true, some, List, [], ◌∷◌, String, map, length, All, Result, ok,
}
use mootd.Prelude.Int.{pos}
use mootd.Outfits.{
  Outfit, classify_role, has_role, outfit_fingerprint, admit, validate, validate_outfits, rescore,
}
use mootd.Outfits.Valid.{validate_outfits-IsWearable}
use mootd.Outfits.Snapshots.{attach_item_snapshots}
use mootd.Outfits.Tests.{lower, wardrobe, look, suggest, proposed, whole}
use mootd.Outfits.Critic.{
  CritiqueScore, Generator, Gate, critic_gate, reviewed, judged, regenerated,
}
use mootd.Outfits.Critic.Kept.{IsShown, IsOnce, attach-IsShown, critic_gate-IsShown}

abbrev owned_id : String → Bool
owned_id id = true

-- The one outfit of the three proposed ones, with its snapshots.
abbrev filtered : List (Outfit ℕ)
filtered =
    attach_item_snapshots (validate_outfits lower length suggest wardrobe proposed) wardrobe
      owned_id

abbrev low : List CritiqueScore
low = record { outfit_name = "look"; score = pos 4; reason = "dull" } ∷ []

abbrev borderline : List CritiqueScore
borderline = record { outfit_name = "look"; score = pos 5; reason = "" } ∷ []

abbrev another : Outfit ℕ
another = look ("a1" ∷ "f1" ∷ "b1" ∷ "t1" ∷ [])

abbrev provider : Result (List (Outfit ℕ)) → List CritiqueScore → Generator ℕ ℕ String String String
provider outfits scores = record { generates = λ _. outfits; critic = some (λ _. ok scores) }

abbrev gated : Generator ℕ ℕ String String String → Gate ℕ ℕ String String String
gated generator =
    critic_gate whole lower length suggest generator true "u" wardrobe owned_id [] "12 C" [] [] []
      filtered

abbrev ids : List (Outfit ℕ) → List (List String)
ids os = map (λ o. o.items) os

-- A score of 4 has the batch made again; one of 5 does not, and a second batch with no valid outfit, or
-- none at all, is not taken.
regenerates :
    ids (gated (provider (ok (another ∷ [])) low)).batch ≡ ("a1" ∷ "f1" ∷ "b1" ∷ "t1" ∷ []) ∷ []
unfolding critic_gate reviewed judged regenerated attach_item_snapshots validate_outfits validate
    admit has_role classify_role outfit_fingerprint rescore
regenerates = refl

passes :
    ids (gated (provider (ok (another ∷ [])) borderline)).batch
    ≡ ("t1" ∷ "b1" ∷ "f1" ∷ "o1" ∷ []) ∷ []
unfolding critic_gate reviewed judged regenerated attach_item_snapshots validate_outfits validate
    admit has_role classify_role outfit_fingerprint rescore
passes = refl

keeps : ids (gated (provider (ok (look [] ∷ [])) low)).batch ≡ ("t1" ∷ "b1" ∷ "f1" ∷ "o1" ∷ []) ∷ []
unfolding critic_gate reviewed judged regenerated attach_item_snapshots validate_outfits validate
    admit has_role classify_role outfit_fingerprint rescore
keeps = refl

critic_gate-IsShown_example :
    (length filtered ≤ length (gated (provider (ok (another ∷ [])) low)).batch)
    × All
        (IsShown lower length suggest wardrobe owned_id)
        (gated (provider (ok (another ∷ [])) low)).batch
    × IsOnce whole lower length suggest
        (provider (ok (another ∷ [])) low)
        true
        "u"
        wardrobe
        owned_id
        []
        "12 C"
        []
        []
        []
        filtered
        (gated (provider (ok (another ∷ [])) low)).calls
critic_gate-IsShown_example =
    critic_gate-IsShown whole lower length suggest (provider (ok (another ∷ [])) low) true "u"
      wardrobe owned_id [] "12 C" [] [] [] filtered
      (attach-IsShown lower length suggest wardrobe owned_id
        (validate_outfits lower length suggest wardrobe proposed)
        (validate_outfits-IsWearable lower length suggest wardrobe proposed).0)
