-- ===== src/Outfits/Critic.antt =====
-- backend/internal/outfit/service.go: criticGate and itemsToGenItemsWithPreference; with the scores of
-- outfit/critic.go. The weather, the recent boards and the surfaces are passed on as they are.
pub mod Kept
use mootd.Prelude.{
  ℕ, Bool, true, false, not, ◌||◌, Option, none, some, List, [], ◌∷◌, map, any, String, ltb, length,
  if◌then◌else◌, Map, Text, Result, ok, err, Error,
}
use mootd.Prelude.Float.{Float64}
use mootd.Prelude.Int.{ℤ, pos, ltb_ℤ}
use mootd.Outfits.{ClothingItem, Outfit, validate_outfits}
use mootd.Outfits.Fallback.{ScoredArchetype}
use mootd.Outfits.Snapshots.{attach_item_snapshots, is_empty}

pub record CritiqueScore : Type 0 where
  pub outfit_name : String
  pub score : ℤ
  pub reason : String

-- LowScoreThreshold at the value that it is declared with; nothing in the program sets it.
abbrev pub low_score_threshold : ℤ
low_score_threshold = pos 5

abbrev pub any_below_threshold : List CritiqueScore → Bool
any_below_threshold scores = any (λ s. ltb_ℤ s.score low_score_threshold) scores

pub record GenItem (F : Type 0) : Type 0 where
  pub id : String
  pub category : Text
  pub label : String
  pub traits : Map String
  pub preferred : Bool
  pub weight : F

module _ (F Sc Weather Board Surface : Type 0) where
  pub record CritiqueRequest : Type 0 where
    pub outfits : List (Outfit Sc)
    pub top_archetype : String
    pub weather : Weather
    pub user_id : String

  -- The fields that criticGate sets; the others keep their zero values.
  pub record GeneratorRequest : Type 0 where
    pub user_id : String
    pub items : List (GenItem F)
    pub top_archetypes : List (ScoredArchetype F)
    pub weather : Weather
    pub recent_boards : List Board
    pub panels : List Surface
    pub backgrounds : List Surface
    pub use_vision : Bool
    pub creativity : F

  -- The calls that the gate makes.
  pub data Call : Type 0 where
    critique : CritiqueRequest → Call
    generate : GeneratorRequest → Call

  pub record Gate : Type 0 where
    pub batch : List (Outfit Sc)
    pub calls : List Call

  -- The provider: what its Generate gives, without the usage that the gate drops, and its Critique, or
  -- `none` for a provider that does not implement Critic.
  pub record Generator : Type 0 where
    pub generates : GeneratorRequest → Result (List (Outfit Sc))
    pub critic : Option (CritiqueRequest → Result (List CritiqueScore))

module _ {F : Type 0} (float : Float64 F) where
  -- FillerWeight, and the creativity of the second try.
  abbrev pub one_half : F
  one_half = float.div (float.of_int 1) (float.of_int 2)

  abbrev pub items_to_gen_items_with_preference :
      List ClothingItem → (String → Bool) → List (GenItem F)
  items_to_gen_items_with_preference items preferred =
      map
        (λ item. record {
          id = item.id;
          category = item.category;
          label = item.label;
          traits = item.traits;
          preferred = preferred item.id;
          weight = if preferred item.id then float.of_int 1 else one_half;
        })
        items

abbrev pub top_archetype : {F : Type 0} → List (ScoredArchetype F) → String
top_archetype [] = ""
top_archetype (a ∷ as') = a.name

module _ {F Sc Weather Board Surface : Type 0} (float : Float64 F) (lower : ℕ → ℕ)
    (score : List ClothingItem → Sc) (suggest : Sc → (Text → Bool) → String)
    (generator : Generator F Sc Weather Board Surface) (use_vision : Bool) (user_id : String)
    (items : List ClothingItem) (preferred : String → Bool) (top : List (ScoredArchetype F))
    (weather : Weather) (boards : List Board) (panels backgrounds : List Surface) where
  abbrev pub critique_request : List (Outfit Sc) → CritiqueRequest F Sc Weather Board Surface
  critique_request filtered = record {
    outfits = filtered;
    top_archetype = top_archetype top;
    weather = weather;
    user_id = user_id;
  }

  abbrev pub regen_request : GeneratorRequest F Sc Weather Board Surface
  regen_request = record {
    user_id = user_id;
    items = items_to_gen_items_with_preference float items preferred;
    top_archetypes = top;
    weather = weather;
    recent_boards = boards;
    panels = panels;
    backgrounds = backgrounds;
    use_vision = use_vision;
    creativity = one_half float;
  }

  -- The second batch, validated, where it has as many outfits as the first.
  unfoldable pub regenerated : List (Outfit Sc) → Result (List (Outfit Sc)) → List (Outfit Sc)
  regenerated filtered (err _) = filtered
  regenerated filtered (ok outfits) =
      let valid =
        attach_item_snapshots (validate_outfits lower score suggest items outfits) items
          preferred in
      if ltb (length valid) (length filtered) then filtered else valid

  unfoldable pub judged :
      List (Outfit Sc) → Result (List CritiqueScore) → Gate F Sc Weather Board Surface
  judged filtered (err _) = record {
    batch = filtered;
    calls = Call.critique (critique_request filtered) ∷ [];
  }
  judged filtered (ok scores) =
      if not (any_below_threshold scores)
      then record { batch = filtered; calls = Call.critique (critique_request filtered) ∷ [] }
      else record {
        batch = regenerated filtered (generator.generates regen_request);
        calls = Call.critique (critique_request filtered) ∷ Call.generate regen_request ∷ [];
      }

  unfoldable pub reviewed :
      List (Outfit Sc)
      → Option (CritiqueRequest F Sc Weather Board Surface → Result (List CritiqueScore))
      → Gate F Sc Weather Board Surface
  reviewed filtered none = record { batch = filtered; calls = [] }
  reviewed filtered (some review) =
      if is_empty filtered
      then record { batch = filtered; calls = [] }
      else judged filtered (review (critique_request filtered))

  unfoldable pub critic_gate : List (Outfit Sc) → Gate F Sc Weather Board Surface
  critic_gate filtered = reviewed filtered generator.critic
