-- ===== src/Prelude/Mongo.antt =====
-- A collection of MongoDB, as the repositories use it: FindOne, InsertOne and UpdateOne, whose result is
-- whether a document was modified, or for some repositories whether one was matched. The filter and the update are functions of the document.
use mathlib.Core.Path.{◌≡◌}
use mathlib.Core.Bool.{Bool, true, false}
use mathlib.Core.Option.{Option, none, some}
use mootd.Prelude.{◌⊎◌}
use mathlib.Core.List.{List, [], ◌∷◌}
use mootd.Prelude.Tests.{if◌then◌else◌}
use mootd.Prelude.Errors.{Error, Result, ok, err}

pub record Collection (A W : Type 0) : Type 0 where
  pub find_one : (A → Bool) → W → Result (Option A) × W
  pub insert_one : A → W → Option Error × W
  pub update_one : (A → Bool) → (A → A) → W → Result Bool × W

module _ {A : Type 0} where
  -- The document that a filter finds, in the collection's order.
  abbrev pub first_match : (A → Bool) → List A → Option A
  first_match p [] = none
  first_match p (x ∷ xs) = if p x then some x else first_match p xs

  abbrev pub update_first : (A → Bool) → (A → A) → List A → List A
  update_first p f [] = []
  update_first p f (x ∷ xs) = if p x then f x ∷ xs else x ∷ update_first p f xs

  abbrev pub matches : (A → Bool) → List A → Bool
  matches p xs = elim (first_match p xs) [ none ↦ false | some _ ↦ true ]

-- `docs` are the documents. An update that modified or matched a document had one that the filter selects
-- (one that it selects may be left as it is); an update that fails has changed nothing, or was done
-- and its answer was lost.
pub record IsMongo {A W : Type 0} (col : Collection A W) (docs : W → List A) : Type 0 where
  pub find_ok :
      (p : A → Bool) (w : W) (found : Option A)
      → (col.find_one p w).0 ≡ ok found
      → found ≡ first_match p (docs w)
  pub find_docs : (p : A → Bool) (w : W) → docs (col.find_one p w).1 ≡ docs w
  pub update_ok :
      (p : A → Bool) (f : A → A) (w : W) (hit : Bool)
      → (col.update_one p f w).0 ≡ ok hit
      → (hit ≡ true → matches p (docs w) ≡ true)
        × (docs (col.update_one p f w).1 ≡ update_first p f (docs w))
  pub update_err :
      (p : A → Bool) (f : A → A) (w : W) (e : Error)
      → (col.update_one p f w).0 ≡ err e
      → (docs (col.update_one p f w).1 ≡ docs w)
        ⊎ (docs (col.update_one p f w).1 ≡ update_first p f (docs w))
  pub insert_ok :
      (x : A) (w : W) → (col.insert_one x w).0 ≡ none → docs (col.insert_one x w).1 ≡ x ∷ docs w
