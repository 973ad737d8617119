-- ===== src/Outfits/Progress.antt =====
-- backend/internal/outfit/service.go: runWithProgress, with its heartbeat goroutine, and what
-- handleSSEStream of handler.go writes.
use mootd.Prelude.{
  ℕ, zero, suc, ◌%◌, ◌≡◌, refl, ap, ◌∙◌, subst, Bool, true, false, List, [], ◌∷◌, ◌++◌, map, String,
  Bool-cases, inl, inr, arith, length, get_or, Result, ok, err, Error,
}
use mathlib.Core.List.{append_assoc, map-append}

pub data Stage : Type 0 where
  connecting streaming done error : Stage

-- GenerateProgress
pub record GenerateProgress (O : Type 0) : Type 0 where
  pub stage : Stage
  pub description : String
  pub outfits : List O

abbrev pub messages : List String
messages =
    "Drafting outfits…" ∷ "Picking pieces from your wardrobe…" ∷ "Matching to today's weather…"
    ∷ "Almost there…" ∷ []

-- Where the caller is: before its first emit, in `work`, waiting for the heartbeat to exit after
-- `work` gave a result, and returned with it.
pub data Caller (O : Type 0) : Type 0 where
  starting : Caller O
  working : Caller O
  joining : Result (List O) → Caller O
  returned : Result (List O) → Caller O

-- `beating` says that the heartbeat goroutine runs, and `beats` is its `i`.
pub record Run (O : Type 0) : Type 0 where
  pub caller : Caller O
  pub beating : Bool
  pub beats : ℕ
  pub emitted : List (GenerateProgress O)

abbrev pub progress_events : ℕ → List String
progress_events zero = []
progress_events (suc n) = "progress" ∷ progress_events n

abbrev pub last_events : {A : Type 0} → Result A → List String
last_events (ok _) = "done" ∷ []
last_events (err _) = "error" ∷ "error" ∷ []

progress_events-suc : (n : ℕ) → progress_events n ++ ("progress" ∷ []) ≡ progress_events (suc n)
progress_events-suc zero = refl
progress_events-suc (suc n) = ap (λ l. "progress" ∷ l) (progress_events-suc n)

module _ {O : Type 0} where
  abbrev pub emit : Run O → GenerateProgress O → List (GenerateProgress O)
  emit s p = s.emitted ++ (p ∷ [])

  abbrev pub start : Run O
  start = record { caller = starting; beating = false; beats = 0; emitted = [] }

  abbrev pub connected : GenerateProgress O
  connected = record { stage = connecting; description = ""; outfits = [] }

  abbrev pub heartbeat : ℕ → GenerateProgress O
  heartbeat i = record {
    stage = streaming;
    description = get_or messages (i % length messages) "";
    outfits = [];
  }

  -- The first `n` heartbeats.
  abbrev pub heartbeats : ℕ → List (GenerateProgress O)
  heartbeats zero = []
  heartbeats (suc n) = heartbeats n ++ (heartbeat n ∷ [])

-- The events that go over the stream: `onProgress` names each by its stage, and after an error the
-- handler writes one more.
abbrev pub event : {O : Type 0} → GenerateProgress O → String
event p = elim p.stage [ done ↦ "done" | error ↦ "error" | _ ↦ "progress" ]

abbrev pub handler_event : {A : Type 0} → Result A → List String
handler_event (ok _) = []
handler_event (err _) = "error" ∷ []

unfoldable pub streamed_events :
    {O : Type 0} → List (GenerateProgress O) → Result (List O) → List String
streamed_events emitted r = map event emitted ++ handler_event r

event-heartbeats : (O : Type 0) (n : ℕ) → map event (heartbeats {O = O} n) ≡ progress_events n
event-heartbeats O zero = refl
event-heartbeats O (suc n) =
    map-append event (heartbeats n) (heartbeat n ∷ [])
    ∙ ap (λ l. l ++ ("progress" ∷ [])) (event-heartbeats O n)
    ∙ progress_events-suc n

module _ {O : Type 0} (text : Error → String) where
  abbrev pub terminal : Result (List O) → GenerateProgress O
  terminal (ok outfits) = record { stage = done; description = ""; outfits = outfits }
  terminal (err e) = record { stage = error; description = text e; outfits = [] }

  -- Each step is atomic, since `emit` holds the mutex. The goroutine's `select` may still choose the
  -- ticker once the context is cancelled, and the context of the request may end it at any time.
  pub data Step : Run O → Run O → Type 0 where
    connect :
        (s : Run O)
        → s.caller ≡ starting
        → Step s (record s { caller = working; beating = true; emitted = emit s connected })
    tick :
        (s : Run O)
        → s.beating ≡ true
        → Step s (record s { beats = suc s.beats; emitted = emit s (heartbeat s.beats) })
    work :
        (s : Run O) (r : Result (List O))
        → s.caller ≡ working
        → Step s (record s { caller = joining r })
    exit : (s : Run O) → s.beating ≡ true → Step s (record s { beating = false })
    end :
        (s : Run O) (r : Result (List O))
        → s.caller ≡ joining r
        → s.beating ≡ false
        → Step s (record s { caller = returned r; emitted = emit s (terminal r) })

  pub data Reach (s : Run O) : Run O → Type 0 where
    here : Reach s s
    next : {t u : Run O} → Reach s t → Step t u → Reach s u

  -- What is emitted by each point.
  abbrev pub Emitted : Caller O → Bool → ℕ → List (GenerateProgress O) → Type 0
  Emitted starting b n log = (log ≡ []) × (b ≡ false) × (n ≡ 0)
  Emitted working b n log = log ≡ connected ∷ heartbeats n
  Emitted (joining r) b n log = log ≡ connected ∷ heartbeats n
  Emitted (returned r) b n log =
      (log ≡ connected ∷ (heartbeats n ++ (terminal r ∷ []))) × (b ≡ false)

  tick-Emitted :
      (c : Caller O) (b : Bool) (n : ℕ) (log : List (GenerateProgress O))
      → b ≡ true
      → Emitted c b n log
      → Emitted c b (suc n) (log ++ (heartbeat n ∷ []))
  tick-Emitted starting b n log e h = ground (arith, e, h)
  tick-Emitted working b n log e h = ap (λ l. l ++ (heartbeat n ∷ [])) h
  tick-Emitted (joining r) b n log e h = ap (λ l. l ++ (heartbeat n ∷ [])) h
  tick-Emitted (returned r) b n log e h = ground (arith, e, h)

  exit-Emitted :
      (c : Caller O) (b : Bool) (n : ℕ) (log : List (GenerateProgress O))
      → Emitted c b n log
      → Emitted c false n log
  exit-Emitted starting b n log (e, _, z) = (e, refl, z)
  exit-Emitted working b n log h = h
  exit-Emitted (joining r) b n log h = h
  exit-Emitted (returned r) b n log (e, _) = (e, refl)

  connect-Emitted :
      (b : Bool) (n : ℕ) (log : List (GenerateProgress O))
      → Emitted starting b n log
      → Emitted working true n (log ++ (connected ∷ []))
  connect-Emitted b zero log (e, _, z) = ap (λ l. l ++ (connected ∷ [])) e
  connect-Emitted b (suc n) log (e, _, z) = absurd (omega arith)

  Step-Emitted :
      {s u : Run O}
      → Step s u
      → Emitted s.caller s.beating s.beats s.emitted
      → Emitted u.caller u.beating u.beats u.emitted
  Step-Emitted (connect s e) h =
      connect-Emitted s.beating s.beats s.emitted
        (subst (λ c. Emitted c s.beating s.beats s.emitted) e h)
  Step-Emitted (tick s e) h = tick-Emitted s.caller s.beating s.beats s.emitted e h
  Step-Emitted (work s r e) h = subst (λ c. Emitted c s.beating s.beats s.emitted) e h
  Step-Emitted (exit s e) h = exit-Emitted s.caller s.beating s.beats s.emitted h
  Step-Emitted (end s r e b) h =
      let waits : s.emitted ≡ connected ∷ heartbeats s.beats =
        subst (λ c. Emitted c s.beating s.beats s.emitted) e h in
      (ap (λ l. l ++ (terminal r ∷ [])) waits, b)

  Reach-Emitted : {s : Run O} → Reach start s → Emitted s.caller s.beating s.beats s.emitted
  Reach-Emitted here = (refl, refl, refl)
  Reach-Emitted (next r st) = Step-Emitted st (Reach-Emitted r)

  -- From the moment `work` has its result, at most two more steps of the goroutine and the caller end it.
  pub joining-ends :
      (s : Run O) (r : Result (List O))
      → s.caller ≡ joining r
      → (u : Run O) × Reach s u × (u.caller ≡ returned r) × (u.beats ≡ s.beats)
  joining-ends s r e = elim (Bool-cases s.beating) [
    | inr b ↦ (_, next here (end s r e b), refl, refl)
    | inl b ↦
        (_, next (next here (exit s b)) (end (record s { beating = false }) r e refl), refl, refl)
  ]

  -- However the heartbeat and the generation interleave, once the call has returned its result no
  -- heartbeat runs, what was emitted is one connecting stage, the heartbeats and one terminal stage, in
  -- this order, and the stream of a success ends with one "done" while that of a failure ends with two
  -- "error" events.
  pub streamed_events-Reach :
      (s : Run O) (r : Result (List O))
      → Reach start s
      → s.caller ≡ returned r
      → (s.beating ≡ false)
        × (s.emitted ≡ connected ∷ (heartbeats s.beats ++ (terminal r ∷ [])))
        × (streamed_events s.emitted r ≡ progress_events (suc s.beats) ++ last_events r)
  unfolding streamed_events
  streamed_events-Reach s r reached e =
      let (log, b) : Emitted (returned r) s.beating s.beats s.emitted =
        subst (λ c. Emitted c s.beating s.beats s.emitted) e (Reach-Emitted reached) in
      (
        b,
        log,
        ap (λ l. map event l ++ handler_event r) log
            ∙ ap (λ l. "progress" ∷ (l ++ handler_event r))
                (map-append event (heartbeats s.beats) (terminal r ∷ [])
                  ∙ ap (λ l. l ++ (event (terminal r) ∷ [])) (event-heartbeats O s.beats))
            ∙ ap (λ l. "progress" ∷ l)
                (append_assoc (progress_events s.beats) (event (terminal r) ∷ []) (handler_event r))
            ∙ ap (λ l. progress_events (suc s.beats) ++ l) (last r),
      )
    where
      last : (r : Result (List O)) → (event (terminal r) ∷ handler_event r) ≡ last_events r
      last (ok _) = refl
      last (err _) = refl
