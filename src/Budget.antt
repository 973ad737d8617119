-- ===== src/Budget.antt =====
-- backend/internal/budget/budget.go: the gate on a user's daily spend, and its tracker in Redis.
pub mod Ledger
pub mod Verdicts
pub mod Redis
pub mod Tracker
pub mod Tests
use mootd.Prelude.{
  ℕ, ◌+◌, ◌-◌, ◌*◌, ◌/◌, Bool, true, false, not, Option, none, some, String, str_eq, ltb, leb,
  if◌then◌else◌, Error, new, wrap, Result, ok, err,
}
use mootd.Prelude.Float.{Float64}

pub data Decision : Type 0 where
  allow downgrade deny : Decision

pub record Cap (F : Type 0) : Type 0 where
  pub daily_usd : F
  pub monthly_usd : F
  pub is_default : Bool

pub data Code : Type 0 where
  no_code over_daily_cap auto_suspended over_200pct : Code

-- The texts that the code formats, with what it puts into them.
pub data Message (F : Type 0) : Type 0 where
  no_message blocked_for_24_hours : Message F
  suspended_for : ℕ → Message F
  daily_budget_reached : F → Message F

pub record Reason (F : Type 0) : Type 0 where
  pub code : Code
  pub message : Message F
  pub daily_cap_usd : F
  pub today_spend_usd : F
  pub estimated_usd : F
  pub suspended_until : Option ℕ

-- The two interfaces, for the world `W` that their calls change. Instants count nanoseconds, and the
-- zero time is `none`; `none` for an error is nil.
pub record SpendTracker (F W : Type 0) : Type 0 where
  pub today_spend : String → W → Result F × W
  pub increment : String → F → W → Option Error × W
  pub reserve : String → F → W → Result F × W
  pub release : String → F → W → Option Error × W
  pub is_suspended : String → W → Result Bool × W
  pub suspend : String → ℕ → W → Option Error × W
  pub suspended_until : String → W → Result (Option ℕ) × W

abbrev pub BudgetReader : Type 0 → Type 0 → Type 0
BudgetReader F W = String → W → Result (Cap F) × W

-- `none` is a nil interface.
pub record Enforcer (F W : Type 0) : Type 0 where
  pub reader : Option (BudgetReader F W)
  pub tracker : Option (SpendTracker F W)

pub record Verdict (F : Type 0) : Type 0 where
  pub decision : Decision
  pub reason : Reason F
  pub reserved : F
  pub error : Option Error

abbrev pub day : ℕ
day = 86_400_000_000_000

module _ {F : Type 0} (float : Float64 F) where
  abbrev zero_usd : F
  zero_usd = float.of_int 0

  -- Reason{}
  abbrev pub no_reason : Reason F
  no_reason = record {
    code = no_code;
    message = no_message;
    daily_cap_usd = zero_usd;
    today_spend_usd = zero_usd;
    estimated_usd = zero_usd;
    suspended_until = none;
  }

  abbrev allowed : Reason F → F → Option Error → Verdict F
  allowed reason reserved error = record {
    decision = allow;
    reason = reason;
    reserved = reserved;
    error = error;
  }

  abbrev denied : Reason F → Option Error → Verdict F
  denied reason error = record {
    decision = deny;
    reason = reason;
    reserved = zero_usd;
    error = error;
  }

  -- `hours` drops the fraction of a duration that is not negative; a past expiry has the least, 1.
  unfoldable pub report_suspended : ℕ → Result (Option ℕ) → Verdict F
  report_suspended now stored =
      let report : ℕ → Verdict F = λ until.
        denied
          (record no_reason {
            code = auto_suspended;
            message = suspended_for ((until - now) / 3_600_000_000_000 + 1);
            suspended_until = some until;
          })
          none in
      elim stored [
        | ok (some until) ↦ report until
        | ok none ↦ report (now + day)
        | err e ↦ report (now + day)
      ]

module _ {F W : Type 0} (float : Float64 F) (now : W → ℕ) (tracker : SpendTracker F W)
    (user : String) (estimated : F) where
  -- The part of `Check` after a reservation, which left the total `total`.
  unfoldable pub judge : F → F → W → Verdict F × W
  judge cap total w =
      let reason = record (no_reason float) {
        daily_cap_usd = cap;
        today_spend_usd = float.sub total estimated;
        estimated_usd = estimated;
      } in
      let (_, w1) = tracker.release user estimated w in
      let (failed, w2) = tracker.suspend user (now w1 + day) w1 in
      let over_200 = record reason { code = over_200pct; message = blocked_for_24_hours } in
      if float.le (float.mul (float.of_int 2) cap) total
      then elim failed [
        | none ↦ (denied float (record over_200 { suspended_until = some (now w1 + day) }) none, w2)
        | some e ↦ (denied float over_200 (some (wrap "suspend" e)), w2)
      ]
      else if float.lt cap total
      then (
        denied float (record reason { code = over_daily_cap; message = daily_budget_reached cap })
            none,
        w1,
      )
      else (allowed float reason estimated none, w)

  -- The spend check, under the cap that was read.
  unfoldable pub spend_check : F → W → Verdict F × W
  unfolding judge
  spend_check cap w =
      let (today, w1) = tracker.today_spend user w in
      let (total, w2) = tracker.reserve user estimated w in
      if float.le cap (zero_usd float)
      then (
        allowed float
            (record (no_reason float) {
              today_spend_usd = elim today [ ok v ↦ v | err e ↦ zero_usd float ];
              estimated_usd = estimated;
            })
            (zero_usd float) none,
        w1,
      )
      else elim total [
        | err e ↦ (
          allowed float (record (no_reason float) { estimated_usd = estimated }) (zero_usd float)
              (some (wrap "reserve spend" e)),
          w2,
        )
        | ok v ↦ judge cap v w2
      ]

  -- `Check` with both collaborators there and a user.
  unfoldable pub gate : BudgetReader F W → W → Verdict F × W
  unfolding spend_check report_suspended
  gate reader w =
      let (suspended, w1) = tracker.is_suspended user w in
      let (stored, w2) = tracker.suspended_until user w1 in
      let (cap, w3) = reader user w1 in
      elim suspended [
        | err e ↦ (allowed float (no_reason float) (zero_usd float) (some e), w1)
        | ok true ↦ (report_suspended float (now w2) stored, w2)
        | ok false ↦ elim cap [
          | err e ↦
              (allowed float (no_reason float) (zero_usd float) (some (wrap "read cap" e)), w3)
          | ok c ↦ spend_check c.daily_usd w3
        ]
      ]

module _ {F W : Type 0} (float : Float64 F) (now : W → ℕ) where
  abbrev unchecked : Error → Verdict F
  unchecked e = allowed float (no_reason float) (zero_usd float) (some e)

  unfoldable pub check : Enforcer F W → String → F → W → Verdict F × W
  unfolding gate
  check e user estimated w = elim e.reader [
    | none ↦ (unchecked (new "budget: enforcer not configured"), w)
    | some reader ↦ elim e.tracker [
      | none ↦ (unchecked (new "budget: enforcer not configured"), w)
      | some tracker ↦
          if str_eq user ""
          then (unchecked (new "budget: userID required"), w)
          else gate float now tracker user estimated reader w
    ]
  ]

  unfoldable pub release : Enforcer F W → String → F → W → Option Error × W
  release e user reserved w = elim e.tracker [
    | none ↦ (none, w)
    | some tracker ↦
        if float.le reserved (zero_usd float)
        then (none, w)
        else if str_eq user ""
        then (none, w)
        else tracker.release user reserved w
  ]
