-- ===== src/Budget/Verdicts.antt =====
-- Which calls the gate lets through, and which it refuses.
use mootd.Prelude.{
  ℕ, ◌≡◌, refl, ◌⊎◌, inl, inr, true, false, Option, none, some, String, arith, Result, ok, err,
  Result-cases,
}
use mootd.Prelude.Float.{Float64}
use mootd.Budget.{
  allow, deny, Cap, SpendTracker, BudgetReader, Verdict, report_suspended, judge, spend_check, gate,
}
use mootd.Budget.Ledger.{IsLedger}

module _ {F W : Type 0} (float : Float64 F) (now : W → ℕ) (tracker : SpendTracker F W)
    (reader : BudgetReader F W) (user : String) (estimated : F) where
  -- A call that passed without an error under a cap is within it, in the total that it left.
  IsWithin : (W → F) → F → Verdict F × W → Type 0
  IsWithin spent limit (v, w) =
      v.decision ≡ allow
      → v.error ≡ none
      → float.le limit (float.of_int 0) ≡ false
      → float.lt limit (spent w) ≡ false

  judge-IsWithin :
      (spent : W → F) (limit total : F) (w : W)
      → spent w ≡ total
      → IsWithin spent limit (judge float now tracker user estimated limit total w)
  unfolding judge IsWithin
  judge-IsWithin spent limit total w s = ground arith

  spend_check-IsWithin :
      (spent : W → F)
      → IsLedger float tracker reader user estimated spent
      → (limit : F) (w : W)
      → IsWithin spent limit (spend_check float now tracker user estimated limit w)
  unfolding spend_check IsWithin
  spend_check-IsWithin spent laws limit w =
      elim (Result-cases (tracker.reserve user estimated w).0) [
        | inl (total, e) ↦ ground (
          arith,
          e,
          judge-IsWithin spent limit total (tracker.reserve user estimated w).1
              (laws.reserved_ok w total e).1,
        )
        | inr (x, e) ↦ ground (arith, e)
      ]

  report_suspended-denies :
      (at : ℕ) (stored : Result (Option ℕ)) → (report_suspended float at stored).decision ≡ deny
  unfolding report_suspended
  report_suspended-denies at (ok none) = refl
  report_suspended-denies at (ok (some until)) = refl
  report_suspended-denies at (err e) = refl

  -- If the check lets a call through with no error and the user's cap is positive, then the day's total,
  -- the call's estimate and the reservations of all others included, is not above the cap.
  pub gate_allows :
      (spent : W → F)
      → IsLedger float tracker reader user estimated spent
      → (c : Cap F) (w : W) → (reader user (tracker.is_suspended user w).1).0 ≡ ok c
      → float.le c.daily_usd (float.of_int 0) ≡ false
      → (gate float now tracker user estimated reader w).0.decision ≡ allow
      → (gate float now tracker user estimated reader w).0.error ≡ none
      → float.lt c.daily_usd (spent (gate float now tracker user estimated reader w).1) ≡ false
  unfolding gate IsWithin
  gate_allows spent laws c w k p a n =
      let w1 = (tracker.is_suspended user w).1 in
      let within = spend_check-IsWithin spent laws c.daily_usd (reader user w1).1 in
      elim (Result-cases (tracker.is_suspended user w).0) [
        | inl (true, e) ↦ ground (
          arith,
          e,
          a,
          report_suspended-denies (now (tracker.suspended_until user w1).1)
              (tracker.suspended_until user w1).0,
        )
        | inl (false, e) ↦ ground (arith, e, k, p, a, n, within)
        | inr (x, e) ↦ ground (arith, e, n)
      ]

  IsReserved : Verdict F → Type 0
  IsReserved v = (v.reserved ≡ estimated) ⊎ (v.reserved ≡ float.of_int 0)

  judge-IsReserved :
      (limit total : F) (w : W)
      → IsReserved (judge float now tracker user estimated limit total w).0
  unfolding judge IsReserved
  judge-IsReserved limit total w = ground arith

  spend_check-IsReserved :
      (limit : F) (w : W) → IsReserved (spend_check float now tracker user estimated limit w).0
  unfolding spend_check IsReserved
  spend_check-IsReserved limit w = elim (Result-cases (tracker.reserve user estimated w).0) [
    | inl (total, e) ↦
        ground (arith, e, judge-IsReserved limit total (tracker.reserve user estimated w).1)
    | inr (x, e) ↦ ground (arith, e)
  ]

  report_suspended-IsReserved :
      (at : ℕ) (stored : Result (Option ℕ)) → IsReserved (report_suspended float at stored)
  unfolding report_suspended IsReserved
  report_suspended-IsReserved at (ok none) = inr refl
  report_suspended-IsReserved at (ok (some until)) = inr refl
  report_suspended-IsReserved at (err e) = inr refl

  pub gate-reserved :
      (w : W)
      → ((gate float now tracker user estimated reader w).0.reserved ≡ estimated)
        ⊎ ((gate float now tracker user estimated reader w).0.reserved ≡ float.of_int 0)
  unfolding gate IsReserved
  gate-reserved w =
      let w1 = (tracker.is_suspended user w).1 in
      let w2 = (tracker.suspended_until user w1).1 in
      elim (Result-cases (tracker.is_suspended user w).0) [
        | inl (true, e) ↦
            ground
              (arith, e, report_suspended-IsReserved (now w2) (tracker.suspended_until user w1).0)
        | inl (false, e) ↦ elim (Result-cases (reader user w1).0) [
          | inl (c, k) ↦ ground (arith, e, k, spend_check-IsReserved c.daily_usd (reader user w1).1)
          | inr (x, k) ↦ ground (arith, e, k)
        ]
        | inr (x, e) ↦ ground (arith, e)
      ]

  -- The user is suspended, or what the reservation returned is above the positive cap.
  abbrev pub IsCause : W → Type 0
  IsCause w =
      let (flag, w1) = tracker.is_suspended user w in
      let (limit, w2) = reader user w1 in
      (flag ≡ ok true)
      ⊎ (c : Cap F) × (total : F) × (limit ≡ ok c)
        × ((tracker.reserve user estimated w2).0 ≡ ok total)
        × (float.le c.daily_usd (float.of_int 0) ≡ false)
        × ((float.lt c.daily_usd total ≡ true)
            ⊎ (float.le (float.mul (float.of_int 2) c.daily_usd) total ≡ true))

  judge_denies :
      (limit total : F) (w : W)
      → (judge float now tracker user estimated limit total w).0.decision ≡ deny
      → (float.lt limit total ≡ true) ⊎ (float.le (float.mul (float.of_int 2) limit) total ≡ true)
  unfolding judge
  judge_denies limit total w d = ground arith

  spend_check_denies :
      (limit : F) (w : W)
      → (spend_check float now tracker user estimated limit w).0.decision ≡ deny
      → (total : F) × ((tracker.reserve user estimated w).0 ≡ ok total)
        × (float.le limit (float.of_int 0) ≡ false)
        × ((float.lt limit total ≡ true)
            ⊎ (float.le (float.mul (float.of_int 2) limit) total ≡ true))
  unfolding spend_check
  spend_check_denies limit w d = elim (Result-cases (tracker.reserve user estimated w).0) [
    | inl (total, e) ↦ (
      total,
      e,
      ground (arith, e, d),
      ground (arith, e, d, judge_denies limit total (tracker.reserve user estimated w).1),
    )
    | inr (x, e) ↦ ground (arith, e, d)
  ]

  -- If the check refuses a call, then the user is suspended, or the total that the reservation returned
  -- is above a positive cap or at least twice it; no error of the tracker or the reader refuses one.
  pub gate_denies :
      (w : W) → (gate float now tracker user estimated reader w).0.decision ≡ deny → IsCause w
  unfolding gate
  gate_denies w d =
      let w1 = (tracker.is_suspended user w).1 in
      elim (Result-cases (tracker.is_suspended user w).0) [
        | inl (true, e) ↦ inl e
        | inl (false, e) ↦ elim (Result-cases (reader user w1).0) [
          | inl (c, k) ↦
              let (total, r, p, o) =
                spend_check_denies c.daily_usd (reader user w1).1 (ground (arith, e, k, d)) in
              inr (c, total, k, r, p, o)
          | inr (x, k) ↦ ground (arith, e, k, d)
        ]
        | inr (x, e) ↦ ground (arith, e, d)
      ]
