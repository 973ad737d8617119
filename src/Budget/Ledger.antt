-- ===== src/Budget/Ledger.antt =====
-- The gate against the daily total that its tracker keeps.
use mootd.Prelude.{
  ℕ, ◌+◌, ◌≡◌, refl, ap, ◌∙◌, subst, inl, inr, true, false, Option, none, some, String, Error,
  Result, ok, err, Result-cases, Option-cases, Bool-cases,
}
use mootd.Prelude.Float.{Float64}
use mootd.Budget.{
  SpendTracker, BudgetReader, Verdict, deny, day, report_suspended, judge, spend_check, gate,
}

module _ {F W : Type 0} (float : Float64 F) (tracker : SpendTracker F W) (reader : BudgetReader F W)
    (user : String) (estimated : F) where
  -- `spent` is the user's total of the day, which a reservation raises and a release lowers, each in one
  -- step; a reservation or a release that fails and the other calls leave it alone.
  pub record IsLedger (spent : W → F) : Type 0 where
    pub reserved_ok :
        (w : W) (v : F)
        → (tracker.reserve user estimated w).0 ≡ ok v
        → (v ≡ float.add (spent w) estimated) × (spent (tracker.reserve user estimated w).1 ≡ v)
    pub reserved_err :
        (w : W) (e : Error)
        → (tracker.reserve user estimated w).0 ≡ err e
        → spent (tracker.reserve user estimated w).1 ≡ spent w
    pub released :
        (w : W)
        → (tracker.release user estimated w).0 ≡ none
        → spent (tracker.release user estimated w).1 ≡ float.add (spent w) (float.neg estimated)
    pub not_released :
        (w : W) (e : Error)
        → (tracker.release user estimated w).0 ≡ some e
        → spent (tracker.release user estimated w).1 ≡ spent w
    pub read_today : (w : W) → spent (tracker.today_spend user w).1 ≡ spent w
    pub read_suspended : (w : W) → spent (tracker.is_suspended user w).1 ≡ spent w
    pub read_until : (w : W) → spent (tracker.suspended_until user w).1 ≡ spent w
    pub set_suspended : (w : W) (until : ℕ) → spent (tracker.suspend user until w).1 ≡ spent w
    pub read_cap : (w : W) → spent (reader user w).1 ≡ spent w

module _ {F W : Type 0} (float : Float64 F) (tracker : SpendTracker F W) (user : String)
    (estimated : F) (spent : W → F) where
  -- What a check makes of the total `before`: it keeps the estimate that it says it has reserved, it
  -- leaves the total alone, or it refuses the call and has added the estimate, which it has taken away
  -- again, with what the sum and the difference round, or has not, where the refund failed.
  pub data IsSettled (before : F) (v : Verdict F) (w : W) : Type 0 where
    kept : v.reserved ≡ estimated → spent w ≡ float.add before estimated → IsSettled before v w
    untouched : v.reserved ≡ float.of_int 0 → spent w ≡ before → IsSettled before v w
    refunded :
        v.decision ≡ deny
        → v.reserved ≡ float.of_int 0
        → spent w ≡ float.add (float.add before estimated) (float.neg estimated)
        → IsSettled before v w
    not_refunded :
        v.decision ≡ deny
        → v.reserved ≡ float.of_int 0
        → (at : W) (e : Error) → (tracker.release user estimated at).0 ≡ some e
        → spent w ≡ float.add before estimated
        → IsSettled before v w

module _ {F W : Type 0} (float : Float64 F) (now : W → ℕ) (tracker : SpendTracker F W)
    (reader : BudgetReader F W) (user : String) (estimated : F) (spent : W → F)
    (laws : IsLedger float tracker reader user estimated spent) where
  abbrev Settled : F → Verdict F × W → Type 0
  Settled before (v, w) = IsSettled float tracker user estimated spent before v w

  -- A refusal whose world has the total that the refund left.
  denied-Settled :
      (before : F) (v : Verdict F) (at end : W)
      → v.decision ≡ deny
      → v.reserved ≡ float.of_int 0
      → spent at ≡ float.add before estimated
      → spent end ≡ spent (tracker.release user estimated at).1
      → Settled before (v, end)
  denied-Settled before v at end d r s e =
      elim (Option-cases (tracker.release user estimated at).0) [
        | inl n ↦
            refunded d r (e ∙ laws.released at n ∙ ap (λ x. float.add x (float.neg estimated)) s)
        | inr (x, n) ↦ not_refunded d r at x n (e ∙ laws.not_released at x n ∙ s)
      ]

  judge-Settled :
      (cap before total : F) (w : W)
      → total ≡ float.add before estimated
      → spent w ≡ total
      → Settled before (judge float now tracker user estimated cap total w)
  unfolding judge
  judge-Settled limit before total w t s =
      let w1 = (tracker.release user estimated w).1 in
      let until = now w1 + day in
      elim (Bool-cases (float.le (float.mul (float.of_int 2) limit) total)) [
        | inl e ↦ elim (Option-cases (tracker.suspend user until w1).0) [
          | inl n ↦
              rw (e, n)
                (denied-Settled before _ w _ refl refl (s ∙ t) (laws.set_suspended w1 until))
          | inr (x, n) ↦
              rw (e, n)
                (denied-Settled before _ w _ refl refl (s ∙ t) (laws.set_suspended w1 until))
        ]
        | inr e ↦ elim (Bool-cases (float.lt limit total)) [
          | inl o ↦ rw (e, o) (denied-Settled before _ w _ refl refl (s ∙ t) refl)
          | inr o ↦ rw (e, o) (kept refl (s ∙ t))
        ]
      ]

  spend_check-Settled :
      (cap : F) (w : W) → Settled (spent w) (spend_check float now tracker user estimated cap w)
  unfolding spend_check
  spend_check-Settled cap w = elim (Bool-cases (float.le cap (float.of_int 0))) [
    | inl c ↦ rw c (untouched refl (laws.read_today w))
    | inr c ↦ elim (Result-cases (tracker.reserve user estimated w).0) [
      | inl (total, e) ↦
          let (t, s) = laws.reserved_ok w total e in
          rw (c, e) (judge-Settled cap (spent w) total (tracker.reserve user estimated w).1 t s)
      | inr (x, e) ↦ rw (c, e) (untouched refl (laws.reserved_err w x e))
    ]
  ]

  report_suspended-reserved :
      (at : ℕ) (stored : Result (Option ℕ))
      → (report_suspended float at stored).reserved ≡ float.of_int 0
  unfolding report_suspended
  report_suspended-reserved at (ok none) = refl
  report_suspended-reserved at (ok (some until)) = refl
  report_suspended-reserved at (err e) = refl

  -- If the tracker adds and takes away in one step each, a reservation or a refund of it that fails changes
  -- nothing and the reads change nothing, then the check leaves the day's total higher by the estimate,
  -- which it then says it has reserved; or it reserves nothing and leaves the total as it was; or it
  -- refuses the call, and the total has had the estimate added and taken away again, each sum rounded as
  -- the floats round it, or only added, where the refund failed, an error that the check ignores.
  pub gate-settles :
      (w : W)
      → IsSettled float tracker user estimated spent
          (spent w)
          (gate float now tracker user estimated reader w).0
          (gate float now tracker user estimated reader w).1
  unfolding gate
  gate-settles w =
      let w1 = (tracker.is_suspended user w).1 in
      elim (Result-cases (tracker.is_suspended user w).0) [
        | inr (x, e) ↦ rw (e, gate) (untouched refl (laws.read_suspended w))
        | inl (true, e) ↦
            rw (e, gate)
              (untouched
                (report_suspended-reserved (now (tracker.suspended_until user w1).1)
                  (tracker.suspended_until user w1).0)
                (laws.read_until w1 ∙ laws.read_suspended w))
        | inl (false, e) ↦ elim (Result-cases (reader user w1).0) [
          | inr (x, c) ↦ rw (e, c, gate) (untouched refl (laws.read_cap w1 ∙ laws.read_suspended w))
          | inl (c, k) ↦
              rw (e, k, gate)
                (subst
                  (λ b.
                    Settled b
                      (spend_check float now tracker user estimated c.daily_usd (reader user w1).1))
                  (laws.read_cap w1 ∙ laws.read_suspended w)
                  (spend_check-Settled c.daily_usd (reader user w1).1))
        ]
      ]
