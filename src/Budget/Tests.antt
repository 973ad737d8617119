-- ===== src/Budget/Tests.antt =====
-- The gate over a Redis that is one table of numbers, with amounts in whole micro-dollars.
use mootd.Prelude.{
  ℕ, ◌*◌, ◌/◌, ◌==◌, ◌≡◌, ◌⊎◌, refl, str_eq, eq_refl, if◌then◌else◌, Bool, true, false, not, ◌&&◌,
  none, some, arith, ok,
}
use mootd.Prelude.Int.{ℤ, pos, negsuc, ◌+ℤ◌, ◌-ℤ◌, ◌*ℤ◌, ltb_ℤ, pos_part}
use mootd.Prelude.Float.{Float64}
use mootd.Budget.{
  allow, deny, Cap, SpendTracker, BudgetReader, check, release, gate, spend_check, judge, day,
}
use mootd.Budget.Ledger.{IsLedger, IsSettled, gate-settles}
use mootd.Budget.Verdicts.{gate_allows, gate_denies, IsCause}
use mootd.Budget.Redis.{Key, spend, suspend, Redis, spend_key, incr_by, redis_spend_tracker}
use mootd.Budget.Tracker.{IsRedis, redis-IsLedger, release-check, todays, enforcer}

neg_ℤ : ℤ → ℤ
neg_ℤ a = pos 0 -ℤ a

abbrev micro : Float64 ℤ
micro = record {
  of_int = λ n. pos (n * 1_000_000);
  neg = neg_ℤ;
  add = ◌+ℤ◌;
  sub = ◌-ℤ◌;
  mul = λ a b. a *ℤ b;
  div = λ a b. a;
  le = λ a b. not (ltb_ℤ b a);
  lt = ltb_ℤ;
  truncate = λ a. pos_part a / 1_000_000;
}

abbrev cents20 : ℤ
cents20 = pos 200_000

abbrev key_eq : Key → Key → Bool
key_eq (spend p u d) (spend q v e) = str_eq p q && str_eq u v && d == e
key_eq (spend p u d) (suspend q v) = false
key_eq (suspend p u) (spend q v e) = false
key_eq (suspend p u) (suspend q v) = str_eq p q && str_eq u v

key_eq_self : (k : Key) → key_eq k k ≡ true
key_eq_self (spend p u d) = ground (arith, eq_refl p, eq_refl u)
key_eq_self (suspend p u) = ground (arith, eq_refl p, eq_refl u)

abbrev Store : Type 0
Store = Key → ℤ

abbrev redis : Redis ℤ Store
redis = record {
  get_float = λ k s. (ok (some (s k)), s);
  incr_by_float = λ k d ttl s. (ok (s k +ℤ d), λ j. if key_eq k j then s k +ℤ d else s j);
  exists = λ k s. (ok 0, s);
  set = λ k v ttl s. (none, s);
  get = λ k s. (ok none, s);
}

redis-IsRedis : IsRedis micro redis (λ k s. s k)
redis-IsRedis = record {
  incr_ok = λ k d v ttl s e. ground (arith, key_eq_self k);
  incr_err = λ k d ttl s x e. ground arith;
  get_float_keeps = λ k j s. refl;
  exists_keeps = λ k j s. refl;
  get_keeps = λ k j s. refl;
  set_keeps = λ k j v ttl s n. refl;
}

abbrev one_dollar : Cap ℤ
one_dollar = record { daily_usd = pos 1_000_000; monthly_usd = pos 15_000_000; is_default = false }

abbrev reader : BudgetReader ℤ Store
reader user s = (ok one_dollar, s)

abbrev now : Store → ℕ
now s = 42

abbrev spent_before : ℤ → Store
spent_before v k = v

release-check_example :
    let end =
      (release micro now
          (enforcer micro now "" redis reader)
          "ann"
          (pos 200_000)
          (check micro now
            (enforcer micro now "" redis reader)
            "ann"
            cents20
            (spent_before (pos 500_000))).1).1
        (todays "" "ann" 0) in
    (end ≡ pos 500_000) ⊎ (end ≡ pos 500_000 +ℤ cents20 +ℤ neg_ℤ cents20)
unfolding check gate spend_check judge redis_spend_tracker ◌+ℤ◌ ◌*ℤ◌
release-check_example =
    release-check micro now "" redis (λ k s. s k) redis-IsRedis reader "ann" cents20 0 (λ s. refl)
      (λ k s. refl) refl refl refl (λ s. (s (todays "" "ann" 0) +ℤ neg_ℤ cents20, refl))
      (spent_before (pos 500_000))

abbrev tracker : SpendTracker ℤ Store
tracker = redis_spend_tracker micro now "" redis

-- Two checks of 20 cents at 50 cents and at 90 cents of a one-dollar day.
passes :
    (gate micro now tracker "ann" cents20 reader (spent_before (pos 500_000))).0.decision ≡ allow
unfolding gate spend_check judge redis_spend_tracker ◌+ℤ◌ ◌*ℤ◌
passes = refl

refused :
    (gate micro now tracker "ann" cents20 reader (spent_before (pos 900_000))).0.decision ≡ deny
unfolding gate spend_check judge redis_spend_tracker ◌+ℤ◌ ◌*ℤ◌
refused = refl

tracker-IsLedger : IsLedger micro tracker reader "ann" cents20 (λ s. s (todays "" "ann" 0))
tracker-IsLedger =
    redis-IsLedger micro now "" redis (λ k s. s k) redis-IsRedis reader "ann" cents20 0 (λ s. refl)
      (λ k s. refl) refl

gate-settles_example :
    IsSettled micro tracker "ann" cents20
      (λ s. s (todays "" "ann" 0))
      (pos 900_000)
      (gate micro now tracker "ann" cents20 reader (spent_before (pos 900_000))).0
      (gate micro now tracker "ann" cents20 reader (spent_before (pos 900_000))).1
gate-settles_example =
    gate-settles micro now tracker reader "ann" cents20 (λ s. s (todays "" "ann" 0))
      tracker-IsLedger (spent_before (pos 900_000))

gate_allows_example :
    ltb_ℤ (pos 1_000_000) (
      (gate micro now tracker "ann" cents20 reader (spent_before (pos 500_000))).1
        (todays "" "ann" 0))
    ≡ false
unfolding gate spend_check judge redis_spend_tracker ◌+ℤ◌ ◌*ℤ◌
gate_allows_example =
    gate_allows micro now tracker reader "ann" cents20 (λ s. s (todays "" "ann" 0)) tracker-IsLedger
      one_dollar (spent_before (pos 500_000)) refl refl passes refl

gate_denies_example : IsCause micro now tracker reader "ann" cents20 (spent_before (pos 900_000))
gate_denies_example =
    gate_denies micro now tracker reader "ann" cents20 (spent_before (pos 900_000)) refused

-- A call that reserves before midnight and releases after it lowers the new day's total below 0, and
-- leaves the old day's raised.
abbrev past_midnight : Store
past_midnight =
    let s = (tracker.reserve "ann" cents20 (spent_before (pos 0))).1 in
    ((redis_spend_tracker micro (λ s. day) "" redis).release "ann" cents20 s).1

midnight :
    (past_midnight (todays "" "ann" 0) ≡ pos 200_000)
    × (past_midnight (todays "" "ann" 1) ≡ negsuc 199_999)
unfolding redis_spend_tracker ◌+ℤ◌ ◌-ℤ◌ neg_ℤ incr_by spend_key
midnight = (refl, refl)
