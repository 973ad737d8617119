-- ===== src/Budget/Tracker.antt =====
-- The tracker in Redis keeps the day's total, and the gate on top of it.
use mootd.Prelude.{
  inl, inr, ℕ, ◌*◌, ◌/◌, ◌≡◌, ◌≢◌, ◌⊎◌, ap, str_eq, ◌-◌, if◌then◌else◌, true, false, none, some,
  String, arith, Error, Result, ok, err, Result-cases,
}
use mootd.Prelude.Float.{Float64}
use mootd.Budget.{SpendTracker, BudgetReader, Enforcer, check, release, gate, day}
use mootd.Budget.Ledger.{IsLedger, gate-settles, kept, untouched, refunded, not_refunded}
use mootd.Budget.Redis.{
  Key, spend, Stamp, rfc3339, second, Redis, spend_key, suspend_key, incr_by, redis_spend_tracker,
}

-- `total` is the number that a key holds, 0 where there is none.
pub record IsRedis {F S : Type 0} (float : Float64 F) (rdb : Redis F S) (total : Key → S → F)
    : Type 0 where
  pub incr_ok :
      (k : Key) (d v : F) (ttl : ℕ) (s : S)
      → (rdb.incr_by_float k d ttl s).0 ≡ ok v
      → (v ≡ float.add (total k s) d) × (total k (rdb.incr_by_float k d ttl s).1 ≡ v)
  pub incr_err :
      (k : Key) (d : F) (ttl : ℕ) (s : S) (e : Error)
      → (rdb.incr_by_float k d ttl s).0 ≡ err e
      → total k (rdb.incr_by_float k d ttl s).1 ≡ total k s
  pub get_float_keeps : (k j : Key) (s : S) → total k (rdb.get_float j s).1 ≡ total k s
  pub exists_keeps : (k j : Key) (s : S) → total k (rdb.exists j s).1 ≡ total k s
  pub get_keeps : (k j : Key) (s : S) → total k (rdb.get j s).1 ≡ total k s
  pub set_keeps :
      (k j : Key) (v : Stamp) (ttl : ℕ) (s : S) → k ≢ j → total k (rdb.set j v ttl s).1 ≡ total k s

-- The key of a user on a day.
abbrev pub todays : String → String → ℕ → Key
todays prefix user today = spend (if str_eq prefix "" then "user" else prefix) user today

abbrev pub enforcer :
    {F S : Type 0} → Float64 F → (S → ℕ) → String → Redis F S → BudgetReader F S → Enforcer F S
enforcer float now prefix rdb reader = record {
  reader = some reader;
  tracker = some (redis_spend_tracker float now prefix rdb);
}

module _ {F S : Type 0} (float : Float64 F) (now : S → ℕ) (prefix : String) (rdb : Redis F S)
    (total : Key → S → F) (laws : IsRedis float rdb total) (reader : BudgetReader F S)
    (user : String) (estimated : F) (today : ℕ) (same_day : (s : S) → now s / day ≡ today)
    (read_cap : (k : Key) (s : S) → total k (reader user s).1 ≡ total k s)
    (positive : float.le estimated (float.of_int 0) ≡ false) where
  abbrev key : Key
  key = todays prefix user today

  abbrev tracker : SpendTracker F S
  tracker = redis_spend_tracker float now prefix rdb

  -- Every call of the day has its key.
  key_today : (s : S) → spend_key float now prefix rdb user s ≡ key
  unfolding spend_key
  key_today s = ap (spend (if str_eq prefix "" then "user" else prefix) user) (same_day s)

  not_suspend : key ≢ suspend_key float now prefix rdb user
  unfolding suspend_key
  not_suspend e = cc

  -- What the refund's INCRBYFLOAT answers.
  abbrev refund : S → Result F
  refund w = (rdb.incr_by_float key (float.neg estimated) (2 * day) w).0

  tracker-released :
      (w : S)
      → (tracker.release user estimated w).0 ≡ none
      → total key (tracker.release user estimated w).1
        ≡ float.add (total key w) (float.neg estimated)
  unfolding redis_spend_tracker incr_by
  tracker-released w = elim (Result-cases (refund w)) [
    | inl (v, e) ↦ λ h.
        ground
          (arith, positive, key_today w, e, laws.incr_ok key (float.neg estimated) v (2 * day) w)
    | inr (x, e) ↦ λ h. ground (arith, positive, key_today w, e, h)
  ]

  tracker-not_released :
      (w : S) (x : Error)
      → (tracker.release user estimated w).0 ≡ some x
      → total key (tracker.release user estimated w).1 ≡ total key w
  unfolding redis_spend_tracker incr_by
  tracker-not_released w x = elim (Result-cases (refund w)) [
    | inl (v, e) ↦ λ h. ground (arith, positive, key_today w, e, h)
    | inr (y, e) ↦ λ h.
        ground
          (arith, positive, key_today w, e, laws.incr_err key (float.neg estimated) (2 * day) w y)
  ]

  tracker-answers :
      ((s : S) → (v : F) × (refund s ≡ ok v))
      → (w : S) → (tracker.release user estimated w).0 ≡ none
  unfolding redis_spend_tracker incr_by
  tracker-answers is_up w = let (v, e) = is_up w in ground (arith, positive, key_today w, e)

  pub redis-IsLedger : IsLedger float tracker reader user estimated (total key)
  unfolding redis_spend_tracker
  redis-IsLedger = record {
    reserved_ok = λ w v e. ground (arith, key_today w, e, laws.incr_ok key estimated v (2 * day) w);
    reserved_err =
        λ w x e. ground (arith, key_today w, e, laws.incr_err key estimated (2 * day) w x);
    released = tracker-released;
    not_released = tracker-not_released;
    read_today =
        λ w. ground (arith, laws.get_float_keeps key (spend_key float now prefix rdb user w) w);
    read_suspended =
        λ w. ground (arith, laws.exists_keeps key (suspend_key float now prefix rdb user) w);
    read_until = λ w. ground (arith, laws.get_keeps key (suspend_key float now prefix rdb user) w);
    set_suspended = λ w until. ground (
      arith,
      laws.set_keeps key (suspend_key float now prefix rdb user) (rfc3339 (until / second))
          (until - now w) w not_suspend,
    );
    read_cap = read_cap key;
  }

  -- If the user has an id, the estimate is positive (and 0 is at most 0, as for floats), the clock's day
  -- stays the same, Redis answers the refunds, a call of it that fails changes no total and reading the
  -- cap changes none, then a check followed by the release of what it says it has reserved leaves the day's
  -- total as it was, or as it is after adding the estimate and taking it away again, each sum rounded as
  -- the floats round it.
  pub release-check :
      float.le (float.of_int 0) (float.of_int 0) ≡ true
      → str_eq user "" ≡ false
      → ((s : S)
          → (v : F) × ((rdb.incr_by_float
                (todays prefix user today)
                (float.neg estimated)
                (2 * day)
                s).0
              ≡ ok v))
      → (s : S)
      → let (v, s') = check float now (enforcer float now prefix rdb reader) user estimated s in
        let end =
          total
            (todays prefix user today)
            (release float now (enforcer float now prefix rdb reader) user v.reserved s').1 in
        (end ≡ total (todays prefix user today) s)
        ⊎ (end
            ≡ float.add
                (float.add (total (todays prefix user today) s) estimated)
                (float.neg estimated))
  unfolding check release
  release-check zero_le named is_up s =
      let (v, w) = gate float now tracker user estimated reader s in
      elim (gate-settles float now tracker reader user estimated (total key) redis-IsLedger s) [
        | kept r e ↦
            inr
              (ground (arith, named, r, positive, e, tracker-released w (tracker-answers is_up w)))
        | untouched r e ↦ inl (ground (arith, named, r, e, zero_le))
        | refunded d r e ↦ inr (ground (arith, named, r, e, zero_le))
        | not_refunded d r at x n e ↦ absurd (cc (tracker-answers is_up at, n))
      ]
