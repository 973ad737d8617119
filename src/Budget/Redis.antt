-- ===== src/Budget/Redis.antt =====
-- backend/internal/budget/budget.go: the trackers, the one in Redis and the one that does nothing.
-- Redis itself is a parameter.
use mootd.Prelude.{
  ℕ, ◌-◌, ◌*◌, ◌/◌, false, Option, none, some, String, str_eq, ltb, leb, if◌then◌else◌, Error, new,
  Result, ok, err,
}
use mootd.Prelude.Float.{Float64}
use mootd.Budget.{SpendTracker, day}

-- The keys, before they are printed: no user id has a colon, so that none of them collide.
pub data Key : Type 0 where
  spend : String → String → ℕ → Key
  suspend : String → String → Key

-- What the suspend key holds: an instant in whole seconds as RFC 3339 prints it, or other text.
pub data Stamp : Type 0 where
  rfc3339 : ℕ → Stamp
  other_text : Stamp

-- `redis.Nil` is `none`. `incr_by_float` is the transaction of IncrByFloat and Expire.
pub record Redis (F S : Type 0) : Type 0 where
  pub get_float : Key → S → Result (Option F) × S
  pub incr_by_float : Key → F → ℕ → S → Result F × S
  pub exists : Key → S → Result ℕ × S
  pub set : Key → Stamp → ℕ → S → Option Error × S
  pub get : Key → S → Result (Option Stamp) × S

abbrev pub second : ℕ
second = 1_000_000_000

-- time.Parse(time.RFC3339, …)
abbrev pub parse : Stamp → Result (Option ℕ)
parse (rfc3339 s) = ok (some (s * second))
parse other_text = err (new "parsing time")

abbrev pub error_of : {A : Type 0} → Result A → Option Error
error_of (ok a) = none
error_of (err e) = some e

module _ {F S : Type 0} (float : Float64 F) where
  unfoldable pub noop_spend_tracker : SpendTracker F S
  noop_spend_tracker = record {
    today_spend = λ user s. (ok (float.of_int 0), s);
    increment = λ user cost s. (none, s);
    reserve = λ user amount s. (ok (float.of_int 0), s);
    release = λ user amount s. (none, s);
    is_suspended = λ user s. (ok false, s);
    suspend = λ user until s. (none, s);
    suspended_until = λ user s. (ok none, s);
  }

module _ {F S : Type 0} (float : Float64 F) (now : S → ℕ) (prefix : String) (rdb : Redis F S) where
  unfoldable pub spend_key : String → S → Key
  spend_key user s = spend (if str_eq prefix "" then "user" else prefix) user (now s / day)

  unfoldable pub suspend_key : String → Key
  suspend_key user = suspend (if str_eq prefix "" then "user" else prefix) user

  unfoldable pub incr_by : String → F → S → Option Error × S
  unfolding spend_key
  incr_by user delta s =
      let (r, s') = rdb.incr_by_float (spend_key user s) delta (2 * day) s in (error_of r, s')

  unfoldable pub redis_spend_tracker : SpendTracker F S
  unfolding incr_by spend_key suspend_key
  redis_spend_tracker = record {
    today_spend = λ user s.
        let (r, s') = rdb.get_float (spend_key user s) s in
        elim r [
          | ok none ↦ (ok (float.of_int 0), s')
          | ok (some v) ↦ (ok v, s')
          | err e ↦ (err e, s')
        ];
    increment =
        λ user cost s. if float.le cost (float.of_int 0) then (none, s) else incr_by user cost s;
    reserve = λ user amount s. rdb.incr_by_float (spend_key user s) amount (2 * day) s;
    release = λ user amount s.
        if float.le amount (float.of_int 0) then (none, s) else incr_by user (float.neg amount) s;
    is_suspended = λ user s.
        let (r, s') = rdb.exists (suspend_key user) s in
        elim r [ ok n ↦ (ok (ltb 0 n), s') | err e ↦ (err e, s') ];
    suspend = λ user until s.
        if leb until (now s)
        then (none, s)
        else rdb.set (suspend_key user) (rfc3339 (until / second)) (until - now s) s;
    suspended_until = λ user s.
        let (r, s') = rdb.get (suspend_key user) s in
        elim r [
          | ok none ↦ (ok none, s')
          | ok (some stamp) ↦ (parse stamp, s')
          | err e ↦ (err e, s')
        ];
  }

-- `none` is a nil client, with which each method does what the other tracker's does.
unfoldable pub spend_tracker :
    {F S : Type 0} → Float64 F → (S → ℕ) → String → Option (Redis F S) → SpendTracker F S
unfolding noop_spend_tracker redis_spend_tracker
spend_tracker float now prefix none = noop_spend_tracker float
spend_tracker float now prefix (some rdb) = redis_spend_tracker float now prefix rdb
