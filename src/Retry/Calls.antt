-- ===== src/Retry/Calls.antt =====
-- How often the retry loop calls its function, and what its result means.
use mootd.Prelude.{
  ℕ, zero, suc, ◌+◌, ◌≤◌, ◌≡◌, ◌∙◌, sym, ap, true, Option, none, some, arith, Error, Option-cases,
  inl, inr, ltb,
}
use mootd.Prelude.Float.{Float64}
use mootd.Retry.{
  Options, Env, attempts_of, retry_on_of, hook_of, cap_of, initial_of, next_delay, jittered,
  do_from, do_retry, attempts_suc,
}

module _ {W F : Type 0} (float : Float64 F) (env : Env W F) (opts : Options W F)
    (fn : W → Option Error × W) where
  -- `calls` counts the calls of `fn`, and nothing else of the loop changes it.
  pub record IsCounter (calls : W → ℕ) : Type 0 where
    pub call : (w : W) → calls (fn w).1 ≡ calls w + 1
    pub sleep : (d : ℕ) (w : W) → calls (env.sleep d w).1 ≡ calls w
    pub random : (w : W) → calls (env.random w).1 ≡ calls w
    pub hook : (n : ℕ) (e : Error) (d : ℕ) (w : W) → calls (hook_of opts n e d w) ≡ calls w

  -- `fn` fails at every call, with an error that `RetryOn` accepts, and nobody cancels.
  pub record AlwaysFails : Type 0 where
    pub fails : (w : W) → (e : Error) × ((fn w).0 ≡ some e) × (retry_on_of opts e ≡ true)
    pub live : (w : W) → env.ctx_err w ≡ none
    pub fires : (d : ℕ) (w : W) → (env.sleep d w).0 ≡ none

  -- The world that a failed round with error `e` leaves for the next one.
  abbrev after_round : ℕ → ℕ → Error → W → W
  after_round attempt delay e w =
      let (d, w2) = jittered float env delay opts.jitter (fn w).1 in
      (env.sleep d (hook_of opts attempt e d w2)).1

  do_from_step :
      (left attempt delay : ℕ) (last : Option Error) (w : W)
      → AlwaysFails
      → ltb attempt (attempts_of opts) ≡ true
      → (e : Error) × (do_from float env opts fn (suc left) attempt delay last w
          ≡ do_from float env opts fn left
              (attempt + 1)
              (next_delay (cap_of opts) delay)
              (some e)
              (after_round attempt delay e w))
  unfolding do_from
  do_from_step left attempt delay last w a m =
      let (x, e, accepted) = a.fails w in
      let (d, w2) = jittered float env delay opts.jitter (fn w).1 in
      (x, ground (arith, a.live w, a.fires d (hook_of opts attempt x d w2)))

  do_from_next :
      (left attempt delay : ℕ) (last : Option Error) (w : W) (e : Error)
      → (fn w).0 ≡ some e
      → (do_from float env opts fn (suc left) attempt delay last w).0 ≡ none
      → do_from float env opts fn (suc left) attempt delay last w
        ≡ do_from float env opts fn left
            (attempt + 1)
            (next_delay (cap_of opts) delay)
            (some e)
            (after_round attempt delay e w)
  unfolding do_from
  do_from_next left attempt delay last w x e h = ground arith

  do_from_ok :
      (left attempt delay : ℕ) (last : Option Error) (w : W)
      → (do_from float env opts fn (suc left) attempt delay last w).0 ≡ none
      → attempts_of opts ≡ attempt + left
      → (w' : W) × (fn w' ≡ (none, (do_from float env opts fn (suc left) attempt delay last w).1))
  unfolding do_from
  do_from_ok zero attempt delay last w h m = (w, ground arith)
  do_from_ok (suc left) attempt delay last w h m = elim (Option-cases (fn w).0) [
    | inl e ↦ (w, ground arith)
    | inr (x, e) ↦
        let next = do_from_next (suc left) attempt delay last w x e h in
        let (w', done) =
          do_from_ok left (attempt + 1) (next_delay (cap_of opts) delay) (some x)
            (after_round attempt delay x w) (ap (λ r. r.0) (sym next) ∙ h) (omega arith) in
        (w', rw next done)
  ]

  -- A nil error means that a call of `fn` succeeded, and that the loop did nothing after it.
  pub do_retry_ok :
      (w : W)
      → (do_retry float env opts fn w).0 ≡ none
      → (w' : W) × (fn w' ≡ (none, (do_retry float env opts fn w).1))
  unfolding do_retry
  do_retry_ok w h =
      let (k, e) = attempts_suc opts in
      rw e (do_from_ok k 1 (initial_of opts) none w (rw e at h) (omega arith))

  module _ {calls : W → ℕ} (c : IsCounter calls) where
    calls-jittered : (d : ℕ) (j : F) (w : W) → calls (jittered float env d j w).1 ≡ calls w
    unfolding jittered
    calls-jittered d j w = ground (arith, c.random w)

    calls-do_from :
        (left attempt delay : ℕ) (last : Option Error) (w : W)
        → calls (do_from float env opts fn left attempt delay last w).1 ≤ calls w + left
    unfolding do_from
    calls-do_from zero attempt delay last w = omega arith
    calls-do_from (suc left) attempt delay last w = elim (Option-cases (fn w).0) [
      | inl e ↦ ground (arith, c.call w)
      | inr (x, e) ↦
          let w1 = (fn w).1 in
          let j = jittered float env delay opts.jitter w1 in
          let w2 = hook_of opts attempt x j.0 j.1 in
          let w3 = (env.sleep j.0 w2).1 in
          ground (
            arith,
            c.call w,
            calls-jittered delay opts.jitter w1,
            c.hook attempt x j.0 j.1,
            c.sleep j.0 w2,
            calls-do_from left (attempt + 1) (next_delay (cap_of opts) delay) (some x) w3,
          )
    ]

    -- The loop calls `fn` at most as often as the attempts that the options allow.
    pub calls-do_retry :
        (w : W) → calls (do_retry float env opts fn w).1 ≤ calls w + attempts_of opts
    unfolding do_retry
    calls-do_retry w = calls-do_from (attempts_of opts) 1 (initial_of opts) none w

    do_from_exhausts :
        (left attempt delay : ℕ) (last : Option Error) (w : W)
        → AlwaysFails
        → attempts_of opts + 1 ≡ attempt + suc left
        → let (r, w') = do_from float env opts fn (suc left) attempt delay last w in
          (calls w' ≡ calls w + suc left) × ((e : Error) × (r ≡ some e))
    unfolding do_from
    do_from_exhausts zero attempt delay last w a m =
        let (x, e, yes_) = a.fails w in
        (ground (arith, c.call w, a.live w), (x, ground (arith, a.live w)))
    do_from_exhausts (suc left) attempt delay last w a m =
        let (x, step) = do_from_step (suc left) attempt delay last w a (ground arith) in
        let (d, w2) = jittered float env delay opts.jitter (fn w).1 in
        let w3 = hook_of opts attempt x d w2 in
        let ih =
          do_from_exhausts left (attempt + 1) (next_delay (cap_of opts) delay) (some x)
            (after_round attempt delay x w) a (omega arith) in
        rw step (
          omega (
            arith,
            ih.0,
            c.call w,
            calls-jittered delay opts.jitter (fn w).1,
            c.hook attempt x d w2,
            c.sleep d w3,
          ),
          ih.1,
        )

    -- If `fn` always fails in a way that may be retried, and nobody cancels, then the loop makes all
    -- the attempts and returns an error.
    pub do_retry_exhausts :
        (w : W)
        → AlwaysFails
        → let (r, w') = do_retry float env opts fn w in
          (calls w' ≡ calls w + attempts_of opts) × ((e : Error) × (r ≡ some e))
    unfolding do_retry
    do_retry_exhausts w a =
        let (k, e) = attempts_suc opts in
        rw e (do_from_exhausts k 1 (initial_of opts) none w a (omega arith))
