-- ===== src/Retry/Delays.antt =====
-- The delays between the attempts, with the jitter switched off.
use mootd.Prelude.{
  ℕ, zero, suc, ◌+◌, ◌*◌, ◌^◌, ◌≤◌, ◌<◌, ◌≡◌, ◌⊎◌, ◌==◌, true, false, Option, none, some, arith,
  Error, min, Option-cases, inl, inr,
}
use native.Mathlib.Nat.{pow-suc, pow-zero}
use mootd.Prelude.Float.{Float64}
use mootd.Retry.{
  Options, Env, attempts_of, hook_of, cap_of, initial_of, next_delay, jittered, do_from, do_retry,
  attempts_suc,
}

-- The delay before attempt `k + 2`.
abbrev pub nth_delay : ℕ → ℕ → ℕ → ℕ
nth_delay cap i k = min (i * 2 ^ k) cap

next_delay_lem : (cap i k : ℕ) → next_delay cap (nth_delay cap i k) ≡ nth_delay cap i (suc k)
unfolding next_delay
next_delay_lem cap i k =
    let e : i * 2 ^ suc k ≡ i * 2 ^ k * 2 = grind (arith, pow-suc 2 k) in ground (arith, e)

module _ {W F : Type 0} (float : Float64 F) (env : Env W F) (opts : Options W F)
    (fn : W → Option Error × W) where
  -- `P k` holds between the k-th delay and the next one: only a delay of the exponential schedule
  -- leads from `P k` to `P (k + 1)`.
  pub record IsSchedule (P : ℕ → W → Type 0) : Type 0 where
    pub call : (k : ℕ) (w : W) → P k w → P k (fn w).1
    pub hook : (k n : ℕ) (e : Error) (d : ℕ) (w : W) → P k w → P k (hook_of opts n e d w)
    pub sleep :
        (k : ℕ) (w : W)
        → P k w
        → P (suc k) (env.sleep (nth_delay (cap_of opts) (initial_of opts) k) w).1

  module _ (P : ℕ → W → Type 0) (s : IsSchedule P)
      (calm : float.le opts.jitter (float.of_int 0) ≡ true) where
    jittered_calm : (d : ℕ) (w : W) → jittered float env d opts.jitter w ≡ (d, w)
    unfolding jittered
    jittered_calm d w = rw calm

    abbrev slept : ℕ → ℕ → Error → W → W
    slept attempt delay e w = (env.sleep delay (hook_of opts attempt e delay (fn w).1)).1

    abbrev delay : ℕ → ℕ
    delay k = nth_delay (cap_of opts) (initial_of opts) k

    -- Where a round leaves the world.
    do_from_round :
        (left attempt delay : ℕ) (last : Option Error) (w : W) (e : Error)
        → (fn w).0 ≡ some e
        → let r = do_from float env opts fn (suc left) attempt delay last w in
          (r.1 ≡ w)
          ⊎ (r.1 ≡ (fn w).1)
          ⊎ (((attempt == attempts_of opts) ≡ false) × (r.1 ≡ slept attempt delay e w))
          ⊎ (((attempt == attempts_of opts) ≡ false)
              × (r
                  ≡ do_from float env opts fn left
                      (attempt + 1)
                      (next_delay (cap_of opts) delay)
                      (some e)
                      (slept attempt delay e w)))
    unfolding do_from
    do_from_round left attempt delay last w e f = ground (arith, jittered_calm delay (fn w).1)

    do_from_stop :
        (left attempt delay : ℕ) (last : Option Error) (w : W)
        → (fn w).0 ≡ none
        → let r = do_from float env opts fn (suc left) attempt delay last w in
          (r.1 ≡ w) ⊎ (r.1 ≡ (fn w).1)
    unfolding do_from
    do_from_stop left attempt delay last w f = ground arith

    P-slept : (k attempt : ℕ) (e : Error) (w : W) → P k w → P (suc k) (slept attempt (delay k) e w)
    P-slept k attempt e w p = s.sleep k _ (s.hook k attempt e _ (fn w).1 (s.call k w p))

    do_from_schedule :
        (left attempt k : ℕ) (last : Option Error) (w : W)
        → P k w
        → attempts_of opts ≡ attempt + left
        → (j : ℕ) × (j ≤ k + left)
          × P j (do_from float env opts fn (suc left) attempt (delay k) last w).1
    do_from_schedule zero attempt k last w p m = elim (Option-cases (fn w).0) [
      | inl f ↦ elim (do_from_stop zero attempt (delay k) last w f) [
        | inl e ↦ (k, omega arith, rw e p)
        | inr e ↦ (k, omega arith, rw e (s.call k w p))
      ]
      | inr (x, f) ↦ elim (do_from_round zero attempt (delay k) last w x f) [
        | inl e ↦ (k, omega arith, rw e p)
        | inr (inl e) ↦ (k, omega arith, rw e (s.call k w p))
        | inr (inr (inl e)) ↦ absurd (ground (arith, e.0))
        | inr (inr (inr e)) ↦ absurd (ground (arith, e.0))
      ]
    ]
    do_from_schedule (suc left) attempt k last w p m = elim (Option-cases (fn w).0) [
      | inl f ↦ elim (do_from_stop (suc left) attempt (delay k) last w f) [
        | inl e ↦ (k, omega arith, rw e p)
        | inr e ↦ (k, omega arith, rw e (s.call k w p))
      ]
      | inr (x, f) ↦ elim (do_from_round (suc left) attempt (delay k) last w x f) [
        | inl e ↦ (k, omega arith, rw e p)
        | inr (inl e) ↦ (k, omega arith, rw e (s.call k w p))
        | inr (inr (inl e)) ↦ (suc k, omega arith, rw (e.1) (P-slept k attempt x w p))
        | inr (inr (inr e)) ↦
            let (j, bound, q) =
              do_from_schedule left (attempt + 1) (suc k) (some x) (slept attempt (delay k) x w)
                (P-slept k attempt x w p) (omega arith) in
            (j, omega arith, rw (e.1, next_delay_lem (cap_of opts) (initial_of opts) k) q)
      ]
    ]

    -- Without jitter the i-th delay is `min(InitialDelay · 2^i, MaxDelay)`, and there are fewer delays
    -- than attempts, provided that the initial delay is within the cap.
    pub do_retry_schedule :
        (w : W)
        → P 0 w
        → initial_of opts ≤ cap_of opts
        → (j : ℕ) × (j < attempts_of opts) × P j (do_retry float env opts fn w).1
    unfolding do_retry
    do_retry_schedule w p fits =
        let (n, e) = attempts_suc opts in
        let first : delay 0 ≡ initial_of opts = ground (arith, pow-zero 2) in
        let (j, bound, q) = do_from_schedule n 1 0 none w p (omega arith) in
        (j, omega arith, rw e (rw first at q))
