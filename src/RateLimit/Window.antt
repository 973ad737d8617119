-- ===== src/RateLimit/Window.antt =====
-- How many requests of one address the limiter in memory passes on within a window.
use mootd.Prelude.{
  ℕ, ◌+◌, ◌≤◌, ◌≡◌, true, none, some, List, [], ◌∷◌, String, str_eq, eq_iff, eq_refl, arith, min,
  max, if◌then◌else◌, All, Map, Bool-cases, inl, inr,
}
use mootd.RateLimit.{Visitor, request, cleanup}

-- What happens to the limiter: a request of an address, or a tick of the cleanup.
pub data Event : Type 0 where
  requested : ℕ → String → Event
  ticked : ℕ → Event

abbrev pub time : Event → ℕ
time (requested now ip) = now
time (ticked now) = now

module _ (max_requests window : ℕ) (ip : String) where
  -- The visitors after the events, the last one first, and how many requests of `ip` were passed on.
  unfoldable pub run : List Event → Map Visitor → ℕ × Map Visitor
  run [] visitors = (0, visitors)
  run (requested now from ∷ es) visitors =
      let (n, vs) = run es visitors in
      let (passed, vs') = request max_requests window now from vs in
      (if str_eq from ip then (if passed then n + 1 else n) else n, vs')
  run (ticked now ∷ es) visitors =
      let (n, vs) = run es visitors in (n, cleanup max_requests window now vs)

  unfoldable pub requests : List Event → ℕ
  requests [] = 0
  requests (requested now from ∷ es) = let n = requests es in if str_eq from ip then n + 1 else n
  requests (ticked now ∷ es) = requests es

  -- The visitor has made one request more than the events, at the start of its window.
  record IsCounted (start : ℕ) (es : List Event) (r : ℕ × Map Visitor) : Type 0 where
    visitor : r.1 ip ≡ some (record { count = requests es + 1; window_start = start })
    passed : r.0 + 1 ≡ min (requests es + 1) (max max_requests 1)

  requested-IsCounted :
      (start now : ℕ) (from : String) (es : List Event) (r : ℕ × Map Visitor)
      → now ≤ start + window
      → IsCounted start es r
      → let (passed, vs') = request max_requests window now from r.1 in
        IsCounted start
          (requested now from ∷ es)
          (if str_eq from ip then (if passed then r.0 + 1 else r.0) else r.0, vs')
  unfolding request requests
  requested-IsCounted start now from es r w h = elim (Bool-cases (str_eq from ip)) [
    | inr e ↦ record {
      visitor = ground (arith, e, h.visitor, eq_iff from ip);
      passed = ground (arith, e, h.passed);
    }
    | inl e ↦ record {
      visitor = ground (arith, e, h.visitor, w, eq_iff from ip);
      passed = ground (arith, e, h.visitor, h.passed, w, eq_iff from ip);
    }
  ]

  ticked-IsCounted :
      (start now : ℕ) (es : List Event) (r : ℕ × Map Visitor)
      → now ≤ start + window
      → IsCounted start es r
      → IsCounted start (ticked now ∷ es) (r.0, cleanup max_requests window now r.1)
  unfolding cleanup requests
  ticked-IsCounted start now es r w h = record {
    visitor = ground (arith, h.visitor, w);
    passed = h.passed;
  }

  run-IsCounted :
      (start : ℕ) (es : List Event) (visitors : Map Visitor)
      → visitors ip ≡ some (record { count = 1; window_start = start })
      → All (λ e. time e ≤ start + window) es
      → IsCounted start es (run es visitors)
  unfolding run requests
  run-IsCounted start [] visitors e ws = record { visitor = e; passed = omega arith }
  run-IsCounted start (requested now from ∷ es) visitors e (w, ws) =
      requested-IsCounted start now from es (run es visitors) w
        (run-IsCounted start es visitors e ws)
  run-IsCounted start (ticked now ∷ es) visitors e (w, ws) =
      ticked-IsCounted start now es (run es visitors) w (run-IsCounted start es visitors e ws)

  -- If the limiter does not know an address when it makes a request, then until the window of that request
  -- ends the first `max_requests` of its requests are passed on, this one in any case, and no others,
  -- whatever requests other addresses make and whenever the cleanup runs.
  pub run-request :
      (start : ℕ) (es : List Event) (visitors : Map Visitor)
      → visitors ip ≡ none
      → All (λ e. time e ≤ start + window) es
      → let (passed, vs) = request max_requests window start ip visitors in
        (passed ≡ true) × ((run es vs).0 + 1 ≡ min (requests es + 1) (max max_requests 1))
  unfolding request
  run-request start es visitors e ws =
      let vs = (request max_requests window start ip visitors).1 in
      let known : vs ip ≡ some (record { count = 1; window_start = start }) =
        ground (arith, e, eq_refl ip) in
      let h = run-IsCounted start es vs known ws in (ground (arith, e), h.passed)
