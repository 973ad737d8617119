-- ===== src/RateLimit/Tests.antt =====
-- Windows of 10 with at most two requests.
use mootd.Prelude.{◌+◌, ◌≡◌, refl, true, List, [], ◌∷◌, Map, empty, min, max, arith}
use mootd.RateLimit.{request, Counted, rate_limit_incr}
use mootd.RateLimit.Window.{Event, requested, ticked, run, requests, run-request}

abbrev events : List Event
events = requested 9 "a" ∷ ticked 8 ∷ requested 7 "b" ∷ requested 6 "a" ∷ []

run-request_example :
    ((request 2 10 0 "a" empty).0 ≡ true)
    × ((run 2 10 "a" events (request 2 10 0 "a" empty).1).0 + 1
        ≡ min (requests 2 10 "a" events + 1) (max 2 1))
run-request_example =
    run-request 2 10 "a" 0 events empty refl
      (omega arith, (omega arith, (omega arith, (omega arith, tt))))

-- Where two windows meet, three requests are passed on within 4 units of time.
abbrev edge : List Event
edge = requested 12 "a" ∷ requested 11 "a" ∷ requested 9 "a" ∷ requested 8 "a" ∷ []

meeting : (run 2 10 "a" edge (request 2 10 0 "a" empty).1).0 ≡ 3
unfolding run request
meeting = refl

abbrev store : Map Counted
store = (rate_limit_incr 0 10 "k" empty).1
