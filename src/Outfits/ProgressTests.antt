-- ===== src/Outfits/ProgressTests.antt =====
-- A generation that fails after one heartbeat.
use mootd.Prelude.{ℕ, ◌≡◌, refl, false, List, [], ◌∷◌, ◌++◌, String, Error, canceled, Result, err}
use mootd.Outfits.Progress.{
  Run, returned, connect, tick, work, exit, end, Reach, here, next, start, connected, heartbeats,
  terminal, streamed_events, progress_events, last_events, streamed_events-Reach,
}

abbrev text : Error → String
text e = "canceled"

abbrev result : Result (List ℕ)
result = err canceled

abbrev ended : Run ℕ
ended = record {
  caller = returned result;
  beating = false;
  beats = 1;
  emitted = connected ∷ (heartbeats 1 ++ (terminal text result ∷ []));
}

reached : Reach text start ended
reached =
    next
      (next (next (next (next here (connect start refl)) (tick _ refl)) (work _ result refl))
        (exit _ refl))
      (end _ result refl refl)

streamed_events-Reach_example :
    (ended.beating ≡ false)
    × (ended.emitted ≡ connected ∷ (heartbeats 1 ++ (terminal text result ∷ [])))
    × (streamed_events ended.emitted result ≡ progress_events 2 ++ last_events result)
streamed_events-Reach_example = streamed_events-Reach text ended result reached refl
