-- ===== src/Tests/AwaitedRuns.antt =====
-- bench/drive.py, pub_capacity_awaited with a window of one: a publish in flight when the stop comes.
use mqtt_python_client_bench.Prelude.{◌≡◌, refl, arith, true}
use mqtt_python_client_bench.Drive.{new_run}
use mqtt_python_client_bench.Drive.Awaited.{
  Gathered, gathered, test_stop, settle, starts, tests, settles, Meets, gathers, moves, stops,
}
use mqtt_python_client_bench.Drive.Awaited.Winding.{
  Fills, WindsDown, Moves, none_left, and_then, Meets-Fills, Moves-WindsDown,
}

abbrev one_up : Gathered
one_up = test_stop (record (gathered 1 (new_run 0 0)) { unstarted = 0; testing = 1 })

abbrev asked : Gathered
asked = record one_up { run = record one_up.run { stop = true } }

asked-Meets : Meets 1 (new_run 0 0) asked
asked-Meets = stops (moves (moves gathers (starts (omega arith))) (tests (omega arith)))

abbrev ended : Gathered
ended = test_stop (settle true asked)

ended_run : (ended.run.done ≡ 1) × (ended.returned ≡ 1)
unfolding settle test_stop
ended_run = (refl, refl)

asked-Moves : Moves 2 asked ended
unfolding settle test_stop
asked-Moves = and_then (settles true (omega arith)) (and_then (tests (omega arith)) none_left)

Meets-Fills_example : Fills 1 asked
Meets-Fills_example = Meets-Fills 1 0 0 asked asked-Meets

Moves-WindsDown_example : WindsDown 1 2 asked ended
unfolding test_stop
Moves-WindsDown_example = Moves-WindsDown 1 0 0 2 asked ended asked-Meets refl asked-Moves
