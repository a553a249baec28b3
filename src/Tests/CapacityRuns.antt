-- ===== src/Tests/CapacityRuns.antt =====
-- bench/drive.py, pub_capacity_sync: a completion that overtakes the count of its publish.
use mqtt_python_client_bench.Prelude.{◌≡◌, refl, arith}
use mqtt_python_client_bench.Drive.{new_run}
use mqtt_python_client_bench.Drive.Capacity.{
  code, on_publish, is_failure, Shared, counting, Interleaving, begins, then_does, gets, tests,
  accepted, completes,
}
use mqtt_python_client_bench.Drive.Capacity.Tokens.{Keeps, Interleaving-Keeps}

-- One of two tokens is taken, and the publish fails before the loop has counted it.
abbrev failing : Shared
failing = record {
  run = on_publish (code 131) (new_run 0 0);
  tokens = 1;
  spot = counting;
  flying = 0;
  notifying = 1;
  waking = 0;
}

failing-Interleaving : Interleaving 2 (new_run 0 0) failing
failing-Interleaving =
    then_does
      (then_does (then_does (then_does begins (gets refl (omega arith))) (tests refl))
        (accepted refl))
      (completes (code 131) (omega arith))

failed_once : failing.run.failed ≡ 1
unfolding on_publish is_failure
failed_once = refl

Interleaving-Keeps_example : Keeps 2 failing
Interleaving-Keeps_example = Interleaving-Keeps 2 0 0 failing failing-Interleaving
