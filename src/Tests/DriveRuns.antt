-- ===== src/Tests/DriveRuns.antt =====
-- bench/drive.py on small offers.
use mqtt_python_client_bench.Prelude.{
  ◌<◌, ◌≡◌, refl, arith, true, false, [], ◌∷◌, max, if◌then◌else◌, ◌==◌, get_elem?, some,
}
use mqtt_python_client_bench.Drive.{new_run}
use mqtt_python_client_bench.Drive.Fixed.{
  Env, IsClock, Offer, rounds, pub_fixed_sync, pub_fixed_nowait,
}
use mqtt_python_client_bench.Drive.Fixed.Tick.{pub_fixed_nowait-eq-sync}
use mqtt_python_client_bench.Drive.Fixed.Loop.{Ends, Settled, pub_fixed_sync-Ends}
use mqtt_python_client_bench.Drive.Payloads.{stamped, make, on_message_stamped}
use mqtt_python_client_bench.Drive.Payloads.Stamp.{on_message_stamped-make}
use mqtt_python_client_bench.Prelude.Int.{pos, ◌-ℤ◌}
use mqtt_python_client_bench.Drive.Credits.{
  Pool, init, Reach, here, next, pacer_tick, worker_runs, pace, work,
}
use mqtt_python_client_bench.Drive.Credits.Workers.{IsSound, Reach-IsSound}

-- 2,000 messages per second for 3 ms, every third refused, and a clock that wakes on time.
abbrev offer : Offer
offer = record { rate = 2000; t_start = 100; t_end = 3000100 }

abbrev env : Env
env = record {
  accepts = λ i. if i == 2 then false else true;
  reading = λ i. i;
  wake = λ now deadline. max now deadline;
}

env-IsClock : IsClock env
env-IsClock = record { at_deadline = λ n d. omega arith; forward = λ n d. omega arith }

pub_fixed_nowait-eq-sync_example :
    pub_fixed_nowait env offer 9 0 (new_run 0 8) ≡ pub_fixed_sync env offer 9 0 (new_run 0 8)
pub_fixed_nowait-eq-sync_example = pub_fixed_nowait-eq-sync env offer 9 0 (new_run 0 8)

pub_fixed_sync-Ends_example :
    Ends (Settled offer) (pub_fixed_sync env offer (rounds offer) 0 (new_run 0 8))
pub_fixed_sync-Ends_example = pub_fixed_sync-Ends env env-IsClock offer (omega arith) 0 0 8

-- The pacer hands out two messages at the first millisecond, and a worker takes one.
abbrev paced : Pool
paced = pace offer 1000100 (init offer (new_run 0 8))

paced-Reach : Reach offer (new_run 0 8) paced
paced-Reach = next here (pacer_tick 1000100 refl (omega arith) (omega arith))

paced_ready : 0 < paced.ready
unfolding pace
paced_ready = omega arith

worked-Reach : Reach offer (new_run 0 8) (work paced paced.credits)
worked-Reach = next paced-Reach (worker_runs paced_ready)

run_worked :
    ((work paced paced.credits).run.sent ≡ 1) × ((work paced paced.credits).credits ≡ (1, 2) ∷ [])
unfolding pace work
run_worked = (refl, refl)

Reach-IsSound_example : IsSound offer (work paced paced.credits)
Reach-IsSound_example = Reach-IsSound offer 0 8 (work paced paced.credits) worked-Reach

-- The offer has 6 messages, and the array has 8 places.

-- Message 4 of three sizes in turn, received 250 ns later.
on_message_stamped-make_example :
    (get_elem?
        (on_message_stamped (new_run 2 0) 750 (make (stamped (8 ∷ 16 ∷ 9 ∷ [])) 4 500)).latencies
        0
      ≡ some (pos 750 -ℤ pos 500))
    × ((on_message_stamped (new_run 2 0) 750 (make (stamped (8 ∷ 16 ∷ 9 ∷ [])) 4 500)).received ≡ 1)
    × ((on_message_stamped
          (new_run 2 0)
          750
          (make (stamped (8 ∷ 16 ∷ 9 ∷ [])) 4 500)).latency_overflow
        ≡ 0)
on_message_stamped-make_example =
    on_message_stamped-make (new_run 2 0) (8 ∷ 16 ∷ 9 ∷ []) 4 500 750 (omega arith) (omega arith)
