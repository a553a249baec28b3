-- ===== src/Tests/RefillRuns.antt =====
-- bench/drive.py, pub_capacity_nowait with a window of one, and a request to stop while it waits.
use mqtt_python_client_bench.Prelude.{◌+◌, ◌≡◌, refl, arith, true}
use mqtt_python_client_bench.Drive.Refill.{
  Refill, refill, awaiting, woken, test_stop, publish_one, after_burst, release, completion,
  on_complete, tests, publishes_one, stops, Refills, fresh, event,
}
use mqtt_python_client_bench.Drive.Refill.Wakes.{IsAwake, Refills-IsAwake}

abbrev waits : Refill
waits = publish_one 1 true (test_stop refill)

waits_run : (waits.phase ≡ awaiting) × (waits.sent ≡ 1)
unfolding test_stop publish_one after_burst
waits_run = (refl, refl)

woken_run : (completion 1 true waits).phase ≡ woken
unfolding completion on_complete release test_stop publish_one after_burst
woken_run = refl

abbrev asked : Refill
asked = record waits { stop = true; releases = waits.releases + 1 }

asked-Refills : Refills 1 asked
unfolding test_stop
asked-Refills =
    event (event (event fresh (tests refl)) (publishes_one true refl (omega arith))) stops

Refills-IsAwake_example : IsAwake 1 asked
Refills-IsAwake_example = Refills-IsAwake 1 asked (omega arith) asked-Refills
