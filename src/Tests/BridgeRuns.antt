-- ===== src/Tests/BridgeRuns.antt =====
-- adapters/async_bridge.py: a burst of two coroutines, filters, identifiers and callbacks.
use mqtt_python_client_bench.Prelude.{
  ℕ, ◌≡◌, ◌↔◌, refl, true, false, some, get_elem?, List, [], ◌∷◌,
}
use mqtt_python_client_bench.Dict.{Dict}
use mqtt_python_client_bench.Bridge.Handoff.{
  Queues, empty, schedule_coro, schedules_coro, Reachable, start, step_of,
}
use mqtt_python_client_bench.Bridge.Pool.{
  WorkerPool, empty_pool, handed, busy, dispatch, hand_over, no_waiter, await_coro, go_on, Runs,
  at_start, turn, dispatches, begins, ends,
}
use mqtt_python_client_bench.Bridge.Pool.Occupied.{IsServing, Runs-IsServing}
use mqtt_python_client_bench.Bridge.Handoff.Delivery.{Delivers, Reachable-Delivers}
use mqtt_python_client_bench.Bridge.Handoff.Progress.{Handed, Reachable-Handed}
use mqtt_python_client_bench.Bridge.Topics.{topic_matches_sub, levels_match}
use mqtt_python_client_bench.Bridge.Topics.Filters.{IsFound, topic_matches_sub-IsFound}
use mqtt_python_client_bench.Bridge.Base.{dispatch_message, call_matching}
use mqtt_python_client_bench.Bridge.Base.Callbacks.{
  Matching, or_unmatched, dispatch_message-Matching,
}

-- A pool of one worker: the second coroutine waits until the first has ended.
abbrev one_worker : WorkerPool
one_worker = dispatch 1 8 (dispatch 1 7 empty_pool)

abbrev first_begun : WorkerPool
first_begun = await_coro 0 7 one_worker

abbrev second_begun : WorkerPool
second_begun = go_on 0 (8 ∷ []) first_begun

one_worker_run : (one_worker.workers ≡ handed 7 ∷ []) × (one_worker.ready ≡ 8 ∷ [])
unfolding dispatch hand_over no_waiter
one_worker_run = (refl, refl)

first_there : get_elem? one_worker.workers 0 ≡ some (handed 7)
unfolding dispatch hand_over no_waiter
first_there = refl

first-Runs : Runs 1 first_begun
first-Runs = turn (turn (turn at_start (dispatches 7)) (dispatches 8)) (begins 0 7 first_there)

first_busy : get_elem? first_begun.workers 0 ≡ some (busy 7)
unfolding dispatch hand_over no_waiter
first_busy = refl

second-Runs : Runs 1 (go_on 0 first_begun.ready first_begun)
second-Runs = turn first-Runs (ends 0 7 first_busy)

second_started : second_begun.started ≡ 7 ∷ 8 ∷ []
unfolding dispatch hand_over no_waiter go_on
second_started = refl

Runs-IsServing_example : IsServing 1 (go_on 0 first_begun.ready first_begun)
Runs-IsServing_example = Runs-IsServing 1 (go_on 0 first_begun.ready first_begun) second-Runs

-- Two coroutines are scheduled, and the second finds a drain on its way.
abbrev burst : Queues
burst = schedule_coro 8 (schedule_coro 7 empty)

burst-Reachable : Reachable burst
burst-Reachable = step_of (step_of start (schedules_coro 7)) (schedules_coro 8)

one_waking : burst.waking ≡ 1
unfolding schedule_coro
one_waking = refl

Reachable-Delivers_example : Delivers burst
Reachable-Delivers_example = Reachable-Delivers burst burst-Reachable

Reachable-Handed_example : Handed burst
Reachable-Handed_example = Reachable-Handed burst burst-Reachable

-- "a/b", "a/+", "a/#" and "#/a".
abbrev a_b : List ℕ
a_b = 97 ∷ 47 ∷ 98 ∷ []

abbrev a_any : List ℕ
a_any = 97 ∷ 47 ∷ 43 ∷ []

abbrev a_rest : List ℕ
a_rest = 97 ∷ 47 ∷ 35 ∷ []

abbrev misplaced : List ℕ
misplaced = 35 ∷ 47 ∷ 97 ∷ []

any_run : topic_matches_sub a_any a_b ≡ true
unfolding topic_matches_sub levels_match
any_run = refl

rest_run : topic_matches_sub a_rest (97 ∷ []) ≡ true
unfolding topic_matches_sub levels_match
rest_run = refl

misplaced_run : topic_matches_sub misplaced a_b ≡ false
unfolding topic_matches_sub levels_match
misplaced_run = refl

-- `#` is found to match `$S`.
dollar_run : topic_matches_sub (35 ∷ []) (36 ∷ 83 ∷ []) ≡ true
unfolding topic_matches_sub
dollar_run = refl

topic_matches_sub-IsFound_example : (topic_matches_sub a_any a_b ≡ true) ↔ IsFound a_any a_b
topic_matches_sub-IsFound_example = topic_matches_sub-IsFound a_any a_b

abbrev callbacks : Dict (List ℕ) ℕ
callbacks = (a_any, 1) ∷ (misplaced, 2) ∷ (a_rest, 3) ∷ []

both_called : dispatch_message (some 9) callbacks a_b ≡ 1 ∷ 3 ∷ []
unfolding dispatch_message call_matching topic_matches_sub levels_match
both_called = refl

none_called : dispatch_message (some 9) callbacks (98 ∷ []) ≡ 9 ∷ []
unfolding dispatch_message call_matching topic_matches_sub levels_match
none_called = refl

dispatch_message-Matching_example :
    (called : List ℕ) × Matching a_b callbacks called
    × (dispatch_message (some 9) callbacks a_b ≡ or_unmatched (some 9) called)
dispatch_message-Matching_example = dispatch_message-Matching (some 9) callbacks a_b
