-- ===== src/Bridge/Handoff.antt =====
-- adapters/async_bridge.py, schedule_coro, schedule_call and _drain_pending: any number of threads and
-- the loop interleave, and what a thread does under the lock is one step. `call_soon_threadsafe` is
-- asyncio's: it has the loop call the drainer, some time later, once for each call of it. Work that is
-- scheduled on the loop's own thread bypasses the queues, and is part of Bridge.Pool.
pub mod Delivery
pub mod Progress
use mqtt_python_client_bench.Prelude.{
  ℕ, zero, suc, ◌+◌, ◌-◌, ◌≤◌, ◌<◌, ◌≡◌, Bool, true, false, List, [], ◌∷◌, ◌++◌, if◌then◌else◌,
}

-- Where the drainer stands: not running, before it takes the lock, or with a batch in hand.
pub data Drainer : Type 0 where
  away : Drainer
  locking : Drainer
  running : List ℕ → List ℕ → Drainer  -- callbacks and coroutines of the batch that are left

pub record Queues : Type 0 where
  pub pending : List ℕ
  pub pending_calls : List ℕ
  pub drain_scheduled : Bool
  pub waking : ℕ  -- threads that left the lock with `wake`, before call_soon_threadsafe
  pub wakes : ℕ  -- calls of the drainer that the loop has yet to make
  pub drainer : Drainer
  -- in order: the coroutines and callbacks that were scheduled, and those that were handed on
  pub coros : List ℕ
  pub calls : List ℕ
  pub dispatched : List ℕ
  pub called : List ℕ

abbrev pub empty : Queues
empty = record {
  pending = [];
  pending_calls = [];
  drain_scheduled = false;
  waking = 0;
  wakes = 0;
  drainer = away;
  coros = [];
  calls = [];
  dispatched = [];
  called = [];
}

-- if not self._drain_scheduled: self._drain_scheduled = True; wake = True
abbrev pub note_wake : Bool → Queues → Queues
note_wake true q = q
note_wake false q = record q { drain_scheduled = true; waking = q.waking + 1 }

unfoldable pub schedule_coro : ℕ → Queues → Queues
schedule_coro coro q =
    note_wake q.drain_scheduled
      (record q { pending = q.pending ++ coro ∷ []; coros = q.coros ++ coro ∷ [] })

unfoldable pub schedule_call : ℕ → Queues → Queues
schedule_call fn q =
    note_wake q.drain_scheduled
      (record q { pending_calls = q.pending_calls ++ fn ∷ []; calls = q.calls ++ fn ∷ [] })

-- The part of _drain_pending under the lock.
unfoldable pub take_batch : List ℕ → List ℕ → Queues → Queues
take_batch [] [] q = record q { drain_scheduled = false; drainer = away }
take_batch coros fns q = record q { pending = []; pending_calls = []; drainer = running fns coros }

-- The rest of a round: a callback, then a coroutine, then the next round. A callback that raises is
-- done with as well.
unfoldable pub run_one : List ℕ → List ℕ → Queues → Queues
run_one (fn ∷ fns) batch q = record q { drainer = running fns batch; called = q.called ++ fn ∷ [] }
run_one [] (coro ∷ batch) q = record q {
  drainer = running [] batch;
  dispatched = q.dispatched ++ coro ∷ [];
}
run_one [] [] q = record q { drainer = locking }

-- A step that schedules nothing: a thread wakes the loop, or the loop runs.
pub data Serve (q : Queues) : Queues → Type 0 where
  wakes_loop : 0 < q.waking → Serve q (record q { waking = q.waking - 1; wakes = q.wakes + 1 })
  starts :
      q.drainer ≡ away → 0 < q.wakes → Serve q (record q { drainer = locking; wakes = q.wakes - 1 })
  takes : q.drainer ≡ locking → Serve q (take_batch q.pending q.pending_calls q)
  runs : (fns batch : List ℕ) → q.drainer ≡ running fns batch → Serve q (run_one fns batch q)

pub data Move (q : Queues) : Queues → Type 0 where
  schedules_coro : (coro : ℕ) → Move q (schedule_coro coro q)
  schedules_call : (fn : ℕ) → Move q (schedule_call fn q)
  serves : {r : Queues} → Serve q r → Move q r

pub data Reachable : Queues → Type 0 where
  start : Reachable empty
  step_of : {q r : Queues} → Reachable q → Move q r → Reachable r
