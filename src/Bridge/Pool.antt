-- ===== src/Bridge/Pool.antt =====
-- adapters/async_bridge.py, the pool of workers on the loop: _dispatch and _worker. The loop runs one
-- thing at a time, and what it runs between two awaits is one step; which worker goes on is open. A
-- worker is the index of its task. The teardown of _close_pool is not modelled.
pub mod Tasks
pub mod Waiters
pub mod Occupied
use mqtt_python_client_bench.Prelude.{
  ℕ, ◌+◌, ◌≡◌, Bool, true, false, List, [], ◌∷◌, ◌++◌, if◌then◌else◌, Option, none, some, ltb,
  length, set, get_elem?,
}

-- Where a worker stands: its task is created or its waiter is resolved, and it has yet to run; it
-- awaits a coroutine; or it awaits its waiter.
pub data Task : Type 0 where
  handed : ℕ → Task
  busy : ℕ → Task
  waiting : Task

pub record WorkerPool : Type 0 where
  pub workers : List Task
  pub idle_waiters : List ℕ
  pub ready : List ℕ
  -- in order: the coroutines that were dispatched, and those that a worker began to await
  pub given : List ℕ
  pub started : List ℕ

abbrev pub empty_pool : WorkerPool
empty_pool = record { workers = []; idle_waiters = []; ready = []; given = []; started = [] }

-- not waiter.done()
abbrev pub is_pending : Option Task → Bool
is_pending (some waiting) = true
is_pending _ = false

-- No waiter is pending: a new worker if there may be one, and else the backlog.
unfoldable pub no_waiter : ℕ → ℕ → WorkerPool → WorkerPool
no_waiter max_workers coro p =
    if ltb (length p.workers) max_workers
    then record p { workers = p.workers ++ handed coro ∷ []; idle_waiters = [] }
    else record p { ready = p.ready ++ coro ∷ []; idle_waiters = [] }

-- while self._idle_waiters: ...
unfoldable pub hand_over : ℕ → ℕ → List ℕ → WorkerPool → WorkerPool
hand_over max_workers coro [] p = no_waiter max_workers coro p
hand_over max_workers coro (waiter ∷ waiters) p =
    let rest = hand_over max_workers coro waiters p in
    if is_pending (get_elem? p.workers waiter)
    then record p { workers = set p.workers waiter (handed coro); idle_waiters = waiters }
    else rest

unfoldable pub dispatch : ℕ → ℕ → WorkerPool → WorkerPool
dispatch max_workers coro p =
    hand_over max_workers coro p.idle_waiters (record p { given = p.given ++ coro ∷ [] })

-- A worker begins to await the coroutine that it was given.
abbrev pub await_coro : ℕ → ℕ → WorkerPool → WorkerPool
await_coro worker coro p = record p {
  workers = set p.workers worker (busy coro);
  started = p.started ++ coro ∷ [];
}

-- A worker's coroutine has ended: the next of the backlog, or a new waiter.
unfoldable pub go_on : ℕ → List ℕ → WorkerPool → WorkerPool
go_on worker (coro ∷ ready) p = await_coro worker coro (record p { ready = ready })
go_on worker [] p = record p {
  workers = set p.workers worker waiting;
  idle_waiters = p.idle_waiters ++ worker ∷ [];
}

pub data Turn (max_workers : ℕ) (p : WorkerPool) : WorkerPool → Type 0 where
  dispatches : (coro : ℕ) → Turn max_workers p (dispatch max_workers coro p)
  begins :
      (worker coro : ℕ)
      → get_elem? p.workers worker ≡ some (handed coro)
      → Turn max_workers p (await_coro worker coro p)
  ends :
      (worker coro : ℕ)
      → get_elem? p.workers worker ≡ some (busy coro)
      → Turn max_workers p (go_on worker p.ready p)

pub data Runs (max_workers : ℕ) : WorkerPool → Type 0 where
  at_start : Runs max_workers empty_pool
  turn : {p q : WorkerPool} → Runs max_workers p → Turn max_workers p q → Runs max_workers q
