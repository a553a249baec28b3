-- ===== src/Bridge/Pool/Occupied.antt =====
-- adapters/async_bridge.py, the pool: a coroutine waits in the backlog only while every worker that
-- there may be is occupied, and none is lost.
use mqtt_python_client_bench.Prelude.{
  ℕ, ◌+◌, ◌≤◌, ltb, ◌≡◌, ◌⊎◌, inl, inr, refl, sym, ap, ◌∙◌, subst, List, [], ◌∷◌, ◌++◌, some,
  length, set, get_elem?, arith, length-append, Bool-cases,
}
use mqtt_python_client_bench.Bridge.Pool.{
  Task, handed, busy, waiting, WorkerPool, no_waiter, hand_over, dispatch, await_coro, go_on, Turn,
  dispatches, begins, ends, Runs, at_start, turn,
}
use mqtt_python_client_bench.Bridge.Pool.Tasks.{
  waits, flags, is_held, n_held, flags-set, flags-new, get-flags, is_pending-waits, waiting_there,
  length-set, n_held-set, n_held-new,
}
use mqtt_python_client_bench.Bridge.Pool.Waiters.{
  Queued, Queued-end, Queued-kept, n_waiting, n_waiting-new,
}

-- The queue holds the waiters of exactly the workers that wait; there are at most max_workers; the
-- backlog is empty, or no worker waits and there are max_workers; and each coroutine was begun, is
-- with a worker that has yet to begin it, or in the backlog.
pub record IsServing (max_workers : ℕ) (p : WorkerPool) : Type 0 where
  pub queued : Queued (flags p.workers) p.idle_waiters
  pub few : length p.workers ≤ max_workers
  pub occupied : (p.ready ≡ []) ⊎ ((p.idle_waiters ≡ []) × (length p.workers ≡ max_workers))
  pub none_lost : length p.started + n_held p.workers + length p.ready ≡ length p.given

module _ (max_workers : ℕ) where
  no_waiter-IsServing :
      (coro : ℕ) (p : WorkerPool)
      → p.idle_waiters ≡ []
      → n_waiting (flags p.workers) ≡ 0
      → length p.workers ≤ max_workers
      → (p.ready ≡ []) ⊎ ((p.idle_waiters ≡ []) × (length p.workers ≡ max_workers))
      → length p.started + n_held p.workers + length p.ready + 1 ≡ length p.given
      → IsServing max_workers (no_waiter max_workers coro p)
  unfolding no_waiter
  no_waiter-IsServing coro p idle z few o lost =
      elim (Bool-cases (ltb (length p.workers) max_workers)) [
        | inl e ↦ rw e (record {
          queued =
              ap n_waiting (flags-new p.workers (handed coro))
              ∙ n_waiting-new (flags p.workers)
              ∙ z;
          few = ground (arith, length-append p.workers (handed coro ∷ []));
          occupied = inl (elim o [ inl r ↦ r | inr full ↦ absurd (ground (arith, full.1)) ]);
          none_lost = omega (arith, n_held-new p.workers coro, lost);
        })
        | inr e ↦ rw e (record {
          queued = z;
          few = few;
          occupied = inr (refl, ground arith);
          none_lost = omega (arith, length-append p.ready (coro ∷ []), lost);
        })
      ]

  set-IsServing :
      (worker : ℕ) (t u : Task) (idle ready given started : List ℕ) (p : WorkerPool)
      → get_elem? p.workers worker ≡ some u
      → IsServing max_workers p
      → Queued (set (flags p.workers) worker (waits t)) idle
      → (ready ≡ []) ⊎ ((idle ≡ []) × (length p.workers ≡ max_workers))
      → length started + is_held t + n_held p.workers + length ready ≡ length given + is_held u
      → IsServing max_workers (record {
        workers = set p.workers worker t;
        idle_waiters = idle;
        ready = ready;
        given = given;
        started = started;
      })
  set-IsServing worker t u idle ready given started p there i q o lost = record {
    queued = subst (λ l. Queued l idle) (sym (flags-set p.workers worker t)) q;
    few = omega (arith, length-set p.workers worker t, i.few);
    occupied =
        subst (λ n. (ready ≡ []) ⊎ ((idle ≡ []) × (n ≡ max_workers)))
          (sym (length-set p.workers worker t)) o;
    none_lost = omega (arith, n_held-set p.workers worker t u there, lost);
  }

  nonempty : (w : ℕ) (ws : List ℕ) → w ∷ ws ≡ [] → ⊥
  nonempty w ws h = ground arith

  not_full :
      (w : ℕ) (ws ready : List ℕ) (n : ℕ)
      → (ready ≡ []) ⊎ ((w ∷ ws ≡ []) × (n ≡ max_workers))
      → ready ≡ []
  not_full w ws ready n (inl r) = r
  not_full w ws ready n (inr full) = absurd (nonempty w ws full.0)

  hand_over-IsServing :
      (coro : ℕ) (waiters : List ℕ) (p : WorkerPool)
      → p.idle_waiters ≡ waiters
      → IsServing max_workers p
      → IsServing max_workers
          (hand_over max_workers coro waiters (record p { given = p.given ++ coro ∷ [] }))
  unfolding hand_over
  hand_over-IsServing coro [] p e i =
      no_waiter-IsServing coro (record p { given = p.given ++ coro ∷ [] }) e
        (subst (Queued (flags p.workers)) e i.queued) i.few i.occupied
        (omega (arith, length-append p.given (coro ∷ []), i.none_lost))
  hand_over-IsServing coro (w ∷ ws) p e i =
      let q = subst (Queued (flags p.workers)) e i.queued in
      let o =
        subst (λ l. (p.ready ≡ []) ⊎ ((l ≡ []) × (length p.workers ≡ max_workers))) e i.occupied in
      rw (is_pending-waits p.workers w q.0) (
        set-IsServing w (handed coro) waiting ws p.ready (p.given ++ coro ∷ []) p.started p
          (waiting_there p.workers w q.0) i q.1 (inl (not_full w ws p.ready (length p.workers) o))
          (omega (arith, length-append p.given (coro ∷ []), i.none_lost)))

  await_coro-IsServing :
      (worker coro : ℕ) (p : WorkerPool)
      → get_elem? p.workers worker ≡ some (handed coro)
      → IsServing max_workers p
      → IsServing max_workers (await_coro worker coro p)
  await_coro-IsServing worker coro p there i =
      set-IsServing worker (busy coro) (handed coro) p.idle_waiters p.ready p.given
        (p.started ++ coro ∷ []) p there i
        (Queued-kept (flags p.workers) p.idle_waiters worker i.queued
          (get-flags p.workers worker (handed coro) there))
        i.occupied (omega (arith, length-append p.started (coro ∷ []), i.none_lost))

  go_on-IsServing :
      (worker coro : ℕ) (ready : List ℕ) (p : WorkerPool)
      → p.ready ≡ ready
      → get_elem? p.workers worker ≡ some (busy coro)
      → IsServing max_workers p
      → IsServing max_workers (go_on worker ready p)
  unfolding go_on
  go_on-IsServing worker coro [] p e there i =
      let quiet = get-flags p.workers worker (busy coro) there in
      set-IsServing worker waiting (busy coro) (p.idle_waiters ++ worker ∷ []) p.ready p.given
        p.started p there i (Queued-end (flags p.workers) p.idle_waiters worker i.queued quiet)
        (inl e) (omega (arith, i.none_lost))
  go_on-IsServing worker coro (next ∷ ready) p e there i =
      let quiet = get-flags p.workers worker (busy coro) there in
      set-IsServing worker (busy next) (busy coro) p.idle_waiters ready p.given
        (p.started ++ next ∷ []) p there i
        (Queued-kept (flags p.workers) p.idle_waiters worker i.queued quiet)
        (inr (
          full (
            subst (λ l. (l ≡ []) ⊎ ((p.idle_waiters ≡ []) × (length p.workers ≡ max_workers))) e
              i.occupied)))
        (omega (arith, length-append p.started (next ∷ []), ap length e, i.none_lost))
    where
      full :
          (next ∷ ready ≡ []) ⊎ ((p.idle_waiters ≡ []) × (length p.workers ≡ max_workers))
          → (p.idle_waiters ≡ []) × (length p.workers ≡ max_workers)
      full (inl h) = absurd (nonempty next ready h)
      full (inr h) = h

  Turn-IsServing :
      (p q : WorkerPool) → Turn max_workers p q → IsServing max_workers p → IsServing max_workers q
  unfolding dispatch
  Turn-IsServing p q (dispatches coro) i = hand_over-IsServing coro p.idle_waiters p refl i
  Turn-IsServing p q (begins worker coro there) i = await_coro-IsServing worker coro p there i
  Turn-IsServing p q (ends worker coro there) i = go_on-IsServing worker coro p.ready p refl there i

-- In every state that the pool reaches, the queue holds the waiters of exactly the workers that wait,
-- each once; there are at most max_workers; a coroutine is in the backlog only while no worker waits
-- and there are max_workers; and the coroutines that were dispatched are as many as those that a
-- worker began, those that a worker has yet to begin and those of the backlog.
pub Runs-IsServing :
    (max_workers : ℕ) (p : WorkerPool) → Runs max_workers p → IsServing max_workers p
Runs-IsServing max_workers p at_start = record {
  queued = refl;
  few = omega arith;
  occupied = inl refl;
  none_lost = refl;
}
Runs-IsServing max_workers p (turn runs t) =
    Turn-IsServing max_workers _ p t (Runs-IsServing max_workers _ runs)
