-- ===== src/Drive/Awaited.antt =====
-- bench/drive.py, pub_capacity_awaited: a window of workers, each of which awaits one publish after the
-- other until `run.stop`. The workers are tasks of one event loop and differ in nothing but where they
-- stand, so they are counted. A thread sets `stop`, and the worker process may cancel the task that
-- gathers the workers; both at any moment. What a publish returns or raises, and when, is open.
pub mod Winding
use mqtt_python_client_bench.Prelude.{ℕ, ◌+◌, ◌-◌, ◌<◌, ◌≡◌, Bool, true, false, if◌then◌else◌}
use mqtt_python_client_bench.Drive.{Run}

pub record Gathered : Type 0 where
  pub run : Run
  pub cancelled : Bool  -- the gathered workers have been asked to end
  pub unstarted : ℕ  -- tasks that have not run yet
  pub testing : ℕ  -- at `while not run.stop`
  pub flying : ℕ  -- at `await publish(...)`
  pub returned : ℕ
  pub dropped : ℕ  -- ended by a CancelledError, which no `except Exception` takes
  pub lost : ℕ  -- of those, the ones that ended at a publish

-- asyncio.gather(*(worker() for _ in range(window))), once t_start has come
abbrev pub gathered : ℕ → Run → Gathered
gathered window run = record {
  run = run;
  cancelled = false;
  unstarted = window;
  testing = 0;
  flying = 0;
  returned = 0;
  dropped = 0;
  lost = 0;
}

-- while not run.stop: run.sent += 1, up to the await
unfoldable pub test_stop : Gathered → Gathered
test_stop g =
    if g.run.stop
    then record g { testing = g.testing - 1; returned = g.returned + 1 }
    else record g {
      run = record g.run { sent = g.run.sent + 1 };
      testing = g.testing - 1;
      flying = g.flying + 1;
    }

-- A publish returns, or raises an Exception: run.done += 1, or run.failed += 1 and `continue`.
unfoldable pub settle : Bool → Gathered → Gathered
settle ok g = record g {
  run =
      if ok
      then record g.run { done = g.run.done + 1 }
      else record g.run { failed = g.run.failed + 1 };
  flying = g.flying - 1;
  testing = g.testing + 1;
}

-- A move of one of the workers.
pub data Move (g : Gathered) : Gathered → Type 0 where
  starts :
      0 < g.unstarted → Move g (record g { unstarted = g.unstarted - 1; testing = g.testing + 1 })
  tests : 0 < g.testing → Move g (test_stop g)
  settles : (ok : Bool) → 0 < g.flying → Move g (settle ok g)
  drops_unstarted :
      g.cancelled ≡ true
      → 0 < g.unstarted
      → Move g (record g { unstarted = g.unstarted - 1; dropped = g.dropped + 1 })
  drops_flying :
      g.cancelled ≡ true
      → 0 < g.flying
      → Move g (record g { flying = g.flying - 1; dropped = g.dropped + 1; lost = g.lost + 1 })

pub data Meets (window : ℕ) (run : Run) : Gathered → Type 0 where
  gathers : Meets window run (gathered window run)
  moves : {g h : Gathered} → Meets window run g → Move g h → Meets window run h
  stops :
      {g : Gathered}
      → Meets window run g
      → Meets window run (record g { run = record g.run { stop = true } })
  cancels : {g : Gathered} → Meets window run g → Meets window run (record g { cancelled = true })
