-- ===== src/Drive/Capacity/Tokens.antt =====
-- bench/drive.py, pub_capacity_sync: the tokens keep the window in every interleaving.
use mqtt_python_client_bench.Prelude.{ℕ, ◌+◌, ◌≤◌, ◌<◌, ◌≡◌, true, false, arith}
use mqtt_python_client_bench.Drive.{Run, new_run}
use mqtt_python_client_bench.Drive.Capacity.{
  Reason, on_publish, Spot, getting, testing, publishing, counting, returning, ended, Shared,
  Access, gets, tests, accepted, refused, counts, returns, completes, notifies, stops, wakes,
  Interleaving, begins, then_does,
}

-- The token that the loop holds: the one of a publish that it may still make, and any other.
abbrev pub held : Spot → ℕ
held testing = 1
held publishing = 1
held returning = 1
held _ = 0

abbrev bound : Spot → ℕ
bound publishing = 1
bound returning = 1
bound _ = 0

abbrev uncounted : Spot → ℕ
uncounted counting = 1
uncounted _ = 0

abbrev pub leaving : Spot → ℕ
leaving testing = 1
leaving ended = 1
leaving _ = 0

abbrev is_ended : Spot → ℕ
is_ended ended = 1
is_ended _ = 0

record Inv (window : ℕ) (s : Shared) : Type 0 where
  pub running :
      s.run.stop ≡ false
      → (s.tokens + held s.spot + s.flying + s.notifying ≡ window)
        × (s.waking ≡ 0)
        × (is_ended s.spot ≡ 0)
  pub bounded : bound s.spot + s.flying + s.notifying ≤ window
  pub outcomes : s.run.done + s.run.failed + s.flying ≡ s.run.sent + uncounted s.spot
  pub awake : s.run.stop ≡ true → 0 < s.tokens + s.waking + leaving s.spot

on_publish_counts :
    (reason : Reason) (run : Run)
    → ((on_publish reason run).done + (on_publish reason run).failed ≡ run.done + run.failed + 1)
      × ((on_publish reason run).sent ≡ run.sent)
      × ((on_publish reason run).stop ≡ run.stop)
unfolding on_publish
on_publish_counts reason run = ground arith

Access-Inv : {window : ℕ} {s t : Shared} → Access s t → Inv window s → Inv window t
Access-Inv {window} {s} (gets e h) i = record {
  running = λ r. ground (arith, i.running);
  bounded = ground (arith, i.running, i.bounded);
  outcomes = ground (arith, i.outcomes);
  awake = λ r. ground (arith, i.awake);
}
Access-Inv {window} {s} (tests e) i = record {
  running = λ r. ground (arith, i.running);
  bounded = ground (arith, i.running, i.bounded);
  outcomes = ground (arith, i.outcomes);
  awake = λ r. ground (arith, i.awake);
}
Access-Inv {window} {s} (accepted e) i = record {
  running = λ r. ground (arith, i.running);
  bounded = ground (arith, i.running, i.bounded);
  outcomes = ground (arith, i.outcomes);
  awake = λ r. ground (arith, i.awake);
}
Access-Inv {window} {s} (refused e) i = record {
  running = λ r. ground (arith, i.running);
  bounded = ground (arith, i.running, i.bounded);
  outcomes = ground (arith, i.outcomes);
  awake = λ r. ground (arith, i.awake);
}
Access-Inv {window} {s} (counts e) i = record {
  running = λ r. ground (arith, i.running);
  bounded = ground (arith, i.running, i.bounded);
  outcomes = ground (arith, i.outcomes);
  awake = λ r. ground (arith, i.awake);
}
Access-Inv {window} {s} (returns e) i = record {
  running = λ r. ground (arith, i.running);
  bounded = ground (arith, i.running, i.bounded);
  outcomes = ground (arith, i.outcomes);
  awake = λ r. ground (arith, i.awake);
}
Access-Inv {window} {s} (completes reason h) i = record {
  running = λ r. ground (arith, on_publish_counts reason s.run, i.running);
  bounded = ground (arith, on_publish_counts reason s.run, i.running, i.bounded);
  outcomes = ground (arith, on_publish_counts reason s.run, i.outcomes);
  awake = λ r. ground (arith, on_publish_counts reason s.run, i.awake);
}
Access-Inv {window} {s} (notifies h) i = record {
  running = λ r. ground (arith, i.running);
  bounded = ground (arith, i.running, i.bounded);
  outcomes = ground (arith, i.outcomes);
  awake = λ r. ground (arith, i.awake);
}
Access-Inv {window} {s} stops i = record {
  running = λ r. ground (arith, i.running);
  bounded = ground (arith, i.running, i.bounded);
  outcomes = ground (arith, i.outcomes);
  awake = λ r. ground (arith, i.awake);
}
Access-Inv {window} {s} (wakes h) i = record {
  running = λ r. ground (arith, i.running);
  bounded = ground (arith, i.running, i.bounded);
  outcomes = ground (arith, i.outcomes);
  awake = λ r. ground (arith, i.awake);
}

Interleaving-Inv :
    (window capacity sends : ℕ) {s : Shared}
    → Interleaving window (new_run capacity sends) s
    → Inv window s
Interleaving-Inv window capacity sends begins = record {
  running = λ r. ground arith;
  bounded = omega arith;
  outcomes = omega arith;
  awake = λ r. ground arith;
}
Interleaving-Inv window capacity sends (then_does r st) =
    Access-Inv st (Interleaving-Inv window capacity sends r)

-- What a state of the loop and its tokens satisfies.
pub record Keeps (window : ℕ) (s : Shared) : Type 0 where
  pub within : s.flying + s.notifying ≤ window
  pub outcomes : s.run.done + s.run.failed + s.flying ≡ s.run.sent + uncounted s.spot
  pub refilled :
      s.run.stop ≡ false → s.spot ≡ getting → s.flying + s.notifying ≡ 0 → s.tokens ≡ window
  pub leaves : s.run.stop ≡ true → 0 < s.tokens + s.waking + leaving s.spot

-- In every interleaving at most `window` accepted publishes await completion, each
-- accepted publish is done, failed or in flight (and counted as sent, unless the loop is about to),
-- and the loop is never stuck at `get()`: before the request to stop, if nothing is in flight and no
-- completion is on its way, there is a token for every publish of the window; after it, the loop
-- is leaving or there is a token, or one on its way from the request.
pub Interleaving-Keeps :
    (window capacity sends : ℕ) (s : Shared)
    → Interleaving window (new_run capacity sends) s
    → Keeps window s
Interleaving-Keeps window capacity sends s r =
    let i = Interleaving-Inv window capacity sends r in
    record {
      within = omega (arith, i.bounded);
      outcomes = i.outcomes;
      refilled = λ f e z. ground (arith, i.running f);
      leaves = i.awake;
    }
