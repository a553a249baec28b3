-- ===== src/Drive/Awaited/Winding.antt =====
-- bench/drive.py, pub_capacity_awaited: the window, the counts, and how the workers end.
use mqtt_python_client_bench.Prelude.{
  ℕ, ◌+◌, ◌*◌, ◌≤◌, ◌<◌, ◌≡◌, ◌⊎◌, inl, inr, refl, sym, ◌∙◌, Bool, true, false, if◌then◌else◌,
  arith, dec_lt,
}
use mqtt_python_client_bench.Drive.{new_run}
use mqtt_python_client_bench.Drive.Awaited.{
  Gathered, test_stop, settle, Move, starts, tests, settles, drops_unstarted, drops_flying, Meets,
  gathers, moves, stops, cancels,
}

-- Each of the `window` workers stands at one place, so that at most `window` publishes are awaited; each
-- publish is counted as sent, and is awaited, done, failed or lost to a cancellation; without a request
-- to stop no worker has returned, and without a cancellation none was dropped.
pub record Fills (window : ℕ) (g : Gathered) : Type 0 where
  pub each_worker : g.unstarted + g.testing + g.flying + g.returned + g.dropped ≡ window
  pub each_publish : g.run.sent ≡ g.run.done + g.run.failed + g.flying + g.lost
  pub dropped_too : g.lost ≤ g.dropped
  pub stays : (g.run.stop ≡ true) ⊎ (g.returned ≡ 0)
  pub uncancelled : (g.cancelled ≡ true) ⊎ (g.dropped ≡ 0)

either :
    (b : Bool) (x y : Gathered) (P : Gathered → Type 0)
    → (b ≡ true → P x)
    → (b ≡ false → P y)
    → P (if b then x else y)
either true x y P f g = f refl
either false x y P f g = g refl

settle-Fills :
    (window : ℕ) (ok : Bool) (g : Gathered)
    → 0 < g.flying
    → Fills window g
    → Fills window (settle ok g)
unfolding settle
settle-Fills window true g some_flying i = record {
  each_worker = omega (arith, i.each_worker);
  each_publish = omega (arith, i.each_publish);
  dropped_too = i.dropped_too;
  stays = i.stays;
  uncancelled = i.uncancelled;
}
settle-Fills window false g some_flying i = record {
  each_worker = omega (arith, i.each_worker);
  each_publish = omega (arith, i.each_publish);
  dropped_too = i.dropped_too;
  stays = i.stays;
  uncancelled = i.uncancelled;
}

test_stop-Fills :
    (window : ℕ) (g : Gathered) → 0 < g.testing → Fills window g → Fills window (test_stop g)
unfolding test_stop
test_stop-Fills window g some_testing i =
    either g.run.stop _ _ (Fills window)
      (λ e. record {
        each_worker = omega (arith, i.each_worker);
        each_publish = i.each_publish;
        dropped_too = i.dropped_too;
        stays = inl e;
        uncancelled = i.uncancelled;
      })
      (λ e. record {
        each_worker = omega (arith, i.each_worker);
        each_publish = omega (arith, i.each_publish);
        dropped_too = i.dropped_too;
        stays = i.stays;
        uncancelled = i.uncancelled;
      })

Move-Fills : (window : ℕ) (g h : Gathered) → Move g h → Fills window g → Fills window h
Move-Fills window g h (starts u) i = record {
  each_worker = omega (arith, i.each_worker);
  each_publish = i.each_publish;
  dropped_too = i.dropped_too;
  stays = i.stays;
  uncancelled = i.uncancelled;
}
Move-Fills window g h (tests t) i = test_stop-Fills window g t i
Move-Fills window g h (settles ok f) i = settle-Fills window ok g f i
Move-Fills window g h (drops_unstarted c u) i = record {
  each_worker = omega (arith, i.each_worker);
  each_publish = i.each_publish;
  dropped_too = omega (arith, i.dropped_too);
  stays = i.stays;
  uncancelled = inl c;
}
Move-Fills window g h (drops_flying c f) i = record {
  each_worker = omega (arith, i.each_worker);
  each_publish = omega (arith, i.each_publish);
  dropped_too = omega (arith, i.dropped_too);
  stays = i.stays;
  uncancelled = inl c;
}

-- In every state that the workers reach, with publishes that return or raise, a request to stop and a
-- cancellation at any moment: each of the `window` workers stands at one place, so that at most `window`
-- publishes are awaited; each publish is counted as sent once and is awaited, done, failed or lost to a
-- cancellation; no worker returns before the request to stop, and none is dropped without a cancellation.
pub Meets-Fills :
    (window capacity sends : ℕ) (g : Gathered)
    → Meets window (new_run capacity sends) g
    → Fills window g
Meets-Fills window capacity sends g gathers = record {
  each_worker = omega arith;
  each_publish = refl;
  dropped_too = omega arith;
  stays = inr refl;
  uncancelled = inr refl;
}
Meets-Fills window capacity sends g (moves {g = h} met m) =
    Move-Fills window h g m (Meets-Fills window capacity sends h met)
Meets-Fills window capacity sends g (stops {g = h} met) =
    let i = Meets-Fills window capacity sends h met in
    record {
      each_worker = i.each_worker;
      each_publish = i.each_publish;
      dropped_too = i.dropped_too;
      stays = inl refl;
      uncancelled = i.uncancelled;
    }
Meets-Fills window capacity sends g (cancels {g = h} met) =
    let i = Meets-Fills window capacity sends h met in
    record {
      each_worker = i.each_worker;
      each_publish = i.each_publish;
      dropped_too = i.dropped_too;
      stays = i.stays;
      uncancelled = inl refl;
    }

-- ------------------------------------------------------------------ after the request to stop

-- A number of moves of the workers.
pub data Moves : ℕ → Gathered → Gathered → Type 0 where
  none_left : {g : Gathered} → Moves 0 g g
  and_then : {n : ℕ} {g h k : Gathered} → Move g h → Moves n h k → Moves (n + 1) g k

-- A move that is possible.
pub record Goes (g : Gathered) : Type 0 where
  pub next : Gathered
  pub move : Move g next

-- All workers have ended, and each publish is done, failed or lost to a cancellation.
pub record Over (window : ℕ) (g : Gathered) : Type 0 where
  pub all_ended : g.returned + g.dropped ≡ window
  pub all_counted : g.run.sent ≡ g.run.done + g.run.failed + g.lost

-- After some number of moves from `g` to `h`.
pub record WindsDown (window n : ℕ) (g h : Gathered) : Type 0 where
  pub few : n ≤ 2 * window
  pub no_more_sent : h.run.sent ≡ g.run.sent
  pub next_or_over : Goes h ⊎ Over window h

abbrev ahead : Gathered → ℕ
ahead g = 2 * g.unstarted + g.testing + 2 * g.flying

-- A move after the request to stop leaves fewer moves and sends nothing.
record Nearer (g h : Gathered) : Type 0 where
  fewer : ahead h + 1 ≤ ahead g
  same_sent : h.run.sent ≡ g.run.sent
  stopped : h.run.stop ≡ true

Move-Nearer : (g h : Gathered) → g.run.stop ≡ true → Move g h → Nearer g h
unfolding test_stop settle
Move-Nearer g h e (starts u) = record { fewer = omega arith; same_sent = refl; stopped = e }
Move-Nearer g h e (tests t) =
    either g.run.stop _ _ (Nearer g)
      (λ _. record { fewer = omega arith; same_sent = refl; stopped = e })
      (λ f. ground (arith, sym e ∙ f))
Move-Nearer g h e (settles true f) = record { fewer = omega arith; same_sent = refl; stopped = e }
Move-Nearer g h e (settles false f) = record { fewer = omega arith; same_sent = refl; stopped = e }
Move-Nearer g h e (drops_unstarted c u) = record {
  fewer = omega arith;
  same_sent = refl;
  stopped = e;
}
Move-Nearer g h e (drops_flying c f) = record { fewer = omega arith; same_sent = refl; stopped = e }

at_end : (window : ℕ) (g : Gathered) → Fills window g → Goes g ⊎ Over window g
at_end window g i = elim (dec_lt 0 g.unstarted) [
  | yes u ↦ inl (record { next = _; move = starts u })
  | no nu ↦ elim (dec_lt 0 g.testing) [
    | yes t ↦ inl (record { next = _; move = tests t })
    | no nt ↦ elim (dec_lt 0 g.flying) [
      | yes f ↦ inl (record { next = _; move = settles true f })
      | no nf ↦ inr (record {
        all_ended = omega (arith, i.each_worker);
        all_counted = omega (arith, i.each_publish);
      })
    ]
  ]
]

module _ (window : ℕ) where
  winding :
      (n : ℕ) (g h : Gathered)
      → g.run.stop ≡ true
      → Fills window g
      → Moves n g h
      → (n ≤ ahead g) × (h.run.sent ≡ g.run.sent) × Fills window h
  winding n g h e i none_left = (omega arith, refl, i)
  winding n g h e i (and_then {n = m} {h = k} move rest) =
      let near = Move-Nearer g k e move in
      let w = winding m k h near.stopped (Move-Fills window g k move i) rest in
      (omega (arith, near.fewer, w.0), w.1 ∙ near.same_sent, w.2)

-- From every state that the workers reach in which there was a request to stop, and whatever moves they
-- make: they make at most twice `window` of them and send nothing, and as long as a worker has not ended
-- a move is possible, so that in the end all workers have ended and each publish that was sent is done,
-- failed or lost to a cancellation.
pub Moves-WindsDown :
    (window capacity sends n : ℕ) (g h : Gathered)
    → Meets window (new_run capacity sends) g
    → g.run.stop ≡ true
    → Moves n g h
    → WindsDown window n g h
Moves-WindsDown window capacity sends n g h met e steps =
    let i = Meets-Fills window capacity sends g met in
    let w = winding window n g h e i steps in
    record {
      few = omega (arith, w.0, i.each_worker);
      no_more_sent = w.1;
      next_or_over = at_end window h w.2;
    }
