-- ===== src/Bridge/Handoff/Delivery.antt =====
-- adapters/async_bridge.py, the hand-off: nothing is lost, duplicated or reordered, and the loop is woken
-- once for a burst.
use mqtt_python_client_bench.Prelude.{
  ℕ, ◌+◌, ◌-◌, ◌<◌, ◌≡◌, refl, sym, ap, ◌∙◌, Bool, true, false, List, [], ◌∷◌, ◌++◌, arith,
  append_assoc, append_none,
}
use mqtt_python_client_bench.Bridge.Handoff.{
  Drainer, away, locking, running, Queues, note_wake, schedule_coro, schedule_call, take_batch,
  run_one, Move, Serve, serves, schedules_coro, schedules_call, wakes_loop, starts, takes, runs,
  Reachable, start, step_of,
}

-- What is in the drainer's hand.
abbrev pub batch_coros : Drainer → List ℕ
batch_coros (running fns batch) = batch
batch_coros _ = []

abbrev pub batch_calls : Drainer → List ℕ
batch_calls (running fns batch) = fns
batch_calls _ = []

abbrev pub is_busy : Drainer → ℕ
is_busy away = 0
is_busy _ = 1

abbrev pub as_one : Bool → ℕ
as_one true = 1
as_one false = 0

-- What holds at every moment: each coroutine that was scheduled is dispatched, in the drainer's hand
-- or pending, in this order and once; so with the callbacks; exactly one wake-up is on its way, or
-- the drainer runs, if a drain is scheduled, and none otherwise; and work is pending only then.
pub record Delivers (q : Queues) : Type 0 where
  pub coros_kept : (q.dispatched ++ batch_coros q.drainer) ++ q.pending ≡ q.coros
  pub calls_kept : (q.called ++ batch_calls q.drainer) ++ q.pending_calls ≡ q.calls
  pub one_wake : q.waking + q.wakes + is_busy q.drainer ≡ as_one q.drain_scheduled
  pub awake : q.drain_scheduled ≡ false → (q.pending ≡ []) × (q.pending_calls ≡ [])

-- A scheduled item goes to the end.
schedule_end :
    (done pending items : List ℕ) (x : ℕ)
    → done ++ pending ≡ items
    → done ++ (pending ++ x ∷ []) ≡ items ++ x ∷ []
schedule_end done pending items x h =
    sym (append_assoc done pending (x ∷ [])) ∙ ap (λ l. l ++ x ∷ []) h

-- An item that is handed on keeps its place.
hand_on :
    (done rest pending : List ℕ) (x : ℕ)
    → ((done ++ x ∷ []) ++ rest) ++ pending ≡ (done ++ (x ∷ rest)) ++ pending
hand_on done rest pending x = ap (λ l. l ++ pending) (append_assoc done (x ∷ []) rest)

-- A batch is what was pending.
take_all : (done pending : List ℕ) → (done ++ pending) ++ [] ≡ (done ++ []) ++ pending
take_all done pending =
    append_none (done ++ pending) ∙ ap (λ l. l ++ pending) (sym (append_none done))

note_wake-Delivers :
    (b : Bool) (q : Queues)
    → q.drain_scheduled ≡ b
    → (q.dispatched ++ batch_coros q.drainer) ++ q.pending ≡ q.coros
    → (q.called ++ batch_calls q.drainer) ++ q.pending_calls ≡ q.calls
    → q.waking + q.wakes + is_busy q.drainer ≡ as_one b
    → Delivers (note_wake b q)
note_wake-Delivers true q b k l o = record {
  coros_kept = k;
  calls_kept = l;
  one_wake = o ∙ sym (ap as_one b);
  awake = λ f. ground arith;
}
note_wake-Delivers false q b k l o = record {
  coros_kept = k;
  calls_kept = l;
  one_wake = omega arith;
  awake = λ f. ground arith;
}

schedule_coro-Delivers : (coro : ℕ) (q : Queues) → Delivers q → Delivers (schedule_coro coro q)
unfolding schedule_coro
schedule_coro-Delivers coro q i =
    note_wake-Delivers q.drain_scheduled _ refl
      (schedule_end (q.dispatched ++ batch_coros q.drainer) q.pending q.coros coro i.coros_kept)
      i.calls_kept i.one_wake

schedule_call-Delivers : (fn : ℕ) (q : Queues) → Delivers q → Delivers (schedule_call fn q)
unfolding schedule_call
schedule_call-Delivers fn q i =
    note_wake-Delivers q.drain_scheduled _ refl i.coros_kept
      (schedule_end (q.called ++ batch_calls q.drainer) q.pending_calls q.calls fn i.calls_kept)
      i.one_wake

-- The state of the drainer is known: what holds then.
coros_at :
    (r : Drainer) (q : Queues)
    → q.drainer ≡ r
    → Delivers q
    → (q.dispatched ++ batch_coros r) ++ q.pending ≡ q.coros
coros_at r q d i = ap (λ r'. (q.dispatched ++ batch_coros r') ++ q.pending) (sym d) ∙ i.coros_kept

calls_at :
    (r : Drainer) (q : Queues)
    → q.drainer ≡ r
    → Delivers q
    → (q.called ++ batch_calls r) ++ q.pending_calls ≡ q.calls
calls_at r q d i = ap (λ r'. (q.called ++ batch_calls r') ++ q.pending_calls) (sym d) ∙ i.calls_kept

wakes_at :
    (r : Drainer) (q : Queues)
    → q.drainer ≡ r
    → Delivers q
    → q.waking + q.wakes + is_busy r ≡ as_one q.drain_scheduled
wakes_at r q d i = ap (λ r'. q.waking + q.wakes + is_busy r') (sym d) ∙ i.one_wake

alone : (b : Bool) (w : ℕ) → w + 1 ≡ as_one b → w ≡ 0
alone true w h = omega arith
alone false w h = omega arith

idle_again : (q : Queues) → q.drainer ≡ locking → Delivers q → q.waking + q.wakes + 0 ≡ 0
idle_again q d i =
    ground (arith, alone q.drain_scheduled (q.waking + q.wakes) (wakes_at locking q d i))

never_asleep :
    (q : Queues) (r : Drainer)
    → q.drainer ≡ r
    → is_busy r ≡ 1
    → Delivers q
    → q.drain_scheduled ≡ false
    → ⊥
never_asleep q r d busy i f = ground (arith, wakes_at r q d i ∙ ap as_one f)

taken-Delivers :
    (pending calls : List ℕ) (q : Queues)
    → q.pending ≡ pending
    → q.pending_calls ≡ calls
    → q.drainer ≡ locking
    → Delivers q
    → Delivers (record q { pending = []; pending_calls = []; drainer = running calls pending })
taken-Delivers pending calls q p c d i = record {
  coros_kept =
      ap (λ l. (q.dispatched ++ l) ++ []) (sym p)
      ∙ take_all q.dispatched q.pending
      ∙ coros_at locking q d i;
  calls_kept =
      ap (λ l. (q.called ++ l) ++ []) (sym c)
      ∙ take_all q.called q.pending_calls
      ∙ calls_at locking q d i;
  one_wake = wakes_at locking q d i;
  awake = λ f. (refl, refl);
}

takes-Delivers :
    (pending calls : List ℕ) (q : Queues)
    → q.pending ≡ pending
    → q.pending_calls ≡ calls
    → q.drainer ≡ locking
    → Delivers q
    → Delivers (take_batch pending calls q)
unfolding take_batch
takes-Delivers [] [] q p c d i = record {
  coros_kept = coros_at locking q d i;
  calls_kept = calls_at locking q d i;
  one_wake = idle_again q d i;
  awake = λ f. (p, c);
}
takes-Delivers [] (x ∷ xs) q p c d i = taken-Delivers [] (x ∷ xs) q p c d i
takes-Delivers (x ∷ xs) calls q p c d i = taken-Delivers (x ∷ xs) calls q p c d i

runs-Delivers :
    (fns batch : List ℕ) (q : Queues)
    → q.drainer ≡ running fns batch
    → Delivers q
    → Delivers (run_one fns batch q)
unfolding run_one
runs-Delivers (fn ∷ fns) batch q d i = record {
  coros_kept = coros_at (running (fn ∷ fns) batch) q d i;
  calls_kept = hand_on q.called fns q.pending_calls fn ∙ calls_at (running (fn ∷ fns) batch) q d i;
  one_wake = wakes_at (running (fn ∷ fns) batch) q d i;
  awake = i.awake;
}
runs-Delivers [] (coro ∷ batch) q d i = record {
  coros_kept =
      hand_on q.dispatched batch q.pending coro ∙ coros_at (running [] (coro ∷ batch)) q d i;
  calls_kept = calls_at (running [] (coro ∷ batch)) q d i;
  one_wake = wakes_at (running [] (coro ∷ batch)) q d i;
  awake = i.awake;
}
runs-Delivers [] [] q d i = record {
  coros_kept = coros_at (running [] []) q d i;
  calls_kept = calls_at (running [] []) q d i;
  one_wake = wakes_at (running [] []) q d i;
  awake = i.awake;
}

starts-Delivers :
    (q : Queues)
    → q.drainer ≡ away
    → 0 < q.wakes
    → Delivers q
    → Delivers (record q { drainer = locking; wakes = q.wakes - 1 })
starts-Delivers q d w i = record {
  coros_kept = coros_at away q d i;
  calls_kept = calls_at away q d i;
  one_wake = omega (arith, wakes_at away q d i);
  awake = i.awake;
}

pub Serve-Delivers : (q r : Queues) → Serve q r → Delivers q → Delivers r
Serve-Delivers q r (wakes_loop w) i = record {
  coros_kept = i.coros_kept;
  calls_kept = i.calls_kept;
  one_wake = omega (arith, i.one_wake);
  awake = i.awake;
}
Serve-Delivers q r (starts d w) i = starts-Delivers q d w i
Serve-Delivers q r (takes d) i = takes-Delivers q.pending q.pending_calls q refl refl d i
Serve-Delivers q r (runs fns batch d) i = runs-Delivers fns batch q d i

Move-Delivers : (q r : Queues) → Move q r → Delivers q → Delivers r
Move-Delivers q r (schedules_coro coro) i = schedule_coro-Delivers coro q i
Move-Delivers q r (schedules_call fn) i = schedule_call-Delivers fn q i
Move-Delivers q r (serves step) i = Serve-Delivers q r step i

-- In every state that threads and loop reach together, each scheduled coroutine is dispatched, in the
-- drainer's hand or pending, once and in the order of scheduling; so with the callbacks; one wake-up
-- is on its way or the drainer runs if a drain is scheduled, and none otherwise; and work is pending
-- only while a drain is scheduled.
pub Reachable-Delivers : (q : Queues) → Reachable q → Delivers q
Reachable-Delivers q start = record {
  coros_kept = refl;
  calls_kept = refl;
  one_wake = refl;
  awake = λ f. (refl, refl);
}
Reachable-Delivers q (step_of reach step) = Move-Delivers _ q step (Reachable-Delivers _ reach)
