-- ===== src/Bridge/Handoff/Progress.antt =====
-- adapters/async_bridge.py, the hand-off: what was scheduled is handed on.
use mqtt_python_client_bench.Prelude.{
  ℕ, ◌+◌, ◌<◌, ◌≡◌, refl, sym, ap, ◌∙◌, Bool, true, false, List, [], ◌∷◌, ◌++◌, arith, dec_lt,
  append_none,
}
use mqtt_python_client_bench.Bridge.Handoff.{
  Drainer, away, locking, running, Queues, take_batch, run_one, Serve, wakes_loop, starts, takes,
  runs, Reachable,
}
use mqtt_python_client_bench.Bridge.Handoff.Delivery.{
  Delivers, batch_coros, batch_calls, is_busy, as_one, Reachable-Delivers, Serve-Delivers,
}

-- Any number of steps that schedule nothing.
pub data Served : Queues → Queues → Type 0 where
  at_rest : {q : Queues} → Served q q
  then : {q r s : Queues} → Serve q r → Served r s → Served q s

-- Steps that schedule nothing lead to a moment at which no drain is scheduled.
record Settles (q : Queues) : Type 0 where
  rest : Queues
  served : Served q rest
  unscheduled : rest.drain_scheduled ≡ false

onward : {q r : Queues} → Serve q r → Settles r → Settles q
onward step s = record { rest = s.rest; served = then step s.served; unscheduled = s.unscheduled }

take_nothing :
    (pending calls : List ℕ) (q : Queues)
    → pending ≡ []
    → calls ≡ []
    → (take_batch pending calls q).drain_scheduled ≡ false
unfolding take_batch
take_nothing [] [] q p c = refl
take_nothing [] (x ∷ xs) q p c = ground arith
take_nothing (x ∷ xs) calls q p c = ground arith

locking_empty :
    (q : Queues) → q.drainer ≡ locking → q.pending ≡ [] → q.pending_calls ≡ [] → Settles q
locking_empty q d p c = onward (takes d) (record {
  rest = take_batch q.pending q.pending_calls q;
  served = at_rest;
  unscheduled = take_nothing q.pending q.pending_calls q p c;
})

running_empty :
    (fns batch : List ℕ) (q : Queues)
    → q.drainer ≡ running fns batch
    → q.pending ≡ []
    → q.pending_calls ≡ []
    → Settles q
unfolding run_one
running_empty (fn ∷ fns) batch q d p c =
    onward (runs (fn ∷ fns) batch d) (running_empty fns batch _ refl p c)
running_empty [] (coro ∷ batch) q d p c =
    onward (runs [] (coro ∷ batch) d) (running_empty [] batch _ refl p c)
running_empty [] [] q d p c = onward (runs [] [] d) (locking_empty _ refl p c)

taking : (pending calls : List ℕ) (q : Queues) → Settles (take_batch pending calls q)
unfolding take_batch
taking [] [] q = record { rest = _; served = at_rest; unscheduled = refl }
taking [] (x ∷ xs) q = running_empty (x ∷ xs) [] _ refl refl refl
taking (x ∷ xs) calls q = running_empty calls (x ∷ xs) _ refl refl refl

from_locking : (q : Queues) → q.drainer ≡ locking → Settles q
from_locking q d = onward (takes d) (taking q.pending q.pending_calls q)

from_running : (fns batch : List ℕ) (q : Queues) → q.drainer ≡ running fns batch → Settles q
unfolding run_one
from_running (fn ∷ fns) batch q d = onward (runs (fn ∷ fns) batch d) (from_running fns batch _ refl)
from_running [] (coro ∷ batch) q d =
    onward (runs [] (coro ∷ batch) d) (from_running [] batch _ refl)
from_running [] [] q d = onward (runs [] [] d) (from_locking _ refl)

from_wake : (q : Queues) → q.drainer ≡ away → 0 < q.wakes → Settles q
from_wake q d w = onward (starts d w) (from_locking _ refl)

unneeded : (b : Bool) → as_one b ≡ 0 → b ≡ false
unneeded true h = ground arith
unneeded false h = refl

from_away :
    (q : Queues) → q.drainer ≡ away → q.waking + q.wakes + 0 ≡ as_one q.drain_scheduled → Settles q
from_away q d h = elim (dec_lt 0 q.wakes) [
  | yes w ↦ from_wake q d w
  | no nw ↦ elim (dec_lt 0 q.waking) [
    | yes w ↦ onward (wakes_loop w) (from_wake _ d (omega arith))
    | no n ↦ record {
      rest = q;
      served = at_rest;
      unscheduled = unneeded q.drain_scheduled (omega (arith, h));
    }
  ]
]

from_any : (r : Drainer) (q : Queues) → q.drainer ≡ r → Delivers q → Settles q
from_any away q d i = from_away q d (ap (λ r. q.waking + q.wakes + is_busy r) (sym d) ∙ i.one_wake)
from_any locking q d i = from_locking q d
from_any (running fns batch) q d i = from_running fns batch q d

-- ------------------------------------------------------------------ what is kept

run_one-coros : (fns batch : List ℕ) (q : Queues) → (run_one fns batch q).coros ≡ q.coros
unfolding run_one
run_one-coros (fn ∷ fns) batch q = refl
run_one-coros [] (coro ∷ batch) q = refl
run_one-coros [] [] q = refl

run_one-calls : (fns batch : List ℕ) (q : Queues) → (run_one fns batch q).calls ≡ q.calls
unfolding run_one
run_one-calls (fn ∷ fns) batch q = refl
run_one-calls [] (coro ∷ batch) q = refl
run_one-calls [] [] q = refl

take_batch-coros :
    (pending calls : List ℕ) (q : Queues) → (take_batch pending calls q).coros ≡ q.coros
unfolding take_batch
take_batch-coros [] [] q = refl
take_batch-coros [] (x ∷ xs) q = refl
take_batch-coros (x ∷ xs) calls q = refl

take_batch-calls :
    (pending calls : List ℕ) (q : Queues) → (take_batch pending calls q).calls ≡ q.calls
unfolding take_batch
take_batch-calls [] [] q = refl
take_batch-calls [] (x ∷ xs) q = refl
take_batch-calls (x ∷ xs) calls q = refl

Serve-coros : (q r : Queues) → Serve q r → (r.coros ≡ q.coros) × (r.calls ≡ q.calls)
Serve-coros q r (wakes_loop w) = (refl, refl)
Serve-coros q r (starts d w) = (refl, refl)
Serve-coros q r (takes d) =
    (take_batch-coros q.pending q.pending_calls q, take_batch-calls q.pending q.pending_calls q)
Serve-coros q r (runs fns batch d) = (run_one-coros fns batch q, run_one-calls fns batch q)

both : {a b c a' b' c' : List ℕ} → (b ≡ a) × (b' ≡ a') → (c ≡ b) × (c' ≡ b') → (c ≡ a) × (c' ≡ a')
both (p, q) (p', q') = (p' ∙ p, q' ∙ q)

Served-coros : (q r : Queues) → Served q r → (r.coros ≡ q.coros) × (r.calls ≡ q.calls)
Served-coros q r at_rest = (refl, refl)
Served-coros q r (then {r = m} step rest) = both (Serve-coros q m step) (Served-coros m r rest)

Served-Delivers : (q r : Queues) → Served q r → Delivers q → Delivers r
Served-Delivers q r at_rest i = i
Served-Delivers q r (then {r = m} step rest) i =
    Served-Delivers m r rest (Serve-Delivers q m step i)

-- What the steps lead to: nothing is pending, in hand or on its way, and all was handed on.
pub record Handed (q : Queues) : Type 0 where
  pub rest : Queues
  pub served : Served q rest
  pub all_coros : rest.dispatched ≡ q.coros
  pub all_calls : rest.called ≡ q.calls
  pub asleep : rest.drainer ≡ away

idle : (r : Drainer) → is_busy r ≡ 0 → r ≡ away
idle away h = refl
idle locking h = ground arith
idle (running fns batch) h = ground arith

-- Nothing in hand and nothing pending: what is left is what was handed on.
all_done :
    (handed hand pending items : List ℕ)
    → hand ≡ []
    → pending ≡ []
    → (handed ++ hand) ++ pending ≡ items
    → handed ≡ items
all_done handed hand pending items h p kept =
    sym (append_none handed)
    ∙ sym (append_none (handed ++ []))
    ∙ ap (λ l. (handed ++ l) ++ []) (sym h)
    ∙ ap (λ l. (handed ++ hand) ++ l) (sym p)
    ∙ kept

settles : (q r : Queues) → Served q r → r.drain_scheduled ≡ false → Delivers r → Handed q
settles q r steps f i =
    let away' = idle r.drainer (omega (arith, i.one_wake ∙ ap as_one f)) in
    let kept = Served-coros q r steps in
    record {
      rest = r;
      served = steps;
      all_coros =
          all_done r.dispatched (batch_coros r.drainer) r.pending r.coros (ap batch_coros away')
            ((i.awake f).0) i.coros_kept
          ∙ kept.0;
      all_calls =
          all_done r.called (batch_calls r.drainer) r.pending_calls r.calls (ap batch_calls away')
            ((i.awake f).1) i.calls_kept
          ∙ kept.1;
      asleep = away';
    }

-- From every state that threads and loop reach together, steps that schedule nothing (a thread that
-- left the lock with `wake` calls call_soon_threadsafe, and the loop runs) lead to a state in which
-- the drainer has returned, and every coroutine was dispatched and every callback called that had been
-- scheduled, once and in the order of scheduling: no wake-up is lost.
pub Reachable-Handed : (q : Queues) → Reachable q → Handed q
Reachable-Handed q reach =
    let i = Reachable-Delivers q reach in
    let s = from_any q.drainer q refl i in
    settles q s.rest s.served s.unscheduled (Served-Delivers q s.rest s.served i)
