-- ===== src/Drive/Credits.antt =====
-- bench/drive.py, pub_fixed_awaited: a pacer hands out credits, spans of message indices, and
-- workers publish the message they took the credit for. The coroutines of one event loop interleave
-- only at their awaits, so each stretch between two awaits is one step. Workers differ in nothing
-- but where they stand, so they are counted: parked at the gate, ready to run, awaiting a publish,
-- or returned. `open_gate` makes every parked worker ready.
pub mod Spans
pub mod Pacer
pub mod Workers
use mqtt_python_client_bench.Prelude.{
  ℕ, zero, suc, ◌+◌, ◌-◌, ◌≤◌, ◌<◌, ◌≡◌, Bool, true, false, List, [], ◌∷◌, ◌++◌, ltb, leb, ◌==◌,
  if◌then◌else◌,
}
use mqtt_python_client_bench.Prelude.Int.{ℤ, pos, sub_ℕ, pos_part, ltb_ℤ}
use mqtt_python_client_bench.Drive.{Run, offered, max_due}
use mqtt_python_client_bench.Drive.Fixed.{Offer}

abbrev pub awaited_fixed_workers : ℕ
awaited_fixed_workers = 256

pub record Pool : Type 0 where
  pub run : Run
  pub credits : List (ℕ × ℕ)
  pub issued : ℕ
  pub gate_done : Bool
  pub parked : ℕ
  pub ready : ℕ
  pub flying : ℕ
  pub returned : ℕ
  -- the pacer's last reading, and the indices published so far
  pub last : ℕ
  pub trace : List ℕ

abbrev pub init : Offer → Run → Pool
init offer run = record {
  run = run;
  credits = [];
  issued = 0;
  gate_done = false;
  parked = 0;
  ready = awaited_fixed_workers;
  flying = 0;
  returned = 0;
  last = offer.t_start;
  trace = [];
}

abbrev pub open_gate : Pool → Pool
open_gate p = record p { ready = p.ready + p.parked; parked = 0 }

-- credits[-1][1] = total where the last span ends at `total - due`, else a new span.
unfoldable pub extend : List (ℕ × ℕ) → ℕ → ℕ → List (ℕ × ℕ)
extend [] first total = (first, total) ∷ []
extend ((a, b) ∷ []) first total =
    if b == first then (a, total) ∷ [] else (a, b) ∷ (first, total) ∷ []
extend (span ∷ next ∷ spans) first total = span ∷ extend (next ∷ spans) first total

-- if due > 0: issued, credits, open_gate()
unfoldable pub hand_out : ℕ → ℕ → Pool → Pool
unfolding extend
hand_out total zero p = p
hand_out total (suc n) p =
    open_gate
      (record p { issued = p.issued + suc n; credits = extend p.credits (total - suc n) total })

-- One round of the pacer at the reading `now`.
unfoldable pub pace : Offer → ℕ → Pool → Pool
unfolding hand_out
pace offer now p =
    let total = offered offer.rate offer.t_start now in
    let due = sub_ℕ total (p.issued + p.run.skipped) in
    let most = max_due offer.rate in
    let seen = record p { last = now } in
    if ltb_ℤ (pos most) due
    then hand_out total most
        (record seen { run = record p.run { skipped = p.run.skipped + (pos_part due - most) } })
    else hand_out total (pos_part due) seen

abbrev pub remaining : List (ℕ × ℕ) → ℕ
remaining [] = 0
remaining ((a, b) ∷ spans) = b - a + remaining spans

-- The pacer after its loop: unspent credits were offered and never sent.
unfoldable pub close : Pool → Pool
close p = open_gate (record p {
  run = record p.run { skipped = p.run.skipped + remaining p.credits };
  credits = [];
  gate_done = true;
})

-- A ready worker runs up to its next await: it parks, returns, or publishes the oldest credit.
unfoldable pub work : Pool → List (ℕ × ℕ) → Pool
work p [] =
    if p.gate_done
    then record p { ready = p.ready - 1; returned = p.returned + 1 }
    else record p { ready = p.ready - 1; parked = p.parked + 1 }
work p ((a, b) ∷ spans) = record p {
  credits = if a + 1 == b then spans else (a + 1, b) ∷ spans;
  run = record p.run { sent = p.run.sent + 1 };
  ready = p.ready - 1;
  flying = p.flying + 1;
  trace = p.trace ++ a ∷ [];
}

-- A publish completes, with or without an exception, and its worker goes on.
unfoldable pub complete : Bool → Pool → Pool
complete ok p = record p {
  run =
      if ok
      then record p.run { done = p.run.done + 1 }
      else record p.run { failed = p.run.failed + 1 };
  flying = p.flying - 1;
  ready = p.ready + 1;
}

pub data Step (offer : Offer) (p : Pool) : Pool → Type 0 where
  pacer_tick :
      (now : ℕ)
      → p.gate_done ≡ false
      → p.last ≤ now
      → now < offer.t_end
      → Step offer p (pace offer now p)
  pacer_end : (now : ℕ) → p.gate_done ≡ false → offer.t_end ≤ now → Step offer p (close p)
  worker_runs : 0 < p.ready → Step offer p (work p p.credits)
  publish_returns : (ok : Bool) → 0 < p.flying → Step offer p (complete ok p)

pub data Reach (offer : Offer) (run : Run) : Pool → Type 0 where
  here : Reach offer run (init offer run)
  next : {p q : Pool} → Reach offer run p → Step offer p q → Reach offer run q
