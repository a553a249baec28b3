-- ===== src/Adapters/Mqttium.antt =====
-- adapters/mqttium_async.py: the publishes of the native adapter and their completions. The library is
-- what it does: an `Admission` is what its publish_nowait gives, and the events of a client are those
-- publishes, its calls of on_publish, and the receipts that settle. Its queues of identifiers are an
-- interface: the code's dict of deques is one, a list of pairs in the order of admission another.
pub mod Ledger
pub mod Queues
pub mod Balance
use mqtt_python_client_bench.Prelude.{
  ℕ, zero, suc, ◌+◌, ◌≡◌, Bool, true, false, Option, none, some, List, [], ◌∷◌, ◌++◌, leb, ◌==◌,
  if◌then◌else◌,
}
use mqtt_python_client_bench.Dict.{Dict, nat_eq, get, put, get_or}

-- The identifiers that wait under a packet identifier, the first in goes out first.
pub record Waiting (S : Type 0) : Type 0 where
  pub nobody : S
  pub push : S → ℕ → ℕ → S
  pub pop : S → ℕ → Option (ℕ × S)

-- d.pop(k, None)
unfoldable pub del : Dict ℕ (List ℕ) → ℕ → Dict ℕ (List ℕ)
del [] k = []
del ((j, v) ∷ d) k = if j == k then del d k else (j, v) ∷ del d k

-- _real_to_synth.setdefault(real, deque()).append(mid)
unfoldable pub set_default_append : Dict ℕ (List ℕ) → ℕ → ℕ → Dict ℕ (List ℕ)
unfolding get put
set_default_append d real mid = put d real (get_or d real [] ++ mid ∷ [])

-- pending.popleft(), and the key goes with the last of its queue.
abbrev pub pop_left : Dict ℕ (List ℕ) → ℕ → Option (List ℕ) → Option (ℕ × Dict ℕ (List ℕ))
pop_left d real none = none
pop_left d real (some []) = none
pop_left d real (some (synth ∷ [])) = some (synth, del d real)
pop_left d real (some (synth ∷ next ∷ rest)) = some (synth, put d real (next ∷ rest))

abbrev pub real_to_synth : Waiting (Dict ℕ (List ℕ))
real_to_synth = record {
  nobody = [];
  push = set_default_append;
  pop = λ d real. pop_left d real (get d real);
}

-- What a receipt shows: the packet identifier, is_done, and which object it is.
pub record Receipt : Type 0 where
  pub mid : Option ℕ
  pub done : Bool
  pub object : ℕ

pub data Admission : Type 0 where
  flow_control : Admission
  failure : Admission
  admitted : Receipt → Admission

-- `observed` holds the receipts with a callback and the identifier that it completes; `fired` the calls
-- of the worker's on_publish, an identifier and a reason code; `returned` the identifiers given out.
pub record Adapter : Type 0 where
  pub next_mid : ℕ
  pub armed : Bool
  pub observed : List (ℕ × ℕ)
  pub fired : List (ℕ × ℕ)
  pub returned : List ℕ

pub record State (S : Type 0) : Type 0 where
  pub adapter : Adapter
  pub waiting : S

pub data Outcome : Type 0 where
  raised : Outcome
  returns : Option ℕ → Outcome

-- self._next_mid = 1 if self._next_mid >= 65535 else self._next_mid + 1
unfoldable pub next_after : ℕ → ℕ
next_after n = if leb 65535 n then 1 else n + 1

-- _alloc_mid, for an identifier that publish_nowait will return
abbrev pub alloc_mid : Adapter → Adapter
alloc_mid a = record a {
  next_mid = next_after a.next_mid;
  returned = a.returned ++ next_after a.next_mid ∷ [];
}

abbrev pub fire_bench_publish : ℕ → ℕ → Adapter → Adapter
fire_bench_publish mid reason_code a = record a { fired = a.fired ++ (mid, reason_code) ∷ [] }

abbrev pub arm_completions : Adapter → Adapter
arm_completions a = record a { armed = true }

-- reason None, or an error
abbrev pub reason_code_of : Bool → ℕ
reason_code_of failed = if failed then 128 else 0

abbrev pub keep : ℕ × ℕ → Option (ℕ × List (ℕ × ℕ)) → Option (ℕ × List (ℕ × ℕ))
keep pair none = none
keep pair (some (v, pairs)) = some (v, pair ∷ pairs)

-- The value of the first pair with a key, and the other pairs.
unfoldable pub take_first : ℕ → List (ℕ × ℕ) → Option (ℕ × List (ℕ × ℕ))
take_first k [] = none
take_first k ((j, v) ∷ pairs) = if j == k then some (v, pairs) else keep (j, v) (take_first k pairs)

abbrev pub settle : ℕ → Adapter → Option (ℕ × List (ℕ × ℕ)) → Adapter
settle reason_code a none = a
settle reason_code a (some (mid, observed)) =
    fire_bench_publish mid reason_code (record a { observed = observed })

-- What happens to the adapter. A receipt that settles calls its callback, and has none after that.
pub data Event : Type 0 where
  publishes : ℕ → Admission → Event
  completes : Option ℕ → Bool → Event
  settles : ℕ → Bool → Event

module _ {S : Type 0} (w : Waiting S) where
  unfoldable pub publish_qos0 : Admission → State S → Outcome × State S
  publish_qos0 flow_control s = (returns none, s)
  publish_qos0 failure s = (raised, s)
  publish_qos0 (admitted receipt) s =
      let a = alloc_mid s.adapter in
      (returns (some a.next_mid), record s { adapter = fire_bench_publish a.next_mid 0 a })

  abbrev pub wait_for : Option ℕ → Adapter → S → State S
  wait_for none a waiting = record {
    adapter = fire_bench_publish a.next_mid 0 a;
    waiting = waiting;
  }
  wait_for (some real) a waiting = record { adapter = a; waiting = w.push waiting real a.next_mid }

  -- _publish_qos_via_callback
  unfoldable pub publish_qos_via_callback : Admission → State S → Outcome × State S
  publish_qos_via_callback flow_control s =
      (returns none, record s { adapter = arm_completions s.adapter })
  publish_qos_via_callback failure s = (raised, record s { adapter = arm_completions s.adapter })
  publish_qos_via_callback (admitted receipt) s =
      let a = alloc_mid (arm_completions s.adapter) in
      (returns (some a.next_mid), wait_for receipt.mid a s.waiting)

  abbrev pub observe_receipt : Receipt → Adapter → Adapter
  observe_receipt receipt a = record a {
    observed = a.observed ++ (receipt.object, a.next_mid) ∷ [];
  }

  -- _publish_qos_via_receipt
  unfoldable pub publish_qos_via_receipt : Admission → State S → Outcome × State S
  publish_qos_via_receipt flow_control s = (returns none, s)
  publish_qos_via_receipt failure s = (raised, s)
  publish_qos_via_receipt (admitted receipt) s =
      let a = alloc_mid s.adapter in
      (
        returns (some a.next_mid),
        record s {
          adapter =
              if receipt.done then fire_bench_publish a.next_mid 0 a else observe_receipt receipt a;
        },
      )

  -- publish_nowait; `hooked` is uses_on_publish(self._client).
  unfoldable pub publish_nowait : Bool → ℕ → Admission → State S → Outcome × State S
  unfolding publish_qos0 publish_qos_via_callback publish_qos_via_receipt
  publish_nowait hooked qos admission s =
      if qos == 0
      then publish_qos0 admission s
      else if hooked
      then publish_qos_via_callback admission s
      else publish_qos_via_receipt admission s

  abbrev pub fire_popped : ℕ → State S → Option (ℕ × S) → State S
  fire_popped reason_code s none = s
  fire_popped reason_code s (some (synth, waiting)) = record {
    adapter = fire_bench_publish synth reason_code s.adapter;
    waiting = waiting;
  }

  -- _on_publish, which the library calls once it is armed
  unfoldable pub on_publish : Option ℕ → Bool → State S → State S
  on_publish none failed s = s
  on_publish (some real) failed s =
      if s.adapter.armed then fire_popped (reason_code_of failed) s (w.pop s.waiting real) else s

  unfoldable pub step : Bool → Event → State S → State S
  unfolding publish_nowait on_publish take_first
  step hooked (publishes qos admission) s = (publish_nowait hooked qos admission s).1
  step hooked (completes mid failed) s = on_publish mid failed s
  step hooked (settles object failed) s = record s {
    adapter = settle (reason_code_of failed) s.adapter (take_first object s.adapter.observed);
  }

  unfoldable pub run : Bool → List Event → State S → State S
  unfolding step
  run hooked [] s = s
  run hooked (event ∷ events) s = run hooked events (step hooked event s)

  -- __init__
  abbrev pub start : State S
  start = record {
    adapter = record { next_mid = 0; armed = false; observed = []; fired = []; returned = [] };
    waiting = w.nobody;
  }
