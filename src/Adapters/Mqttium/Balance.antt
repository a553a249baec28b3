-- ===== src/Adapters/Mqttium/Balance.antt =====
-- adapters/mqttium_async.py: what becomes of each identifier that publish_nowait returns.
use mqtt_python_client_bench.Prelude.{
  subst, ℕ, ◌+◌, ◌≡◌, refl, sym, Bool, true, false, Option, none, some, List, [], ◌∷◌, ◌++◌, ◌==◌,
  if◌then◌else◌, arith, Bool-cases, inl, inr,
}
use mqtt_python_client_bench.Dict.{Dict}
use mqtt_python_client_bench.Adapters.Mqttium.{
  real_to_synth, take_first, keep, Adapter, State, next_after, Admission, flow_control, failure,
  admitted, publish_qos0, publish_qos_via_callback, publish_qos_via_receipt, publish_nowait,
  on_publish, wait_for, fire_popped, settle, reason_code_of, fire_bench_publish, alloc_mid,
  observe_receipt, Event, publishes, completes, settles, step, run, start,
}
use mqtt_python_client_bench.Adapters.Mqttium.Ledger.{ledger, Files}
use mqtt_python_client_bench.Adapters.Mqttium.Queues.{run-Same}

abbrev one : Bool → ℕ
one b = if b then 1 else 0

abbrev pub count : ℕ → List ℕ → ℕ
count x [] = 0
count x (y ∷ ys) = one (x == y) + count x ys

-- The pairs with this first, or second, part.
abbrev pub count_first : ℕ → List (ℕ × ℕ) → ℕ
count_first x [] = 0
count_first x ((j, v) ∷ pairs) = one (x == j) + count_first x pairs

abbrev pub count_second : ℕ → List (ℕ × ℕ) → ℕ
count_second x [] = 0
count_second x ((j, v) ∷ pairs) = one (x == v) + count_second x pairs

count-snoc : (x y : ℕ) (ys : List ℕ) → count x (ys ++ y ∷ []) ≡ count x ys + one (x == y)
count-snoc x y [] = omega arith
count-snoc x y (z ∷ ys) = omega (arith, count-snoc x y ys)

count_first-snoc :
    (x j v : ℕ) (pairs : List (ℕ × ℕ))
    → count_first x (pairs ++ (j, v) ∷ []) ≡ count_first x pairs + one (x == j)
count_first-snoc x j v [] = omega arith
count_first-snoc x j v ((k, u) ∷ pairs) = omega (arith, count_first-snoc x j v pairs)

count_second-snoc :
    (x j v : ℕ) (pairs : List (ℕ × ℕ))
    → count_second x (pairs ++ (j, v) ∷ []) ≡ count_second x pairs + one (x == v)
count_second-snoc x j v [] = omega arith
count_second-snoc x j v ((k, u) ∷ pairs) = omega (arith, count_second-snoc x j v pairs)

-- What is taken leaves one less of itself.
abbrev Takes : ℕ → List (ℕ × ℕ) → Option (ℕ × List (ℕ × ℕ)) → Type 0
Takes x pairs none = Unit {0}
Takes x pairs (some (v, rest)) = count_second x pairs ≡ one (x == v) + count_second x rest

Takes-keep :
    (x j u : ℕ) (pairs : List (ℕ × ℕ)) (o : Option (ℕ × List (ℕ × ℕ)))
    → Takes x pairs o
    → Takes x ((j, u) ∷ pairs) (keep (j, u) o)
Takes-keep x j u pairs none h = tt
Takes-keep x j u pairs (some (v, rest)) h = omega arith

take_first-Takes : (x k : ℕ) (pairs : List (ℕ × ℕ)) → Takes x pairs (take_first k pairs)
unfolding take_first
take_first-Takes x k [] = tt
take_first-Takes x k ((j, u) ∷ pairs) = elim (Bool-cases (j == k)) [
  | inl e ↦ rw e refl
  | inr e ↦ rw e (Takes-keep x j u pairs (take_first k pairs) (take_first-Takes x k pairs))
]

-- Each identifier was returned as often as it was completed, waits under a packet identifier, or waits
-- at a receipt.
pub record Balanced (a : Adapter) (pairs : List (ℕ × ℕ)) : Type 0 where
  pub balance :
      (x : ℕ)
      → count x a.returned
        ≡ count_first x a.fired + count_second x pairs + count_second x a.observed

abbrev Even : State (List (ℕ × ℕ)) → Type 0
Even s = Balanced s.adapter s.waiting

Balanced-settle :
    (code : ℕ) (a : Adapter) (pairs : List (ℕ × ℕ)) (o : Option (ℕ × List (ℕ × ℕ)))
    → Balanced a pairs
    → ((x : ℕ) → Takes x a.observed o)
    → Balanced (settle code a o) pairs
Balanced-settle code a pairs none h t = h
Balanced-settle code a pairs (some (v, rest)) h t = record {
  balance = λ (x : ℕ). omega (arith, h.balance x, t x, count_first-snoc x v code a.fired);
}

Even-fire_popped :
    (code : ℕ) (s : State (List (ℕ × ℕ))) (o : Option (ℕ × List (ℕ × ℕ)))
    → Even s
    → ((x : ℕ) → Takes x s.waiting o)
    → Even (fire_popped ledger code s o)
Even-fire_popped code s none h t = h
Even-fire_popped code s (some (v, rest)) h t = record {
  balance = λ (x : ℕ). omega (arith, h.balance x, t x, count_first-snoc x v code s.adapter.fired);
}

Even-on_publish :
    (mid : Option ℕ) (failed : Bool) (s : State (List (ℕ × ℕ)))
    → Even s
    → Even (on_publish ledger mid failed s)
unfolding on_publish
Even-on_publish none failed s h = h
Even-on_publish (some real) failed s h = either s.adapter.armed
  where
    either :
        (b : Bool)
        → Even (
            if b
            then fire_popped ledger (reason_code_of failed) s (take_first real s.waiting)
            else s)
    either true =
        Even-fire_popped (reason_code_of failed) s (take_first real s.waiting) h
          (λ x. take_first-Takes x real s.waiting)
    either false = h

module _ (s : State (List (ℕ × ℕ))) (h : Even s) where
  abbrev mid : ℕ
  mid = next_after s.adapter.next_mid

  counted :
      (x : ℕ)
      → count x (s.adapter.returned ++ mid ∷ []) ≡ count x s.adapter.returned + one (x == mid)
  counted x = count-snoc x mid s.adapter.returned

  Even-publish_qos0 : (admission : Admission) → Even (publish_qos0 ledger admission s).1
  unfolding publish_qos0
  Even-publish_qos0 flow_control = h
  Even-publish_qos0 failure = h
  Even-publish_qos0 (admitted r) = record {
    balance =
        λ (x : ℕ). omega (arith, h.balance x, counted x, count_first-snoc x mid 0 s.adapter.fired);
  }

  Even-publish_qos_via_callback :
      (admission : Admission) → Even (publish_qos_via_callback ledger admission s).1
  unfolding publish_qos_via_callback
  Even-publish_qos_via_callback flow_control = record { balance = h.balance }
  Even-publish_qos_via_callback failure = record { balance = h.balance }
  Even-publish_qos_via_callback (admitted r) = waits r.mid
    where
      waits :
          (real : Option ℕ)
          → Even (wait_for ledger real (alloc_mid (record (s.adapter) { armed = true })) s.waiting)
      waits none = record {
        balance = λ (x : ℕ).
            omega (arith, h.balance x, counted x, count_first-snoc x mid 0 s.adapter.fired);
      }
      waits (some real) = record {
        balance = λ (x : ℕ).
            omega (arith, h.balance x, counted x, count_second-snoc x real mid s.waiting);
      }

  Even-publish_qos_via_receipt :
      (admission : Admission) → Even (publish_qos_via_receipt ledger admission s).1
  unfolding publish_qos_via_receipt
  Even-publish_qos_via_receipt flow_control = h
  Even-publish_qos_via_receipt failure = h
  Even-publish_qos_via_receipt (admitted r) = observed r.done
    where
      observed :
          (done : Bool)
          → Balanced
              (if done
                then fire_bench_publish mid 0 (alloc_mid s.adapter)
                else observe_receipt ledger r (alloc_mid s.adapter))
              s.waiting
      observed true = record {
        balance = λ (x : ℕ).
            omega (arith, h.balance x, counted x, count_first-snoc x mid 0 s.adapter.fired);
      }
      observed false = record {
        balance = λ (x : ℕ).
            omega
              (arith, h.balance x, counted x, count_second-snoc x r.object mid s.adapter.observed);
      }

  Even-publish_nowait :
      (hooked : Bool) (qos : ℕ) (admission : Admission)
      → Even (publish_nowait ledger hooked qos admission s).1
  unfolding publish_nowait
  Even-publish_nowait hooked qos admission = by_qos (qos == 0) hooked
    where
      by_qos :
          (zero_qos hooked : Bool)
          → Even
              (if zero_qos
                then publish_qos0 ledger admission s
                else if hooked
                then publish_qos_via_callback ledger admission s
                else publish_qos_via_receipt ledger admission s).1
      by_qos true hooked = Even-publish_qos0 admission
      by_qos false true = Even-publish_qos_via_callback admission
      by_qos false false = Even-publish_qos_via_receipt admission

  Even-step : (hooked : Bool) (event : Event) → Even (step ledger hooked event s)
  unfolding step
  Even-step hooked (publishes qos admission) = Even-publish_nowait hooked qos admission
  Even-step hooked (completes real failed) = Even-on_publish real failed s h
  Even-step hooked (settles object failed) =
      Balanced-settle (reason_code_of failed) s.adapter s.waiting
        (take_first object s.adapter.observed) h (λ x. take_first-Takes x object s.adapter.observed)

Even-run :
    (hooked : Bool) (events : List Event) (s : State (List (ℕ × ℕ)))
    → Even s
    → Even (run ledger hooked events s)
unfolding run
Even-run hooked [] s h = h
Even-run hooked (event ∷ events) s h =
    Even-run hooked events (step ledger hooked event s) (Even-step s h hooked event)

-- The ledger that the dict of an adapter files, and the balance of the identifiers.
pub record Accounts (s : State (Dict ℕ (List ℕ))) : Type 0 where
  pub pairs : List (ℕ × ℕ)
  pub files : Files s.waiting pairs
  pub balanced : Balanced s.adapter pairs

-- Whatever the library admits, refuses or fails and in whatever order it completes publishes: each
-- identifier was returned exactly as often as it was completed, waits in the adapter's dict or waits
-- at a receipt; so none is lost, and none completed twice or without having been returned.
pub run-Accounts :
    (hooked : Bool) (events : List Event)
    → Accounts (run real_to_synth hooked events (start real_to_synth))
run-Accounts hooked events =
    let same = run-Same hooked events in
    let even = Even-run hooked events (start ledger) record { balance = λ x. refl } in
    record {
      pairs = (run ledger hooked events (start ledger)).waiting;
      files = same.waiting;
      balanced =
          subst (λ a. Balanced a (run ledger hooked events (start ledger)).waiting)
            (sym same.adapter) even;
    }
