-- ===== src/Adapters/Mqttium/Queues.antt =====
-- adapters/mqttium_async.py: every run of the adapter over its dict of deques against its run over the
-- ledger.
use mqtt_python_client_bench.Prelude.{
  if◌then◌else◌, subst, ℕ, ◌≡◌, refl, Bool, true, false, Option, none, some, List, [], ◌∷◌, ◌==◌,
}
use mqtt_python_client_bench.Dict.{Dict}
use mqtt_python_client_bench.Adapters.Mqttium.{
  real_to_synth, Adapter, State, Admission, flow_control, failure, admitted, publish_qos0,
  publish_qos_via_callback, publish_qos_via_receipt, publish_nowait, on_publish, wait_for,
  fire_popped, reason_code_of, Outcome, alloc_mid, arm_completions, Event, publishes, completes,
  settles, step, run, start,
}
use mqtt_python_client_bench.Adapters.Mqttium.Ledger.{
  ledger, Files, Files-push, Popped, neither, both, pop-Popped, nobody-Files,
}

-- The same but for the form of the queues, which hold the same identifiers.
pub record Same (s : State (Dict ℕ (List ℕ))) (t : State (List (ℕ × ℕ))) : Type 0 where
  pub adapter : s.adapter ≡ t.adapter
  pub waiting : Files s.waiting t.waiting

abbrev over_dict : Adapter → Dict ℕ (List ℕ) → State (Dict ℕ (List ℕ))
over_dict a d = record { adapter = a; waiting = d }

abbrev over_ledger : Adapter → List (ℕ × ℕ) → State (List (ℕ × ℕ))
over_ledger a pairs = record { adapter = a; waiting = pairs }

module _ (a : Adapter) (d : Dict ℕ (List ℕ)) (pairs : List (ℕ × ℕ)) (f : Files d pairs) where
  fire_popped-Same :
      (code : ℕ) (o : Option (ℕ × Dict ℕ (List ℕ))) (q : Option (ℕ × List (ℕ × ℕ)))
      → Popped o q
      → Same
          (fire_popped real_to_synth code (over_dict a d) o)
          (fire_popped ledger code (over_ledger a pairs) q)
  fire_popped-Same code _ _ neither = record { adapter = refl; waiting = f }
  fire_popped-Same code _ _ (both v e rest g) = record { adapter = refl; waiting = g }

  on_publish-Same :
      (mid : Option ℕ) (failed : Bool)
      → Same
          (on_publish real_to_synth mid failed (over_dict a d))
          (on_publish ledger mid failed (over_ledger a pairs))
  unfolding on_publish
  on_publish-Same none failed = record { adapter = refl; waiting = f }
  on_publish-Same (some real) failed = either a.armed
    where
      either :
          (b : Bool)
          → Same
              (if b
                then fire_popped real_to_synth
                    (reason_code_of failed)
                    (over_dict a d)
                    (real_to_synth.pop d real)
                else over_dict a d)
              (if b
                then fire_popped ledger
                    (reason_code_of failed)
                    (over_ledger a pairs)
                    (ledger.pop pairs real)
                else over_ledger a pairs)
      either true = fire_popped-Same (reason_code_of failed) _ _ (pop-Popped d pairs real f)
      either false = record { adapter = refl; waiting = f }

  wait_for-Same :
      (mid : Option ℕ) → Same (wait_for real_to_synth mid a d) (wait_for ledger mid a pairs)
  wait_for-Same none = record { adapter = refl; waiting = f }
  wait_for-Same (some real) = record {
    adapter = refl;
    waiting = Files-push d pairs real a.next_mid f;
  }

-- One call of publish_nowait: the same outcome, and states that are the same again.
record SameCall (c : Outcome × State (Dict ℕ (List ℕ))) (e : Outcome × State (List (ℕ × ℕ)))
    : Type 0 where
  outcome : c.0 ≡ e.0
  state : Same c.1 e.1

module _ (a : Adapter) (d : Dict ℕ (List ℕ)) (pairs : List (ℕ × ℕ)) (f : Files d pairs) where
  publish_nowait-SameCall :
      (hooked : Bool) (qos : ℕ) (admission : Admission)
      → SameCall
          (publish_nowait real_to_synth hooked qos admission (over_dict a d))
          (publish_nowait ledger hooked qos admission (over_ledger a pairs))
  unfolding publish_nowait publish_qos0 publish_qos_via_callback publish_qos_via_receipt
  publish_nowait-SameCall hooked qos admission = by_qos (qos == 0) hooked admission
    where
      unchanged : {o : Outcome} {b : Adapter} → SameCall (o, over_dict b d) (o, over_ledger b pairs)
      unchanged = record { outcome = refl; state = record { adapter = refl; waiting = f } }

      by_qos :
          (zero_qos hooked : Bool) (admission : Admission)
          → SameCall
              (if zero_qos
                then publish_qos0 real_to_synth admission (over_dict a d)
                else if hooked
                then publish_qos_via_callback real_to_synth admission (over_dict a d)
                else publish_qos_via_receipt real_to_synth admission (over_dict a d))
              (if zero_qos
                then publish_qos0 ledger admission (over_ledger a pairs)
                else if hooked
                then publish_qos_via_callback ledger admission (over_ledger a pairs)
                else publish_qos_via_receipt ledger admission (over_ledger a pairs))
      by_qos true hooked flow_control = unchanged
      by_qos true hooked failure = unchanged
      by_qos true hooked (admitted r) = unchanged
      by_qos false true flow_control = unchanged
      by_qos false true failure = unchanged
      by_qos false true (admitted r) = record {
        outcome = refl;
        state = wait_for-Same (alloc_mid (arm_completions a)) d pairs f r.mid;
      }
      by_qos false false flow_control = unchanged
      by_qos false false failure = unchanged
      by_qos false false (admitted r) = unchanged

  step-Same :
      (hooked : Bool) (event : Event)
      → Same
          (step real_to_synth hooked event (over_dict a d))
          (step ledger hooked event (over_ledger a pairs))
  unfolding step
  step-Same hooked (publishes qos admission) = (publish_nowait-SameCall hooked qos admission).state
  step-Same hooked (completes mid failed) = on_publish-Same a d pairs f mid failed
  step-Same hooked (settles object failed) = record { adapter = refl; waiting = f }

Same-step :
    (hooked : Bool) (event : Event) (s : State (Dict ℕ (List ℕ))) (t : State (List (ℕ × ℕ)))
    → Same s t
    → Same (step real_to_synth hooked event s) (step ledger hooked event t)
Same-step hooked event s t h =
    subst
      (λ b.
        Same (step real_to_synth hooked event s)
          (step ledger hooked event (over_ledger b t.waiting)))
      h.adapter (step-Same s.adapter s.waiting t.waiting h.waiting hooked event)

run_from :
    (hooked : Bool) (events : List Event) (s : State (Dict ℕ (List ℕ))) (t : State (List (ℕ × ℕ)))
    → Same s t
    → Same (run real_to_synth hooked events s) (run ledger hooked events t)
unfolding run
run_from hooked [] s t h = h
run_from hooked (event ∷ events) s t h =
    run_from hooked events (step real_to_synth hooked event s) (step ledger hooked event t)
      (Same-step hooked event s t h)

-- Whatever the library admits, refuses or fails and in whatever order it completes publishes: the
-- adapter's dict of deques leads to the same completions, in the same order and with the same reason
-- codes, and to the same returned identifiers as a ledger from which each completion takes the oldest
-- identifier under its packet identifier; and the dict holds the ledger's identifiers, with no empty
-- deque.
pub run-Same :
    (hooked : Bool) (events : List Event)
    → Same
        (run real_to_synth hooked events (start real_to_synth))
        (run ledger hooked events (start ledger))
run-Same hooked events =
    run_from hooked events (start real_to_synth) (start ledger)
      record { adapter = refl; waiting = nobody-Files }
