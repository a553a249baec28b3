-- ===== src/Tests/MqttiumRuns.antt =====
-- adapters/mqttium_async.py: a packet identifier that is used again, and a publish that is refused.
use mqtt_python_client_bench.Prelude.{true, false, some, List, [], ◌∷◌, ◌≡◌, refl}
use mqtt_python_client_bench.Dict.{get, put}
use mqtt_python_client_bench.Adapters.Mqttium.{
  real_to_synth, flow_control, admitted, Event, publishes, completes, run, start, step,
  publish_nowait, publish_qos_via_callback, set_default_append, on_publish, del, next_after,
}
use mqtt_python_client_bench.Adapters.Mqttium.Ledger.{ledger}
use mqtt_python_client_bench.Adapters.Mqttium.Queues.{Same, run-Same}
use mqtt_python_client_bench.Adapters.Mqttium.Balance.{Accounts, run-Accounts}

-- Two publishes under identifier 7, one refused between them; the first fails, the second completes.
abbrev events : List Event
events =
    publishes 1 (admitted (record { mid = some 7; done = false; object = 0 }))
    ∷ publishes 1 flow_control
    ∷ publishes 1 (admitted (record { mid = some 7; done = false; object = 1 }))
    ∷ completes (some 7) true
    ∷ completes (some 7) false
    ∷ []

in_order :
    (run real_to_synth true events (start real_to_synth)).adapter.fired ≡ (1, 128) ∷ (2, 0) ∷ []
unfolding run step publish_nowait publish_qos_via_callback set_default_append on_publish del
    next_after get put
in_order = refl

run-Same_example :
    Same
      (run real_to_synth true events (start real_to_synth))
      (run ledger true events (start ledger))
run-Same_example = run-Same true events

run-Accounts_example : Accounts (run real_to_synth true events (start real_to_synth))
run-Accounts_example = run-Accounts true events
