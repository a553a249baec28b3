-- ===== src/Tests/ChecksRuns.antt =====
-- bench/checks.py on the records of small runs.
use mqtt_python_client_bench.Prelude.{All, ℕ, ◌≡◌, ◌↔◌, refl, arith, true, false, none, some}
use mqtt_python_client_bench.Prelude.Int.{pos, ◌+ℤ◌, ◌-ℤ◌}
use mqtt_python_client_bench.Checks.{publish, Snapshot, Worker, Peer, RunRecord, tolerance}
use mqtt_python_client_bench.Checks.Items.{valid, status, failed}
use mqtt_python_client_bench.Checks.Rules.{
  completed, party_checks, base_checks, client_publishes, publish_checks, deliveries_near,
  delivery_checks, not_lost, by_drops, acked_checks, loss_checks, window_delta, window_ns,
  client_offer_checks, peer_offer_checks, rate_checks, when, payload_checks, filter_checks,
  property_checks, alias_checks, feature_checks,
}
use mqtt_python_client_bench.Checks.Evaluate.{
  broker_checks, host_checks, all_checks, all_flags, evaluate,
}
use mqtt_python_client_bench.Checks.Verdict.{IsPassed, EachGroup, evaluate-valid_iff}
use mqtt_python_client_bench.Checks.Losses.{
  Confirmed, Keeps, ways, evaluate-loss, evaluate-Confirmed,
}

abbrev counted : ℕ → Snapshot
counted n = record {
  sent = n;
  done = n;
  failed = 0;
  rejected = 0;
  received = 0;
  unmatched = 0;
  skipped = 0;
  at_ns = 0;
}

-- The client publishes 120 messages, 100 of them in the window of one second.
abbrev client : Worker
client = record {
  ok = true;
  window_ns = some 1000000000;
  measure = some (counted 20);
  last = some (counted 120);
  final = counted 120;
}

-- A subscriber that received `n` messages.
abbrev subscriber : ℕ → Peer
subscriber n = record {
  error = false;
  sent_total = 0;
  sent_window = 0;
  acked_total = 0;
  received_total = n;
  received_window = n;
  echoed_total = 0;
  size_mismatch = some 0;
  props_seen = 0;
}

-- At `rate`, with `n` messages that reach the subscriber, beside other processes on `busy` tenths
-- of a core.
abbrev published : ℕ → ℕ → ℕ → RunRecord
published rate n busy = record {
  point = record {
    kind = publish;
    qos = 1;
    rate = rate;
    payload = 64;
    filters = 0;
    properties = false;
    topic_alias = false;
  };
  worker = some client;
  peer = some (subscriber n);
  peer_source = none;
  sys =
      some
        (record { received = pos 120; sent = pos n; dropped = pos 0; bytes_received = pos 9600 });
  broker_cpu = some (record { num = 1; den = 10 });
  other_cores = some (record { num = busy; den = 10 });
  measure_ns = 1000000000;
  data_topic_bytes = 20;
}

published_valid : (evaluate false (published 100 118 9)).status ≡ valid
unfolding evaluate all_checks all_flags base_checks party_checks completed publish_checks
    client_publishes tolerance ◌+ℤ◌ ◌-ℤ◌ delivery_checks deliveries_near loss_checks acked_checks
    not_lost by_drops rate_checks client_offer_checks window_delta window_ns peer_offer_checks
    feature_checks payload_checks filter_checks property_checks alias_checks when broker_checks
    host_checks status failed
published_valid = refl

evaluate-valid_iff_example :
    ((evaluate true (published 100 118 2)).status ≡ valid)
    ↔ EachGroup IsPassed true (published 100 118 2)
evaluate-valid_iff_example = evaluate-valid_iff true (published 100 118 2)

evaluate-Confirmed_example : Confirmed (published 100 118 9)
evaluate-Confirmed_example = evaluate-Confirmed false (published 100 118 9) refl published_valid

evaluate-loss_example : All Keeps (ways publish (published 100 118 9))
evaluate-loss_example = evaluate-loss false (published 100 118 9) (omega arith) published_valid
