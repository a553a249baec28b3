-- ===== src/Tests/FigureRuns.antt =====
-- report/data.py, the figures of a cell of two valid runs and an invalid one.
use mqtt_python_client_bench.Prelude.{ℕ, ◌≡◌, refl, List, [], ◌∷◌, Option, none, some}
use mqtt_python_client_bench.Prelude.Int.{ℤ, pos}
use mqtt_python_client_bench.Dict.{get}
use mqtt_python_client_bench.Histogram.{
  from_values, percentile, add_values, add_value, finish, bump, sorted, insert, merge, merge_all,
  merge_step, add_buckets,
}
use mqtt_python_client_bench.Checks.Items.{Status, valid, invalid}
use mqtt_python_client_bench.Checks.Evaluate.{broker_bound}
use mqtt_python_client_bench.Report.Figures.{
  Measured, valid_runs, metric, present, median, median_of, merged, value, bounded,
  latency_quantiles, broker,
}
use mqtt_python_client_bench.Report.Figures.Pooled.{histogram_of, value-Recorded}
use mqtt_python_client_bench.Report.Figures.Median.{Shows, value-Shows}

abbrev measured : Status → ℕ → Option (List ℤ) → Measured
measured status rate latencies = record {
  status = status;
  metrics = ("msgs_per_s", some rate) ∷ ("cpu_us_per_msg", none) ∷ [];
  latency = histogram_of latencies;
  lag = none;
  latency_rx = none;
  flags = broker_bound ∷ [];
}

abbrev runs : List Measured
runs =
    measured valid 7 (some (pos 10 ∷ pos 30 ∷ []))
    ∷ measured invalid 9 (some (pos 500 ∷ []))
    ∷ measured valid 4 (some (pos 20 ∷ []))
    ∷ []

median_run : value "msgs_per_s" runs ≡ some 11
unfolding value valid_runs median median_of get
median_run = refl

no_metric_run : value "cpu_us_per_msg" runs ≡ none
unfolding value valid_runs median get
no_metric_run = refl

max_run : value "max" runs ≡ some 60
unfolding value valid_runs merged merge merge_all merge_step add_buckets from_values percentile
    add_values add_value finish bump sorted insert get
max_run = refl

bounded_run : bounded "msgs_per_s" runs ≡ some broker
unfolding bounded valid_runs
bounded_run = refl

value-Recorded_example :
    value "p50" runs ≡ percentile (from_values (pos 10 ∷ pos 30 ∷ pos 20 ∷ [])) 1 2
unfolding valid_runs get
value-Recorded_example =
    value-Recorded "p50" (record { quantiles = latency_quantiles; series = λ r. r.latency }) (1, 2)
      runs (some (pos 10 ∷ pos 30 ∷ []) ∷ some (pos 20 ∷ []) ∷ []) refl (refl, (refl, tt))

value-Shows_example :
    Shows (present (metric "msgs_per_s") (valid_runs runs)) (value "msgs_per_s" runs)
unfolding get
value-Shows_example = value-Shows "msgs_per_s" runs refl
