-- ===== src/Tests/HistogramRuns.antt =====
-- bench/histogram.py on small series of latencies.
use mqtt_python_client_bench.Prelude.{ℕ, ◌≡◌, refl, arith, Option, none, some, List, [], ◌∷◌}
use mqtt_python_client_bench.Prelude.Int.{ℤ, pos, negsuc}
use mqtt_python_client_bench.Histogram.{from_values, merge, percentile, middle}
use mqtt_python_client_bench.Histogram.Bucket.{bucket_bounds}
use mqtt_python_client_bench.Histogram.Counts.{Describes, from_values-Describes}
use mqtt_python_client_bench.Histogram.Merge.{histograms, concat, merge-from_values}
use mqtt_python_client_bench.Histogram.Percentile.{IsRankBucket, percentile_rank}

abbrev series : List ℤ
series = pos 40 ∷ pos 5 ∷ negsuc 3 ∷ pos 1000 ∷ pos 41 ∷ []

run_series : from_values series ≡ record {
  count = 4;
  min_ns = 5;
  max_ns = 1000;
  sum_ns = 1086;
  negative = 1;
  buckets = (5, 1) ∷ (36, 2) ∷ (111, 1) ∷ [];
}
unfolding from_values
run_series = refl

run_median : percentile (from_values series) 1 2 ≡ some 81
unfolding percentile from_values middle bucket_bounds
run_median = refl

from_values-Describes_example : Describes (from_values series) series
from_values-Describes_example = from_values-Describes series

abbrev recorded : List (Option (List ℤ))
recorded = some series ∷ none ∷ some (pos 7 ∷ []) ∷ []

merge-from_values_example : merge (histograms recorded) ≡ from_values (concat recorded)
merge-from_values_example = merge-from_values recorded

percentile_rank_example : (i : ℕ) × IsRankBucket (from_values series) series 9 10 i
percentile_rank_example = percentile_rank series 9 10 (omega arith) (omega arith) (omega arith)
