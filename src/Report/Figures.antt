-- ===== src/Report/Figures.antt =====
-- report/data.py, the figures of a cell: what Cell.value and Cell.bounded read from the valid runs. The
-- model is exact: a latency is given in half nanoseconds, a metric in halves of its own unit.
pub mod Pooled
pub mod Median
use Prim.Native.String.{String}
use text.Mathlib.Text.{◌==◌ as str_eq}
use mqtt_python_client_bench.Prelude.{
  ℕ, zero, suc, ◌+◌, ◌*◌, ◌/◌, ◌%◌, ◌-◌, ◌==◌, leb, Bool, true, false, not, List, [], ◌∷◌,
  if◌then◌else◌, Option, none, some, any, length, map,
}
use mqtt_python_client_bench.Dict.{Dict, string_eq, get}
use mqtt_python_client_bench.Histogram.{Histogram, merge, percentile}
use mqtt_python_client_bench.Checks.Items.{Status, valid}
use mqtt_python_client_bench.Checks.Evaluate.{Flag, broker_bound, offer_bound}
use mqtt_python_client_bench.Report.{is_status}

-- What a cell reads of a stored run. A metric is a number that is not negative, or None; a histogram
-- is absent if it is missing or empty.
pub record Measured : Type 0 where
  pub status : Status
  pub metrics : Dict String (Option ℕ)
  pub latency : Option Histogram
  pub lag : Option Histogram
  pub latency_rx : Option Histogram
  pub flags : List Flag

-- Cell.valid
unfoldable pub valid_runs : List Measured → List Measured
valid_runs [] = []
valid_runs (r ∷ runs) = if is_status valid r.status then r ∷ valid_runs runs else valid_runs runs

-- ------------------------------------------------------------------ medians

abbrev pub insert_value : ℕ → List ℕ → List ℕ
insert_value v [] = v ∷ []
insert_value v (w ∷ ws) = let rest = insert_value v ws in if leb v w then v ∷ w ∷ ws else w ∷ rest

abbrev pub sort_values : List ℕ → List ℕ
sort_values [] = []
sort_values (v ∷ vs) = insert_value v (sort_values vs)

-- vs[i], for an index in range
abbrev pub nth : List ℕ → ℕ → ℕ
nth [] i = 0
nth (v ∷ vs) zero = v
nth (v ∷ vs) (suc i) = nth vs i

-- statistics.median of a list that is not empty, in halves
unfoldable pub median_of : List ℕ → ℕ
median_of values =
    let n = length values in
    let sorted = sort_values values in
    if n % 2 == 1 then 2 * nth sorted (n / 2) else nth sorted (n / 2 - 1) + nth sorted (n / 2)

-- r["metrics"].get(key)
abbrev pub metric : String → Measured → Option ℕ
metric key r = elim (get r.metrics key) [ none ↦ none | some v ↦ v ]

abbrev pub keep {ℓ} : {A : Type ℓ} → Option A → List A → List A
keep none ys = ys
keep (some y) ys = y ∷ ys

-- [x for x in ... if x is not None]
abbrev pub present {ℓ κ} : {A : Type ℓ} {B : Type κ} → (A → Option B) → List A → List B
present f [] = []
present f (x ∷ xs) = keep (f x) (present f xs)

abbrev pub median_or_none : List ℕ → Option ℕ
median_or_none [] = none
median_or_none (v ∷ vs) = some (median_of (v ∷ vs))

-- Cell.median, over the runs that it is given
unfoldable pub median : String → List Measured → Option ℕ
median key runs = median_or_none (present (metric key) runs)

-- ------------------------------------------------------------------ merged histograms

abbrev pub merge_present : List Histogram → Option Histogram
merge_present [] = none
merge_present (h ∷ hs) =
    let merged = merge (map some (h ∷ hs)) in if merged.count == 0 then none else some merged

-- Cell._merged
unfoldable pub merged : (Measured → Option Histogram) → List Measured → Option Histogram
merged key runs = merge_present (present key runs)

-- A quantile as a fraction.
abbrev pub latency_quantiles : Dict String (ℕ × ℕ)
latency_quantiles =
    ("p50", (1, 2))
    ∷ ("p90", (9, 10))
    ∷ ("p99", (99, 100))
    ∷ ("p999", (999, 1000))
    ∷ ("max", (1, 1))
    ∷ []

abbrev pub lag_quantiles : Dict String (ℕ × ℕ)
lag_quantiles = ("lag_p50", (1, 2)) ∷ ("lag_p99", (99, 100)) ∷ ("lag_max", (1, 1)) ∷ []

abbrev pub rx_quantiles : Dict String (ℕ × ℕ)
rx_quantiles = ("rx_p50", (1, 2)) ∷ ("rx_p99", (99, 100)) ∷ []

-- The histograms that are read for a table of quantiles.
pub record Source : Type 0 where
  pub quantiles : Dict String (ℕ × ℕ)
  pub series : Measured → Option Histogram

abbrev pub sources : List Source
sources =
    record { quantiles = latency_quantiles; series = λ r. r.latency }
    ∷ record { quantiles = lag_quantiles; series = λ r. r.lag }
    ∷ record { quantiles = rx_quantiles; series = λ r. r.latency_rx }
    ∷ []

-- percentile(hist, q) if hist else None
abbrev pub percentile_of : Option Histogram → ℕ × ℕ → Option ℕ
percentile_of none q = none
percentile_of (some h) q = percentile h q.0 q.1

-- if key in quantiles: the first table that has the key, with its quantile.
abbrev pub found : List Source → String → Option (Source × (ℕ × ℕ))
found [] key = none
found (s ∷ ss) key =
    let rest = found ss key in elim (get s.quantiles key) [ none ↦ rest | some q ↦ some (s, q) ]

-- Cell.value of a cell with these runs
unfoldable pub value : String → List Measured → Option ℕ
value key runs = elim (found sources key) [
  | none ↦ median key (valid_runs runs)
  | some (s, q) ↦ percentile_of (merged s.series (valid_runs runs)) q
]

-- ------------------------------------------------------------------ bounds

pub data Limit : Type 0 where
  offer broker : Limit

abbrev pub is_offer_bound : Flag → Bool
is_offer_bound offer_bound = true
is_offer_bound _ = false

abbrev pub is_broker_bound : Flag → Bool
is_broker_bound broker_bound = true
is_broker_bound _ = false

-- Cell.bounded; without a valid run there are no flags.
unfoldable pub bounded : String → List Measured → Option Limit
bounded metric runs =
    if not (str_eq metric "msgs_per_s")
    then none
    else if any (λ r. any is_offer_bound r.flags) (valid_runs runs)
    then some offer
    else if any (λ r. any is_broker_bound r.flags) (valid_runs runs)
    then some broker
    else none
