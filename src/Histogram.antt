-- ===== src/Histogram.antt =====
-- bench/histogram.py: sparse histograms, built from values and merged. The dict of counts is a
-- `Dict`; the tuple of local variables of the two loops is a `Tally`.
mod Bits
pub mod Bucket
pub mod Sorted
pub mod Counts
pub mod Merge
mod Walk
pub mod Mass
pub mod Percentile
use mqtt_python_client_bench.Prelude.{
  ℕ, ◌+◌, ◌-◌, ◌*◌, ◌≡◌, Bool, Option, none, some, List, [], ◌∷◌, ltb, leb, ◌==◌, ◌&&◌, ◌||◌, min,
  max, if◌then◌else◌,
}
use mqtt_python_client_bench.Prelude.Int.{ℤ, pos, negsuc}
use mqtt_python_client_bench.Dict.{Dict, nat_eq, get, put, get_or}
use Bucket.{bucket_of, bucket_bounds}

pub record Histogram : Type 0 where
  pub count : ℕ
  pub min_ns : ℕ
  pub max_ns : ℕ
  pub sum_ns : ℕ
  pub negative : ℕ
  pub buckets : List (ℕ × ℕ)

pub record Tally : Type 0 where
  pub buckets : Dict ℕ ℕ
  pub count : ℕ
  pub total : ℕ
  pub negative : ℕ
  pub lo : Option ℕ
  pub hi : ℕ

abbrev pub start : Tally
start = record { buckets = []; count = 0; total = 0; negative = 0; lo = none; hi = 0 }

-- buckets[i] = buckets.get(i, 0) + c
unfoldable pub bump : Dict ℕ ℕ → ℕ → ℕ → Dict ℕ ℕ
unfolding put get
bump d i c = put d i (get_or d i 0 + c)

-- if lo is None or v < lo: lo = v
abbrev pub lower : Option ℕ → ℕ → Option ℕ
lower none v = some v
lower (some l) v = if ltb v l then some v else some l

-- The order of Python's lists [i, c].
abbrev pub before : ℕ × ℕ → ℕ × ℕ → Bool
before (i, c) (j, d) = ltb i j || (i == j && leb c d)

unfoldable pub insert : ℕ × ℕ → List (ℕ × ℕ) → List (ℕ × ℕ)
insert p [] = p ∷ []
insert p (q ∷ l) = if before p q then p ∷ q ∷ l else q ∷ insert p l

-- sorted(...)
unfoldable pub sorted : List (ℕ × ℕ) → List (ℕ × ℕ)
unfolding insert
sorted [] = []
sorted (p ∷ l) = insert p (sorted l)

-- The dict that both functions return; `lo or 0` is the first field.
unfoldable pub finish : Tally → Histogram
unfolding sorted
finish t = record {
  count = t.count;
  min_ns = elim t.lo [ none ↦ 0 | some l ↦ l ];
  max_ns = t.hi;
  sum_ns = t.total;
  negative = t.negative;
  buckets = sorted t.buckets;
}

unfoldable pub add_value : Tally → ℤ → Tally
unfolding bump bucket_of
add_value t (negsuc n) = record t { negative = t.negative + 1 }
add_value t (pos v) = record t {
  buckets = bump t.buckets (bucket_of v) 1;
  count = t.count + 1;
  total = t.total + v;
  lo = lower t.lo v;
  hi = if ltb t.hi v then v else t.hi;
}

unfoldable pub add_values : Tally → List ℤ → Tally
unfolding add_value
add_values t [] = t
add_values t (v ∷ vs) = add_values (add_value t v) vs

unfoldable pub from_values : List ℤ → Histogram
unfolding add_values finish
from_values vs = finish (add_values start vs)

unfoldable pub add_buckets : Dict ℕ ℕ → List (ℕ × ℕ) → Dict ℕ ℕ
unfolding bump
add_buckets d [] = d
add_buckets d ((i, c) ∷ bs) = add_buckets (bump d i c) bs

-- `none` is a missing or empty histogram.
unfoldable pub merge_step : Tally → Option Histogram → Tally
unfolding add_buckets
merge_step t none = t
merge_step t (some h) =
    if h.count == 0 then record t { negative = t.negative + h.negative } else record t {
      buckets = add_buckets t.buckets h.buckets;
      count = t.count + h.count;
      total = t.total + h.sum_ns;
      negative = t.negative + h.negative;
      lo = elim t.lo [ none ↦ some h.min_ns | some l ↦ some (min l h.min_ns) ];
      hi = max t.hi h.max_ns;
    }

unfoldable pub merge_all : Tally → List (Option Histogram) → Tally
unfolding merge_step
merge_all t [] = t
merge_all t (h ∷ hs) = merge_all (merge_step t h) hs

unfoldable pub merge : List (Option Histogram) → Histogram
unfolding merge_all finish
merge hs = finish (merge_all start hs)

-- The midpoint of a bucket between the exact minimum and maximum, in half nanoseconds:
-- 2 * min(max((low + high - 1) / 2, min_ns), max_ns).
unfoldable pub middle : Histogram → ℕ → ℕ
middle h i = min (max ((bucket_bounds i).0 + (bucket_bounds i).1 - 1) (2 * h.min_ns)) (2 * h.max_ns)

-- The loop of `percentile`: `seen >= rank` for the rank `num * count / den`.
unfoldable pub walk : Histogram → ℕ → ℕ → ℕ → List (ℕ × ℕ) → ℕ
walk h num den seen [] = 2 * h.max_ns
walk h num den seen ((i, c) ∷ bs) =
    if leb (num * h.count) ((seen + c) * den) then middle h i else walk h num den (seen + c) bs

-- The quantile q = num / den, in half nanoseconds. A float q is taken as the fraction it stands for.
unfoldable pub percentile : Histogram → ℕ → ℕ → Option ℕ
unfolding walk
percentile h num den =
    if h.count == 0
    then none
    else if num == 0
    then some (2 * h.min_ns)
    else if leb den num
    then some (2 * h.max_ns)
    else some (walk h num den 0 h.buckets)
