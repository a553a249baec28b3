-- ===== src/Histogram/Walk.antt =====
-- bench/histogram.py, percentile: the loop grows with the rank and stays between the extremes.
use mqtt_python_client_bench.Prelude.{
  ℕ, zero, suc, ◌+◌, ◌*◌, ◌≤◌, ◌<◌, ◌≡◌, ap, ◌∙◌, List, [], ◌∷◌, arith, dec_lt,
}
use mqtt_python_client_bench.Histogram.{Histogram, middle, walk}
use mqtt_python_client_bench.Histogram.Bucket.{
  bucket_bounds, bucket_bounds-next, bucket_bounds-nonempty,
}
use mqtt_python_client_bench.Histogram.Sorted.{IsAscending, IsAbove}

abbrev pub low : ℕ → ℕ
low i = (bucket_bounds i).0

pub high-low : (i : ℕ) → (bucket_bounds i).1 ≡ low (suc i)
high-low i = bucket_bounds-next i ∙ ap (λ (n : ℕ). low n) (omega arith)

pub low-suc : (i : ℕ) → low i < low (suc i)
low-suc i = omega (arith, bucket_bounds-nonempty i, high-low i)

-- Buckets are ordered as their values are.
pub low_mono : (i j : ℕ) → i ≤ j → low i ≤ low j
low_mono i zero h = let e : i ≡ 0 = omega arith in rw e (omega arith)
low_mono i (suc j) h = elim (dec_lt i (suc j)) [
  | yes lt ↦ omega (arith, low-suc j, low_mono i j (omega arith))
  | no ge ↦ let e : i ≡ suc j = omega arith in rw e (omega arith)
]

pub middle_mono : (h : Histogram) (i j : ℕ) → i ≤ j → middle h i ≤ middle h j
unfolding middle
middle_mono h i j le =
    omega (arith, low_mono i j le, low_mono (suc i) (suc j) (omega arith), high-low i, high-low j)

pub middle-le : (h : Histogram) (i : ℕ) → middle h i ≤ 2 * h.max_ns
unfolding middle
middle-le h i = omega arith

pub middle-ge : (h : Histogram) (i : ℕ) → h.min_ns ≤ h.max_ns → 2 * h.min_ns ≤ middle h i
unfolding middle
middle-ge h i le = omega arith

pub walk-le :
    (h : Histogram) (num den seen : ℕ) (bs : List (ℕ × ℕ)) → walk h num den seen bs ≤ 2 * h.max_ns
unfolding walk
walk-le h num den seen [] = omega arith
walk-le h num den seen ((i, c) ∷ bs) =
    ground (arith, middle-le h i, walk-le h num den (seen + c) bs)

pub walk-ge :
    (h : Histogram) (num den seen : ℕ) (bs : List (ℕ × ℕ))
    → h.min_ns ≤ h.max_ns
    → 2 * h.min_ns ≤ walk h num den seen bs
unfolding walk
walk-ge h num den seen [] le = omega arith
walk-ge h num den seen ((i, c) ∷ bs) le =
    ground (arith, middle-ge h i le, walk-ge h num den (seen + c) bs le)

-- Past bucket `k` the walk ends no lower than the middle of `k`.
pub walk-past :
    (h : Histogram) (num den seen k : ℕ) (bs : List (ℕ × ℕ))
    → IsAbove k bs
    → middle h k ≤ walk h num den seen bs
unfolding walk
walk-past h num den seen k [] a = middle-le h k
walk-past h num den seen k ((i, c) ∷ bs) a =
    ground (arith, middle_mono h k i (omega arith), walk-past h num den (seen + c) k bs a.1)

pub walk_mono :
    (h : Histogram) (n m den seen : ℕ) (bs : List (ℕ × ℕ))
    → n * h.count ≤ m * h.count
    → IsAscending bs
    → walk h n den seen bs ≤ walk h m den seen bs
unfolding walk
walk_mono h n m den seen [] le a = omega arith
walk_mono h n m den seen ((i, c) ∷ bs) le a =
    ground (arith, walk_mono h n m den (seen + c) bs le a.2, walk-past h m den (seen + c) i bs a.0)
