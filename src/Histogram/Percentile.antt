-- ===== src/Histogram/Percentile.antt =====
-- bench/histogram.py, percentile: the value lies between the extremes, grows with the quantile, and
-- is the middle of the bucket that holds the sample of that rank.
use mqtt_python_client_bench.Prelude.{
  ℕ, suc, ◌+◌, ◌-◌, ◌*◌, ◌≤◌, ◌<◌, ◌≡◌, min, max, ap, subst, ◌∙◌, true, false, Option, none, some,
  List, [], ◌∷◌, arith, leb, Bool-cases, inl, inr, dec_lt, leb→le,
}
use mqtt_python_client_bench.Prelude.Int.{ℤ, pos, negsuc}
use mqtt_python_client_bench.Histogram.{Histogram, middle, walk, percentile, from_values}
use mqtt_python_client_bench.Histogram.Bucket.{bucket_bounds, bucket_bounds-nonempty}
use mqtt_python_client_bench.Histogram.Sorted.{at, IsAscending, at-cons, at-IsAbove}
use mqtt_python_client_bench.Histogram.Counts.{
  n_values, in_bucket, least, greatest, or_zero, Describes, from_values-Describes,
}
use mqtt_python_client_bench.Histogram.Walk.{low, high-low, walk-le, walk-ge, walk_mono}
use mqtt_python_client_bench.Histogram.Mass.{
  n_below, mass_below, mass_below-above, mass_below-n_below, mass, mass-Describes,
}

-- What the loop returns: the middle of a bucket `i` with a count, such that the mass below it does
-- not reach the rank and the mass up to it does.
record Found (h : Histogram) (num den seen : ℕ) (bs : List (ℕ × ℕ)) (i : ℕ) : Type 0 where
  result : walk h num den seen bs ≡ middle h i
  present : 0 < at bs i
  reached : num * h.count ≤ (seen + mass_below (suc i) bs) * den
  not_before : (seen + mass_below i bs) * den < num * h.count

Found-here :
    (h : Histogram) (num den seen k c : ℕ) (bs : List (ℕ × ℕ))
    → IsAscending ((k, c) ∷ bs)
    → leb (num * h.count) ((seen + c) * den) ≡ true
    → seen * den < num * h.count
    → Found h num den seen ((k, c) ∷ bs) k
unfolding walk
Found-here h num den seen k c bs a stop not_yet = record {
  result = rw stop;
  present = ground (arith, at-cons k c k bs, a.1);
  reached =
      let e : mass_below (suc k) ((k, c) ∷ bs) ≡ c =
        ground (arith, mass_below-above (suc k) k bs (omega arith) a.0) in
      rw e (leb→le _ _ stop);
  not_before =
      let e : mass_below k ((k, c) ∷ bs) ≡ 0 =
        ground (arith, mass_below-above k k bs (omega arith) a.0) in
      rw e (omega arith);
}

Found-later :
    (h : Histogram) (num den seen k c : ℕ) (bs : List (ℕ × ℕ)) (i : ℕ)
    → IsAscending ((k, c) ∷ bs)
    → leb (num * h.count) ((seen + c) * den) ≡ false
    → Found h num den (seen + c) bs i
    → Found h num den seen ((k, c) ∷ bs) i
unfolding walk
Found-later h num den seen k c bs i a go f = record {
  result = rw go f.result;
  present = ground (arith, at-cons k c i bs, f.present, later);
  reached =
      let e : seen + mass_below (suc i) ((k, c) ∷ bs) ≡ seen + c + mass_below (suc i) bs =
        ground (arith, later) in
      rw e f.reached;
  not_before =
      let e : seen + mass_below i ((k, c) ∷ bs) ≡ seen + c + mass_below i bs =
        ground (arith, later) in
      rw e f.not_before;
}
  where
    later : k < i
    later = elim (dec_lt k i) [
      | yes lt ↦ lt
      | no ge ↦ absurd (omega (arith, f.present, at-IsAbove k i bs (omega arith) a.0))
    ]

walk_finds :
    (h : Histogram) (num den seen : ℕ) (bs : List (ℕ × ℕ))
    → IsAscending bs
    → num * h.count ≤ (seen + mass bs) * den
    → seen * den < num * h.count
    → (i : ℕ) × Found h num den seen bs i
walk_finds h num den seen [] a need not_yet = absurd (omega arith)
walk_finds h num den seen ((k, c) ∷ bs) a need not_yet =
    elim (Bool-cases (leb (num * h.count) ((seen + c) * den))) [
      | inl stop ↦ (k, Found-here h num den seen k c bs a stop not_yet)
      | inr go ↦
          let (i, f) = walk_finds h num den (seen + c) bs a.2 (omega arith) (ground arith) in
          (i, Found-later h num den seen k c bs i a go f)
    ]

percentile-walk :
    (h : Histogram) (num den : ℕ)
    → 0 < num
    → num < den
    → 0 < h.count
    → percentile h num den ≡ some (walk h num den 0 h.buckets)
unfolding percentile
percentile-walk h num den p q n = ground arith

-- A number, held between two others.
pub data Held (lo hi x : ℕ) : ℕ → Type 0 where
  raised : x ≤ lo → Held lo hi x lo
  lowered : lo ≤ x → hi ≤ x → Held lo hi x hi
  kept : lo ≤ x → x ≤ hi → Held lo hi x x

-- The result stands for a bucket `i` that holds a value: it is the middle of the first and the last number
-- of the bucket, or, where that is not between the least and the greatest value, the nearer of these, all
-- in half nanoseconds. `num / den * count` and more of the values are below the end of the bucket, and
-- fewer are below its start.
pub record IsRankBucket (h : Histogram) (vs : List ℤ) (num den i : ℕ) : Type 0 where
  pub half_ns : ℕ
  pub result : percentile h num den ≡ some half_ns
  pub held :
      Held
        (2 * or_zero (least vs))
        (2 * greatest vs)
        ((bucket_bounds i).0 + ((bucket_bounds i).1 - 1))
        half_ns
  pub ordered : or_zero (least vs) ≤ greatest vs
  pub present : 0 < in_bucket i vs
  pub not_before : n_below (bucket_bounds i).0 vs * den < num * n_values vs
  pub reached : num * n_values vs ≤ n_below (bucket_bounds i).1 vs * den

clamp-Held : (lo hi x : ℕ) → lo ≤ hi → Held lo hi x (min (max x lo) hi)
clamp-Held lo hi x le = elim (dec_lt lo x) [
  | no small ↦
      subst (Held lo hi x) (let e : lo ≡ min (max x lo) hi = omega arith in e)
        (raised (omega arith))
  | yes more ↦ elim (dec_lt hi x) [
    | yes big ↦
        subst (Held lo hi x) (let e : hi ≡ min (max x lo) hi = omega arith in e)
          (lowered (omega arith) (omega arith))
    | no fits ↦
        subst (Held lo hi x) (let e : x ≡ min (max x lo) hi = omega arith in e)
          (kept (omega arith) (omega arith))
  ]
]

least-le-greatest : (vs : List ℤ) → or_zero (least vs) ≤ greatest vs
least-le-greatest [] = omega arith
least-le-greatest (negsuc v ∷ vs) = least-le-greatest vs
least-le-greatest (pos v ∷ vs) = ground arith

middle-Held :
    (h : Histogram) (vs : List ℤ) (i : ℕ)
    → Describes h vs
    → Held
        (2 * or_zero (least vs))
        (2 * greatest vs)
        ((bucket_bounds i).0 + ((bucket_bounds i).1 - 1))
        (middle h i)
unfolding middle
middle-Held h vs i d =
    let lo = or_zero (least vs) in
    let x = (bucket_bounds i).0 + ((bucket_bounds i).1 - 1) in
    let e : min (max x (2 * lo)) (2 * greatest vs)
        ≡ min (max ((bucket_bounds i).0 + (bucket_bounds i).1 - 1) (2 * h.min_ns)) (2 * h.max_ns) =
      omega (arith, d.min_ns, d.max_ns, bucket_bounds-nonempty i) in
    subst (Held (2 * lo) (2 * greatest vs) x) e
      (clamp-Held (2 * lo) (2 * greatest vs) x (omega (arith, least-le-greatest vs)))

Found-IsRankBucket :
    (h : Histogram) (vs : List ℤ) (num den i : ℕ)
    → 0 < num
    → num < den
    → 0 < h.count
    → Describes h vs
    → Found h num den 0 h.buckets i
    → IsRankBucket h vs num den i
Found-IsRankBucket h vs num den i p q n d f = record {
  half_ns = middle h i;
  result = percentile-walk h num den p q n ∙ ap some f.result;
  held = middle-Held h vs i d;
  ordered = least-le-greatest vs;
  present = omega (arith, f.present, d.counts i);
  not_before =
      let e : n_below (low i) vs ≡ 0 + mass_below i h.buckets =
        omega (arith, mass_below-n_below h vs i d) in
      rw (e, ← d.count) f.not_before;
  reached =
      let e : n_below (bucket_bounds i).1 vs ≡ 0 + mass_below (suc i) h.buckets =
        ap (λ (b : ℕ). n_below b vs) (high-low i)
        ∙ omega (arith, mass_below-n_below h vs (suc i) d) in
      rw (e, ← d.count) f.reached;
}

rank_bucket :
    (h : Histogram) (vs : List ℤ) (num den : ℕ)
    → 0 < num
    → num < den
    → 0 < h.count
    → Describes h vs
    → (i : ℕ) × IsRankBucket h vs num den i
rank_bucket h vs num den p q n d =
    let e = mass-Describes h vs d in
    let (i, f) = walk_finds h num den 0 h.buckets d.ascending (rw e (grind arith)) (grind arith) in
    (i, Found-IsRankBucket h vs num den i p q n d f)

-- A quantile strictly between 0 and 1 of at least one value is the middle of a bucket that holds a value,
-- or the least or the greatest value where the middle is below or above all values: fewer values than the
-- rank `num / den * count` are below the bucket, and no fewer are below its end.
pub percentile_rank :
    (vs : List ℤ) (num den : ℕ)
    → 0 < num
    → num < den
    → 0 < n_values vs
    → (i : ℕ) × IsRankBucket (from_values vs) vs num den i
percentile_rank vs num den p q n =
    let d = from_values-Describes vs in rank_bucket (from_values vs) vs num den p q (rw d.count n) d

extremes : (h : Histogram) (vs : List ℤ) → Describes h vs → h.min_ns ≤ h.max_ns
extremes h vs d = omega (arith, d.min_ns, d.max_ns, least-le-greatest vs)

abbrev pub AtMost : Option ℕ → Option ℕ → Type 0
AtMost (some a) (some b) = a ≤ b
AtMost none none = Unit
AtMost _ _ = ⊥

percentile-AtMost :
    (h : Histogram) (n m den : ℕ)
    → h.min_ns ≤ h.max_ns
    → IsAscending h.buckets
    → n ≤ m
    → AtMost (percentile h n den) (percentile h m den)
unfolding percentile
percentile-AtMost h n m den ex a le = ground (
  arith,
  walk_mono h n m den 0 h.buckets (grind arith) a,
  walk-le h n den 0 h.buckets,
  walk-ge h m den 0 h.buckets ex,
)

-- A higher quantile of the same values is no lower: p50 ≤ p90 ≤ p99. With no value both are missing.
pub percentile_mono :
    (vs : List ℤ) (n m den : ℕ)
    → n ≤ m
    → AtMost (percentile (from_values vs) n den) (percentile (from_values vs) m den)
percentile_mono vs n m den le =
    let d = from_values-Describes vs in
    percentile-AtMost (from_values vs) n m den (extremes (from_values vs) vs d) d.ascending le
