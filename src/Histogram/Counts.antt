-- ===== src/Histogram/Counts.antt =====
-- What the two loops of bench/histogram.py add to a tally, and what a histogram says of its values.
use mqtt_python_client_bench.Prelude.{
  ℕ, ◌+◌, ◌≡◌, refl, sym, ap, ◌∙◌, Option, none, some, List, [], ◌∷◌, ◌++◌, arith, ◌==◌,
  if◌then◌else◌, min, max,
}
use mqtt_python_client_bench.Prelude.Int.{ℤ, pos, negsuc}
use mqtt_python_client_bench.Histogram.{
  Histogram, Tally, start, lower, add_value, add_values, finish, from_values,
}
use mqtt_python_client_bench.Histogram.Bucket.{bucket_of}
use mqtt_python_client_bench.Histogram.Sorted.{
  at, IsCounter, IsAscending, at-bump, bump-IsCounter, sorted-IsAscending, at-sorted,
}

-- How many values are binned, their sum, how many are negative.
abbrev pub n_values : List ℤ → ℕ
n_values [] = 0
n_values (negsuc n ∷ vs) = n_values vs
n_values (pos v ∷ vs) = n_values vs + 1

abbrev pub sum_values : List ℤ → ℕ
sum_values [] = 0
sum_values (negsuc n ∷ vs) = sum_values vs
sum_values (pos v ∷ vs) = v + sum_values vs

abbrev pub n_negative : List ℤ → ℕ
n_negative [] = 0
n_negative (negsuc n ∷ vs) = n_negative vs + 1
n_negative (pos v ∷ vs) = n_negative vs

-- How many of the values lie in bucket `i`.
abbrev pub in_bucket : ℕ → List ℤ → ℕ
in_bucket i [] = 0
in_bucket i (negsuc n ∷ vs) = in_bucket i vs
in_bucket i (pos v ∷ vs) = (if bucket_of v == i then 1 else 0) + in_bucket i vs

abbrev pub join : Option ℕ → Option ℕ → Option ℕ
join none o = o
join (some a) none = some a
join (some a) (some b) = some (min a b)

abbrev pub least : List ℤ → Option ℕ
least [] = none
least (negsuc n ∷ vs) = least vs
least (pos v ∷ vs) = join (some v) (least vs)

abbrev pub greatest : List ℤ → ℕ
greatest [] = 0
greatest (negsuc n ∷ vs) = greatest vs
greatest (pos v ∷ vs) = max v (greatest vs)

abbrev pub or_zero : Option ℕ → ℕ
or_zero none = 0
or_zero (some n) = n

-- `u` is the tally `t` with the values `vs` added, whatever the order of its dict.
pub record Absorbs (t : Tally) (vs : List ℤ) (u : Tally) : Type 0 where
  pub count : u.count ≡ t.count + n_values vs
  pub total : u.total ≡ t.total + sum_values vs
  pub negative : u.negative ≡ t.negative + n_negative vs
  pub lo : u.lo ≡ join t.lo (least vs)
  pub hi : u.hi ≡ max t.hi (greatest vs)
  pub counts : (i : ℕ) → at u.buckets i ≡ at t.buckets i + in_bucket i vs
  pub keeps : IsCounter t.buckets → IsCounter u.buckets

pub join-none : (o : Option ℕ) → join o none ≡ o
join-none none = refl
join-none (some a) = refl

pub join_assoc : (a b c : Option ℕ) → join (join a b) c ≡ join a (join b c)
join_assoc none b c = refl
join_assoc (some a) none c = refl
join_assoc (some a) (some b) none = refl
join_assoc (some a) (some b) (some c) = ground arith

lower-join : (o : Option ℕ) (v : ℕ) → lower o v ≡ join o (some v)
lower-join none v = refl
lower-join (some l) v = ground arith

pub Absorbs-refl : (t : Tally) → Absorbs t [] t
Absorbs-refl t = record {
  count = omega arith;
  total = omega arith;
  negative = omega arith;
  lo = sym (join-none t.lo);
  hi = omega arith;
  counts = λ i. omega arith;
  keeps = λ h. h;
}

n_values-append : (vs ws : List ℤ) → n_values (vs ++ ws) ≡ n_values vs + n_values ws
n_values-append [] ws = omega arith
n_values-append (pos v ∷ vs) ws = omega (arith, n_values-append vs ws)
n_values-append (negsuc v ∷ vs) ws = n_values-append vs ws

sum_values-append : (vs ws : List ℤ) → sum_values (vs ++ ws) ≡ sum_values vs + sum_values ws
sum_values-append [] ws = omega arith
sum_values-append (pos v ∷ vs) ws = omega (arith, sum_values-append vs ws)
sum_values-append (negsuc v ∷ vs) ws = sum_values-append vs ws

n_negative-append : (vs ws : List ℤ) → n_negative (vs ++ ws) ≡ n_negative vs + n_negative ws
n_negative-append [] ws = omega arith
n_negative-append (pos v ∷ vs) ws = n_negative-append vs ws
n_negative-append (negsuc v ∷ vs) ws = omega (arith, n_negative-append vs ws)

in_bucket-append :
    (i : ℕ) (vs ws : List ℤ) → in_bucket i (vs ++ ws) ≡ in_bucket i vs + in_bucket i ws
in_bucket-append i [] ws = omega arith
in_bucket-append i (pos v ∷ vs) ws = ground (arith, in_bucket-append i vs ws)
in_bucket-append i (negsuc v ∷ vs) ws = in_bucket-append i vs ws

least-append : (vs ws : List ℤ) → least (vs ++ ws) ≡ join (least vs) (least ws)
least-append [] ws = refl
least-append (pos v ∷ vs) ws =
    ap (join (some v)) (least-append vs ws) ∙ sym (join_assoc (some v) (least vs) (least ws))
least-append (negsuc v ∷ vs) ws = least-append vs ws

greatest-append : (vs ws : List ℤ) → greatest (vs ++ ws) ≡ max (greatest vs) (greatest ws)
greatest-append [] ws = omega arith
greatest-append (pos v ∷ vs) ws = omega (arith, greatest-append vs ws)
greatest-append (negsuc v ∷ vs) ws = greatest-append vs ws

pub Absorbs-append :
    {t u w : Tally} (vs ws : List ℤ) → Absorbs t vs u → Absorbs u ws w → Absorbs t (vs ++ ws) w
Absorbs-append {t} {u} {w} vs ws a b = record {
  count = omega (arith, a.count, b.count, n_values-append vs ws);
  total = omega (arith, a.total, b.total, sum_values-append vs ws);
  negative = omega (arith, a.negative, b.negative, n_negative-append vs ws);
  lo =
      b.lo
      ∙ ap (λ (o : Option ℕ). join o (least ws)) a.lo
      ∙ join_assoc t.lo (least vs) (least ws)
      ∙ ap (join t.lo) (sym (least-append vs ws));
  hi = omega (arith, a.hi, b.hi, greatest-append vs ws);
  counts = λ i. omega (arith, a.counts i, b.counts i, in_bucket-append i vs ws);
  keeps = λ h. b.keeps (a.keeps h);
}

Absorbs-add_value : (t : Tally) (v : ℤ) → Absorbs t (v ∷ []) (add_value t v)
unfolding add_value
Absorbs-add_value t (negsuc n) = record {
  count = omega arith;
  total = omega arith;
  negative = omega arith;
  lo = sym (join-none t.lo);
  hi = omega arith;
  counts = λ i. omega arith;
  keeps = λ h. h;
}
Absorbs-add_value t (pos v) = record {
  count = omega arith;
  total = omega arith;
  negative = omega arith;
  lo = lower-join t.lo v;
  hi = ground arith;
  counts = λ i. ground (arith, at-bump t.buckets (bucket_of v) 1 i);
  keeps = λ h. bump-IsCounter t.buckets (bucket_of v) 1 (omega arith) h;
}

pub Absorbs-add_values : (t : Tally) (vs : List ℤ) → Absorbs t vs (add_values t vs)
unfolding add_values
Absorbs-add_values t [] = Absorbs-refl t
Absorbs-add_values t (v ∷ vs) =
    Absorbs-append (v ∷ []) vs (Absorbs-add_value t v) (Absorbs-add_values (add_value t v) vs)

-- What a histogram says of the values it was made from.
pub record Describes (h : Histogram) (vs : List ℤ) : Type 0 where
  pub count : h.count ≡ n_values vs
  pub sum_ns : h.sum_ns ≡ sum_values vs
  pub negative : h.negative ≡ n_negative vs
  pub min_ns : h.min_ns ≡ or_zero (least vs)
  pub max_ns : h.max_ns ≡ greatest vs
  pub counts : (i : ℕ) → at h.buckets i ≡ in_bucket i vs
  pub ascending : IsAscending h.buckets

at-start : (i : ℕ) → at start.buckets i ≡ 0
unfolding at
at-start i = refl

pub finish-Describes : (t : Tally) (vs : List ℤ) → Absorbs start vs t → Describes (finish t) vs
unfolding finish
finish-Describes t vs a = record {
  count = omega (arith, a.count);
  sum_ns = omega (arith, a.total);
  negative = omega (arith, a.negative);
  min_ns = min_of t.lo (least vs) a.lo;
  max_ns = omega (arith, a.hi);
  counts = λ i. at-sorted t.buckets i (a.keeps tt) ∙ a.counts i ∙ omega (arith, at-start i);
  ascending = sorted-IsAscending t.buckets (a.keeps tt);
}
  where
    min_of : (o p : Option ℕ) → o ≡ p → (elim o [ none ↦ 0 | some l ↦ l ]) ≡ or_zero p
    min_of o p e = ground arith

-- `from_values` counts every value once: the negative ones apart, each other one in its bucket,
-- with the exact number, sum, minimum (0 if there is none) and maximum, in ascending buckets.
pub from_values-Describes : (vs : List ℤ) → Describes (from_values vs) vs
unfolding from_values
from_values-Describes vs = finish-Describes (add_values start vs) vs (Absorbs-add_values start vs)
