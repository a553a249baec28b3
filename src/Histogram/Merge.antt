-- ===== src/Histogram/Merge.antt =====
-- bench/histogram.py, merge: merging is the histogram of all the values.
use mqtt_python_client_bench.Prelude.{
  ℕ, ◌+◌, ◌≡◌, ◌≢◌, refl, sym, ap, ◌∙◌, Option, none, some, List, [], ◌∷◌, ◌++◌, arith, ◌==◌, min,
  Bool-cases, inl, inr,
}
use mqtt_python_client_bench.Prelude.Int.{ℤ, pos, negsuc}
use mqtt_python_client_bench.Dict.{Dict}
use mqtt_python_client_bench.Histogram.{
  Histogram, Tally, start, finish, from_values, bump, add_buckets, merge_step, merge_all, merge,
}
use mqtt_python_client_bench.Histogram.Sorted.{
  at, IsCounter, IsAscending, IsAbove, at-bump, bump-IsCounter, at-cons, at-nil, at-IsAbove,
  IsAscending-ext,
}
use mqtt_python_client_bench.Histogram.Counts.{
  n_values, sum_values, in_bucket, least, greatest, join, or_zero, join-none, Absorbs, Absorbs-refl,
  Absorbs-append, Describes, finish-Describes, from_values-Describes,
}

add_buckets-IsCounter :
    (d : Dict ℕ ℕ) (bs : List (ℕ × ℕ)) → IsAscending bs → IsCounter d → IsCounter (add_buckets d bs)
unfolding add_buckets
add_buckets-IsCounter d [] h k = k
add_buckets-IsCounter d ((i, c) ∷ bs) h k =
    add_buckets-IsCounter (bump d i c) bs h.2 (bump-IsCounter d i c h.1 k)

first_count :
    (d : Dict ℕ ℕ) (i c j : ℕ) (bs : List (ℕ × ℕ))
    → IsAbove i bs
    → at (bump d i c) j + at bs j ≡ at d j + at ((i, c) ∷ bs) j
first_count d i c j bs h = elim (Bool-cases (i == j)) [
  | inl hit ↦ ground (arith, at-bump d i c j, at-cons i c j bs, at-IsAbove i j bs (ground arith) h)
  | inr miss ↦ ground (arith, at-bump d i c j, at-cons i c j bs)
]

at-add_buckets :
    (d : Dict ℕ ℕ) (bs : List (ℕ × ℕ)) (j : ℕ)
    → IsAscending bs
    → at (add_buckets d bs) j ≡ at d j + at bs j
unfolding add_buckets
at-add_buckets d [] j h = omega (arith, at-nil j)
at-add_buckets d ((i, c) ∷ bs) j h =
    at-add_buckets (bump d i c) bs j h.2 ∙ first_count d i c j bs h.0

record IsEmpty (vs : List ℤ) : Type 0 where
  lo : least vs ≡ none
  hi : greatest vs ≡ 0
  total : sum_values vs ≡ 0
  counts : (i : ℕ) → in_bucket i vs ≡ 0

no_values : (vs : List ℤ) → n_values vs ≡ 0 → IsEmpty vs
no_values [] h = record { lo = refl; hi = refl; total = refl; counts = λ i. refl }
no_values (pos v ∷ vs) h = absurd (omega arith)
no_values (negsuc v ∷ vs) h =
    let r = no_values vs h in record { lo = r.lo; hi = r.hi; total = r.total; counts = r.counts }

some-least : (vs : List ℤ) → n_values vs ≢ 0 → least vs ≡ some (or_zero (least vs))
some-least [] h = absurd (h refl)
some-least (pos v ∷ vs) h = ground arith
some-least (negsuc v ∷ vs) h = some-least vs h

lowest :
    (o p : Option ℕ) (m : ℕ)
    → p ≡ some m
    → (elim o [ none ↦ some m | some l ↦ some (min l m) ]) ≡ join o p
lowest o p m h = ground arith

-- Merging one histogram adds the values that it describes.
merge_step-Absorbs :
    (t : Tally) (h : Histogram) (vs : List ℤ)
    → Describes h vs
    → Absorbs t vs (merge_step t (some h))
unfolding merge_step
merge_step-Absorbs t h vs d = elim (Bool-cases (h.count == 0)) [
  | inl none_in ↦
      let empty = no_values vs (ground (arith, d.count)) in
      rw none_in record {
        count = ground (arith, d.count);
        total = omega (arith, empty.total);
        negative = omega (arith, d.negative);
        lo = sym (ap (join t.lo) empty.lo ∙ join-none t.lo);
        hi = omega (arith, empty.hi);
        counts = λ i. omega (arith, empty.counts i);
        keeps = λ k. k;
      }
  | inr some_in ↦ rw some_in record {
    count = omega (arith, d.count);
    total = omega (arith, d.sum_ns);
    negative = omega (arith, d.negative);
    lo =
        lowest t.lo (least vs) h.min_ns
          (some-least vs (ground (arith, d.count)) ∙ ap some (sym d.min_ns));
    hi = omega (arith, d.max_ns);
    counts = λ i. omega (arith, at-add_buckets t.buckets h.buckets i d.ascending, d.counts i);
    keeps = λ k. add_buckets-IsCounter t.buckets h.buckets d.ascending k;
  }
]

-- The histograms of several series, of which some were not recorded.
abbrev pub histograms : List (Option (List ℤ)) → List (Option Histogram)
histograms [] = []
histograms (none ∷ vss) = none ∷ histograms vss
histograms (some vs ∷ vss) = some (from_values vs) ∷ histograms vss

abbrev pub concat : List (Option (List ℤ)) → List ℤ
concat [] = []
concat (none ∷ vss) = concat vss
concat (some vs ∷ vss) = vs ++ concat vss

merge_all-Absorbs :
    (t : Tally) (vss : List (Option (List ℤ)))
    → Absorbs t (concat vss) (merge_all t (histograms vss))
unfolding merge_all
merge_all-Absorbs t [] = Absorbs-refl t
merge_all-Absorbs t (none ∷ vss) = unfold merge_step in merge_all-Absorbs t vss
merge_all-Absorbs t (some vs ∷ vss) =
    Absorbs-append vs (concat vss)
      (merge_step-Absorbs t (from_values vs) vs (from_values-Describes vs))
      (merge_all-Absorbs (merge_step t (some (from_values vs))) vss)

-- Two histograms of the same values are equal: the order in which they were counted is forgotten.
pub Describes-unique : (g h : Histogram) (vs : List ℤ) → Describes g vs → Describes h vs → g ≡ h
Describes-unique g h vs d e = λ i. record {
  count = (d.count ∙ sym e.count) i;
  min_ns = (d.min_ns ∙ sym e.min_ns) i;
  max_ns = (d.max_ns ∙ sym e.max_ns) i;
  sum_ns = (d.sum_ns ∙ sym e.sum_ns) i;
  negative = (d.negative ∙ sym e.negative) i;
  buckets =
      IsAscending-ext g.buckets h.buckets d.ascending e.ascending
        (λ j. d.counts j ∙ sym (e.counts j)) i;
}

-- Merging the histograms of several series, a missing one among them or not, gives the histogram
-- of all their values together.
pub merge-from_values :
    (vss : List (Option (List ℤ))) → merge (histograms vss) ≡ from_values (concat vss)
unfolding merge
merge-from_values vss =
    Describes-unique (finish (merge_all start (histograms vss))) (from_values (concat vss))
      (concat vss)
      (finish-Describes (merge_all start (histograms vss)) (concat vss)
        (merge_all-Absorbs start vss))
      (from_values-Describes (concat vss))
