-- ===== src/Report/Figures/Pooled.antt =====
-- report/data.py, Cell.value of a latency or a lag: a percentile of every sample.
use Prim.Native.String.{String}
use mqtt_python_client_bench.Prelude.{
  ℕ, ◌≡◌, refl, sym, ap, ◌∙◌, subst, ◌==◌, Bool, true, false, List, [], ◌∷◌, Option, none, some,
  map, if◌then◌else◌,
}
use mqtt_python_client_bench.Prelude.Int.{ℤ}
use mqtt_python_client_bench.Histogram.{
  Histogram, Tally, start, from_values, merge_step, merge_all, merge, finish, percentile,
}
use mqtt_python_client_bench.Histogram.Merge.{histograms, concat, merge-from_values}
use mqtt_python_client_bench.Report.Figures.{
  Measured, valid_runs, keep, present, merge_present, merged, Source, sources, percentile_of, found,
  median, value,
}

-- The series of values of which a run has the histogram, where it has one.
abbrev pub histogram_of : Option (List ℤ) → Option Histogram
histogram_of none = none
histogram_of (some vs) = some (from_values vs)

-- Each run has the histogram of its series.
abbrev pub Recorded :
    (Measured → Option Histogram) → List Measured → List (Option (List ℤ)) → Type 0
Recorded f [] [] = Unit
Recorded f [] (vs ∷ vss) = ⊥
Recorded f (r ∷ runs) [] = ⊥
Recorded f (r ∷ runs) (vs ∷ vss) = (f r ≡ histogram_of vs) × Recorded f runs vss

merge_all-present :
    (f : Measured → Option Histogram) (t : Tally) (runs : List Measured)
    (vss : List (Option (List ℤ)))
    → Recorded f runs vss
    → merge_all t (map some (present f runs)) ≡ merge_all t (histograms vss)
unfolding merge_all merge_step
merge_all-present f t [] [] h = refl
merge_all-present f t [] (vs ∷ vss) h = elim h [ ]
merge_all-present f t (r ∷ runs) [] h = elim h [ ]
merge_all-present f t (r ∷ runs) (none ∷ vss) (e, h) =
    subst (λ o. merge_all t (map some (keep o (present f runs))) ≡ merge_all t (histograms vss))
      (sym e) (merge_all-present f t runs vss h)
merge_all-present f t (r ∷ runs) (some vs ∷ vss) (e, h) =
    let u = merge_step t (some (from_values vs)) in
    subst (λ o. merge_all t (map some (keep o (present f runs))) ≡ merge_all u (histograms vss))
      (sym e) (merge_all-present f u runs vss h)

some_values :
    (b : Bool) (m : Histogram) (q : ℕ × ℕ)
    → (m.count == 0) ≡ b
    → percentile_of (if b then none else some m) q ≡ percentile m q.0 q.1
unfolding percentile
some_values true m q e = rw e refl
some_values false m q e = refl

percentile_of-merge_present :
    (hs : List Histogram) (q : ℕ × ℕ)
    → percentile_of (merge_present hs) q ≡ percentile (merge (map some hs)) q.0 q.1
unfolding percentile merge merge_all finish
percentile_of-merge_present [] q = refl
percentile_of-merge_present (h ∷ hs) q =
    let m = merge (map some (h ∷ hs)) in some_values (m.count == 0) m q refl

pooled :
    (f : Measured → Option Histogram) (runs : List Measured) (q : ℕ × ℕ)
    (vss : List (Option (List ℤ)))
    → Recorded f runs vss
    → percentile_of (merged f runs) q ≡ percentile (from_values (concat vss)) q.0 q.1
unfolding merged merge
pooled f runs q vss h =
    percentile_of-merge_present (present f runs) q
    ∙ ap (λ t. percentile (finish t) q.0 q.1) (merge_all-present f start runs vss h)
    ∙ ap (λ h. percentile h q.0 q.1) (merge-from_values vss)

-- For a key of one of the three tables of quantiles, where each valid run has the histogram of a series
-- of its own or none, the value of a cell is that quantile of one histogram of all their values together,
-- whatever the other runs have.
pub value-Recorded :
    (key : String) (s : Source) (q : ℕ × ℕ) (runs : List Measured) (vss : List (Option (List ℤ)))
    → found sources key ≡ some (s, q)
    → Recorded s.series (valid_runs runs) vss
    → value key runs ≡ percentile (from_values (concat vss)) q.0 q.1
unfolding value
value-Recorded key s q runs vss e h = read (found sources key) e
  where
    read :
        (o : Option (Source × (ℕ × ℕ)))
        → o ≡ some (s, q)
        → elim o [
          | none ↦ median key (valid_runs runs)
          | some (t, p) ↦ percentile_of (merged t.series (valid_runs runs)) p
        ]
          ≡ percentile (from_values (concat vss)) q.0 q.1
    read o f = rw f (pooled s.series (valid_runs runs) q vss h)
