-- ===== src/Report/Figures/Median.antt =====
-- report/data.py, Cell.value of a metric: a median of the runs.
use Prim.Native.String.{String}
use mqtt_python_client_bench.Prelude.{
  ℕ, zero, suc, ◌+◌, ◌*◌, ◌/◌, ◌%◌, ◌-◌, ◌≤◌, ◌<◌, ◌≡◌, refl, subst, ◌≢◌, inl, inr, ◌==◌, leb,
  leb→le, Bool, List, [], ◌∷◌, if◌then◌else◌, Option, none, some, length, All, Bool-cases, arith,
}
use mqtt_python_client_bench.Report.Figures.{
  Measured, Source, valid_runs, insert_value, sort_values, nth, median_of, metric, present, sources,
  found, median_or_none, median, value, merged, percentile_of,
}

-- The number of values of which a test holds.
abbrev pub n_such : (ℕ → Bool) → List ℕ → ℕ
n_such p [] = 0
n_such p (v ∷ vs) = (if p v then 1 else 0) + n_such p vs

-- At least half of the values are not above the middle, which is given in halves, and at least half of
-- them not below it.
pub record IsMiddle (values : List ℕ) (m : ℕ) : Type 0 where
  pub half_below : length values ≤ 2 * n_such (λ v. leb (2 * v) m) values
  pub half_above : length values ≤ 2 * n_such (λ v. leb m (2 * v)) values

n_such-insert_value :
    (p : ℕ → Bool) (v : ℕ) (vs : List ℕ) → n_such p (insert_value v vs) ≡ n_such p (v ∷ vs)
n_such-insert_value p v [] = refl
n_such-insert_value p v (w ∷ vs) =
    let h = n_such-insert_value p v vs in
    elim (Bool-cases (leb v w)) [ inl e ↦ rw e refl | inr e ↦ rw e (omega (arith, h)) ]

n_such-sort_values : (p : ℕ → Bool) (vs : List ℕ) → n_such p (sort_values vs) ≡ n_such p vs
n_such-sort_values p [] = refl
n_such-sort_values p (v ∷ vs) =
    omega (arith, n_such-insert_value p v (sort_values vs), n_such-sort_values p vs)

length-insert_value : (v : ℕ) (vs : List ℕ) → length (insert_value v vs) ≡ suc (length vs)
length-insert_value v [] = refl
length-insert_value v (w ∷ vs) =
    let h = length-insert_value v vs in
    elim (Bool-cases (leb v w)) [ inl e ↦ rw e refl | inr e ↦ rw e (omega (arith, h)) ]

length-sort_values : (vs : List ℕ) → length (sort_values vs) ≡ length vs
length-sort_values [] = refl
length-sort_values (v ∷ vs) =
    omega (arith, length-insert_value v (sort_values vs), length-sort_values vs)

-- Each value is at most the later ones.
abbrev Rises : List ℕ → Type 0
Rises [] = Unit
Rises (v ∷ vs) = All (λ w. v ≤ w) vs × Rises vs

All-le : (u v : ℕ) (vs : List ℕ) → u ≤ v → All (λ w. v ≤ w) vs → All (λ w. u ≤ w) vs
All-le u v [] h a = tt
All-le u v (w ∷ vs) h (le, a) = (omega (arith, h, le), All-le u v vs h a)

All-insert_value :
    (u v : ℕ) (vs : List ℕ) → u ≤ v → All (λ w. u ≤ w) vs → All (λ w. u ≤ w) (insert_value v vs)
All-insert_value u v [] h a = (h, tt)
All-insert_value u v (w ∷ vs) h (le, a) =
    let rest = All-insert_value u v vs h a in
    elim (Bool-cases (leb v w)) [ inl e ↦ rw e (h, (le, a)) | inr e ↦ rw e (le, rest) ]

Rises-insert_value : (v : ℕ) (vs : List ℕ) → Rises vs → Rises (insert_value v vs)
Rises-insert_value v [] r = (tt, tt)
Rises-insert_value v (w ∷ vs) (a, r) =
    let rest = Rises-insert_value v vs r in
    elim (Bool-cases (leb v w)) [
      | inl e ↦ rw e ((leb→le v w e, All-le v w vs (leb→le v w e) a), (a, r))
      | inr e ↦ rw e (All-insert_value w v vs (ground arith) a, rest)
    ]

Rises-sort_values : (vs : List ℕ) → Rises (sort_values vs)
Rises-sort_values [] = tt
Rises-sort_values (v ∷ vs) = Rises-insert_value v (sort_values vs) (Rises-sort_values vs)

All-nth : (u : ℕ) (vs : List ℕ) (i : ℕ) → All (λ w. u ≤ w) vs → i < length vs → u ≤ nth vs i
All-nth u [] i a h = ground arith
All-nth u (v ∷ vs) zero (le, a) h = le
All-nth u (v ∷ vs) (suc i) (le, a) h = All-nth u vs i a (omega (arith, h))

n_such-all :
    (m : ℕ) (vs : List ℕ) → All (λ w. m ≤ 2 * w) vs → n_such (λ w. leb m (2 * w)) vs ≡ length vs
n_such-all m [] a = refl
n_such-all m (v ∷ vs) (le, a) = ground (arith, n_such-all m vs a)

-- In a list that rises, an index has that many values before it, and the rest after it.
below-nth :
    (m : ℕ) (vs : List ℕ) (i : ℕ)
    → Rises vs
    → i < length vs
    → 2 * nth vs i ≤ m
    → suc i ≤ n_such (λ v. leb (2 * v) m) vs
below-nth m [] i r h le = ground arith
below-nth m (v ∷ vs) zero (a, r) h le = ground arith
below-nth m (v ∷ vs) (suc i) (a, r) h le =
    ground (arith, below-nth m vs i r (omega (arith, h)) le, All-nth v vs i a (omega (arith, h)))

doubled : (m v : ℕ) (vs : List ℕ) → m ≤ 2 * v → All (λ w. v ≤ w) vs → All (λ w. m ≤ 2 * w) vs
doubled m v [] le a = tt
doubled m v (w ∷ vs) le (h, a) = (omega (arith, le, h), doubled m v vs le a)

above-nth :
    (m : ℕ) (vs : List ℕ) (i : ℕ)
    → Rises vs
    → i < length vs
    → m ≤ 2 * nth vs i
    → length vs ≤ i + n_such (λ v. leb m (2 * v)) vs
above-nth m [] i r h le = ground arith
above-nth m (v ∷ vs) zero (a, r) h le = ground (arith, n_such-all m vs (doubled m v vs le a))
above-nth m (v ∷ vs) (suc i) (a, r) h le = ground (arith, above-nth m vs i r (omega (arith, h)) le)

rising : (vs : List ℕ) (i j : ℕ) → Rises vs → i ≤ j → j < length vs → nth vs i ≤ nth vs j
rising [] i j r le h = ground arith
rising (v ∷ vs) zero zero r le h = omega arith
rising (v ∷ vs) zero (suc j) (a, r) le h = All-nth v vs j a (omega (arith, h))
rising (v ∷ vs) (suc i) zero r le h = ground arith
rising (v ∷ vs) (suc i) (suc j) (a, r) le h = rising vs i j r (omega (arith, le)) (omega (arith, h))

module _ (vs : List ℕ) (r : Rises vs) where
  odd_case : length vs % 2 ≡ 1 → IsMiddle vs (2 * nth vs (length vs / 2))
  odd_case h = record {
    half_below = omega (
      arith,
      below-nth (2 * nth vs (length vs / 2)) vs (length vs / 2) r (omega arith) (omega arith),
    );
    half_above = omega (
      arith,
      above-nth (2 * nth vs (length vs / 2)) vs (length vs / 2) r (omega arith) (omega arith),
    );
  }

  even_case :
      length vs % 2 ≢ 1
      → 0 < length vs
      → IsMiddle vs (nth vs (length vs / 2 - 1) + nth vs (length vs / 2))
  even_case h some_values =
      let low = nth vs (length vs / 2 - 1) in
      let high = nth vs (length vs / 2) in
      let le = rising vs (length vs / 2 - 1) (length vs / 2) r (omega arith) (omega arith) in
      record {
        half_below = omega (
          arith,
          below-nth (low + high) vs (length vs / 2 - 1) r (omega arith) (omega (arith, le)),
        );
        half_above =
            omega (
              arith,
              above-nth (low + high) vs (length vs / 2) r (omega arith) (omega (arith, le)),
            );
      }

-- The middle of the sorted values is one of the values in any order.
unsorted : (vs : List ℕ) (m : ℕ) → IsMiddle (sort_values vs) m → IsMiddle vs m
unsorted vs m i = record {
  half_below =
      omega
        (arith, i.half_below, length-sort_values vs, n_such-sort_values (λ v. leb (2 * v) m) vs);
  half_above =
      omega
        (arith, i.half_above, length-sort_values vs, n_such-sort_values (λ v. leb m (2 * v)) vs);
}

median_of-IsMiddle : (vs : List ℕ) → 0 < length vs → IsMiddle vs (median_of vs)
unfolding median_of
median_of-IsMiddle vs some_values =
    unsorted vs _
      (subst (λ n. IsMiddle (sort_values vs) (middle_at n)) (length-sort_values vs) sorted)
  where
    middle_at : ℕ → ℕ
    middle_at n =
        if n % 2 == 1
        then 2 * nth (sort_values vs) (n / 2)
        else nth (sort_values vs) (n / 2 - 1) + nth (sort_values vs) (n / 2)

    sorted : IsMiddle (sort_values vs) (middle_at (length (sort_values vs)))
    sorted = elim (Bool-cases (length (sort_values vs) % 2 == 1)) [
      | inl e ↦ rw e (odd_case (sort_values vs) (Rises-sort_values vs) (ground arith))
      | inr e ↦ rw e (
          even_case (sort_values vs) (Rises-sort_values vs) (ground arith)
            (omega (arith, length-sort_values vs)))
    ]

-- The values that the runs have for a key decide what is shown for it.
pub data Shows (values : List ℕ) : Option ℕ → Type 0 where
  nothing : values ≡ [] → Shows values none
  middle : (m : ℕ) → IsMiddle values m → Shows values (some m)

pub Shows-median_or_none : (vs : List ℕ) → Shows vs (median_or_none vs)
Shows-median_or_none [] = nothing refl
Shows-median_or_none (v ∷ vs) = middle _ (median_of-IsMiddle (v ∷ vs) (omega arith))

-- For a metric, which is no key of the tables of quantiles, a cell has no value exactly if no valid run
-- has one, and otherwise a value that at least half of the valid runs' values are not above and at least
-- half of them not below, whatever the other runs have.
pub value-Shows :
    (key : String) (runs : List Measured)
    → found sources key ≡ none
    → Shows (present (metric key) (valid_runs runs)) (value key runs)
unfolding value median
value-Shows key runs e = read (found sources key) e
  where
    read :
        (o : Option (Source × (ℕ × ℕ)))
        → o ≡ none
        → Shows (present (metric key) (valid_runs runs)) (elim o [
          | none ↦ median key (valid_runs runs)
          | some (t, p) ↦ percentile_of (merged t.series (valid_runs runs)) p
        ])
    read o f = rw f (Shows-median_or_none (present (metric key) (valid_runs runs)))
