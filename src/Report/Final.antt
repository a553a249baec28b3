-- ===== src/Report/Final.antt =====
-- report/data.py, _final_attempts: for each run index the last attempt, and nothing else.
use mqtt_python_client_bench.Prelude.{
  ℕ, zero, suc, leb, ◌==◌, ◌≡◌, refl, sym, ap, ap₂, ◌∙◌, subst, true, false, List, [], ◌∷◌, ◌++◌,
  Option, none, some, All, arith, Bool-cases, inl, inr, append_none,
}
use mqtt_python_client_bench.Dict.{Dict, nat_eq, get}
use mqtt_python_client_bench.Campaign.{RunDoc}
use mqtt_python_client_bench.Report.{
  or_nothing, by_index, keys, sort_indices, insert_run, sort_attempts, last_of, collect,
  final_attempts,
}
use mqtt_python_client_bench.Report.Indices.{
  at, at-append, by_index-at, times, times-sort_indices, one_if_some, Distinct, by_index-Distinct,
}

-- Every run is of the index.
OfIndex : ℕ → List RunDoc → Type 0
OfIndex i runs = All (λ r. r.key.run ≡ i) runs

at-OfIndex : (i : ℕ) (runs : List RunDoc) → OfIndex i (at i runs)
unfolding OfIndex
at-OfIndex i [] = tt
at-OfIndex i (r ∷ runs) = elim (Bool-cases (r.key.run == i)) [
  | inl e ↦ rw e (ground arith, at-OfIndex i runs)
  | inr e ↦ rw e (at-OfIndex i runs)
]

insert_run-OfIndex :
    (i : ℕ) (r : RunDoc) (runs : List RunDoc)
    → r.key.run ≡ i
    → OfIndex i runs
    → OfIndex i (insert_run r runs)
unfolding OfIndex
insert_run-OfIndex i r [] h k = (h, tt)
insert_run-OfIndex i r (s ∷ runs) h k =
    let rest = insert_run-OfIndex i r runs h k.1 in
    elim (Bool-cases (leb r.attempt s.attempt)) [ inl e ↦ rw e (h, k) | inr e ↦ rw e (k.0, rest) ]

sort_attempts-OfIndex :
    (i : ℕ) (runs : List RunDoc) → OfIndex i runs → OfIndex i (sort_attempts runs)
unfolding OfIndex
sort_attempts-OfIndex i [] h = tt
sort_attempts-OfIndex i (r ∷ runs) h =
    insert_run-OfIndex i r (sort_attempts runs) h.0 (sort_attempts-OfIndex i runs h.1)

last_of-OfIndex : (i : ℕ) (runs : List RunDoc) → OfIndex i runs → OfIndex i (last_of runs)
unfolding OfIndex
last_of-OfIndex i [] h = tt
last_of-OfIndex i (r ∷ []) h = h
last_of-OfIndex i (r ∷ s ∷ runs) h = last_of-OfIndex i (s ∷ runs) h.1

-- All of the runs of an index are at that index, and none at another.
at_own : (i : ℕ) (runs : List RunDoc) → OfIndex i runs → at i runs ≡ runs
unfolding OfIndex
at_own i [] h = refl
at_own i (r ∷ runs) h =
    let e : (r.key.run == i) ≡ true = (let same = h.0 in ground arith) in
    rw e (ap (λ l. r ∷ l) (at_own i runs h.1))

at_other : (i j : ℕ) (runs : List RunDoc) → (j == i) ≡ false → OfIndex j runs → at i runs ≡ []
unfolding OfIndex
at_other i j [] h k = refl
at_other i j (r ∷ runs) h k =
    let e : (r.key.run == i) ≡ false = (let same = k.0 in ground arith) in
    rw e (at_other i j runs h k.1)

-- So many times the same.
abbrev copies : ℕ → List RunDoc → List RunDoc
copies zero runs = []
copies (suc n) runs = runs ++ copies n runs

abbrev final_of : Dict ℕ (List RunDoc) → ℕ → List RunDoc
final_of d i = last_of (sort_attempts (or_nothing (get d i)))

module _ (i : ℕ) (d : Dict ℕ (List RunDoc))
    (of_index : (j : ℕ) → OfIndex j (or_nothing (get d j))) where
  final_of-OfIndex : (j : ℕ) → OfIndex j (final_of d j)
  final_of-OfIndex j = last_of-OfIndex j _ (sort_attempts-OfIndex j _ (of_index j))

  collect-at : (is : List ℕ) → at i (collect d is).0 ≡ copies (times i is) (final_of d i)
  unfolding collect
  collect-at [] = refl
  collect-at (j ∷ is) = at-append i (final_of d j) (collect d is).0 ∙ elim (Bool-cases (j == i)) [
    | inl e ↦
        let same : j ≡ i = ground arith in
        rw e (
          ap₂ (λ xs ys. xs ++ ys)
            (subst (λ k. at i (final_of d k) ≡ final_of d i) (sym same)
              (at_own i _ (final_of-OfIndex i)))
            (collect-at is))
    | inr e ↦ rw e (
        ap₂ (λ xs ys. xs ++ ys) (at_other i j (final_of d j) e (final_of-OfIndex j))
          (collect-at is))
  ]

once :
    (o : Option (List RunDoc))
    → copies (one_if_some o) (last_of (sort_attempts (or_nothing o)))
      ≡ last_of (sort_attempts (or_nothing o))
once none = refl
once (some runs) = append_none (last_of (sort_attempts runs))

pub final_attempts-at :
    (i : ℕ) (runs : List RunDoc)
    → at i (final_attempts runs).0 ≡ last_of (sort_attempts (at i runs))
unfolding final_attempts Distinct get
final_attempts-at i runs =
    let d = by_index [] runs in
    collect-at i d (λ j. subst (OfIndex j) (sym (by_index-at j [] runs)) (at-OfIndex j runs))
      (sort_indices (keys d))
    ∙ ap (λ n. copies n (final_of d i))
        (times-sort_indices i (keys d) ∙ by_index-Distinct [] runs (λ j. refl) i)
    ∙ once (get d i)
    ∙ ap (λ l. last_of (sort_attempts l)) (by_index-at i [] runs)
