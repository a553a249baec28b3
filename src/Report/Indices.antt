-- ===== src/Report/Indices.antt =====
-- report/data.py, _final_attempts: the dictionary of the runs by their index, and its keys.
use mqtt_python_client_bench.Prelude.{
  ℕ, suc, ◌+◌, ◌==◌, ◌≡◌, refl, sym, ap, ◌∙◌, subst, true, false, List, [], ◌∷◌, ◌++◌,
  if◌then◌else◌, Option, none, some, arith, Bool-cases, inl, inr, append_assoc, append_none,
}
use mqtt_python_client_bench.Dict.{Dict, nat_eq, get, put, get-put_self, get-put_other}
use mqtt_python_client_bench.Campaign.{RunDoc}
use mqtt_python_client_bench.Report.{or_nothing, by_index, keys, insert_index, sort_indices}

-- The runs of an index, in their order.
abbrev pub at : ℕ → List RunDoc → List RunDoc
at i [] = []
at i (r ∷ runs) = if r.key.run == i then r ∷ at i runs else at i runs

pub at-append : (i : ℕ) (xs ys : List RunDoc) → at i (xs ++ ys) ≡ at i xs ++ at i ys
at-append i [] ys = refl
at-append i (x ∷ xs) ys = elim (Bool-cases (x.key.run == i)) [
  | inl e ↦ rw e (ap (λ l. x ∷ l) (at-append i xs ys))
  | inr e ↦ rw e (at-append i xs ys)
]

regroup :
    (r : RunDoc) (d : Dict ℕ (List RunDoc)) (rest : List RunDoc) (i : ℕ)
    → r.key.run ≡ i
    → or_nothing (get (put d r.key.run (or_nothing (get d r.key.run) ++ r ∷ [])) i) ++ rest
      ≡ or_nothing (get d i) ++ r ∷ rest
regroup r d rest i same =
    subst
      (λ j.
        or_nothing (get (put d r.key.run (or_nothing (get d r.key.run) ++ r ∷ [])) j) ++ rest
        ≡ or_nothing (get d j) ++ r ∷ rest)
      same
      (ap (λ o. or_nothing o ++ rest)
          (get-put_self d r.key.run (or_nothing (get d r.key.run) ++ r ∷ []))
        ∙ append_assoc (or_nothing (get d r.key.run)) (r ∷ []) rest)

-- The dictionary has at each index its runs.
pub by_index-at :
    (i : ℕ) (d : Dict ℕ (List RunDoc)) (runs : List RunDoc)
    → or_nothing (get (by_index d runs) i) ≡ or_nothing (get d i) ++ at i runs
unfolding by_index
by_index-at i d [] = sym (append_none (or_nothing (get d i)))
by_index-at i d (r ∷ runs) = elim (Bool-cases (r.key.run == i)) [
  | inl e ↦
      let same : r.key.run ≡ i = ground arith in
      rw e (
        by_index-at i (put d r.key.run (or_nothing (get d r.key.run) ++ r ∷ [])) runs
        ∙ regroup r d (at i runs) i same)
  | inr e ↦ rw e (
      by_index-at i (put d r.key.run (or_nothing (get d r.key.run) ++ r ∷ [])) runs
      ∙ ap (λ o. or_nothing o ++ at i runs) (get-put_other d r.key.run i _ e))
]

-- How often an index is among others.
abbrev pub times : ℕ → List ℕ → ℕ
times i [] = 0
times i (j ∷ js) = if j == i then suc (times i js) else times i js

times-insert_index : (i j : ℕ) (js : List ℕ) → times i (insert_index j js) ≡ times i (j ∷ js)
times-insert_index i j [] = refl
times-insert_index i j (k ∷ js) = let h = times-insert_index i j js in ground (arith, h)

pub times-sort_indices : (i : ℕ) (js : List ℕ) → times i (sort_indices js) ≡ times i js
times-sort_indices i [] = refl
times-sort_indices i (j ∷ js) =
    times-insert_index i j (sort_indices js)
    ∙ ap (λ n. if j == i then suc n else n) (times-sort_indices i js)

abbrev pub one_if_some : Option (List RunDoc) → ℕ
one_if_some none = 0
one_if_some (some runs) = 1

times-put_other :
    (i j : ℕ) (runs : List RunDoc) (d : Dict ℕ (List RunDoc))
    → (j == i) ≡ false
    → times i (keys (put d j runs)) ≡ times i (keys d)
unfolding put
times-put_other i j runs [] h = ground (arith, h)
times-put_other i j runs ((k, x) ∷ d) h =
    let r = times-put_other i j runs d h in
    elim (Bool-cases (k == j)) [
      | inl e ↦ rw e refl
      | inr e ↦ rw e (ap (λ n. if k == i then suc n else n) r)
    ]

times_first : (j k : ℕ) (ks : List ℕ) → (k == j) ≡ true → times j (k ∷ ks) ≡ suc (times j ks)
times_first j k ks e = rw e refl

times_later : (j k : ℕ) (ks : List ℕ) → (k == j) ≡ false → times j (k ∷ ks) ≡ times j ks
times_later j k ks e = rw e refl

times-put_self :
    (j : ℕ) (runs : List RunDoc) (d : Dict ℕ (List RunDoc))
    → times j (keys (put d j runs)) + one_if_some (get d j) ≡ suc (times j (keys d))
unfolding get put
times-put_self j runs [] = ground arith
times-put_self j runs ((k, x) ∷ d) =
    let r = times-put_self j runs d in
    elim (Bool-cases (k == j)) [
      | inl e ↦ rw e (omega (arith, times_first j k (keys d) e))
      | inr e ↦ rw e (omega (arith, times_later j k (keys (put d j runs)) e, r))
    ]

-- The keys are distinct.
unfoldable pub Distinct : Dict ℕ (List RunDoc) → Type 0
Distinct d = (i : ℕ) → times i (keys d) ≡ one_if_some (get d i)

put-Distinct :
    (j : ℕ) (runs : List RunDoc) (d : Dict ℕ (List RunDoc)) → Distinct d → Distinct (put d j runs)
unfolding Distinct
put-Distinct j runs d h i = elim (Bool-cases (j == i)) [
  | inl e ↦
      let same : j ≡ i = ground arith in
      subst (λ k. times k (keys (put d j runs)) ≡ one_if_some (get (put d j runs) k)) same
        (omega (arith, times-put_self j runs d, h j, ap one_if_some (get-put_self d j runs)))
  | inr e ↦ times-put_other i j runs d e ∙ h i ∙ ap one_if_some (sym (get-put_other d j i runs e))
]

pub by_index-Distinct :
    (d : Dict ℕ (List RunDoc)) (runs : List RunDoc) → Distinct d → Distinct (by_index d runs)
unfolding by_index
by_index-Distinct d [] h = h
by_index-Distinct d (r ∷ runs) h =
    by_index-Distinct (put d r.key.run (or_nothing (get d r.key.run) ++ r ∷ [])) runs
      (put-Distinct r.key.run (or_nothing (get d r.key.run) ++ r ∷ []) d h)
