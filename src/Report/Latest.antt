-- ===== src/Report/Latest.antt =====
-- report/data.py, _final_attempts: no other run of the same index is a later attempt.
use mqtt_python_client_bench.Prelude.{
  ℕ, ◌≤◌, leb, ◌≡◌, sym, Bool, true, false, List, [], ◌∷◌, if◌then◌else◌, All, arith, Bool-cases,
  inl, inr, subst,
}
use mqtt_python_client_bench.Campaign.{RunDoc}
use mqtt_python_client_bench.Report.{insert_run, sort_attempts, last_of, final_attempts}
use mqtt_python_client_bench.Report.Indices.{at}
use mqtt_python_client_bench.Report.Final.{final_attempts-at}

AtLeast : ℕ → List RunDoc → Type 0
AtLeast n runs = All (λ s. n ≤ s.attempt) runs

UpTo : ℕ → List RunDoc → Type 0
UpTo n runs = All (λ s. s.attempt ≤ n) runs

IsAscending : List RunDoc → Type 0
IsAscending [] = Unit
IsAscending (r ∷ runs) = AtLeast r.attempt runs × IsAscending runs

AtLeast-trans : (m n : ℕ) (runs : List RunDoc) → m ≤ n → AtLeast n runs → AtLeast m runs
unfolding AtLeast
AtLeast-trans m n [] h k = tt
AtLeast-trans m n (r ∷ runs) h k = (let a = k.0 in omega arith, AtLeast-trans m n runs h k.1)

insert_run-AtLeast :
    (n : ℕ) (r : RunDoc) (runs : List RunDoc)
    → n ≤ r.attempt
    → AtLeast n runs
    → AtLeast n (insert_run r runs)
unfolding AtLeast
insert_run-AtLeast n r [] h k = (h, tt)
insert_run-AtLeast n r (s ∷ runs) h k =
    let rest = insert_run-AtLeast n r runs h k.1 in
    elim (Bool-cases (leb r.attempt s.attempt)) [ inl e ↦ rw e (h, k) | inr e ↦ rw e (k.0, rest) ]

insert_run-IsAscending :
    (r : RunDoc) (runs : List RunDoc) → IsAscending runs → IsAscending (insert_run r runs)
unfolding IsAscending AtLeast
insert_run-IsAscending r [] k = (tt, tt)
insert_run-IsAscending r (s ∷ runs) k =
    let rest = insert_run-IsAscending r runs k.1 in
    elim (Bool-cases (leb r.attempt s.attempt)) [
      | inl e ↦
          let below : r.attempt ≤ s.attempt = ground arith in
          rw e ((below, AtLeast-trans r.attempt s.attempt runs below k.0), k)
      | inr e ↦
          let above : s.attempt ≤ r.attempt = ground arith in
          rw e (insert_run-AtLeast s.attempt r runs above k.0, rest)
    ]

sort_attempts-IsAscending : (runs : List RunDoc) → IsAscending (sort_attempts runs)
unfolding IsAscending
sort_attempts-IsAscending [] = tt
sort_attempts-IsAscending (r ∷ runs) =
    insert_run-IsAscending r (sort_attempts runs) (sort_attempts-IsAscending runs)

UpTo-insert_run :
    (n : ℕ) (r : RunDoc) (runs : List RunDoc) → UpTo n (insert_run r runs) → UpTo n (r ∷ runs)
unfolding UpTo
UpTo-insert_run n r [] h = h
UpTo-insert_run n r (s ∷ runs) h = go (leb r.attempt s.attempt) (UpTo-insert_run n r runs) h
  where
    go :
        (b : Bool)
        → (All (λ t. t.attempt ≤ n) (insert_run r runs) → All (λ t. t.attempt ≤ n) (r ∷ runs))
        → All (λ t. t.attempt ≤ n) (if b then r ∷ s ∷ runs else s ∷ insert_run r runs)
        → All (λ t. t.attempt ≤ n) (r ∷ s ∷ runs)
    go true k h = h
    go false k h = ((k h.1).0, (h.0, (k h.1).1))

UpTo-sort_attempts : (n : ℕ) (runs : List RunDoc) → UpTo n (sort_attempts runs) → UpTo n runs
unfolding UpTo
UpTo-sort_attempts n [] h = tt
UpTo-sort_attempts n (r ∷ runs) h =
    let k = UpTo-insert_run n r (sort_attempts runs) h in (k.0, UpTo-sort_attempts n runs k.1)

-- The last run of some is up to it, and at least what they all are.
last_above :
    (r : RunDoc) (runs last : List RunDoc)
    → AtLeast r.attempt last
    → All (λ t. UpTo t.attempt runs) last
    → All (λ t. UpTo t.attempt (r ∷ runs)) last
unfolding AtLeast UpTo
last_above r runs [] h k = tt
last_above r runs (t ∷ last) h k = ((h.0, k.0), last_above r runs last h.1 k.1)

last_of-AtLeast : (n : ℕ) (runs : List RunDoc) → AtLeast n runs → AtLeast n (last_of runs)
unfolding AtLeast
last_of-AtLeast n [] h = h
last_of-AtLeast n (r ∷ []) h = h
last_of-AtLeast n (r ∷ s ∷ runs) h = last_of-AtLeast n (s ∷ runs) h.1

last_of-UpTo :
    (runs : List RunDoc) → IsAscending runs → All (λ t. UpTo t.attempt runs) (last_of runs)
unfolding IsAscending UpTo
last_of-UpTo [] h = tt
last_of-UpTo (r ∷ []) h = ((omega arith, tt), tt)
last_of-UpTo (r ∷ s ∷ runs) h =
    last_above r (s ∷ runs) (last_of (s ∷ runs)) (last_of-AtLeast r.attempt (s ∷ runs) h.0)
      (last_of-UpTo (s ∷ runs) h.1)

unsorted :
    (runs last : List RunDoc)
    → All (λ t. UpTo t.attempt (sort_attempts runs)) last
    → All (λ t. UpTo t.attempt runs) last
unsorted runs [] h = tt
unsorted runs (t ∷ last) h = (UpTo-sort_attempts t.attempt runs h.0, unsorted runs last h.1)

-- For each run index, the final attempts are the last of its runs in the order of their attempts, one
-- if there is any and none otherwise, and no run of that index is a later attempt.
pub final_attempts-latest :
    (i : ℕ) (runs : List RunDoc)
    → (at i (final_attempts runs).0 ≡ last_of (sort_attempts (at i runs)))
      × All (λ r. All (λ s. s.attempt ≤ r.attempt) (at i runs)) (at i (final_attempts runs).0)
unfolding UpTo
final_attempts-latest i runs =
    let e = final_attempts-at i runs in
    (
      e,
      subst (λ l. All (λ r. All (λ s. s.attempt ≤ r.attempt) (at i runs)) l) (sym e)
          (unsorted (at i runs) (last_of (sort_attempts (at i runs)))
            (last_of-UpTo (sort_attempts (at i runs)) (sort_attempts-IsAscending (at i runs)))),
    )
