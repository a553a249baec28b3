-- ===== src/Report/Progress/Complete.antt =====
-- report/data.py: a campaign that has run is complete, as the pages count it.
use Prim.Native.String.{String}
use mqtt_python_client_bench.Prelude.{
  ℕ, zero, suc, ◌+◌, ◌≤◌, ◌<◌, ◌≡◌, refl, sym, ap, ◌∙◌, Bool, true, false, ◌||◌, List, [], ◌∷◌,
  if◌then◌else◌, ltb, leb, length, Bool-cases, inl, inr, arith, dec_lt,
}
use mqtt_python_client_bench.Dict.{string_eq, get}
use mqtt_python_client_bench.Checks.Items.{Status}
use mqtt_python_client_bench.Campaign.{Key, RunDoc, Store, attempts, doc_or_new, run_campaign}
use mqtt_python_client_bench.Campaign.Plan.{count}
use mqtt_python_client_bench.Campaign.Refusals.{names}
use mqtt_python_client_bench.Campaign.Whole.{
  run_campaign-done, run_campaign-refused, run_campaign-lists,
}
use mqtt_python_client_bench.Report.{sort_attempts, last_of, runs_of, cell_of}
use mqtt_python_client_bench.Report.Indices.{at}
use mqtt_python_client_bench.Report.Final.{final_attempts-at}
use mqtt_python_client_bench.Report.Cells.{
  length-sort_attempts, length-last_of, doc_attempts-at, done_some,
}
use mqtt_python_client_bench.Report.Progress.{load, or_one, expected_runs, done_runs}
use mqtt_python_client_bench.Report.Progress.Within.{
  shown_points-Within, shown_clients-Within, Within-run_campaign,
}
use mqtt_python_client_bench.Report.Progress.Filled.{Unique, Full, total-fill_all}

-- ------------------------------------------------------------------ runs, by their index

-- The runs with an index below `n`.
abbrev n_below : ℕ → List RunDoc → ℕ
n_below n [] = 0
n_below n (r ∷ runs) = (if ltb r.key.run n then 1 else 0) + n_below n runs

n_below-suc :
    (n : ℕ) (runs : List RunDoc) → n_below (suc n) runs ≡ n_below n runs + length (at n runs)
n_below-suc n [] = omega arith
n_below-suc n (r ∷ runs) = ground (arith, n_below-suc n runs)

n_below_zero : (runs : List RunDoc) → n_below 0 runs ≡ 0
n_below_zero [] = refl
n_below_zero (r ∷ runs) = ground (arith, n_below_zero runs)

n_below_all :
    (n : ℕ) (runs : List RunDoc)
    → ((i : ℕ) → n ≤ i → length (at i runs) ≡ 0)
    → n_below n runs ≡ length runs
n_below_all n [] h = refl
n_below_all n (r ∷ runs) h =
    let rest = n_below_all n runs (λ i le. ground (arith, h i le)) in
    elim (dec_lt r.key.run n) [
      | yes lt ↦ ground (arith, rest)
      | no nl ↦ ground (arith, h r.key.run (omega arith))
    ]

n_below_each :
    (n : ℕ) (runs : List RunDoc) → ((i : ℕ) → i < n → length (at i runs) ≡ 1) → n_below n runs ≡ n
n_below_each zero runs h = n_below_zero runs
n_below_each (suc n) runs h = omega (
  arith,
  n_below-suc n runs,
  n_below_each n runs (λ i lt. h i (omega (arith, lt))),
  h n (omega arith),
)

-- One run for each index below `n`, and no other.
length_by_index :
    (n : ℕ) (runs : List RunDoc)
    → ((i : ℕ) → i < n → length (at i runs) ≡ 1)
    → ((i : ℕ) → n ≤ i → length (at i runs) ≡ 0)
    → length runs ≡ n
length_by_index n runs h k = sym (n_below_all n runs k) ∙ n_below_each n runs h

length-last_of_le : (runs : List RunDoc) → length (last_of runs) ≤ 1
length-last_of_le [] = omega arith
length-last_of_le (r ∷ []) = omega arith
length-last_of_le (r ∷ t ∷ runs) = length-last_of_le (t ∷ runs)

-- How many attempts there are at a key decides how many final ones.
module _ (s : Store) (p c : String) (i : ℕ) where
  abbrev here : Key
  here = record { point = p; client = c; run = i }

  some_final : 0 < length (attempts s here) → length (at i (cell_of s p c).runs) ≡ 1
  unfolding cell_of
  some_final h =
      let runs = runs_of p (doc_or_new (get s c)).runs in
      let n =
        length-last_of (sort_attempts (at i runs))
          (omega (arith, length-sort_attempts (at i runs), ap length (doc_attempts-at s here))) in
      omega
        (arith, ap length (final_attempts-at i runs), length-last_of_le (sort_attempts (at i runs)))

  no_final : attempts s here ≡ [] → length (at i (cell_of s p c).runs) ≡ 0
  unfolding cell_of
  no_final h =
      ap length (final_attempts-at i (runs_of p (doc_or_new (get s c)).runs))
      ∙ ap (λ l. length (last_of (sort_attempts l))) (sym (doc_attempts-at s here) ∙ h)

-- ------------------------------------------------------------------ a campaign that has run

names-count : (q : String) (ps : List String) → names ps q ≡ true → 0 < count q ps
names-count q [] h = ground arith
names-count q (p ∷ ps) h = let n = names-count q ps in ground arith

module _ (outcome : ℕ → Key → Status) (refused : String → String → Bool)
    (points clients : List String) (runs : ℕ) (some_run : 0 < runs) where
  abbrev after : Store
  after = run_campaign outcome refused points clients runs []

  after-refused :
      (p c : String)
      → names points p ≡ true
      → names clients c ≡ true
      → (cell_of after p c).refused ≡ refused c p
  unfolding cell_of get
  after-refused p c h k =
      run_campaign-lists outcome refused points clients runs [] c p ∙ ground (arith, h, k)

  never :
      (p c : String) (i : ℕ)
      → (refused c p || leb runs i) ≡ true
      → length (at i (cell_of after p c).runs) ≡ 0
  unfolding attempts get
  never p c i h = no_final after p c i (
      run_campaign-refused outcome refused points clients runs []
        (record { point = p; client = c; run = i }) h)

  after-Full : (p c : String) → names points p ≡ true → names clients c ≡ true → Full after runs p c
  after-Full p c h k = elim (Bool-cases (refused c p)) [
    | inl e ↦ full (after-refused p c h k ∙ e) (
        length_by_index 0 (cell_of after p c).runs (λ i lt. ground arith)
          (λ i le. never p c i (ground arith)))
    | inr e ↦ full (after-refused p c h k ∙ e) (
        length_by_index runs (cell_of after p c).runs
          (λ i lt. some_final after p c i (
            done_some after (record { point = p; client = c; run = i })
              (run_campaign-done outcome refused points clients runs []
                (record { point = p; client = c; run = i }) (names-count p points h)
                (names-count c clients k) lt e)))
          (λ i le. never p c i (ground arith)))
  ]
    where
      full :
          {b : Bool}
          → (cell_of after p c).refused ≡ b
          → length (cell_of after p c).runs ≡ (if b then 0 else runs)
          → Full after runs p c
      full {b = true} e l = rw e (omega (arith, l))
      full {b = false} e l = rw e (omega (arith, l))

  some_runs : or_one runs ≡ runs
  some_runs = go runs some_run
    where
      go : (n : ℕ) → 0 < n → or_one n ≡ n
      go zero h = ground arith
      go (suc n) h = refl

  -- After a campaign that started in an empty store, with at least one run index and with points and
  -- clients that are named once, whatever the runs return and whatever clients refuse: the pages count
  -- as many recorded runs as they expect, so that none calls the campaign incomplete.
  pub run_campaign-expected_runs :
      Unique points
      → Unique clients
      → done_runs (load points clients runs after) ≡ expected_runs (load points clients runs after)
  unfolding load done_runs expected_runs
  run_campaign-expected_runs u v =
      let w = Within-run_campaign points clients outcome refused runs [] tt in
      rw
        (
          shown_points-Within points clients after w,
          shown_clients-Within points clients after w,
          some_runs,
        )
        (total-fill_all after runs points clients after-Full u v)
