-- ===== src/Campaign/Whole.antt =====
-- bench/campaign.py, run_campaign: what a campaign leaves in its store, from any store.
use Prim.Native.String.{String}
use mqtt_python_client_bench.Prelude.{
  ℕ, ◌*◌, ◌≤◌, ◌<◌, ◌≡◌, sym, ap, subst, ◌∙◌, Bool, true, false, List, [], ◌∷◌, ◌&&◌, ◌||◌, all,
  length, arith, Bool-cases, inl, inr, leb,
}
use mqtt_python_client_bench.Checks.Items.{Status}
use mqtt_python_client_bench.Campaign.{
  Key, same_key, Store, attempts, done, plan, add_all_refusals, run_campaign, max_attempts,
}
use mqtt_python_client_bench.Campaign.Attempts.{same_key→eq}
use mqtt_python_client_bench.Campaign.Plan.{count, times-plan}
use mqtt_python_client_bench.Campaign.Passes.{
  times, done_kept, run_passes-done, run_passes-attempts, run_passes-length, run_passes-unnamed,
}
use mqtt_python_client_bench.Campaign.Refusals.{
  names, lists, lists-run_passes, lists-add_all_refusals, attempts-add_all_refusals,
}

all_done :
    (s : Store) (order : List Key) (k : Key)
    → all (λ j. done s j) order ≡ true
    → 0 < times k order
    → done s k ≡ true
all_done s [] k h o = ground arith
all_done s (j ∷ order) k h o = elim (Bool-cases (same_key j k)) [
  | inl e ↦ ap (λ i. done s i) (sym (same_key→eq j k e)) ∙ ground arith
  | inr e ↦ all_done s order k (ground arith) (ground arith)
]

-- A product of positive numbers is positive, and of numbers up to 1 is up to 1.
mul_pos : (a b : ℕ) → 0 < a → 0 < b → 0 < a * b
mul_pos a b h k = grind arith

mul_le_one : (a b : ℕ) → a ≤ 1 → b ≤ 1 → a * b ≤ 1
mul_le_one a b h k = grind arith

module _ (outcome : ℕ → Key → Status) (refused : String → String → Bool)
    (points clients : List String) (runs : ℕ) (s : Store) where
  planned_times :
      (k : Key)
      → 0 < count k.point points
      → 0 < count k.client clients
      → k.run < runs
      → refused k.client k.point ≡ false
      → 0 < times k (plan refused points clients runs)
  planned_times k p c i r = ground (
    arith,
    times-plan refused points clients runs k,
    mul_pos (count k.point points) (count k.client clients) p c,
  )

  planned_once :
      (k : Key)
      → count k.point points ≤ 1
      → count k.client clients ≤ 1
      → times k (plan refused points clients runs) ≤ 1
  planned_once k p c = ground (
    arith,
    times-plan refused points clients runs k,
    mul_le_one (count k.point points) (count k.client clients) p c,
  )

  -- Whatever the runs return, every client has been run on every point of the campaign that it can
  -- run, for each run index: there is an attempt that is not `invalid`, or max_attempts of them.
  pub run_campaign-done :
      (k : Key)
      → 0 < count k.point points
      → 0 < count k.client clients
      → k.run < runs
      → refused k.client k.point ≡ false
      → done (run_campaign outcome refused points clients runs s) k ≡ true
  unfolding run_campaign
  run_campaign-done k p c i r =
      let noted = add_all_refusals refused points clients s in
      let order = plan refused points clients runs in
      elim (Bool-cases (all (λ j. done noted j) order)) [
        | inl e ↦ rw e (all_done noted order k e (planned_times k p c i r))
        | inr e ↦ rw e (run_passes-done outcome order noted k (planned_times k p c i r))
      ]

  -- A key that is done before the campaign keeps its attempts as they are.
  pub run_campaign-attempts :
      (k : Key)
      → done s k ≡ true
      → attempts (run_campaign outcome refused points clients runs s) k ≡ attempts s k
  unfolding run_campaign
  run_campaign-attempts k d =
      let noted = add_all_refusals refused points clients s in
      let order = plan refused points clients runs in
      let same = attempts-add_all_refusals refused points clients s k in
      elim (Bool-cases (all (λ j. done noted j) order)) [
        | inl e ↦ rw e same
        | inr e ↦
            rw e (run_passes-attempts outcome order noted k (done_kept noted s k same d) ∙ same)
      ]

  -- A key whose point and client the campaign names at most once, with at most max_attempts
  -- attempts before, has no more than max_attempts in the end.
  pub run_campaign-length :
      (k : Key)
      → count k.point points ≤ 1
      → count k.client clients ≤ 1
      → length (attempts s k) ≤ max_attempts
      → length (attempts (run_campaign outcome refused points clients runs s) k) ≤ max_attempts
  unfolding run_campaign
  run_campaign-length k p c h =
      let noted = add_all_refusals refused points clients s in
      let order = plan refused points clients runs in
      let same = attempts-add_all_refusals refused points clients s k in
      let h' = subst (λ rs. length rs ≤ max_attempts) (sym same) h in
      elim (Bool-cases (all (λ j. done noted j) order)) [
        | inl e ↦ rw e h'
        | inr e ↦ rw e (run_passes-length outcome order noted k (planned_once k p c) h')
      ]

  -- A campaign adds no attempt at a key whose client refuses the point, nor at one whose run index
  -- is not below the number of runs.
  pub run_campaign-refused :
      (k : Key)
      → (refused k.client k.point || leb runs k.run) ≡ true
      → attempts (run_campaign outcome refused points clients runs s) k ≡ attempts s k
  unfolding run_campaign
  run_campaign-refused k h =
      let noted = add_all_refusals refused points clients s in
      let order = plan refused points clients runs in
      let same = attempts-add_all_refusals refused points clients s k in
      elim (Bool-cases (all (λ j. done noted j) order)) [
        | inl e ↦ rw e same
        | inr e ↦ rw e (
            run_passes-unnamed outcome order noted k
              (ground (arith, times-plan refused points clients runs k))
            ∙ same)
      ]

  -- A client's document names a point as one that it cannot run if it did so before, or if the
  -- campaign has both and the client refuses the point, and never otherwise.
  pub run_campaign-lists :
      (c p : String)
      → lists (run_campaign outcome refused points clients runs s) c p
        ≡ (lists s c p || (refused c p && (names clients c && names points p)))
  unfolding run_campaign
  run_campaign-lists c p =
      let noted = add_all_refusals refused points clients s in
      let order = plan refused points clients runs in
      let listed = lists-add_all_refusals refused points clients s c p in
      elim (Bool-cases (all (λ j. done noted j) order)) [
        | inl e ↦ rw e listed
        | inr e ↦ rw e (lists-run_passes outcome order noted c p ∙ listed)
      ]
