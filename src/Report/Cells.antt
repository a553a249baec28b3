-- ===== src/Report/Cells.antt =====
-- report/data.py, the cells of a campaign that has run: each has something to say.
use Prim.Native.String.{String}
use text.Mathlib.Text.{◌==◌ as str_eq}
use mqtt_python_client_bench.Prelude.{
  ℕ, suc, ◌≤◌, ◌<◌, leb, ◌==◌, ◌≡◌, ◌≢◌, ◌⊎◌, refl, ap, ◌∙◌, Bool, true, false, not, ◌&&◌, ◌||◌,
  List, [], ◌∷◌, any, length, arith, Bool-cases, Option-cases, inl, inr,
}
use mqtt_python_client_bench.Dict.{string_eq, get}
use mqtt_python_client_bench.Checks.Items.{Status, is_invalid}
use mqtt_python_client_bench.Campaign.{
  Key, RunDoc, Store, max_attempts, matching, doc_or_new, attempts, done, run_campaign,
}
use mqtt_python_client_bench.Campaign.Plan.{count}
use mqtt_python_client_bench.Campaign.Refusals.{lists, names}
use mqtt_python_client_bench.Campaign.Whole.{run_campaign-done, run_campaign-lists}
use mqtt_python_client_bench.Report.{
  insert_run, sort_attempts, last_of, final_attempts, runs_of, Cell, missing, state, cell_of,
}
use mqtt_python_client_bench.Report.Indices.{at}
use mqtt_python_client_bench.Report.Final.{final_attempts-at}

length-insert_run :
    (r : RunDoc) (runs : List RunDoc) → length (insert_run r runs) ≡ suc (length runs)
length-insert_run r [] = refl
length-insert_run r (s ∷ runs) =
    let h = length-insert_run r runs in
    elim (Bool-cases (leb r.attempt s.attempt)) [ inl e ↦ rw e refl | inr e ↦ rw e (ap suc h) ]

pub length-sort_attempts : (runs : List RunDoc) → length (sort_attempts runs) ≡ length runs
length-sort_attempts [] = refl
length-sort_attempts (r ∷ runs) =
    length-insert_run r (sort_attempts runs) ∙ ap suc (length-sort_attempts runs)

pub length-last_of : (runs : List RunDoc) → 0 < length runs → 0 < length (last_of runs)
length-last_of [] h = h
length-last_of (r ∷ []) h = h
length-last_of (r ∷ s ∷ runs) h = length-last_of (s ∷ runs) (omega arith)

length-at : (i : ℕ) (runs : List RunDoc) → length (at i runs) ≤ length runs
length-at i [] = omega arith
length-at i (r ∷ runs) =
    let h = length-at i runs in
    elim (Bool-cases (r.key.run == i)) [ inl e ↦ rw e (omega arith) | inr e ↦ rw e (omega arith) ]

matching-at : (k : Key) (runs : List RunDoc) → matching k runs ≡ at k.run (runs_of k.point runs)
unfolding matching
matching-at k [] = refl
matching-at k (r ∷ runs) =
    let h = matching-at k runs in
    elim (Bool-cases (str_eq r.key.point k.point)) [
      | inl e ↦ elim (Bool-cases (r.key.run == k.run)) [
        | inl f ↦ rw (e, f) (ap (λ l. r ∷ l) h)
        | inr f ↦ rw (e, f) h
      ]
      | inr e ↦ rw e h
    ]

pub doc_attempts-at :
    (s : Store) (k : Key)
    → attempts s k ≡ at k.run (runs_of k.point (doc_or_new (get s k.client)).runs)
unfolding attempts
doc_attempts-at s k = elim (Option-cases (get s k.client)) [
  | inl e ↦ rw e refl
  | inr (d, e) ↦ rw e (matching-at k d.runs)
]

pub done_some : (s : Store) (k : Key) → done s k ≡ true → 0 < length (attempts s k)
unfolding done
done_some s k h = go (attempts s k) h
  where
    go :
        (runs : List RunDoc)
        → (any (λ r. not (is_invalid r.status)) runs || leb max_attempts (length runs)) ≡ true
        → 0 < length runs
    go [] h = ground arith
    go (r ∷ runs) h = omega arith

-- A key with an attempt has a final one.
final_some :
    (s : Store) (k : Key) → 0 < length (attempts s k) → 0 < length (cell_of s k.point k.client).runs
unfolding cell_of
final_some s k h =
    let runs = runs_of k.point (doc_or_new (get s k.client)).runs in
    let n =
      length-last_of (sort_attempts (at k.run runs))
        (omega (arith, length-sort_attempts (at k.run runs), ap length (doc_attempts-at s k))) in
    omega (arith, ap length (final_attempts-at k.run runs), length-at k.run (final_attempts runs).0)

by_status : (c : Cell) → 0 < length c.runs → c.refused ≡ false → state c ≢ missing
unfolding state
by_status c h r e = ground arith

not_missing : (c : Cell) → (c.refused ≡ true) ⊎ (0 < length c.runs) → state c ≢ missing
unfolding state
not_missing c (inl r) e = ground arith
not_missing c (inr r) e = elim (Bool-cases c.refused) [
  | inl f ↦ ground arith
  | inr f ↦ by_status c r f e
]

second : (a b d e : Bool) → b ≡ true → d ≡ true → e ≡ true → (a || (b && (d && e))) ≡ true
second true b d e h k l = refl
second false b d e h k l = ground arith

pub count-names : (q : String) (ps : List String) → 0 < count q ps → names ps q ≡ true
count-names q [] h = ground arith
count-names q (p ∷ ps) h = let n = count-names q ps in ground arith

module _ (outcome : ℕ → Key → Status) (refused : String → String → Bool)
    (points clients : List String) (runs : ℕ) (s : Store) (p c : String)
    (named : 0 < count p points) (listed : 0 < count c clients) (some_run : 0 < runs) where
  shown :
      (cell_of (run_campaign outcome refused points clients runs s) p c).refused ≡ true
      ⊎ (0 < length (cell_of (run_campaign outcome refused points clients runs s) p c).runs)
  unfolding cell_of
  shown = elim (Bool-cases (refused c p)) [
    | inl r ↦ inl (
        run_campaign-lists outcome refused points clients runs s c p
        ∙ second (lists s c p) (refused c p) (names clients c) (names points p) r
            (count-names c clients listed) (count-names p points named))
    | inr r ↦ inr (
        final_some _ k (
          done_some _ k
            (run_campaign-done outcome refused points clients runs s k named listed some_run r)))
  ]
    where
      k : Key
      k = record { point = p; client = c; run = 0 }

  -- After a campaign with at least one run index, from any store and whatever the runs return, the
  -- cell of each of its points and clients has a value, or says why it has none: it is not `missing`.
  pub run_campaign-state :
      state (cell_of (run_campaign outcome refused points clients runs s) p c) ≢ missing
  run_campaign-state =
      not_missing (cell_of (run_campaign outcome refused points clients runs s) p c) shown
