-- ===== src/Tests/ReportRuns.antt =====
-- report/data.py on a retried run, and on the cells of a campaign.
use Prim.Native.String.{String}
use mqtt_python_client_bench.Prelude.{
  ℕ, ◌≤◌, ◌≡◌, ◌≢◌, refl, arith, Bool, false, List, [], ◌∷◌, All,
}
use mqtt_python_client_bench.Dict.{get, put}
use mqtt_python_client_bench.Checks.Items.{Status, valid, not_sustained, invalid}
use text.Mathlib.Text.{◌==◌ as str_eq}
use mqtt_python_client_bench.Campaign.{
  Key, RunDoc, Store, run_campaign, run_passes, run_pass, to_do, add, done, attempts, matching,
  add_all_refusals, add_refusals, add_unsupported, listing, plan, plan_point, able,
}
use mqtt_python_client_bench.Report.{
  by_index, collect, sort_attempts, last_of, final_attempts, missing, state, cell_of,
}
use mqtt_python_client_bench.Report.Progress.{
  done_runs, expected_runs, load, shown_points, shown_clients, add_points, fill, fill_point,
  able_pairs, able_clients,
}
use mqtt_python_client_bench.Report.Progress.Complete.{run_campaign-expected_runs}
use mqtt_python_client_bench.Report.Indices.{at}
use mqtt_python_client_bench.Report.Latest.{final_attempts-latest}
use mqtt_python_client_bench.Report.Cells.{run_campaign-state}

abbrev run_doc : ℕ → Status → ℕ → RunDoc
run_doc run status attempt = record {
  key = record { point = "qos0"; client = "paho"; run = run };
  status = status;
  attempt = attempt;
}

-- The second run index was retried.
abbrev runs : List RunDoc
runs = run_doc 1 invalid 0 ∷ run_doc 0 valid 0 ∷ run_doc 1 not_sustained 1 ∷ []

split_runs :
    final_attempts runs
    ≡ (run_doc 0 valid 0 ∷ run_doc 1 not_sustained 1 ∷ [], run_doc 1 invalid 0 ∷ [])
unfolding final_attempts collect by_index get put
split_runs = refl

final_attempts-latest_example :
    (at 1 (final_attempts runs).0 ≡ last_of (sort_attempts (at 1 runs)))
    × All (λ r. All (λ s. s.attempt ≤ r.attempt) (at 1 runs)) (at 1 (final_attempts runs).0)
final_attempts-latest_example = final_attempts-latest 1 runs

-- Every run is invalid, and nothing is refused.
abbrev outcome : ℕ → Key → Status
outcome n k = invalid

abbrev refused : String → String → Bool
refused client point = false

run_campaign-state_example :
    state (cell_of (run_campaign outcome refused ("qos0" ∷ []) ("paho" ∷ []) 2 []) "qos0" "paho")
    ≢ missing
run_campaign-state_example =
    run_campaign-state outcome refused ("qos0" ∷ []) ("paho" ∷ []) 2 [] "qos0" "paho" (omega arith)
      (omega arith) (omega arith)

-- One client cannot run the point; the other has a retried run of each index.
abbrev one_refused : String → String → Bool
one_refused client point = str_eq client "gmqtt"

abbrev ran : Store
ran = run_campaign outcome one_refused ("qos0" ∷ []) ("paho" ∷ "gmqtt" ∷ []) 2 []

progress_run :
    (done_runs (load ("qos0" ∷ []) ("paho" ∷ "gmqtt" ∷ []) 2 ran) ≡ 2)
    × (expected_runs (load ("qos0" ∷ []) ("paho" ∷ "gmqtt" ∷ []) 3 ran) ≡ 3)
unfolding done_runs expected_runs load shown_points shown_clients add_points fill fill_point
    able_pairs able_clients run_campaign run_passes run_pass to_do add done attempts matching
    add_all_refusals add_refusals add_unsupported listing plan plan_point able cell_of
    final_attempts collect by_index get put
progress_run = (refl, refl)

run_campaign-expected_runs_example :
    done_runs (load ("qos0" ∷ []) ("paho" ∷ "gmqtt" ∷ []) 2 ran)
    ≡ expected_runs (load ("qos0" ∷ []) ("paho" ∷ "gmqtt" ∷ []) 2 ran)
run_campaign-expected_runs_example =
    run_campaign-expected_runs outcome one_refused ("qos0" ∷ []) ("paho" ∷ "gmqtt" ∷ []) 2
      (omega arith) (refl, tt) (refl, (refl, tt))
