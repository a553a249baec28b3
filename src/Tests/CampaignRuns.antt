-- ===== src/Tests/CampaignRuns.antt =====
-- bench/campaign.py with two clients and one point that the second client cannot run.
use Prim.Native.String.{String}
use text.Mathlib.Text.{◌==◌ as str_eq}
use mqtt_python_client_bench.Prelude.{
  ℕ, ◌≤◌, ◌≡◌, refl, arith, Bool, true, List, [], ◌∷◌, ltb, if◌then◌else◌, ◌&&◌, length,
}
use mqtt_python_client_bench.Dict.{get, put}
use mqtt_python_client_bench.Checks.Items.{Status, valid, invalid}
use mqtt_python_client_bench.Campaign.{
  Key, Store, able, plan_point, plan, matching, attempts, done, add, listing, add_unsupported,
  add_refusals, add_all_refusals, run_pass, to_do, run_passes, run_campaign, max_attempts,
}
use mqtt_python_client_bench.Campaign.Whole.{run_campaign-done, run_campaign-length}

abbrev refused : String → String → Bool
refused client point = str_eq client "gmqtt" && str_eq point "qos2"

abbrev points : List String
points = "qos0" ∷ "qos2" ∷ []

abbrev clients : List String
clients = "paho" ∷ "gmqtt" ∷ []

-- The second attempt gives a result, the first does not.
abbrev outcome : ℕ → Key → Status
outcome n k = if ltb n 1 then invalid else valid

abbrev key : Key
key = record { point = "qos0"; client = "gmqtt"; run = 1 }

abbrev refused_key : Key
refused_key = record { point = "qos2"; client = "gmqtt"; run = 1 }

-- The second round starts with the second client, and the second point has the first client only.
plan_run :
    plan refused points clients 2
    ≡ record { point = "qos0"; client = "paho"; run = 0 }
      ∷ record { point = "qos0"; client = "gmqtt"; run = 0 }
      ∷ record { point = "qos0"; client = "gmqtt"; run = 1 }
      ∷ record { point = "qos0"; client = "paho"; run = 1 }
      ∷ record { point = "qos2"; client = "paho"; run = 0 }
      ∷ record { point = "qos2"; client = "paho"; run = 1 }
      ∷ []
unfolding plan plan_point able
plan_run = refl

-- Both attempts are kept, in order.
run_campaign_run :
    attempts (run_campaign outcome refused points clients 2 []) key
    ≡ record { key = key; status = invalid; attempt = 0 }
      ∷ record { key = key; status = valid; attempt = 1 }
      ∷ []
unfolding run_campaign plan plan_point able run_passes run_pass to_do add_all_refusals add_refusals
    add_unsupported listing done attempts add matching get put
run_campaign_run = refl

run_campaign-done_example : done (run_campaign outcome refused points clients 2 []) key ≡ true
run_campaign-done_example =
    run_campaign-done outcome refused points clients 2 [] key (omega arith) (omega arith)
      (omega arith) refl

-- A store in which the key has its result.
abbrev finished : Store
finished = add [] (record { key = key; status = valid; attempt = 0 })

finished_done : done finished key ≡ true
unfolding done attempts add matching get put
finished_done = refl

none_before : length (attempts [] key) ≡ 0
unfolding attempts get
none_before = refl

run_campaign-length_example :
    length (attempts (run_campaign outcome refused points clients 2 []) key) ≤ max_attempts
run_campaign-length_example =
    run_campaign-length outcome refused points clients 2 [] key (omega arith) (omega arith)
      (omega (arith, none_before))
