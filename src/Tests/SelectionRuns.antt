-- ===== src/Tests/SelectionRuns.antt =====
-- report/data.py: an instrumented campaign is passed over for an older one.
use mqtt_python_client_bench.Prelude.{true, false, none, some, [], ◌∷◌, ok, ◌≡◌, refl}
use mqtt_python_client_bench.Report.Selection.{
  Campaign, Shown, select_campaign, newest, load_campaign, comparable, builds, mixed_gil,
  gil_states,
}
use mqtt_python_client_bench.Report.Selection.Published.{Chosen, select_campaign-Chosen}

abbrev shown : Shown
shown = record {
  client = "paho";
  point = "pub_qos1_max";
  runtime = some (record { build = "3.13"; gil_enabled = some true });
  python = none;
  instrumented = false;
}

abbrev older : Campaign
older = record {
  path = "a";
  name = "a";
  profile_comparable = true;
  sampling = false;
  recorded = some "3.13";
  runs = shown ∷ shown ∷ [];
}

abbrev newer : Campaign
newer = record older { path = "b"; name = "b"; runs = record shown { instrumented = true } ∷ [] }

passed_over : select_campaign none (newer ∷ older ∷ []) ≡ ok (some older, "b" ∷ [])
unfolding select_campaign newest load_campaign comparable builds mixed_gil gil_states
passed_over = refl

select_campaign-Chosen_example : Chosen (newer ∷ older ∷ []) (some older) ("b" ∷ [])
select_campaign-Chosen_example =
    select_campaign-Chosen (newer ∷ older ∷ []) (some older) ("b" ∷ []) passed_over
