-- ===== src/Tests/ResumeRuns.antt =====
-- bench/campaign.py: a campaign of one point that is started and resumed.
use Prim.Native.String.{String}
use mqtt_python_client_bench.Prelude.{ℕ, ◌<◌, ◌≡◌, refl, true, some, [], ◌∷◌, All, arith, ok}
use mqtt_python_client_bench.Dict.{nat_eq, string_eq, get, put}
use mqtt_python_client_bench.Catalog.{Profile}
use mqtt_python_client_bench.Catalog.Points.{mirror}
use mqtt_python_client_bench.Catalog.Resolve.{all_points, all_suites, by_name, named}
use mqtt_python_client_bench.Campaign.Resume.{Settings, Frozen, manifest_of, resume_settings}
use mqtt_python_client_bench.Campaign.Resume.Again.{started_with, resume_settings-manifest_of}

abbrev standard : Profile
standard = record {
  name = "standard";
  warmup_ms = 2000;
  measure_ms = 8000;
  drain_ms = 2000;
  runs = 3;
  comparable = true;
}

-- One client is named twice.
abbrev settings : Settings
settings = record {
  profile = standard;
  points = named ("pub_qos1_max" ∷ "rtt_qos1_fixed" ∷ []);
  clients = "paho" ∷ "gmqtt" ∷ "paho" ∷ [];
  runs = 0;
}

abbrev version : String → String
version client = "1"

abbrev here : Frozen ℕ
here = record { runtime = 1; environments = 2; lock_digest = 3; harness = 4; sampling = 0 }

catalogued : All (λ p. get all_points p.name ≡ some p) settings.points
unfolding all_points all_suites by_name mirror put get named
catalogued = (refl, (refl, tt))

resumed :
    resume_settings (some (manifest_of version settings here)) ≡ ok (started_with version settings)
resumed = resume_settings-manifest_of version settings here refl catalogued

three_runs : 0 < (manifest_of version settings here).runs_per_point
unfolding manifest_of
three_runs = omega arith
