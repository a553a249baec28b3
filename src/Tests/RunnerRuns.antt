-- ===== src/Tests/RunnerRuns.antt =====
-- bench/runner.py at concrete points.
use Prim.Native.String.{String, len}
use mqtt_python_client_bench.Prelude.{
  ℕ, zero, suc, ◌≡◌, refl, ap, true, false, [], ◌∷◌, ok, some, Option, arith, max, All, replicate,
}
use mqtt_python_client_bench.Checks.{publish, duplex}
use mqtt_python_client_bench.Catalog.{Point, point, Profile}
use mqtt_python_client_bench.Catalog.Points.{extended}
use text.Mathlib.TextPositions.{len-append}
use mqtt_python_client_bench.Drive.Fixed.{Env, IsClock, pub_fixed_sync, rounds}
use mqtt_python_client_bench.Drive.Fixed.Loop.{Ends}
use mqtt_python_client_bench.Worker.{read_go, send_capacity, run_state, fixed_offer}
use mqtt_python_client_bench.Runner.{
  schedule, schedule_ms, go_words, repeat_t, overhead, payload_sizes,
}
use mqtt_python_client_bench.Runner.Peers.{peer_plan, start_parties}
use mqtt_python_client_bench.Runner.Arrays.{Accounted, pub_fixed_sync-schedule}
use mqtt_python_client_bench.Runner.Order.{Started, start_parties-Started}
use mqtt_python_client_bench.Runner.Sizes.{Roomy, Published, payload_sizes-Published}

-- Every message is refused, and the clock wakes on time.
abbrev env : Env
env = record { accepts = λ i. false; reading = λ i. i; wake = λ now deadline. max now deadline }

env-IsClock : IsClock env
env-IsClock = record { at_deadline = λ n d. omega arith; forward = λ n d. omega arith }

-- Numbers written as so many "t".
abbrev tally : String → Option ℕ
tally s = some (len s)

len-repeat_t : (n : ℕ) → len (repeat_t n) ≡ n
len-repeat_t zero = refl
len-repeat_t (suc n) = let h = len-repeat_t n in omega (arith, len-append "t" (repeat_t n))

tally-repeat_t : (n : ℕ) → tally (repeat_t n) ≡ some n
tally-repeat_t n = ap some (len-repeat_t n)

abbrev short : Profile
short = record {
  name = "short";
  warmup_ms = 2;
  measure_ms = 3;
  drain_ms = 1;
  runs = 1;
  comparable = false;
}

abbrev steady : Point
steady = record (point "steady" duplex "?") { qos = 1; rate = 2000 }

pub_fixed_sync-schedule_example :
    let go = schedule short 7 in
    let go_ms = schedule_ms short in
    let offer = fixed_offer steady go in
    (read_go tally (go_words repeat_t go) ≡ ok go)
    × Ends
        (λ s. Accounted steady go (send_capacity steady go_ms) s.run)
        (pub_fixed_sync env offer (rounds offer) 300 (run_state steady go_ms))
pub_fixed_sync-schedule_example =
    pub_fixed_sync-schedule env repeat_t tally steady short 7 300 env-IsClock tally-repeat_t refl
      (omega arith)

start_parties-Started_example :
    Started repeat_t
      (λ key. true)
      duplex
      steady
      "0123456789ab"
      (peer_plan 9000 steady "0123456789ab")
      (start_parties (λ key. true) (peer_plan 9000 steady "0123456789ab"))
start_parties-Started_example =
    start_parties-Started repeat_t (λ key. true) 9000 steady "0123456789ab" (λ e. omega arith)

-- Remaining lengths at the edges of the one-byte field, in turn.
abbrev edges : Point
edges = record (point "edges" publish "?") {
  rate = 500;
  protocol = "MQTTv5";
  remaining_lengths = 127 ∷ 128 ∷ [];
}

payload_sizes-Published_example :
    Published edges (replicate 23 116) (127 ∷ 128 ∷ []) (payload_sizes edges 23)
payload_sizes-Published_example =
    payload_sizes-Published edges (replicate 23 116) (omega arith) (omega arith, (omega arith, tt))

-- A run's topic without an alias has 23 bytes, which is room enough at each point of the extended suite.
extended-Roomy : All (λ (p : Point). Roomy (overhead p 23) p.remaining_lengths) extended
extended-Roomy = omega arith
