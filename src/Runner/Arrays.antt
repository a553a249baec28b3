-- ===== src/Runner/Arrays.antt =====
-- bench/runner.py and bench/worker.py together: the arrays that a worker makes for the schedule_s that
-- the runner tells it are large enough for the schedule that the runner then fixes.
use Prim.Native.String.{String}
use text.Mathlib.TextEquality.{eq_iff}
use mqtt_python_client_bench.Prelude.{ℕ, ◌+◌, ◌*◌, ◌≤◌, ◌<◌, ◌≡◌, true, Option, some, ok, arith}
use mqtt_python_client_bench.Drive.{Run, offered}
use mqtt_python_client_bench.Drive.Fixed.{Env, IsClock, pub_fixed_sync, rounds}
use mqtt_python_client_bench.Drive.Fixed.Loop.{Ends}
use mqtt_python_client_bench.Drive.Fixed.Stamps.{Room, pub_fixed_sync-Room}
use mqtt_python_client_bench.Catalog.{Point, Profile}
use mqtt_python_client_bench.Worker.{
  Go, sends_messages, latency_capacity, send_capacity, run_state, lag_histogram, fixed_offer,
  read_go,
}
use mqtt_python_client_bench.Worker.Lags.{offered-le-send_capacity, lag_histogram-counts}
use mqtt_python_client_bench.Runner.{schedule, schedule_ms, go_words}

-- The messages of the run that were due in the window: the lags, and those never published.
pub record Accounted (p : Point) (go : Go) (capacity : ℕ) (run : Run) : Type 0 where
  pub room : Room capacity run
  pub counted :
      (lag_histogram run p go).0.count
        + (lag_histogram run p go).0.negative
        + (lag_histogram run p go).1
        + offered p.rate go.t_start go.t_measure
      ≡ offered p.rate go.t_start go.t_end

schedule-within :
    (profile : Profile) (now : ℕ)
    → (schedule profile now).t_end ≤ (schedule profile now).t_start + schedule_ms profile * 1000000
unfolding schedule
schedule-within profile now = omega arith

schedule-order :
    (profile : Profile) (now : ℕ) → (schedule profile now).t_measure ≤ (schedule profile now).t_end
unfolding schedule
schedule-order profile now = omega arith

-- The worker reads the times that the runner wrote.
read_go-go_words :
    (str : ℕ → String) (int : String → Option ℕ) (go : Go)
    → ((n : ℕ) → int (str n) ≡ some n)
    → read_go int (go_words str go) ≡ ok go
unfolding read_go go_words
read_go-go_words str int go inverse = ground (
  arith,
  eq_iff "GO" "GO",
  inverse go.t_start,
  inverse go.t_measure,
  inverse go.t_end,
  inverse go.t_stop,
)

-- For a point that sends at a positive rate, and `int` the inverse of `str`: the worker reads the
-- schedule that the runner fixed from its GO line; with that schedule and the arrays that the worker
-- made for the profile's length, the fixed-rate loop ends; no send stamp is lost; and of the messages
-- due in the measured window each is a lag, a negative one or not, or is counted as never published.
pub pub_fixed_sync-schedule :
    (env : Env) (str : ℕ → String) (int : String → Option ℕ) (p : Point) (profile : Profile)
    (now began : ℕ)
    → IsClock env
    → ((n : ℕ) → int (str n) ≡ some n)
    → sends_messages p.kind ≡ true
    → 0 < p.rate
    → let go = schedule profile now in
      let go_ms = schedule_ms profile in
      let offer = fixed_offer p go in
      (read_go int (go_words str go) ≡ ok go)
      × Ends
          (λ s. Accounted p go (send_capacity p go_ms) s.run)
          (pub_fixed_sync env offer (rounds offer) began (run_state p go_ms))
pub_fixed_sync-schedule env str int p profile now began clock inverse sends rate =
    let go = schedule profile now in
    let go_ms = schedule_ms profile in
    let ends =
      pub_fixed_sync-Room env clock (fixed_offer p go) rate (send_capacity p go_ms)
        (offered-le-send_capacity p go_ms go.t_start go.t_end sends rate
          (schedule-within profile now))
        began (latency_capacity p go_ms) in
    (
      read_go-go_words str int go inverse,
      record {
        final = ends.final;
        result = ends.result;
        holds = record {
          room = ends.holds;
          counted =
              lag_histogram-counts ends.final.run p go go_ms sends rate ends.holds.length_kept
                (schedule-order profile now) (schedule-within profile now);
        };
      },
    )
