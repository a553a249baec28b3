-- ===== src/Worker.antt =====
-- bench/worker.py: what the client's process makes of its configuration, and its result. The point is
-- the catalogue's: it is read back from its record. A line is its words, and Python's `int` of a word
-- is the parameter `int`. `go_ms` is schedule_s in milliseconds.
pub mod Creation
pub mod Lags
use Prim.Native.String.{String}
use text.Mathlib.Text.{◌==◌ as str_eq}
use mqtt_python_client_bench.Prelude.{
  ℕ, zero, suc, ◌+◌, ◌-◌, ◌*◌, ◌/◌, Bool, true, false, not, Option, none, some, List, [], ◌∷◌, ltb,
  ◌==◌, if◌then◌else◌, ◌&&◌, ◌||◌, length, min, Result, ok, err, ◌>>=◌,
}
use mqtt_python_client_bench.Prelude.Int.{ℤ, pos, sub_ℕ, ◌-ℤ◌}
use mqtt_python_client_bench.Histogram.{Histogram, from_values}
use mqtt_python_client_bench.Checks.{Kind, publish, subscribe, rtt, duplex, idle, is_kind, Snapshot}
use mqtt_python_client_bench.Catalog.{Point}
use mqtt_python_client_bench.Adapters.Classes.{RegistryError, Arguments, Class, Libraries}
use mqtt_python_client_bench.Adapters.Registry.{
  get_async_adapter_class, has_async_adapter, create_adapter, create_async_adapter,
}
use mqtt_python_client_bench.Drive.{Run, new_run, slice, window_lags}
use mqtt_python_client_bench.Drive.Fixed.{Offer}
use mqtt_python_client_bench.Drive.Payloads.{
  PayloadError, Maker, payload_maker, fixed_payload_maker, cycling_payload_maker, Route,
  routed_publish, unrouted,
}

pub record Go : Type 0 where
  pub t_start : ℕ
  pub t_measure : ℕ
  pub t_end : ℕ
  pub t_stop : ℕ

pub data GoError : Type 0 where
  expected_go : List String → GoError
  not_a_number : String → GoError

abbrev pub as_number : (String → Option ℕ) → String → Result GoError ℕ
as_number int word = elim (int word) [ none ↦ err (not_a_number word) | some n ↦ ok n ]

-- t_start, t_measure, t_end, t_stop = (int(x) for x in line[1:])
abbrev pub parse_times : (String → Option ℕ) → String → String → String → String → Result GoError Go
parse_times int a b c d = do
  t_start ← as_number int a
  t_measure ← as_number int b
  t_end ← as_number int c
  t_stop ← as_number int d
  ok (record { t_start = t_start; t_measure = t_measure; t_end = t_end; t_stop = t_stop })

unfoldable pub read_go : (String → Option ℕ) → List String → Result GoError Go
read_go int (word ∷ a ∷ b ∷ c ∷ d ∷ []) =
    if str_eq word "GO"
    then parse_times int a b c d
    else err (expected_go (word ∷ a ∷ b ∷ c ∷ d ∷ []))
read_go int line = err (expected_go line)

pub data Shape : Type 0 where
  sync nowait awaited : Shape

unfoldable pub drive_shape : (String → String) → String → Result RegistryError Shape
unfolding has_async_adapter get_async_adapter_class
drive_shape fold client =
    if has_async_adapter client
    then (get_async_adapter_class fold client >>= λ cls.
        ok (if cls.capabilities.publish_sync_on_loop then nowait else awaited))
    else ok sync

-- kind in RECEIVES, kind in PUBLISHES
abbrev pub receives : Kind → Bool
receives subscribe = true
receives rtt = true
receives duplex = true
receives _ = false

abbrev pub sends_messages : Kind → Bool
sends_messages publish = true
sends_messages rtt = true
sends_messages duplex = true
sends_messages _ = false

-- int(rate * go_s * 1.25) + 1024
unfoldable pub latency_capacity : Point → ℕ → ℕ
latency_capacity p go_ms =
    if not (receives p.kind) || (p.rate == 0) then 0 else p.rate * go_ms * 5 / 4000 + 1024

-- int(rate * go_s) + 1024
unfoldable pub send_capacity : Point → ℕ → ℕ
send_capacity p go_ms =
    if not (sends_messages p.kind) || (p.rate == 0) then 0 else p.rate * go_ms / 1000 + 1024

abbrev pub run_state : Point → ℕ → Run
run_state p go_ms = new_run (latency_capacity p go_ms) (send_capacity p go_ms)

abbrev pub first_size : List ℕ → ℕ
first_size [] = 0
first_size (size ∷ sizes) = size

unfoldable pub maker : Point → List ℕ → Result PayloadError Maker
unfolding cycling_payload_maker fixed_payload_maker payload_maker
maker p sizes =
    if ltb 1 (length sizes)
    then cycling_payload_maker sizes
    else if p.rate == 0
    then ok (payload_maker (first_size sizes))
    else fixed_payload_maker (first_size sizes)

pub record Config : Type 0 where
  pub client : String
  pub client_id : String
  pub tls_ca_certs : Option String
  pub topic : String
  pub publish_topics : List String
  pub payload_sizes : List ℕ
  pub listen_topic : String
  pub go_ms : ℕ

abbrev pub max_queued : ℕ
max_queued = 10000

abbrev pub fixed_rate_inflight : ℕ
fixed_rate_inflight = 256

-- int(...) or None
abbrev pub or_none : ℕ → Option ℕ
or_none zero = none
or_none (suc n) = some (suc n)

-- clean_session and max_queued_bytes are left to their defaults.
unfoldable pub adapter_options : Config → Point → Arguments
adapter_options cfg p = record {
  client_id = cfg.client_id;
  protocol = p.protocol;
  clean_session = true;
  max_inflight = if p.rate == 0 then p.window else fixed_rate_inflight;
  max_queued = max_queued;
  max_queued_bytes = none;
  tls_ca_certs = cfg.tls_ca_certs;
  receive_maximum = or_none p.receive_maximum;
}

-- The adapter of run_sync, and that of run_async.
unfoldable pub build_adapter :
    Libraries
    → (String → String)
    → Shape
    → Config
    → Point
    → Result RegistryError (Class × Arguments)
unfolding adapter_options create_adapter create_async_adapter
build_adapter libs fold sync cfg p = create_adapter libs fold cfg.client (adapter_options cfg p)
build_adapter libs fold _ cfg p = create_async_adapter libs cfg.client (adapter_options cfg p)

-- What _wire_receive installs: one callback, or one for each of `n` filters with on_unmatched behind
-- them. The flag says whether messages are stamped.
pub data Wiring : Type 0 where
  nothing : Wiring
  one_callback : Bool → Wiring
  by_filter : ℕ → Bool → Wiring

unfoldable pub wire_receive : Point → Wiring
wire_receive p =
    let stamped = not (p.rate == 0) in
    if receives p.kind
    then if p.filters == 0 then one_callback stamped else by_filter p.filters stamped
    else nothing

pub data RouteError : Type 0 where
  no_properties : String → RouteError

-- `built profile` says that the adapter builds PUBLISH properties for the profile.
unfoldable pub route_publishes : (String → Bool) → Config → Point → Result RouteError Route
unfolding routed_publish
route_publishes built cfg p =
    let profile = if p.topic_alias then "alias" else p.properties in
    if (length cfg.publish_topics == 1) && str_eq profile "none"
    then ok unrouted
    else if not (str_eq profile "none") && not (built profile)
    then err (no_properties profile)
    else ok (routed_publish cfg.publish_topics p.topic_alias)

-- run.sent - run.done - run.failed
unfoldable pub outstanding : Run → ℤ
outstanding run = sub_ℕ run.sent (run.done + run.failed)

pub data Loop : Type 0 where
  no_loop : Loop
  capacity_loop : Shape → ℕ → Loop
  fixed_loop : Shape → ℕ → Loop

-- Which loop of bench/drive.py the worker runs.
unfoldable pub chosen_loop : Shape → Point → Loop
chosen_loop shape p =
    if is_kind p.kind publish && (p.rate == 0)
    then capacity_loop shape p.window
    else if sends_messages p.kind
    then fixed_loop shape p.rate
    else no_loop

-- The rate, start and end that the worker gives a fixed-rate loop.
abbrev pub fixed_offer : Point → Go → Offer
fixed_offer p go = record { rate = p.rate; t_start = go.t_start; t_end = go.t_end }

-- The histogram of the lags, and how many of the messages due were never published.
unfoldable pub lag_histogram : Run → Point → Go → Histogram × ℕ
unfolding window_lags from_values
lag_histogram run p go =
    let (lags, unsent) = window_lags run p.rate go.t_start go.t_measure go.t_end in
    (from_values lags, unsent)

-- self.latencies[lo:hi]
unfoldable pub window_latencies : Run → Snapshot → Snapshot → List ℤ
window_latencies run start end =
    let lo = min start.received (length run.latencies) in
    let hi = min end.received (length run.latencies) in slice lo hi run.latencies

pub record WorkerResult : Type 0 where
  pub shape : Shape
  pub window_ns : Option ℤ
  pub measure : Option Snapshot
  pub end : Option Snapshot
  pub final : Snapshot
  pub latency_overflow : ℕ
  pub send_overflow : ℕ
  pub latency : Option Histogram
  pub lag : Option (Histogram × ℕ)

abbrev pub window_of : Option Snapshot → Option Snapshot → Option ℤ
window_of (some start) (some end) = some (sub_ℕ end.at_ns start.at_ns)
window_of _ _ = none

abbrev pub latency_of : Run → Option Snapshot → Option Snapshot → Option Histogram
latency_of run (some start) (some end) =
    if length run.latencies == 0 then none else some (from_values (window_latencies run start end))
latency_of run _ _ = none

unfoldable pub result :
    Run → Point → Option Snapshot → Option Snapshot → Snapshot → Go → Shape → WorkerResult
unfolding lag_histogram window_latencies
result run p start end final go shape = record {
  shape = shape;
  window_ns = window_of start end;
  measure = start;
  end = end;
  final = final;
  latency_overflow = run.latency_overflow;
  send_overflow = run.send_overflow;
  latency = latency_of run start end;
  lag = if length run.sends == 0 then none else some (lag_histogram run p go);
}
