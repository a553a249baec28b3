-- ===== src/Lib.antt =====
-- A model of mqtt-python-client-bench, a benchmark of Python MQTT clients. A campaign runs each
-- client on each point of a catalogue. A run drives one client in a worker process against a C peer
-- and a broker; its counts and latencies are checked, and a run that says nothing of its client is
-- retried once. The files under src/mqtt_client_bench that are modelled:
--
--   Histogram   bench/histogram.py  sparse log-linear histograms: from_values, merge, percentile
--   Drive       bench/drive.py      the counters of a run, the schedule of a fixed offer (due_ns,
--                                   _owed, window_lags), pub_fixed_sync and pub_fixed_nowait
--                                   (Drive.Fixed), pub_fixed_awaited (Drive.Credits),
--                                   pub_capacity_sync (Drive.Capacity), pub_capacity_nowait
--                                   (Drive.Refill), pub_capacity_awaited (Drive.Awaited),
--                                   payloads, routes and message callbacks (Drive.Payloads)
--   Checks      bench/checks.py     evaluate: the checks on the record of a run, its status and flags
--   Campaign    bench/campaign.py   plan, Store, and the refusals and passes of run_campaign;
--                                   resume_settings, _mismatches and the manifest with which
--                                   run_campaign starts or goes on (Campaign.Resume)
--   Sysprobe    bench/sysprobe.py   _varint, the packets in the stream of SysProbe._loop, and
--                                   _on_publish, snapshot and delta (Sysprobe.Counters)
--   Catalog     bench/catalog.py    Point and its record, every point of every suite, resolve
--   Adapters    adapters/base.py, adapters/registry.py and the capabilities and create of the
--                                   adapters (Adapters.Clients, Adapters.Classes):
--                                   missing_for_point, the registries, create_adapter; refusals of
--                                   bench/runner.py; adapters/mqttium_async.py, publish_nowait and
--                                   the completions (Adapters.Mqttium)
--   Worker      bench/worker.py     read_go, the capacities, the adapter's options and construction,
--                                   the wiring, the choice of the loop, the lags and the result
--   Runner      bench/runner.py     run_topics, fanout_topics, payload_sizes, _peer_plan, the worker's
--                                   configuration, the order of the start and the schedule of
--                                   run_once; the arguments of bench/peer.py, and what
--                                   peer/mqtt_peer.c subscribes to and publishes on
--   Bridge      adapters/async_bridge.py  the hand-off from threads to the loop (Bridge.Handoff),
--                                   the pool of workers (Bridge.Pool), topic_matches_sub
--                                   (Bridge.Topics), alloc_mid, message_callback_add and
--                                   _dispatch_message (Bridge.Base)
--   Procstat    bench/procstat.py   parse_process_stat, attribute and process_delta
--   Report      report/data.py      _final_attempts, and the Cell of a point and a client with its
--                                   state; the runtimes that load_campaign refuses to show together,
--                                   Campaign.comparable and select_campaign (Report.Selection);
--                                   Cell.value, a median or a quantile, and Cell.bounded
--                                   (Report.Figures); the cells that load_campaign makes,
--                                   expected_runs and done_runs (Report.Progress)
--   Dict        Python's dict, in insertion order; Prelude: shared names, tests, lists, integers
--   Tests       small runs of the models, and each property at a concrete input
--
-- The parts meet where the program's do: the loops of Drive fill the counters that Checks reads
-- from the worker's result, the status of Checks decides in Campaign whether a key is retried, and
-- the latencies and the lags that Drive records are what Histogram bins. A point of the Catalog
-- says what Adapters refuses, and Worker builds the adapter and the arrays of Drive from it; a
-- message that an adapter receives reaches the callbacks of Drive through Bridge. Runner fixes the
-- schedule that the loops of Drive follow, and the topics and sizes that Worker publishes with.
-- Report reads the store that Campaign leaves.
--
-- Names are the source's, without a leading underscore. A method takes its object as an argument
-- and returns it changed. A function that the source writes in one piece, such as `evaluate`, is
-- cut into one function for each section, composed in the order of the source.
--
-- Times are nanoseconds on the native numbers, which Python's integers are where they are not
-- negative; values that can be negative are integers (Prelude.Int). Where the source computes with
-- floats the model is exact: a midpoint of a bucket is given in half nanoseconds, a median in
-- halves of its unit, a quantile is a fraction, the shares 0.98, 0.85, 0.5 and 0.0005 of Checks are
-- ratios compared by multiplying out.
--
-- Fuel: `loop` of Drive.Fixed takes one unit for each round. `rounds` is one for each tick of the
-- offer and two more, which is enough because each deadline is a tick later than the last and a
-- sleep ends no earlier than its deadline. `bits` of Histogram.Bits halves a number as often as the
-- number says, which reaches 0; `varint_loop` of Sysprobe does so by 128, and its `packets_loop`
-- takes one unit for each byte, of which a packet has at least one. All other functions are
-- structural.
--
-- What the code meets and does not contain is a parameter: the outcome of a publish and the clock
-- (Drive.Fixed.Env, with IsClock for a clock that is monotonic and honours a deadline), the order
-- in which coroutines and threads proceed (Drive.Credits.Step, Drive.Capacity.Access,
-- Drive.Refill.Event, Drive.Awaited.Meets, Bridge.Handoff.Move and Bridge.Pool.Turn, in which any
-- interleaving is a run), the status that a run returns and the pairs that a client refuses
-- (Campaign), the strip and lower of a text (`fold`), a number as text (`str`) and its reading
-- (`int`), the text of bytes (`decode`), whether a party reports itself ready (Runner), what the
-- MQTT library admits and completes (Adapters.Mqttium.Admission and Event), and the values that
-- describe an environment (Campaign.Resume). A coroutine or a callback is a number by which it is
-- told apart. go_s and the phases of a profile are milliseconds.
--
-- Not modelled: the metrics and the text of bench/checks.py; the files, the sessions and
-- noise_summary of bench/campaign.py; the waits and the socket of bench/sysprobe.py; stop,
-- _close_pool and the loop's thread of adapters/async_bridge.py; the host's readings of
-- bench/procstat.py; bench/cpus.py; the events and the timer of bench/worker.py; the readings,
-- processes and files of bench/runner.py; session.py, peer.py's build, envs.py, runtime.py,
-- sampling.py and broker.py; the command line; what the adapters call of one client library each;
-- the flags of a cell and the pages of the report; and the loops of the C peer.
mod Prelude
pub mod Dict
pub mod Histogram
pub mod Drive
pub mod Checks
pub mod Campaign
pub mod Sysprobe
pub mod Catalog
pub mod Adapters
pub mod Worker
pub mod Report
pub mod Runner
pub mod Procstat
pub mod Bridge
pub mod Tests
