-- ===== src/Runner.antt =====
-- bench/runner.py: what a run is made of. Its parties are the worker and C peers, which start in an
-- order (Runner.Peers); each has its topics; and all get one schedule. The text of a number is a
-- parameter, `str`, and so is the path of the certificate.
pub mod Arrays
pub mod Peers
pub mod Order
pub mod Sizes
use Prim.Native.String.{String, len, ◌++◌ as append}
use text.Mathlib.Text.{◌==◌ as str_eq}
use mqtt_python_client_bench.Prelude.{
  ℕ, zero, suc, ◌+◌, ◌-◌, ◌*◌, ◌/◌, ◌%◌, ltb, ◌==◌, Bool, true, false, not, Option, none, some,
  List, [], ◌∷◌, ◌++◌, if◌then◌else◌, ◌&&◌, Result, ok, err, ◌>>=◌, length,
}
use mqtt_python_client_bench.Checks.{Kind, publish, subscribe, rtt, duplex, idle, is_kind}
use mqtt_python_client_bench.Catalog.{Point, Profile}
use mqtt_python_client_bench.Worker.{Config, Go}

abbrev pub start_lead_ns : ℕ
start_lead_ns = 300000000

abbrev pub alias_topic_bytes : ℕ
alias_topic_bytes = 200

-- "t" * n
abbrev pub repeat_t : ℕ → String
repeat_t zero = ""
repeat_t (suc n) = append "t" (repeat_t n)

-- f"bench/{run_id}/"
abbrev pub topic_base : String → String
topic_base run_id = append "bench/" (append run_id "/")

unfoldable pub data_topic : Point → String → String
data_topic p run_id =
    if p.topic_alias
    then append (topic_base run_id) (repeat_t (alias_topic_bytes - len (topic_base run_id)))
    else append (topic_base run_id) "data"

abbrev pub reply_topic : String → String
reply_topic run_id = append (topic_base run_id) "reply"

-- [f"{base}/{i // 10}/{i % 10}" for i in range(n)], from an index on
abbrev pub topics_from : (ℕ → String) → String → ℕ → ℕ → List String
topics_from str base i zero = []
topics_from str base i (suc n) =
    append base (append "/" (append (str (i / 10)) (append "/" (str (i % 10)))))
    ∷ topics_from str base (suc i) n

abbrev pub fanout_topics : (ℕ → String) → String → ℕ → List String
fanout_topics str base n = topics_from str base 0 n

-- overhead = 2 + len(topic.encode()) + (2 if qos) + (1 if MQTTv5)
abbrev pub overhead : Point → ℕ → ℕ
overhead p topic_bytes =
    2 + topic_bytes + (if p.qos == 0 then 0 else 2) + (if str_eq p.protocol "MQTTv5" then 1 else 0)

abbrev pub less : ℕ → List ℕ → List ℕ
less n [] = []
less n (rl ∷ lengths) = (rl - n) ∷ less n lengths

abbrev pub sizes_of : List ℕ → ℕ → ℕ → List ℕ
sizes_of [] used payload = payload ∷ []
sizes_of (rl ∷ lengths) used payload = less used (rl ∷ lengths)

-- A size that would be negative is 0 here. The worker refuses both for a fixed offer, and for a capacity
-- both give the empty payload.
unfoldable pub payload_sizes : Point → ℕ → List ℕ
payload_sizes p topic_bytes = sizes_of p.remaining_lengths (overhead p topic_bytes) p.payload

-- put_str of the C peer: the length of a text in two bytes, and its bytes.
unfoldable pub put_str : List ℕ → List ℕ
put_str text = (length text / 256 % 256) ∷ (length text % 256) ∷ text

-- if (qos) ..., with the packet identifier that the send fills in
abbrev pub id_bytes : ℕ → ℕ → List ℕ
id_bytes zero id = []
id_bytes (suc qos) id = (id / 256 % 256) ∷ (id % 256) ∷ []

-- if (g_v5) ..., for properties of less than 128 bytes
abbrev pub property_bytes : Bool → List ℕ → List ℕ
property_bytes true properties = length properties ∷ properties
property_bytes false properties = []

-- A PUBLISH after its remaining length, as build_publish of the C peer lays it out.
unfoldable pub publish_body : Bool → ℕ → ℕ → List ℕ → List ℕ → List ℕ → List ℕ
unfolding put_str
publish_body v5 qos id topic properties payload =
    put_str topic ++ (id_bytes qos id ++ (property_bytes v5 properties ++ payload))

abbrev pub under : String → ℕ → String
under topic n = if ltb 1 n then append topic "/#" else topic

-- What the client subscribes to, where it receives.
unfoldable pub listen_topic : Kind → Point → String → String
listen_topic rtt p run_id = reply_topic run_id
listen_topic duplex p run_id = reply_topic run_id
listen_topic _ p run_id = under (data_topic p run_id) p.topics

abbrev pub publish_topics : (ℕ → String) → String → ℕ → List String
publish_topics str topic n = if ltb 1 n then fanout_topics str topic n else topic ∷ []

-- profile.warmup_s + profile.measure_s + profile.drain_s
abbrev pub schedule_ms : Profile → ℕ
schedule_ms profile = profile.warmup_ms + profile.measure_ms + profile.drain_ms

unfoldable pub config : (ℕ → String) → String → String → Point → Profile → String → Config
config str ca_cert client p profile run_id =
    let topic = data_topic p run_id in
    record {
      client = client;
      client_id = append "sut-" run_id;
      tls_ca_certs = if p.tls then some ca_cert else none;
      topic = topic;
      publish_topics = publish_topics str topic p.topics;
      payload_sizes = payload_sizes p (len topic);
      listen_topic = listen_topic p.kind p run_id;
      go_ms = schedule_ms profile;
    }

-- The schedule that a run fixes at `now`, and the words of the GO line that tells it.
unfoldable pub schedule : Profile → ℕ → Go
schedule profile now =
    let t_start = now + start_lead_ns in
    let t_measure = t_start + profile.warmup_ms * 1000000 in
    let t_end = t_measure + profile.measure_ms * 1000000 in
    record {
      t_start = t_start;
      t_measure = t_measure;
      t_end = t_end;
      t_stop = t_end + profile.drain_ms * 1000000;
    }

unfoldable pub go_words : (ℕ → String) → Go → List String
go_words str go = "GO" ∷ str go.t_start ∷ str go.t_measure ∷ str go.t_end ∷ str go.t_stop ∷ []
