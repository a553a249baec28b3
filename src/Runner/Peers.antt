-- ===== src/Runner/Peers.antt =====
-- bench/runner.py, _peer_plan and the start of the parties, and the arguments of bench/peer.py.
use Prim.Native.String.{String, len, ◌++◌ as append}
use text.Mathlib.Text.{◌==◌ as str_eq}
use mqtt_python_client_bench.Prelude.{
  ℕ, ltb, ◌==◌, Bool, true, false, not, Option, none, some, List, [], ◌∷◌, ◌++◌, if◌then◌else◌,
  ◌&&◌, Result, ok, err, ◌>>=◌,
}
use mqtt_python_client_bench.Checks.{Kind, publish, subscribe, rtt, duplex, idle}
use mqtt_python_client_bench.Catalog.{Point}
use mqtt_python_client_bench.Runner.{data_topic, reply_topic, payload_sizes}

pub data Mode : Type 0 where
  sink source echo : Mode

-- The arguments of peer.command.
pub record Command : Type 0 where
  pub mode : Mode
  pub topic : String
  pub client_id : String
  pub qos : ℕ
  pub protocol : String
  pub topics : ℕ
  pub payload : ℕ
  pub rate : ℕ
  pub reply : Option String
  pub reply_qos : ℕ
  pub properties : Bool
  pub sizes : List ℕ

abbrev pub mode_text : Mode → String
mode_text sink = "sink"
mode_text source = "source"
mode_text echo = "echo"

abbrev pub commas : (ℕ → String) → List ℕ → String
commas str [] = ""
commas str (n ∷ []) = str n
commas str (n ∷ m ∷ ns) = append (str n) (append "," (commas str (m ∷ ns)))

-- reply_topic or f"{topic}/reply"
abbrev pub reply_or : Option String → String → String
reply_or none topic = append topic "/reply"
reply_or (some r) topic = if str_eq r "" then append topic "/reply" else r

abbrev pub mode_arguments : (ℕ → String) → Command → Mode → List String
mode_arguments str c source =
    ("--payload" ∷ str c.payload ∷ "--rate" ∷ str c.rate ∷ [])
    ++ (if c.properties then "--props" ∷ [] else [])
mode_arguments str c sink = elim c.sizes [ [] ↦ [] | n ∷ ns ↦ "--sizes" ∷ commas str (n ∷ ns) ∷ [] ]
mode_arguments str c echo =
    "--reply-topic" ∷ reply_or c.reply c.topic ∷ "--reply-qos" ∷ str c.reply_qos ∷ []

-- The defaults of peer.command, and what _peer_plan passes to every peer.
abbrev pub common : Mode → Point → String → String → Command
common mode p topic client_id = record {
  mode = mode;
  topic = topic;
  client_id = client_id;
  qos = p.qos;
  protocol = p.protocol;
  topics = p.topics;
  payload = 256;
  rate = 0;
  reply = none;
  reply_qos = 0;
  properties = false;
  sizes = [];
}

-- What peer.command makes of them, after the program, the host and the port.
unfoldable pub command : (ℕ → String) → Command → List String
command str c =
    mode_text c.mode
      ∷ ("--topic" ∷ c.topic ∷ "--qos" ∷ str c.qos ∷ "--client-id" ∷ c.client_id ∷ [])
    ++ ((if str_eq c.protocol "MQTTv5" then "--v5" ∷ [] else [])
        ++ ((if ltb 1 c.topics then "--topics" ∷ str c.topics ∷ [] else [])
            ++ mode_arguments str c c.mode))

-- (record key, command, starts before the worker)
abbrev pub Planned : Type 0
Planned = String × Command × Bool

abbrev pub sink_of : Point → String → Command
sink_of p run_id = record (common sink p (data_topic p run_id) (append "peer-" run_id)) {
  sizes = payload_sizes p (len (data_topic p run_id));
}

abbrev pub source_of : Point → String → String → ℕ → Command
source_of p topic client_id rate = record (common source p topic client_id) {
  payload = p.payload;
  rate = rate;
  properties = not (str_eq p.properties "none");
}

unfoldable pub plan_of : ℕ → Kind → Point → String → List Planned
plan_of sub_offer publish p run_id = ("peer", sink_of p run_id, true) ∷ []
plan_of sub_offer subscribe p run_id =
    (
      "peer",
      source_of p (data_topic p run_id) (append "peer-" run_id)
          (if p.rate == 0 then sub_offer else p.rate),
      false,
    )
    ∷ []
plan_of sub_offer rtt p run_id =
    (
      "peer",
      record (common echo p (data_topic p run_id) (append "peer-" run_id)) {
        reply = some (reply_topic run_id);
        reply_qos = p.qos;
      },
      true,
    )
    ∷ []
plan_of sub_offer duplex p run_id =
    ("peer", sink_of p run_id, true)
    ∷ ("peer_source", source_of p (reply_topic run_id) (append "peer-src-" run_id) p.rate, false)
    ∷ []
plan_of sub_offer idle p run_id = []

-- _peer_plan
abbrev pub peer_plan : ℕ → Point → String → List Planned
peer_plan sub_offer p run_id = plan_of sub_offer p.kind p run_id

-- ------------------------------------------------------------------ the start

pub data Party : Type 0 where
  worker : Party
  peer : String → Command → Party

-- f"{key} not ready"
pub data StartError : Type 0 where
  not_ready : String → StartError

abbrev pub same_turn : Bool → Bool → Bool
same_turn true b = b
same_turn false b = not b

-- `ready key` says that the party reports itself ready in time. The parties so far come first.
unfoldable pub start_peers :
    (String → Bool) → Bool → List Planned → List Party → Result StartError (List Party)
start_peers ready before [] started = ok started
start_peers ready before ((key, c, first) ∷ plan) started =
    let turn = same_turn first before in
    let rest =
      start_peers ready before plan (if turn then started ++ (peer key c ∷ []) else started) in
    if turn && not (ready key) then err (not_ready key) else rest

-- The parties of a run, in the order in which they reported ready.
unfoldable pub start_parties : (String → Bool) → List Planned → Result StartError (List Party)
unfolding start_peers
start_parties ready plan = start_peers ready true plan [] >>= λ earlier.
    (if ready "worker"
      then start_peers ready false plan (earlier ++ (worker ∷ []))
      else err (not_ready "worker"))
