-- ===== src/Tests/WorkerRuns.antt =====
-- bench/worker.py at a fixed offer.
use mqtt_python_client_bench.Prelude.{◌≡◌, refl, true, none, [], ◌∷◌, ok, err, inl}
use mqtt_python_client_bench.Dict.{get}
use mqtt_python_client_bench.Checks.{publish}
use mqtt_python_client_bench.Catalog.{Point, point, as_dict, asdict, drop_defaults, del}
use mqtt_python_client_bench.Adapters.{missing_for_point, lacks}
use mqtt_python_client_bench.Adapters.Classes.{Libraries, construct, unexpected_keyword}
use mqtt_python_client_bench.Adapters.Registry.{
  get_adapter_class, refusals, create, create_adapter, receive_maximum,
}
use mqtt_python_client_bench.Worker.{
  Go, Config, sync, build_adapter, adapter_options, send_capacity,
}
use mqtt_python_client_bench.Worker.Creation.{Built, build_adapter-refusals}

-- 10 messages per second over MQTT 5, with topic aliases.
abbrev aliased : Point
aliased = record (point "pub_alias" publish "With an alias?") {
  qos = 1;
  rate = 10;
  protocol = "MQTTv5";
  topic_alias = true;
}

abbrev config : Config
config = record {
  client = "mqttium";
  client_id = "bench";
  tls_ca_certs = none;
  topic = "bench/t";
  publish_topics = "bench/t" ∷ [];
  payload_sizes = 256 ∷ [];
  listen_topic = "bench/t";
  go_ms = 1000;
}

accepted : refusals (λ s. s) "mqttium" aliased ≡ ok []
unfolding refusals get_adapter_class missing_for_point lacks as_dict asdict drop_defaults del get
accepted = refl

-- Every library is installed and makes its client.
abbrev libraries : Libraries
libraries = record {
  installed = λ client. true;
  has_constant = λ protocol. true;
  makes = λ client args. true;
}

-- The sync class of mqttium declares that it can set a Receive Maximum, and its `create` takes none.
sync_mqttium :
    build_adapter libraries (λ s. s) sync config (record aliased { receive_maximum = 10 })
    ≡ err (unexpected_keyword "receive_maximum")
unfolding build_adapter adapter_options create_adapter get_adapter_class create receive_maximum
    construct get
sync_mqttium = refl

build_adapter-refusals_example : Built libraries (λ s. s) config aliased
build_adapter-refusals_example =
    build_adapter-refusals libraries (λ s. s) config aliased refl accepted (inl refl)
      (record { installed = refl; makes = refl; has_v5 = refl; has_v311 = refl })

abbrev go : Go
go = record { t_start = 100; t_measure = 500000100; t_end = 1000000100; t_stop = 1200000100 }

capacity : send_capacity aliased 1000 ≡ 1034
unfolding send_capacity
capacity = refl
