-- ===== src/Tests/CatalogRuns.antt =====
-- bench/catalog.py, adapters/base.py and adapters/registry.py on points of the catalogue.
use mqtt_python_client_bench.Prelude.{◌≡◌, ◌↔◌, refl, true, [], ◌∷◌}
use mqtt_python_client_bench.Dict.{get}
use mqtt_python_client_bench.Checks.{publish}
use mqtt_python_client_bench.Catalog.{Point, as_dict, asdict, drop_defaults, del}
use mqtt_python_client_bench.Catalog.Points.{ext}
use mqtt_python_client_bench.Catalog.Recorded.{point_of, point_of-as_dict}
use mqtt_python_client_bench.Adapters.{missing_for_point, lacks}
use mqtt_python_client_bench.Adapters.Clients.{amqtt, gmqtt}
use mqtt_python_client_bench.Adapters.Supports.{Supports, missing_for_point-nil_iff}

abbrev aliased : Point
aliased = record (ext "pub_alias" publish "With an alias?") {
  qos = 1;
  rate = 2000;
  protocol = "MQTTv5";
  topic_alias = true;
}

point_of-as_dict_example : point_of (as_dict aliased) ≡ aliased
point_of-as_dict_example = point_of-as_dict aliased

missing_for_point-nil_iff_example :
    (missing_for_point gmqtt (as_dict aliased) ≡ []) ↔ Supports gmqtt aliased
missing_for_point-nil_iff_example = missing_for_point-nil_iff gmqtt aliased

lacks_alias : missing_for_point amqtt (as_dict aliased) ≡ "mqtt_v5" ∷ "v5_topic_alias" ∷ []
unfolding missing_for_point lacks as_dict asdict drop_defaults del get
lacks_alias = refl
