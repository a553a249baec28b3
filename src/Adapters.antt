-- ===== src/Adapters.antt =====
-- adapters/base.py: the feature matrix of a client library, and what a point needs that it lacks. The
-- notes of a matrix, which are prose, are left out.
pub mod Clients
pub mod Classes
pub mod Mqttium
pub mod Registry
pub mod Supports
use Prim.Native.String.{String, ◌++◌ as append}
use text.Mathlib.Text.{◌==◌ as str_eq}
use mqtt_python_client_bench.Prelude.{
  ℕ, Bool, true, false, not, List, [], ◌∷◌, ◌++◌, ltb, leb, if◌then◌else◌, ◌&&◌, ◌||◌,
}
use mqtt_python_client_bench.Dict.{Dict}
use mqtt_python_client_bench.Catalog.{
  Value, text_value, number, flag, read, text_of, number_of, flag_of,
}

pub record AdapterCapabilities : Type 0 where
  pub name : String
  pub sync_api : Bool
  pub async_bridged : Bool
  pub mqtt_v311 : Bool
  pub mqtt_v5 : Bool
  pub qos2 : Bool
  pub tls : Bool
  pub max_inflight : Bool
  pub max_queued : Bool
  pub max_queued_bytes : Bool
  pub message_callback_add : Bool
  pub native_message_callback_add : Bool
  pub v5_publish_properties : Bool
  pub v5_topic_alias : Bool
  pub v5_receive_maximum : Bool
  pub reconnect : Bool
  pub stability : String
  pub io_model : String
  pub implementation_language : String
  pub completion_mechanism : String
  pub native_async : Bool
  pub publish_sync_on_loop : Bool
  pub synthetic_mids : Bool
  pub tcp_nodelay : Bool
  pub unimplemented : List String

-- AdapterCapabilities(name), the rest at the defaults.
abbrev pub capabilities : String → AdapterCapabilities
capabilities name = record {
  name = name;
  sync_api = true;
  async_bridged = false;
  mqtt_v311 = true;
  mqtt_v5 = false;
  qos2 = true;
  tls = true;
  max_inflight = false;
  max_queued = false;
  max_queued_bytes = false;
  message_callback_add = false;
  native_message_callback_add = false;
  v5_publish_properties = false;
  v5_topic_alias = false;
  v5_receive_maximum = false;
  reconnect = true;
  stability = "stable";
  io_model = "sync";
  implementation_language = "python";
  completion_mechanism = "sync";
  native_async = false;
  publish_sync_on_loop = false;
  synthetic_mids = false;
  tcp_nodelay = true;
  unimplemented = [];
}

-- if missing: missing.append(feature)
unfoldable pub lacks : Bool → String → List String
lacks true feature = feature ∷ []
lacks false feature = []

abbrev pub publishes : String → Bool
publishes kind = str_eq kind "pub" || (str_eq kind "rtt" || str_eq kind "duplex")

abbrev pub sends_properties : Dict String Value → Bool
sends_properties point =
    not (str_eq (text_of (read point "properties" (text_value "none"))) "none")
    && publishes (text_of (read point "kind" (text_value "")))

-- [prefix + item for item in items]
abbrev pub prefixed : String → List String → List String
prefixed prefix [] = []
prefixed prefix (item ∷ items) = append prefix item ∷ prefixed prefix items

unfoldable pub missing_for_point : AdapterCapabilities → Dict String Value → List String
missing_for_point caps point =
    let protocol = text_of (read point "protocol" (text_value "MQTTv311")) in
    lacks (str_eq protocol "MQTTv5" && not caps.mqtt_v5) "mqtt_v5"
    ++ (lacks (str_eq protocol "MQTTv311" && not caps.mqtt_v311) "mqtt_v311"
        ++ (lacks (leb 2 (number_of (read point "qos" (number 0))) && not caps.qos2) "qos2"
            ++ (lacks (flag_of (read point "tls" (flag false)) && not caps.tls) "tls"
                ++ (lacks
                      (ltb 0 (number_of (read point "filters" (number 0)))
                        && not caps.native_message_callback_add)
                      "native_message_callback_add"
                    ++ (lacks (sends_properties point && not caps.v5_publish_properties)
                          "v5_publish_properties"
                        ++ (lacks
                              (flag_of (read point "topic_alias" (flag false))
                                && not caps.v5_topic_alias)
                              "v5_topic_alias"
                            ++ (lacks
                                  (ltb 0 (number_of (read point "receive_maximum" (number 0)))
                                    && not caps.v5_receive_maximum)
                                  "v5_receive_maximum"
                                ++ prefixed "adapter:" caps.unimplemented)))))))
