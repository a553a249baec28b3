-- ===== src/Adapters/Clients.antt =====
-- The `capabilities` of the eight adapters of adapters/, as they declare them of their libraries.
use mqtt_python_client_bench.Prelude.{true, false, []}
use mqtt_python_client_bench.Adapters.{AdapterCapabilities, capabilities}

abbrev pub paho : AdapterCapabilities
paho = record (capabilities "paho") {
  sync_api = true;
  async_bridged = false;
  mqtt_v311 = true;
  mqtt_v5 = true;
  qos2 = true;
  tls = true;
  max_inflight = true;
  max_queued = true;
  message_callback_add = true;
  native_message_callback_add = true;
  v5_publish_properties = true;
  v5_topic_alias = true;
  v5_receive_maximum = true;
  stability = "stable";
  io_model = "sync";
  completion_mechanism = "sync";
  implementation_language = "python";
}

abbrev pub gmqtt : AdapterCapabilities
gmqtt = record (capabilities "gmqtt") {
  sync_api = false;
  async_bridged = true;
  mqtt_v311 = true;
  mqtt_v5 = true;
  qos2 = false;
  tls = true;
  max_inflight = false;
  max_queued = false;
  message_callback_add = true;
  native_message_callback_add = false;
  v5_publish_properties = true;
  v5_topic_alias = true;
  v5_receive_maximum = true;
  stability = "stable";
  io_model = "asyncio";
  implementation_language = "python";
  completion_mechanism = "callback";
  native_async = true;
  publish_sync_on_loop = true;
  synthetic_mids = true;
  unimplemented = [];
}

abbrev pub aiomqtt : AdapterCapabilities
aiomqtt = record (capabilities "aiomqtt") {
  sync_api = false;
  async_bridged = true;
  mqtt_v311 = true;
  mqtt_v5 = true;
  qos2 = true;
  tls = true;
  max_inflight = true;
  max_queued = true;
  message_callback_add = true;
  native_message_callback_add = false;
  v5_publish_properties = true;
  v5_topic_alias = true;
  v5_receive_maximum = true;
  stability = "stable";
  io_model = "asyncio";
  implementation_language = "python";
  completion_mechanism = "awaited";
  native_async = true;
  publish_sync_on_loop = false;
  synthetic_mids = true;
  unimplemented = [];
}

abbrev pub amqtt : AdapterCapabilities
amqtt = record (capabilities "amqtt") {
  sync_api = false;
  async_bridged = true;
  mqtt_v311 = true;
  mqtt_v5 = false;
  qos2 = true;
  tls = true;
  max_inflight = false;
  max_queued = false;
  message_callback_add = true;
  native_message_callback_add = false;
  v5_publish_properties = false;
  stability = "stable";
  io_model = "asyncio";
  implementation_language = "python";
  completion_mechanism = "awaited";
  native_async = true;
  publish_sync_on_loop = false;
  synthetic_mids = true;
  unimplemented = [];
}

abbrev pub awscrt : AdapterCapabilities
awscrt = record (capabilities "awscrt") {
  sync_api = true;
  async_bridged = false;
  mqtt_v311 = true;
  mqtt_v5 = true;
  qos2 = false;
  tls = true;
  max_inflight = false;
  max_queued = false;
  message_callback_add = true;
  native_message_callback_add = false;
  v5_publish_properties = true;
  stability = "stable";
  io_model = "crt_event_loop";
  implementation_language = "native";
  completion_mechanism = "callback";
  synthetic_mids = true;
  tcp_nodelay = false;
}

abbrev pub zmqtt : AdapterCapabilities
zmqtt = record (capabilities "zmqtt") {
  sync_api = false;
  async_bridged = true;
  mqtt_v311 = true;
  mqtt_v5 = true;
  qos2 = true;
  tls = true;
  max_inflight = false;
  max_queued = false;
  message_callback_add = true;
  native_message_callback_add = false;
  v5_publish_properties = true;
  v5_receive_maximum = true;
  stability = "experimental";
  io_model = "asyncio";
  implementation_language = "python";
  completion_mechanism = "awaited";
  native_async = true;
  publish_sync_on_loop = false;
  synthetic_mids = true;
}

abbrev pub aiomqtt3 : AdapterCapabilities
aiomqtt3 = record (capabilities "aiomqtt3") {
  sync_api = false;
  async_bridged = true;
  mqtt_v311 = false;
  mqtt_v5 = true;
  qos2 = false;
  tls = true;
  max_inflight = false;
  max_queued = false;
  message_callback_add = true;
  native_message_callback_add = false;
  v5_publish_properties = false;
  v5_receive_maximum = true;
  stability = "experimental";
  io_model = "asyncio";
  implementation_language = "python";
  completion_mechanism = "awaited";
  native_async = true;
  publish_sync_on_loop = false;
  synthetic_mids = true;
}

abbrev pub mqttium : AdapterCapabilities
mqttium = record (capabilities "mqttium") {
  sync_api = false;
  async_bridged = true;
  mqtt_v311 = true;
  mqtt_v5 = true;
  qos2 = true;
  tls = true;
  max_inflight = true;
  max_queued = true;
  max_queued_bytes = true;
  message_callback_add = true;
  native_message_callback_add = true;
  v5_publish_properties = true;
  v5_topic_alias = true;
  v5_receive_maximum = true;
  stability = "stable";
  io_model = "asyncio";
  implementation_language = "python";
  completion_mechanism = "callback";
  native_async = true;
  publish_sync_on_loop = true;
  synthetic_mids = true;
  tcp_nodelay = true;
}
