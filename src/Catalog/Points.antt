-- ===== src/Catalog/Points.antt =====
-- bench/catalog.py: the suites.
use Prim.Native.String.{String, ◌++◌ as append}
use text.Mathlib.Text.{◌==◌ as str_eq}
use mqtt_python_client_bench.Prelude.{ℕ, Bool, true, List, [], ◌∷◌, if◌then◌else◌, ◌||◌}
use mqtt_python_client_bench.Checks.{Kind, publish, subscribe, rtt, duplex, idle}
use mqtt_python_client_bench.Catalog.{Point, point}

abbrev pub offered_rate : ℕ
offered_rate = 2000

abbrev pub rtt_rate : ℕ
rtt_rate = 1000

abbrev pub core : List Point
core =
    record (point "pub_qos0_max" publish
      "How many QoS 0 messages can the client publish per second?") { qos = 0 }
    ∷ record (point "pub_qos1_max" publish
        "How many QoS 1 messages (PUBACK received) per second, 64 in flight?") { qos = 1 }
    ∷ record (point "pub_qos1_fixed" publish
        "At 2,000 QoS 1 msgs/s, what does publishing cost and how long until delivery?") {
          qos = 1;
          rate = offered_rate;
        }
    ∷ record (point "sub_qos0_max" subscribe
        "How many QoS 0 messages can the client receive per second?") { qos = 0 }
    ∷ record (point "sub_qos1_fixed" subscribe
        "At 2,000 QoS 1 msgs/s, what does receiving cost and how late do messages arrive?") {
          qos = 1;
          rate = offered_rate;
        }
    ∷ record (point "rtt_qos1_fixed" rtt
        "At 1,000 requests/s against a neutral echo, what is the application round trip?") {
          qos = 1;
          rate = rtt_rate;
        }
    ∷ record (point "pub_16k_fixed" publish
        "At 1,000 QoS 1 msgs/s of 16 KiB, what do large payloads cost?") {
          qos = 1;
          payload = 16384;
          rate = 1000;
        }
    ∷ point "idle_connect" idle
        "How long does connecting take, and what does an idle connection cost?"
    ∷ []

-- replace(p, name=p.name + "_v5", protocol="MQTTv5", suite="v5")
abbrev pub over_v5 : Point → String → Point
over_v5 p name = record p { name = name; protocol = "MQTTv5"; suite = "v5" }

abbrev pub mirrored : String → Bool
mirrored name =
    str_eq name "pub_qos1_fixed" || (str_eq name "sub_qos1_fixed" || str_eq name "rtt_qos1_fixed")

unfoldable pub mirror : List Point → List Point
mirror [] = []
mirror (p ∷ points) =
    if mirrored p.name then over_v5 p (append p.name "_v5") ∷ mirror points else mirror points

abbrev pub v5_mirror : List Point
v5_mirror = mirror core

abbrev pub low_rate : ℕ
low_rate = 500

abbrev pub high_rate : ℕ
high_rate = 5000

abbrev pub fanout_topics : ℕ
fanout_topics = 1000

abbrev pub filter_count : ℕ
filter_count = 100

abbrev pub rl_boundaries : List ℕ
rl_boundaries = 127 ∷ 128 ∷ 16383 ∷ 16384 ∷ 2097151 ∷ 2097152 ∷ []

abbrev pub ext : String → Kind → String → Point
ext name kind question = record (point name kind question) { suite = "extended" }

abbrev pub extended : List Point
extended =
    record (ext "sub_qos1_max" subscribe
      "How many QoS 1 messages can the client receive per second?") { qos = 1 }
    ∷ record (ext "pub_qos1_max_v5" publish "QoS 1 publish capacity over MQTT 5.") {
      qos = 1;
      protocol = "MQTTv5";
    }
    ∷ record (ext "sub_qos1_max_v5" subscribe "QoS 1 receive capacity over MQTT 5.") {
      qos = 1;
      protocol = "MQTTv5";
    }
    ∷ record (ext "pub_qos1_max_16k" publish "QoS 1 publish capacity with 16 KiB payloads.") {
      qos = 1;
      payload = 16384;
    }
    ∷ record (ext "pub_qos1_fixed_500" publish "At 500 QoS 1 msgs/s, what does publishing cost?") {
      qos = 1;
      rate = low_rate;
    }
    ∷ record (ext "pub_qos1_fixed_5k" publish "At 5,000 QoS 1 msgs/s, what does publishing cost?") {
      qos = 1;
      rate = high_rate;
    }
    ∷ record (ext "sub_qos1_fixed_500" subscribe "At 500 QoS 1 msgs/s, what does receiving cost?") {
      qos = 1;
      rate = low_rate;
    }
    ∷ record (ext "sub_qos1_fixed_5k" subscribe
        "At 5,000 QoS 1 msgs/s, what does receiving cost?") { qos = 1; rate = high_rate }
    ∷ record (ext "rtt_qos0_fixed" rtt "Round trip at 1,000 req/s with QoS 0.") {
      qos = 0;
      rate = rtt_rate;
    }
    ∷ record (ext "pub_qos2_max" publish
        "How many QoS 2 messages (PUBCOMP received) per second, 64 in flight?") { qos = 2 }
    ∷ record (ext "pub_qos2_fixed" publish "At 2,000 QoS 2 msgs/s, what does publishing cost?") {
      qos = 2;
      rate = offered_rate;
    }
    ∷ record (ext "sub_qos2_fixed" subscribe "At 2,000 QoS 2 msgs/s, what does receiving cost?") {
      qos = 2;
      rate = offered_rate;
    }
    ∷ record (ext "pub_fanout_fixed" publish
        "At 2,000 QoS 1 msgs/s spread over 1,000 topics, what does publishing cost?") {
          qos = 1;
          rate = offered_rate;
          topics = fanout_topics;
        }
    ∷ record (ext "sub_fanin_fixed" subscribe
        "At 2,000 QoS 1 msgs/s from 1,000 topics through one wildcard, what does receiving cost?") {
          qos = 1;
          rate = offered_rate;
          topics = fanout_topics;
        }
    ∷ record (ext "sub_filters_fixed" subscribe
        "The same, dispatched to 100 per-filter callbacks (message_callback_add)?") {
          qos = 1;
          rate = offered_rate;
          topics = fanout_topics;
          filters = filter_count;
        }
    ∷ record (ext "duplex_qos1_fixed" duplex
        "Publishing and receiving 1,000 QoS 1 msgs/s each at once, what does it cost?") {
          qos = 1;
          rate = rtt_rate;
        }
    ∷ record (ext "pub_qos1_fixed_tls" publish
        "At 2,000 QoS 1 msgs/s over TLS, what does publishing cost?") {
          qos = 1;
          rate = offered_rate;
          tls = true;
        }
    ∷ record (ext "sub_qos1_fixed_tls" subscribe
        "At 2,000 QoS 1 msgs/s over TLS, what does receiving cost?") {
          qos = 1;
          rate = offered_rate;
          tls = true;
        }
    ∷ record (ext "idle_connect_tls" idle
        "How long does a TLS connect take, and what does an idle TLS connection cost?") {
          tls = true;
        }
    ∷ record (ext "pub_qos1_fixed_v5_props" publish
        "At 2,000 QoS 1 msgs/s with four PUBLISH properties, what does publishing cost?") {
          qos = 1;
          rate = offered_rate;
          protocol = "MQTTv5";
          properties = "realistic";
        }
    ∷ record (ext "sub_qos1_fixed_v5_props" subscribe
        "At 2,000 QoS 1 msgs/s with four PUBLISH properties, what does receiving cost?") {
          qos = 1;
          rate = offered_rate;
          protocol = "MQTTv5";
          properties = "realistic";
        }
    ∷ record (ext "pub_qos1_fixed_v5_alias" publish
        "At 2,000 QoS 1 msgs/s on a 200-byte topic sent as a topic alias, what does publishing cost?") {
          qos = 1;
          rate = offered_rate;
          protocol = "MQTTv5";
          topic_alias = true;
        }
    ∷ record (ext "sub_qos1_max_v5_rm16" subscribe
        "QoS 1 receive capacity when the client allows only 16 unacknowledged deliveries (Receive Maximum).") {
          qos = 1;
          protocol = "MQTTv5";
          receive_maximum = 16;
        }
    ∷ record (ext "pub_64k_fixed" publish
        "At 500 QoS 1 msgs/s of 64 KiB, what does publishing cost?") {
          qos = 1;
          payload = 65536;
          rate = 500;
        }
    ∷ record (ext "pub_1m_fixed" publish
        "At 50 QoS 1 msgs/s of 1 MiB, what does publishing cost?") {
          qos = 1;
          payload = 1048576;
          rate = 50;
        }
    ∷ record (ext "pub_rl_boundaries" publish
        "Are packets on each side of a remaining-length step (127/128 B, 16 KiB, 2 MiB) all delivered intact?") {
          qos = 1;
          payload = 0;
          rate = 60;
          remaining_lengths = rl_boundaries;
        }
    ∷ []
