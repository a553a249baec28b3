-- ===== src/Adapters/Classes.antt =====
-- adapters/paho.py, awscrt.py, gmqtt.py, gmqtt_async.py, mqttium.py, mqttium_async.py, aiomqtt.py,
-- aiomqtt3.py, amqtt.py and zmqtt.py: the `create` of each class, with what it may raise. What a library
-- does with what it is given, and whether it can be imported, is the parameter `Libraries`.
use Prim.Native.String.{String}
use text.Mathlib.Text.{◌==◌ as str_eq}
use mqtt_python_client_bench.Prelude.{
  ℕ, Bool, true, false, not, Option, none, some, if◌then◌else◌, ◌&&◌, Result, ok, err,
}
use mqtt_python_client_bench.Adapters.{AdapterCapabilities}
use mqtt_python_client_bench.Adapters.Clients

pub data RegistryError : Type 0 where
  unknown_client : String → RegistryError
  no_async_adapter : String → RegistryError
  no_receive_maximum : String → RegistryError
  -- raised in `create`: TypeError, ImportError, AttributeError or ValueError, and whatever the library
  -- raises as its client is made
  unexpected_keyword : String → RegistryError
  not_installed : String → RegistryError
  other_protocol : String → RegistryError
  not_made : String → RegistryError

-- What `create` is called with; a keyword that is not passed is `none`.
pub record Arguments : Type 0 where
  pub client_id : String
  pub protocol : String
  pub clean_session : Bool
  pub max_inflight : ℕ
  pub max_queued : ℕ
  pub max_queued_bytes : Option ℕ
  pub tls_ca_certs : Option String
  pub receive_maximum : Option ℕ

-- Which protocols a `create` takes: any, those that paho.mqtt.client has a constant for, or MQTT 5.
pub data Protocols : Type 0 where
  any_protocol constants only_v5 : Protocols

-- A class: its capabilities, the optional keywords of its `create`, and whether that imports the library,
-- tests the protocol and makes the library's client.
pub record Class : Type 0 where
  pub capabilities : AdapterCapabilities
  pub takes_queued_bytes : Bool
  pub takes_receive_maximum : Bool
  pub imports : Bool
  pub protocols : Protocols
  pub makes_client : Bool

-- Whether a client's library can be imported (for aiomqtt3, in version 3), and whether it makes its client
-- from the arguments without raising.
pub record Libraries : Type 0 where
  pub installed : String → Bool
  pub has_constant : String → Bool  -- of paho.mqtt.client
  pub makes : String → Arguments → Bool

abbrev pub paho_adapter : Class
paho_adapter = record {
  capabilities = Clients.paho;
  takes_queued_bytes = false;
  takes_receive_maximum = true;
  imports = true;
  protocols = constants;
  makes_client = true;
}

abbrev pub gmqtt_adapter : Class
gmqtt_adapter = record {
  capabilities = Clients.gmqtt;
  takes_queued_bytes = false;
  takes_receive_maximum = true;
  imports = true;
  protocols = any_protocol;
  makes_client = true;
}

abbrev pub gmqtt_async_adapter : Class
gmqtt_async_adapter = record gmqtt_adapter { takes_queued_bytes = true }

abbrev pub aiomqtt_adapter : Class
aiomqtt_adapter = record {
  capabilities = Clients.aiomqtt;
  takes_queued_bytes = false;
  takes_receive_maximum = true;
  imports = true;
  protocols = any_protocol;
  makes_client = false;
}

abbrev pub amqtt_adapter : Class
amqtt_adapter = record {
  capabilities = Clients.amqtt;
  takes_queued_bytes = false;
  takes_receive_maximum = false;
  imports = true;
  protocols = any_protocol;
  makes_client = true;
}

abbrev pub awscrt_adapter : Class
awscrt_adapter = record {
  capabilities = Clients.awscrt;
  takes_queued_bytes = false;
  takes_receive_maximum = false;
  imports = true;
  protocols = any_protocol;
  makes_client = false;
}

abbrev pub zmqtt_adapter : Class
zmqtt_adapter = record {
  capabilities = Clients.zmqtt;
  takes_queued_bytes = false;
  takes_receive_maximum = true;
  imports = true;
  protocols = any_protocol;
  makes_client = false;
}

abbrev pub aiomqtt3_adapter : Class
aiomqtt3_adapter = record {
  capabilities = Clients.aiomqtt3;
  takes_queued_bytes = false;
  takes_receive_maximum = true;
  imports = true;
  protocols = only_v5;
  makes_client = false;
}

abbrev pub mqttium_adapter : Class
mqttium_adapter = record {
  capabilities = Clients.mqttium;
  takes_queued_bytes = true;
  takes_receive_maximum = false;
  imports = true;
  protocols = any_protocol;
  makes_client = false;
}

abbrev pub mqttium_async_adapter : Class
mqttium_async_adapter = record {
  capabilities = Clients.mqttium;
  takes_queued_bytes = true;
  takes_receive_maximum = true;
  imports = false;
  protocols = any_protocol;
  makes_client = false;
}

abbrev pub is_given : Option ℕ → Bool
is_given none = false
is_given (some n) = true

abbrev pub accepts : Libraries → Protocols → String → Bool
accepts libs any_protocol protocol = true
accepts libs constants protocol = libs.has_constant protocol
accepts libs only_v5 protocol = str_eq protocol "MQTTv5"

-- cls.create(...): the adapter, as its class and what it was made from.
unfoldable pub construct : Libraries → Class → Arguments → Result RegistryError (Class × Arguments)
construct libs cls args =
    let name = cls.capabilities.name in
    if is_given args.max_queued_bytes && not cls.takes_queued_bytes
    then err (unexpected_keyword "max_queued_bytes")
    else if is_given args.receive_maximum && not cls.takes_receive_maximum
    then err (unexpected_keyword "receive_maximum")
    else if cls.imports && not (libs.installed name)
    then err (not_installed name)
    else if not (accepts libs cls.protocols args.protocol)
    then err (other_protocol args.protocol)
    else if cls.makes_client && not (libs.makes name args)
    then err (not_made name)
    else ok (cls, args)
