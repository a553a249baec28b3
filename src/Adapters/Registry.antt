-- ===== src/Adapters/Registry.antt =====
-- adapters/registry.py: which classes there are, and with what options an adapter is made. Python's
-- `str.strip` and `str.lower` are the parameter `fold`. The optional checkout of a client, which changes
-- Python's module path, is left out.
use Prim.Native.String.{String}
use mqtt_python_client_bench.Prelude.{
  ℕ, zero, suc, Bool, false, Option, none, some, List, [], ◌∷◌, if◌then◌else◌, Result, ok, err,
  ◌>>=◌,
}
use mqtt_python_client_bench.Dict.{Dict, string_eq, get}
use mqtt_python_client_bench.Catalog.{Point, as_dict}
use mqtt_python_client_bench.Adapters.Classes.{
  RegistryError, unknown_client, no_async_adapter, no_receive_maximum, Arguments, Class, Libraries,
  construct, paho_adapter, gmqtt_adapter, gmqtt_async_adapter, aiomqtt_adapter, amqtt_adapter,
  awscrt_adapter, zmqtt_adapter, aiomqtt3_adapter, mqttium_adapter, mqttium_async_adapter,
}
use mqtt_python_client_bench.Adapters.{AdapterCapabilities, prefixed, missing_for_point}

abbrev pub adapters : Dict String Class
adapters =
    ("paho", paho_adapter)
    ∷ ("gmqtt", gmqtt_adapter)
    ∷ ("aiomqtt", aiomqtt_adapter)
    ∷ ("amqtt", amqtt_adapter)
    ∷ ("awscrt", awscrt_adapter)
    ∷ ("zmqtt", zmqtt_adapter)
    ∷ ("aiomqtt3", aiomqtt3_adapter)
    ∷ ("mqttium", mqttium_adapter)
    ∷ []

-- native_async_for gives a class whose capabilities and `create` are those of the class that it wraps.
abbrev pub async_adapters : Dict String Class
async_adapters =
    ("mqttium", mqttium_async_adapter)
    ∷ ("gmqtt", gmqtt_async_adapter)
    ∷ ("aiomqtt", aiomqtt_adapter)
    ∷ ("aiomqtt3", aiomqtt3_adapter)
    ∷ ("amqtt", amqtt_adapter)
    ∷ ("zmqtt", zmqtt_adapter)
    ∷ []

abbrev pub found : RegistryError → Option Class → Result RegistryError Class
found e none = err e
found e (some cls) = ok cls

unfoldable pub get_adapter_class : (String → String) → String → Result RegistryError Class
get_adapter_class fold name = found (unknown_client name) (get adapters (fold name))

unfoldable pub get_async_adapter_class : (String → String) → String → Result RegistryError Class
get_async_adapter_class fold name = found (no_async_adapter name) (get async_adapters (fold name))

abbrev pub is_native : Option Class → Bool
is_native none = false
is_native (some cls) = cls.capabilities.native_async

unfoldable pub has_async_adapter : String → Bool
has_async_adapter client = is_native (get async_adapters client)

-- _receive_maximum(cls, value)
unfoldable pub receive_maximum : AdapterCapabilities → Option ℕ → Result RegistryError (Option ℕ)
receive_maximum caps none = ok none
receive_maximum caps (some zero) = ok none
receive_maximum caps (some (suc n)) =
    if caps.v5_receive_maximum then ok (some (suc n)) else err (no_receive_maximum caps.name)

abbrev pub queued_bytes : AdapterCapabilities → Option ℕ → Option ℕ
queued_bytes caps asked = if caps.max_queued_bytes then asked else none

-- The end of both functions: the options that are passed on, and cls.create.
unfoldable pub create : Libraries → Class → Arguments → Result RegistryError (Class × Arguments)
unfolding receive_maximum construct
create libs cls asked = do
  maximum ← receive_maximum cls.capabilities asked.receive_maximum
  construct libs cls (record asked {
    max_queued_bytes = queued_bytes cls.capabilities asked.max_queued_bytes;
    receive_maximum = maximum;
  })

unfoldable pub create_adapter :
    Libraries → (String → String) → String → Arguments → Result RegistryError (Class × Arguments)
unfolding get_adapter_class create
create_adapter libs fold client asked = do
  cls ← get_adapter_class fold client
  create libs cls asked

unfoldable pub create_async_adapter :
    Libraries → String → Arguments → Result RegistryError (Class × Arguments)
unfolding create
create_async_adapter libs client asked = do
  cls ← found (no_async_adapter client) (get async_adapters client)
  create libs cls asked

-- runner.py, refusals
unfoldable pub refusals : (String → String) → String → Point → Result RegistryError (List String)
unfolding get_adapter_class
refusals fold client p = do
  cls ← get_adapter_class fold client
  ok (prefixed "not_implemented:" (missing_for_point cls.capabilities (as_dict p)))
