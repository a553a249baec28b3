-- ===== src/Catalog.antt =====
-- bench/catalog.py: the points of a campaign, their dict as it is recorded, and the suites. A question
-- is part of a point, as the source has it. `Profile` holds seconds as milliseconds.
pub mod Points
pub mod Recorded
pub mod Resolve
use Prim.Native.String.{String}
use text.Mathlib.Text.{◌==◌ as str_eq}
use mqtt_python_client_bench.Prelude.{
  ℕ, ◌≡◌, Bool, true, false, not, Option, none, some, List, [], ◌∷◌, ◌++◌, ltb, ◌==◌, if◌then◌else◌,
  ◌&&◌, ◌||◌,
}
use mqtt_python_client_bench.Dict.{Dict, string_eq, get}
use mqtt_python_client_bench.Checks.{Kind, publish, subscribe, rtt, duplex, idle, is_kind}

pub record Point : Type 0 where
  pub name : String
  pub kind : Kind
  pub question : String
  pub qos : ℕ
  pub payload : ℕ
  pub rate : ℕ
  pub window : ℕ
  pub protocol : String
  pub suite : String
  pub topics : ℕ
  pub filters : ℕ
  pub tls : Bool
  pub properties : String
  pub topic_alias : Bool
  pub receive_maximum : ℕ
  pub remaining_lengths : List ℕ

-- Point(name, kind, question), the rest at the defaults.
abbrev pub point : String → Kind → String → Point
point name kind question = record {
  name = name;
  kind = kind;
  question = question;
  qos = 0;
  payload = 256;
  rate = 0;
  window = 64;
  protocol = "MQTTv311";
  suite = "core";
  topics = 1;
  filters = 0;
  tls = false;
  properties = "none";
  topic_alias = false;
  receive_maximum = 0;
  remaining_lengths = [];
}

unfoldable pub fixed_rate : Point → Bool
fixed_rate p = ltb 0 p.rate || is_kind p.kind idle

unfoldable pub latency : Point → Bool
unfolding fixed_rate
latency p = fixed_rate p && not (is_kind p.kind idle)

-- What a recorded field holds.
pub data Value : Type 0 where
  text_value : String → Value
  number : ℕ → Value
  flag : Bool → Value
  numbers : List ℕ → Value

abbrev pub kind_text : Kind → String
kind_text publish = "pub"
kind_text subscribe = "sub"
kind_text rtt = "rtt"
kind_text duplex = "duplex"
kind_text idle = "idle"

abbrev pub same_numbers : List ℕ → List ℕ → Bool
same_numbers [] [] = true
same_numbers (x ∷ xs) (y ∷ ys) = x == y && same_numbers xs ys
same_numbers _ _ = false

abbrev pub same_flag : Bool → Bool → Bool
same_flag true b = b
same_flag false b = not b

abbrev pub same_value : Value → Value → Bool
same_value (text_value s) (text_value t) = str_eq s t
same_value (number m) (number n) = m == n
same_value (flag a) (flag b) = same_flag a b
same_value (numbers xs) (numbers ys) = same_numbers xs ys
same_value _ _ = false

-- dataclasses.asdict(self)
unfoldable pub asdict : Point → Dict String Value
asdict p =
    ("name", text_value p.name)
    ∷ ("kind", text_value (kind_text p.kind))
    ∷ ("question", text_value p.question)
    ∷ ("qos", number p.qos)
    ∷ ("payload", number p.payload)
    ∷ ("rate", number p.rate)
    ∷ ("window", number p.window)
    ∷ ("protocol", text_value p.protocol)
    ∷ ("suite", text_value p.suite)
    ∷ ("topics", number p.topics)
    ∷ ("filters", number p.filters)
    ∷ ("tls", flag p.tls)
    ∷ ("properties", text_value p.properties)
    ∷ ("topic_alias", flag p.topic_alias)
    ∷ ("receive_maximum", number p.receive_maximum)
    ∷ ("remaining_lengths", numbers p.remaining_lengths)
    ∷ []

abbrev pub extended_defaults : Dict String Value
extended_defaults =
    ("topics", number 1)
    ∷ ("filters", number 0)
    ∷ ("tls", flag false)
    ∷ ("properties", text_value "none")
    ∷ ("topic_alias", flag false)
    ∷ ("receive_maximum", number 0)
    ∷ ("remaining_lengths", numbers [])
    ∷ []

-- del d[k]
unfoldable pub del : Dict String Value → String → Dict String Value
del [] k = []
del ((j, v) ∷ d) k = if str_eq j k then del d k else (j, v) ∷ del d k

abbrev pub is_default : Option Value → Value → Bool
is_default none v = false
is_default (some w) v = same_value w v

-- for key, default in defaults: if out[key] == default: del out[key]
unfoldable pub drop_defaults : Dict String Value → Dict String Value → Dict String Value
unfolding del get
drop_defaults [] out = out
drop_defaults ((k, v) ∷ defaults) out =
    drop_defaults defaults (if is_default (get out k) v then del out k else out)

unfoldable pub as_dict : Point → Dict String Value
unfolding asdict
as_dict p = drop_defaults extended_defaults (asdict p)

-- out.get(k, v), and what the readers take from it.
abbrev pub or_default : Option Value → Value → Value
or_default none v = v
or_default (some w) v = w

abbrev pub read : Dict String Value → String → Value → Value
read d k v = or_default (get d k) v

abbrev pub text_of : Value → String
text_of (text_value s) = s
text_of _ = ""

abbrev pub number_of : Value → ℕ
number_of (number n) = n
number_of _ = 0

abbrev pub flag_of : Value → Bool
flag_of (flag b) = b
flag_of _ = false

abbrev pub numbers_of : Value → List ℕ
numbers_of (numbers xs) = xs
numbers_of _ = []

pub record Profile : Type 0 where
  pub name : String
  pub warmup_ms : ℕ
  pub measure_ms : ℕ
  pub drain_ms : ℕ
  pub runs : ℕ
  pub comparable : Bool

abbrev pub profiles : List Profile
profiles =
    record {
      name = "standard";
      warmup_ms = 2000;
      measure_ms = 8000;
      drain_ms = 2000;
      runs = 3;
      comparable = true;
    }
    ∷ record {
      name = "smoke";
      warmup_ms = 500;
      measure_ms = 2000;
      drain_ms = 1000;
      runs = 1;
      comparable = false;
    }
    ∷ []
