-- ===== src/Catalog/Recorded.antt =====
-- bench/catalog.py, Point.as_dict: what is left out of the record of a point is read back as it was.
use Prim.Native.String.{String}
use text.Mathlib.Text.{◌==◌ as str_eq}
use text.Mathlib.TextEquality.{eq_iff}
use mqtt_python_client_bench.Prelude.{
  ℕ, ◌≡◌, refl, sym, ap, ◌∙◌, Bool, true, false, Option, none, some, List, [], ◌∷◌, if◌then◌else◌,
  arith, Bool-cases, inl, inr,
}
use mqtt_python_client_bench.Checks.{Kind, publish, subscribe, rtt, duplex, idle}
use mqtt_python_client_bench.Dict.{Dict, string_eq, get}
use mqtt_python_client_bench.Catalog.{
  Point, Value, text_value, number, flag, numbers, kind_text, same_numbers, same_flag, same_value,
  asdict, extended_defaults, del, is_default, drop_defaults, as_dict, or_default, read, text_of,
  number_of, flag_of, numbers_of,
}

same_numbers_eq : (xs ys : List ℕ) → same_numbers xs ys ≡ true → xs ≡ ys
same_numbers_eq [] [] h = refl
same_numbers_eq [] (y ∷ ys) h = cc
same_numbers_eq (x ∷ xs) [] h = cc
same_numbers_eq (x ∷ xs) (y ∷ ys) h = ground (arith, same_numbers_eq xs ys)

same_flag_eq : (a b : Bool) → same_flag a b ≡ true → a ≡ b
same_flag_eq a b h = ground arith

same_value_eq : (v w : Value) → same_value v w ≡ true → v ≡ w
same_value_eq (text_value s) (text_value t) h = ap text_value ((eq_iff s t).0 h)
same_value_eq (number m) (number n) h = ground arith
same_value_eq (flag a) (flag b) h = ap flag (same_flag_eq a b h)
same_value_eq (numbers xs) (numbers ys) h = ap numbers (same_numbers_eq xs ys h)
same_value_eq v w h = ground arith

pub get-del :
    (d : Dict String Value) (k j : String)
    → get (del d k) j ≡ (if str_eq k j then none else get d j)
unfolding del get
get-del [] k j = ground arith
get-del ((i, v) ∷ d) k j = ground (arith, get-del d k j, eq_iff i k, eq_iff k j, eq_iff i j)

default_eq : (o : Option Value) (w : Value) → is_default o w ≡ true → o ≡ some w
default_eq none w h = cc
default_eq (some x) w h = ap some (same_value_eq x w h)

read-del :
    (out : Dict String Value) (j k : String) (w v : Value)
    → is_default (get out j) w ≡ true
    → (str_eq j k ≡ true → w ≡ v)
    → read (del out j) k v ≡ read out k v
read-del out j k w v h a = elim (Bool-cases (str_eq j k)) [
  | inl e ↦
      ap (λ o. or_default o v) (get-del out j k ∙ ap (λ b. if b then none else get out k) e)
      ∙ sym (a e)
      ∙ sym (
          ap (λ o. or_default o v)
            (ap (get out) (sym ((eq_iff j k).0 e)) ∙ default_eq (get out j) w h))
  | inr e ↦ ap (λ o. or_default o v) (get-del out j k ∙ ap (λ b. if b then none else get out k) e)
]

-- The default of a key, wherever the list of defaults has one for it, is `v`.
abbrev pub Agrees : Dict String Value → String → Value → Type 0
Agrees [] k v = Unit
Agrees ((j, w) ∷ defaults) k v = (str_eq j k ≡ true → w ≡ v) × Agrees defaults k v

-- Reading with the default gives the same after the defaults were dropped.
read-drop_defaults :
    (defaults out : Dict String Value) (k : String) (v : Value)
    → Agrees defaults k v
    → read (drop_defaults defaults out) k v ≡ read out k v
unfolding drop_defaults
read-drop_defaults [] out k v a = refl
read-drop_defaults ((j, w) ∷ defaults) out k v a = elim (Bool-cases (is_default (get out j) w)) [
  | inl e ↦ rw e (read-drop_defaults defaults (del out j) k v a.1 ∙ read-del out j k w v e a.0)
  | inr e ↦ rw e (read-drop_defaults defaults out k v a.1)
]

abbrev pub kind_of : String → Kind
kind_of s =
    if str_eq s "pub"
    then publish
    else if str_eq s "sub"
    then subscribe
    else if str_eq s "rtt"
    then rtt
    else if str_eq s "duplex"
    then duplex
    else idle

-- The point that a record stands for: each key is read with its default, as the readers of a record
-- do.
abbrev pub point_of : Dict String Value → Point
point_of d = record {
  name = text_of (read d "name" (text_value ""));
  kind = kind_of (text_of (read d "kind" (text_value "")));
  question = text_of (read d "question" (text_value ""));
  qos = number_of (read d "qos" (number 0));
  payload = number_of (read d "payload" (number 0));
  rate = number_of (read d "rate" (number 0));
  window = number_of (read d "window" (number 0));
  protocol = text_of (read d "protocol" (text_value ""));
  suite = text_of (read d "suite" (text_value ""));
  topics = number_of (read d "topics" (number 1));
  filters = number_of (read d "filters" (number 0));
  tls = flag_of (read d "tls" (flag false));
  properties = text_of (read d "properties" (text_value "none"));
  topic_alias = flag_of (read d "topic_alias" (flag false));
  receive_maximum = number_of (read d "receive_maximum" (number 0));
  remaining_lengths = numbers_of (read d "remaining_lengths" (numbers []));
}

pub read-as_dict :
    (p : Point) (k : String) (v : Value)
    → Agrees extended_defaults k v
    → read (as_dict p) k v ≡ read (asdict p) k v
unfolding as_dict
read-as_dict p k v a = read-drop_defaults extended_defaults (asdict p) k v a

kind_of-text : (k : Kind) → kind_of (kind_text k) ≡ k
kind_of-text publish = refl
kind_of-text subscribe = refl
kind_of-text rtt = refl
kind_of-text duplex = refl
kind_of-text idle = refl

-- The record of a point tells the point: what was left out is its default.
pub point_of-as_dict : (p : Point) → point_of (as_dict p) ≡ p
unfolding asdict get
point_of-as_dict p =
    rw
      (
        read-as_dict p "name" (text_value "") (ground arith),
        read-as_dict p "kind" (text_value "") (ground arith),
        read-as_dict p "question" (text_value "") (ground arith),
        read-as_dict p "qos" (number 0) (ground arith),
        read-as_dict p "payload" (number 0) (ground arith),
        read-as_dict p "rate" (number 0) (ground arith),
        read-as_dict p "window" (number 0) (ground arith),
        read-as_dict p "protocol" (text_value "") (ground arith),
        read-as_dict p "suite" (text_value "") (ground arith),
        read-as_dict p "topics" (number 1) (ground arith),
        read-as_dict p "filters" (number 0) (ground arith),
        read-as_dict p "tls" (flag false) (ground arith),
        read-as_dict p "properties" (text_value "none") (ground arith),
        read-as_dict p "topic_alias" (flag false) (ground arith),
        read-as_dict p "receive_maximum" (number 0) (ground arith),
        read-as_dict p "remaining_lengths" (numbers []) (ground arith),
        kind_of-text p.kind,
      )
      refl
