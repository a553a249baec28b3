-- ===== src/Adapters/Supports.antt =====
-- adapters/base.py, missing_for_point: on the record of a point it finds nothing missing exactly if the
-- library has every feature that the point uses.
use Prim.Native.String.{String}
use text.Mathlib.Text.{◌==◌ as str_eq}
use text.Mathlib.TextEquality.{eq_iff}
use mqtt_python_client_bench.Prelude.{
  ◌≤◌, ◌<◌, ◌≡◌, ◌≢◌, ◌↔◌, refl, sym, ◌∙◌, Bool, true, false, not, List, [], ◌∷◌, ◌++◌, ltb, leb,
  ◌&&◌, arith,
}
use mqtt_python_client_bench.Catalog.{Point, text_value, number, flag, asdict, as_dict, kind_text}
use mqtt_python_client_bench.Dict.{get}
use mqtt_python_client_bench.Catalog.Recorded.{read-as_dict}
use mqtt_python_client_bench.Adapters.{
  AdapterCapabilities, lacks, publishes, prefixed, missing_for_point,
}

-- Each feature that the point uses is one that the library has.
pub record Supports (caps : AdapterCapabilities) (p : Point) : Type 0 where
  pub v5 : p.protocol ≡ "MQTTv5" → caps.mqtt_v5 ≡ true
  pub v311 : p.protocol ≡ "MQTTv311" → caps.mqtt_v311 ≡ true
  pub exactly_once : 2 ≤ p.qos → caps.qos2 ≡ true
  pub secure : p.tls ≡ true → caps.tls ≡ true
  pub filtering : 0 < p.filters → caps.native_message_callback_add ≡ true
  pub sending :
      p.properties ≢ "none"
      → publishes (kind_text p.kind) ≡ true
      → caps.v5_publish_properties ≡ true
  pub aliasing : p.topic_alias ≡ true → caps.v5_topic_alias ≡ true
  pub bounding : 0 < p.receive_maximum → caps.v5_receive_maximum ≡ true
  pub wired : caps.unimplemented ≡ []

append-nil_iff : (xs ys : List String) → (xs ++ ys ≡ []) ↔ ((xs ≡ []) × (ys ≡ []))
append-nil_iff [] ys = (λ e. (refl, e), λ h. h.1)
append-nil_iff (x ∷ xs) ys = (λ e. cc, λ h. cc)

lacks-nil_iff : (b : Bool) (feature : String) → (lacks b feature ≡ []) ↔ (b ≡ false)
unfolding lacks
lacks-nil_iff true feature = (λ e. cc, λ e. cc)
lacks-nil_iff false feature = (λ e. refl, λ e. refl)

prefixed-nil_iff :
    (prefix : String) (items : List String) → (prefixed prefix items ≡ []) ↔ (items ≡ [])
prefixed-nil_iff prefix [] = (λ e. refl, λ e. refl)
prefixed-nil_iff prefix (x ∷ items) = (λ e. cc, λ e. cc)

-- The same on the fields of the point.
missing : AdapterCapabilities → Point → List String
missing caps p =
    lacks (str_eq p.protocol "MQTTv5" && not caps.mqtt_v5) "mqtt_v5"
    ++ (lacks (str_eq p.protocol "MQTTv311" && not caps.mqtt_v311) "mqtt_v311"
        ++ (lacks (leb 2 p.qos && not caps.qos2) "qos2"
            ++ (lacks (p.tls && not caps.tls) "tls"
                ++ (lacks (ltb 0 p.filters && not caps.native_message_callback_add)
                      "native_message_callback_add"
                    ++ (lacks
                          ((not (str_eq p.properties "none") && publishes (kind_text p.kind))
                            && not caps.v5_publish_properties)
                          "v5_publish_properties"
                        ++ (lacks (p.topic_alias && not caps.v5_topic_alias) "v5_topic_alias"
                            ++ (lacks (ltb 0 p.receive_maximum && not caps.v5_receive_maximum)
                                  "v5_receive_maximum"
                                ++ prefixed "adapter:" caps.unimplemented)))))))

missing-as_dict :
    (caps : AdapterCapabilities) (p : Point) → missing_for_point caps (as_dict p) ≡ missing caps p
unfolding missing_for_point missing asdict get
missing-as_dict caps p =
    rw
      (
        read-as_dict p "protocol" (text_value "MQTTv311") (ground arith),
        read-as_dict p "qos" (number 0) (ground arith),
        read-as_dict p "tls" (flag false) (ground arith),
        read-as_dict p "filters" (number 0) (ground arith),
        read-as_dict p "properties" (text_value "none") (ground arith),
        read-as_dict p "kind" (text_value "") (ground arith),
        read-as_dict p "topic_alias" (flag false) (ground arith),
        read-as_dict p "receive_maximum" (number 0) (ground arith),
      )
      refl

-- The first part of what is missing, and the rest.
peel :
    (b : Bool) (feature : String) (rest : List String)
    → (lacks b feature ++ rest ≡ []) ↔ ((b ≡ false) × (rest ≡ []))
peel b feature rest = (
  λ e.
      let h = (append-nil_iff (lacks b feature) rest).0 e in ((lacks-nil_iff b feature).0 h.0, h.1),
  λ h. (append-nil_iff (lacks b feature) rest).1 ((lacks-nil_iff b feature).1 h.0, h.1),
)

missing-nil_iff : (caps : AdapterCapabilities) (p : Point) → (missing caps p ≡ []) ↔ Supports caps p
unfolding missing
missing-nil_iff caps p = (
  λ e.
      let h0 = (peel (str_eq p.protocol "MQTTv5" && not caps.mqtt_v5) "mqtt_v5" _).0 e in
      let h1 = (peel (str_eq p.protocol "MQTTv311" && not caps.mqtt_v311) "mqtt_v311" _).0 h0.1 in
      let h2 = (peel (leb 2 p.qos && not caps.qos2) "qos2" _).0 h1.1 in
      let h3 = (peel (p.tls && not caps.tls) "tls" _).0 h2.1 in
      let h4 =
        (peel (ltb 0 p.filters && not caps.native_message_callback_add)
            "native_message_callback_add" _).0
          h3.1 in
      let h5 =
        (peel
            ((not (str_eq p.properties "none") && publishes (kind_text p.kind))
              && not caps.v5_publish_properties)
            "v5_publish_properties" _).0
          h4.1 in
      let h6 = (peel (p.topic_alias && not caps.v5_topic_alias) "v5_topic_alias" _).0 h5.1 in
      let h7 =
        (peel (ltb 0 p.receive_maximum && not caps.v5_receive_maximum) "v5_receive_maximum" _).0
          h6.1 in
      record {
        v5 = λ u. ground (arith, eq_iff p.protocol "MQTTv5", h0.0);
        v311 = λ u. ground (arith, eq_iff p.protocol "MQTTv311", h1.0);
        exactly_once = λ u. ground (arith, h2.0);
        secure = λ u. ground (arith, h3.0);
        filtering = λ u. ground (arith, h4.0);
        sending = λ u v. ground (arith, eq_iff p.properties "none", h5.0);
        aliasing = λ u. ground (arith, h6.0);
        bounding = λ u. ground (arith, h7.0);
        wired = (prefixed-nil_iff "adapter:" caps.unimplemented).0 h7.1;
      },
  λ g.
      let h8 = (prefixed-nil_iff "adapter:" caps.unimplemented).1 g.wired in
      let h7 =
        (peel (ltb 0 p.receive_maximum && not caps.v5_receive_maximum) "v5_receive_maximum" _).1
          (ground (arith, g.bounding), h8) in
      let h6 =
        (peel (p.topic_alias && not caps.v5_topic_alias) "v5_topic_alias" _).1
          (ground (arith, g.aliasing), h7) in
      let h5 =
        (peel
            ((not (str_eq p.properties "none") && publishes (kind_text p.kind))
              && not caps.v5_publish_properties)
            "v5_publish_properties" _).1
          (ground (arith, g.sending, eq_iff p.properties "none"), h6) in
      let h4 =
        (peel (ltb 0 p.filters && not caps.native_message_callback_add)
            "native_message_callback_add" _).1
          (ground (arith, g.filtering), h5) in
      let h3 = (peel (p.tls && not caps.tls) "tls" _).1 (ground (arith, g.secure), h4) in
      let h2 =
        (peel (leb 2 p.qos && not caps.qos2) "qos2" _).1 (ground (arith, g.exactly_once), h3) in
      let h1 =
        (peel (str_eq p.protocol "MQTTv311" && not caps.mqtt_v311) "mqtt_v311" _).1
          (ground (arith, g.v311, eq_iff p.protocol "MQTTv311"), h2) in
      let h0 =
        (peel (str_eq p.protocol "MQTTv5" && not caps.mqtt_v5) "mqtt_v5" _).1
          (ground (arith, g.v5, eq_iff p.protocol "MQTTv5"), h1) in
      h0,
)

-- A library runs a point, that is `missing_for_point` finds nothing in the point's record, exactly if
-- it has the protocol version, QoS 2, TLS, filters, properties, topic aliases and receive maximum
-- where the point uses them, and nothing of its adapter is unimplemented.
pub missing_for_point-nil_iff :
    (caps : AdapterCapabilities) (p : Point)
    → (missing_for_point caps (as_dict p) ≡ []) ↔ Supports caps p
missing_for_point-nil_iff caps p = (
  λ e. (missing-nil_iff caps p).0 (sym (missing-as_dict caps p) ∙ e),
  λ g. missing-as_dict caps p ∙ (missing-nil_iff caps p).1 g,
)
