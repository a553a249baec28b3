-- ===== src/Worker/Creation.antt =====
-- bench/worker.py and adapters/registry.py: a point that a client does not refuse has an adapter.
use Prim.Native.String.{String}
use text.Mathlib.Text.{◌==◌ as str_eq}
use text.Mathlib.TextEquality.{eq_iff}
use mqtt_python_client_bench.Prelude.{
  ℕ, zero, suc, ◌<◌, ◌≡◌, ◌⊎◌, refl, sym, ap, subst, ◌∙◌, Bool, true, false, not, Option, none,
  some, List, [], ◌∷◌, if◌then◌else◌, ◌&&◌, ◌||◌, arith, Bool-cases, Option-cases, inl, inr, Result,
  ok, err, ◌>>=◌, All,
}
use mqtt_python_client_bench.Dict.{Dict, string_eq, get}
use mqtt_python_client_bench.Catalog.{Point, as_dict}
use mqtt_python_client_bench.Adapters.{AdapterCapabilities, prefixed, missing_for_point}
use mqtt_python_client_bench.Adapters.Supports.{Supports, missing_for_point-nil_iff}
use mqtt_python_client_bench.Adapters.Classes.{
  RegistryError, unknown_client, Arguments, Class, Libraries, Protocols, any_protocol, constants,
  only_v5, is_given, accepts, construct,
}
use mqtt_python_client_bench.Adapters.Registry.{
  adapters, async_adapters, found, get_adapter_class, get_async_adapter_class, has_async_adapter,
  is_native, receive_maximum, queued_bytes, create, create_adapter, create_async_adapter, refusals,
}
use mqtt_python_client_bench.Worker.{
  Shape, sync, nowait, awaited, drive_shape, Config, adapter_options, or_none, build_adapter,
}

-- What holds of each entry holds of an entry that is found.
get-All :
    (P : String → Class → Type 0) (d : Dict String Class) (k : String) (v : Class)
    → All (λ e. P e.0 e.1) d
    → get d k ≡ some v
    → P k v
unfolding get
get-All P [] k v a h = cc
get-All P ((j, u) ∷ d) k v (here, a) h = elim (Bool-cases (str_eq j k)) [
  | inl y ↦
      subst (λ i. P i v) ((eq_iff j k).0 y)
        (subst (P j) (some_inj (sym (ap (λ b. if b then some u else get d k) y) ∙ h)) here)
  | inr n ↦ get-All P d k v a (sym (ap (λ b. if b then some u else get d k) n) ∙ h)
]
  where
    some_inj : {a b : Class} → some a ≡ some b → a ≡ b
    some_inj h = cc

-- ------------------------------------------------------------------ the classes that there are

-- A class has the name that it is registered by, and one for MQTT 5 alone says that it is.
abbrev ForV5 : Protocols → AdapterCapabilities → Type 0
ForV5 only_v5 caps = caps.mqtt_v311 ≡ false
ForV5 _ caps = Unit

abbrev IsEntry : String → Class → Type 0
IsEntry k cls = (cls.capabilities.name ≡ k) × ForV5 cls.protocols cls.capabilities

-- `create` takes a Receive Maximum where the capabilities say that the library can set one.
abbrev TakesMaximum : Class → Type 0
TakesMaximum cls = (not cls.capabilities.v5_receive_maximum || cls.takes_receive_maximum) ≡ true

abbrev OrNative : String → Class → Type 0
OrNative k cls = (is_native (get async_adapters k) ≡ true) ⊎ TakesMaximum cls

abbrev AsRegistered : Option Class → Class → Type 0
AsRegistered none cls = ⊥
AsRegistered (some other) cls = other.capabilities ≡ cls.capabilities

adapters-IsEntry : All (λ e. IsEntry e.0 e.1 × OrNative e.0 e.1) adapters
unfolding get
adapters-IsEntry = (
  ((refl, tt), inr refl),
  (
    ((refl, tt), inl refl),
    (
      ((refl, tt), inl refl),
      (
        ((refl, tt), inl refl),
        (
          ((refl, tt), inr refl),
          (((refl, tt), inl refl), (((refl, refl), inl refl), (((refl, tt), inl refl), tt))),
        ),
      ),
    ),
  ),
)

async_adapters-IsEntry :
    All
      (λ e. IsEntry e.0 e.1 × TakesMaximum e.1 × AsRegistered (get adapters e.0) e.1)
      async_adapters
unfolding get
async_adapters-IsEntry = (
  ((refl, tt), refl, refl),
  (
    ((refl, tt), refl, refl),
    (
      ((refl, tt), refl, refl),
      (((refl, refl), refl, refl), (((refl, tt), refl, refl), (((refl, tt), refl, refl), tt))),
    ),
  ),
)

-- ------------------------------------------------------------------ the adapter is made

-- The client's library can be imported and makes its client from these arguments; paho.mqtt.client has
-- the constants of the two protocols.
pub record IsReady (libs : Libraries) (client : String) (args : Arguments) : Type 0 where
  pub installed : libs.installed client ≡ true
  pub makes : libs.makes client args ≡ true
  pub has_v5 : libs.has_constant "MQTTv5" ≡ true
  pub has_v311 : libs.has_constant "MQTTv311" ≡ true

-- The protocol of a point is one of the two that the catalogue has.
abbrev pub IsProtocol : String → Type 0
IsProtocol protocol = (protocol ≡ "MQTTv5") ⊎ (protocol ≡ "MQTTv311")

passed : (a b : Bool) → b ≡ true → (a && not b) ≡ false
passed a b h = ground (arith, h)

-- Five tests, of which none holds.
passes :
    {A : Type 0} (u v w x y z : A) (a b c d e : Bool)
    → a ≡ false
    → b ≡ false
    → c ≡ false
    → d ≡ false
    → e ≡ false
    → (if a then u else if b then v else if c then w else if d then x else if e then y else z) ≡ z
passes u v w x y z a b c d e f g h i j = rw (f, g, h, i, j) refl

module _ (libs : Libraries) (client : String) (args : Arguments)
    (ready : IsReady libs client args) where
  accepts_any :
      (ps : Protocols) (caps : AdapterCapabilities)
      → IsProtocol args.protocol
      → ForV5 ps caps
      → (args.protocol ≡ "MQTTv311" → caps.mqtt_v311 ≡ true)
      → accepts libs ps args.protocol ≡ true
  accepts_any any_protocol caps p f v = refl
  accepts_any constants caps (inl e) f v = ap libs.has_constant e ∙ ready.has_v5
  accepts_any constants caps (inr e) f v = ap libs.has_constant e ∙ ready.has_v311
  accepts_any only_v5 caps (inl e) f v = (eq_iff args.protocol "MQTTv5").1 e
  accepts_any only_v5 caps (inr e) f v = ground (arith, sym f ∙ v e)

  -- No test of `create` fails.
  construct_all :
      (cls : Class)
      → cls.capabilities.name ≡ client
      → args.max_queued_bytes ≡ none
      → (is_given args.receive_maximum && not cls.takes_receive_maximum) ≡ false
      → accepts libs cls.protocols args.protocol ≡ true
      → construct libs cls args ≡ ok (cls, args)
  unfolding construct
  construct_all cls named bytes maximum protocol =
      let i : libs.installed cls.capabilities.name ≡ true =
        ap libs.installed named ∙ ready.installed in
      let m : libs.makes cls.capabilities.name args ≡ true =
        ap (λ n. libs.makes n args) named ∙ ready.makes in
      passes _ _ _ _ _ _ _ _ _ _ _ (ap (λ o. is_given o && not cls.takes_queued_bytes) bytes)
        maximum (passed cls.imports (libs.installed cls.capabilities.name) i) (ap not protocol)
        (passed cls.makes_client (libs.makes cls.capabilities.name args) m)

receive_maximum-or_none :
    (caps : AdapterCapabilities) (n : ℕ)
    → (0 < n → caps.v5_receive_maximum ≡ true)
    → receive_maximum caps (or_none n) ≡ ok (or_none n)
unfolding receive_maximum
receive_maximum-or_none caps zero h = refl
receive_maximum-or_none caps (suc n) h = rw (h (omega arith)) refl

queued_bytes-none : (caps : AdapterCapabilities) → queued_bytes caps none ≡ none
queued_bytes-none caps = ground arith

taken :
    (cls : Class) (n : ℕ)
    → TakesMaximum cls
    → (0 < n → cls.capabilities.v5_receive_maximum ≡ true)
    → (is_given (or_none n) && not cls.takes_receive_maximum) ≡ false
taken cls zero t h = refl
taken cls (suc n) t h = let v = h (omega arith) in ground (arith, v, t)

-- A library with all that the point needs builds the adapter from the options as they are.
module _ (libs : Libraries) (cfg : Config) (p : Point) (protocol : IsProtocol p.protocol)
    (ready : IsReady libs cfg.client (adapter_options cfg p)) where
  create-adapter_options :
      (cls : Class)
      → IsEntry cfg.client cls
      → TakesMaximum cls
      → Supports cls.capabilities p
      → create libs cls (adapter_options cfg p) ≡ ok (cls, adapter_options cfg p)
  unfolding create adapter_options
  create-adapter_options cls entry takes s =
      rw
        (
          receive_maximum-or_none cls.capabilities p.receive_maximum s.bounding,
          queued_bytes-none cls.capabilities,
        )
        (construct_all libs cfg.client (adapter_options cfg p) ready cls entry.0 refl
          (taken cls p.receive_maximum takes s.bounding)
          (accepts_any libs cfg.client (adapter_options cfg p) ready cls.protocols cls.capabilities
            protocol entry.1 s.v311))

  sync_client :
      (fold : String → String) (cls : Class)
      → get adapters (fold cfg.client) ≡ some cls
      → IsEntry cfg.client cls
      → TakesMaximum cls
      → Supports cls.capabilities p
      → build_adapter libs fold sync cfg p ≡ ok (cls, adapter_options cfg p)
  unfolding build_adapter create_adapter get_adapter_class
  sync_client fold cls e entry takes s = rw e (create-adapter_options cls entry takes s)

  async_client :
      (cls : Class)
      → get async_adapters cfg.client ≡ some cls
      → IsEntry cfg.client cls
      → TakesMaximum cls
      → Supports cls.capabilities p
      → create_async_adapter libs cfg.client (adapter_options cfg p)
        ≡ ok (cls, adapter_options cfg p)
  unfolding create_async_adapter
  async_client cls e entry takes s = rw e (create-adapter_options cls entry takes s)

-- ------------------------------------------------------------------ what a client refuses

prefixed-eq-nil : (prefix : String) (items : List String) → prefixed prefix items ≡ [] → items ≡ []
prefixed-eq-nil prefix [] h = refl
prefixed-eq-nil prefix (x ∷ items) h = cc

abbrev listed_for : Point → Result RegistryError Class → Result RegistryError (List String)
listed_for p r =
    r >>= λ cls. ok (prefixed "not_implemented:" (missing_for_point cls.capabilities (as_dict p)))

-- A client that refuses nothing at the point is registered, and its library supports the point.
refusals-Supports :
    (fold : String → String) (client : String) (p : Point)
    → refusals fold client p ≡ ok []
    → (cls : Class) × (get adapters (fold client) ≡ some cls) × Supports cls.capabilities p
unfolding refusals get_adapter_class
refusals-Supports fold client p h = elim (Option-cases (get adapters (fold client))) [
  | inl e ↦ no_list (sym (ap (λ o. listed_for p (found (unknown_client client) o)) e) ∙ h)
  | inr (cls, e) ↦ (
    cls,
    e,
    (missing_for_point-nil_iff cls.capabilities p).0 (
        prefixed-eq-nil "not_implemented:" (missing_for_point cls.capabilities (as_dict p))
          (ok_list (sym (ap (λ o. listed_for p (found (unknown_client client) o)) e) ∙ h))),
  )
]
  where
    no_list :
        {A : Type 0} {e : RegistryError}
        → ◌≡◌ {A = Result RegistryError (List String)} (err e) (ok [])
        → A
    no_list h = cc

    ok_list :
        {xs : List String} → ◌≡◌ {A = Result RegistryError (List String)} (ok xs) (ok []) → xs ≡ []
    ok_list h = cc

-- The shape by which a native client is driven.
abbrev native_shape : Bool → Shape
native_shape b = if b then nowait else awaited

build_adapter-native :
    (libs : Libraries) (fold : String → String) (b : Bool) (cfg : Config) (p : Point)
    → build_adapter libs fold (native_shape b) cfg p
      ≡ create_async_adapter libs cfg.client (adapter_options cfg p)
unfolding build_adapter
build_adapter-native libs fold true cfg p = refl
build_adapter-native libs fold false cfg p = refl

shape_native :
    (fold : String → String) (client : String) (native : Class)
    → fold client ≡ client
    → get async_adapters client ≡ some native
    → native.capabilities.native_async ≡ true
    → drive_shape fold client ≡ ok (native_shape native.capabilities.publish_sync_on_loop)
unfolding drive_shape has_async_adapter get_async_adapter_class
shape_native fold client native named n y = rw (named, n, y) refl

shape_other :
    (fold : String → String) (client : String) (o : Option Class)
    → get async_adapters client ≡ o
    → is_native o ≡ false
    → drive_shape fold client ≡ ok sync
unfolding drive_shape has_async_adapter
shape_other fold client o n y = rw (n, y) refl

module _ (libs : Libraries) (fold : String → String) (cfg : Config) (p : Point) where
  -- The shape, and the adapter that is made in it.
  pub record Built : Type 0 where
    pub shape : Shape
    pub cls : Class
    pub driven : drive_shape fold cfg.client ≡ ok shape
    pub built : build_adapter libs fold shape cfg p ≡ ok (cls, adapter_options cfg p)
    pub supported : Supports cls.capabilities p

  built_sync :
      (cls : Class)
      → fold cfg.client ≡ cfg.client
      → IsProtocol p.protocol
      → IsReady libs cfg.client (adapter_options cfg p)
      → get adapters (fold cfg.client) ≡ some cls
      → Supports cls.capabilities p
      → is_native (get async_adapters cfg.client) ≡ false
      → Built
  built_sync cls named protocol ready e s other =
      let entry =
        get-All (λ k c. IsEntry k c × OrNative k c) adapters cfg.client cls adapters-IsEntry
          (ap (get adapters) (sym named) ∙ e) in
      record {
        shape = sync;
        cls = cls;
        driven = shape_other fold cfg.client (get async_adapters cfg.client) refl other;
        built =
            sync_client libs cfg p protocol ready fold cls e entry.0 (not_native cls entry.1 other)
              s;
        supported = s;
      }
    where
      not_native : {b : Bool} (c : Class) → (b ≡ true) ⊎ TakesMaximum c → b ≡ false → TakesMaximum c
      not_native c (inl t) f = ground (arith, sym t ∙ f)
      not_native c (inr t) f = t

  built_native :
      (cls native : Class)
      → fold cfg.client ≡ cfg.client
      → IsProtocol p.protocol
      → IsReady libs cfg.client (adapter_options cfg p)
      → get adapters (fold cfg.client) ≡ some cls
      → Supports cls.capabilities p
      → get async_adapters cfg.client ≡ some native
      → native.capabilities.native_async ≡ true
      → Built
  built_native cls native named protocol ready e s n y =
      let (entry, takes, same) =
        get-All (λ k c. IsEntry k c × TakesMaximum c × AsRegistered (get adapters k) c)
          async_adapters cfg.client native async_adapters-IsEntry n in
      let s' =
        subst (λ (c : AdapterCapabilities). Supports c p)
          (subst (λ o. AsRegistered o native) (ap (get adapters) (sym named) ∙ e) same) s in
      record {
        shape = native_shape native.capabilities.publish_sync_on_loop;
        cls = native;
        driven = shape_native fold cfg.client native named n y;
        built =
            build_adapter-native libs fold native.capabilities.publish_sync_on_loop cfg p
            ∙ async_client libs cfg p protocol ready native n entry takes s';
        supported = s';
      }

  -- A client that refuses nothing at a point of MQTT 5 or 3.1.1, under its registered name, where its
  -- library can be imported and makes its client from the worker's options: the client is driven in some
  -- shape and its adapter is made in that shape, so that neither the registry nor `create` raises;
  -- `create` got every option of the worker as it was asked for, and the library supports the point.
  pub build_adapter-refusals :
      fold cfg.client ≡ cfg.client
      → refusals fold cfg.client p ≡ ok []
      → IsProtocol p.protocol
      → IsReady libs cfg.client (adapter_options cfg p)
      → Built
  build_adapter-refusals named h protocol ready =
      let (cls, e, s) = refusals-Supports fold cfg.client p h in
      elim (Option-cases (get async_adapters cfg.client)) [
        | inl n ↦ built_sync cls named protocol ready e s (ap is_native n)
        | inr (native, n) ↦ elim (Bool-cases native.capabilities.native_async) [
          | inl y ↦ built_native cls native named protocol ready e s n y
          | inr o ↦ built_sync cls named protocol ready e s (ap is_native n ∙ o)
        ]
      ]
