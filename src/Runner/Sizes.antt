-- ===== src/Runner/Sizes.antt =====
-- bench/runner.py, payload_sizes, with the worker's maker: the remaining length of each PUBLISH of a
-- point that asks for certain ones.
use text.Mathlib.Text.{◌==◌ as str_eq}
use mqtt_python_client_bench.Prelude.{
  Bool, true, ◌++◌, if◌then◌else◌, ℕ, zero, suc, ◌+◌, ◌-◌, ◌/◌, ◌%◌, ◌≤◌, ◌<◌, ◌≡◌, refl, sym, ap,
  ◌∙◌, false, Option, none, some, List, [], ◌∷◌, All, length, get_elem?, replicate, any, ltb,
  length-append, ok, Bool-cases, inl, inr, ◌==◌, arith,
}
use mqtt_python_client_bench.Drive.Payloads.{
  Maker, stamped, constant, fixed_payload_maker, payload_maker, make, to_bytes, size_at,
  cycling_payload_maker,
}
use mqtt_python_client_bench.Catalog.{Point}
use mqtt_python_client_bench.Worker.{maker}
use mqtt_python_client_bench.Runner.{
  overhead, less, sizes_of, payload_sizes, put_str, id_bytes, property_bytes, publish_body,
}

length-to_bytes : (k n : ℕ) → length (to_bytes k n) ≡ k
unfolding to_bytes
length-to_bytes zero n = refl
length-to_bytes (suc k) n = ap suc (length-to_bytes k (n / 256))

length-replicate_of : (n byte : ℕ) → length (replicate n byte) ≡ n
length-replicate_of zero byte = refl
length-replicate_of (suc n) byte = ap suc (length-replicate_of n byte)

-- A stamped payload has the size of its index, where that holds the stamp.
length-make :
    (sizes : List ℕ) (index now : ℕ)
    → 8 ≤ size_at sizes index
    → length (make (stamped sizes) index now) ≡ size_at sizes index
unfolding make
length-make sizes index now h = omega (
  arith,
  length-append (to_bytes 8 now) (replicate (size_at sizes index - 8) 65),
  length-to_bytes 8 now,
  length-replicate_of (size_at sizes index - 8) 65,
)

abbrev or_zero : Option ℕ → ℕ
or_zero o = elim o [ none ↦ 0 | some n ↦ n ]

-- Each length has room for what is not payload, and for the stamp.
abbrev pub Roomy : ℕ → List ℕ → Type 0
Roomy used lengths = All (λ rl. used + 8 ≤ rl) lengths

record Shorter (used size rl : ℕ) : Type 0 where
  stamped : 8 ≤ size
  exact : used + size ≡ rl

get-less :
    (used : ℕ) (lengths : List ℕ) (i : ℕ)
    → Roomy used lengths
    → i < length lengths
    → Shorter used (or_zero (get_elem? (less used lengths) i)) (or_zero (get_elem? lengths i))
get-less used [] i h short = absurd (omega arith)
get-less used (rl ∷ lengths) zero h short = record { stamped = omega arith; exact = omega arith }
get-less used (rl ∷ lengths) (suc i) h short = get-less used lengths i h.1 (omega arith)

length-less : (used : ℕ) (lengths : List ℕ) → length (less used lengths) ≡ length lengths
length-less used [] = refl
length-less used (rl ∷ lengths) = ap suc (length-less used lengths)

any-less :
    (used : ℕ) (lengths : List ℕ)
    → Roomy used lengths
    → any (λ size. ltb size 8) (less used lengths) ≡ false
any-less used [] h = refl
any-less used (rl ∷ lengths) h = let r = any-less used lengths h.1 in ground arith

size_at-less :
    (used : ℕ) (rl : ℕ) (lengths : List ℕ) (index : ℕ)
    → Roomy used (rl ∷ lengths)
    → Shorter used (size_at (less used (rl ∷ lengths)) index) (size_at (rl ∷ lengths) index)
size_at-less used rl lengths index h =
    rw (size_at, length-less used lengths)
      (get-less used (rl ∷ lengths) (index % suc (length lengths)) h (grind arith))

-- The maker of a worker for these lengths, and what it makes.
record Sized (p : Point) (used : ℕ) (lengths sizes : List ℕ) : Type 0 where
  made : Maker
  returns : maker p sizes ≡ ok made
  fits : (index now : ℕ) → used + length (make made index now) ≡ size_at lengths index

-- Whatever the packet identifier, the PUBLISH of each index, on the topic and without properties, has the
-- remaining length whose turn it is.
pub record Published (p : Point) (topic lengths sizes : List ℕ) : Type 0 where
  pub made : Maker
  pub returns : maker p sizes ≡ ok made
  pub exact :
      (id index now : ℕ)
      → length (publish_body (str_eq p.protocol "MQTTv5") p.qos id topic [] (make made index now))
        ≡ size_at lengths index

-- The one size of a constant maker.
length-constant :
    (used rl index now : ℕ)
    → length (make (constant (rl - used)) index now) ≡ size_at (less used (rl ∷ [])) index
unfolding make
length-constant used rl index now =
    length-replicate_of (rl - used) 65 ∙ sym (only (index % 1) (omega arith))
  where
    only : (i : ℕ) → i < 1 → or_zero (get_elem? ((rl - used) ∷ []) i) ≡ rl - used
    only zero h = refl
    only (suc i) h = absurd (omega arith)

one_or_more :
    (p : Point) (used rl : ℕ) (lengths : List ℕ)
    → Roomy used (rl ∷ lengths)
    → Sized p used (rl ∷ lengths) (less used (rl ∷ lengths))
unfolding maker cycling_payload_maker fixed_payload_maker payload_maker
one_or_more p used rl [] h = elim (Bool-cases (p.rate == 0)) [
  | inl e ↦ record {
    made = constant (rl - used);
    returns = ground arith;
    fits = λ (index now : ℕ).
        ap (λ n. used + n) (length-constant used rl index now)
        ∙ (size_at-less used rl [] index h).exact;
  }
  | inr e ↦ record {
    made = stamped (less used (rl ∷ []));
    returns = ground arith;
    fits = λ (index now : ℕ).
        let s = size_at-less used rl [] index h in
        let m = length-make (less used (rl ∷ [])) index now s.stamped in
        ap (λ n. used + n) m ∙ s.exact;
  }
]
one_or_more p used rl (next ∷ lengths) h = record {
  made = stamped (less used (rl ∷ next ∷ lengths));
  returns = let a = any-less used (rl ∷ next ∷ lengths) h in ground arith;
  fits = λ (index now : ℕ).
      let s = size_at-less used rl (next ∷ lengths) index h in
      let m = length-make (less used (rl ∷ next ∷ lengths)) index now s.stamped in
      ap (λ n. used + n) m ∙ s.exact;
}

-- The fixed part of a PUBLISH is what payload_sizes takes off.
length-publish_body :
    (p : Point) (id : ℕ) (topic payload : List ℕ)
    → length (publish_body (str_eq p.protocol "MQTTv5") p.qos id topic [] payload)
      ≡ overhead p (length topic) + length payload
unfolding publish_body put_str
length-publish_body p id topic payload = laid_out p.qos (str_eq p.protocol "MQTTv5") topic payload
  where
    laid_out :
        (qos : ℕ) (v5 : Bool) (topic payload : List ℕ)
        → length (put_str topic ++ (id_bytes qos id ++ (property_bytes v5 [] ++ payload)))
          ≡ 2 + length topic + (if qos == 0 then 0 else 2) + (if v5 then 1 else 0) + length payload
    laid_out zero false topic payload = omega (arith, length-append topic payload)
    laid_out zero true topic payload = omega (arith, length-append topic (0 ∷ payload))
    laid_out (suc qos) false topic payload =
        ground (arith, length-append topic ((id / 256 % 256) ∷ (id % 256) ∷ payload))
    laid_out (suc qos) true topic payload =
        ground (arith, length-append topic ((id / 256 % 256) ∷ (id % 256) ∷ 0 ∷ payload))

payload_sizes-Sized :
    (p : Point) (topic_bytes : ℕ)
    → 0 < length p.remaining_lengths
    → Roomy (overhead p topic_bytes) p.remaining_lengths
    → Sized p (overhead p topic_bytes) p.remaining_lengths (payload_sizes p topic_bytes)
unfolding payload_sizes
payload_sizes-Sized p topic_bytes some_length room =
    named p (overhead p topic_bytes) p.payload p.remaining_lengths some_length room
  where
    named :
        (p : Point) (used payload : ℕ) (lengths : List ℕ)
        → 0 < length lengths
        → Roomy used lengths
        → Sized p used lengths (sizes_of lengths used payload)
    named p used payload [] n h = absurd (omega arith)
    named p used payload (rl ∷ lengths) n h = one_or_more p used rl lengths h

-- Where a point names remaining lengths, and each has room for what payload_sizes takes off and for the
-- stamp: the worker's maker raises nothing, and with its payload for each index the PUBLISH on a topic of
-- that many bytes, without properties and laid out as MQTT has it (the topic with its length, a packet
-- identifier unless QoS is 0, the length of the properties for MQTT 5), has the remaining length whose
-- turn it is.
pub payload_sizes-Published :
    (p : Point) (topic : List ℕ)
    → 0 < length p.remaining_lengths
    → Roomy (overhead p (length topic)) p.remaining_lengths
    → Published p topic p.remaining_lengths (payload_sizes p (length topic))
payload_sizes-Published p topic some_length room =
    let s = payload_sizes-Sized p (length topic) some_length room in
    record {
      made = s.made;
      returns = s.returns;
      exact = λ (id index now : ℕ).
          length-publish_body p id topic (make s.made index now) ∙ s.fits index now;
    }
