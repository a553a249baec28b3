-- ===== src/Drive/Payloads.antt =====
-- bench/drive.py, the payloads, the routes and the message callbacks: what a publish carries, and what
-- the receiver makes of it. Bytes are numbers. The clock of each call is an argument.
pub mod Stamp
use Prim.Native.String.{String}
use mqtt_python_client_bench.Prelude.{
  ℕ, zero, suc, ◌+◌, ◌-◌, ◌*◌, ◌/◌, ◌%◌, Bool, true, false, Option, none, some, List, [], ◌∷◌, ◌++◌,
  ltb, leb, ◌==◌, if◌then◌else◌, length, take, replicate, set, any, get_elem?, Result, ok, err,
}
use mqtt_python_client_bench.Prelude.Int.{ℤ, pos, ◌-ℤ◌}
use mqtt_python_client_bench.Drive.{Run, stamp_send}

pub data PayloadError : Type 0 where
  no_room_for_stamp : PayloadError

-- payload_maker(size), or a stamp and a tail whose length goes round `sizes`.
pub data Maker : Type 0 where
  constant : ℕ → Maker
  stamped : List ℕ → Maker

unfoldable pub payload_maker : ℕ → Maker
payload_maker size = constant size

unfoldable pub fixed_payload_maker : ℕ → Result PayloadError Maker
fixed_payload_maker size = if ltb size 8 then err no_room_for_stamp else ok (stamped (size ∷ []))

-- min(sizes) < 8
unfoldable pub cycling_payload_maker : List ℕ → Result PayloadError Maker
cycling_payload_maker sizes =
    if any (λ size. ltb size 8) sizes then err no_room_for_stamp else ok (stamped sizes)

-- n.to_bytes(k, "little"), where n fits
unfoldable pub to_bytes : ℕ → ℕ → List ℕ
to_bytes zero n = []
to_bytes (suc k) n = n % 256 ∷ to_bytes k (n / 256)

-- int.from_bytes(bytes, "little")
unfoldable pub from_bytes : List ℕ → ℕ
from_bytes [] = 0
from_bytes (b ∷ bytes) = b + 256 * from_bytes bytes

abbrev pub size_at : List ℕ → ℕ → ℕ
size_at [] index = 0
size_at (size ∷ sizes) index = elim (get_elem? (size ∷ sizes) (index % suc (length sizes))) [
  | none ↦ 0
  | some n ↦ n
]

-- The bytes that make(index) returns at the reading `now`.
unfoldable pub make : Maker → ℕ → ℕ → List ℕ
unfolding to_bytes
make (constant size) index now = replicate size 65
make (stamped sizes) index now = to_bytes 8 now ++ replicate (size_at sizes index - 8) 65

-- What make(index) does to the run.
unfoldable pub record_send : Maker → ℕ → ℕ → Run → Run
unfolding stamp_send
record_send (constant size) index now run = run
record_send (stamped sizes) index now run = stamp_send run index now

-- on_message
unfoldable pub on_message : Run → Run
on_message run = record run { received = run.received + 1 }

-- on_message_stamped, at the reading `now`. The array holds 64-bit integers, which a difference of two
-- clock readings is; a stamp that is no reading of the clock may raise there and not here.
unfoldable pub on_message_stamped : Run → ℕ → List ℕ → Run
unfolding from_bytes ◌-ℤ◌
on_message_stamped run now payload =
    let sent = from_bytes (take 8 payload) in
    let kept =
      if ltb run.received (length run.latencies)
      then record run { latencies = set run.latencies run.received (pos now -ℤ pos sent) }
      else record run { latency_overflow = run.latency_overflow + 1 } in
    record kept { received = kept.received + 1 }

-- on_unmatched
unfoldable pub on_unmatched : Run → Run
on_unmatched run = record run { unmatched = run.unmatched + 1 }

-- routed_publish: how the closure rewrites the topic of each call, which it counts from 0.
pub data Route : Type 0 where
  by_alias : String → Route
  spread : List String → Route
  unrouted : Route

abbrev pub first_topic : List String → String
first_topic [] = ""
first_topic (t ∷ topics) = t

unfoldable pub routed_publish : List String → Bool → Route
routed_publish topics alias =
    if alias
    then by_alias (first_topic topics)
    else if ltb 1 (length topics)
    then spread topics
    else unrouted

abbrev pub topic_at : List String → ℕ → String
topic_at [] call = ""
topic_at (t ∷ topics) call = elim (get_elem? (t ∷ topics) (call % suc (length topics))) [
  | none ↦ ""
  | some s ↦ s
]

-- The topic that the library is given at the `call`-th call.
unfoldable pub sent_topic : Route → ℕ → String → String
sent_topic (by_alias first) call topic = if call == 0 then first else ""
sent_topic (spread topics) call topic = topic_at topics call
sent_topic unrouted call topic = topic
