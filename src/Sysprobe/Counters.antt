-- ===== src/Sysprobe/Counters.antt =====
-- bench/sysprobe.py: the broker's counters as the probe receives them, when a snapshot is fresh, and
-- delta. The text of a topic's bytes is the parameter `decode`, and the number that a payload writes
-- the parameter `int`. A PUBLISH body has its two length bytes.
pub mod Fresh
use Prim.Native.String.{String}
use mqtt_python_client_bench.Prelude.{
  ℕ, ◌+◌, ◌*◌, ◌/◌, ◌%◌, Bool, Option, none, some, List, [], ◌∷◌, ltb, length, take, drop,
}
use mqtt_python_client_bench.Prelude.Int.{ℤ, sub_ℕ, pos, ◌-ℤ◌}
use mqtt_python_client_bench.Dict.{Dict, string_eq, get, put, get_or}

abbrev pub topics : Dict String String
topics =
    ("$SYS/broker/publish/messages/received", "received")
    ∷ ("$SYS/broker/publish/messages/sent", "sent")
    ∷ ("$SYS/broker/publish/messages/dropped", "dropped")
    ∷ ("$SYS/broker/bytes/received", "bytes_received")
    ∷ []

-- _values, _updated_at and _probe_msgs
pub record Counters : Type 0 where
  pub values : Dict String ℕ
  pub updated_at : Dict String ℕ
  pub probe_msgs : ℕ

-- struct.unpack("!H", body[:2])[0]
abbrev pub topic_length : List ℕ → ℕ
topic_length (high ∷ low ∷ body) = high * 256 + low
topic_length _ = 0

abbrev pub topic_of : (List ℕ → String) → List ℕ → String
topic_of decode body = decode (take (topic_length body) (drop 2 body))

abbrev pub payload_of : List ℕ → List ℕ
payload_of body = drop (2 + topic_length body) body

abbrev pub set_value : Option ℕ → String → Dict String ℕ → Dict String ℕ
set_value none key values = values
set_value (some n) key values = put values key n

abbrev pub update : Option String → Option ℕ → ℕ → Counters → Counters
update none number now s = s
update (some key) number now s = record s {
  values = set_value number key s.values;
  updated_at = put s.updated_at key now;
}

-- _on_publish, at the reading `now`. A body shorter than two bytes, or a text that is not UTF-8, raises
-- there and not here; a broker sends neither.
unfoldable pub on_publish :
    (List ℕ → String) → (List ℕ → Option ℕ) → ℕ → List ℕ → Counters → Counters
unfolding get put
on_publish decode int now body s =
    update (get topics (topic_of decode body)) (int (payload_of body)) now
      (record s { probe_msgs = s.probe_msgs + 1 })

-- The bodies that arrive, each with the reading at its arrival.
unfoldable pub receive_all :
    (List ℕ → String) → (List ℕ → Option ℕ) → List (ℕ × List ℕ) → Counters → Counters
unfolding on_publish
receive_all decode int [] s = s
receive_all decode int ((now, body) ∷ arrivals) s =
    receive_all decode int arrivals (on_publish decode int now body s)

-- self._updated_at.get("sent", 0.0) > asked
unfoldable pub is_fresh : ℕ → Counters → Bool
is_fresh asked s = ltb asked (get_or s.updated_at "sent" 0)

pub record Snapshot : Type 0 where
  pub received : Option ℕ
  pub sent : Option ℕ
  pub dropped : ℕ
  pub bytes_received : Option ℕ
  pub probe_msgs : ℕ

-- The dict that snapshot returns, but for its time.
unfoldable pub snapshot : Counters → Snapshot
unfolding get
snapshot s = record {
  received = get s.values "received";
  sent = get s.values "sent";
  dropped = get_or s.values "dropped" 0;
  bytes_received = get s.values "bytes_received";
  probe_msgs = s.probe_msgs;
}

pub record Delta : Type 0 where
  pub received : ℤ
  pub sent : ℤ
  pub sent_raw : ℤ
  pub probe_msgs : ℤ
  pub dropped : ℤ
  pub bytes_received : ℤ

abbrev pub or_zero : Option ℕ → ℕ
or_zero none = 0
or_zero (some n) = n

abbrev pub delta_of : Snapshot → Snapshot → Option ℕ → Option ℕ → Option ℕ → Option ℕ → Option Delta
delta_of before after (some received) (some received') (some sent) (some sent') =
    let probe = sub_ℕ after.probe_msgs before.probe_msgs in
    some (record {
      received = sub_ℕ received' received;
      sent = sub_ℕ sent' sent -ℤ probe;
      sent_raw = sub_ℕ sent' sent;
      probe_msgs = probe;
      dropped = sub_ℕ after.dropped before.dropped;
      bytes_received = sub_ℕ (or_zero after.bytes_received) (or_zero before.bytes_received);
    })
delta_of before after _ _ _ _ = none

-- delta; none where a counter is None, which it cannot subtract.
unfoldable pub delta : Snapshot → Snapshot → Option Delta
unfolding ◌-ℤ◌
delta before after = delta_of before after before.received after.received before.sent after.sent
