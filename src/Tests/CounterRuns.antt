-- ===== src/Tests/CounterRuns.antt =====
-- bench/sysprobe.py: two updates of the broker's counters, of which the second is `sent`.
use Prim.Native.String.{String}
use mqtt_python_client_bench.Prelude.{
  ℕ, ◌≤◌, ◌≡◌, refl, Option, none, some, List, [], ◌∷◌, arith, if◌then◌else◌, ◌==◌,
}
use mqtt_python_client_bench.Prelude.Int.{pos, ◌-ℤ◌}
use mqtt_python_client_bench.Dict.{string_eq, get, put, get_or}
use mqtt_python_client_bench.Sysprobe.Counters.{Counters, on_publish, receive_all, snapshot, delta}
use mqtt_python_client_bench.Sysprobe.Counters.Fresh.{Reported, receive_all-Reported}

abbrev before : Counters
before = record {
  values = ("sent", 5) ∷ ("received", 7) ∷ [];
  updated_at = ("sent", 10) ∷ [];
  probe_msgs = 4;
}

-- A topic of one byte.
abbrev decode : List ℕ → String
decode (c ∷ []) =
    if c == 1 then "$SYS/broker/publish/messages/received" else "$SYS/broker/publish/messages/sent"
decode _ = ""

abbrev int : List ℕ → Option ℕ
int (c ∷ []) = some c
int _ = none

abbrev arrivals : List (ℕ × List ℕ)
arrivals = (21, 0 ∷ 1 ∷ 1 ∷ 9 ∷ []) ∷ (22, 0 ∷ 1 ∷ 2 ∷ 8 ∷ []) ∷ []

in_between :
    delta (snapshot before) (snapshot (receive_all decode int arrivals before))
    ≡ some (record {
      received = pos 2;
      sent = pos 1;
      sent_raw = pos 3;
      probe_msgs = pos 2;
      dropped = pos 0;
      bytes_received = pos 0;
    })
unfolding delta snapshot receive_all on_publish get put ◌-ℤ◌
in_between = refl

last_sent : get_or before.updated_at "sent" 0 ≤ 20
unfolding get
last_sent = omega arith

receive_all-Reported_example :
    Reported decode int 20 arrivals before (receive_all decode int arrivals before)
receive_all-Reported_example = receive_all-Reported decode int 20 arrivals before last_sent
