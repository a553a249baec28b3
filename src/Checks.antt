-- ===== src/Checks.antt =====
-- bench/checks.py: the record of one run as the runner writes it, the checks on it, and the verdict.
-- A JSON object is a record with the fields that the checks read; a field that may be absent or null
-- is an `Option`. Counts of one process are naturals, differences of counters are integers. Seconds
-- and cores, which the source holds as floats, are exact: nanoseconds, and ratios of naturals. The
-- text of a check's detail is left out.
pub mod Items
pub mod Rules
pub mod Evaluate
pub mod Verdict
pub mod Losses
pub mod Blame
use mqtt_python_client_bench.Prelude.{
  ℕ, ◌+◌, ◌*◌, ◌/◌, ◌≡◌, Bool, true, false, Option, none, some, List, ltb, leb, ◌==◌, if◌then◌else◌,
  ◌&&◌,
}
use mqtt_python_client_bench.Prelude.Int.{ℤ, pos, negsuc, pos_part, neg_part, leb_ℤ, ◌-ℤ◌, ◌+ℤ◌}

pub data Kind : Type 0 where
  publish subscribe rtt duplex idle : Kind

pub record Point : Type 0 where
  pub kind : Kind
  pub qos : ℕ
  pub rate : ℕ
  pub payload : ℕ
  pub filters : ℕ
  pub properties : Bool  -- other than "none"
  pub topic_alias : Bool

pub record Snapshot : Type 0 where
  pub sent : ℕ
  pub done : ℕ
  pub failed : ℕ
  pub rejected : ℕ
  pub received : ℕ
  pub unmatched : ℕ
  pub skipped : ℕ
  pub at_ns : ℕ

-- The worker's result. A worker that failed has no `final`, and nothing reads it then.
pub record Worker : Type 0 where
  pub ok : Bool
  pub window_ns : Option ℕ
  pub measure : Option Snapshot
  pub last : Option Snapshot  -- "end"
  pub final : Snapshot

-- The C peer's result, in any of its roles.
pub record Peer : Type 0 where
  pub error : Bool  -- peer["error"] is not None
  pub sent_total : ℕ
  pub sent_window : ℕ
  pub acked_total : ℕ
  pub received_total : ℕ
  pub received_window : ℕ
  pub echoed_total : ℕ
  pub size_mismatch : Option ℕ
  pub props_seen : ℕ

-- The broker's counters over the run, the probe's own share removed.
pub record Sys : Type 0 where
  pub received : ℤ
  pub sent : ℤ
  pub dropped : ℤ
  pub bytes_received : ℤ

-- num / den cores, with a positive den.
pub record Cores : Type 0 where
  pub num : ℕ
  pub den : ℕ

pub record RunRecord : Type 0 where
  pub point : Point
  pub worker : Option Worker
  pub peer : Option Peer
  pub peer_source : Option Peer
  pub sys : Option Sys
  pub broker_cpu : Option Cores
  pub other_cores : Option Cores
  pub measure_ns : ℕ  -- schedule.measure_s
  pub data_topic_bytes : ℕ

abbrev pub is_kind : Kind → Kind → Bool
is_kind publish publish = true
is_kind subscribe subscribe = true
is_kind rtt rtt = true
is_kind duplex duplex = true
is_kind idle idle = true
is_kind _ _ = false

-- 5 + int(0.0005 * max(0, n))
unfoldable pub tolerance : ℤ → ℕ
tolerance n = 5 + pos_part n / 2000

-- low <= value <= high
abbrev pub within : ℤ → ℤ → ℤ → Bool
within value low high = leb_ℤ low value && leb_ℤ value high

-- abs(a - b) <= t
abbrev pub near : ℤ → ℤ → ℕ → Bool
near a b t =
    leb (pos_part a + neg_part b) (pos_part b + neg_part a + t)
    && leb (pos_part b + neg_part a) (pos_part a + neg_part b + t)

-- value >= RATE_HELD * (num / den), with RATE_HELD = 98 / 100.
abbrev pub held : ℤ → ℤ → ℕ → Bool
held value num den =
    leb (98 * pos_part num + 100 * den * neg_part value)
      (100 * den * pos_part value + 98 * neg_part num)

-- cores < BROKER_CPU_LIMIT = 85 / 100
abbrev pub below_limit : Cores → Bool
below_limit c = ltb (100 * c.num) (85 * c.den)

-- cores <= HOST_NOISE_CORES = 1 / 2
abbrev pub is_quiet : Cores → Bool
is_quiet c = leb (2 * c.num) c.den

abbrev pub no_snapshot : Snapshot
no_snapshot = record {
  sent = 0;
  done = 0;
  failed = 0;
  rejected = 0;
  received = 0;
  unmatched = 0;
  skipped = 0;
  at_ns = 0;
}

abbrev pub no_worker : Worker
no_worker = record {
  ok = false;
  window_ns = none;
  measure = none;
  last = none;
  final = no_snapshot;
}

abbrev pub no_peer : Peer
no_peer = record {
  error = true;
  sent_total = 0;
  sent_window = 0;
  acked_total = 0;
  received_total = 0;
  received_window = 0;
  echoed_total = 0;
  size_mismatch = none;
  props_seen = 0;
}

-- The part of an absent party is read only where a check for it has failed already.
abbrev pub peer_of : Option Peer → Peer
peer_of none = no_peer
peer_of (some p) = p

abbrev pub worker_of : Option Worker → Worker
worker_of none = no_worker
worker_of (some w) = w

abbrev pub sys_of : Option Sys → Sys
sys_of none = record { received = pos 0; sent = pos 0; dropped = pos 0; bytes_received = pos 0 }
sys_of (some s) = s

abbrev pub snapshot_of : Option Snapshot → Snapshot
snapshot_of none = no_snapshot
snapshot_of (some s) = s
