-- ===== src/Drive.antt =====
-- bench/drive.py: the counters of one run, the schedule of a fixed offer, and the callbacks.
-- Times are CLOCK_MONOTONIC nanoseconds.
pub mod Offer
pub mod Fixed
pub mod Credits
pub mod Capacity
pub mod Awaited
pub mod Refill
pub mod Payloads
use mqtt_python_client_bench.Prelude.{
  ℕ, zero, suc, ◌+◌, ◌-◌, ◌*◌, ◌/◌, ◌<◌, ◌≡◌, Bool, true, false, Option, none, some, List, [], ◌∷◌,
  ltb, leb, min, if◌then◌else◌, length, set, take, drop, replicate,
}
use mqtt_python_client_bench.Prelude.Int.{ℤ, pos, negsuc, sub_ℕ, pos_part, ltb_ℤ, ◌-ℤ◌}

abbrev pub ns : ℕ
ns = 1000000000

abbrev pub tick_ns : ℕ
tick_ns = 1000000

-- UNSENT is -1.
abbrev pub unsent : ℤ
unsent = negsuc 0

abbrev pub max_catchup_ticks : ℕ
max_catchup_ticks = 4

-- The wake-up callable of a run is part of the loops that set it.
pub record Run : Type 0 where
  pub stop : Bool
  pub sent : ℕ
  pub done : ℕ
  pub failed : ℕ
  pub rejected : ℕ
  pub received : ℕ
  pub unmatched : ℕ
  pub skipped : ℕ
  pub latencies : List ℤ
  pub latency_overflow : ℕ
  pub sends : List ℤ
  pub send_overflow : ℕ

abbrev pub new_run : ℕ → ℕ → Run
new_run latency_capacity send_capacity = record {
  stop = false;
  sent = 0;
  done = 0;
  failed = 0;
  rejected = 0;
  received = 0;
  unmatched = 0;
  skipped = 0;
  latencies = replicate latency_capacity (pos 0);
  latency_overflow = 0;
  sends = replicate send_capacity unsent;
  send_overflow = 0;
}

-- When the offer first counts message `index`.
unfoldable pub due_ns : ℕ → ℕ → ℕ → ℕ
due_ns index rate t_start = t_start + ((index + 1) * ns + rate - 1) / rate

-- The messages that the offer has counted by `now`, a reading at or after `t_start`.
abbrev pub offered : ℕ → ℕ → ℕ → ℕ
offered rate t_start now = rate * (now - t_start) / ns

abbrev pub used : Run → ℕ
used run = run.sent + run.rejected + run.skipped

unfoldable pub owed : ℕ → ℕ → ℕ → Run → ℕ → ℤ × Run
owed rate t_start now run max_due =
    let due = sub_ℕ (offered rate t_start now) (used run) in
    if ltb_ℤ (pos max_due) due
    then (pos max_due, record run { skipped = run.skipped + (pos_part due - max_due) })
    else (due, run)

-- rate * TICK_NS * MAX_CATCHUP_TICKS // NS + 1
abbrev pub max_due : ℕ → ℕ
max_due rate = rate * tick_ns * max_catchup_ticks / ns + 1

-- sends[index] = now, and `send_overflow` where the array has no such index.
unfoldable pub stamp_send : Run → ℕ → ℕ → Run
stamp_send run index now =
    if ltb index (length run.sends)
    then record run { sends = set run.sends index (pos now) }
    else record run { send_overflow = run.send_overflow + 1 }

-- The comprehension of `window_lags` over `enumerate(sends, i)`.
unfoldable pub lags_from : ℕ → ℕ → ℕ → List ℤ → List ℤ
unfolding ◌-ℤ◌ due_ns
lags_from i rate t_start [] = []
lags_from i rate t_start (negsuc zero ∷ sends) = lags_from (i + 1) rate t_start sends
lags_from i rate t_start (sent ∷ sends) =
    (sent -ℤ pos (due_ns i rate t_start)) ∷ lags_from (i + 1) rate t_start sends

-- xs[lo:hi]
abbrev pub slice {ℓ} : {A : Type ℓ} → ℕ → ℕ → List A → List A
slice lo hi xs = take (hi - lo) (drop lo xs)

-- The lags of the messages due in the window, and how many of them were never published.
unfoldable pub window_lags : Run → ℕ → ℕ → ℕ → ℕ → List ℤ × ℕ
unfolding lags_from
window_lags run rate t_start t_measure t_end =
    let lo = min (offered rate t_start t_measure) (length run.sends) in
    let hi = min (offered rate t_start t_end) (length run.sends) in
    let lags = lags_from lo rate t_start (slice lo hi run.sends) in (lags, hi - lo - length lags)
