-- ===== src/Worker/Lags.antt =====
-- bench/worker.py, _lag_histogram: every message that was due in the window is a lag or is counted as
-- never published.
use mqtt_python_client_bench.Prelude.{
  ℕ, zero, suc, ◌+◌, ◌-◌, ◌*◌, ◌≤◌, ◌<◌, ◌≡◌, refl, ap, true, List, [], ◌∷◌, length, take, drop,
  min, arith,
}
use native.Mathlib.Nat.{mul_assoc}
use mqtt_python_client_bench.Prelude.Int.{ℤ, pos, negsuc}
use mqtt_python_client_bench.Histogram.{from_values}
use mqtt_python_client_bench.Histogram.Counts.{n_values, n_negative, from_values-Describes}
use mqtt_python_client_bench.Drive.{Run, offered, slice, lags_from, window_lags}
use mqtt_python_client_bench.Drive.Offer.{offered_mono}
use mqtt_python_client_bench.Catalog.{Point}
use mqtt_python_client_bench.Worker.{Go, sends_messages, send_capacity, lag_histogram}

-- A value is binned or negative.
length-values : (vs : List ℤ) → n_values vs + n_negative vs ≡ length vs
length-values [] = omega arith
length-values (pos v ∷ vs) = omega (arith, length-values vs)
length-values (negsuc n ∷ vs) = omega (arith, length-values vs)

length-take : (n : ℕ) (xs : List ℤ) → n ≤ length xs → length (take n xs) ≡ n
length-take zero xs h = refl
length-take (suc n) [] h = absurd (omega arith)
length-take (suc n) (x ∷ xs) h = ap suc (length-take n xs (omega arith))

length-drop : (n : ℕ) (xs : List ℤ) → n ≤ length xs → length (drop n xs) + n ≡ length xs
length-drop zero xs h = omega arith
length-drop (suc n) [] h = absurd (omega arith)
length-drop (suc n) (x ∷ xs) h = omega (arith, length-drop n xs (omega arith))

length-slice :
    (lo hi : ℕ) (xs : List ℤ) → lo ≤ hi → hi ≤ length xs → length (slice lo hi xs) ≡ hi - lo
length-slice lo hi xs a b =
    length-take (hi - lo) (drop lo xs) (omega (arith, length-drop lo xs (omega arith)))

length-lags_from :
    (i rate t_start : ℕ) (sends : List ℤ) → length (lags_from i rate t_start sends) ≤ length sends
unfolding lags_from
length-lags_from i rate t_start [] = omega arith
length-lags_from i rate t_start (pos n ∷ sends) =
    omega (arith, length-lags_from (i + 1) rate t_start sends)
length-lags_from i rate t_start (negsuc zero ∷ sends) =
    omega (arith, length-lags_from (i + 1) rate t_start sends)
length-lags_from i rate t_start (negsuc (suc n) ∷ sends) =
    omega (arith, length-lags_from (i + 1) rate t_start sends)

mul_mono : (r a b : ℕ) → a ≤ b → r * a ≤ r * b
mul_mono r a b h = grind arith

-- The array of a run has an index for each message of an offer within its schedule.
pub offered-le-send_capacity :
    (p : Point) (go_ms t_start t_end : ℕ)
    → sends_messages p.kind ≡ true
    → 0 < p.rate
    → t_end ≤ t_start + go_ms * 1000000
    → offered p.rate t_start t_end ≤ send_capacity p go_ms
unfolding send_capacity
offered-le-send_capacity p go_ms t_start t_end k r h = ground (
  arith,
  mul_mono p.rate (t_end - t_start) (go_ms * 1000000) (omega arith),
  mul_assoc p.rate go_ms 1000000,
)

whole_window :
    (run : Run) (rate t_start : ℕ) (lo hi : ℕ)
    → lo ≤ hi
    → hi ≤ length run.sends
    → let lags = lags_from lo rate t_start (slice lo hi run.sends) in
      (from_values lags).count + (from_values lags).negative + (hi - lo - length lags) + lo ≡ hi
whole_window run rate t_start lo hi a b =
    let lags = lags_from lo rate t_start (slice lo hi run.sends) in
    omega (
      arith,
      (from_values-Describes lags).count,
      (from_values-Describes lags).negative,
      length-values lags,
      length-lags_from lo rate t_start (slice lo hi run.sends),
      length-slice lo hi run.sends a b,
    )

min_left : (a b : ℕ) → a ≤ b → min a b ≡ a
min_left a b h = omega arith

-- The histogram of the lags bins each message that was due in the window and published, the negative
-- lags apart, and counts the others as unsent.
pub lag_histogram-counts :
    (run : Run) (p : Point) (go : Go) (go_ms : ℕ)
    → sends_messages p.kind ≡ true
    → 0 < p.rate
    → length run.sends ≡ send_capacity p go_ms
    → go.t_measure ≤ go.t_end
    → go.t_end ≤ go.t_start + go_ms * 1000000
    → (lag_histogram run p go).0.count
        + (lag_histogram run p go).0.negative
        + (lag_histogram run p go).1
        + offered p.rate go.t_start go.t_measure
      ≡ offered p.rate go.t_start go.t_end
unfolding lag_histogram window_lags
lag_histogram-counts run p go go_ms k r len order within =
    let room = offered-le-send_capacity p go_ms go.t_start go.t_end k r within in
    let ordered = offered_mono p.rate go.t_start go.t_measure go.t_end order in
    let lo = min_left (offered p.rate go.t_start go.t_measure) (length run.sends) (omega arith) in
    let hi = min_left (offered p.rate go.t_start go.t_end) (length run.sends) (omega arith) in
    rw (lo, hi)
      (whole_window run p.rate go.t_start (offered p.rate go.t_start go.t_measure)
        (offered p.rate go.t_start go.t_end) ordered (omega arith))
