-- ===== src/Drive/Payloads/Stamp.antt =====
-- bench/drive.py: the receiver reads the send stamp of a payload back, and records how long it took.
use mqtt_python_client_bench.Prelude.{
  ℕ, zero, suc, ◌+◌, ◌^◌, ◌<◌, ◌≡◌, refl, true, some, List, [], ◌∷◌, ltb, length, take, set,
  get_elem?, arith,
}
use mqtt_python_client_bench.Prelude.Int.{ℤ, pos, ◌-ℤ◌}
use mqtt_python_client_bench.Drive.{Run}
use mqtt_python_client_bench.Drive.Payloads.{stamped, from_bytes, make, on_message_stamped}

get_elem?-set : (xs : List ℤ) (i : ℕ) (v : ℤ) → i < length xs → get_elem? (set xs i v) i ≡ some v
get_elem?-set [] i v h = absurd (omega arith)
get_elem?-set (x ∷ xs) zero v h = refl
get_elem?-set (x ∷ xs) (suc i) v h = get_elem?-set xs i v (omega arith)

-- The stamp of a payload.
stamp_of :
    (sizes : List ℕ) (index sent : ℕ)
    → sent < 2 ^ 64
    → from_bytes (take 8 (make (stamped sizes) index sent)) ≡ sent
unfolding make from_bytes
stamp_of sizes index sent h = omega arith

-- A message made at `sent` and received at `now`, where the receiver has room for it, leaves the time
-- between the two at its place in the latencies, whatever the size of the payload, and one message
-- more received.
pub on_message_stamped-make :
    (run : Run) (sizes : List ℕ) (index sent now : ℕ)
    → sent < 2 ^ 64
    → run.received < length run.latencies
    → (get_elem?
          (on_message_stamped run now (make (stamped sizes) index sent)).latencies
          run.received
        ≡ some (pos now -ℤ pos sent))
      × ((on_message_stamped run now (make (stamped sizes) index sent)).received ≡ run.received + 1)
      × ((on_message_stamped run now (make (stamped sizes) index sent)).latency_overflow
          ≡ run.latency_overflow)
unfolding on_message_stamped
on_message_stamped-make run sizes index sent now h room =
    let e : ltb run.received (length run.latencies) ≡ true = ground arith in
    let t = stamp_of sizes index sent h in
    rw (e, t) (get_elem?-set run.latencies run.received (pos now -ℤ pos sent) room, refl, refl)
