-- ===== src/Drive/Offer.antt =====
-- bench/drive.py, due_ns and _owed: the due times are the schedule that the offer counts by.
use native.Mathlib.Nat.{mul_comm}
use mqtt_python_client_bench.Prelude.{ℕ, ◌+◌, ◌-◌, ◌*◌, ◌/◌, ◌≤◌, ◌<◌, ◌≡◌, ◌↔◌, ◌⊎◌, arith}
use mqtt_python_client_bench.Prelude.Int.{ℤ, pos, pos_part}
use mqtt_python_client_bench.Drive.{Run, ns, due_ns, offered, used, owed}

div-le_iff : (a b q : ℕ) → 0 < b → (q ≤ a / b → q * b ≤ a) × (q * b ≤ a → q ≤ a / b)
div-le_iff a b q h = (λ e. grind arith, λ e. grind arith)

quotient_mono : (a b n : ℕ) → 0 < n → a ≤ b → a / n ≤ b / n
quotient_mono a b n p h = grind arith

-- ⌈a / b⌉ ≤ q, for the ceiling as the source writes it.
ceil-le :
    (a b q : ℕ) → 0 < b → ((a + b - 1) / b ≤ q → a ≤ q * b) × (a ≤ q * b → (a + b - 1) / b ≤ q)
ceil-le a b q h = (λ e. grind arith, λ e. grind arith)

-- `due_ns` is when the offer first counts the message: at a time from the start on, the message is
-- counted exactly if its due time has come.
pub due_ns_iff :
    (index rate t_start t : ℕ)
    → 0 < rate
    → t_start ≤ t
    → (index < offered rate t_start t) ↔ (due_ns index rate t_start ≤ t)
unfolding due_ns
due_ns_iff index rate t_start t r h = (
  (λ e.
      let b : (index + 1) * ns ≤ rate * (t - t_start) =
        (div-le_iff (rate * (t - t_start)) ns (index + 1) (omega arith)).0 (omega arith) in
      omega (
        arith,
        (ceil-le ((index + 1) * ns) rate (t - t_start) r).1 (rw (mul_comm (t - t_start) rate) b),
      )),
  λ e.
      let b : (index + 1) * ns ≤ (t - t_start) * rate =
        (ceil-le ((index + 1) * ns) rate (t - t_start) r).0 (omega arith) in
      omega (
        arith,
        (div-le_iff (rate * (t - t_start)) ns (index + 1) (omega arith)).1
            (rw (mul_comm rate (t - t_start)) b),
      ),
)

pub offered_mono : (rate t_start s t : ℕ) → s ≤ t → offered rate t_start s ≤ offered rate t_start t
offered_mono rate t_start s t h =
    quotient_mono (rate * (s - t_start)) (rate * (t - t_start)) ns (omega arith) (grind arith)

-- What a tick does with the messages that are due: `n` of them are published now, and what is more
-- than `limit` is skipped for good.
pub record Owes (total limit : ℕ) (run : Run) (due : ℤ) (run' : Run) : Type 0 where
  pub whole : due ≡ pos (pos_part due)
  pub burst : pos_part due ≤ limit
  pub settles : used run' + pos_part due ≡ total
  pub only_skips : run' ≡ record run { skipped = run'.skipped }
  pub no_less : run.skipped ≤ run'.skipped
  pub skips_over : (run'.skipped ≡ run.skipped) ⊎ (pos_part due ≡ limit)

-- If the run has not used up more than the offer, `_owed` returns a burst of at most `max_due`
-- messages that brings the run level with the offer, and changes nothing but the skipped count,
-- and that only where the burst is full.
pub owed-Owes :
    (rate t_start now : ℕ) (run : Run) (limit : ℕ)
    → used run ≤ offered rate t_start now
    → Owes
        (offered rate t_start now)
        limit
        run
        (owed rate t_start now run limit).0
        (owed rate t_start now run limit).1
unfolding owed
owed-Owes rate t_start now run limit h = record {
  whole = ground arith;
  burst = ground arith;
  settles = ground arith;
  only_skips = ground arith;
  no_less = ground arith;
  skips_over = ground arith;
}
