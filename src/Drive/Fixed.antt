-- ===== src/Drive/Fixed.antt =====
-- bench/drive.py, pub_fixed_sync and pub_fixed_nowait: the open loop, in 1 ms ticks. What the loop
-- meets is an `Env`: the outcome of each publish, the clock in `make`, and the reading after a sleep.
-- Completions arrive between the steps; they change `done` and `failed` alone, which the loop never
-- reads. The calls of `publish` are kept as a trace of message index and tick.
pub mod Tick
pub mod Loop
pub mod Stamps
use mqtt_python_client_bench.Prelude.{
  ℕ, zero, suc, ◌+◌, ◌-◌, ◌/◌, ◌≤◌, ◌<◌, ◌≡◌, Bool, true, false, List, [], ◌∷◌, ◌++◌, ltb, leb,
  if◌then◌else◌,
}
use mqtt_python_client_bench.Prelude.Int.{pos_part}
use mqtt_python_client_bench.Drive.{Run, owed, used, max_due, stamp_send, tick_ns}

pub record Env : Type 0 where
  -- `publish(topic, make(index), qos).rc == 0`; for `publish_nowait`, a result that is not None
  pub accepts : ℕ → Bool
  -- the clock read by `make(index)`
  pub reading : ℕ → ℕ
  -- the clock read after `sleep_until_ns(deadline)` at `now`
  pub wake : ℕ → ℕ → ℕ

-- A sleep ends no earlier than its deadline, and the clock is monotonic.
pub record IsClock (env : Env) : Type 0 where
  pub at_deadline : (now deadline : ℕ) → deadline ≤ env.wake now deadline
  pub forward : (now deadline : ℕ) → now ≤ env.wake now deadline

pub record Offer : Type 0 where
  pub rate : ℕ
  pub t_start : ℕ
  pub t_end : ℕ

-- The body of the `for` loop of pub_fixed_sync.
unfoldable pub publish_sync : Env → ℕ → Run → Run
unfolding stamp_send
publish_sync env index run =
    let made = stamp_send run index (env.reading index) in
    if env.accepts index
    then record made { sent = made.sent + 1 }
    else record made { rejected = made.rejected + 1 }

-- The body of the `for` loop of pub_fixed_nowait, which counts first and takes it back.
unfoldable pub publish_nowait : Env → ℕ → Run → Run
unfolding stamp_send
publish_nowait env index run =
    let counted = record run { sent = run.sent + 1 } in
    let made = stamp_send counted index (env.reading index) in
    if env.accepts index
    then made
    else record made { sent = made.sent - 1; rejected = made.rejected + 1 }

-- for index in range(first, first + n)
unfoldable pub publish_range : (ℕ → Run → Run) → ℕ → ℕ → Run → Run
publish_range publish zero index run = run
publish_range publish (suc n) index run = publish_range publish n (index + 1) (publish index run)

abbrev pub range_trace : ℕ → ℕ → ℕ → List (ℕ × ℕ)
range_trace zero index now = []
range_trace (suc n) index now = (index, now) ∷ range_trace n (index + 1) now

pub record State : Type 0 where
  pub run : Run
  pub next_tick : ℕ
  -- the calls of `publish`: the index, and the reading that began its tick
  pub trace : List (ℕ × ℕ)

-- One round of the loop at the reading `now`.
unfoldable pub tick : (ℕ → Run → Run) → Offer → ℕ → State → State
unfolding publish_range owed
tick publish offer now s =
    let (due, run) = owed offer.rate offer.t_start now s.run (max_due offer.rate) in
    let first = used run in
    let next = s.next_tick + tick_ns in
    record {
      run = publish_range publish (pos_part due) first run;
      next_tick = if ltb next now then now + tick_ns else next;
      trace = s.trace ++ range_trace (pos_part due) first now;
    }

pub data Outcome : Type 0 where
  finished : State → Outcome
  running : State → Outcome

-- `while True`, on fuel; `running` means that the fuel ran out.
unfoldable pub loop : Env → (ℕ → Run → Run) → Offer → ℕ → ℕ → State → Outcome
loop env publish offer zero now s = running s
loop env publish offer (suc f) now s = elim (leb offer.t_end now) [
  | true ↦ finished s
  | false ↦
      let s' = tick publish offer now s in loop env publish offer f (env.wake now s'.next_tick) s'
]

abbrev pub begin : Offer → Run → State
begin offer run = record { run = run; next_tick = offer.t_start; trace = [] }

-- Rounds enough for every offer: one for each tick of it, and two more.
abbrev pub rounds : Offer → ℕ
rounds offer = suc (suc ((offer.t_end - offer.t_start) / tick_ns))

unfoldable pub pub_fixed_sync : Env → Offer → ℕ → ℕ → Run → Outcome
unfolding loop publish_sync tick
pub_fixed_sync env offer fuel now run =
    loop env (publish_sync env) offer fuel (env.wake now offer.t_start) (begin offer run)

unfoldable pub pub_fixed_nowait : Env → Offer → ℕ → ℕ → Run → Outcome
unfolding loop publish_nowait tick
pub_fixed_nowait env offer fuel now run =
    loop env (publish_nowait env) offer fuel (env.wake now offer.t_start) (begin offer run)
