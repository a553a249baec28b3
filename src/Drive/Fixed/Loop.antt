-- ===== src/Drive/Fixed/Loop.antt =====
-- bench/drive.py, the open loops as a whole: they end, they account for every message of the offer,
-- and publish each at most once, in order and never early.
use mqtt_python_client_bench.Prelude.{
  ℕ, zero, suc, ◌+◌, ◌-◌, ◌*◌, ◌/◌, ◌≤◌, ◌<◌, ◌≡◌, refl, sym, ◌∙◌, arith, dec_lt,
}
use mqtt_python_client_bench.Drive.{Run, offered, used, tick_ns, new_run}
use mqtt_python_client_bench.Drive.Offer.{offered_mono}
use mqtt_python_client_bench.Drive.Fixed.{
  Env, IsClock, Offer, publish_sync, State, tick, loop, Outcome, finished, pub_fixed_sync, begin,
  rounds,
}
use mqtt_python_client_bench.Drive.Fixed.Tick.{Inv, tick-Inv}

-- The next reading is at least a tick later than the last deadline.
next_tick-ge :
    (env : Env) (offer : Offer) (now : ℕ) (s : State)
    → (s.next_tick + tick_ns ≤ (tick (publish_sync env) offer now s).next_tick)
      × (now ≤ (tick (publish_sync env) offer now s).next_tick)
unfolding tick
next_tick-ge env offer now s = ground arith

pub loop-go :
    (env : Env) (publish : ℕ → Run → Run) (offer : Offer) (f now : ℕ) (s : State)
    → now < offer.t_end
    → loop env publish offer (suc f) now s
      ≡ loop env publish offer f
          (env.wake now (tick publish offer now s).next_tick)
          (tick publish offer now s)
unfolding loop
loop-go env publish offer f now s h = ground arith

pub loop-stop :
    (env : Env) (publish : ℕ → Run → Run) (offer : Offer) (f now : ℕ) (s : State)
    → offer.t_end ≤ now
    → loop env publish offer (suc f) now s ≡ finished s
unfolding loop
loop-stop env publish offer f now s h = ground arith

-- The loop ended, in a state that satisfies `P`.
pub record Ends (P : State → Type 0) (o : Outcome) : Type 0 where
  pub final : State
  pub result : o ≡ finished final
  pub holds : P final

Ends-of_eq : {P : State → Type 0} {o p : Outcome} → o ≡ p → Ends P p → Ends P o
Ends-of_eq e h = record { final = h.final; result = e ∙ h.result; holds = h.holds }

pub offered-start : (offer : Offer) → offered offer.rate offer.t_start offer.t_start ≡ 0
offered-start offer = let e : offer.rate * (offer.t_start - offer.t_start) ≡ 0 = grind arith in rw e

pub begin-Inv :
    (offer : Offer) (capacity sends : ℕ)
    → Inv offer offer.t_start (begin offer (new_run capacity sends))
begin-Inv offer capacity sends = record {
  level = sym (offered-start offer);
  ordered = omega arith;
  timely = tt;
  counted = refl;
}

-- What the loop leaves behind: the run is level with the offer as it stood at some reading, and no
-- further than the whole offer; the published indices ascend; each publish was timely.
pub record Settled (offer : Offer) (s : State) : Type 0 where
  pub last : ℕ
  pub inv : Inv offer last s
  pub within : used s.run ≤ offered offer.rate offer.t_start offer.t_end

module _ (env : Env) (clock : IsClock env) (offer : Offer) (rate_pos : 0 < offer.rate) where
  stopped :
      (fuel now last : ℕ) (s : State)
      → Inv offer last s
      → offered offer.rate offer.t_start last ≤ offered offer.rate offer.t_start offer.t_end
      → offer.t_end ≤ now
      → Ends (Settled offer) (loop env (publish_sync env) offer (suc fuel) now s)
  stopped fuel now last s inv bound past = record {
    final = s;
    result = loop-stop env (publish_sync env) offer fuel now s past;
    holds = record { last = last; inv = inv; within = omega (arith, inv.level) };
  }

  loop-Ends :
      (fuel now last : ℕ) (s : State)
      → Inv offer last s
      → last ≤ now
      → offered offer.rate offer.t_start last ≤ offered offer.rate offer.t_start offer.t_end
      → offer.t_start ≤ now
      → s.next_tick ≤ now
      → offer.t_end < s.next_tick + fuel * tick_ns
      → Ends (Settled offer) (loop env (publish_sync env) offer (suc fuel) now s)
  loop-Ends zero now last s inv later bound from_start awake enough =
      stopped zero now last s inv bound (omega arith)
  loop-Ends (suc f) now last s inv later bound from_start awake enough =
      elim (dec_lt now offer.t_end) [
        | no past ↦ stopped (suc f) now last s inv bound (omega arith)
        | yes in_time ↦
            let s' = tick (publish_sync env) offer now s in
            let ticked = next_tick-ge env offer now s in
            let awake' = clock.at_deadline now s'.next_tick in
            Ends-of_eq (loop-go env (publish_sync env) offer (suc f) now s in_time) (
              loop-Ends f (env.wake now s'.next_tick) now s'
                (tick-Inv env offer last now s inv rate_pos from_start in_time later)
                (omega (arith, clock.forward now s'.next_tick))
                (offered_mono offer.rate offer.t_start now offer.t_end (omega arith))
                (omega (arith, clock.forward now s'.next_tick)) awake' (omega (arith, ticked.0)))
      ]

  -- The loop returns for every offer, every outcome of the publishes and every clock that honours
  -- its deadlines: one round for each tick of the offer, and two more, are enough. It leaves the run
  -- level with the offer (sent, rejected and skipped messages add up to what the offer had counted
  -- at its last tick, and to no more than the whole offer); the calls of `publish` are as many as
  -- are sent or rejected, in ascending order of index, so that no message is published twice; and
  -- each was made at or after its due time, before `t_end`, and at most `max_due` messages behind
  -- the schedule.
  pub pub_fixed_sync-Ends :
      (now capacity sends : ℕ)
      → Ends (Settled offer) (pub_fixed_sync env offer (rounds offer) now (new_run capacity sends))
  unfolding pub_fixed_sync
  pub_fixed_sync-Ends now capacity sends =
      let first = env.wake now offer.t_start in
      loop-Ends (suc ((offer.t_end - offer.t_start) / tick_ns)) first offer.t_start
        (begin offer (new_run capacity sends)) (begin-Inv offer capacity sends)
        (clock.at_deadline now offer.t_start) (omega (arith, offered-start offer))
        (clock.at_deadline now offer.t_start) (clock.at_deadline now offer.t_start) (omega arith)
