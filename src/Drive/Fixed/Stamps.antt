-- ===== src/Drive/Fixed/Stamps.antt =====
-- bench/drive.py, the send stamps of the open loops: an array with an index for each message of the
-- offer never overflows.
use mqtt_python_client_bench.Prelude.{
  ℕ, zero, suc, ◌+◌, ◌≤◌, ◌<◌, ◌≡◌, refl, ap, subst, ◌∙◌, List, [], ◌∷◌, length, set, replicate,
  arith, dec_lt,
}
use mqtt_python_client_bench.Prelude.Int.{ℤ, pos, pos_part}
use mqtt_python_client_bench.Drive.{Run, owed, offered, used, max_due, stamp_send, new_run, unsent}
use mqtt_python_client_bench.Drive.Offer.{offered_mono, Owes, owed-Owes}
use mqtt_python_client_bench.Drive.Fixed.{
  Env, IsClock, Offer, publish_sync, publish_range, State, tick, loop, Outcome, finished, running,
  pub_fixed_sync, begin, rounds,
}
use mqtt_python_client_bench.Drive.Fixed.Tick.{Inv, tick-Inv}
use mqtt_python_client_bench.Drive.Fixed.Loop.{
  Ends, pub_fixed_sync-Ends, loop-go, loop-stop, begin-Inv,
}

length-set : (xs : List ℤ) (i : ℕ) (v : ℤ) → length (set xs i v) ≡ length xs
length-set [] i v = refl
length-set (x ∷ xs) zero v = refl
length-set (x ∷ xs) (suc i) v = ap suc (length-set xs i v)

pub length-replicate : (n : ℕ) (v : ℤ) → length (replicate n v) ≡ n
length-replicate zero v = refl
length-replicate (suc n) v = ap suc (length-replicate n v)

-- The array still has its length, and nothing was written past it.
pub record Room (capacity : ℕ) (run : Run) : Type 0 where
  pub length_kept : length run.sends ≡ capacity
  pub none_lost : run.send_overflow ≡ 0

publish_sync-Room :
    (env : Env) (capacity i : ℕ) (run : Run)
    → i < capacity
    → Room capacity run
    → Room capacity (publish_sync env i run)
unfolding publish_sync stamp_send
publish_sync-Room env capacity i run h room = record {
  length_kept = ground (arith, room.length_kept, length-set run.sends i (pos (env.reading i)));
  none_lost = ground (arith, room.length_kept, room.none_lost);
}

publish_range-Room :
    (env : Env) (capacity n i : ℕ) (run : Run)
    → i + n ≤ capacity
    → Room capacity run
    → Room capacity (publish_range (publish_sync env) n i run)
unfolding publish_range
publish_range-Room env capacity zero i run h room = room
publish_range-Room env capacity (suc n) i run h room =
    publish_range-Room env capacity n (i + 1) (publish_sync env i run) (omega arith)
      (publish_sync-Room env capacity i run (omega arith) room)

Owes-Room :
    (total limit capacity : ℕ) (run : Run) (due : ℤ) (after : Run)
    → Owes total limit run due after
    → Room capacity run
    → Room capacity after
Owes-Room total limit capacity run due after o room = record {
  length_kept = ap (λ r. length r.sends) o.only_skips ∙ room.length_kept;
  none_lost = ap (λ r. r.send_overflow) o.only_skips ∙ room.none_lost;
}

abbrev pub state_of : Outcome → State
state_of (finished s) = s
state_of (running s) = s

loop-zero :
    (env : Env) (publish : ℕ → Run → Run) (offer : Offer) (now : ℕ) (s : State)
    → loop env publish offer zero now s ≡ running s
unfolding loop
loop-zero env publish offer now s = refl

module _ (env : Env) (clock : IsClock env) (offer : Offer) (rate_pos : 0 < offer.rate)
    (capacity : ℕ) (enough : offered offer.rate offer.t_start offer.t_end ≤ capacity) where
  tick-Room :
      (now last : ℕ) (s : State)
      → Inv offer last s
      → last ≤ now
      → now < offer.t_end
      → Room capacity s.run
      → Room capacity (tick (publish_sync env) offer now s).run
  unfolding tick
  tick-Room now last s inv later in_time room =
      let call = owed offer.rate offer.t_start now s.run (max_due offer.rate) in
      let owes =
        owed-Owes offer.rate offer.t_start now s.run (max_due offer.rate)
          (omega (arith, inv.level, offered_mono offer.rate offer.t_start last now later)) in
      publish_range-Room env capacity (pos_part call.0) (used call.1) call.1
        (omega (
          arith,
          owes.settles,
          offered_mono offer.rate offer.t_start now offer.t_end (omega arith),
        ))
        (Owes-Room _ _ capacity s.run call.0 call.1 owes room)

  loop-Room :
      (fuel now last : ℕ) (s : State)
      → Inv offer last s
      → last ≤ now
      → offer.t_start ≤ now
      → Room capacity s.run
      → Room capacity (state_of (loop env (publish_sync env) offer fuel now s)).run
  loop-Room zero now last s inv later from_start room =
      rw (loop-zero env (publish_sync env) offer now s) room
  loop-Room (suc f) now last s inv later from_start room = elim (dec_lt now offer.t_end) [
    | no past ↦ rw (loop-stop env (publish_sync env) offer f now s (omega arith)) room
    | yes in_time ↦
        let s' = tick (publish_sync env) offer now s in
        rw (loop-go env (publish_sync env) offer f now s in_time) (
          loop-Room f (env.wake now s'.next_tick) now s'
            (tick-Inv env offer last now s inv rate_pos from_start in_time later)
            (clock.forward now s'.next_tick) (omega (arith, clock.forward now s'.next_tick))
            (tick-Room now last s inv later in_time room))
  ]

  state_of-pub_fixed_sync-Room :
      (now latencies : ℕ)
      → Room capacity
          (state_of (pub_fixed_sync env offer (rounds offer) now (new_run latencies capacity))).run
  unfolding pub_fixed_sync
  state_of-pub_fixed_sync-Room now latencies =
      loop-Room (rounds offer) (env.wake now offer.t_start) offer.t_start
        (begin offer (new_run latencies capacity)) (begin-Inv offer latencies capacity)
        (clock.at_deadline now offer.t_start) (clock.at_deadline now offer.t_start)
        record { length_kept = length-replicate capacity unsent; none_lost = refl }

  -- With an index for each message of the offer, the loop ends with its array of send stamps as long
  -- as it was, and no stamp lost.
  pub pub_fixed_sync-Room :
      (now latencies : ℕ)
      → Ends
          (λ s. Room capacity s.run)
          (pub_fixed_sync env offer (rounds offer) now (new_run latencies capacity))
  pub_fixed_sync-Room now latencies =
      let e = pub_fixed_sync-Ends env clock offer rate_pos now latencies capacity in
      record {
        final = e.final;
        result = e.result;
        holds =
            subst (λ o. Room capacity (state_of o).run) e.result
              (state_of-pub_fixed_sync-Room now latencies);
      }
