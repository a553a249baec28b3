-- ===== src/Drive/Fixed/Tick.antt =====
-- bench/drive.py, one tick of the open loops: which messages it publishes, and that the two loops
-- count alike.
use mqtt_python_client_bench.Prelude.{
  ℕ, zero, suc, ◌+◌, ◌≤◌, ◌<◌, ◌≡◌, refl, ap, ◌∙◌, fun_ext, List, [], ◌∷◌, ◌++◌, length,
  length-append, All, arith,
}
use mqtt_python_client_bench.Prelude.Int.{pos_part}
use mqtt_python_client_bench.Drive.{Run, owed, offered, used, max_due, stamp_send, due_ns}
use mqtt_python_client_bench.Drive.Offer.{due_ns_iff, offered_mono, Owes, owed-Owes}
use mqtt_python_client_bench.Drive.Fixed.{
  Env, Offer, publish_sync, publish_nowait, publish_range, range_trace, State, tick, pub_fixed_sync,
  pub_fixed_nowait,
}

stamp_send-counts :
    (run : Run) (i now : ℕ)
    → (used (stamp_send run i now) ≡ used run)
      × ((stamp_send run i now).sent + (stamp_send run i now).rejected ≡ run.sent + run.rejected)
      × ((stamp_send run i now).skipped ≡ run.skipped)
unfolding stamp_send
stamp_send-counts run i now = ground arith

publish_sync-counts :
    (env : Env) (i : ℕ) (run : Run)
    → ((publish_sync env i run).sent + (publish_sync env i run).rejected
        ≡ run.sent + run.rejected + 1)
      × ((publish_sync env i run).skipped ≡ run.skipped)
unfolding publish_sync
publish_sync-counts env i run = ground arith

pub publish_range-counts :
    (env : Env) (n i : ℕ) (run : Run)
    → ((publish_range (publish_sync env) n i run).sent
          + (publish_range (publish_sync env) n i run).rejected
        ≡ run.sent + run.rejected + n)
      × ((publish_range (publish_sync env) n i run).skipped ≡ run.skipped)
unfolding publish_range
publish_range-counts env zero i run = (omega arith, refl)
publish_range-counts env (suc n) i run =
    let ih = publish_range-counts env n (i + 1) (publish_sync env i run) in
    let one = publish_sync-counts env i run in (omega (arith, ih.0, one.0), ih.1 ∙ one.1)

-- Counting a message first and taking it back on a refusal counts as the other loop does.
publish_nowait-eq-sync :
    (env : Env) (i : ℕ) (run : Run) → publish_nowait env i run ≡ publish_sync env i run
unfolding publish_nowait publish_sync
publish_nowait-eq-sync env i run = ground arith

-- The nowait loop does what the sync loop does: the same publishes at the same ticks, and the same
-- counters.
pub pub_fixed_nowait-eq-sync :
    (env : Env) (offer : Offer) (fuel now : ℕ) (run : Run)
    → pub_fixed_nowait env offer fuel now run ≡ pub_fixed_sync env offer fuel now run
unfolding pub_fixed_nowait
pub_fixed_nowait-eq-sync env offer fuel now run =
    let e : publish_nowait env ≡ publish_sync env =
      fun_ext (λ i. fun_ext (λ r. publish_nowait-eq-sync env i r)) in
    rw e (unfold pub_fixed_sync in refl)

-- Strictly increasing indices from `lo` up to `hi`.
abbrev pub Increasing : ℕ → ℕ → List (ℕ × ℕ) → Type 0
Increasing lo hi [] = lo ≤ hi
Increasing lo hi ((i, at) ∷ t) = (lo ≤ i) × Increasing (i + 1) hi t

Increasing-append :
    (lo mid hi : ℕ) (s t : List (ℕ × ℕ))
    → Increasing lo mid s
    → Increasing mid hi t
    → Increasing lo hi (s ++ t)
Increasing-append lo mid hi [] [] a b = omega arith
Increasing-append lo mid hi [] ((i, at) ∷ t) a b = (omega arith, b.1)
Increasing-append lo mid hi ((i, at) ∷ s) t a b = (a.0, Increasing-append (i + 1) mid hi s t a.1 b)

range_trace-Increasing :
    (n i now lo hi : ℕ) → lo ≤ i → i + n ≤ hi → Increasing lo hi (range_trace n i now)
range_trace-Increasing zero i now lo hi a b = omega arith
range_trace-Increasing (suc n) i now lo hi a b =
    (a, range_trace-Increasing n (i + 1) now (i + 1) hi (omega arith) (omega arith))

-- A message is published once it is due, before the end, and with no more than `max_due` messages
-- of the offer between it and the schedule.
pub record Timely (offer : Offer) (call : ℕ × ℕ) : Type 0 where
  pub due : due_ns call.0 offer.rate offer.t_start ≤ call.1
  pub before_end : call.1 < offer.t_end
  pub caught_up : offered offer.rate offer.t_start call.1 ≤ call.0 + max_due offer.rate

range_trace-Timely :
    (offer : Offer) (n i now : ℕ)
    → 0 < offer.rate
    → offer.t_start ≤ now
    → now < offer.t_end
    → i + n ≤ offered offer.rate offer.t_start now
    → offered offer.rate offer.t_start now ≤ i + max_due offer.rate
    → All (Timely offer) (range_trace n i now)
range_trace-Timely offer zero i now r a b c d = tt
range_trace-Timely offer (suc n) i now r a b c d = (
  record {
    due = (due_ns_iff i offer.rate offer.t_start now r a).0 (omega arith);
    before_end = b;
    caught_up = d;
  },
  range_trace-Timely offer n (i + 1) now r a b (omega arith) (omega arith),
)

pub All-append {ℓ κ} :
    {A : Type ℓ} (P : A → Type κ) (xs ys : List A) → All P xs → All P ys → All P (xs ++ ys)
All-append P [] ys a b = b
All-append P (x ∷ xs) ys a b = (a.0, All-append P xs ys a.1 b)

length-range_trace : (n i now : ℕ) → length (range_trace n i now) ≡ n
length-range_trace zero i now = refl
length-range_trace (suc n) i now = ap suc (length-range_trace n (i + 1) now)

-- What holds of the loop after a tick at the reading `last`.
pub record Inv (offer : Offer) (last : ℕ) (s : State) : Type 0 where
  pub level : used s.run ≡ offered offer.rate offer.t_start last
  pub ordered : Increasing 0 (used s.run) s.trace
  pub timely : All (Timely offer) s.trace
  pub counted : length s.trace ≡ s.run.sent + s.run.rejected

module _ (env : Env) (offer : Offer) (last now : ℕ) (s : State) (inv : Inv offer last s)
    (rate_pos : 0 < offer.rate) (from_start : offer.t_start ≤ now) (in_time : now < offer.t_end)
    (later : last ≤ now) where
  abbrev due : ℕ
  due = pos_part (owed offer.rate offer.t_start now s.run (max_due offer.rate)).0

  abbrev after : Run
  after = (owed offer.rate offer.t_start now s.run (max_due offer.rate)).1

  owes :
      Owes
        (offered offer.rate offer.t_start now)
        (max_due offer.rate)
        s.run
        (owed offer.rate offer.t_start now s.run (max_due offer.rate)).0
        after
  owes =
      owed-Owes offer.rate offer.t_start now s.run (max_due offer.rate)
        (omega (arith, inv.level, offered_mono offer.rate offer.t_start last now later))

  skips : (after.sent ≡ s.run.sent) × (after.rejected ≡ s.run.rejected) × (used s.run ≤ used after)
  skips =
      let e = ap (λ (r : Run). r.sent) owes.only_skips in
      let f = ap (λ (r : Run). r.rejected) owes.only_skips in
      (e, f, omega (arith, e, f, owes.no_less))

  counts : used after + due ≤ used (publish_range (publish_sync env) due (used after) after)
  counts = omega (
    arith,
    (publish_range-counts env due (used after) after).0,
    (publish_range-counts env due (used after) after).1,
  )

  pub tick-Inv : Inv offer now (tick (publish_sync env) offer now s)
  unfolding tick
  tick-Inv = record {
    level = omega (
      arith,
      owes.settles,
      (publish_range-counts env due (used after) after).0,
      (publish_range-counts env due (used after) after).1,
    );
    ordered =
        Increasing-append 0 (used s.run) _ s.trace (range_trace due (used after) now) inv.ordered
          (range_trace-Increasing due (used after) now (used s.run) _ skips.2 counts);
    timely = All-append (Timely offer) s.trace (range_trace due (used after) now) inv.timely (
        range_trace-Timely offer due (used after) now rate_pos from_start in_time
          (omega (arith, owes.settles)) (omega (arith, owes.settles, owes.burst)));
    counted =
        length-append s.trace (range_trace due (used after) now)
        ∙ omega (
          arith,
          length-range_trace due (used after) now,
          inv.counted,
          skips.0,
          skips.1,
          (publish_range-counts env due (used after) after).0,
        );
  }
