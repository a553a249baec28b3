-- ===== src/Drive/Credits/Workers.antt =====
-- bench/drive.py, pub_fixed_awaited: what holds in every state that the pacer and the workers reach.
use mqtt_python_client_bench.Prelude.{
  ℕ, ◌+◌, ◌-◌, ◌≤◌, ◌<◌, ◌≡◌, refl, sym, ap, subst, ◌∙◌, Bool, true, false, List, [], ◌∷◌, ◌==◌,
  if◌then◌else◌, arith, Bool-cases, inl, inr, length, length-append,
}
use mqtt_python_client_bench.Drive.{offered, new_run}
use mqtt_python_client_bench.Drive.Offer.{offered_mono}
use mqtt_python_client_bench.Drive.Fixed.{Offer}
use mqtt_python_client_bench.Drive.Fixed.Loop.{offered-start}
use mqtt_python_client_bench.Drive.Credits.{
  Pool, init, remaining, pace, close, work, complete, Step, pacer_tick, pacer_end, worker_runs,
  publish_returns, Reach, here, next,
}
use mqtt_python_client_bench.Drive.Credits.Spans.{Spans, Ascends, Spans-le, Ascends-snoc}
use mqtt_python_client_bench.Drive.Credits.Pacer.{Books, pace-Books, pace-last}

close-Books : (total : ℕ) (p : Pool) → Books total 0 p → Books total 0 (close p)
unfolding close
close-Books total p b = record {
  level = omega (arith, b.level);
  issued = λ e. absurd (cc);
  top = b.top;
  published = b.published;
  upto = b.upto;
  edge = b.edge;
  spans = Spans-le b.top b.upto p.credits b.spans;
  counted = b.counted;
  outcomes = b.outcomes;
  workers = omega (arith, b.workers);
  awake = λ e. absurd (omega arith);
  closed = λ e. refl;
}

complete-Books :
    (total : ℕ) (ok : Bool) (p : Pool)
    → 0 < p.flying
    → Books total 0 p
    → Books total 0 (complete ok p)
unfolding complete
complete-Books total true p h b = record {
  level = b.level;
  issued = b.issued;
  top = b.top;
  published = b.published;
  upto = b.upto;
  edge = b.edge;
  spans = b.spans;
  counted = b.counted;
  outcomes = omega (arith, b.outcomes);
  workers = omega (arith, b.workers);
  awake = b.awake;
  closed = b.closed;
}
complete-Books total false p h b = record {
  level = b.level;
  issued = b.issued;
  top = b.top;
  published = b.published;
  upto = b.upto;
  edge = b.edge;
  spans = b.spans;
  counted = b.counted;
  outcomes = omega (arith, b.outcomes);
  workers = omega (arith, b.workers);
  awake = b.awake;
  closed = b.closed;
}

-- The oldest credit without its first message.
unfoldable spend : ℕ → ℕ → List (ℕ × ℕ) → List (ℕ × ℕ)
spend a z spans = if a + 1 == z then spans else (a + 1, z) ∷ spans

spend-Spans :
    (lo hi a z : ℕ) (spans : List (ℕ × ℕ))
    → Spans lo hi ((a, z) ∷ spans)
    → Spans (a + 1) hi (spend a z spans)
unfolding spend
spend-Spans lo hi a z spans h = elim (Bool-cases (a + 1 == z)) [
  | inl last ↦ let e : z ≡ a + 1 = ground arith in rw last (rw e at h.2)
  | inr more ↦ rw more (omega arith, ground arith, h.2)
]

remaining-spend :
    (a z : ℕ) (spans : List (ℕ × ℕ))
    → a < z
    → remaining ((a, z) ∷ spans) ≡ remaining (spend a z spans) + 1
unfolding spend
remaining-spend a z spans h = ground arith

take-Books :
    (total : ℕ) (p : Pool) (a z : ℕ) (spans : List (ℕ × ℕ))
    → p.credits ≡ (a, z) ∷ spans
    → 0 < p.ready
    → Books total 0 p
    → Books total 0 (work p ((a, z) ∷ spans))
unfolding work spend
take-Books total p a z spans e h b = record {
  level = omega (arith, b.level, spent);
  issued = λ live. omega (arith, b.issued live, spent);
  top = a + 1;
  published = Ascends-snoc 0 b.top a p.trace b.published whole.0;
  upto = b.upto;
  edge = b.edge;
  spans = spend-Spans b.top b.upto a z spans whole;
  counted = length-append p.trace (a ∷ []) ∙ omega (arith, b.counted);
  outcomes = omega (arith, b.outcomes);
  workers = omega (arith, b.workers);
  awake = λ k. absurd (cc ((b.awake k).0, e));
  closed = λ k. absurd (cc (b.closed k, e));
}
  where
    whole : Spans b.top b.upto ((a, z) ∷ spans)
    whole = subst (λ (c : List (ℕ × ℕ)). Spans b.top b.upto c) e b.spans

    spent : remaining p.credits ≡ remaining (spend a z spans) + 1
    spent = ap (λ (c : List (ℕ × ℕ)). remaining c) e ∙ remaining-spend a z spans whole.1

work-return :
    (p : Pool)
    → p.gate_done ≡ true
    → work p [] ≡ record p { ready = p.ready - 1; returned = p.returned + 1 }
unfolding work
work-return p h = ground arith

work-park :
    (p : Pool)
    → p.gate_done ≡ false
    → work p [] ≡ record p { ready = p.ready - 1; parked = p.parked + 1 }
unfolding work
work-park p h = ground arith

work-last : (p : Pool) (credits : List (ℕ × ℕ)) → (work p credits).last ≡ p.last
unfolding work
work-last p [] = ground arith
work-last p (span ∷ credits) = refl

work-Books :
    (total : ℕ) (p : Pool) (credits : List (ℕ × ℕ))
    → p.credits ≡ credits
    → 0 < p.ready
    → Books total 0 p
    → Books total 0 (work p credits)
work-Books total p [] e h b = elim (Bool-cases p.gate_done) [
  | inl done ↦
      subst (λ (q : Pool). Books total 0 q) (sym (work-return p done))
        record {
          level = b.level;
          issued = b.issued;
          top = b.top;
          published = b.published;
          upto = b.upto;
          edge = b.edge;
          spans = b.spans;
          counted = b.counted;
          outcomes = b.outcomes;
          workers = omega (arith, b.workers);
          awake = b.awake;
          closed = b.closed;
        }
  | inr live ↦
      subst (λ (q : Pool). Books total 0 q) (sym (work-park p live))
        record {
          level = b.level;
          issued = b.issued;
          top = b.top;
          published = b.published;
          upto = b.upto;
          edge = b.edge;
          spans = b.spans;
          counted = b.counted;
          outcomes = b.outcomes;
          workers = omega (arith, b.workers);
          awake = λ k. (e, live);
          closed = b.closed;
        }
]
work-Books total p ((a, z) ∷ spans) e h b = take-Books total p a z spans e h b

-- The invariant of the coroutines, at the pacer's last reading.
pub record Inv (offer : Offer) (p : Pool) : Type 0 where
  pub books : Books (offered offer.rate offer.t_start p.last) 0 p
  pub within :
      offered offer.rate offer.t_start p.last ≤ offered offer.rate offer.t_start offer.t_end

kept-Inv :
    (offer : Offer) (p q : Pool)
    → q.last ≡ p.last
    → Books (offered offer.rate offer.t_start p.last) 0 q
    → Inv offer p
    → Inv offer q
kept-Inv offer p q e b inv = record {
  books = subst (λ (t : ℕ). Books (offered offer.rate offer.t_start t) 0 q) (sym e) b;
  within = rw e inv.within;
}

Step-Inv : {offer : Offer} {p q : Pool} → Step offer p q → Inv offer p → Inv offer q
Step-Inv {offer} {p} (pacer_tick now live later in_time) inv = record {
  books =
      subst (λ (t : ℕ). Books (offered offer.rate offer.t_start t) 0 (pace offer now p))
        (sym (pace-last offer now p)) (pace-Books offer now p live later inv.books);
  within =
      rw (pace-last offer now p)
        (offered_mono offer.rate offer.t_start now offer.t_end (omega arith));
}
Step-Inv {offer} {p} (pacer_end now live past) inv =
    unfold close in kept-Inv offer p (close p) refl (close-Books _ p inv.books) inv
Step-Inv {offer} {p} (worker_runs h) inv =
    kept-Inv offer p (work p p.credits) (work-last p p.credits)
      (work-Books _ p p.credits refl h inv.books) inv
Step-Inv {offer} {p} (publish_returns ok h) inv =
    unfold complete in kept-Inv offer p (complete ok p) refl (complete-Books _ ok p h inv.books) inv

init-Inv : (offer : Offer) (capacity sends : ℕ) → Inv offer (init offer (new_run capacity sends))
init-Inv offer capacity sends = record {
  books = record {
    level = sym (offered-start offer);
    issued = λ e. refl;
    top = 0;
    published = omega arith;
    upto = 0;
    edge = sym (offered-start offer);
    spans = omega arith;
    counted = refl;
    outcomes = refl;
    workers = refl;
    awake = λ e. absurd (omega arith);
    closed = λ e. refl;
  };
  within = omega (arith, offered-start offer);
}

Reach-Inv :
    (offer : Offer) (capacity sends : ℕ) {p : Pool}
    → Reach offer (new_run capacity sends) p
    → Inv offer p
Reach-Inv offer capacity sends here = init-Inv offer capacity sends
Reach-Inv offer capacity sends (next r st) = Step-Inv st (Reach-Inv offer capacity sends r)

-- What a state of the pool satisfies.
pub record IsSound (offer : Offer) (p : Pool) : Type 0 where
  pub level :
      p.run.sent + remaining p.credits + p.run.skipped ≡ offered offer.rate offer.t_start p.last
  pub once : (top : ℕ) × Ascends 0 top p.trace × (top ≤ offered offer.rate offer.t_start p.last)
  pub counted : length p.trace ≡ p.run.sent
  pub outcomes : p.run.done + p.run.failed + p.flying ≡ p.run.sent
  pub awake : 0 < p.parked → (p.credits ≡ []) × (p.gate_done ≡ false)
  pub settled :
      p.gate_done ≡ true → p.run.sent + p.run.skipped ≡ offered offer.rate offer.t_start p.last
  pub within :
      offered offer.rate offer.t_start p.last ≤ offered offer.rate offer.t_start offer.t_end

-- In every state that the pacer and the 256 workers reach, in any interleaving: the messages sent,
-- still in credit and skipped add up to what the offer had counted at the pacer's last reading; the
-- published indices ascend strictly, so no message is published twice; every publish is done,
-- failed or in flight; no worker is parked while there is a credit, or after the end; after the end
-- sent and skipped add up to that offer; and it stays within the whole one.
pub Reach-IsSound :
    (offer : Offer) (capacity sends : ℕ) (p : Pool)
    → Reach offer (new_run capacity sends) p
    → IsSound offer p
Reach-IsSound offer capacity sends p r = record {
  level = omega (arith, b.level);
  once = (b.top, b.published, omega (arith, Spans-le b.top b.upto p.credits b.spans, b.edge));
  counted = b.counted;
  outcomes = b.outcomes;
  awake = b.awake;
  settled = λ e. omega (arith, b.level, ap (λ (c : List (ℕ × ℕ)). remaining c) (b.closed e));
  within = (Reach-Inv offer capacity sends r).within;
}
  where
    b : Books (offered offer.rate offer.t_start p.last) 0 p
    b = (Reach-Inv offer capacity sends r).books
