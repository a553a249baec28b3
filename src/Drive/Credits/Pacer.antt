-- ===== src/Drive/Credits/Pacer.antt =====
-- bench/drive.py, the pacer of pub_fixed_awaited: each round brings the books level with the offer.
use mqtt_python_client_bench.Prelude.{
  ℕ, zero, suc, ◌+◌, ◌-◌, ◌≤◌, ◌<◌, ◌≡◌, refl, ◌∙◌, true, false, [], arith, Bool-cases, inl, inr,
  length,
}
use mqtt_python_client_bench.Prelude.Int.{ℤ, pos, sub_ℕ, pos_part, ltb_ℤ}
use mqtt_python_client_bench.Drive.{offered, max_due}
use mqtt_python_client_bench.Drive.Offer.{offered_mono}
use mqtt_python_client_bench.Drive.Fixed.{Offer}
use mqtt_python_client_bench.Drive.Credits.{
  Pool, awaited_fixed_workers, remaining, extend, hand_out, pace,
}
use mqtt_python_client_bench.Drive.Credits.Spans.{
  Spans, Ascends, Spans-widen, extend-Spans, remaining-extend,
}

-- `total` messages were counted by the offer, and `owing` of them are not handed out yet.
pub record Books (total owing : ℕ) (p : Pool) : Type 0 where
  -- every message handed out or skipped once, and no other
  pub level : p.run.sent + remaining p.credits + p.run.skipped + owing ≡ total
  pub issued : p.gate_done ≡ false → p.issued ≡ p.run.sent + remaining p.credits
  -- the published indices ascend, and the credits ascend above them
  pub top : ℕ
  pub published : Ascends 0 top p.trace
  pub upto : ℕ
  pub edge : upto + owing ≡ total
  pub spans : Spans top upto p.credits
  pub counted : length p.trace ≡ p.run.sent
  pub outcomes : p.run.done + p.run.failed + p.flying ≡ p.run.sent
  pub workers : p.parked + p.ready + p.flying + p.returned ≡ awaited_fixed_workers
  pub awake : 0 < p.parked → (p.credits ≡ []) × (p.gate_done ≡ false)
  pub closed : p.gate_done ≡ true → p.credits ≡ []

hand_out-Books :
    (total n : ℕ) (p : Pool)
    → p.gate_done ≡ false
    → Books total n p
    → Books total 0 (hand_out total n p)
unfolding hand_out
hand_out-Books total zero p live b = b
hand_out-Books total (suc n) p live b = record {
  level = omega (arith, b.level, grown);
  issued = λ e. omega (arith, b.issued e, grown);
  top = b.top;
  published = b.published;
  upto = total;
  edge = omega arith;
  spans =
      extend-Spans b.top b.upto (total - suc n) total p.credits (omega (arith, b.edge))
        (omega (arith, b.edge)) b.spans;
  counted = b.counted;
  outcomes = b.outcomes;
  workers = omega (arith, b.workers);
  awake = λ e. absurd (omega arith);
  closed = λ e. absurd (cc);
}
  where
    grown : remaining (extend p.credits (total - suc n) total) ≡ remaining p.credits + suc n
    grown =
        remaining-extend b.top b.upto (total - suc n) total p.credits (omega (arith, b.edge))
          (omega (arith, b.edge)) b.spans
        ∙ omega (arith, b.edge)

-- At a later reading the same books owe what the offer has counted since.
Books-later :
    (old total : ℕ) (p : Pool) (now skipped skip owing : ℕ)
    → p.gate_done ≡ false
    → skipped ≡ p.run.skipped + skip
    → old + skip + owing ≡ total
    → Books old 0 p
    → Books total owing (record p { last = now; run = record p.run { skipped = skipped } })
Books-later old total p now skipped skip owing live e sum b = record {
  level = omega (arith, b.level);
  issued = b.issued;
  top = b.top;
  published = b.published;
  upto = b.upto + skip;
  edge = omega (arith, b.edge);
  spans = Spans-widen b.top b.upto (b.upto + skip) p.credits (omega arith) b.spans;
  counted = b.counted;
  outcomes = b.outcomes;
  workers = b.workers;
  awake = b.awake;
  closed = λ e. absurd (cc);
}

hand_out-last : (total n : ℕ) (p : Pool) → (hand_out total n p).last ≡ p.last
unfolding hand_out
hand_out-last total zero p = refl
hand_out-last total (suc n) p = refl

pub pace-last : (offer : Offer) (now : ℕ) (p : Pool) → (pace offer now p).last ≡ now
unfolding pace
pace-last offer now p = ground (
  arith,
  hand_out-last total most (record p {
    last = now;
    run = record p.run { skipped = p.run.skipped + (pos_part due - most) };
  }),
  hand_out-last total (pos_part due) (record p { last = now }),
)
  where
    total : ℕ
    total = offered offer.rate offer.t_start now

    most : ℕ
    most = max_due offer.rate

    due : ℤ
    due = sub_ℕ total (p.issued + p.run.skipped)

due_sum :
    (old total behind : ℕ)
    → behind ≡ old
    → old ≤ total
    → old + 0 + pos_part (sub_ℕ total behind) ≡ total
due_sum old total behind e h = ground arith

over_limit : (most : ℕ) (due : ℤ) → ltb_ℤ (pos most) due ≡ true → most ≤ pos_part due
over_limit most due h = ground arith

pub pace-Books :
    (offer : Offer) (now : ℕ) (p : Pool)
    → p.gate_done ≡ false
    → p.last ≤ now
    → Books (offered offer.rate offer.t_start p.last) 0 p
    → Books (offered offer.rate offer.t_start now) 0 (pace offer now p)
unfolding pace
pace-Books offer now p live later b = elim (Bool-cases (ltb_ℤ (pos most) due)) [
  | inl over ↦ rw over (
      hand_out-Books total most
        (record p {
          last = now;
          run = record p.run { skipped = p.run.skipped + (pos_part due - most) };
        })
        live
        (Books-later old total p now (p.run.skipped + (pos_part due - most)) (pos_part due - most)
          most live refl (over_sum over) b))
  | inr under ↦ rw under (
      hand_out-Books total (pos_part due) (record p { last = now }) live
        (Books-later old total p now p.run.skipped 0 (pos_part due) live (omega arith) under_sum b))
]
  where
    total : ℕ
    total = offered offer.rate offer.t_start now

    old : ℕ
    old = offered offer.rate offer.t_start p.last

    most : ℕ
    most = max_due offer.rate

    due : ℤ
    due = sub_ℕ total (p.issued + p.run.skipped)

    behind : p.issued + p.run.skipped ≡ old
    behind = omega (arith, b.issued live, b.level)

    grows : old ≤ total
    grows = offered_mono offer.rate offer.t_start p.last now later

    under_sum : old + 0 + pos_part due ≡ total
    under_sum = due_sum old total (p.issued + p.run.skipped) behind grows

    over_sum : ltb_ℤ (pos most) due ≡ true → old + (pos_part due - most) + most ≡ total
    over_sum h = let e = under_sum in omega (arith, over_limit most due h)
