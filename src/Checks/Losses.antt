-- ===== src/Checks/Losses.antt =====
-- bench/checks.py: what a verdict says of the messages that were counted.
use mqtt_python_client_bench.Prelude.{
  ℕ, ◌+◌, ◌/◌, ◌≤◌, ◌<◌, ◌≡◌, subst, Bool, false, List, [], ◌∷◌, arith, All, ◌==◌,
}
use mqtt_python_client_bench.Prelude.Int.{pos, ◌≤ℤ◌, ◌-ℤ◌, ◌+ℤ◌}
use mqtt_python_client_bench.Checks.{
  Kind, publish, subscribe, rtt, duplex, idle, Point, RunRecord, tolerance, peer_of, worker_of,
  sys_of,
}
use mqtt_python_client_bench.Checks.Items.{valid, Item, add_soft, no_loss}
use mqtt_python_client_bench.Checks.Rules.{
  publish_checks, delivery_checks, loss_checks, acked_checks, not_lost, by_drops,
}
use mqtt_python_client_bench.Checks.Evaluate.{evaluate}
use mqtt_python_client_bench.Checks.Verdict.{IsPassed, evaluate-valid_iff}

-- The slack of a count.
abbrev pub slack : ℕ → ℕ
slack n = 5 + n / 2000

-- One way that messages take: what was acknowledged of them (of the replies of an echo, what it sent), and
-- what the other side received.
pub record Way : Type 0 where
  pub acked : ℕ
  pub arrived : ℕ

abbrev pub outbound : RunRecord → Way
outbound r = record {
  acked = (worker_of r.worker).final.done;
  arrived = (peer_of r.peer).received_total;
}

-- The ways of a run: from the client to a peer, from a peer to the client, or both.
abbrev pub ways : Kind → RunRecord → List Way
ways publish r = outbound r ∷ []
ways subscribe r =
    record { acked = (peer_of r.peer).acked_total; arrived = (worker_of r.worker).final.received }
    ∷ []
ways rtt r =
    record { acked = (peer_of r.peer).echoed_total; arrived = (worker_of r.worker).final.received }
    ∷ []
ways duplex r =
    outbound r
    ∷ record {
      acked = (peer_of r.peer_source).acked_total;
      arrived = (worker_of r.worker).final.received;
    }
    ∷ []
ways idle r = []

abbrev pub Keeps : Way → Type 0
Keeps w = w.acked ≤ w.arrived + slack w.acked

-- A point at which a loss is held against the run: QoS 1 or 2, and not idle or a capacity offer to
-- the client.
abbrev pub Accounts : Kind → Point → Type 0
Accounts idle p = ⊥
Accounts subscribe p = (0 < p.qos) × (0 < p.rate)
Accounts _ p = 0 < p.qos

acked_checks-subscribe :
    (r : RunRecord)
    → 0 < r.point.rate
    → acked_checks subscribe r
      ≡ add_soft no_loss
          (not_lost (worker_of r.worker).final.received (peer_of r.peer).acked_total)
          (by_drops r)
        ∷ []
unfolding acked_checks
acked_checks-subscribe r h = ground arith

acked_checks-passed :
    (k : Kind) (r : RunRecord)
    → Accounts k r.point
    → All IsPassed (acked_checks k r)
    → All Keeps (ways k r)
unfolding acked_checks not_lost tolerance
acked_checks-passed idle r a h = absurd a
acked_checks-passed publish r a h = (ground (arith, h.0), tt)
acked_checks-passed duplex r a h = (ground (arith, h.0), (ground (arith, h.1), tt))
acked_checks-passed rtt r a h = (ground (arith, h.0), tt)
acked_checks-passed subscribe r a h =
    let fixed = subst (λ (l : List Item). All IsPassed l) (acked_checks-subscribe r a.1) h in
    (ground (arith, fixed.0), tt)

Accounts-qos : (k : Kind) (p : Point) → Accounts k p → (p.qos == 0) ≡ false
Accounts-qos idle p a = absurd a
Accounts-qos publish p a = ground arith
Accounts-qos duplex p a = ground arith
Accounts-qos rtt p a = ground arith
Accounts-qos subscribe p a = ground arith

loss_checks-acked :
    (r : RunRecord) → (r.point.qos == 0) ≡ false → loss_checks r ≡ acked_checks r.point.kind r
unfolding loss_checks
loss_checks-acked r h = ground arith

-- No silent loss: in a `valid` run of a point that accounts for its messages, on each way they take (at a
-- duplex point, from the client to the sink and from the source to the client), no more of what was
-- acknowledged, or of the replies that the echo sent, is missing at the other side than the slack of
-- 5 + 0.05 %.
pub evaluate-loss :
    (strict : Bool) (r : RunRecord)
    → Accounts r.point.kind r.point
    → (evaluate strict r).status ≡ valid
    → All Keeps (ways r.point.kind r)
evaluate-loss strict r a e = acked_checks-passed r.point.kind r a (
    subst (λ (l : List Item). All IsPassed l)
      (loss_checks-acked r (Accounts-qos r.point.kind r.point a))
      ((evaluate-valid_iff strict r).0 e).lost)

-- The counts of a publish run that the three parties agree on.
pub record Confirmed (r : RunRecord) : Type 0 where
  -- the broker received what the client completed, and no more than it sent
  pub completed :
      pos (worker_of r.worker).final.done
      ≤ℤ ((sys_of r.sys).received +ℤ pos (slack (worker_of r.worker).final.done))
  pub offered :
      (sys_of r.sys).received
      ≤ℤ (pos (worker_of r.worker).final.sent +ℤ pos (slack (worker_of r.worker).final.sent))
  -- the subscriber received what the broker sent
  pub sent_on :
      (sys_of r.sys).sent
      ≤ℤ (pos (peer_of r.peer).received_total +ℤ pos (slack (peer_of r.peer).received_total))
  pub delivered :
      pos (peer_of r.peer).received_total
      ≤ℤ ((sys_of r.sys).sent +ℤ pos (slack (peer_of r.peer).received_total))

publish_checks-Confirmed :
    (r : RunRecord)
    → All IsPassed (publish_checks publish r)
    → All IsPassed (delivery_checks publish r)
    → Confirmed r
unfolding publish_checks delivery_checks ◌+ℤ◌ ◌-ℤ◌
publish_checks-Confirmed r h k = record {
  completed = ground (arith, h.0);
  offered = ground (arith, h.0);
  sent_on = ground (arith, k.0);
  delivered = ground (arith, k.0);
}

-- In a `valid` publish run the counts of the client, the broker and the subscriber agree within the
-- slack, in both directions.
pub evaluate-Confirmed :
    (strict : Bool) (r : RunRecord)
    → r.point.kind ≡ publish
    → (evaluate strict r).status ≡ valid
    → Confirmed r
evaluate-Confirmed strict r k e =
    publish_checks-Confirmed r
      (subst (λ (i : Kind). All IsPassed (publish_checks i r)) k
        ((evaluate-valid_iff strict r).0 e).published)
      (subst (λ (i : Kind). All IsPassed (delivery_checks i r)) k
        ((evaluate-valid_iff strict r).0 e).delivered)
