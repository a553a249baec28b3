-- ===== src/Checks/Blame.antt =====
-- bench/checks.py: whose failure a status reports. A check is held against the harness unless the
-- client alone can fail it.
use mqtt_python_client_bench.Prelude.{
  ℕ, ◌*◌, ◌≤◌, ◌<◌, ◌≡◌, ◌≢◌, ◌↔◌, inl, inr, refl, subst, Bool, true, false, Option, none, some,
  List, [], ◌∷◌, if◌then◌else◌, ◌||◌, arith, All, Bool-cases, ◌==◌,
}
use mqtt_python_client_bench.Checks.{
  Kind, publish, subscribe, rtt, duplex, idle, Point, RunRecord, Cores, is_quiet, is_kind, peer_of,
  below_limit,
}
use mqtt_python_client_bench.Checks.Items.{
  valid, not_sustained, invalid, Item, Name, is_invalid, add, host_quiet, broker_headroom,
  callbacks_matched, properties_delivered, topic_alias_used,
}
use mqtt_python_client_bench.Checks.Rules.{
  base_checks, party_checks, publish_checks, delivery_checks, acked_checks, loss_checks,
  rate_checks, feature_checks, payload_check, when, payload_checks, filter_checks, property_checks,
  alias_checks,
}
use mqtt_python_client_bench.Checks.Evaluate.{evaluate, broker_checks, host_checks, fixed_or_idle}
use mqtt_python_client_bench.Checks.Verdict.{
  IsPassed, IsExcused, EachGroup, evaluate-valid_iff, evaluate-invalid_iff, of_is_invalid, All-join,
}

-- Held against the harness.
abbrev pub IsHard : Item → Type 0
IsHard c = c.severity ≡ invalid

hard-IsPassed : (items : List Item) → All IsHard items → All IsExcused items → All IsPassed items
hard-IsPassed [] h e = tt
hard-IsPassed (c ∷ items) h e = (ground (arith, h.0, e.0), hard-IsPassed items h.1 e.1)

party_checks-IsHard : (k : Kind) (r : RunRecord) → All IsHard (party_checks k r)
unfolding party_checks
party_checks-IsHard idle r = tt
party_checks-IsHard publish r = (refl, tt)
party_checks-IsHard subscribe r = (refl, tt)
party_checks-IsHard rtt r = (refl, tt)
party_checks-IsHard duplex r = (refl, (refl, tt))

base_checks-IsHard : (r : RunRecord) → All IsHard (base_checks r)
unfolding base_checks
base_checks-IsHard r = (
  refl,
  All-join IsHard (party_checks r.point.kind r) _ (party_checks-IsHard r.point.kind r) (refl, tt),
)

publish_checks-IsHard : (k : Kind) (r : RunRecord) → All IsHard (publish_checks k r)
unfolding publish_checks
publish_checks-IsHard idle r = tt
publish_checks-IsHard publish r = (refl, tt)
publish_checks-IsHard subscribe r = (refl, tt)
publish_checks-IsHard rtt r = (refl, tt)
publish_checks-IsHard duplex r = (refl, tt)

if_IsHard :
    (b : Bool) (xs ys : List Item)
    → All IsHard xs
    → All IsHard ys
    → All IsHard (if b then xs else ys)
if_IsHard true xs ys h k = h
if_IsHard false xs ys h k = k

delivery_checks-IsHard : (k : Kind) (r : RunRecord) → All IsHard (delivery_checks k r)
unfolding delivery_checks
delivery_checks-IsHard idle r = tt
delivery_checks-IsHard publish r = (refl, tt)
delivery_checks-IsHard subscribe r = if_IsHard (r.point.rate == 0) _ _ (refl, tt) (refl, tt)
delivery_checks-IsHard rtt r = (refl, tt)
delivery_checks-IsHard duplex r = (refl, tt)

-- The kinds of point that are never a fixed offer in both directions.
abbrev pub IsOneWay : Kind → Type 0
IsOneWay rtt = ⊥
IsOneWay duplex = ⊥
IsOneWay _ = Unit

acked_checks-IsHard :
    (k : Kind) (r : RunRecord) → IsOneWay k → r.point.rate ≡ 0 → All IsHard (acked_checks k r)
unfolding acked_checks
acked_checks-IsHard publish r o z = (refl, tt)
acked_checks-IsHard subscribe r o z = simp z tt
acked_checks-IsHard idle r o z = tt
acked_checks-IsHard rtt r o z = absurd o
acked_checks-IsHard duplex r o z = absurd o

loss_checks-IsHard :
    (r : RunRecord) → IsOneWay r.point.kind → r.point.rate ≡ 0 → All IsHard (loss_checks r)
unfolding loss_checks
loss_checks-IsHard r o z =
    if_IsHard (r.point.qos == 0) [] (acked_checks r.point.kind r) tt
      (acked_checks-IsHard r.point.kind r o z)

rate_checks-IsHard : (r : RunRecord) → r.point.rate ≡ 0 → All IsHard (rate_checks r)
unfolding rate_checks
rate_checks-IsHard r z = simp z tt

payload_check-IsHard : (o : Option ℕ) → All IsHard (payload_check o)
payload_check-IsHard none = tt
payload_check-IsHard (some n) = (refl, tt)

when-IsHard : (b : Bool) (name : Name) (passed : Bool) → All IsHard (when b (add name passed))
unfolding when
when-IsHard true name passed = (refl, tt)
when-IsHard false name passed = tt

excused_when :
    (name : Name) (passed : Bool) → All IsExcused (when true (add name passed)) → passed ≡ true
unfolding when
excused_when name passed h = ground (arith, h.0)

payload_checks-IsHard : (r : RunRecord) → All IsHard (payload_checks r)
unfolding payload_checks
payload_checks-IsHard r =
    if_IsHard (is_kind r.point.kind publish || is_kind r.point.kind duplex)
      (payload_check (peer_of r.peer).size_mismatch) []
      (payload_check-IsHard (peer_of r.peer).size_mismatch) tt

feature_checks-IsHard : (r : RunRecord) → All IsHard (feature_checks r)
unfolding feature_checks
feature_checks-IsHard r = All-join IsHard (payload_checks r) _ (payload_checks-IsHard r) (
    All-join IsHard (filter_checks r) _ (when-IsHard _ callbacks_matched _) (
      All-join IsHard (property_checks r) (alias_checks r) (when-IsHard _ properties_delivered _)
        (when-IsHard _ topic_alias_used _)))

broker_checks-IsHard : (p : Point) (o : Option Cores) → All IsHard (broker_checks p o)
broker_checks-IsHard p none = unfold broker_checks in tt
broker_checks-IsHard p (some c) =
    unfold broker_checks in when-IsHard (fixed_or_idle p) broker_headroom (below_limit c)

host_checks-IsHard : (strict : Bool) (o : Option Cores) → All IsHard (host_checks strict o)
host_checks-IsHard strict none = unfold host_checks in tt
host_checks-IsHard strict (some c) =
    unfold host_checks in when-IsHard strict host_quiet (is_quiet c)

loud_host : (c : Cores) → c.den < 2 * c.num → ¬ (All IsExcused (host_checks true (some c)))
unfolding host_checks
loud_host c l h = ground (arith, excused_when host_quiet (is_quiet c) h)

-- A capacity point that publishes or receives, or an idle one, is never `not_sustained`: there is
-- no fixed offer that the client could fail to hold.
pub evaluate-capacity :
    (strict : Bool) (r : RunRecord)
    → IsOneWay r.point.kind
    → r.point.rate ≡ 0
    → (evaluate strict r).status ≢ not_sustained
evaluate-capacity strict r o z e =
    let g = (evaluate-invalid_iff strict r).0 (λ f. cc) in
    let v = (evaluate-valid_iff strict r).1 record {
      base = hard-IsPassed _ (base_checks-IsHard r) g.base;
      published = hard-IsPassed _ (publish_checks-IsHard r.point.kind r) g.published;
      delivered = hard-IsPassed _ (delivery_checks-IsHard r.point.kind r) g.delivered;
      lost = hard-IsPassed _ (loss_checks-IsHard r o z) g.lost;
      rated = hard-IsPassed _ (rate_checks-IsHard r z) g.rated;
      featured = hard-IsPassed _ (feature_checks-IsHard r) g.featured;
      broker = hard-IsPassed _ (broker_checks-IsHard r.point r.broker_cpu) g.broker;
      host = hard-IsPassed _ (host_checks-IsHard strict r.other_cores) g.host;
    } in
    cc

-- On a comparable profile a host on which others use more than half a core makes the run `invalid`,
-- whatever the counts say.
pub evaluate-noisy :
    (r : RunRecord) (noise : Cores)
    → r.other_cores ≡ some noise
    → noise.den < 2 * noise.num
    → (evaluate true r).status ≡ invalid
evaluate-noisy r noise e loud = elim (Bool-cases (is_invalid (evaluate true r).status)) [
  | inl yes_it_is ↦ of_is_invalid (evaluate true r).status yes_it_is
  | inr not_it ↦
      let g = (evaluate-invalid_iff true r).0 (λ f. cc) in
      absurd (
        loud_host noise loud
          (subst (λ (o : Option Cores). All IsExcused (host_checks true o)) e g.host))
]

regroup :
    (s t : Bool) (r : RunRecord)
    → EachGroup IsPassed s r
    → All IsPassed (host_checks t r.other_cores)
    → EachGroup IsPassed t r
regroup s t r g h = record {
  base = g.base;
  published = g.published;
  delivered = g.delivered;
  lost = g.lost;
  rated = g.rated;
  featured = g.featured;
  broker = g.broker;
  host = h;
}

-- The host was quiet, or nothing was recorded of it.
abbrev pub Quiet : Option Cores → Type 0
Quiet none = Unit
Quiet (some c) = 2 * c.num ≤ c.den

strict-IsPassed : (o : Option Cores) → All IsPassed (host_checks true o) ↔ Quiet o
unfolding host_checks
strict-IsPassed none = (λ h. tt, λ h. tt)
strict-IsPassed (some c) = (λ h. ground (arith, h.0), λ h. (ground arith, tt))

lenient-IsPassed : (o : Option Cores) → All IsPassed (host_checks false o)
unfolding host_checks
lenient-IsPassed none = tt
lenient-IsPassed (some c) = tt

-- The profiles differ in the host alone: a run is `valid` on a comparable profile exactly if it is
-- `valid` on any other one and the host was quiet.
pub evaluate-strict_iff :
    (r : RunRecord)
    → ((evaluate true r).status ≡ valid)
      ↔ (((evaluate false r).status ≡ valid) × Quiet r.other_cores)
evaluate-strict_iff r = (
  λ e.
      let g = (evaluate-valid_iff true r).0 e in
      (
        (evaluate-valid_iff false r).1 (regroup true false r g (lenient-IsPassed r.other_cores)),
        (strict-IsPassed r.other_cores).0 g.host,
      ),
  λ p.
      let g = (evaluate-valid_iff false r).0 p.0 in
      (evaluate-valid_iff true r).1
        (regroup false true r g ((strict-IsPassed r.other_cores).1 p.1)),
)
