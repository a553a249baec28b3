-- ===== src/Checks/Verdict.antt =====
-- bench/checks.py: what the status of a run says of its checks.
use mqtt_python_client_bench.Prelude.{
  ◌≡◌, ◌≢◌, ◌⊎◌, ◌↔◌, inl, inr, refl, sym, ◌∙◌, Bool, true, false, List, [], ◌∷◌, ◌++◌,
  if◌then◌else◌, arith, All, Bool-cases,
}
use mqtt_python_client_bench.Checks.{RunRecord}
use mqtt_python_client_bench.Checks.Items.{
  Status, valid, not_sustained, invalid, Item, is_invalid, status,
}
use mqtt_python_client_bench.Checks.Rules.{
  base_checks, publish_checks, delivery_checks, loss_checks, rate_checks, feature_checks,
}
use mqtt_python_client_bench.Checks.Evaluate.{evaluate, all_checks, broker_checks, host_checks}

abbrev pub IsPassed : Item → Type 0
IsPassed c = c.passed ≡ true

-- A check that does not make the run invalid: it passed, or its failure is the client's.
abbrev pub IsExcused : Item → Type 0
IsExcused c = (c.passed ≡ true) ⊎ (is_invalid c.severity ≡ false)

-- The status of one more check.
pub status-cons :
    (c : Item) (items : List Item)
    → status (c ∷ items) ≡ (
        if c.passed
        then status items
        else if is_invalid c.severity
        then invalid
        else if is_invalid (status items)
        then invalid
        else not_sustained)
unfolding status
status-cons c items = ground arith

status-nil : status [] ≡ valid
unfolding status
status-nil = refl

-- `valid` is the status exactly if every check passed.
pub status-valid_iff : (items : List Item) → (status items ≡ valid) ↔ All IsPassed items
status-valid_iff [] = (λ e. tt, λ h. status-nil)
status-valid_iff (c ∷ items) = (
  λ e.
      let p : c.passed ≡ true = ground (arith, status-cons c items) in
      (p, (status-valid_iff items).0 (ground (arith, status-cons c items, p))),
  λ h. ground (arith, status-cons c items, h.0, (status-valid_iff items).1 h.1),
)

-- The status is not `invalid` exactly if every failed check is excused.
pub status-invalid_iff : (items : List Item) → (status items ≢ invalid) ↔ All IsExcused items
status-invalid_iff [] = (λ e. tt, λ h. cc status-nil)
status-invalid_iff (c ∷ items) = (
  λ e. (
    excused c items e,
    (status-invalid_iff items).0 (λ f. e (ground (arith, status-cons c items))),
  ),
  λ h e. (status-invalid_iff items).1 h.1 (ground (arith, status-cons c items, h.0)),
)
  where
    excused : (d : Item) (ds : List Item) → status (d ∷ ds) ≢ invalid → IsExcused d
    excused d ds e = elim (Bool-cases d.passed) [
      | inl p ↦ inl p
      | inr p ↦ elim (Bool-cases (is_invalid d.severity)) [
        | inl q ↦ absurd (e (ground (arith, status-cons d ds)))
        | inr q ↦ inr q
      ]
    ]

-- All three values.
pub status-not_sustained_iff :
    (items : List Item)
    → (status items ≡ not_sustained) ↔ (All IsExcused items × (status items ≢ valid))
status-not_sustained_iff items = (
  λ e. ((status-invalid_iff items).0 (λ f. cc), λ f. cc),
  λ h. third (status items) ((status-invalid_iff items).1 h.0) h.1,
)
  where
    third : (s : Status) → s ≢ invalid → s ≢ valid → s ≡ not_sustained
    third s a b = ground arith

module _ {ℓ κ} {A : Type ℓ} (P : A → Type κ) where
  pub All-left : (xs ys : List A) → All P (xs ++ ys) → All P xs
  All-left [] ys h = tt
  All-left (x ∷ xs) ys h = (h.0, All-left xs ys h.1)

  pub All-right : (xs ys : List A) → All P (xs ++ ys) → All P ys
  All-right [] ys h = h
  All-right (x ∷ xs) ys h = All-right xs ys h.1

  pub All-join : (xs ys : List A) → All P xs → All P ys → All P (xs ++ ys)
  All-join [] ys a b = b
  All-join (x ∷ xs) ys a b = (a.0, All-join xs ys a.1 b)

-- The groups of checks of a run.
pub record EachGroup (P : Item → Type 0) (strict : Bool) (r : RunRecord) : Type 0 where
  pub base : All P (base_checks r)
  pub published : All P (publish_checks r.point.kind r)
  pub delivered : All P (delivery_checks r.point.kind r)
  pub lost : All P (loss_checks r)
  pub rated : All P (rate_checks r)
  pub featured : All P (feature_checks r)
  pub broker : All P (broker_checks r.point r.broker_cpu)
  pub host : All P (host_checks strict r.other_cores)

pub all_checks-EachGroup :
    (P : Item → Type 0) (strict : Bool) (r : RunRecord)
    → All P (all_checks strict r) ↔ EachGroup P strict r
unfolding all_checks
all_checks-EachGroup P strict r = (
  λ h.
      let a = All-right P (base_checks r) _ h in
      let b = All-right P (publish_checks r.point.kind r) _ a in
      let c = All-right P (delivery_checks r.point.kind r) _ b in
      let d = All-right P (loss_checks r) _ c in
      let e = All-right P (rate_checks r) _ d in
      let f = All-right P (feature_checks r) _ e in
      record {
        base = All-left P (base_checks r) _ h;
        published = All-left P (publish_checks r.point.kind r) _ a;
        delivered = All-left P (delivery_checks r.point.kind r) _ b;
        lost = All-left P (loss_checks r) _ c;
        rated = All-left P (rate_checks r) _ d;
        featured = All-left P (feature_checks r) _ e;
        broker = All-left P (broker_checks r.point r.broker_cpu) _ f;
        host = All-right P (broker_checks r.point r.broker_cpu) _ f;
      },
  λ g. All-join P (base_checks r) _ g.base (
      All-join P (publish_checks r.point.kind r) _ g.published (
        All-join P (delivery_checks r.point.kind r) _ g.delivered (
          All-join P (loss_checks r) _ g.lost (
            All-join P (rate_checks r) _ g.rated (
              All-join P (feature_checks r) _ g.featured
                (All-join P (broker_checks r.point r.broker_cpu) _ g.broker g.host)))))),
)

evaluate-full :
    (strict : Bool) (r : RunRecord)
    → is_invalid (status (base_checks r)) ≡ false
    → (evaluate strict r).status ≡ status (all_checks strict r)
unfolding evaluate
evaluate-full strict r h = ground arith

evaluate-early :
    (strict : Bool) (r : RunRecord)
    → is_invalid (status (base_checks r)) ≡ true
    → (evaluate strict r).status ≡ invalid
unfolding evaluate
evaluate-early strict r h = ground arith

pub of_is_invalid : (s : Status) → is_invalid s ≡ true → s ≡ invalid
of_is_invalid s h = ground arith

-- The early return gives the status that all the checks would have given.
pub evaluate-status :
    (strict : Bool) (r : RunRecord) → (evaluate strict r).status ≡ status (all_checks strict r)
evaluate-status strict r = elim (Bool-cases (is_invalid (status (base_checks r)))) [
  | inl early ↦ evaluate-early strict r early ∙ sym (whole early)
  | inr full ↦ evaluate-full strict r full
]
  where
    whole : is_invalid (status (base_checks r)) ≡ true → status (all_checks strict r) ≡ invalid
    whole early = elim (Bool-cases (is_invalid (status (all_checks strict r)))) [
      | inl e ↦ of_is_invalid (status (all_checks strict r)) e
      | inr e ↦ absurd (
          (status-invalid_iff (base_checks r)).1
            ((all_checks-EachGroup IsExcused strict r).0
              ((status-invalid_iff (all_checks strict r)).0 (λ f. cc))).base
            (of_is_invalid (status (base_checks r)) early))
    ]

-- A run is `valid` exactly if every check of every group passed, the early return included.
pub evaluate-valid_iff :
    (strict : Bool) (r : RunRecord)
    → ((evaluate strict r).status ≡ valid) ↔ EachGroup IsPassed strict r
evaluate-valid_iff strict r = (
  λ e.
      (all_checks-EachGroup IsPassed strict r).0
        ((status-valid_iff (all_checks strict r)).0 (sym (evaluate-status strict r) ∙ e)),
  λ g.
      evaluate-status strict r
      ∙ (status-valid_iff (all_checks strict r)).1 ((all_checks-EachGroup IsPassed strict r).1 g),
)

-- A run is not `invalid` exactly if each failed check of it is excused: what failed is the client.
pub evaluate-invalid_iff :
    (strict : Bool) (r : RunRecord)
    → ((evaluate strict r).status ≢ invalid) ↔ EachGroup IsExcused strict r
evaluate-invalid_iff strict r = (
  λ e.
      (all_checks-EachGroup IsExcused strict r).0
        ((status-invalid_iff (all_checks strict r)).0 (λ f. e (evaluate-status strict r ∙ f))),
  λ g e.
      (status-invalid_iff (all_checks strict r)).1 ((all_checks-EachGroup IsExcused strict r).1 g)
        (sym (evaluate-status strict r) ∙ e),
)
