-- ===== src/Campaign/Passes.antt =====
-- bench/campaign.py, the two passes of a campaign: what each key of the order has at the end.
use mqtt_python_client_bench.Prelude.{
  ℕ, suc, ◌+◌, ◌≤◌, ◌<◌, ◌≡◌, refl, ap, ◌∙◌, Bool, true, false, not, List, [], ◌∷◌, ◌++◌, leb, ◌==◌,
  if◌then◌else◌, ◌&&◌, ◌||◌, length, any, arith, Bool-cases, inl, inr, length-append, append_none,
}
use mqtt_python_client_bench.Checks.Items.{Status, is_invalid}
use mqtt_python_client_bench.Campaign.{
  Key, same_key, RunDoc, Store, attempts, done, add, run_pass, to_do, run_passes, max_attempts,
}
use mqtt_python_client_bench.Campaign.Attempts.{attempts-add, same_key→eq}

-- How often a key occurs in an order.
abbrev pub times : Key → List Key → ℕ
times k [] = 0
times k (j ∷ js) = if same_key j k then suc (times k js) else times k js

-- Some attempt at the key gave a result.
abbrev settled : List RunDoc → Bool
settled rs = any (λ r. not (is_invalid r.status)) rs

settled-append : (xs ys : List RunDoc) → settled (xs ++ ys) ≡ (settled xs || settled ys)
settled-append [] ys = refl
settled-append (x ∷ xs) ys = ground (arith, settled-append xs ys)

one_or_none : (b : Bool) (r : RunDoc) → length (if b then r ∷ [] else []) ≡ (if b then 1 else 0)
one_or_none true r = refl
one_or_none false r = refl

length-add :
    (s : Store) (r : RunDoc) (k : Key)
    → length (attempts (add s r) k) ≡ length (attempts s k) + (if same_key r.key k then 1 else 0)
length-add s r k =
    ap length (attempts-add s r k)
    ∙ length-append (attempts s k) (if same_key r.key k then r ∷ [] else [])
    ∙ ap (λ n. length (attempts s k) + n) (one_or_none (same_key r.key k) r)

-- A pass adds one attempt for each time that it comes to a key.
length-run_pass :
    (outcome : ℕ → Key → Status) (n : ℕ) (todo : List Key) (s : Store) (k : Key)
    → length (attempts (run_pass outcome n todo s) k) ≡ length (attempts s k) + times k todo
unfolding run_pass
length-run_pass outcome n [] s k = omega arith
length-run_pass outcome n (j ∷ todo) s k = ground (
  arith,
  length-add s (record { key = j; status = outcome n j; attempt = n }) k,
  length-run_pass outcome n todo (add s (record { key = j; status = outcome n j; attempt = n })) k,
)

settled-add :
    (s : Store) (r : RunDoc) (k : Key)
    → settled (attempts s k) ≡ true
    → settled (attempts (add s r) k) ≡ true
settled-add s r k h =
    ap settled (attempts-add s r k)
    ∙ settled-append (attempts s k) (if same_key r.key k then r ∷ [] else [])
    ∙ ap (λ b. b || settled (if same_key r.key k then r ∷ [] else [])) h

settled-run_pass :
    (outcome : ℕ → Key → Status) (n : ℕ) (todo : List Key) (s : Store) (k : Key)
    → settled (attempts s k) ≡ true
    → settled (attempts (run_pass outcome n todo s) k) ≡ true
unfolding run_pass
settled-run_pass outcome n [] s k h = h
settled-run_pass outcome n (j ∷ todo) s k h =
    settled-run_pass outcome n todo (add s (record { key = j; status = outcome n j; attempt = n }))
      k (settled-add s (record { key = j; status = outcome n j; attempt = n }) k h)

-- A pass leaves alone a key that it does not come to.
attempts-run_pass :
    (outcome : ℕ → Key → Status) (n : ℕ) (todo : List Key) (s : Store) (k : Key)
    → times k todo ≡ 0
    → attempts (run_pass outcome n todo s) k ≡ attempts s k
unfolding run_pass
attempts-run_pass outcome n [] s k h = refl
attempts-run_pass outcome n (j ∷ todo) s k h = elim (Bool-cases (same_key j k)) [
  | inl e ↦ ground arith
  | inr e ↦
      attempts-run_pass outcome n todo
        (add s (record { key = j; status = outcome n j; attempt = n })) k (ground arith)
      ∙ attempts-add s (record { key = j; status = outcome n j; attempt = n }) k
      ∙ ap
          (λ b.
            attempts s k
            ++ (if b then record { key = j; status = outcome n j; attempt = n } ∷ [] else []))
          e
      ∙ append_none (attempts s k)
]

-- Whether a pass comes to a key, and how often.
times-to_do :
    (n : ℕ) (order : List Key) (s : Store) (k : Key)
    → times k (to_do n order s)
      ≡ (if not (done s k) && length (attempts s k) == n then times k order else 0)
unfolding to_do
times-to_do n [] s k = ground arith
times-to_do n (j ∷ order) s k = elim (Bool-cases (same_key j k)) [
  | inl e ↦ ground (
    arith,
    times-to_do n order s k,
    ap (λ q. done s q) (same_key→eq j k e),
    ap (λ q. length (attempts s q)) (same_key→eq j k e),
  )
  | inr e ↦ ground (arith, times-to_do n order s k)
]

done_iff :
    (s : Store) (k : Key)
    → done s k ≡ (settled (attempts s k) || leb max_attempts (length (attempts s k)))
unfolding done
done_iff s k = refl

-- After both passes every key of the order is done: one of its attempts gave a result, or there
-- are max_attempts of them. This holds whatever the runs return, from any store.
pub run_passes-done :
    (outcome : ℕ → Key → Status) (order : List Key) (s : Store) (k : Key)
    → 0 < times k order
    → done (run_passes outcome order s) k ≡ true
unfolding run_passes
run_passes-done outcome order s k h =
    let first = run_pass outcome 0 (to_do 0 order s) s in
    ground (
      arith,
      done_iff s k,
      done_iff first k,
      done_iff (run_pass outcome 1 (to_do 1 order first) first) k,
      times-to_do 0 order s k,
      times-to_do 1 order first k,
      length-run_pass outcome 0 (to_do 0 order s) s k,
      length-run_pass outcome 1 (to_do 1 order first) first k,
      settled-run_pass outcome 0 (to_do 0 order s) s k,
      settled-run_pass outcome 1 (to_do 1 order first) first k,
    )

pub done_kept :
    (s t : Store) (k : Key) → attempts s k ≡ attempts t k → done t k ≡ true → done s k ≡ true
unfolding done
done_kept s t k h d = ap (λ rs. settled rs || leb max_attempts (length rs)) h ∙ d

-- A pass leaves a key alone that is done.
to_do_done :
    (outcome : ℕ → Key → Status) (n : ℕ) (order : List Key) (s : Store) (k : Key)
    → done s k ≡ true
    → attempts (run_pass outcome n (to_do n order s) s) k ≡ attempts s k
to_do_done outcome n order s k d =
    attempts-run_pass outcome n (to_do n order s) s k (ground (arith, times-to_do n order s k))

-- A key that is done before keeps its attempts as they are.
pub run_passes-attempts :
    (outcome : ℕ → Key → Status) (order : List Key) (s : Store) (k : Key)
    → done s k ≡ true
    → attempts (run_passes outcome order s) k ≡ attempts s k
unfolding run_passes
run_passes-attempts outcome order s k d =
    let first = run_pass outcome 0 (to_do 0 order s) s in
    let e = to_do_done outcome 0 order s k d in
    to_do_done outcome 1 order first k (done_kept first s k e d) ∙ e

-- A key that the order names once, with at most max_attempts attempts before, has no more than
-- max_attempts in the end.
pub run_passes-length :
    (outcome : ℕ → Key → Status) (order : List Key) (s : Store) (k : Key)
    → times k order ≤ 1
    → length (attempts s k) ≤ max_attempts
    → length (attempts (run_passes outcome order s) k) ≤ max_attempts
unfolding run_passes
run_passes-length outcome order s k once h =
    let first = run_pass outcome 0 (to_do 0 order s) s in
    ground (
      arith,
      done_iff s k,
      done_iff first k,
      times-to_do 0 order s k,
      times-to_do 1 order first k,
      length-run_pass outcome 0 (to_do 0 order s) s k,
      length-run_pass outcome 1 (to_do 1 order first) first k,
    )

-- A key that the order does not name keeps its attempts as they are.
pub run_passes-unnamed :
    (outcome : ℕ → Key → Status) (order : List Key) (s : Store) (k : Key)
    → times k order ≡ 0
    → attempts (run_passes outcome order s) k ≡ attempts s k
unfolding run_passes
run_passes-unnamed outcome order s k h =
    let first = run_pass outcome 0 (to_do 0 order s) s in
    attempts-run_pass outcome 1 (to_do 1 order first) first k
      (ground (arith, times-to_do 1 order first k))
    ∙ attempts-run_pass outcome 0 (to_do 0 order s) s k (ground (arith, times-to_do 0 order s k))
