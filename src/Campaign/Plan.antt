-- ===== src/Campaign/Plan.antt =====
-- bench/campaign.py, `plan`: which keys the order holds, and how often.
use Prim.Native.String.{String}
use text.Mathlib.Text.{◌==◌ as str_eq}
use text.Mathlib.TextEquality.{eq_iff}
use mqtt_python_client_bench.Prelude.{
  ℕ, zero, suc, ◌+◌, ◌*◌, ◌≡◌, ap, Bool, not, List, [], ◌∷◌, ◌++◌, ltb, leb, ◌==◌, if◌then◌else◌,
  ◌&&◌, take, drop, arith, Bool-cases, inl, inr, take-append-drop,
}
use mqtt_python_client_bench.Campaign.{Key, able, rotate, keys_of, turn, plan_point, plan}
use mqtt_python_client_bench.Campaign.Passes.{times}

-- How often a name occurs in a list.
abbrev pub count : String → List String → ℕ
count a [] = 0
count a (x ∷ xs) = if str_eq x a then suc (count a xs) else count a xs

count-append : (a : String) (xs ys : List String) → count a (xs ++ ys) ≡ count a xs + count a ys
count-append a [] ys = omega arith
count-append a (x ∷ xs) ys = ground (arith, count-append a xs ys)

pub times-append : (k : Key) (xs ys : List Key) → times k (xs ++ ys) ≡ times k xs + times k ys
times-append k [] ys = omega arith
times-append k (x ∷ xs) ys = ground (arith, times-append k xs ys)

-- A rotation is a rearrangement.
count-rotate : (a : String) (n : ℕ) (xs : List String) → count a (rotate n xs) ≡ count a xs
count-rotate a n xs = omega (
  arith,
  count-append a (drop n xs) (take n xs),
  count-append a (take n xs) (drop n xs),
  ap (count a) (take-append-drop n xs),
)

count-able :
    (a : String) (refused : String → Bool) (xs : List String)
    → count a (able refused xs) ≡ (if refused a then 0 else count a xs)
unfolding able
count-able a refused [] = ground arith
count-able a refused (x ∷ xs) = ground (arith, count-able a refused xs, eq_iff x a, ap refused)

times-keys_of :
    (k : Key) (point : String) (i : ℕ) (clients : List String)
    → times k (keys_of point i clients)
      ≡ (if str_eq point k.point && i == k.run then count k.client clients else 0)
times-keys_of k point i [] = ground arith
times-keys_of k point i (c ∷ clients) = ground (arith, times-keys_of k point i clients)

times-plan_point :
    (k : Key) (point : String) (clients : List String) (n i : ℕ)
    → times k (plan_point point clients n i) ≡ (
        if str_eq point k.point && (leb i k.run && ltb k.run (i + n))
        then count k.client clients
        else 0)
unfolding plan_point
times-plan_point k point clients zero i = ground arith
times-plan_point k point clients (suc n) i = ground (
  arith,
  times-append k (keys_of point i (rotate (turn i clients) clients))
      (plan_point point clients n (i + 1)),
  times-keys_of k point i (rotate (turn i clients) clients),
  count-rotate k.client (turn i clients) clients,
  times-plan_point k point clients n (i + 1),
)

-- The share of one point of the plan.
times-plan_here :
    (refused : String → String → Bool) (p : String) (clients : List String) (runs : ℕ) (k : Key)
    → times k (plan_point p (able (λ c. refused c p) clients) runs 0) ≡ (
        if str_eq p k.point && (not (refused k.client k.point) && ltb k.run runs)
        then count k.client clients
        else 0)
times-plan_here refused p clients runs k = elim (Bool-cases (str_eq p k.point)) [
  | inl e ↦ ground (
    arith,
    times-plan_point k p (able (λ c. refused c p) clients) runs 0,
    count-able k.client (λ c. refused c p) clients,
    ap (refused k.client) ((eq_iff p k.point).0 e),
  )
  | inr e ↦ ground (arith, times-plan_point k p (able (λ c. refused c p) clients) runs 0)
]

count_times :
    (a p : String) (ps : List String) (n : ℕ)
    → count a (p ∷ ps) * n ≡ (if str_eq p a then n else 0) + count a ps * n
count_times a p ps n = elim (Bool-cases (str_eq p a)) [
  | inl e ↦ rw e (omega arith)
  | inr e ↦ rw e (omega arith)
]

-- The order names a key once for each time that its point and its client are named, if the client
-- can run the point and the run's index is below the number of runs, and never otherwise.
pub times-plan :
    (refused : String → String → Bool) (points clients : List String) (runs : ℕ) (k : Key)
    → times k (plan refused points clients runs) ≡ (
        if not (refused k.client k.point) && ltb k.run runs
        then count k.point points * count k.client clients
        else 0)
unfolding plan
times-plan refused [] clients runs k = ground arith
times-plan refused (p ∷ points) clients runs k = ground (
  arith,
  times-append k (plan_point p (able (λ c. refused c p) clients) runs 0)
      (plan refused points clients runs),
  times-plan_here refused p clients runs k,
  times-plan refused points clients runs k,
  count_times k.point p points (count k.client clients),
)
