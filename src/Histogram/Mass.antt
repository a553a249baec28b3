-- ===== src/Histogram/Mass.antt =====
-- The number of values below a bucket is the mass of the buckets below it.
use mqtt_python_client_bench.Prelude.{
  ℕ, zero, suc, ◌+◌, ◌≤◌, ◌<◌, ◌≡◌, ◌≢◌, refl, sym, subst, ◌∙◌, List, [], ◌∷◌, arith, ltb, ◌==◌,
  if◌then◌else◌, Bool-cases, inl, inr, dec_lt,
}
use mqtt_python_client_bench.Prelude.Int.{ℤ, pos, negsuc}
use mqtt_python_client_bench.Histogram.{Histogram}
use mqtt_python_client_bench.Histogram.Bucket.{
  bucket_of, bucket_bounds, bucket_of_bounds, bucket_of_unique,
}
use mqtt_python_client_bench.Histogram.Sorted.{at, IsAscending, IsAbove, at-cons, at-nil}
use mqtt_python_client_bench.Histogram.Counts.{n_values, in_bucket, Describes}
use mqtt_python_client_bench.Histogram.Walk.{low, high-low, low-suc}

-- How many of the values are below `b`.
abbrev pub n_below : ℕ → List ℤ → ℕ
n_below b [] = 0
n_below b (negsuc n ∷ vs) = n_below b vs
n_below b (pos v ∷ vs) = (if ltb v b then 1 else 0) + n_below b vs

abbrev pub mass_below : ℕ → List (ℕ × ℕ) → ℕ
mass_below i [] = 0
mass_below i ((k, c) ∷ l) = (if ltb k i then c else 0) + mass_below i l

pub mass_below-above : (i k : ℕ) (l : List (ℕ × ℕ)) → i ≤ suc k → IsAbove k l → mass_below i l ≡ 0
mass_below-above i k [] h a = refl
mass_below-above i k ((j, c) ∷ l) h a = ground (arith, mass_below-above i k l h a.1)

pub mass_below-suc :
    (i : ℕ) (l : List (ℕ × ℕ)) → IsAscending l → mass_below (suc i) l ≡ mass_below i l + at l i
mass_below-suc i [] h = omega (arith, at-nil i)
mass_below-suc i ((k, c) ∷ l) h = elim (Bool-cases (k == i)) [
  | inl hit ↦ ground (
    arith,
    at-cons k c i l,
    mass_below-above (suc i) k l (ground arith) h.0,
    mass_below-above i k l (ground arith) h.0,
  )
  | inr miss ↦ ground (arith, at-cons k c i l, mass_below-suc i l h.2)
]

pub within_one :
    (v a b c i : ℕ)
    → a < b
    → (c ≡ i → (a ≤ v) × (v < b))
    → (a ≤ v → v < b → c ≡ i)
    → (if ltb v b then 1 else 0) ≡ (if ltb v a then 1 else 0) + (if c == i then 1 else 0)
within_one v a b c i ab to from = elim (dec_lt v a) [
  | yes less ↦ let off : c ≢ i = λ e. absurd (omega (arith, (to e).0)) in ground arith
  | no ge ↦ elim (dec_lt v b) [
    | yes here ↦ let on : c ≡ i = from (omega arith) here in ground arith
    | no past ↦ let off : c ≢ i = λ e. absurd (omega (arith, (to e).1)) in ground arith
  ]
]

pub bucket_of-low :
    (v i : ℕ)
    → (if ltb v (low (suc i)) then 1 else 0)
      ≡ (if ltb v (low i) then 1 else 0) + (if bucket_of v == i then 1 else 0)
bucket_of-low v i =
    within_one v (low i) (low (suc i)) (bucket_of v) i (low-suc i)
      (λ e.
        subst (λ (k : ℕ). (low k ≤ v) × (v < low (suc k))) e
          ((bucket_of_bounds v).0, omega (arith, (bucket_of_bounds v).1, high-low (bucket_of v))))
      (λ lo hi. bucket_of_unique v i lo (omega (arith, high-low i)))

pub n_below-low-suc :
    (i : ℕ) (vs : List ℤ) → n_below (low (suc i)) vs ≡ n_below (low i) vs + in_bucket i vs
n_below-low-suc i [] = omega arith
n_below-low-suc i (negsuc v ∷ vs) = n_below-low-suc i vs
n_below-low-suc i (pos v ∷ vs) = omega (arith, bucket_of-low v i, n_below-low-suc i vs)

pub n_below-zero : (vs : List ℤ) → n_below 0 vs ≡ 0
n_below-zero [] = refl
n_below-zero (negsuc v ∷ vs) = n_below-zero vs
n_below-zero (pos v ∷ vs) = ground (arith, n_below-zero vs)

pub mass_below-zero : (l : List (ℕ × ℕ)) → mass_below 0 l ≡ 0
mass_below-zero [] = refl
mass_below-zero ((k, c) ∷ l) = ground (arith, mass_below-zero l)

pub low-zero : low 0 ≡ 0
unfolding bucket_bounds
low-zero = refl

-- The mass of the buckets below `i` is the number of values below its interval.
pub mass_below-n_below :
    (h : Histogram) (vs : List ℤ) (i : ℕ)
    → Describes h vs
    → mass_below i h.buckets ≡ n_below (low i) vs
mass_below-n_below h vs zero d = mass_below-zero h.buckets ∙ sym (rw low-zero (n_below-zero vs))
mass_below-n_below h vs (suc i) d = omega (
  arith,
  mass_below-suc i h.buckets d.ascending,
  mass_below-n_below h vs i d,
  n_below-low-suc i vs,
  d.counts i,
)

abbrev pub mass : List (ℕ × ℕ) → ℕ
mass [] = 0
mass ((k, c) ∷ l) = c + mass l

abbrev pub key_bound : List (ℕ × ℕ) → ℕ
key_bound [] = 0
key_bound ((k, c) ∷ l) = suc k + key_bound l

abbrev pub value_bound : List ℤ → ℕ
value_bound [] = 0
value_bound (negsuc v ∷ vs) = value_bound vs
value_bound (pos v ∷ vs) = suc v + value_bound vs

pub mass_below-all : (i : ℕ) (l : List (ℕ × ℕ)) → key_bound l ≤ i → mass_below i l ≡ mass l
mass_below-all i [] h = refl
mass_below-all i ((k, c) ∷ l) h = ground (arith, mass_below-all i l (omega arith))

pub n_below-all : (b : ℕ) (vs : List ℤ) → value_bound vs ≤ b → n_below b vs ≡ n_values vs
n_below-all b [] h = refl
n_below-all b (negsuc v ∷ vs) h = n_below-all b vs h
n_below-all b (pos v ∷ vs) h = ground (arith, n_below-all b vs (omega arith))

pub low-ge : (i : ℕ) → i ≤ low i
low-ge zero = omega arith
low-ge (suc i) = omega (arith, low-ge i, low-suc i)

-- The buckets hold every value that was binned.
pub mass-Describes : (h : Histogram) (vs : List ℤ) → Describes h vs → mass h.buckets ≡ h.count
mass-Describes h vs d =
    let top = key_bound h.buckets + value_bound vs in
    omega (
      arith,
      mass_below-all top h.buckets (omega arith),
      mass_below-n_below h vs top d,
      n_below-all (low top) vs (omega (arith, low-ge top)),
      d.count,
    )
