-- ===== src/Histogram/Bucket.antt =====
-- bench/histogram.py, bucket_of and bucket_bounds: the buckets cut the naturals into half-open
-- intervals.
use mqtt_python_client_bench.Prelude.{
  ℕ, suc, ◌+◌, ◌-◌, ◌*◌, ◌/◌, ◌%◌, ◌^◌, ◌≤◌, ◌<◌, ◌≡◌, refl, ap, false, arith, ltb, if◌then◌else◌,
  dec_lt, lt→ltb, ◌∙◌, sym, subst, ◌↔◌,
}
use mqtt_python_client_bench.Histogram.Bits.{
  bit_length, pow_two_suc, pow_two_pos, pow_two_mono, bit_length_bounds, bit_length_unique,
}

abbrev pub sub_buckets : ℕ
sub_buckets = 16

abbrev pub n_buckets : ℕ
n_buckets = 976

-- `>> k` is `/ 2 ^ k`, and `& (sub_buckets - 1)` is `% sub_buckets`.
unfoldable pub bucket_of : ℕ → ℕ
unfolding bit_length
bucket_of value =
    let e = bit_length value - 1 in
    if ltb value 32 then value else (e - 3) * sub_buckets + value / 2 ^ (e - 4) % sub_buckets

unfoldable pub bucket_bounds : ℕ → ℕ × ℕ
bucket_bounds index =
    let e = index / sub_buckets + 3 in
    let width = 2 ^ (e - 4) in
    let low = (sub_buckets + index % sub_buckets) * 2 ^ (e - 4) in
    if ltb index 32 then (index, index + 1) else (low, low + width)

-- The normal form of a value from 32 on: `(16 + sub) * 2 ^ d` is the power of two and the step
-- within it that its bucket starts at.
record Scaled (value d sub : ℕ) : Type 0 where
  above : (16 + sub) * 2 ^ d ≤ value
  below : value < (16 + sub) * 2 ^ d + 2 ^ d
  octave : 0 < d
  step : sub < 16

pow_two_add_four : (d : ℕ) → 2 ^ suc (suc (suc (suc d))) ≡ 16 * 2 ^ d
pow_two_add_four d = omega (
  arith,
  pow_two_suc d,
  pow_two_suc (suc d),
  pow_two_suc (suc (suc d)),
  pow_two_suc (suc (suc (suc d))),
)

bit_length-Scaled : (v d sub : ℕ) → Scaled v d sub → bit_length v ≡ suc (suc (suc (suc (suc d))))
bit_length-Scaled v d sub s =
    bit_length_unique v (suc (suc (suc (suc d)))) (grind (arith, pow_two_add_four d))
      (grind (arith, pow_two_add_four d, pow_two_suc (suc (suc (suc (suc d))))))

div_unique : (v p q : ℕ) → q * p ≤ v → v < q * p + p → v / p ≡ q
div_unique v p q lo hi = grind arith

Scaled-ge : (v d sub : ℕ) → Scaled v d sub → 32 ≤ v
Scaled-ge v d sub s = grind (arith, pow_two_mono 1 d)

bucket_of-Scaled : (v d sub : ℕ) → Scaled v d sub → bucket_of v ≡ suc d * 16 + sub
unfolding bucket_of
bucket_of-Scaled v d sub s =
    rw (bit_length-Scaled v d sub s)
      (ground (arith, div_unique v (2 ^ d) (16 + sub) s.above s.below, big))
  where
    big : 32 ≤ v
    big = omega (arith, Scaled-ge v d sub s)

bucket_bounds-Scaled :
    (d sub : ℕ)
    → 0 < d
    → sub < 16
    → bucket_bounds (suc d * 16 + sub) ≡ ((16 + sub) * 2 ^ d, (16 + sub) * 2 ^ d + 2 ^ d)
unfolding bucket_bounds
bucket_bounds-Scaled d sub h k =
    let e : (suc d * 16 + sub) / 16 + 3 - 4 ≡ d = omega arith in
    let f : (suc d * 16 + sub) % 16 ≡ sub = omega arith in
    let g : ltb (suc d * 16 + sub) 32 ≡ false = ground arith in rw (g, e, f)

quotient_range : (v p : ℕ) → 16 * p ≤ v → v < 32 * p → (16 ≤ v / p) × (v / p < 32)
quotient_range v p lo hi = (grind arith, grind arith)

quotient_bounds : (v p : ℕ) → 0 < p → (v / p * p ≤ v) × (v < v / p * p + p)
quotient_bounds v p h = (grind arith, grind arith)

-- Every value from 32 on has its normal form.
scale : (v : ℕ) → 32 ≤ v → (d : ℕ) × (sub : ℕ) × Scaled v d sub
scale v h = (
  d,
  v / 2 ^ d - 16,
  record {
    above = rw step_back bounds'.0;
    below = rw step_back bounds'.1;
    octave = omega (arith, six);
    step = omega (arith, range.0, range.1);
  },
)
  where
    d : ℕ
    d = bit_length v - 5

    bounds : (2 ^ bit_length v ≤ 2 * v) × (v < 2 ^ bit_length v) × (0 < bit_length v)
    bounds = bit_length_bounds v (omega arith)

    six : 5 < bit_length v
    six = elim (dec_lt 5 (bit_length v)) [
      | yes big ↦ big
      | no small ↦ absurd (omega (arith, pow_two_mono (bit_length v) 5 (omega arith), bounds.1))
    ]

    power : (16 * 2 ^ d ≤ v) × (v < 32 * 2 ^ d)
    power =
        let e : bit_length v ≡ suc (suc (suc (suc (suc d)))) = omega (arith, six) in
        let b = bounds in
        let p : 2 ^ bit_length v ≡ 32 * 2 ^ d = omega (
          arith,
          ap (λ (k : ℕ). 2 ^ k) e,
          pow_two_suc (suc (suc (suc (suc d)))),
          pow_two_add_four d,
        ) in
        (omega (arith, b.0), omega (arith, b.1))

    range : (16 ≤ v / 2 ^ d) × (v / 2 ^ d < 32)
    range = quotient_range v (2 ^ d) power.0 power.1

    bounds' : (v / 2 ^ d * 2 ^ d ≤ v) × (v < v / 2 ^ d * 2 ^ d + 2 ^ d)
    bounds' = quotient_bounds v (2 ^ d) (pow_two_pos d)

    step_back : 16 + (v / 2 ^ d - 16) ≡ v / 2 ^ d
    step_back = omega (arith, range.0)

bucket_of-small : (v : ℕ) → v < 32 → bucket_of v ≡ v
unfolding bucket_of
bucket_of-small v h = ground arith

bucket_bounds-small : (i : ℕ) → i < 32 → bucket_bounds i ≡ (i, i + 1)
unfolding bucket_bounds
bucket_bounds-small i h = rw (lt→ltb i 32 h)

bucket_bounds-big :
    (i : ℕ)
    → 32 ≤ i
    → bucket_bounds i
      ≡ ((16 + i % 16) * 2 ^ (i / 16 - 1), (16 + i % 16) * 2 ^ (i / 16 - 1) + 2 ^ (i / 16 - 1))
bucket_bounds-big i h =
    let e : suc (i / 16 - 1) * 16 + i % 16 ≡ i = omega arith in
    ap bucket_bounds (sym e)
    ∙ bucket_bounds-Scaled (i / 16 - 1) (i % 16) (omega arith) (omega arith)

-- Every value lies in the half-open interval of its bucket.
pub bucket_of_bounds :
    (v : ℕ) → ((bucket_bounds (bucket_of v)).0 ≤ v) × (v < (bucket_bounds (bucket_of v)).1)
bucket_of_bounds v = elim (dec_lt v 32) [
  | yes small ↦
      rw (bucket_of-small v small) (rw (bucket_bounds-small v small) (omega arith, omega arith))
  | no big ↦
      let (d, sub, s) = scale v (omega arith) in
      rw (bucket_of-Scaled v d sub s)
        (rw (bucket_bounds-Scaled d sub s.octave s.step) (s.above, s.below))
]

-- A value in the interval of a bucket has that bucket: the intervals do not overlap.
pub bucket_of_unique :
    (v i : ℕ) → (bucket_bounds i).0 ≤ v → v < (bucket_bounds i).1 → bucket_of v ≡ i
bucket_of_unique v i lo hi = elim (dec_lt i 32) [
  | yes small ↦
      let lo' = rw (bucket_bounds-small i small) at lo in
      let hi' = rw (bucket_bounds-small i small) at hi in
      bucket_of-small v (omega arith) ∙ omega arith
  | no big ↦
      let e = bucket_bounds-big i (omega arith) in
      bucket_of-Scaled v (i / 16 - 1) (i % 16) (record {
        above = rw e at lo;
        below = rw e at hi;
        octave = omega arith;
        step = omega arith;
      })
      ∙ omega arith
]

pub bucket_bounds-nonempty : (i : ℕ) → (bucket_bounds i).0 < (bucket_bounds i).1
bucket_bounds-nonempty i = elim (dec_lt i 32) [
  | yes small ↦ rw (bucket_bounds-small i small) (omega arith)
  | no big ↦ rw (bucket_bounds-big i (omega arith)) (omega (arith, pow_two_pos (i / 16 - 1)))
]

low-next :
    (i : ℕ)
    → 31 < i
    → (16 + i % 16) * 2 ^ (i / 16 - 1) + 2 ^ (i / 16 - 1)
      ≡ (16 + (i + 1) % 16) * 2 ^ ((i + 1) / 16 - 1)
low-next i h = elim (dec_lt (i % 16) 15) [
  | yes within ↦
      let e : (i + 1) / 16 ≡ i / 16 = omega arith in
      let f : (i + 1) % 16 ≡ i % 16 + 1 = omega arith in rw (e, f) (omega arith)
  | no last ↦
      let e : (i + 1) / 16 - 1 ≡ suc (i / 16 - 1) = omega arith in
      let f : (i + 1) % 16 ≡ 0 = omega arith in
      let g : i % 16 ≡ 15 = omega arith in rw (e, f, g) (omega (arith, pow_two_suc (i / 16 - 1)))
]

-- Each interval begins where the one before ends: nothing is left out between them.
pub bucket_bounds-next : (i : ℕ) → (bucket_bounds i).1 ≡ (bucket_bounds (i + 1)).0
bucket_bounds-next i = elim (dec_lt i 31) [
  | yes small ↦
      ap (λ (p : ℕ × ℕ). p.1) (bucket_bounds-small i (omega arith))
      ∙ sym (ap (λ (p : ℕ × ℕ). p.0) (bucket_bounds-small (i + 1) (omega arith)))
  | no big ↦ elim (dec_lt 31 i) [
    | yes bigger ↦
        ap (λ (p : ℕ × ℕ). p.1) (bucket_bounds-big i (omega arith))
        ∙ low-next i bigger
        ∙ sym (ap (λ (p : ℕ × ℕ). p.0) (bucket_bounds-big (i + 1) (omega arith)))
    | no last ↦ let e : i ≡ 31 = omega arith in rw e (unfold bucket_bounds in refl)
  ]
]

-- From 32 on a bucket is at most a sixteenth (6.25 %) of its lower bound wide.
pub bucket_width :
    (i : ℕ) → 32 ≤ i → 16 * ((bucket_bounds i).1 - (bucket_bounds i).0) ≤ (bucket_bounds i).0
bucket_width i h = rw (bucket_bounds-big i h) (omega arith)

Scaled-top : (v d sub : ℕ) → Scaled v d sub → 16 * 2 ^ d ≤ v
Scaled-top v d sub s = omega (arith, s.above)

-- A 64-bit value has one of the `n_buckets` buckets.
pub bucket_of-lt : (v : ℕ) → v < 2 ^ 64 → bucket_of v < n_buckets
bucket_of-lt v h = elim (dec_lt v 32) [
  | yes small ↦ omega (arith, bucket_of-small v small)
  | no big ↦
      let (d, sub, s) = scale v (omega arith) in
      let e = bucket_of-Scaled v d sub s in
      elim (dec_lt d 60) [
        | yes low ↦ omega (arith, e, s.step)
        | no high ↦ absurd (omega (arith, pow_two_mono 60 d (omega arith), Scaled-top v d sub s))
      ]
]

-- A value has a bucket exactly if it lies in that bucket's half-open interval.
pub bucket_of_iff :
    (v i : ℕ) → (bucket_of v ≡ i) ↔ (((bucket_bounds i).0 ≤ v) × (v < (bucket_bounds i).1))
bucket_of_iff v i = (
  λ e. subst (λ b. ((bucket_bounds b).0 ≤ v) × (v < (bucket_bounds b).1)) e (bucket_of_bounds v),
  λ b. bucket_of_unique v i b.0 b.1,
)
