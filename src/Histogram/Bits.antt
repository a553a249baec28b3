-- ===== src/Histogram/Bits.antt =====
-- `int.bit_length` over the native numbers.
use native.Mathlib.Nat.{pow-suc}
use mqtt_python_client_bench.Prelude.{
  ℕ, zero, suc, ◌+◌, ◌*◌, ◌/◌, ◌^◌, ◌≤◌, ◌<◌, ◌≡◌, refl, true, false, arith, ◌==◌, dec_lt,
}

-- One digit for each halving; `n` halvings are enough to reach 0 from `n`.
bits : ℕ → ℕ → ℕ
bits zero n = 0
bits (suc f) n = elim (n == 0) [ true ↦ 0 | false ↦ bits f (n / 2) + 1 ]

unfoldable pub bit_length : ℕ → ℕ
unfolding bits
bit_length n = bits n n

pub pow_two_suc : (k : ℕ) → 2 ^ suc k ≡ 2 * 2 ^ k
pow_two_suc k = omega (arith, pow-suc 2 k)

pub pow_two_pos : (k : ℕ) → 0 < 2 ^ k
pow_two_pos zero = omega arith
pow_two_pos (suc k) = omega (arith, pow_two_pos k, pow_two_suc k)

bits-pos : (f n : ℕ) → 0 < n → bits (suc f) n ≡ suc (bits f (n / 2))
unfolding bits
bits-pos f n h = ground arith

bits-zero : (f : ℕ) → bits f 0 ≡ 0
unfolding bits
bits-zero zero = refl
bits-zero (suc f) = refl

-- `2 ^ (bits - 1) ≤ n < 2 ^ bits`, the lower half without the subtraction.
bits_bounds :
    (f n : ℕ) → 0 < n → n ≤ f → (2 ^ bits f n ≤ 2 * n) × (n < 2 ^ bits f n) × (0 < bits f n)
bits_bounds zero n p h = absurd (omega arith)
bits_bounds (suc f) n p h = elim (dec_lt 1 n) [
  | yes big ↦
      let ih = bits_bounds f (n / 2) (omega arith) (omega arith) in
      rw (bits-pos f n p) (
        omega (arith, ih.0, ih.1, pow_two_suc (bits f (n / 2))),
        omega (arith, ih.0, ih.1, pow_two_suc (bits f (n / 2))),
        omega arith,
      )
  | no small ↦
      let e : n ≡ 1 = omega arith in
      rw e
        (rw (bits-pos f 1 (omega arith)) (rw (bits-zero f) (omega arith, omega arith, omega arith)))
]

pub bit_length_bounds :
    (n : ℕ) → 0 < n → (2 ^ bit_length n ≤ 2 * n) × (n < 2 ^ bit_length n) × (0 < bit_length n)
unfolding bit_length
bit_length_bounds n h = bits_bounds n n h (omega arith)

pub pow_two_mono : (a b : ℕ) → a ≤ b → 2 ^ a ≤ 2 ^ b
pow_two_mono a zero h = let e : a ≡ 0 = omega arith in rw e (omega arith)
pow_two_mono a (suc b) h = elim (dec_lt a (suc b)) [
  | yes lt ↦ omega (arith, pow_two_suc b, pow_two_mono a b (omega arith))
  | no ge ↦ let e : a ≡ suc b = omega arith in rw e (omega arith)
]

-- The exponent is determined by the power of two at or below the value.
pub bit_length_unique : (n e : ℕ) → 2 ^ e ≤ n → n < 2 ^ suc e → bit_length n ≡ suc e
bit_length_unique n e lo hi = elim (dec_lt (bit_length n) (suc e)) [
  | yes below ↦ absurd (omega (arith, pow_two_mono (bit_length n) e (omega arith), bounds.1))
  | no up ↦ elim (dec_lt (suc e) (bit_length n)) [
    | yes above ↦ absurd (
        omega (
          arith,
          pow_two_mono (suc (suc e)) (bit_length n) (omega arith),
          pow_two_suc (suc e),
          bounds.0,
        ))
    | no down ↦ omega arith
  ]
]
  where
    bounds : (2 ^ bit_length n ≤ 2 * n) × (n < 2 ^ bit_length n) × (0 < bit_length n)
    bounds = bit_length_bounds n (omega (arith, pow_two_pos e))
