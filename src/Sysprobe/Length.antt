-- ===== src/Sysprobe/Length.antt =====
-- bench/sysprobe.py, _varint: the loop of the receiver reads the length back.
use mqtt_python_client_bench.Prelude.{
  ℕ, zero, suc, ◌+◌, ◌*◌, ◌/◌, ◌%◌, ◌<◌, ◌≡◌, refl, ap, ◌∙◌, some, List, [], ◌∷◌, ◌++◌, ◌==◌, true,
  false, arith, Bool-cases, inl, inr,
}
use mqtt_python_client_bench.Sysprobe.{varint_loop, varint, read_length}

-- The digits put together.
digits_sum : (r q m : ℕ) → r * m + q * (m * 128) ≡ (r + q * 128) * m
digits_sum r q m = grind arith

digits : (n m : ℕ) → n % 128 * m + n / 128 * (m * 128) ≡ n * m
digits n m = digits_sum (n % 128) (n / 128) m ∙ ap (λ i. i * m) (omega arith)

last_byte :
    (rl mul b : ℕ) (buf : List ℕ)
    → (b / 128 % 2 == 0) ≡ true
    → read_length rl mul (b ∷ buf) ≡ some (rl + b % 128 * mul, buf)
unfolding read_length
last_byte rl mul b buf e = rw e refl

more_bytes :
    (rl mul b : ℕ) (buf : List ℕ)
    → (b / 128 % 2 == 0) ≡ false
    → read_length rl mul (b ∷ buf) ≡ read_length (rl + b % 128 * mul) (mul * 128) buf
unfolding read_length
more_bytes rl mul b buf e = rw e refl

varint_last : (f n : ℕ) → (n / 128 == 0) ≡ true → varint_loop (suc f) n ≡ n % 128 ∷ []
unfolding varint_loop
varint_last f n e = rw e refl

varint_more :
    (f n : ℕ)
    → (n / 128 == 0) ≡ false
    → varint_loop (suc f) n ≡ (n % 128 + 128) ∷ varint_loop f (n / 128)
unfolding varint_loop
varint_more f n e = rw e refl

read_length-varint_loop :
    (f n rl mul : ℕ) (rest : List ℕ)
    → n < f
    → read_length rl mul (varint_loop f n ++ rest) ≡ some (rl + n * mul, rest)
read_length-varint_loop zero n rl mul rest h = ground arith
read_length-varint_loop (suc f) n rl mul rest h = elim (Bool-cases (n / 128 == 0)) [
  | inl e ↦
      ap (λ bs. read_length rl mul (bs ++ rest)) (varint_last f n e)
      ∙ last_byte rl mul (n % 128) rest (ground arith)
      ∙ ap (λ i. some (rl + i * mul, rest)) (small_mod n e)
  | inr e ↦
      ap (λ bs. read_length rl mul (bs ++ rest)) (varint_more f n e)
      ∙ more_bytes rl mul (n % 128 + 128) (varint_loop f (n / 128) ++ rest) (ground arith)
      ∙ read_length-varint_loop f (n / 128) _ (mul * 128) rest (ground arith)
      ∙ ap (λ i. some (i, rest)) (digits_after n rl mul)
]
  where
    small_mod : (n : ℕ) → (n / 128 == 0) ≡ true → n % 128 % 128 ≡ n
    small_mod n e = ground arith

    digits_after :
        (n rl mul : ℕ) → rl + (n % 128 + 128) % 128 * mul + n / 128 * (mul * 128) ≡ rl + n * mul
    digits_after n rl mul =
        let e : (n % 128 + 128) % 128 ≡ n % 128 = omega arith in
        ap (λ i. rl + i * mul + n / 128 * (mul * 128)) e ∙ omega (arith, digits n mul)

-- A length is read back as it was written, and nothing of what follows it is taken.
pub read_length-varint :
    (n : ℕ) (rest : List ℕ) → read_length 0 1 (varint n ++ rest) ≡ some (n, rest)
read_length-varint n rest =
    read_length-varint_loop (suc n) n 0 1 rest (omega arith)
    ∙ ap (λ m. some (m, rest)) (omega arith)
