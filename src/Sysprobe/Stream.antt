-- ===== src/Sysprobe/Stream.antt =====
-- bench/sysprobe.py, the loop of the receiver: it finds the packets that were sent, however the
-- stream is cut into chunks.
use mqtt_python_client_bench.Prelude.{
  ℕ, zero, suc, ◌+◌, ◌*◌, ◌%◌, ◌≤◌, ◌<◌, ltb, ◌≡◌, refl, sym, ap, ap₂, ◌∙◌, Option, none, some,
  List, [], ◌∷◌, ◌++◌, length, take, drop, arith, true, false, Option-cases, dec_le, inl, inr,
}
use mqtt_python_client_bench.Sysprobe.{read_length, Packet, cut, next_packet, packets_loop}

-- What is read is not longer than the buffer, and more bytes behind change nothing of it.
length-read_length :
    (rl mul : ℕ) (buf : List ℕ) (n : ℕ) (rest : List ℕ)
    → read_length rl mul buf ≡ some (n, rest)
    → length rest < length buf
unfolding read_length
length-read_length rl mul [] n rest e = ground arith
length-read_length rl mul (b ∷ buf) n rest e =
    ground (arith, length-read_length (rl + b % 128 * mul) (mul * 128) buf n rest)

read_length-append :
    (rl mul : ℕ) (buf : List ℕ) (n : ℕ) (rest more : List ℕ)
    → read_length rl mul buf ≡ some (n, rest)
    → read_length rl mul (buf ++ more) ≡ some (n, rest ++ more)
unfolding read_length
read_length-append rl mul [] n rest more e = ground arith
read_length-append rl mul (b ∷ buf) n rest more e =
    ground (arith, read_length-append (rl + b % 128 * mul) (mul * 128) buf n rest more)

length-drop : (n : ℕ) (xs : List ℕ) → length (drop n xs) ≤ length xs
length-drop zero xs = omega arith
length-drop (suc n) [] = omega arith
length-drop (suc n) (x ∷ xs) = omega (arith, length-drop n xs)

take_more : (n : ℕ) (xs ys : List ℕ) → n ≤ length xs → take n (xs ++ ys) ≡ take n xs
take_more zero xs ys h = refl
take_more (suc n) [] ys h = ground arith
take_more (suc n) (x ∷ xs) ys h = ap (λ l. x ∷ l) (take_more n xs ys (omega arith))

drop_more : (n : ℕ) (xs ys : List ℕ) → n ≤ length xs → drop n (xs ++ ys) ≡ drop n xs ++ ys
drop_more zero xs ys h = refl
drop_more (suc n) [] ys h = ground arith
drop_more (suc n) (x ∷ xs) ys h = drop_more n xs ys (omega arith)

pub length_more : (xs ys : List ℕ) → length xs ≤ length (xs ++ ys)
length_more [] ys = omega arith
length_more (x ∷ xs) ys = omega (arith, length_more xs ys)

pub cut_long :
    (t n : ℕ) (xs : List ℕ)
    → n ≤ length xs
    → cut t (some (n, xs)) ≡ some (record { ptype = t; body = take n xs }, drop n xs)
cut_long t n xs h = let e : ltb (length xs) n ≡ false = ground arith in rw e refl

cut_short : (t n : ℕ) (xs : List ℕ) → length xs < n → cut t (some (n, xs)) ≡ none
cut_short t n xs h = let e : ltb (length xs) n ≡ true = ground arith in rw e refl

pub cut_more :
    (t n : ℕ) (xs more : List ℕ)
    → n ≤ length xs
    → cut t (some (n, xs ++ more))
      ≡ some (record { ptype = t; body = take n xs }, drop n xs ++ more)
cut_more t n xs more h =
    cut_long t n (xs ++ more) (omega (arith, length_more xs more))
    ∙ ap₂ (λ b r. some (record { ptype = t; body = b }, r)) (take_more n xs more h)
        (drop_more n xs more h)

abbrev or_else : Option (Packet × List ℕ) → Packet × List ℕ → Packet × List ℕ
or_else none d = d
or_else (some x) d = x

-- A complete packet is found again, whatever has come behind it.
pub next_packet-append :
    (buf more : List ℕ) (p : Packet) (rest : List ℕ)
    → next_packet buf ≡ some (p, rest)
    → (next_packet (buf ++ more) ≡ some (p, rest ++ more)) × (length rest < length buf)
unfolding next_packet
next_packet-append [] more p rest e = ground arith
next_packet-append (t ∷ buf) more p rest e = elim (Option-cases (read_length 0 1 buf)) [
  | inl a ↦ ground (arith, sym (ap (cut t) a) ∙ e)
  | inr ((n, r), a) ↦ elim (dec_le n (length r)) [
    | yes h ↦
        let pair : (record { ptype = t; body = take n r }, drop n r) ≡ (p, rest) =
          ap (λ o. or_else o (record { ptype = t; body = take n r }, drop n r))
            (sym (cut_long t n r h) ∙ sym (ap (cut t) a) ∙ e) in
        (
          ap (cut t) (read_length-append 0 1 buf n r more a)
              ∙ cut_more t n r more h
              ∙ ap (λ q. some (q.0, q.1 ++ more)) pair,
          omega
              (arith, ap (λ q. length q.1) pair, length-drop n r, length-read_length 0 1 buf n r a),
        )
    | no h ↦ ground (arith, sym (ap (cut t) a) ∙ e, cut_short t n r (omega arith))
  ]
]

pub packets_loop-some :
    (f : ℕ) (buf : List ℕ) (p : Packet) (rest : List ℕ)
    → next_packet buf ≡ some (p, rest)
    → packets_loop (suc f) buf ≡ (p ∷ (packets_loop f rest).0, (packets_loop f rest).1)
unfolding packets_loop
packets_loop-some f buf p rest e = rw e refl

pub packets_loop-none :
    (f : ℕ) (buf : List ℕ) → next_packet buf ≡ none → packets_loop f buf ≡ ([], buf)
unfolding packets_loop
packets_loop-none zero buf e = refl
packets_loop-none (suc f) buf e = rw e refl
