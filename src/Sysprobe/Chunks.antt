-- ===== src/Sysprobe/Chunks.antt =====
-- bench/sysprobe.py, the loop of the receiver: the packets that are found do not depend on how the
-- stream is cut into chunks.
use mqtt_python_client_bench.Prelude.{
  ℕ, zero, suc, ◌≤◌, ◌≡◌, refl, sym, ap, ap₂, ◌∙◌, none, some, List, [], ◌∷◌, ◌++◌, length, take,
  drop, arith, Option-cases, inl, inr, length-append, append_assoc, append_none,
}
use mqtt_python_client_bench.Sysprobe.{
  varint, read_length, Packet, cut, next_packet, packets_loop, packets, receive, encode,
}
use mqtt_python_client_bench.Sysprobe.Length.{read_length-varint}
use mqtt_python_client_bench.Sysprobe.Stream.{
  next_packet-append, packets_loop-some, packets_loop-none, cut_long, length_more,
}

-- Without a byte there is no packet.
no_bytes : (buf : List ℕ) → length buf ≤ 0 → next_packet buf ≡ none
unfolding next_packet
no_bytes [] h = refl
no_bytes (b ∷ buf) h = absurd (omega arith)

-- Any fuel from the length of the buffer on gives the same.
packets_loop_fuel :
    (f g : ℕ) (buf : List ℕ)
    → length buf ≤ f
    → length buf ≤ g
    → packets_loop f buf ≡ packets_loop g buf
packets_loop_fuel zero g buf h k =
    packets_loop-none 0 buf (no_bytes buf h) ∙ sym (packets_loop-none g buf (no_bytes buf h))
packets_loop_fuel (suc f) zero buf h k =
    packets_loop-none (suc f) buf (no_bytes buf k) ∙ sym (packets_loop-none 0 buf (no_bytes buf k))
packets_loop_fuel (suc f) (suc g) buf h k = elim (Option-cases (next_packet buf)) [
  | inl e ↦ packets_loop-none (suc f) buf e ∙ sym (packets_loop-none (suc g) buf e)
  | inr ((p, rest), e) ↦
      let shorter = (next_packet-append buf [] p rest e).1 in
      packets_loop-some f buf p rest e
      ∙ ap (λ q. (p ∷ q.0, q.1))
          (packets_loop_fuel f g rest (omega (arith, shorter)) (omega (arith, shorter)))
      ∙ sym (packets_loop-some g buf p rest e)
]

-- The packets found so far, and those found once more bytes have come.
abbrev join : List Packet × List ℕ → List ℕ → List Packet × List ℕ
join q more = (q.0 ++ (packets (q.1 ++ more)).0, (packets (q.1 ++ more)).1)

packets-append :
    (f : ℕ) (buf more : List ℕ)
    → length buf ≤ f
    → packets (buf ++ more) ≡ join (packets_loop f buf) more
packets-append zero buf more h =
    sym (ap (λ q. join q more) (packets_loop-none 0 buf (no_bytes buf h)))
packets-append (suc f) buf more h = elim (Option-cases (next_packet buf)) [
  | inl e ↦ sym (ap (λ q. join q more) (packets_loop-none (suc f) buf e))
  | inr ((p, rest), e) ↦
      let found = (next_packet-append buf more p rest e).0 in
      let shorter = (next_packet-append buf more p rest e).1 in
      let n = length (buf ++ more) in
      packets_loop_fuel n (suc n) (buf ++ more) (omega arith) (omega arith)
      ∙ packets_loop-some n (buf ++ more) p (rest ++ more) found
      ∙ ap (λ q. (p ∷ q.0, q.1))
          (packets_loop_fuel n (length (rest ++ more)) (rest ++ more)
              (omega (arith, shorter, length-append rest more, length-append buf more))
              (omega arith)
            ∙ packets-append f rest more (omega (arith, shorter)))
      ∙ sym (ap (λ q. join q more) (packets_loop-some f buf p rest e))
]

-- What is left of a buffer holds no complete packet.
packets_left : (f : ℕ) (buf : List ℕ) → length buf ≤ f → next_packet (packets_loop f buf).1 ≡ none
packets_left zero buf h =
    ap (λ q. next_packet q.1) (packets_loop-none 0 buf (no_bytes buf h)) ∙ no_bytes buf h
packets_left (suc f) buf h = elim (Option-cases (next_packet buf)) [
  | inl e ↦ ap (λ q. next_packet q.1) (packets_loop-none (suc f) buf e) ∙ e
  | inr ((p, rest), e) ↦
      let shorter = (next_packet-append buf [] p rest e).1 in
      ap (λ q. next_packet q.1) (packets_loop-some f buf p rest e)
      ∙ packets_left f rest (omega (arith, shorter))
]

abbrev pub concat : List (List ℕ) → List ℕ
concat [] = []
concat (chunk ∷ chunks) = chunk ++ concat chunks

-- From a buffer without a complete packet the receiver finds the packets of the whole stream,
-- however it is cut, and keeps the same rest.
pub receive-concat :
    (chunks : List (List ℕ)) (buf : List ℕ)
    → next_packet buf ≡ none
    → receive chunks buf ≡ packets (buf ++ concat chunks)
unfolding receive
receive-concat [] buf e =
    sym (packets_loop-none (length buf) buf e) ∙ ap packets (sym (append_none buf))
receive-concat (chunk ∷ chunks) buf e =
    let n = length (buf ++ chunk) in
    let left = (packets (buf ++ chunk)).1 in
    ap (λ q. ((packets (buf ++ chunk)).0 ++ q.0, q.1))
      (receive-concat chunks left (packets_left n (buf ++ chunk) (omega arith)))
    ∙ sym (packets-append n (buf ++ chunk) (concat chunks) (omega arith))
    ∙ ap packets (append_assoc buf chunk (concat chunks))

-- The bytes of the packets in the order in which they are sent.
abbrev pub sent : List Packet → List ℕ
sent [] = []
sent (p ∷ ps) = encode p ++ sent ps

take_whole : (xs rest : List ℕ) → take (length xs) (xs ++ rest) ≡ xs
take_whole [] rest = refl
take_whole (x ∷ xs) rest = ap (λ l. x ∷ l) (take_whole xs rest)

drop_whole : (xs rest : List ℕ) → drop (length xs) (xs ++ rest) ≡ rest
drop_whole [] rest = refl
drop_whole (x ∷ xs) rest = drop_whole xs rest

next_packet-encode : (p : Packet) (rest : List ℕ) → next_packet (encode p ++ rest) ≡ some (p, rest)
unfolding next_packet
next_packet-encode p rest =
    ap (λ l. cut p.ptype (read_length 0 1 l)) (append_assoc (varint (length p.body)) p.body rest)
    ∙ ap (cut p.ptype) (read_length-varint (length p.body) (p.body ++ rest))
    ∙ cut_long p.ptype (length p.body) (p.body ++ rest) (omega (arith, length_more p.body rest))
    ∙ ap₂ (λ b r. some (record { ptype = p.ptype; body = b }, r)) (take_whole p.body rest)
        (drop_whole p.body rest)

packets-sent : (ps : List Packet) → packets (sent ps) ≡ (ps, [])
packets-sent [] = packets_loop-none 0 [] (no_bytes [] (omega arith))
packets-sent (p ∷ ps) =
    let found = next_packet-encode p (sent ps) in
    let n = length (sent (p ∷ ps)) in
    packets_loop_fuel n (suc n) (sent (p ∷ ps)) (omega arith) (omega arith)
    ∙ packets_loop-some n (sent (p ∷ ps)) p (sent ps) found
    ∙ ap (λ q. (p ∷ q.0, q.1))
        (packets_loop_fuel n (length (sent ps)) (sent ps)
            (omega (arith, (next_packet-append (sent (p ∷ ps)) [] p (sent ps) found).1))
            (omega arith)
          ∙ packets-sent ps)

-- However the stream is cut, the receiver finds exactly the packets that were sent, in order, and
-- nothing is left.
pub receive-sent :
    (ps : List Packet) (chunks : List (List ℕ))
    → concat chunks ≡ sent ps
    → receive chunks [] ≡ (ps, [])
unfolding next_packet
receive-sent ps chunks e = receive-concat chunks [] refl ∙ ap packets e ∙ packets-sent ps
