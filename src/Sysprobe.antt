-- ===== src/Sysprobe.antt =====
-- bench/sysprobe.py: the MQTT frames of the probe, a length written by _varint and the loop that cuts
-- the received stream into packets. A byte is a number; the socket hands over chunks of any size.
pub mod Length
pub mod Stream
pub mod Chunks
pub mod Counters
use mqtt_python_client_bench.Prelude.{
  ℕ, zero, suc, ◌+◌, ◌*◌, ◌/◌, ◌%◌, Option, none, some, List, [], ◌∷◌, ◌++◌, ltb, ◌==◌,
  if◌then◌else◌, length, take, drop,
}

-- The loop of _varint, on fuel: a number that is not 0 shrinks, so the number is fuel enough.
unfoldable pub varint_loop : ℕ → ℕ → List ℕ
varint_loop zero n = []
varint_loop (suc f) n =
    let rest = varint_loop f (n / 128) in
    if n / 128 == 0 then n % 128 ∷ [] else (n % 128 + 128) ∷ rest

abbrev pub varint : ℕ → List ℕ
varint n = varint_loop (suc n) n

-- The remaining length from `buf[i:]` and what follows it; `none` for -1.
unfoldable pub read_length : ℕ → ℕ → List ℕ → Option (ℕ × List ℕ)
read_length rl mul [] = none
read_length rl mul (b ∷ buf) =
    let rest = read_length (rl + b % 128 * mul) (mul * 128) buf in
    if b / 128 % 2 == 0 then some (rl + b % 128 * mul, buf) else rest

-- The type and the body of a packet.
pub record Packet : Type 0 where
  pub ptype : ℕ
  pub body : List ℕ

abbrev pub cut : ℕ → Option (ℕ × List ℕ) → Option (Packet × List ℕ)
cut ptype none = none
cut ptype (some (rl, rest)) =
    if ltb (length rest) rl
    then none
    else some (record { ptype = ptype; body = take rl rest }, drop rl rest)

-- One round of the inner loop: the first packet and the rest of the buffer, if it is complete.
unfoldable pub next_packet : List ℕ → Option (Packet × List ℕ)
unfolding read_length
next_packet [] = none
next_packet (ptype ∷ buf) = cut ptype (read_length 0 1 buf)

abbrev pub after : Option (Packet × List ℕ) → List ℕ → List ℕ
after none buf = buf
after (some (p, rest)) buf = rest

abbrev pub keep : Option (Packet × List ℕ) → List ℕ → List Packet × List ℕ → List Packet × List ℕ
keep none buf (packets, left) = ([], buf)
keep (some (p, rest)) buf (packets, left) = (p ∷ packets, left)

-- The inner loop, on fuel: the packets and what is left of the buffer. A packet takes a byte, so the
-- length of the buffer is fuel enough.
unfoldable pub packets_loop : ℕ → List ℕ → List Packet × List ℕ
unfolding next_packet
packets_loop zero buf = ([], buf)
packets_loop (suc f) buf = keep (next_packet buf) buf (packets_loop f (after (next_packet buf) buf))

abbrev pub packets : List ℕ → List Packet × List ℕ
packets buf = packets_loop (length buf) buf

-- The outer loop over the chunks that `recv` returns.
unfoldable pub receive : List (List ℕ) → List ℕ → List Packet × List ℕ
unfolding packets_loop
receive [] buf = ([], buf)
receive (chunk ∷ chunks) buf =
    let (found, left) = packets (buf ++ chunk) in
    let (more, last) = receive chunks left in (found ++ more, last)

-- A packet as it is sent: its type, the length of its body, and the body.
abbrev pub encode : Packet → List ℕ
encode p = p.ptype ∷ (varint (length p.body) ++ p.body)
