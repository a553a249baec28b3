-- ===== src/Tests/SysprobeRuns.antt =====
-- bench/sysprobe.py: two packets in three chunks.
use mqtt_python_client_bench.Prelude.{◌≡◌, refl, List, [], ◌∷◌}
use mqtt_python_client_bench.Sysprobe.{varint, varint_loop, Packet, receive}
use mqtt_python_client_bench.Sysprobe.Chunks.{receive-sent}

varint_run : varint 321 ≡ 193 ∷ 2 ∷ []
unfolding varint_loop
varint_run = refl

abbrev pings : List Packet
pings = record { ptype = 48; body = 0 ∷ 1 ∷ [] } ∷ record { ptype = 208; body = [] } ∷ []

receive-sent_example : receive ((48 ∷ []) ∷ (2 ∷ 0 ∷ 1 ∷ 208 ∷ []) ∷ (0 ∷ []) ∷ []) [] ≡ (pings, [])
unfolding varint_loop
receive-sent_example = receive-sent pings ((48 ∷ []) ∷ (2 ∷ 0 ∷ 1 ∷ 208 ∷ []) ∷ (0 ∷ []) ∷ []) refl

-- A length of which the last byte is missing.
