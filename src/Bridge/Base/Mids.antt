-- ===== src/Bridge/Base/Mids.antt =====
-- adapters/async_bridge.py, alloc_mid: the identifiers of successive calls.
use mqtt_python_client_bench.Prelude.{ℕ, zero, suc, ◌+◌, ◌%◌, ◌<◌, ◌≤◌, ◌≡◌, ◌≢◌, refl, arith}
use mqtt_python_client_bench.Bridge.Base.{alloc_mid}

-- _next_mid after so many calls from __init__ on.
abbrev pub next_mid_after : ℕ → ℕ
next_mid_after zero = 1
next_mid_after (suc calls) = (alloc_mid (next_mid_after calls)).1

-- The identifier that the call of this index, counted from 0, returns.
abbrev pub mid_of : ℕ → ℕ
mid_of call = (alloc_mid (next_mid_after call)).0

next_mid_after-cycle : (calls : ℕ) → next_mid_after calls ≡ calls % 65535 + 1
unfolding alloc_mid
next_mid_after-cycle zero = refl
next_mid_after-cycle (suc calls) = let h = next_mid_after-cycle calls in ground arith

-- The call of index `i` returns `i % 65535 + 1`, which lies from 1 to 65535, and each of the 65534
-- calls after it returns another identifier.
pub alloc_mid-Cycle :
    (i j : ℕ)
    → i < j
    → j < i + 65535
    → (mid_of i ≡ i % 65535 + 1) × (1 ≤ mid_of i) × (mid_of i ≤ 65535) × (mid_of i ≢ mid_of j)
unfolding alloc_mid
alloc_mid-Cycle i j p q =
    let h = next_mid_after-cycle i in
    let k = next_mid_after-cycle j in (h, omega arith, omega arith, λ e. omega arith)
