-- ===== src/Drive/Capacity.antt =====
-- bench/drive.py, pub_capacity_sync and the completion callback: a closed loop that takes a token for
-- each publish. The loop runs in one thread, completions and the request to stop come from others, so
-- a step is one access to the shared state and the threads interleave between any two. A token's way
-- back is two steps, as the code counts the completion before it puts the token.
pub mod Tokens
use mqtt_python_client_bench.Prelude.{
  ℕ, zero, suc, ◌+◌, ◌-◌, ◌≤◌, ◌<◌, ◌≡◌, Bool, true, false, leb, if◌then◌else◌,
}
use mqtt_python_client_bench.Drive.{Run}

-- A reason code: missing, a number (or an object with a number), or neither.
pub data Reason : Type 0 where
  missing : Reason
  code : ℕ → Reason
  opaque_code : Reason

unfoldable pub is_failure : Reason → Bool
is_failure missing = false
is_failure (code zero) = false
is_failure (code (suc n)) = leb 128 (suc n)
is_failure opaque_code = false

-- The counting half of on_publish and on_publish_notify.
unfoldable pub on_publish : Reason → Run → Run
unfolding is_failure
on_publish reason run =
    if is_failure reason
    then record run { failed = run.failed + 1 }
    else record run { done = run.done + 1 }

-- Where the loop stands: at `get()`, before the test of `stop`, before `publish`, before
-- `run.sent += 1`, before `put(None)` after a refusal, or past the loop.
pub data Spot : Type 0 where
  getting testing publishing counting returning ended : Spot

pub record Shared : Type 0 where
  pub run : Run
  pub tokens : ℕ
  pub spot : Spot
  pub flying : ℕ  -- publishes that the library accepted and has not completed
  pub notifying : ℕ  -- completions counted, before their put(None)
  pub waking : ℕ  -- requests to stop, before their put(None)

-- for _ in range(window): put(None)
abbrev pub filled : ℕ → Run → Shared
filled window run = record {
  run = run;
  tokens = window;
  spot = getting;
  flying = 0;
  notifying = 0;
  waking = 0;
}

abbrev pub after_test : Bool → Spot
after_test true = ended
after_test false = publishing

pub data Access (s : Shared) : Shared → Type 0 where
  gets :
      s.spot ≡ getting
      → 0 < s.tokens
      → Access s (record s { tokens = s.tokens - 1; spot = testing })
  tests : s.spot ≡ testing → Access s (record s { spot = after_test s.run.stop })
  accepted : s.spot ≡ publishing → Access s (record s { flying = s.flying + 1; spot = counting })
  refused :
      s.spot ≡ publishing
      → Access s
          (record s { run = record s.run { rejected = s.run.rejected + 1 }; spot = returning })
  counts :
      s.spot ≡ counting
      → Access s (record s { run = record s.run { sent = s.run.sent + 1 }; spot = getting })
  returns : s.spot ≡ returning → Access s (record s { tokens = s.tokens + 1; spot = getting })
  completes :
      (reason : Reason)
      → 0 < s.flying
      → Access s (record s {
        run = on_publish reason s.run;
        flying = s.flying - 1;
        notifying = s.notifying + 1;
      })
  notifies :
      0 < s.notifying → Access s (record s { tokens = s.tokens + 1; notifying = s.notifying - 1 })
  stops : Access s (record s { run = record s.run { stop = true }; waking = s.waking + 1 })
  wakes : 0 < s.waking → Access s (record s { tokens = s.tokens + 1; waking = s.waking - 1 })

pub data Interleaving (window : ℕ) (run : Run) : Shared → Type 0 where
  begins : Interleaving window run (filled window run)
  then_does : {s t : Shared} → Interleaving window run s → Access s t → Interleaving window run t
