-- ===== src/Drive/Refill.antt =====
-- bench/drive.py, pub_capacity_nowait: a loop that refills a window of publishes, and waits on a future
-- while the window is full. Completions and releases are callbacks of the same event loop, so they run
-- while the coroutine awaits, or inline in a publish; the thread that sets `stop` runs at any moment,
-- and then has the loop call `release`. What a publish returns and when it completes is open.
pub mod Wakes
use mqtt_python_client_bench.Prelude.{
  ℕ, ◌+◌, ◌-◌, ◌/◌, ◌<◌, ◌≡◌, max, leb, Bool, true, false, if◌then◌else◌, ◌&&◌,
}

-- Where the coroutine stands: at `while not run.stop`, in a burst, awaiting its waiter, with its waiter
-- resolved, in asyncio.sleep(0), or returned.
pub data Phase : Type 0 where
  testing bursting awaiting woken flushing returned : Phase

pub record Refill : Type 0 where
  pub phase : Phase
  pub burst : ℕ
  pub has_waiter : Bool  -- state["waiter"] is not None
  pub stop : Bool
  pub releases : ℕ  -- calls of `release` that the loop has yet to make for run.wake
  pub sent : ℕ
  pub rejected : ℕ
  pub done : ℕ
  pub failed : ℕ

abbrev pub refill : Refill
refill = record {
  phase = testing;
  burst = 0;
  has_waiter = false;
  stop = false;
  releases = 0;
  sent = 0;
  rejected = 0;
  done = 0;
  failed = 0;
}

-- low_water = window - max(1, window // 4), for a positive window
abbrev pub low_water : ℕ → ℕ
low_water window = window - max 1 (window / 4)

abbrev pub wake_up : Phase → Phase
wake_up awaiting = woken
wake_up phase = phase

-- release()
unfoldable pub release : Refill → Refill
release s = if s.has_waiter then record s { has_waiter = false; phase = wake_up s.phase } else s

-- on_complete(): run.sent - run.done - run.failed <= low_water
unfoldable pub on_complete : ℕ → Refill → Refill
on_complete window s =
    if s.has_waiter && leb s.sent (low_water window + (s.done + s.failed)) then release s else s

-- A completion counts as done or failed, and then calls on_complete.
abbrev pub counted : Bool → Refill → Refill
counted true s = record s { done = s.done + 1 }
counted false s = record s { failed = s.failed + 1 }

unfoldable pub completion : ℕ → Bool → Refill → Refill
completion window ok s = on_complete window (counted ok s)

-- while not run.stop: burst = 0
unfoldable pub test_stop : Refill → Refill
test_stop s =
    if s.stop then record s { phase = returned } else record s { phase = bursting; burst = 0 }

-- if run.sent - run.done - run.failed >= window: wait, else: yield
unfoldable pub after_burst : ℕ → Refill → Refill
after_burst window s =
    if leb (window + (s.done + s.failed)) s.sent
    then record s { has_waiter = true; phase = awaiting }
    else record s { phase = flushing }

-- A publish that is accepted, and one for which publish_nowait returns None. What follows the last publish
-- of a burst is part of its step, so a completion inside that publish comes after it.
unfoldable pub publish_one : ℕ → Bool → Refill → Refill
publish_one window true s =
    if leb window (s.burst + 1)
    then after_burst window (record s { sent = s.sent + 1; burst = s.burst + 1 })
    else record s { sent = s.sent + 1; burst = s.burst + 1 }
publish_one window false s = after_burst window (record s { rejected = s.rejected + 1 })

-- The coroutine awaits or has returned, so that the loop may run callbacks.
abbrev pub is_away : Phase → Bool
is_away testing = false
is_away bursting = false
is_away _ = true

pub data Event (window : ℕ) (s : Refill) : Refill → Type 0 where
  tests : s.phase ≡ testing → Event window s (test_stop s)
  publishes_one :
      (accepted : Bool)
      → s.phase ≡ bursting
      → s.sent < window + (s.done + s.failed)
      → Event window s (publish_one window accepted s)
  fills :
      s.phase ≡ bursting
      → leb (window + (s.done + s.failed)) s.sent ≡ true
      → Event window s (after_burst window s)
  resumes : s.phase ≡ woken → Event window s (record s { phase = testing })
  flushed : s.phase ≡ flushing → Event window s (record s { phase = testing })
  completes : (ok : Bool) → s.done + s.failed < s.sent → Event window s (completion window ok s)
  stops : Event window s (record s { stop = true; releases = s.releases + 1 })
  releases_now :
      is_away s.phase ≡ true
      → 0 < s.releases
      → Event window s (release (record s { releases = s.releases - 1 }))

pub data Refills (window : ℕ) : Refill → Type 0 where
  fresh : Refills window refill
  event : {s t : Refill} → Refills window s → Event window s t → Refills window t
