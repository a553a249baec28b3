-- ===== src/Drive/Refill/Wakes.antt =====
-- bench/drive.py, pub_capacity_nowait: no wake-up is lost.
use mqtt_python_client_bench.Prelude.{
  ℕ, ◌+◌, ◌-◌, ◌≤◌, ◌<◌, ◌≡◌, ◌⊎◌, inl, inr, leb, refl, sym, ap, ◌∙◌, Bool, true, false,
  if◌then◌else◌, ◌&&◌, arith, Bool-cases,
}
use mqtt_python_client_bench.Drive.Refill.{
  Phase, testing, bursting, awaiting, woken, flushing, returned, Refill, low_water, wake_up,
  release, on_complete, completion, test_stop, after_burst, publish_one, is_away, Event, tests,
  publishes_one, fills, resumes, flushed, completes, stops, releases_now, Refills, fresh, event,
}

abbrev pub is_awaiting : Phase → Bool
is_awaiting awaiting = true
is_awaiting _ = false

-- In a burst, which may end in waiting, or waiting.
abbrev pub is_engaged : Phase → Bool
is_engaged bursting = true
is_engaged awaiting = true
is_engaged _ = false

-- At most `window` publishes await completion; there is a waiter exactly while the coroutine awaits it;
-- and the coroutine awaits only while more than the low-water mark await completion, and in a
-- burst or waiting a release is on its way if there was a request to stop.
pub record IsAwake (window : ℕ) (s : Refill) : Type 0 where
  pub counted_once : s.done + s.failed ≤ s.sent
  pub within : s.sent ≤ window + (s.done + s.failed)
  pub same_waiter : s.has_waiter ≡ is_awaiting s.phase
  pub above : (is_awaiting s.phase ≡ false) ⊎ (low_water window + (s.done + s.failed) < s.sent)
  pub released : (is_engaged s.phase ≡ false) ⊎ ((s.stop ≡ false) ⊎ (0 < s.releases))

woken_up :
    (ph : Phase)
    → is_awaiting ph ≡ true
    → (is_awaiting (wake_up ph) ≡ false) × (is_engaged (wake_up ph) ≡ false)
woken_up awaiting h = (refl, refl)
woken_up testing h = ground arith
woken_up bursting h = ground arith
woken_up woken h = ground arith
woken_up flushing h = ground arith
woken_up returned h = ground arith

not_away : (ph : Phase) → is_away ph ≡ true → is_awaiting ph ≡ false → is_engaged ph ≡ false
not_away awaiting h k = ground arith
not_away testing h k = refl
not_away bursting h k = ground arith
not_away woken h k = refl
not_away flushing h k = refl
not_away returned h k = refl

module _ (window : ℕ) (some_window : 0 < window) where
  either :
      (b : Bool) (x y : Refill)
      → (b ≡ true → IsAwake window x)
      → (b ≡ false → IsAwake window y)
      → IsAwake window (if b then x else y)
  either true x y f g = f refl
  either false x y f g = g refl

  low : low_water window < window
  low = omega arith

  -- A step to a phase in which nothing is awaited.
  moves :
      (ph : Phase) (b r : ℕ) (s : Refill)
      → IsAwake window s
      → is_awaiting s.phase ≡ false
      → is_awaiting ph ≡ false
      → (is_engaged ph ≡ false) ⊎ ((s.stop ≡ false) ⊎ (0 < s.releases))
      → IsAwake window (record s { phase = ph; burst = b; rejected = r })
  moves ph b r s i quiet h e = record {
    counted_once = i.counted_once;
    within = i.within;
    same_waiter = i.same_waiter ∙ quiet ∙ sym h;
    above = inl h;
    released = e;
  }

  test_stop-IsAwake :
      (s : Refill) → s.phase ≡ testing → IsAwake window s → IsAwake window (test_stop s)
  unfolding test_stop
  test_stop-IsAwake s p i =
      either s.stop (record s { phase = returned }) (record s { phase = bursting; burst = 0 })
        (λ e. moves returned s.burst s.rejected s i (ap is_awaiting p) refl (inl refl))
        (λ e. moves bursting 0 s.rejected s i (ap is_awaiting p) refl (inr (inl e)))

  engaged :
      (s : Refill) → s.phase ≡ bursting → IsAwake window s → (s.stop ≡ false) ⊎ (0 < s.releases)
  engaged s p i = elim i.released [ inl h ↦ ground (arith, sym (ap is_engaged p) ∙ h) | inr h ↦ h ]

  after_burst-IsAwake :
      (s : Refill) → s.phase ≡ bursting → IsAwake window s → IsAwake window (after_burst window s)
  unfolding after_burst
  after_burst-IsAwake s p i = elim (Bool-cases (leb (window + (s.done + s.failed)) s.sent)) [
    | inl e ↦ rw e (record {
      counted_once = i.counted_once;
      within = i.within;
      same_waiter = refl;
      above = inr (ground (arith, low));
      released = inr (engaged s p i);
    })
    | inr e ↦ rw e (moves flushing s.burst s.rejected s i (ap is_awaiting p) refl (inl refl))
  ]

  accepted-IsAwake :
      (s : Refill)
      → s.phase ≡ bursting
      → s.sent < window + (s.done + s.failed)
      → IsAwake window s
      → IsAwake window (record s { sent = s.sent + 1; burst = s.burst + 1 })
  accepted-IsAwake s p room i = record {
    counted_once = omega (arith, i.counted_once);
    within = omega arith;
    same_waiter = i.same_waiter;
    above = inl (ap is_awaiting p);
    released = i.released;
  }

  publish_one-IsAwake :
      (accepted : Bool) (s : Refill)
      → s.phase ≡ bursting
      → s.sent < window + (s.done + s.failed)
      → IsAwake window s
      → IsAwake window (publish_one window accepted s)
  unfolding publish_one
  publish_one-IsAwake true s p room i = elim (Bool-cases (leb window (s.burst + 1))) [
    | inl e ↦ rw e (
        after_burst-IsAwake (record s { sent = s.sent + 1; burst = s.burst + 1 }) p
          (accepted-IsAwake s p room i))
    | inr e ↦ rw e (accepted-IsAwake s p room i)
  ]
  publish_one-IsAwake false s p room i =
      after_burst-IsAwake (record s { rejected = s.rejected + 1 }) p
        (record {
          counted_once = i.counted_once;
          within = i.within;
          same_waiter = i.same_waiter;
          above = i.above;
          released = i.released;
        })

  -- A release wakes the coroutine if it waits.
  release-IsAwake :
      (s : Refill)
      → s.done + s.failed ≤ s.sent
      → s.sent ≤ window + (s.done + s.failed)
      → s.has_waiter ≡ is_awaiting s.phase
      → (is_awaiting s.phase ≡ true)
        ⊎ ((is_engaged s.phase ≡ false) ⊎ ((s.stop ≡ false) ⊎ (0 < s.releases)))
      → IsAwake window (release s)
  unfolding release
  release-IsAwake s c w h e =
      either s.has_waiter (record s { has_waiter = false; phase = wake_up s.phase }) s
        (λ f.
          let k = woken_up s.phase (sym h ∙ f) in
          record {
            counted_once = c;
            within = w;
            same_waiter = sym k.0;
            above = inl k.0;
            released = inl k.1;
          })
        (λ f. record {
          counted_once = c;
          within = w;
          same_waiter = h;
          above = inl (sym h ∙ f);
          released = still s f h e;
        })
    where
      still :
          (s : Refill)
          → s.has_waiter ≡ false
          → s.has_waiter ≡ is_awaiting s.phase
          → (is_awaiting s.phase ≡ true)
            ⊎ ((is_engaged s.phase ≡ false) ⊎ ((s.stop ≡ false) ⊎ (0 < s.releases)))
          → (is_engaged s.phase ≡ false) ⊎ ((s.stop ≡ false) ⊎ (0 < s.releases))
      still s f h (inl a) = ground (arith, sym f ∙ h ∙ a)
      still s f h (inr b) = b

  on_complete-IsAwake :
      (s : Refill)
      → s.done + s.failed ≤ s.sent
      → s.sent ≤ window + (s.done + s.failed)
      → s.has_waiter ≡ is_awaiting s.phase
      → (is_engaged s.phase ≡ false) ⊎ ((s.stop ≡ false) ⊎ (0 < s.releases))
      → IsAwake window (on_complete window s)
  unfolding on_complete
  on_complete-IsAwake s c w h e =
      either (s.has_waiter && leb s.sent (low_water window + (s.done + s.failed))) (release s) s
        (λ f. release-IsAwake s c w h (inr e))
        (λ f. record {
          counted_once = c;
          within = w;
          same_waiter = h;
          above = kept f;
          released = e;
        })
    where
      kept :
          (s.has_waiter && leb s.sent (low_water window + (s.done + s.failed))) ≡ false
          → (is_awaiting s.phase ≡ false) ⊎ (low_water window + (s.done + s.failed) < s.sent)
      kept f = elim (Bool-cases s.has_waiter) [
        | inl g ↦ inr (ground (arith, f, g))
        | inr g ↦ inl (sym h ∙ g)
      ]

  completion-IsAwake :
      (ok : Bool) (s : Refill)
      → s.done + s.failed < s.sent
      → IsAwake window s
      → IsAwake window (completion window ok s)
  unfolding completion
  completion-IsAwake true s room i =
      on_complete-IsAwake (record s { done = s.done + 1 }) (omega arith) (omega (arith, i.within))
        i.same_waiter i.released
  completion-IsAwake false s room i =
      on_complete-IsAwake (record s { failed = s.failed + 1 }) (omega arith)
        (omega (arith, i.within)) i.same_waiter i.released

  away :
      (s : Refill)
      → is_away s.phase ≡ true
      → (is_awaiting s.phase ≡ true) ⊎ (is_engaged s.phase ≡ false)
  away s h = elim (Bool-cases (is_awaiting s.phase)) [
    | inl a ↦ inl a
    | inr a ↦ inr (not_away s.phase h a)
  ]

  Event-IsAwake : (s t : Refill) → Event window s t → IsAwake window s → IsAwake window t
  Event-IsAwake s t (tests p) i = test_stop-IsAwake s p i
  Event-IsAwake s t (publishes_one accepted p room) i = publish_one-IsAwake accepted s p room i
  Event-IsAwake s t (fills p full) i = after_burst-IsAwake s p i
  Event-IsAwake s t (resumes p) i =
      moves testing s.burst s.rejected s i (ap is_awaiting p) refl (inl refl)
  Event-IsAwake s t (flushed p) i =
      moves testing s.burst s.rejected s i (ap is_awaiting p) refl (inl refl)
  Event-IsAwake s t (completes ok room) i = completion-IsAwake ok s room i
  Event-IsAwake s t stops i = record {
    counted_once = i.counted_once;
    within = i.within;
    same_waiter = i.same_waiter;
    above = i.above;
    released = inr (inr (omega arith));
  }
  Event-IsAwake s t (releases_now h some_release) i =
      release-IsAwake (record s { releases = s.releases - 1 }) i.counted_once i.within i.same_waiter
        (elim (away s h) [ inl a ↦ inl a | inr a ↦ inr (inl a) ])

-- In every state that the refilling loop of a positive window reaches, with completions, requests to
-- stop and releases at any moment at which they can come: at most `window` publishes await completion;
-- the coroutine has a waiter exactly while it awaits it; it awaits only while more than the low-water
-- mark await completion, so that a completion is to come; and in a burst or waiting a release is on its
-- way if there was a request to stop.
pub Refills-IsAwake : (window : ℕ) (s : Refill) → 0 < window → Refills window s → IsAwake window s
Refills-IsAwake window s w fresh = record {
  counted_once = omega arith;
  within = omega arith;
  same_waiter = refl;
  above = inl refl;
  released = inl refl;
}
Refills-IsAwake window s w (event reached e) =
    Event-IsAwake window w _ s e (Refills-IsAwake window _ w reached)
