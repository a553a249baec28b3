-- ===== src/Sysprobe/Counters/Fresh.antt =====
-- bench/sysprobe.py, snapshot: "counters from an update published after this call".
use Prim.Native.String.{String}
use text.Mathlib.Text.{◌==◌ as str_eq}
use text.Mathlib.TextEquality.{eq_iff}
use mqtt_python_client_bench.Prelude.{
  ℕ, suc, ◌+◌, ◌≤◌, ◌<◌, ◌≡◌, refl, sym, ap, ◌∙◌, subst, Bool, true, false, ◌⊎◌, inl, inr, Option,
  none, some, List, [], ◌∷◌, if◌then◌else◌, ltb→lt, length, arith,
}
use mqtt_python_client_bench.Dict.{string_eq, get, put, get_or, get-put_self, get-put_other}
use mqtt_python_client_bench.Sysprobe.Counters.{
  topics, Counters, topic_of, payload_of, update, on_publish, receive_all, is_fresh,
}

-- The number that a counter last had, from the one before.
abbrev pub next_value : String → Option String → Option ℕ → Option ℕ → Option ℕ
next_value key none number old = old
next_value key (some other) none old = old
next_value key (some other) (some n) old = if str_eq other key then some n else old

abbrev pub last_value :
    (List ℕ → String) → (List ℕ → Option ℕ) → String → List (ℕ × List ℕ) → Option ℕ → Option ℕ
last_value decode int key [] old = old
last_value decode int key ((now, body) ∷ arrivals) old =
    last_value decode int key arrivals
      (next_value key (get topics (topic_of decode body)) (int (payload_of body)) old)

-- Some arrival of the counter is later than a time.
abbrev pub Later : (List ℕ → String) → String → ℕ → List (ℕ × List ℕ) → Type 0
Later decode key asked [] = ⊥
Later decode key asked ((now, body) ∷ arrivals) =
    ((get topics (topic_of decode body) ≡ some key) × (asked < now))
    ⊎ Later decode key asked arrivals

values-update :
    (key : String) (topic : Option String) (number : Option ℕ) (now : ℕ) (s : Counters)
    → get (update topic number now s).values key ≡ next_value key topic number (get s.values key)
values-update key none number now s = refl
values-update key (some other) none now s = refl
values-update key (some other) (some n) now s = by_test (str_eq other key) refl
  where
    by_test :
        (b : Bool)
        → str_eq other key ≡ b
        → get (put s.values other n) key ≡ (if b then some n else get s.values key)
    by_test true e =
        ap (get (put s.values other n)) (sym ((eq_iff other key).0 e))
        ∙ get-put_self s.values other n
    by_test false e = get-put_other s.values other key n e

values-receive_all :
    (decode : List ℕ → String) (int : List ℕ → Option ℕ) (key : String)
    (arrivals : List (ℕ × List ℕ)) (s : Counters)
    → get (receive_all decode int arrivals s).values key
      ≡ last_value decode int key arrivals (get s.values key)
unfolding receive_all on_publish
values-receive_all decode int key [] s = refl
values-receive_all decode int key ((now, body) ∷ arrivals) s =
    values-receive_all decode int key arrivals (on_publish decode int now body s)
    ∙ ap (last_value decode int key arrivals) (
        values-update key (get topics (topic_of decode body)) (int (payload_of body)) now
          (record s { probe_msgs = s.probe_msgs + 1 }))

abbrev time_of : Option ℕ → ℕ
time_of o = elim o [ none ↦ 0 | some t ↦ t ]

-- One update: what is fresh after it was so before, or it is the counter's own and late enough.
fresh-update :
    (asked : ℕ) (topic : Option String) (number : Option ℕ) (now : ℕ) (s : Counters)
    → asked < time_of (get (update topic number now s).updated_at "sent")
    → (asked < time_of (get s.updated_at "sent")) ⊎ ((topic ≡ some "sent") × (asked < now))
fresh-update asked none number now s h = inl h
fresh-update asked (some key) number now s h = by_test (str_eq key "sent") refl
  where
    by_test :
        (b : Bool)
        → str_eq key "sent" ≡ b
        → (asked < time_of (get s.updated_at "sent")) ⊎ ((some key ≡ some "sent") × (asked < now))
    by_test true e =
        let same : key ≡ "sent" = (eq_iff key "sent").0 e in
        inr (
          ap some same,
          subst (λ o. asked < time_of o)
              (ap (get (put s.updated_at key now)) (sym same) ∙ get-put_self s.updated_at key now)
              h,
        )
    by_test false e =
        inl (subst (λ o. asked < time_of o) (get-put_other s.updated_at key "sent" now e) h)

module _ (decode : List ℕ → String) (int : List ℕ → Option ℕ) (asked : ℕ) where
  Later-receive_all :
      (arrivals : List (ℕ × List ℕ)) (s : Counters)
      → asked < time_of (get (receive_all decode int arrivals s).updated_at "sent")
      → (asked < time_of (get s.updated_at "sent")) ⊎ Later decode "sent" asked arrivals
  unfolding receive_all on_publish
  Later-receive_all [] s h = inl h
  Later-receive_all ((now, body) ∷ arrivals) s h =
      elim (Later-receive_all arrivals (on_publish decode int now body s) h) [
        | inr l ↦ inr (inr l)
        | inl e ↦
            elim (fresh-update asked (get topics (topic_of decode body)) (int (payload_of body)) now
              (record s { probe_msgs = s.probe_msgs + 1 }) e) [
                | inl f ↦ inl f
                | inr l ↦ inr (inl l)
              ]
      ]

  count-receive_all :
      (arrivals : List (ℕ × List ℕ)) (s : Counters)
      → (receive_all decode int arrivals s).probe_msgs ≡ s.probe_msgs + length arrivals
  unfolding receive_all on_publish
  count-receive_all [] s = omega arith
  count-receive_all ((now, body) ∷ arrivals) s =
      count-receive_all arrivals (on_publish decode int now body s)
      ∙ one_more (get topics (topic_of decode body))
    where
      one_more :
          (topic : Option String)
          → (update topic
                (int (payload_of body))
                now
                (record s { probe_msgs = s.probe_msgs + 1 })).probe_msgs
              + length arrivals
            ≡ s.probe_msgs + suc (length arrivals)
      one_more none = omega arith
      one_more (some key) = omega arith

  -- The counters after a series of arrivals: each has the last number that its topic brought, and all
  -- arrivals are counted.
  pub record Reported (arrivals : List (ℕ × List ℕ)) (before after : Counters) : Type 0 where
    pub last :
        (key : String)
        → get after.values key ≡ last_value decode int key arrivals (get before.values key)
    pub counted : after.probe_msgs ≡ before.probe_msgs + length arrivals
    pub later : is_fresh asked after ≡ true → Later decode "sent" asked arrivals

  -- Where the last `sent` came no later than a time: after any arrivals each counter has the last
  -- number that its topic brought, all arrivals are counted, and the state is fresh for that time only
  -- if a `sent` arrived after it.
  pub receive_all-Reported :
      (arrivals : List (ℕ × List ℕ)) (s : Counters)
      → get_or s.updated_at "sent" 0 ≤ asked
      → Reported arrivals s (receive_all decode int arrivals s)
  unfolding is_fresh
  receive_all-Reported arrivals s old = record {
    last = λ key. values-receive_all decode int key arrivals s;
    counted = count-receive_all arrivals s;
    later = λ h. elim (Later-receive_all arrivals s (ltb→lt _ _ h)) [
      | inl f ↦ absurd (omega arith)
      | inr l ↦ l
    ];
  }
