-- ===== src/Bridge/Base/Callbacks.antt =====
-- adapters/async_bridge.py, _dispatch_message: which callbacks a message has called.
use mqtt_python_client_bench.Prelude.{
  ℕ, ◌≡◌, refl, sym, ap, ap₂, ◌∙◌, Bool, true, false, List, [], ◌∷◌, ◌++◌, Option, none, some,
  Bool-cases, inl, inr, append_assoc, append_none, arith,
}
use mqtt_python_client_bench.Dict.{Dict}
use mqtt_python_client_bench.Bridge.Topics.{topic_matches_sub}
use mqtt_python_client_bench.Bridge.Topics.Filters.{IsFound, topic_matches_sub-IsFound}
use mqtt_python_client_bench.Bridge.Base.{call_matching, call_unmatched, dispatch_message}

true_not_false : true ≡ false → ⊥
true_not_false h = ground arith

-- The callbacks whose filters are found to match a topic, in the order of the filters.
pub data Matching (topic : List ℕ) : Dict (List ℕ) ℕ → List ℕ → Type 0 where
  no_callbacks : Matching topic [] []
  matched :
      {filt : List ℕ} {callback : ℕ} {callbacks : Dict (List ℕ) ℕ} {called : List ℕ}
      → IsFound filt topic
      → Matching topic callbacks called
      → Matching topic ((filt, callback) ∷ callbacks) (callback ∷ called)
  unmatched :
      {filt : List ℕ} {callback : ℕ} {callbacks : Dict (List ℕ) ℕ} {called : List ℕ}
      → ¬ (IsFound filt topic)
      → Matching topic callbacks called
      → Matching topic ((filt, callback) ∷ callbacks) called

-- What is called for a message, given the in_order callbacks.
abbrev pub or_unmatched : Option ℕ → List ℕ → List ℕ
or_unmatched none [] = []
or_unmatched (some on_message) [] = on_message ∷ []
or_unmatched on_message (callback ∷ called) = callback ∷ called

abbrev some_called : List ℕ → Bool → Bool
some_called [] m = m
some_called (callback ∷ called) m = true

-- What the loop does for the callbacks that match.
record Calls (topic : List ℕ) (callbacks : Dict (List ℕ) ℕ) : Type 0 where
  called : List ℕ
  in_order : Matching topic callbacks called
  looped :
      (m : Bool) (before : List ℕ)
      → call_matching topic callbacks m before ≡ (some_called called m, before ++ called)

any_called : (called : List ℕ) → some_called called true ≡ true
any_called [] = refl
any_called (callback ∷ called) = refl

calls : (topic : List ℕ) (callbacks : Dict (List ℕ) ℕ) → Calls topic callbacks
unfolding call_matching
calls topic [] = record {
  called = [];
  in_order = no_callbacks;
  looped = λ m before. ap (λ l. (m, l)) (sym (append_none before));
}
calls topic ((filt, callback) ∷ callbacks) =
    let rest = calls topic callbacks in
    elim (Bool-cases (topic_matches_sub filt topic)) [
      | inl e ↦ record {
        called = callback ∷ rest.called;
        in_order = matched ((topic_matches_sub-IsFound filt topic).0 e) rest.in_order;
        looped = λ m before. rw e (
            rest.looped true (before ++ callback ∷ [])
            ∙ ap₂ (λ b l. (b, l)) (any_called rest.called)
                (append_assoc before (callback ∷ []) rest.called));
      }
      | inr e ↦ record {
        called = rest.called;
        in_order =
            unmatched (λ m. true_not_false ((sym ((topic_matches_sub-IsFound filt topic).1 m)) ∙ e))
              rest.in_order;
        looped = λ m before. rw e (rest.looped m before);
      }
    ]

unmatched_only :
    (on_message : Option ℕ) (called : List ℕ)
    → call_unmatched on_message (some_called called false, called) ≡ or_unmatched on_message called
unmatched_only none [] = refl
unmatched_only (some on_message) [] = refl
unmatched_only none (callback ∷ called) = refl
unmatched_only (some on_message) (callback ∷ called) = refl

module _ (on_message : Option ℕ) (callbacks : Dict (List ℕ) ℕ) (topic : List ℕ) where
  -- A message calls the callbacks whose filters match its topic by MQTT's rules, or by their levels where
  -- a filter starts with a wildcard and the topic with `$`, each once and in the order of the dictionary;
  -- and `on_message`, where there is one, only if there is no such filter.
  pub dispatch_message-Matching :
      (called : List ℕ) × Matching topic callbacks called
      × (dispatch_message on_message callbacks topic ≡ or_unmatched on_message called)
  unfolding dispatch_message
  dispatch_message-Matching =
      let c = calls topic callbacks in
      (
        c.called,
        c.in_order,
        ap (call_unmatched on_message) (c.looped false []) ∙ unmatched_only on_message c.called,
      )
