-- ===== src/Bridge/Base.antt =====
-- adapters/async_bridge.py, BridgedAdapterBase: message identifiers and the callbacks of a message. A
-- callback is a number by which it is told apart; what is recorded of a call is which one was called.
-- The callbacks themselves are not modelled: one that raises ends the dispatch.
pub mod Mids
pub mod Callbacks
use mqtt_python_client_bench.Prelude.{
  ℕ, zero, suc, ◌+◌, Bool, true, false, List, [], ◌∷◌, ◌++◌, if◌then◌else◌, Option, none, some, leb,
}
use mqtt_python_client_bench.Bridge.Topics.{text_eq, topic_matches_sub}
use mqtt_python_client_bench.Dict.{Dict, Eq, put}

-- mid = self._next_mid; self._next_mid = 1 if self._next_mid >= 65535 else self._next_mid + 1
unfoldable pub alloc_mid : ℕ → ℕ × ℕ
alloc_mid next_mid = (next_mid, (if leb 65535 next_mid then 1 else next_mid + 1))

-- self._topic_callbacks[topic] = callback: a filter that has a callback keeps its place.
abbrev pub message_callback_add : List ℕ → ℕ → Dict (List ℕ) ℕ → Dict (List ℕ) ℕ
message_callback_add topic callback callbacks = put callbacks topic callback

-- The loop: whether a filter matched, and the callbacks that were called.
unfoldable pub call_matching : List ℕ → Dict (List ℕ) ℕ → Bool → List ℕ → Bool × List ℕ
call_matching topic [] matched called = (matched, called)
call_matching topic ((filt, callback) ∷ callbacks) matched called =
    let is_match = topic_matches_sub filt topic in
    call_matching topic callbacks (if is_match then true else matched)
      (if is_match then called ++ callback ∷ [] else called)

-- if not matched and self.on_message is not None: self.on_message(...)
abbrev pub call_unmatched : Option ℕ → Bool × List ℕ → List ℕ
call_unmatched (some on_message) (false, called) = called ++ on_message ∷ []
call_unmatched none (false, called) = called
call_unmatched on_message (true, called) = called

unfoldable pub dispatch_message : Option ℕ → Dict (List ℕ) ℕ → List ℕ → List ℕ
dispatch_message on_message callbacks topic =
    call_unmatched on_message (call_matching topic callbacks false [])
