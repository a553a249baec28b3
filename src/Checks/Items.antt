-- ===== src/Checks/Items.antt =====
-- bench/checks.py, _Checks: the list of checks and the status that they add up to.
use mqtt_python_client_bench.Prelude.{Bool, true, false, List, [], ◌∷◌, any, if◌then◌else◌}

pub data Status : Type 0 where
  valid not_sustained invalid : Status

pub data Name : Type 0 where
  worker_completed peer_completed source_completed broker_counters_read : Name
  broker_confirms_client_publishes broker_confirms_peer_publishes : Name
  broker_confirms_deliveries no_loss no_loss_inbound : Name
  offered_rate_held responses_kept_up client_kept_up source_rate_held : Name
  payloads_intact callbacks_matched properties_delivered topic_alias_used : Name
  broker_headroom host_quiet : Name

pub record Item : Type 0 where
  pub name : Name
  pub passed : Bool
  pub severity : Status

abbrev pub is_invalid : Status → Bool
is_invalid invalid = true
is_invalid _ = false

-- checks.add(name, passed, detail), whose severity is INVALID unless it is given
abbrev pub add : Name → Bool → Item
add name passed = record { name = name; passed = passed; severity = invalid }

abbrev pub add_soft : Name → Bool → Status → Item
add_soft name passed severity = record { name = name; passed = passed; severity = severity }

unfoldable pub failed : List Item → List Item
failed [] = []
failed (c ∷ items) = if c.passed then failed items else c ∷ failed items

-- if failed: NOT_SUSTAINED else VALID
abbrev pub unless_empty : List Item → Status
unless_empty [] = valid
unless_empty (c ∷ items) = not_sustained

unfoldable pub status : List Item → Status
unfolding failed
status items =
    if any (λ c. is_invalid c.severity) (failed items) then invalid else unless_empty (failed items)
