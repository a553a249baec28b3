-- ===== src/Checks/Rules.antt =====
-- bench/checks.py, evaluate: the checks, a function for each section of the handler.
use mqtt_python_client_bench.Prelude.{
  ℕ, zero, suc, ◌+◌, ◌*◌, ◌/◌, Bool, true, false, not, Option, none, some, List, [], ◌∷◌, ◌++◌, ltb,
  leb, ◌==◌, if◌then◌else◌, ◌&&◌, ◌||◌, max,
}
use mqtt_python_client_bench.Prelude.Int.{ℤ, pos, leb_ℤ, ltb_ℤ, ◌-ℤ◌, ◌+ℤ◌, sub_ℕ}
use mqtt_python_client_bench.Checks.{
  Kind, publish, subscribe, rtt, duplex, idle, Snapshot, Worker, Peer, RunRecord, is_kind,
  tolerance, within, near, held, peer_of, worker_of, sys_of, snapshot_of,
}
use mqtt_python_client_bench.Checks.Items.{
  Status, invalid, not_sustained, Item, add, add_soft, worker_completed, peer_completed,
  source_completed, broker_counters_read, broker_confirms_client_publishes,
  broker_confirms_peer_publishes, broker_confirms_deliveries, no_loss, no_loss_inbound,
  offered_rate_held, responses_kept_up, client_kept_up, source_rate_held, payloads_intact,
  callbacks_matched, properties_delivered, topic_alias_used,
}

abbrev pub is_some {ℓ} : {A : Type ℓ} → Option A → Bool
is_some none = false
is_some (some a) = true

-- int(worker["end"][key]) - int(worker["measure"][key])
unfoldable pub window_delta : Worker → (Snapshot → ℕ) → ℤ
window_delta w key = sub_ℕ (key (snapshot_of w.last)) (key (snapshot_of w.measure))

abbrev pub worker_passed : Option Worker → Bool
worker_passed none = false
worker_passed (some w) = w.ok && (is_some w.measure && is_some w.last)

-- party is not None and party.get("error") is None
unfoldable pub completed : Option Peer → Bool
completed none = false
completed (some p) = not p.error

-- Each section is a function of the kind, which the code tests again in every section.
unfoldable pub party_checks : Kind → RunRecord → List Item
unfolding completed
party_checks idle r = []
party_checks duplex r =
    add peer_completed (completed r.peer) ∷ add source_completed (completed r.peer_source) ∷ []
party_checks _ r = add peer_completed (completed r.peer) ∷ []

-- The checks that must pass before any count is read.
unfoldable pub base_checks : RunRecord → List Item
unfolding party_checks
base_checks r =
    add worker_completed (worker_passed r.worker)
    ∷ (party_checks r.point.kind r ++ add broker_counters_read (is_some r.sys) ∷ [])

-- The publishes that the broker received from others than the client.
abbrev pub published_by_others : Kind → RunRecord → ℕ
published_by_others rtt r = (peer_of r.peer).echoed_total
published_by_others duplex r = (peer_of r.peer_source).sent_total
published_by_others _ r = 0

unfoldable pub client_publishes : Kind → RunRecord → Item
unfolding tolerance ◌-ℤ◌ ◌+ℤ◌
client_publishes kind r =
    let final = (worker_of r.worker).final in
    let got = (sys_of r.sys).received -ℤ pos (published_by_others kind r) in
    let low = pos final.done -ℤ pos (tolerance (pos final.done)) in
    let high = pos final.sent +ℤ pos (tolerance (pos final.sent)) in
    add broker_confirms_client_publishes (within got low high)

unfoldable pub publish_checks : Kind → RunRecord → List Item
unfolding client_publishes
publish_checks idle r = []
publish_checks subscribe r =
    let sent = pos (peer_of r.peer).sent_total in
    add broker_confirms_peer_publishes (near (sys_of r.sys).received sent (tolerance sent)) ∷ []
publish_checks publish r = client_publishes publish r ∷ []
publish_checks rtt r = client_publishes rtt r ∷ []
publish_checks duplex r = client_publishes duplex r ∷ []

unfoldable pub deliveries_near : RunRecord → ℕ → Item
unfolding tolerance
deliveries_near r delivered =
    add broker_confirms_deliveries
      (near (sys_of r.sys).sent (pos delivered) (tolerance (pos delivered)))

-- A client slower than a capacity offer still has data in its socket buffers: there only receiving
-- more than was sent is wrong.
unfoldable pub delivery_checks : Kind → RunRecord → List Item
unfolding deliveries_near ◌+ℤ◌
delivery_checks publish r = deliveries_near r (peer_of r.peer).received_total ∷ []
delivery_checks subscribe r =
    let delivered = (worker_of r.worker).final.received in
    if r.point.rate == 0
    then add broker_confirms_deliveries
        (leb_ℤ (pos delivered) ((sys_of r.sys).sent +ℤ pos (tolerance (pos delivered))))
      ∷ []
    else deliveries_near r delivered ∷ []
delivery_checks idle r = []
delivery_checks _ r =
    deliveries_near r ((worker_of r.worker).final.received + (peer_of r.peer).received_total) ∷ []

-- delivered >= acked - tolerance(acked)
unfoldable pub not_lost : ℕ → ℕ → Bool
unfolding tolerance
not_lost delivered acked = leb acked (delivered + tolerance (pos acked))

-- A loss is the client's where the broker dropped for it.
unfoldable pub by_drops : RunRecord → Status
by_drops r = elim (sys_of r.sys).dropped [ pos zero ↦ invalid | _ ↦ not_sustained ]

unfoldable pub acked_checks : Kind → RunRecord → List Item
unfolding not_lost by_drops
acked_checks publish r =
    add no_loss (not_lost (peer_of r.peer).received_total (worker_of r.worker).final.done) ∷ []
acked_checks duplex r =
    add no_loss (not_lost (peer_of r.peer).received_total (worker_of r.worker).final.done)
    ∷ add_soft no_loss_inbound
        (not_lost (worker_of r.worker).final.received (peer_of r.peer_source).acked_total)
        (by_drops r)
    ∷ []
acked_checks subscribe r =
    if r.point.rate == 0
    then []
    else add_soft no_loss
        (not_lost (worker_of r.worker).final.received (peer_of r.peer).acked_total) (by_drops r)
      ∷ []
acked_checks rtt r =
    add_soft no_loss (not_lost (worker_of r.worker).final.received (peer_of r.peer).echoed_total)
      not_sustained
    ∷ []
acked_checks idle r = []

-- qos >= 1
unfoldable pub loss_checks : RunRecord → List Item
unfolding acked_checks
loss_checks r = if r.point.qos == 0 then [] else acked_checks r.point.kind r

-- window_s, in nanoseconds
unfoldable pub window_ns : RunRecord → ℕ
window_ns r = elim (worker_of r.worker).window_ns [
  | none ↦ r.measure_ns
  | some zero ↦ r.measure_ns
  | some (suc n) ↦ suc n
]

-- value >= RATE_HELD * rate * window_s
abbrev pub holds_offer : RunRecord → ℤ → Bool
holds_offer r value = held value (pos (r.point.rate * window_ns r)) 1000000000

abbrev pub offer_check : RunRecord → Item
offer_check r =
    add_soft offered_rate_held (holds_offer r (window_delta (worker_of r.worker) (λ s. s.sent)))
      not_sustained

unfoldable pub client_offer_checks : Kind → RunRecord → List Item
unfolding window_delta window_ns
client_offer_checks publish r = offer_check r ∷ []
client_offer_checks duplex r = offer_check r ∷ []
client_offer_checks rtt r =
    let w = worker_of r.worker in
    offer_check r
    ∷ add_soft responses_kept_up
        (held (window_delta w (λ s. s.received)) (window_delta w (λ s. s.sent)) 1) not_sustained
    ∷ []
client_offer_checks _ r = []

abbrev pub kept_up : RunRecord → ℕ → Item
kept_up r peer_sent =
    add_soft client_kept_up
      (held (window_delta (worker_of r.worker) (λ s. s.received)) (pos peer_sent) 1) not_sustained

unfoldable pub peer_offer_checks : Kind → RunRecord → List Item
unfolding window_delta window_ns
peer_offer_checks subscribe r =
    let sent = (peer_of r.peer).sent_window in
    add offered_rate_held (holds_offer r (pos sent)) ∷ kept_up r sent ∷ []
peer_offer_checks duplex r =
    let sent = (peer_of r.peer_source).sent_window in
    add source_rate_held (holds_offer r (pos sent)) ∷ kept_up r sent ∷ []
peer_offer_checks _ r = []

unfoldable pub rate_checks : RunRecord → List Item
unfolding client_offer_checks peer_offer_checks
rate_checks r =
    if r.point.rate == 0
    then []
    else client_offer_checks r.point.kind r ++ peer_offer_checks r.point.kind r

abbrev pub payload_check : Option ℕ → List Item
payload_check none = []
payload_check (some bad) = add payloads_intact (bad == 0) ∷ []

abbrev pub ack_bytes : ℕ → ℕ
ack_bytes qos = if qos == 1 then 4 else if qos == 2 then 8 else 0

-- 0 < per_publish < limit, for per_publish = (bytes_received - ack_bytes) / sent
unfoldable pub alias_used : RunRecord → Bool
unfolding ◌-ℤ◌
alias_used r =
    let acks = (peer_of r.peer).received_total * ack_bytes r.point.qos in
    let sent = max 1 (worker_of r.worker).final.sent in
    let limit = r.point.payload + r.data_topic_bytes / 2 in
    let bytes = (sys_of r.sys).bytes_received -ℤ pos acks in
    ltb_ℤ (pos 0) bytes && ltb_ℤ bytes (pos (limit * sent))

-- A check that is added under a condition.
unfoldable pub when : Bool → Item → List Item
when true c = c ∷ []
when false c = []

unfoldable pub payload_checks : RunRecord → List Item
payload_checks r =
    if is_kind r.point.kind publish || is_kind r.point.kind duplex
    then payload_check (peer_of r.peer).size_mismatch
    else []

unfoldable pub filter_checks : RunRecord → List Item
unfolding when
filter_checks r =
    let final = (worker_of r.worker).final in
    when (not (r.point.filters == 0))
      (add callbacks_matched (final.unmatched == 0 && ltb 0 final.received))

unfoldable pub property_checks : RunRecord → List Item
unfolding when not_lost
property_checks r =
    let peer = peer_of r.peer in
    when (is_kind r.point.kind publish && r.point.properties)
      (add properties_delivered (not_lost peer.props_seen peer.received_total))

unfoldable pub alias_checks : RunRecord → List Item
unfolding when alias_used
alias_checks r =
    when (is_kind r.point.kind publish && r.point.topic_alias) (add topic_alias_used (alias_used r))

unfoldable pub feature_checks : RunRecord → List Item
unfolding payload_checks filter_checks property_checks alias_checks
feature_checks r = payload_checks r ++ (filter_checks r ++ (property_checks r ++ alias_checks r))
