-- ===== src/Runner/Order.antt =====
-- bench/runner.py, the order of the start: "whatever receives subscribes before whatever sends exists".
-- What a peer subscribes to and publishes on is peer/mqtt_peer.c's.
use Prim.Native.String.{String, ◌++◌ as append}
use mqtt_python_client_bench.Prelude.{
  ℕ, zero, suc, ◌/◌, ◌%◌, ◌≤◌, ◌≡◌, refl, Bool, true, false, List, [], ◌∷◌, ◌++◌, All, ltb,
  if◌then◌else◌, ◌⊎◌, inl, inr, Bool-cases, Result, ok, err, some, none, arith,
}
use mqtt_python_client_bench.Checks.{Kind, publish, subscribe, rtt, duplex, idle}
use mqtt_python_client_bench.Catalog.{Point}
use mqtt_python_client_bench.Worker.{receives, sends_messages}
use mqtt_python_client_bench.Runner.{
  data_topic, reply_topic, under, topics_from, fanout_topics, publish_topics, listen_topic,
}
use mqtt_python_client_bench.Runner.Peers.{
  Mode, source, echo, Command, Planned, plan_of, peer_plan, Party, worker, peer, StartError,
  not_ready, start_peers, start_parties,
}

-- The filters that a party subscribes to before it is ready.
abbrev pub filters_of : Mode → Command → List String
filters_of source c = []
filters_of _ c = under c.topic c.topics ∷ []

abbrev pub listens : Kind → Point → String → Party → List String
listens k p run_id worker = if receives k then listen_topic k p run_id ∷ [] else []
listens k p run_id (peer key c) = filters_of c.mode c

-- The topics that a party publishes on unasked.
abbrev pub topics_of : (ℕ → String) → Mode → Command → List String
topics_of str source c = publish_topics str c.topic c.topics
topics_of str _ c = []

abbrev pub sends : (ℕ → String) → Kind → Point → String → Party → List String
sends str k p run_id worker =
    if sends_messages k then publish_topics str (data_topic p run_id) p.topics else []
sends str k p run_id (peer key c) = topics_of str c.mode c

-- The topic that an echo answers on.
abbrev pub replies_of : Mode → Command → List String
replies_of echo c = elim c.reply [ none ↦ append c.topic "/reply" ∷ [] | some r ↦ r ∷ [] ]
replies_of _ c = []

abbrev pub replies : Party → List String
replies worker = []
replies (peer key c) = replies_of c.mode c

-- A filter without `+` matches its own topic, and with `/#` at its end those below.
pub data Covers : String → String → Type 0 where
  itself : (topic : String) → Covers topic topic
  below : (topic rest : String) → Covers (append topic "/#") (append topic (append "/" rest))

abbrev pub Heard : List String → String → Type 0
Heard [] topic = ⊥
Heard (filter ∷ filters) topic = Covers filter topic ⊎ Heard filters topic

abbrev pub listens_of : Kind → Point → String → List Party → List String
listens_of k p run_id [] = []
listens_of k p run_id (party ∷ parties) = listens k p run_id party ++ listens_of k p run_id parties

-- Each party starts when someone, maybe itself, is subscribed to all that it publishes unasked; `subs`
-- are the subscriptions so far.
abbrev pub Subscribed : (ℕ → String) → Kind → Point → String → List String → List Party → Type 0
Subscribed str k p run_id subs [] = Unit {0}
Subscribed str k p run_id subs (party ∷ parties) =
    All (Heard (subs ++ listens k p run_id party)) (sends str k p run_id party)
    × Subscribed str k p run_id (subs ++ listens k p run_id party) parties

abbrev pub Answered : Kind → Point → String → List String → List Party → Type 0
Answered k p run_id subs [] = Unit {0}
Answered k p run_id subs (party ∷ parties) =
    All (Heard subs) (replies party) × Answered k p run_id subs parties

abbrev pub Present : Party → List Party → Type 0
Present party [] = ⊥
Present party (first ∷ parties) = (first ≡ party) ⊎ Present party parties

abbrev pub Complete : List Planned → List Party → Type 0
Complete plan parties =
    Present worker parties × All (λ planned. Present (peer planned.0 planned.1) parties) plan

-- What comes of the start: the worker and all peers in an order as above, and each answer of an echo
-- heard, or a party that was not ready.
abbrev pub Started :
    (ℕ → String)
    → (String → Bool)
    → Kind
    → Point
    → String
    → List Planned
    → Result StartError (List Party)
    → Type 0
Started str ready k p run_id plan (ok parties) =
    Complete plan parties
    × Subscribed str k p run_id [] parties
    × Answered k p run_id (listens_of k p run_id parties) parties
Started str ready k p run_id plan (err (not_ready key)) = ready key ≡ false

Heard-first : (filters : List String) (f t : String) → Covers f t → Heard (f ∷ filters) t
Heard-first filters f t c = inl c

topics_from-below :
    (str : ℕ → String) (base : String) (filters : List String) (i n : ℕ)
    → All (Heard (append base "/#" ∷ filters)) (topics_from str base i n)
topics_from-below str base filters i zero = tt
topics_from-below str base filters i (suc n) = (
  inl (below base (append (str (i / 10)) (append "/" (str (i % 10))))),
  topics_from-below str base filters (suc i) n,
)

-- The names that a topic is spread over are below the filter for it.
publish_topics-under :
    (str : ℕ → String) (topic : String) (filters : List String) (n : ℕ)
    → All (Heard (under topic n ∷ filters)) (publish_topics str topic n)
publish_topics-under str topic filters n = spread (ltb 1 n)
  where
    spread :
        (b : Bool)
        → All
            (Heard ((if b then append topic "/#" else topic) ∷ filters))
            (if b then fanout_topics str topic n else topic ∷ [])
    spread true = topics_from-below str topic filters 0 n
    spread false = (inl (itself topic), tt)

module _ (str : ℕ → String) (ready : String → Bool) (sub_offer : ℕ) (p : Point)
    (run_id : String) where
  abbrev Goal : Kind → Type 0
  Goal k =
      Started str ready k p run_id (plan_of sub_offer k p run_id)
        (start_parties ready (plan_of sub_offer k p run_id))

  start_publish : Goal publish
  unfolding start_parties start_peers plan_of listen_topic
  start_publish = elim (Bool-cases (ready "peer")) [
    | inr e ↦ rw e e
    | inl e ↦ rw e (elim (Bool-cases (ready "worker")) [
      | inr w ↦ rw w w
      | inl w ↦ rw w (
        (inr (inl refl), (inl refl, tt)),
        (tt, (publish_topics-under str (data_topic p run_id) [] p.topics, tt)),
        (tt, (tt, tt)),
      )
    ])
  ]

  start_subscribe : Goal subscribe
  unfolding start_parties start_peers plan_of listen_topic
  start_subscribe = elim (Bool-cases (ready "worker")) [
    | inr w ↦ rw w w
    | inl w ↦ rw w (elim (Bool-cases (ready "peer")) [
      | inr e ↦ rw e e
      | inl e ↦ rw e (
        (inl refl, (inr (inl refl), tt)),
        (tt, (publish_topics-under str (data_topic p run_id) [] p.topics, tt)),
        (tt, (tt, tt)),
      )
    ])
  ]

  start_rtt : Goal rtt
  unfolding start_parties start_peers plan_of listen_topic
  start_rtt = elim (Bool-cases (ready "peer")) [
    | inr e ↦ rw e e
    | inl e ↦ rw e (elim (Bool-cases (ready "worker")) [
      | inr w ↦ rw w w
      | inl w ↦ rw w (
        (inr (inl refl), (inl refl, tt)),
        (
          tt,
          (publish_topics-under str (data_topic p run_id) (reply_topic run_id ∷ []) p.topics, tt),
        ),
        ((inr (inl (itself (reply_topic run_id))), tt), (tt, tt)),
      )
    ])
  ]

  -- The source of a duplex run has one topic.
  one_topic :
      (topic : String) (filters : List String)
      → p.topics ≤ 1
      → Heard filters topic
      → All (Heard filters) (publish_topics str topic p.topics)
  one_topic topic filters few h = single (ltb 1 p.topics) (ground arith)
    where
      single :
          (b : Bool)
          → b ≡ false
          → All (Heard filters) (if b then fanout_topics str topic p.topics else topic ∷ [])
      single true e = absurd (cc)
      single false e = (h, tt)

  start_duplex : p.topics ≤ 1 → Goal duplex
  unfolding start_parties start_peers plan_of listen_topic
  start_duplex few = elim (Bool-cases (ready "peer")) [
    | inr e ↦ rw e e
    | inl e ↦ rw e (elim (Bool-cases (ready "worker")) [
      | inr w ↦ rw w w
      | inl w ↦ rw w (elim (Bool-cases (ready "peer_source")) [
        | inr s ↦ rw s s
        | inl s ↦ rw s (
          (inr (inl refl), (inl refl, (inr (inr (inl refl)), tt))),
          (
            tt,
            (
              publish_topics-under str (data_topic p run_id) (reply_topic run_id ∷ []) p.topics,
              (
                one_topic (reply_topic run_id)
                    (under (data_topic p run_id) p.topics ∷ reply_topic run_id ∷ []) few
                    (inr (inl (itself (reply_topic run_id)))),
                tt,
              ),
            ),
          ),
          (tt, (tt, (tt, tt))),
        )
      ])
    ])
  ]

  start_idle : Goal idle
  unfolding start_parties start_peers plan_of listen_topic
  start_idle = elim (Bool-cases (ready "worker")) [
    | inr w ↦ rw w w
    | inl w ↦ rw w ((inl refl, tt), (tt, tt), (tt, tt))
  ]

  start_kind : (k : Kind) → (k ≡ duplex → p.topics ≤ 1) → Goal k
  start_kind publish h = start_publish
  start_kind subscribe h = start_subscribe
  start_kind rtt h = start_rtt
  start_kind duplex h = start_duplex (h refl)
  start_kind idle h = start_idle

  -- For any point, where a duplex one has no more than one topic: either the worker and all peers
  -- start, in an order in which each that publishes unasked, the worker or a source, becomes ready
  -- when a party is subscribed to each of its topics; and the answers of an echo have a subscriber;
  -- or the start ends at a party that was not ready.
  pub start_parties-Started :
      (p.kind ≡ duplex → p.topics ≤ 1)
      → Started str ready p.kind p run_id
          (peer_plan sub_offer p run_id)
          (start_parties ready (peer_plan sub_offer p run_id))
  start_parties-Started h = start_kind p.kind h
