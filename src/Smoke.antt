-- ===== src/Smoke.antt =====
-- What an instance of smoke/src/main.rs waits for between its barriers. A stream of events is a list; a
-- wait that finds the list at its end is pending. A peer is its number.
pub mod Waits
pub mod Collected
use gossipsub_testground.Base.{
  ℕ, zero, suc, ◌-◌, List, [], ◌∷◌, ◌++◌, Option, none, some, Bool, not, Outcome, panic, ok, err,
  expect, ◌>>=◌, ◌==◌, ltb, if◌then◌else◌, length, wrapping_sub,
}
use gossipsub_testground.Base.Maps.{elem, set_insert}
use gossipsub_testground.GenTopology.Rng.{Rng}
use gossipsub_testground.Metrics.Model.{Never}

pub data GossipEvent : Type 0 where
  subscribed : (peer : ℕ) → GossipEvent
  message : (source : Option ℕ) → GossipEvent
  other_gossip : GossipEvent

pub data Event : Type 0 where
  dialed : Event
  listened : Event
  behaviour : GossipEvent → Event
  other : Event

-- `event_subscribed` and `event_message`.
pub record Received : Type 0 where
  pub event_subscribed : ℕ
  pub event_message : List ℕ

-- The loop of `barrier_and_drive_swarm` over the events until the barrier.
unfoldable pub count_events : List Event → Received → Outcome Never Received
count_events [] received = ok received
count_events (dialed ∷ events) received = count_events events received
count_events (listened ∷ events) received = count_events events received
count_events (other ∷ events) received = count_events events received
count_events (behaviour other_gossip ∷ events) received = count_events events received
count_events (behaviour (subscribed peer) ∷ events) received =
    count_events events (record received { event_subscribed = suc received.event_subscribed })
count_events (behaviour (message none) ∷ events) received = panic
count_events (behaviour (message (some source)) ∷ events) received =
    count_events events
      (record received { event_message = set_insert source received.event_message })

-- What a loop over the events comes to.
pub data Waited (A : Type 0) : Type 0 where
  pending : A → Waited A
  completed : A → Waited A
  duplicated : Waited A
  panicked : Waited A

-- The loop until a connection to the selected peer is established.
unfoldable pub wait_connected : List Event → Waited Unit
wait_connected [] = pending tt
wait_connected (dialed ∷ events) = completed tt
wait_connected (listened ∷ events) = wait_connected events
wait_connected (behaviour e ∷ events) = wait_connected events
wait_connected (other ∷ events) = wait_connected events

-- The loop that waits for the subscriptions; any other event of gossipsub is unreachable.
unfoldable pub subscribed_loop : (all_peers : ℕ) → List Event → ℕ → Waited ℕ
subscribed_loop all_peers [] n = pending n
subscribed_loop all_peers (behaviour (subscribed peer) ∷ events) n =
    let rest = subscribed_loop all_peers events (suc n) in
    if suc n == all_peers then completed (suc n) else rest
subscribed_loop all_peers (behaviour (message source) ∷ events) n = panicked
subscribed_loop all_peers (behaviour other_gossip ∷ events) n = panicked
subscribed_loop all_peers (dialed ∷ events) n = subscribed_loop all_peers events n
subscribed_loop all_peers (listened ∷ events) n = subscribed_loop all_peers events n
subscribed_loop all_peers (other ∷ events) n = subscribed_loop all_peers events n

unfoldable pub wait_subscribed : (all_peers : ℕ) → List Event → ℕ → Waited ℕ
wait_subscribed all_peers events n =
    if ltb n all_peers then subscribed_loop all_peers events n else completed n

-- The loop that waits for the messages of the others: a message of a known source is a failure.
unfoldable pub message_loop : (expected : ℕ) → List Event → List ℕ → Waited (List ℕ)
message_loop expected [] sources = pending sources
message_loop expected (behaviour (message (some source)) ∷ events) sources =
    let rest = message_loop expected events (source ∷ sources) in
    if elem source sources
    then duplicated
    else if suc (length sources) == expected
    then completed (source ∷ sources)
    else rest
message_loop expected (behaviour (message none) ∷ events) sources = panicked
message_loop expected (behaviour (subscribed peer) ∷ events) sources =
    message_loop expected events sources
message_loop expected (behaviour other_gossip ∷ events) sources =
    message_loop expected events sources
message_loop expected (dialed ∷ events) sources = message_loop expected events sources
message_loop expected (listened ∷ events) sources = message_loop expected events sources
message_loop expected (other ∷ events) sources = message_loop expected events sources

unfoldable pub wait_messages : (test_instance_count : ℕ) → List Event → List ℕ → Waited (List ℕ)
wait_messages test_instance_count events sources =
    let expected = wrapping_sub test_instance_count 1 in
    if ltb (length sources) expected
    then message_loop expected events sources
    else completed sources

-- An item of the stream that `publish_and_collect` reads: a text as it decodes, or another value. The end
-- of the list is the end of the stream, which is unreachable.
pub data Item (A E : Type 0) : Type 0 where
  text : (decoded : Option A) → Item A E
  not_text : Item A E
  failed : E → Item A E

pub data CollectError (E : Type 0) : Type 0 where
  not_decoded : CollectError E
  subscription : E → CollectError E

-- The loop of `publish_and_collect`: `test_instance_count` items.
unfoldable pub collect :
    {A E : Type 0} → (test_instance_count : ℕ) → List (Item A E) → Outcome (CollectError E) (List A)
collect zero items = ok []
collect (suc n) [] = panic
collect (suc n) (text (some info) ∷ items) = do infos ← collect n items; ok (info ∷ infos)
collect (suc n) (text none ∷ items) = err not_decoded
collect (suc n) (not_text ∷ items) = panic
collect (suc n) (failed e ∷ items) = err (subscription e)

abbrev pub last : List ℕ → Option ℕ
last [] = none
last (x ∷ []) = some x
last (x ∷ y ∷ xs) = last (y ∷ xs)

abbrev pub others_than : ℕ → List ℕ → List ℕ
others_than own [] = []
others_than own (x ∷ xs) =
    let rest = others_than own xs in if not (x == own) then x ∷ rest else rest

-- The peer to dial: the last of the shuffled addresses of the others. An address is a number.
unfoldable pub peer_to_dial : Rng → (test_instance_count own : ℕ) → List ℕ → Outcome Never ℕ
peer_to_dial r test_instance_count own addresses =
    expect (last (r.shuffle ℕ (r.seed_from_u64 test_instance_count) (others_than own addresses)).0)
