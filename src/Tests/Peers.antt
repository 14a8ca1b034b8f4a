-- ===== src/Tests/Peers.antt =====
-- Instances of the plans censoring and smoke at concrete inputs.
use gossipsub_testground.Base.{
  ℕ, ◌+◌, ◌≤◌, ◌<◌, ◌≡◌, ◌⊎◌, refl, List, [], ◌∷◌, ◌++◌, some, Bool, ◌&&◌, panic, ok, length, ◌==◌,
  arith,
}
use gossipsub_testground.Base.Counting.{count, count_if}
use gossipsub_testground.Tests.Topologies.{counter, counter-IsLawful}
use gossipsub_testground.Censoring.{
  Role, publisher, lurker, attacker, is_honest, Peers, InstanceInfo,
}
use gossipsub_testground.Censoring.Honest.{peers_to_dial, peers_to_dial_outcome}
use gossipsub_testground.Censoring.Publishing.{
  Event, score_tick, publish_tick, received, subscribe, start_publishing, stop_publishing, awaiting,
  started, stopped, record_peer_scores, publish_message, subscribe_to, round, rounds,
  publishes_after, publishes_only_started,
}
use gossipsub_testground.Smoke
use gossipsub_testground.Smoke.{
  behaviour, subscribed, message, count_events, Waited, pending, completed, wait_subscribed,
  wait_messages,
}
use gossipsub_testground.Smoke.Waits.{sources, wait_subscribed_outcome, wait_messages_outcome}

abbrev peers : Peers
peers = record { PeerId = ℕ; Multiaddr = ℕ; same_peer = λ a b. a == b }

abbrev info : ℕ → Role → InstanceInfo peers
info n role = record { global_seq = n; group_seq = n; peer_id = n; multiaddr = n; role = role }

abbrev participants : List (InstanceInfo peers)
participants = info 1 publisher ∷ info 2 attacker ∷ info 3 lurker ∷ []

peers_to_dial_outcome_example :
    ((count_if (λ i. is_honest i.role) participants < 2)
      × (peers_to_dial counter peers 4 2 participants ≡ panic))
    ⊎ ((dialed : List (InstanceInfo peers)) × (peers_to_dial counter peers 4 2 participants
          ≡ ok dialed)
        × (length dialed ≡ 2)
        × ((q : InstanceInfo peers → Bool)
            → count_if q dialed ≤ count_if (λ i. is_honest i.role && q i) participants))
peers_to_dial_outcome_example =
    peers_to_dial_outcome counter counter-IsLawful peers 4 2 participants

abbrev before_tick : List Event
before_tick = score_tick ∷ received (subscribe "emulate") ∷ received start_publishing ∷ []

accepted :
    rounds (before_tick ++ publish_tick ∷ received stop_publishing ∷ []) awaiting
    ≡ some (stopped, record_peer_scores ∷ subscribe_to "emulate" ∷ publish_message ∷ [])
unfolding rounds round
accepted = refl

publishes_only_started_example : publishes_after awaiting before_tick ≡ started
publishes_only_started_example =
    publishes_only_started before_tick (received stop_publishing ∷ [])
      (stopped, record_peer_scores ∷ subscribe_to "emulate" ∷ publish_message ∷ []) accepted

abbrev earlier : List Smoke.Event
earlier = Smoke.dialed ∷ behaviour (subscribed 5) ∷ []

earlier_counted :
    count_events earlier (record { event_subscribed = 0; event_message = [] })
    ≡ ok (record { event_subscribed = 1; event_message = [] })
unfolding count_events
earlier_counted = refl

wait_subscribed_outcome_example :
    wait_subscribed 2 (Smoke.other ∷ behaviour (subscribed 6) ∷ []) 1 ≡ completed 2
wait_subscribed_outcome_example =
    wait_subscribed_outcome 2 earlier (Smoke.other ∷ behaviour (subscribed 6) ∷ [])
      (record { event_subscribed = 1; event_message = [] }) earlier_counted tt

abbrev messages : List Smoke.Event
messages = behaviour (message (some 6)) ∷ behaviour (message (some 7)) ∷ []

wait_messages_outcome_example :
    (all_seen : List ℕ) × (wait_messages 4 messages (5 ∷ []) ≡ completed all_seen)
    × (length all_seen + 1 ≡ 4)
    × ((v : ℕ) → count v all_seen ≤ count v (5 ∷ []) + count v (sources messages))
wait_messages_outcome_example =
    wait_messages_outcome 4 messages (5 ∷ []) (omega arith) (omega arith) (omega arith)
      (omega arith) tt (λ v. ground arith)
