-- ===== src/Tests/Exchanges.antt =====
-- Two nodes that exchange their infos and dial; values of JSON are infos or texts.
use gossipsub_testground.Base.{
  ℕ, ◌+◌, ◌≡◌, refl, List, [], ◌∷◌, ◌++◌, Option, none, some, ok, length, String, subst,
  if◌then◌else◌, same_text, arith,
}
use gossipsub_testground.Simulation.Accepted.{some-inj}
use gossipsub_testground.Exchange.{
  Json, Item, value, Service, IsOrdered, from_value, collect, publish_and_collect,
  collect_attacker_info,
}
use gossipsub_testground.Exchange.Agreed.{publish_and_collect_outcome, exchange_dials}
use gossipsub_testground.Setup.{InstanceInfo, participants_of, outbound_peers_of, dial_peers}
use gossipsub_testground.Tests.Setups.{swarm, infos, announced}
use gossipsub_testground.Tests.Topologies.{
  counter, counter-IsLawful, pair, pair-IsValid, pair_network, pair_generated,
}

data Value : Type 0 where
  node : ℕ × InstanceInfo swarm → Value
  string : String → Value

abbrev string_of : Value → Option String
string_of (node i) = none
string_of (string text) = some text

abbrev json : Json
json = record { Value = Value; Error = ℕ; string = string; string_of = string_of }

abbrev parse : Value → Option (ℕ × InstanceInfo swarm)
parse (node i) = some i
parse (string text) = none

abbrev info_of : ℕ → ℕ × InstanceInfo swarm
info_of n = (n, record { peer_id = 100 + n; multiaddr = 1000 + n })

-- The service keeps all entries in order.
abbrev entries_of : String → List (String × Value) → List (Item json)
entries_of topic [] = []
entries_of topic ((name, v) ∷ entries) =
    let rest = entries_of topic entries in if same_text name topic then value v ∷ rest else rest

abbrev service : Service json
service = record {
  State = List (String × Value);
  publish = λ topic v s. some (s ++ ((topic, v) ∷ []));
  stream = entries_of;
}

entries_of-append :
    (topic name : String) (v : Value) (s : List (String × Value))
    → entries_of name (s ++ ((topic, v) ∷ []))
      ≡ (if same_text topic name then entries_of name s ++ (value v ∷ []) else entries_of name s)
entries_of-append topic name v [] = refl
entries_of-append topic name v ((key, w) ∷ s) = ground (arith, entries_of-append topic name v s)

service-IsOrdered : IsOrdered service
service-IsOrdered = record {
  stream_of_publish = λ topic name v s t made.
      let same : s ++ ((topic, v) ∷ []) ≡ t = some-inj made in
      subst
        (λ u. entries_of name u ≡ (
          if same_text topic name then entries_of name s ++ (value v ∷ []) else entries_of name s))
        same (entries_of-append topic name v s);
}

abbrev before : List (String × Value)
before = ("other", string "x") ∷ ("beacon_node_info", node (info_of 0)) ∷ []

abbrev published : List (String × Value)
published = before ++ (("beacon_node_info", node (info_of 1)) ∷ [])

abbrev others : List (String × Value) → List (String × Value)
others s = s ++ (("other", string "y") ∷ [])

publish_and_collect_outcome_example :
    publish_and_collect json
      (from_value json parse)
      service
      (λ i. some (node i))
      others
      "beacon_node_info"
      (info_of 1)
      2
      before
    ≡ ok infos
publish_and_collect_outcome_example =
    publish_and_collect_outcome json (from_value json parse) node (λ i. refl) service-IsOrdered
      (λ i. some (node i)) (λ i. refl) others "beacon_node_info" (info_of 1) 2 before published
      (info_of 0 ∷ []) [] [] refl refl refl refl

exchange_dials_example :
    (infos : List (ℕ × InstanceInfo swarm)) × (state' : List ℕ) × (publish_and_collect json
        (from_value json parse)
        service
        (λ i. some (node i))
        others
        "beacon_node_info"
        (info_of 1)
        2
        before
      ≡ ok infos)
    × (dial_peers swarm
          (participants_of swarm 1 infos)
          (outbound_peers_of 1 pair_network.outbound_peers)
          []
        ≡ ok (length (outbound_peers_of 1 pair_network.outbound_peers), state'))
exchange_dials_example =
    exchange_dials json swarm (from_value json parse) node (λ i. refl) service-IsOrdered
      (λ i. some (node i)) (λ i. refl) others counter counter-IsLawful pair pair_network 1
      (info_of 1).1 "beacon_node_info" 2 before published (info_of 0 ∷ []) [] [] [] pair-IsValid
      pair_generated refl refl refl refl announced
      (λ peer_id multiaddr state. (multiaddr ∷ state, refl))

-- One attacker and two beacon nodes.
attackers_collected :
    collect_attacker_info json service parse 3 2 (("attacker_info", node (info_of 9)) ∷ [])
    ≡ ok (info_of 9 ∷ [])
unfolding collect_attacker_info collect
attackers_collected = refl
