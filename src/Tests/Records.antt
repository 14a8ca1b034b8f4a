-- ===== src/Tests/Records.antt =====
-- Records of a node, of an attacker and of an honest peer.
use gossipsub_testground.Base.{ℕ, ◌≡◌, refl, List, [], ◌∷◌, not, Bool, ok, ◌==◌, String}
use gossipsub_testground.Metrics.Model.{text}
use gossipsub_testground.Records.{run_query, Database, record_edges, named_scores_query, name_in}
use gossipsub_testground.Records.Sent.{run_id_queries, victim_queries, recorded_once}
use gossipsub_testground.Records.Scores.{AreScores, scores_query, named_scores_query_outcome}
use gossipsub_testground.Records.Edges.{AreInfosOf, edge_queries, record_edges_outcome}
use gossipsub_testground.Setup.{InstanceInfo, participants_of, outbound_peers_of}
use gossipsub_testground.Tests.Metrics.{db}
use gossipsub_testground.Tests.Setups.{swarm, infos, announced}
use gossipsub_testground.Tests.Topologies.{
  counter, counter-IsLawful, pair, pair-IsValid, pair_network, pair_generated,
}

abbrev show : ℕ → String
show n = "n"

abbrev below : ℕ → Bool
below n = not (n == 2)

abbrev empty : Database below
empty = record { recorded = []; failures = 0 }

recorded_once_example :
    (run_id_queries db show 0 "run" (3 ∷ 1 ∷ 2 ∷ [])
      ≡ db.add_field "run_id" (text "run") (run_query db show 0 "run" "run_id") ∷ [])
    × (victim_queries db show 0 "run" ((2, "a") ∷ (1, "b") ∷ [])
        ≡ db.add_field "peer_id" (text "b") (run_query db show 0 "run" "victim") ∷ [])
recorded_once_example =
    recorded_once db show 0 "run" (3 ∷ 1 ∷ 2 ∷ []) ((2, "a") ∷ (1, "b") ∷ []) "b" refl refl refl

abbrev participants : List (String × String)
participants = ("p", "Publisher1") ∷ ("q", "Lurker1") ∷ []

named_scores_query_outcome_example :
    (fields : List (String × ℕ)) × AreScores db participants (("q", 4) ∷ []) fields
    × (named_scores_query db 0 "p" "Publisher1" "run" (name_in participants) (("q", 4) ∷ [])
        ≡ ok (scores_query db 0 "p" "Publisher1" "run" (("q", 4) ∷ []) fields))
named_scores_query_outcome_example =
    named_scores_query_outcome db participants 0 "p" "Publisher1" "run" (("q", 4) ∷ []) (refl, tt)

record_edges_outcome_example :
    (targets : List (InstanceInfo swarm)) × (state' : List ℕ) × AreInfosOf swarm
      (participants_of swarm 0 infos)
      (outbound_peers_of 0 pair_network.outbound_peers)
      targets
    × (record_edges db show 0 "run" swarm
          (λ p. "peer")
          (λ n. n)
          "own"
          (participants_of swarm 0 infos)
          0
          (outbound_peers_of 0 pair_network.outbound_peers)
          []
        ≡ ok (edge_queries db show 0 "run" swarm (λ p. "peer") (λ n. n) "own" 0 targets, state'))
record_edges_outcome_example =
    record_edges_outcome db show 0 "run" swarm (λ p. "peer") (λ n. n) counter counter-IsLawful pair
      pair_network 0 "own" infos [] (λ p m s. (m ∷ s, refl)) pair-IsValid pair_generated announced
