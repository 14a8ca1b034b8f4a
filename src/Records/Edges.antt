-- ===== src/Records/Edges.antt =====
-- The edges of the topology that a beacon node records, against the network and what it collected.
use gossipsub_testground.Base.{ℕ, suc, ◌<◌, ◌≡◌, refl, List, [], ◌∷◌, some, true, ok, All, String}
use gossipsub_testground.Base.Maps.{get, keys, elem}
use gossipsub_testground.GenTopology.Params.{Params}
use gossipsub_testground.GenTopology.Params
use gossipsub_testground.GenTopology.Network.{Network}
use gossipsub_testground.GenTopology.Rng.{Rng, IsLawful}
use gossipsub_testground.GenTopology.Generate.{generate}
use gossipsub_testground.Metrics.Model.{with_underscore, text, Influx}
use gossipsub_testground.Metrics.Scoring.{pkg_name}
use gossipsub_testground.Records.{record_topology_edge, record_edges}
use gossipsub_testground.Setup.{Swarm, InstanceInfo, participants_of, outbound_peers_of}
use gossipsub_testground.Setup.Topology.{generated_peers}
use gossipsub_testground.Setup.Dialed.{Has, Reachable, All-known}

module _ (swarm : Swarm) where
  -- The infos of the peers, in their order.
  abbrev pub AreInfosOf :
      List (ℕ × InstanceInfo swarm) → List ℕ → List (InstanceInfo swarm) → Type 0
  AreInfosOf participants [] [] = Unit
  AreInfosOf participants [] (_ ∷ _) = ⊥
  AreInfosOf participants (_ ∷ _) [] = ⊥
  AreInfosOf participants (peer ∷ peers) (info ∷ infos) =
      (get peer participants ≡ some info) × AreInfosOf participants peers infos

module _ (db : Influx) (show : ℕ → String) (now : db.Time) (run_id : String) (swarm : Swarm)
    (shown : swarm.PeerId → String) (random : ℕ → ℕ) where
  -- The edges from a node to others.
  abbrev pub edge_queries : (own : String) (round : ℕ) → List (InstanceInfo swarm) → List db.Query
  edge_queries own round [] = []
  edge_queries own round (info ∷ infos) =
      db.add_field "target" (text (shown info.peer_id)) (
        db.add_field "source" (text own) (
          db.add_field "id" (text (show (random round))) (
            db.add_tag "run_id" run_id
              (db.new_query now (with_underscore pkg_name "topology_edge")))))
      ∷ edge_queries own (suc round) infos

  record_edges-known :
      (own : String) (participants : List (ℕ × InstanceInfo swarm)) (round : ℕ) (peers : List ℕ)
      (state : swarm.State)
      → Reachable swarm
      → All (λ b. Has b participants) peers
      → (infos : List (InstanceInfo swarm)) × (state' : swarm.State) × AreInfosOf swarm participants
          peers infos
        × (record_edges db show now run_id swarm shown random own participants round peers state
            ≡ ok (edge_queries own round infos, state'))
  unfolding record_edges record_topology_edge
  record_edges-known own participants round [] state reachable known = ([], state, tt, refl)
  record_edges-known own participants round (peer ∷ peers) state reachable ((info, found), known) =
      let (next, dials) = reachable info.peer_id info.multiaddr state in
      let (infos, last, are, recorded) =
        record_edges-known own participants (suc round) peers next reachable known in
      (info ∷ infos, last, (found, are), rw (found, dials, recorded) refl)

  -- Over a network that a lawful generator made for valid parameters, if the infos of all nodes are
  -- collected and the swarm accepts each dial, the dialing records without a panic exactly one edge
  -- for each peer of the node, in order, with the node as its source and the peer id in the peer's
  -- info as its target.
  pub record_edges_outcome :
      (r : Rng) (lawful : IsLawful r) (params : Params) (network : Network) (node_id : ℕ)
      (own : String) (infos : List (ℕ × InstanceInfo swarm)) (state : swarm.State)
      → Reachable swarm
      → Params.IsValid params
      → generate r params ≡ ok network
      → ((b : ℕ) → b < params.total_nodes → elem b (keys infos) ≡ true)
      → (targets : List (InstanceInfo swarm)) × (state' : swarm.State) × AreInfosOf swarm
          (participants_of swarm node_id infos)
          (outbound_peers_of node_id network.outbound_peers)
          targets
        × (record_edges db show now run_id swarm shown random own
              (participants_of swarm node_id infos)
              0
              (outbound_peers_of node_id network.outbound_peers)
              state
            ≡ ok (edge_queries own 0 targets, state'))
  record_edges_outcome r lawful params network node_id own infos state reachable valid made
        announced =
      record_edges-known own (participants_of swarm node_id infos) 0
        (outbound_peers_of node_id network.outbound_peers) state reachable
        (All-known swarm params.total_nodes node_id infos
          (outbound_peers_of node_id network.outbound_peers) announced
          (generated_peers r lawful params network node_id valid made))
