-- ===== src/Setup.antt =====
-- How a node of the plans scoring and eth_consensus finds its place in the generated network and dials
-- its peers: the part of `run` and `main` about participants, and `dial_peers`, of
-- scoring/src/beacon_node.rs, eth_consensus/simulation/src/main.rs, network.rs and network/run.rs.
pub mod Topology
pub mod Dialed
pub mod Validators
pub mod Start
use gossipsub_testground.Base.{
  ℕ, suc, ◌-◌, List, [], ◌∷◌, Option, none, some, Bool, not, ◌==◌, if◌then◌else◌, Outcome, ok,
  expect, ◌>>=◌,
}
use gossipsub_testground.Base.Maps.{get, collect_map, set_of}
use gossipsub_testground.Metrics.Model.{Never}

-- What the plans use of the swarm of libp2p to reach their peers.
pub record Swarm : Type 1 where
  pub State : Type 0
  pub PeerId : Type 0
  pub Multiaddr : Type 0
  pub dial : PeerId → Multiaddr → State → Option State

module _ (swarm : Swarm) where
  pub record InstanceInfo : Type 0 where
    pub peer_id : swarm.PeerId
    pub multiaddr : swarm.Multiaddr

  -- The infos of the other nodes; `collect` into a map.
  abbrev others : ℕ → List (ℕ × InstanceInfo) → List (ℕ × InstanceInfo)
  others node_id [] = []
  others node_id (e ∷ es) =
      let rest = others node_id es in if not (e.0 == node_id) then e ∷ rest else rest

  unfoldable pub participants_of : ℕ → List (ℕ × InstanceInfo) → List (ℕ × InstanceInfo)
  participants_of node_id infos = collect_map [] (others node_id infos)

  -- `dial_peers`: the number of dialed peers; a peer that is no participant, or a dial that fails,
  -- panics.
  unfoldable pub dial_each :
      List (ℕ × InstanceInfo)
      → (outbound_peers : List ℕ) (dialed_peers : ℕ) → swarm.State
      → Outcome Never (ℕ × swarm.State)
  dial_each participants [] dialed_peers state = ok (dialed_peers, state)
  dial_each participants (peer ∷ peers) dialed_peers state = do
    info ← expect (get peer participants)
    state' ← expect (swarm.dial info.peer_id info.multiaddr state)
    dial_each participants peers (suc dialed_peers) state'

-- The peers of the node of scoring: `map_or(vec![], …)`.
abbrev pub or_empty : Option (List ℕ) → List ℕ
or_empty none = []
or_empty (some node_ids) = node_ids

unfoldable pub outbound_peers_of : (node_id : ℕ) → List (ℕ × List ℕ) → List ℕ
outbound_peers_of node_id outbound_peers = or_empty (get node_id outbound_peers)

unfoldable pub validator_set_of : (node_id : ℕ) → List (ℕ × List ℕ) → List ℕ
validator_set_of node_id validator_assignments =
    set_of (or_empty (get node_id validator_assignments))

module _ (swarm : Swarm) where
  -- `dial_peers` of scoring.
  unfoldable pub dial_peers :
      List (ℕ × InstanceInfo swarm) → List ℕ → swarm.State → Outcome Never (ℕ × swarm.State)
  dial_peers participants outbound_peers = dial_each swarm participants outbound_peers 0

  abbrev pub dial_found :
      List (ℕ × InstanceInfo swarm)
      → Option (List ℕ)
      → swarm.State
      → Outcome Never (ℕ × swarm.State)
  dial_found participants (some peers) state = dial_each swarm participants peers 0 state
  dial_found participants none state = ok (0, state)

  -- `dial_peers` of eth_consensus.
  unfoldable pub dial_peers_at :
      (node_id : ℕ)
      → List (ℕ × InstanceInfo swarm)
      → List (ℕ × List ℕ)
      → swarm.State
      → Outcome Never (ℕ × swarm.State)
  unfolding dial_found
  dial_peers_at node_id participants outbound_peers =
      dial_found participants (get node_id outbound_peers)
