-- ===== src/Setup/Start.antt =====
-- The beginning of `run` of scoring/src/beacon_node.rs and of eth_consensus/simulation/src/network/run.rs:
-- each instance reads the parameters, generates the network, and takes from it its place.
pub mod Agreed
use gossipsub_testground.Base.{ℕ, List, Option, Outcome, ok, ◌>>=◌, map_err}
use gossipsub_testground.GenTopology.Params.{Params}
use gossipsub_testground.GenTopology.Network.{NetworkError}
use gossipsub_testground.GenTopology.Rng.{Rng}
use gossipsub_testground.GenTopology.Generate.{generate}
use gossipsub_testground.Parameters.{InstanceParams}
use gossipsub_testground.Parameters.Topology.{
  TopologyError, parse_topology_params, SimulationError, parse_params,
}
use gossipsub_testground.Setup.{outbound_peers_of, validator_set_of}

-- The errors that `?` passes on, where `E` has those about the parameters.
pub data StartError (E : Type 0) : Type 0 where
  bad_params : E → StartError E
  bad_network : NetworkError → StartError E

-- The place of an instance: how long it runs, the parameters, the peers that it dials and the
-- validators that it runs. In eth_consensus the peers are still those of all nodes.
pub record Place (Peers : Type 0) : Type 0 where
  pub run_duration : ℕ
  pub params : Params
  pub outbound_peers : Peers
  pub validator_set : List ℕ

module _ (r : Rng) where
  unfoldable pub beacon_node_place :
      (node_id test_group_instance_count : ℕ)
      → InstanceParams
      → Outcome (StartError TopologyError) (Place (List ℕ))
  beacon_node_place node_id test_group_instance_count instance_params = do
    (run_duration, params) ←
        map_err bad_params (parse_topology_params test_group_instance_count instance_params)
    network ← map_err bad_network (generate r params)
    ok (record {
      run_duration = run_duration;
      params = network.params;
      outbound_peers = outbound_peers_of node_id network.outbound_peers;
      validator_set = validator_set_of node_id network.validator_assignments;
    })

  unfoldable pub instance_place :
      (node_id test_instance_count : ℕ)
      → InstanceParams
      → Outcome (StartError SimulationError) (Place (List (ℕ × List ℕ)))
  instance_place node_id test_instance_count instance_params = do
    (run_duration, params) ← map_err bad_params (parse_params test_instance_count instance_params)
    network ← map_err bad_network (generate r params)
    ok (record {
      run_duration = run_duration;
      params = network.params;
      outbound_peers = network.outbound_peers;
      validator_set = validator_set_of node_id network.validator_assignments;
    })
