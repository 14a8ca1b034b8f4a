-- ===== src/Parameters/Topology.antt =====
-- `parse_topology_params` of scoring/src/param.rs and `parse_params` of
-- eth_consensus/simulation/src/network/run.rs.
pub mod Read
use gossipsub_testground.Base.{
  ℕ, ◌-◌, ◌*◌, ◌/◌, ◌≤◌, ◌<◌, ◌≡◌, refl, List, Option, none, some, String, Outcome, panic, ok, err,
  ok_or, map_err, ◌>>=◌, >>=-eq-ok, if◌then◌else◌, ltb, word, wrapping_mul, wrapping_sub, arith,
}
use gossipsub_testground.Base.Decimal.{parse_u64}
use gossipsub_testground.GenTopology.Params.{
  Params, ParamsError, IsValid, new-IsValid, new-eq-ok_iff,
}
use gossipsub_testground.GenTopology.Params
use gossipsub_testground.Parameters.{InstanceParams, ParamError, get_param}

abbrev pub min : ℕ → ℕ → ℕ
min a b = if ltb b a then b else a

pub data TopologyError : Type 0 where
  bad_param : ParamError → TopologyError
  bad_topology : ParamsError → TopologyError

abbrev pub number : String → InstanceParams → Outcome TopologyError ℕ
number k instance_params = map_err bad_param (get_param parse_u64 k instance_params)

-- The run duration in seconds, and the parameters of the topology.
unfoldable pub parse_topology_params :
    (total_nodes : ℕ) → InstanceParams → Outcome TopologyError (ℕ × Params)
parse_topology_params total_nodes instance_params = do
  seed ← number "seed" instance_params
  percentage ← number "no_val_percentage" instance_params
  total_validators ← number "total_validators" instance_params
  min_peers ← number "min_peers_per_node" instance_params
  max_peers ← number "max_peers_per_node_inclusive" instance_params
  let total_nodes_without_vals = wrapping_mul total_nodes (min percentage 100) / 100
  let total_nodes_with_vals = wrapping_sub total_nodes total_nodes_without_vals
  run ← number "run" instance_params
  params ← map_err bad_topology (
      Params.new seed total_validators total_nodes_with_vals total_nodes_without_vals min_peers
        max_peers)
  ok (run, params)

-- The messages of `parse_params`: a missing parameter is named, a `ParseIntError` names none but in the
-- case of `total_validators`.
pub data SimulationError : Type 0 where
  missing : (key : String) → SimulationError
  parse_int_error : SimulationError
  bad_total_validators : SimulationError
  refused : ParamsError → SimulationError

abbrev pub read_with : SimulationError → String → InstanceParams → Outcome SimulationError ℕ
read_with bad_number k instance_params = do
  text ← ok_or (instance_params k) (missing k)
  ok_or (parse_u64 text) bad_number

unfoldable pub parse_params :
    (instance_count : ℕ) → InstanceParams → Outcome SimulationError (ℕ × Params)
parse_params instance_count instance_params = do
  seed ← read_with parse_int_error "seed" instance_params
  percentage ← read_with parse_int_error "no_val_percentage" instance_params
  total_validators ← read_with bad_total_validators "total_validators" instance_params
  min_peers ← read_with parse_int_error "min_peers_per_node" instance_params
  max_peers ← read_with parse_int_error "max_peers_per_node_inclusive" instance_params
  let total_nodes_without_vals = wrapping_mul instance_count (min percentage 100) / 100
  let total_nodes_with_vals = wrapping_sub instance_count total_nodes_without_vals
  run ← read_with parse_int_error "run" instance_params
  params ← map_err refused (
      Params.new seed total_validators total_nodes_with_vals total_nodes_without_vals min_peers
        max_peers)
  ok (run, params)
