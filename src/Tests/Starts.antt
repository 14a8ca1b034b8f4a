-- ===== src/Tests/Starts.antt =====
-- The start of a hundred nodes, of which 98 have validators.
use gossipsub_testground.Base.{ℕ, ◌≡◌, ◌⊎◌, List, ok, err, ◌>>=◌, arith}
use gossipsub_testground.GenTopology.Network.{peers_differ}
use gossipsub_testground.Parameters.Topology.Read.{
  IsRead, result_of, parse_topology_params-eq-ok_iff,
}
use gossipsub_testground.Setup.Start.{Place, bad_network, beacon_node_place, instance_place}
use gossipsub_testground.Setup.Start.Agreed.{
  AreAgreed, own, beacon_node_place_outcome, instance_place-beacon_node_place,
}
use gossipsub_testground.Tests.Setups.{given, read_params, topology_read}
use gossipsub_testground.Tests.Topologies.{counter, counter-IsLawful}

given-IsRead : IsRead 100 given 2 read_params
given-IsRead =
    (parse_topology_params-eq-ok_iff 100 given 2 read_params (omega arith)).0 topology_read

beacon_node_place_outcome_example :
    ((node_id : ℕ) → beacon_node_place counter node_id 100 given ≡ err (bad_network peers_differ))
    ⊎ ((place : ℕ → Place (List ℕ)) × ((node_id : ℕ)
          → beacon_node_place counter node_id 100 given ≡ ok (place node_id))
        × AreAgreed 2 read_params place)
beacon_node_place_outcome_example =
    beacon_node_place_outcome counter counter-IsLawful 100 given 2 read_params (omega arith)
      given-IsRead (omega arith)

instance_place-beacon_node_place_example :
    result_of (do place ← instance_place counter 1 100 given; ok (own 1 place))
    ≡ result_of (beacon_node_place counter 1 100 given)
instance_place-beacon_node_place_example = instance_place-beacon_node_place counter 1 100 given
