-- ===== src/Tests/Setups.antt =====
-- Parameters and a dialed network at concrete inputs.
use gossipsub_testground.Base.{
  ℕ, ◌<◌, ◌≡◌, ◌↔◌, refl, List, [], ◌∷◌, none, some, true, false, ok, if◌then◌else◌, same_text,
  length, arith,
}
use gossipsub_testground.Base.Decimal.{codes, parse_u64, parse_digits, parse_from}
use gossipsub_testground.Base.Maps.{keys, elem}
use gossipsub_testground.GenTopology.Params.{Params}
use gossipsub_testground.GenTopology.Params
use gossipsub_testground.Setup.{Swarm, InstanceInfo}
use gossipsub_testground.Parameters.{InstanceParams, get_param, parse_bool}
use gossipsub_testground.Parameters.Topology.{parse_topology_params}
use gossipsub_testground.Parameters.Topology.Read.{IsRead, parse_topology_params-eq-ok_iff}
use gossipsub_testground.Parameters.Scores.{
  Floats, TopicScoreParams, parse_topic_score_params, PeerScoreParams, parse_peer_score_params,
}
use gossipsub_testground.Parameters.Scores.Built.{build_peer_score_params, scored}
use gossipsub_testground.Parameters.Scores.Scored.{build_peer_score_params_outcome}
use gossipsub_testground.BeaconNode.{Topic}

-- A swarm that keeps the addresses it dials.
abbrev pub swarm : Swarm
swarm = record {
  State = List ℕ;
  PeerId = ℕ;
  Multiaddr = ℕ;
  dial = λ peer_id multiaddr state. some (multiaddr ∷ state);
}

abbrev pub infos : List (ℕ × InstanceInfo swarm)
infos =
    (0, record { peer_id = 100; multiaddr = 1000 })
    ∷ (1, record { peer_id = 101; multiaddr = 1001 })
    ∷ []

pub announced : (b : ℕ) → b < 2 → elem b (keys infos) ≡ true
announced b lt = ground arith

-- Every parameter that is not one of these is "2".
abbrev pub given : InstanceParams
given key =
    if same_text key "latency"
    then some (codes "50")
    else if same_text key "scap_enable_topic_params"
    then some (codes "true")
    else if same_text key "scm_enable_topic_params"
    then some (codes "false")
    else some (codes "2")

abbrev pub read_params : Params
read_params = record {
  seed = 2;
  total_validators = 2;
  total_nodes_with_vals = 98;
  total_nodes = 100;
  connections_range = record { first = 2; last = 2 };
}

parse_topology_params-eq-ok_iff_example :
    (parse_topology_params 100 given ≡ ok (2, read_params)) ↔ IsRead 100 given 2 read_params
parse_topology_params-eq-ok_iff_example =
    parse_topology_params-eq-ok_iff 100 given 2 read_params (omega arith)

pub topology_read : parse_topology_params 100 given ≡ ok (2, read_params)
unfolding parse_topology_params get_param parse_u64 parse_digits parse_from Params.new
topology_read = refl

latency_read : get_param parse_u64 "latency" given ≡ ok 50
unfolding get_param parse_u64 parse_digits parse_from
latency_read = refl

latency_max_read : get_param parse_u64 "latency_max" given ≡ ok 2
unfolding get_param parse_u64 parse_digits parse_from
latency_max_read = refl

bandwidth_read : get_param parse_u64 "bandwidth" given ≡ ok 2
unfolding get_param parse_u64 parse_digits parse_from
bandwidth_read = refl

abbrev floats : Floats
floats = record { F64 = ℕ; parse_f64 = λ text. some (length text) }

abbrev topic_params : TopicScoreParams floats
topic_params = record {
  topic_weight = 1;
  time_in_mesh_weight = 1;
  time_in_mesh_quantum = 24;
  time_in_mesh_cap = 1;
  first_message_deliveries_weight = 1;
  first_message_deliveries_decay = 1;
  first_message_deliveries_cap = 1;
  mesh_message_deliveries_weight = 1;
  mesh_message_deliveries_decay = 1;
  mesh_message_deliveries_threshold = 1;
  mesh_message_deliveries_cap = 1;
  mesh_message_deliveries_activation = 768;
  mesh_message_deliveries_window = 2;
  mesh_failure_penalty_weight = 1;
  mesh_failure_penalty_decay = 1;
  invalid_message_deliveries_weight = 1;
  invalid_message_deliveries_decay = 1;
}

abbrev peer_params : PeerScoreParams floats
peer_params = record {
  topics = λ topic. none;
  topic_score_cap = 1;
  decay_interval = 2;
  decay_to_zero = 1;
  retain_score = 2;
  app_specific_weight = 1;
  ip_colocation_factor_weight = 1;
  ip_colocation_factor_threshold = 1;
  behaviour_penalty_weight = 1;
  behaviour_penalty_threshold = 1;
  behaviour_penalty_decay = 1;
}

peer_params_read : parse_peer_score_params floats given ≡ ok peer_params
unfolding parse_peer_score_params get_param parse_u64 parse_digits parse_from
peer_params_read = refl

bb_read : parse_topic_score_params floats "bb" given ≡ ok topic_params
unfolding parse_topic_score_params get_param parse_u64 parse_digits parse_from
bb_read = refl

baap_read : parse_topic_score_params floats "baap" given ≡ ok topic_params
unfolding parse_topic_score_params get_param parse_u64 parse_digits parse_from
baap_read = refl

a_read : parse_topic_score_params floats "a" given ≡ ok topic_params
unfolding parse_topic_score_params get_param parse_u64 parse_digits parse_from
a_read = refl

scap_read : parse_topic_score_params floats "scap" given ≡ ok topic_params
unfolding parse_topic_score_params get_param parse_u64 parse_digits parse_from
scap_read = refl

scap_flag : get_param parse_bool "scap_enable_topic_params" given ≡ ok true
unfolding get_param
scap_flag = refl

scm_flag : get_param parse_bool "scm_enable_topic_params" given ≡ ok false
unfolding get_param
scm_flag = refl

build_peer_score_params_outcome_example :
    (built : PeerScoreParams floats) × (build_peer_score_params floats given ≡ ok built)
    × ((topic : Topic)
        → built.topics topic
          ≡ scored floats topic_params topic_params topic_params topic_params topic_params true
              false topic)
build_peer_score_params_outcome_example =
    build_peer_score_params_outcome floats given peer_params topic_params topic_params topic_params
      topic_params topic_params true false peer_params_read bb_read baap_read a_read scap_flag
      scm_flag (λ enabled. scap_read) (λ enabled. absurd cc)
