-- ===== src/Barriers/Programs.antt =====
-- The `run` functions of scoring/src/beacon_node.rs, scoring/src/attacker.rs,
-- eth_consensus/simulation/src/network/run.rs, censoring/src/honest.rs, censoring/src/attacker.rs and
-- `main` of smoke/src/main.rs, as the commands from the start of libp2p on.
use gossipsub_testground.Base.{List, [], ◌∷◌, ◌++◌, Bool, true, false, String, if◌then◌else◌}
use gossipsub_testground.Censoring.{Role, is_publisher}
use gossipsub_testground.Barriers.{Command, does, signal_entry, barrier}

unfoldable pub signal_and_wait : {A : Type 0} → String → List (Command A)
signal_and_wait state = signal_entry state ∷ barrier state ∷ []

-- What an instance does between the barriers. The first six are an entry of a topic of the sync service,
-- or the wait for the entries of others.
pub data Action : Type 0 where
  publish_beacon_node_info : Action
  collect_beacon_node_infos : Action
  publish_attacker_info : Action
  collect_attacker_infos : Action
  publish_address : Action
  collect_addresses : Action
  start_libp2p : Action
  dial : Action
  subscribe : Action
  -- A subscription whose error is only logged.
  try_subscribe : Action
  warm_up : Action
  -- The messages that `run` of an honest peer sends to the task of its network.
  send_subscribe : Action
  send_start : Action
  send_stop : Action
  run_sim : Action
  publish_message : Action
  receive_messages : Action
  record_success : Action

abbrev pub libp2p_ready : String
libp2p_ready = "Started libp2p"

abbrev pub topology_ready : String
topology_ready = "Topology generated"

abbrev pub simulation_completed : String
simulation_completed = "Simulation completed"

abbrev pub warmup : String
warmup = "Warmup"

abbrev pub finished : String
finished = "Done"

-- scoring: `run` of a beacon node, from `publish_and_collect`.
unfoldable pub beacon_node_run : List (Command Action)
beacon_node_run =
    does publish_beacon_node_info
      ∷ does collect_beacon_node_infos
      ∷ does collect_attacker_infos
      ∷ does start_libp2p
      ∷ signal_and_wait libp2p_ready
    ++ (does dial ∷ signal_and_wait topology_ready)
    ++ (does subscribe ∷ does run_sim ∷ signal_and_wait simulation_completed)
    ++ (does record_success ∷ [])

-- scoring: `run` of an attacker, from `listen_on`; `dial` is the dial of its target.
unfoldable pub attacker_run : List (Command Action)
attacker_run =
    does start_libp2p
      ∷ does collect_beacon_node_infos
      ∷ does publish_attacker_info
      ∷ signal_and_wait libp2p_ready
    ++ (does dial ∷ signal_and_wait topology_ready)
    ++ signal_and_wait simulation_completed
    ++ (does record_success ∷ [])

-- eth_consensus: `run`, from the first barrier.
unfoldable pub eth_run : List (Command Action)
eth_run =
    signal_and_wait topology_ready
    ++ (does start_libp2p ∷ signal_and_wait libp2p_ready)
    ++ (does dial ∷ signal_and_wait topology_ready)
    ++ (does try_subscribe ∷ does run_sim ∷ does record_success ∷ [])

-- censoring: `run` of an honest peer, from `spawn_honest_network`.
unfoldable pub honest_run : Role → List (Command Action)
unfolding is_publisher
honest_run role =
    does start_libp2p ∷ does dial ∷ signal_and_wait libp2p_ready
    ++ (does send_subscribe ∷ does warm_up ∷ signal_and_wait warmup)
    ++ (if is_publisher role then does send_start ∷ does send_stop ∷ [] else [])
    ++ signal_and_wait finished
    ++ (does record_success ∷ [])

-- censoring: `run` of an attacker.
unfoldable pub censor_run : List (Command Action)
censor_run =
    does start_libp2p ∷ signal_and_wait libp2p_ready
    ++ (does dial ∷ signal_and_wait warmup)
    ++ signal_and_wait finished
    ++ (does record_success ∷ [])

-- smoke: `main`, from `listen_on`.
unfoldable pub smoke_run : List (Command Action)
smoke_run =
    does start_libp2p ∷ signal_and_wait "Started listening"
    ++ (does publish_address
        ∷ does collect_addresses
        ∷ does dial
        ∷ signal_and_wait "Connected to a peer")
    ++ (does subscribe ∷ signal_and_wait "Subscribed a topic")
    ++ (does publish_message ∷ does receive_messages ∷ signal_and_wait "Published a message")
    ++ (does record_success ∷ [])

-- Tests of what an instance does.
abbrev pub is_publish_beacon_node_info : Action → Bool
is_publish_beacon_node_info action = elim action [ publish_beacon_node_info ↦ true | _ ↦ false ]

abbrev pub is_publish_attacker_info : Action → Bool
is_publish_attacker_info action = elim action [ publish_attacker_info ↦ true | _ ↦ false ]

abbrev pub is_publish_address : Action → Bool
is_publish_address action = elim action [ publish_address ↦ true | _ ↦ false ]

abbrev pub is_start_libp2p : Action → Bool
is_start_libp2p action = elim action [ start_libp2p ↦ true | _ ↦ false ]

abbrev pub is_dial : Action → Bool
is_dial action = elim action [ dial ↦ true | _ ↦ false ]

abbrev pub is_subscribe : Action → Bool
is_subscribe action = elim action [ subscribe ↦ true | _ ↦ false ]

abbrev pub is_try_subscribe : Action → Bool
is_try_subscribe action = elim action [ try_subscribe ↦ true | _ ↦ false ]

abbrev pub is_send_subscribe : Action → Bool
is_send_subscribe action = elim action [ send_subscribe ↦ true | _ ↦ false ]

abbrev pub is_warm_up : Action → Bool
is_warm_up action = elim action [ warm_up ↦ true | _ ↦ false ]

abbrev pub is_publishing : Action → Bool
is_publishing action = elim action [ send_start ↦ true | publish_message ↦ true | _ ↦ false ]

abbrev pub is_send_stop : Action → Bool
is_send_stop action = elim action [ send_stop ↦ true | _ ↦ false ]

abbrev pub is_run_sim : Action → Bool
is_run_sim action = elim action [ run_sim ↦ true | _ ↦ false ]

abbrev pub is_receive_messages : Action → Bool
is_receive_messages action = elim action [ receive_messages ↦ true | _ ↦ false ]

abbrev pub is_record_success : Action → Bool
is_record_success action = elim action [ record_success ↦ true | _ ↦ false ]
