-- ===== src/Lib.antt =====
-- A model of the Testground plans of gossipsub: the generator of network topologies, the instances of
-- the plans scoring, eth_consensus, censoring and smoke and how barriers order them, the parameters
-- they read, the messages they exchange, and the peers that attack a network.
--
-- Parts and files.
-- * GenTopology models eth_consensus/utils/gen_topology/src/lib.rs. `Params` and `Params::new` are
--   GenTopology/Params, the checks of `Network::new` GenTopology/Network. `Network::generate` is
--   GenTopology/Generate: its first block, which cuts the shuffled validators into slices, is
--   Generate/Assign, and its second, which tries the shuffled connections, Generate/Connect. A
--   `BTreeMap` is the list of its entries in key order, a `HashSet` a list without repetition.
-- * TopologyFiles models eth_consensus/utils/gen_topology_files/src/main.rs, the command that saves a
--   generated network as a dot file and a JSON file; it starts with the parsed arguments.
-- * Attacker models `MaliciousBehaviour` of scoring/src/attacker.rs. Attacker/Fragment is
--   `fragment_message`, with its macros as functions, and Attacker/Behaviour the handlers of
--   subscriptions and PRUNE messages, `inject_event` and `poll`; Attacker/Target is
--   `collect_beacon_node_info`, the choice of the node to censor. The state, the queue of actions and
--   the set of keys to graft again, goes from call to call as a record; Attacker/History runs any
--   sequence of calls. Censoring/Attackers has the copy in censoring/src/attacker.rs, which differs in
--   constants, logging and configuration, through the same functions.
-- * Metrics models the queries that each plan makes of the metrics of gossipsub. Metrics/Queries has
--   the loops that the three copies share, by the query that a plan starts with (Metrics/Families is
--   about them, for any table of names); Metrics/Scoring is
--   scoring/src/utils.rs with `record_metrics` of scoring/src/beacon_node.rs, Metrics/Simulation is
--   eth_consensus/simulation/src/utils.rs and network/metrics.rs beside it, Metrics/Censoring is
--   censoring/src/utils.rs with the end of `run` of censoring/src/honest.rs.
-- * BeaconNode models the state of `Network` of scoring/src/beacon_node.rs about received messages:
--   `handle_gossipsub_event`, `subscribe_topics`, and in BeaconNode/Reports the reports at the end of
--   `run_sim`. A `HashMap` of epochs is a list in key order, where the code has no order.
--   BeaconNode/Published is what `run_sim` publishes, and what the others then read. BeaconNode/Run is
--   the loop of `run_sim`, over the list of what `select!` finds ready, up to the deadline.
-- * Barriers models the `run` functions of scoring/src/beacon_node.rs, scoring/src/attacker.rs,
--   eth_consensus/simulation/src/network/run.rs, censoring/src/honest.rs and censoring/src/attacker.rs
--   and `main` of smoke/src/main.rs as sequences of commands (Barriers/Programs) with the calls of
--   `signal_and_wait` between them. The instances take their steps in any order; an instance whose
--   command fails takes no more. Barriers/Runs has the runs in which an instance waits for the infos of
--   others, and goes on where `barrier_and_drive_swarm` drops an error of the sync service.
-- * Parameters models scoring/src/param.rs and `parse_params` of eth_consensus: Parameters/Topology,
--   Parameters/Links for `NetworkParams`, Parameters/Scores for the thresholds and score parameters.
-- * Setup models how a node of scoring and eth_consensus finds its participants and dials the peers
--   that the generated network lists for it, and (Setup/Validators) which validators it runs;
--   Setup/Start is the beginning of their `run`, from the parameters to the node's place.
-- * Exchange models `publish_and_collect` of scoring/src/utils.rs, eth_consensus/simulation/src/utils.rs
--   and censoring/src/utils.rs, by which the instances learn of each other, and
--   `collect_attacker_info` of scoring/src/beacon_node.rs.
-- * Records models the records of scoring/src/utils.rs and the edges that a beacon node records as it
--   dials, the scores of peers in scoring/src/beacon_node.rs and censoring/src/honest.rs, and the loop
--   that sends a list of queries.
-- * Simulation models eth_consensus/simulation/src/network.rs with the loop of network/run.rs: the names
--   of the topics in Simulation/Topics, publishing and the delayed validation in Simulation/Validation,
--   and in Simulation/Run the loop of `run_sim`, like that of BeaconNode/Run.
--   Messages has the messages of the generator that both plans use.
-- * Censoring models censoring/src/main.rs and the start and the loop of censoring/src/honest.rs:
--   Censoring/Honest, Censoring/Rate, Censoring/Publishing.
-- * Smoke models the loops of smoke/src/main.rs that wait for events, over a list of events.
-- * Base has the tests on numbers, lists, maps, sets and outcomes that the parts share.
--
-- A call that can fail returns an `Outcome`: `ok`, `err` with the error, or `panic`. A `usize` has 64
-- bits, and sums wrap around as in a release build; in TopologyFiles, which the README runs as a debug
-- build, an overflow is a panic.
--
-- Parameters. `rand` is the record `Rng`, whose documented behaviour (`shuffle` permutes,
-- `choose_multiple` picks without repetition, `gen_range` stays in its range) is `IsLawful`. The
-- encoded lengths of gossipsub's messages are a `Codec`, the set of `delay_map` a `DelaySet` with the
-- behaviour `IsDelaySet` (an `insert_at` can panic, but at no delay up to `max_delay`), and the conversion of an RPC of GRAFT messages is `IsProtobuf`.
-- The queries of InfluxDB are an `Influx`, whose numbers of other kinds than `u64` and whose queries
-- have no structure, and `serde_json` with `Slot::epoch` is a `Serde`, and with what writes a `Writer`.
-- The sync service of Testground is a `SyncService`, which counts entries; the swarm that dials is a
-- `Swarm`, ids and addresses are `Peers`, and `f64` with its parser is a `Floats`.
-- The files are a `FileSystem` with the behaviour `IsFileSystem`. Values of JSON are a `Json`; the
-- entries of a topic of the sync service, as they are published and collected, are a `Service`, and
-- `IsOrdered` says that all instances see them in one order. The module Tests has an instance of each.
--
-- Bounds and fuel. The loop of `poll` runs on fuel, and more fuel than the set has keys is enough,
-- since a poll that continues the loop takes a key out. A number is printed on fuel too, more than the
-- number itself, and each round divides it by ten. A history of the attacker has for each poll a fuel
-- that depends on the set, and any above the number of keys is enough. All other loops are structural.
--
-- Not modelled: the transport and the swarm of libp2p, the configuration of gossipsub, the calls to the
-- client of Testground, the parser of command lines, logging, the dashboards, and what is left of the
-- start-up code of each plan: keys, addresses and the calls that configure the network.
pub mod Base
pub mod GenTopology
pub mod TopologyFiles
pub mod Attacker
pub mod Censoring
pub mod Barriers
pub mod Metrics
pub mod Parameters
pub mod Setup
pub mod Messages
pub mod Exchange
pub mod Records
pub mod Simulation
pub mod BeaconNode
pub mod Smoke
mod Tests
