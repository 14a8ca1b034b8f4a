-- ===== src/Records.antt =====
-- What the instances write to InfluxDB besides the metrics: the records of scoring/src/utils.rs about
-- the run and its topology, the peer scores of scoring/src/beacon_node.rs and censoring/src/honest.rs,
-- and the loops that send queries.
pub mod Sent
pub mod Scores
pub mod Edges
use gossipsub_testground.Base.{
  ℕ, suc, List, [], ◌∷◌, ◌++◌, Option, none, some, Bool, not, Outcome, ok, expect, ◌>>=◌, ◌==◌,
  if◌then◌else◌, is_empty, same_text, wrapping_sub, String,
}
use gossipsub_testground.Base.Maps.{get}
use gossipsub_testground.Metrics.Model.{with_underscore, Never, signed, double, text, Influx}
use gossipsub_testground.Metrics.Scoring.{pkg_name}
use gossipsub_testground.Setup.{Swarm, InstanceInfo}

-- `show` is the decimal form of a number, `now` the local time; `group_seq` counts from 1.
module _ (db : Influx) (show : ℕ → String) (now : db.Time) (run_id : String) where
  abbrev pub run_query : (measurement : String) → db.Query
  run_query measurement =
      db.add_tag "run_id" run_id (db.new_query now (with_underscore pkg_name measurement))

  -- The queries that a call sends; a failure is logged.
  unfoldable pub record_run_id : (group_seq : ℕ) → List db.Query
  record_run_id group_seq =
      if not (group_seq == 1)
      then []
      else db.add_field "run_id" (text run_id) (run_query "run_id") ∷ []

  unfoldable pub record_victim_id : (group_seq : ℕ) (victim : String) → List db.Query
  record_victim_id group_seq victim =
      if not (group_seq == 1)
      then []
      else db.add_field "peer_id" (text victim) (run_query "victim") ∷ []

  unfoldable pub node_title : (group_seq : ℕ) (validators : List ℕ) → String
  node_title group_seq validators =
      if is_empty validators
      then with_underscore "bn_no_val" (show (wrapping_sub group_seq 1))
      else with_underscore "bn" (show (wrapping_sub group_seq 1))

  unfoldable pub record_topology_beacon_node :
      (group_seq : ℕ) (peer_id : String) (validators : List ℕ) → List db.Query
  unfolding node_title
  record_topology_beacon_node group_seq peer_id validators =
      db.add_field "arc__bn" (signed (db.literal 1)) (
        db.add_field "title" (text (node_title group_seq validators))
          (db.add_field "id" (text peer_id) (run_query "topology_node")))
      ∷ []

  unfoldable pub record_topology_attacker : (group_seq : ℕ) (peer_id : String) → List db.Query
  record_topology_attacker group_seq peer_id =
      db.add_field "arc__attacker" (signed (db.literal 1)) (
        db.add_field "title" (text (with_underscore "attacker" (show (wrapping_sub group_seq 1))))
          (db.add_field "id" (text peer_id) (run_query "topology_node")))
      ∷ []

  -- `id` is a random number.
  unfoldable pub record_topology_edge : (id : ℕ) (source target : String) → db.Query
  record_topology_edge id source target = db.add_field "target" (text target) (
      db.add_field "source" (text source)
        (db.add_field "id" (text (show id)) (run_query "topology_edge")))

  -- `dial_peers` of scoring: the edges that it records, each before the dial of the peer; a dial that
  -- fails panics. `random` gives the random numbers in turn, and `shown` is the text of a peer id.
  module _ (swarm : Swarm) (shown : swarm.PeerId → String) (random : ℕ → ℕ) where
    unfoldable pub record_edges :
        (own : String) (participants : List (ℕ × InstanceInfo swarm))
        → (round : ℕ) (outbound_peers : List ℕ) → swarm.State
        → Outcome Never (List db.Query × swarm.State)
    record_edges own participants round [] state = ok ([], state)
    record_edges own participants round (peer ∷ peers) state = do
      info ← expect (get peer participants)
      let query = record_topology_edge (random round) own (shown info.peer_id)
      state' ← expect (swarm.dial info.peer_id info.multiaddr state)
      (queries, last) ← record_edges own participants (suc round) peers state'
      ok (query ∷ queries, last)

-- The loops that send queries: each is sent, whether or not those before it were accepted.
-- `accepts` is whether `record_metric` returns `Ok`.
module _ {Query : Type 0} (accepts : Query → Bool) where
  -- The queries that the database has, and how many failures are logged.
  pub record Database : Type 0 where
    pub recorded : List Query
    pub failures : ℕ

  unfoldable pub record_metric : Query → Database → Database
  record_metric query s =
      if accepts query
      then record s { recorded = s.recorded ++ (query ∷ []) }
      else record s { failures = suc s.failures }

  unfoldable pub send_all : List Query → Database → Database
  send_all [] s = s
  send_all (query ∷ queries) s = send_all queries (record_metric query s)

-- `all_peers` and `peer_score` of gossipsub: the score of each peer that has one.
unfoldable pub scores_of :
    {Peer Score : Type 0} → (Peer → Option Score) → List Peer → List (Peer × Score)
scores_of peer_score [] = []
scores_of peer_score (peer ∷ peers) = elim (peer_score peer) [
  | none ↦ scores_of peer_score peers
  | some score ↦ (peer, score) ∷ scores_of peer_score peers
]

-- The map `participants` that `HonestNetwork::new` fills with the name of each participant, as the
-- look-up of a peer: the last entry of the peer.
unfoldable pub name_in : (participants : List (String × String)) (peer : String) → Option String
name_in [] peer = none
name_in ((peer_id, name) ∷ participants) peer = elim (name_in participants peer) [
  | some later ↦ some later
  | none ↦ if same_text peer peer_id then some name else none
]

-- `record_peer_scores` of the plan censoring.
module _ (db : Influx) (now : db.Time) (instance_peer_id instance_name run_id : String) where
  unfoldable pub add_named_scores :
      (name_of : String → Option String)
      → List (String × db.Double)
      → db.Query
      → Outcome Never db.Query
  add_named_scores name_of [] query = ok query
  add_named_scores name_of ((peer, score) ∷ scores) query = do
    name ← expect (name_of peer)
    add_named_scores name_of scores (db.add_field name (double score) query)

  -- The query, if there is a score; a peer that is no participant panics.
  unfoldable pub named_scores_query :
      (name_of : String → Option String)
      → List (String × db.Double)
      → Outcome Never (Option db.Query)
  named_scores_query name_of [] = ok none
  named_scores_query name_of (s ∷ scores) = do
    query ← add_named_scores name_of (s ∷ scores) (
        db.add_tag "run_id" run_id (
          db.add_tag "instance_name" instance_name
            (db.add_tag "instance_peer_id" instance_peer_id (db.new_query now "scores"))))
    ok (some query)
