-- ===== src/Metrics/Simulation.antt =====
-- The queries of eth_consensus/simulation/src/utils.rs, and `initialise_metrics` and `record_metrics`
-- of eth_consensus/simulation/src/network/metrics.rs up to the calls that send the queries.
use gossipsub_testground.Base.{
  ℕ, List, [], ◌∷◌, ◌++◌, map, Option, none, some, Outcome, ok, ◌>>=◌, if◌then◌else◌, String,
  range_from,
}
use gossipsub_testground.Metrics.Model.{Never, signed, Influx, MetricFamily}
use gossipsub_testground.Metrics.Queries.{
  concat, counter_queries, gauge_queries, histogram_queries, join_queries, Handling, skip,
  as_counter, as_gauge, as_histogram, is_one_of, duplicate_queries, families_queries,
}

-- `Topic` of eth_consensus/simulation/src/network.rs.
pub data Topic : Type 0 where
  blocks : Topic
  attestations : ℕ → Topic
  aggregates : Topic
  sync_messages : ℕ → Topic
  signed_contribution_and_proof : ℕ → Topic

-- The topics of `initialise_metrics`, for the numbers of subnets.
unfoldable pub sync_topics : List ℕ → List Topic
sync_topics [] = []
sync_topics (x ∷ r) = sync_messages x ∷ signed_contribution_and_proof x ∷ sync_topics r

unfoldable pub all_topics : ℕ → ℕ → List Topic
all_topics attestation_subnets sync_subnets =
    (blocks ∷ aggregates ∷ map attestations (range_from 0 attestation_subnets))
    ++ sync_topics (range_from 0 sync_subnets)

unfoldable pub handling : String → Option Handling
handling name =
    if is_one_of name ("topic_subscription_status" ∷ [])
    then some (as_gauge "status")
    else if is_one_of name ("topic_peers_counts" ∷ [])
    then some (as_gauge "count")
    else if is_one_of name (
        "invalid_messages_per_topic" ∷ "accepted_messages_per_topic" ∷ "ignored_messages_per_topic"
        ∷ "rejected_messages_per_topic" ∷ [])
    then some as_counter
    else if is_one_of name
        ("publish_messages_dropped_per_topic" ∷ "forward_messages_dropped_per_topic" ∷ [])
    then some skip
    else if is_one_of name ("mesh_peer_counts" ∷ [])
    then some (as_gauge "count")
    else if is_one_of name ("mesh_peer_inclusion_events" ∷ "mesh_peer_churn_events" ∷ [])
    then some as_counter
    else if is_one_of name (
        "topic_msg_sent_counts" ∷ "topic_msg_published" ∷ "topic_msg_sent_bytes"
        ∷ "topic_msg_recv_counts_unfiltered" ∷ "topic_msg_recv_counts" ∷ "topic_msg_recv_bytes"
        ∷ [])
    then some as_counter
    else if is_one_of name ("score_per_mesh" ∷ [])
    then some as_histogram
    else if is_one_of name ("scoring_penalties" ∷ [])
    then some as_counter
    else if is_one_of name ("peers_per_protocol" ∷ [])
    then some (as_gauge "peers")
    else if is_one_of name ("heartbeat_duration" ∷ [])
    then some as_histogram
    else if is_one_of name ("topic_iwant_msgs" ∷ "memcache_misses" ∷ [])
    then some as_counter
    else if is_one_of name ("priority_queue_size" ∷ "non_priority_queue_size" ∷ [])
    then some skip
    else none

-- `instance_name` is the node's number as text.
module _ (db : Influx) (datetime : db.Time) (instance_peer_id instance_name run_id : String) where
  unfoldable pub tagged_query : String → db.Query
  tagged_query measurement = db.add_tag "run_id" run_id (
      db.add_tag "instance_name" instance_name
        (db.add_tag "instance_peer_id" instance_peer_id (db.new_query datetime measurement)))

  unfoldable pub queries_for_counter : MetricFamily db → Outcome Never (List db.Query)
  queries_for_counter family = counter_queries db (tagged_query family.name) family

  unfoldable pub queries_for_gauge : MetricFamily db → String → Outcome Never (List db.Query)
  queries_for_gauge family field_name =
      gauge_queries db field_name (tagged_query family.name) family

  unfoldable pub queries_for_histogram : MetricFamily db → Outcome Never (List db.Query)
  queries_for_histogram family = histogram_queries db (tagged_query family.name) family

  unfoldable pub queries_for_counter_join :
      MetricFamily db → MetricFamily db → String → (ℕ → ℕ → ℕ) → Outcome Never (List db.Query)
  queries_for_counter_join family1 family2 name predicate =
      join_queries db (tagged_query name) predicate family1 family2

  unfoldable pub initialise_counter : String → String → db.Query
  initialise_counter name hash =
      db.add_field "count" (signed (db.literal 0)) (db.add_tag "hash" hash (tagged_query name))

  -- The queries that `initialise_metrics` sends; `hash_of` is the hash of a topic as text.
  unfoldable pub initial_queries : (Topic → String) → ℕ → ℕ → List db.Query
  initial_queries hash_of attestation_subnets sync_subnets = concat (
      map
        (λ name.
          map (λ topic. initialise_counter name (hash_of topic))
            (all_topics attestation_subnets sync_subnets))
        ("topic_msg_published" ∷ "topic_msg_recv_counts" ∷ "topic_msg_recv_counts_unfiltered"
          ∷ "topic_msg_recv_duplicates" ∷ "topic_msg_sent_bytes" ∷ "topic_msg_recv_bytes" ∷ []))

  -- The queries that `record_metrics` sends.
  unfoldable pub metrics_queries : List (MetricFamily db) → Outcome Never (List db.Query)
  metrics_queries families = do
    queries ← families_queries db handling tagged_query families
    duplicates ← duplicate_queries db (tagged_query "topic_msg_recv_duplicates") families
    ok (queries ++ duplicates)
