-- ===== src/Metrics/Censoring.antt =====
-- The queries of censoring/src/utils.rs, and the part of `run` of censoring/src/honest.rs that records
-- the metrics, up to the calls that send the queries.
use gossipsub_testground.Base.{ℕ, List, [], ◌∷◌, Option, none, some, Outcome, if◌then◌else◌, String}
use gossipsub_testground.Metrics.Model.{Never, text, Influx, MetricFamily, Metric, Bucket}
use gossipsub_testground.Metrics.Queries.{
  counter_queries, gauge_queries, histogram_queries, Handling, as_counter, as_gauge, as_histogram,
  is_one_of, families_queries,
}
use gossipsub_testground.Metrics.Queries

unfoldable pub handling : String → Option Handling
handling name =
    if is_one_of name ("topic_subscription_status" ∷ [])
    then some (as_gauge "status")
    else if is_one_of name ("topic_peers_counts" ∷ [])
    then some (as_gauge "count")
    else if is_one_of name (
        "invalid_messages_per_topic" ∷ "accepted_messages_per_topic" ∷ "ignored_messages_per_topic"
        ∷ "rejected_messages_per_topic" ∷ [])
    then some as_counter
    else if is_one_of name ("mesh_peer_counts" ∷ [])
    then some (as_gauge "count")
    else if is_one_of name ("mesh_peer_inclusion_events" ∷ "mesh_peer_churn_events" ∷ [])
    then some as_counter
    else if is_one_of name (
        "topic_msg_sent_counts" ∷ "topic_msg_published" ∷ "topic_msg_sent_bytes"
        ∷ "topic_msg_recv_counts_unfiltered" ∷ "topic_msg_recv_counts" ∷ "topic_msg_recv_bytes"
        ∷ [])
    then some as_counter
    else if is_one_of name ("score_per_mesh" ∷ [])
    then some as_histogram
    else if is_one_of name ("scoring_penalties" ∷ [])
    then some as_counter
    else if is_one_of name ("peers_per_protocol" ∷ [])
    then some (as_gauge "peers")
    else if is_one_of name ("heartbeat_duration" ∷ [])
    then some as_histogram
    else if is_one_of name ("topic_iwant_msgs" ∷ "memcache_misses" ∷ [])
    then some as_counter
    else none

-- The values of a metric, as in the other plans.
module _ (db : Influx) where
  abbrev get_gauge_value : Metric db → Outcome Never (Option db.Signed × Option db.Double)
  get_gauge_value metric = Queries.get_gauge_value db metric

  abbrev get_counter_value : Metric db → Outcome Never (Option ℕ × Option db.Double)
  get_counter_value metric = Queries.get_counter_value db metric

  abbrev get_histogram_value : Metric db → Outcome Never (List (Bucket db))
  get_histogram_value metric = Queries.get_histogram_value db metric

-- `instance_name` is what `InstanceInfo::name` returns.
module _ (db : Influx) (datetime : db.Time) (instance_peer_id instance_name run_id : String) where
  unfoldable pub tagged_query : String → db.Query
  tagged_query measurement = db.add_tag "run_id" run_id (
      db.add_tag "instance_name" instance_name
        (db.add_tag "instance_peer_id" instance_peer_id (db.new_query datetime measurement)))

  unfoldable pub queries_for_counter : MetricFamily db → Outcome Never (List db.Query)
  queries_for_counter family = counter_queries db (tagged_query family.name) family

  unfoldable pub queries_for_gauge : MetricFamily db → String → Outcome Never (List db.Query)
  queries_for_gauge family field_name =
      gauge_queries db field_name (tagged_query family.name) family

  unfoldable pub queries_for_histogram : MetricFamily db → Outcome Never (List db.Query)
  queries_for_histogram family = histogram_queries db (tagged_query family.name) family

  -- The queries that `run` sends after the barrier.
  unfoldable pub metrics_queries : List (MetricFamily db) → Outcome Never (List db.Query)
  metrics_queries families = families_queries db handling tagged_query families

  -- The query of `record_instance_info`; `now` is the local time.
  unfoldable pub instance_info_query : db.Time → db.Query
  instance_info_query now = db.add_field "instance_peer_id" (text instance_peer_id) (
      db.add_field "instance_name" (text instance_name)
        (db.add_tag "run_id" run_id (db.new_query now "participants")))
