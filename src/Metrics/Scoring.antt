-- ===== src/Metrics/Scoring.antt =====
-- The queries of scoring/src/utils.rs, and `record_metrics` of scoring/src/beacon_node.rs up to the
-- calls that send the queries.
use gossipsub_testground.Base.{
  ℕ, List, [], ◌∷◌, ◌++◌, Option, none, some, Outcome, ok, ◌>>=◌, if◌then◌else◌, String,
}
use gossipsub_testground.Metrics.Model.{with_underscore, Never, double, Influx, MetricFamily}
use gossipsub_testground.Metrics.Queries.{
  counter_queries, join_queries, Handling, skip, as_counter, is_one_of, duplicate_queries,
  families_queries,
}

abbrev pub pkg_name : String
pkg_name = "scoring"

-- The classification of the families by `record_metrics`; `none` is `unreachable!()`.
unfoldable pub handling : String → Option Handling
handling name =
    if is_one_of name ("topic_subscription_status" ∷ "topic_peers_counts" ∷ [])
    then some skip
    else if is_one_of name (
        "invalid_messages_per_topic" ∷ "accepted_messages_per_topic" ∷ "ignored_messages_per_topic"
        ∷ "rejected_messages_per_topic" ∷ [])
    then some as_counter
    else if is_one_of name (
        "publish_messages_dropped_per_topic" ∷ "forward_messages_dropped_per_topic"
        ∷ "mesh_peer_counts" ∷ [])
    then some skip
    else if is_one_of name ("mesh_peer_inclusion_events" ∷ "mesh_peer_churn_events" ∷ [])
    then some as_counter
    else if is_one_of name (
        "topic_msg_sent_counts" ∷ "topic_msg_published" ∷ "topic_msg_sent_bytes"
        ∷ "topic_msg_recv_counts_unfiltered" ∷ "topic_msg_recv_counts" ∷ "topic_msg_recv_bytes"
        ∷ [])
    then some as_counter
    else if is_one_of name ("score_per_mesh" ∷ [])
    then some skip
    else if is_one_of name ("scoring_penalties" ∷ [])
    then some as_counter
    else if is_one_of name ("peers_per_protocol" ∷ "heartbeat_duration" ∷ [])
    then some skip
    else if is_one_of name ("topic_iwant_msgs" ∷ "memcache_misses" ∷ [])
    then some as_counter
    else if is_one_of name ("priority_queue_size" ∷ "non_priority_queue_size" ∷ [])
    then some skip
    else none

module _ (db : Influx) (datetime : db.Time) (peer_id run_id : String) where
  unfoldable pub tagged_query : String → db.Query
  tagged_query measurement =
      db.add_tag "run_id" run_id (db.add_tag "peer_id" peer_id (db.new_query datetime measurement))

  unfoldable pub queries_for_counter : MetricFamily db → Outcome Never (List db.Query)
  unfolding tagged_query
  queries_for_counter family =
      counter_queries db (tagged_query (with_underscore pkg_name family.name)) family

  unfoldable pub queries_for_counter_join :
      MetricFamily db → MetricFamily db → String → (ℕ → ℕ → ℕ) → Outcome Never (List db.Query)
  queries_for_counter_join family1 family2 name predicate =
      join_queries db (tagged_query (with_underscore pkg_name name)) predicate family1 family2

  -- The queries that `record_metrics` sends.
  unfoldable pub metrics_queries : List (MetricFamily db) → Outcome Never (List db.Query)
  metrics_queries families = do
    queries ←
        families_queries db handling (λ name. tagged_query (with_underscore pkg_name name)) families
    duplicates ←
        duplicate_queries db
          (tagged_query (with_underscore pkg_name "topic_msg_recv_counts_duplicates")) families
    ok (queries ++ duplicates)

  unfoldable pub add_scores : List String → List (String × db.Double) → db.Query → db.Query
  add_scores attackers [] query = query
  add_scores attackers ((peer, score) ∷ r) query =
      let field = if is_one_of peer attackers then with_underscore "attacker" peer else peer in
      add_scores attackers r (db.add_field field (double score) query)

  -- The query that `record_peer_scores` sends, if there is a score.
  unfoldable pub peer_scores_query : List String → List (String × db.Double) → Option db.Query
  peer_scores_query attackers [] = none
  peer_scores_query attackers (s ∷ r) =
      some (add_scores attackers (s ∷ r) (tagged_query (with_underscore pkg_name "scores")))
