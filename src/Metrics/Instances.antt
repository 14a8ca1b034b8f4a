-- ===== src/Metrics/Instances.antt =====
-- When `record_metrics` of the plan eth_consensus and `run` of the plan censoring have the queries of the
-- metrics, and which they are.
use gossipsub_testground.Base.{refl, subst, inl, inr, List, ◌++◌, map, All, String}
use gossipsub_testground.Metrics.Model.{Influx, MetricFamily}
use gossipsub_testground.Metrics.Queries.{concat}
use gossipsub_testground.Metrics.Families.{
  Either, IsHandled, IsRecorded, written_of, families_queries_outcome,
}
use gossipsub_testground.Metrics.Recorded.{JoinsCounters, duplicates, duplicates_lem}
use gossipsub_testground.Metrics.Simulation
use gossipsub_testground.Metrics.Censoring

module _ {db : Influx} where
  joined_counters : JoinsCounters (IsRecorded {db = db} Simulation.handling)
  unfolding Simulation.handling
  joined_counters f (inl named) good =
      subst (λ name. IsHandled {db = db} (Simulation.handling name) f.metrics) named good
  joined_counters f (inr named) good =
      subst (λ name. IsHandled {db = db} (Simulation.handling name) f.metrics) named good

  module _ (datetime : db.Time) (peer_id name run_id : String) (fs : List (MetricFamily db)) where
    -- `record_metrics` of eth_consensus panics exactly if some family has an unknown name or,
    -- unless its name is skipped, a metric whose points are not exactly one of the kind that the
    -- name asks for: a counter or gauge with an integer, or a histogram; otherwise it sends, family
    -- by family and in order, a query for each counter, gauge and histogram bucket, and then those
    -- of the duplicates.
    pub record_metrics_outcome :
        Either
          (All (IsRecorded {db = db} Simulation.handling) fs)
          (Simulation.metrics_queries db datetime peer_id name run_id fs)
          (concat (
              map
                (written_of Simulation.handling
                  (Simulation.tagged_query db datetime peer_id name run_id))
                fs)
            ++ duplicates {db = db}
                (Simulation.tagged_query db datetime peer_id name run_id
                  "topic_msg_recv_duplicates")
                fs)
    unfolding Simulation.metrics_queries
    record_metrics_outcome =
        let tagged : String → db.Query = Simulation.tagged_query db datetime peer_id name run_id in
        elim (families_queries_outcome Simulation.handling tagged fs) [
          | inl (good, e) ↦ inl (
            good,
            rw
                (
                  e,
                  duplicates_lem (IsRecorded {db = db} Simulation.handling) joined_counters
                      (tagged "topic_msg_recv_duplicates") fs good,
                )
                refl,
          )
          | inr (bad, e) ↦ inr (bad, rw e refl)
        ]

    -- The queries of an honest peer of the plan censoring: those of all families in order if each can be
    -- recorded, and a panic otherwise.
    pub honest_metrics_outcome :
        Either
          (All (IsRecorded {db = db} Censoring.handling) fs)
          (Censoring.metrics_queries db datetime peer_id name run_id fs)
          (concat (
            map
              (written_of Censoring.handling
                (Censoring.tagged_query db datetime peer_id name run_id))
              fs))
    unfolding Censoring.metrics_queries
    honest_metrics_outcome =
        families_queries_outcome Censoring.handling
          (Censoring.tagged_query db datetime peer_id name run_id) fs
