-- ===== src/BeaconNode/Reports.antt =====
-- The queries by which the beacon node of the plan scoring reports what it has received.
use gossipsub_testground.Base.{
  ℕ, List, ◌++◌, Option, Outcome, ok, ◌>>=◌, expect, for_each, length, range_from, get_elem?,
  String,
}
use gossipsub_testground.Metrics.Model.{with_underscore, Never, unsigned, Influx}
use gossipsub_testground.Metrics.Queries.{concat}
use gossipsub_testground.Metrics.Scoring.{pkg_name}
use gossipsub_testground.BeaconNode.{attestation_subnets, sync_subnets, Epochs, Received}

-- `timestamp` is the start of an epoch by the slot clock, and `show` the decimal form of a number.
module _ (db : Influx) (timestamp : ℕ → Option db.Time) (show : ℕ → String)
    (peer_id run_id : String) where
  -- A round of the loops over the epochs.
  unfoldable pub epoch_query : String → ℕ × List ℕ → Outcome Never db.Query
  epoch_query measurement (epoch, entries) = do
    time ← expect (timestamp epoch)
    ok (
        db.add_field "count" (unsigned (length entries)) (
          db.add_tag "epoch" (show epoch) (
            db.add_tag "run_id" run_id
              (db.add_tag "peer_id" peer_id (db.new_query time measurement)))))

  unfoldable pub record_received_beacon_blocks : Received → Outcome Never (List db.Query)
  record_received_beacon_blocks s =
      for_each (epoch_query (with_underscore pkg_name "beacon_block")) s.received_beacon_blocks

  -- The loop over the subnets, which `record_received_attestations` has as well.
  unfoldable pub record_received_message_count_per_epoch :
      String → ℕ → List Epochs → Outcome Never (List db.Query)
  record_received_message_count_per_epoch measurement subnets messages = do
    queries ←
        for_each
          (λ subnet_id. do
            m ← expect (get_elem? messages subnet_id)
            for_each
                (epoch_query
                  (with_underscore (with_underscore pkg_name measurement) (show subnet_id)))
                m)
          (range_from 0 subnets)
    ok (concat queries)

  unfoldable pub record_received_attestations : Received → Outcome Never (List db.Query)
  record_received_attestations s =
      record_received_message_count_per_epoch "attestations" attestation_subnets
        s.received_attestations

  -- The reports at the end of `run_sim`.
  unfoldable pub record_received : Received → Outcome Never (List db.Query)
  record_received s = do
    blocks ← record_received_beacon_blocks s
    attestations ← record_received_attestations s
    aggregates ←
        record_received_message_count_per_epoch "aggregates" attestation_subnets
          s.received_aggregates
    sync_aggregates ←
        record_received_message_count_per_epoch "sync_committee_aggregates" sync_subnets
          s.received_sync_committee_aggregates
    sync_messages ←
        record_received_message_count_per_epoch "sync_committee_messages" sync_subnets
          s.received_sync_committee_messages
    ok (blocks ++ (attestations ++ (aggregates ++ (sync_aggregates ++ sync_messages))))
