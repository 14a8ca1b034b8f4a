-- ===== src/BeaconNode/Run.antt =====
-- `run_sim` of scoring/src/beacon_node.rs: the loop over what `select!` finds ready until the
-- deadline, and the reports behind it.
pub mod Completed
use gossipsub_testground.Base.{
  ℕ, List, [], ◌∷◌, ◌++◌, Option, none, some, Outcome, ok, ◌>>=◌, String,
}
use gossipsub_testground.Messages.{Message}
use gossipsub_testground.Metrics.Model.{Never, Influx}
use gossipsub_testground.BeaconNode.{Serde, Received, new, Event, handle_gossipsub_event}
use gossipsub_testground.BeaconNode.Published.{Writer, outgoing}
use gossipsub_testground.BeaconNode.Reports.{record_received}

-- What `tokio::spawn` starts.
pub data Task : Type 0 where
  record_peer_scores : Task
  record_metrics : Task

module _ (serde : Serde) where
  -- The branches of `select!`; `generated` has the payload of the message as text.
  pub data Ready : Type 0 where
    deadline : Ready
    generated : (m : Message) (payload : String) → Ready
    score_tick : Ready
    gossipsub_event : (event : Event serde) → Ready
    other_event : Ready

  -- The calls of gossipsub's `publish`, the tasks that were started, and what is received.
  pub record Run : Type 0 where
    pub published : List (String × serde.Data)
    pub spawned : List Task
    pub received : Received

  unfoldable pub start : Run
  start = record { published = []; spawned = []; received = new }

  module _ (writer : Writer serde) where
    -- The message that `publish` is called with; an error of gossipsub is logged.
    unfoldable pub call : Message → (payload : String) → String × serde.Data
    call m payload =
        let (topic, v, slot) = outgoing m in
        (writer.name_of topic, writer.encode (v, slot, payload))

    -- A round of the loop; the deadline ends it.
    unfoldable pub round : Ready → Run → Outcome Never Run
    round deadline s = ok s
    round (generated m payload) s =
        ok (record s { published = s.published ++ (call m payload ∷ []) })
    round score_tick s =
        ok (record s { spawned = s.spawned ++ (record_peer_scores ∷ record_metrics ∷ []) })
    round (gossipsub_event event) s = do
      received ← handle_gossipsub_event serde event s.received
      ok (record s { received = received })
    round other_event s = ok s

    -- The loop; `none` if the deadline has not come.
    unfoldable pub run_loop : List Ready → Run → Outcome Never (Option Run)
    run_loop [] s = ok none
    run_loop (deadline ∷ _) s = ok (some s)
    run_loop (ready ∷ more) s = do s' ← round ready s; run_loop more s'

    module _ (db : Influx) (timestamp : ℕ → Option db.Time) (show : ℕ → String)
        (peer_id run_id : String) where
      abbrev pub report : Option Run → Outcome Never (Option (Run × List db.Query))
      report none = ok none
      report (some s) = do
        queries ← record_received db timestamp show peer_id run_id s.received
        ok (some (s, queries))

      -- The loop from the new node on, and the queries of the reports.
      unfoldable pub run_sim : List Ready → Outcome Never (Option (Run × List db.Query))
      unfolding report
      run_sim events = do ended ← run_loop events start; report ended
