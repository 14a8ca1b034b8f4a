-- ===== src/BeaconNode/Run/Completed.antt =====
-- What a node of the plan scoring has published and reported at the end of the simulation.
use gossipsub_testground.Base.{
  ℕ, ◌≡◌, refl, subst, sym, ap, ◌∙◌, List, [], ◌∷◌, ◌++◌, append_assoc, append-nil, map, Option,
  some, ok, >>=-eq-ok, All, String,
}
use gossipsub_testground.Metrics.Model.{Influx}
use gossipsub_testground.Messages.{Message}
use gossipsub_testground.Messages
use gossipsub_testground.BeaconNode.{
  blocks, attestations, aggregates, sync_messages, signed_contribution_and_proof, Serde, Received,
  new, Event, handle_gossipsub_event, handle_events,
}
use gossipsub_testground.BeaconNode.Counts.{cell}
use gossipsub_testground.BeaconNode.Published.{Writer, outgoing}
use gossipsub_testground.BeaconNode.Log.{
  Kind, table, HasTables, new-HasTables, IsReadable, log, handle_events_lem,
}
use gossipsub_testground.BeaconNode.Reported.{
  IsTimed, reported, row_query, record_received-reported,
}
use gossipsub_testground.BeaconNode.Run.{
  Task, record_peer_scores, record_metrics, Ready, deadline, generated, score_tick, gossipsub_event,
  other_event, Run, start, call, round, run_loop, run_sim,
}

module _ (serde : Serde) (writer : Writer serde) where
  abbrev pub IsBefore : Ready serde → Type 0
  IsBefore deadline = ⊥
  IsBefore (generated m payload) = Unit
  IsBefore score_tick = Unit
  IsBefore (gossipsub_event event) = Unit
  IsBefore other_event = Unit

  -- What a message is published as: the name of its topic, and its validator, slot and payload.
  abbrev pub announced : Message → (payload : String) → String × serde.Data
  announced (Messages.beacon_block proposer slot) payload =
      (writer.name_of blocks, writer.encode (proposer, slot, payload))
  announced (Messages.aggregate_and_proof_attestation aggregator subnet slot) payload =
      (writer.name_of (aggregates subnet), writer.encode (aggregator, slot, payload))
  announced (Messages.attestation attester subnet slot) payload =
      (writer.name_of (attestations subnet), writer.encode (attester, slot, payload))
  announced (Messages.signed_contribution_and_proof validator subnet slot) payload = (
    writer.name_of (signed_contribution_and_proof subnet),
    writer.encode (validator, slot, payload),
  )
  announced (Messages.sync_committee_message validator subnet slot) payload =
      (writer.name_of (sync_messages subnet), writer.encode (validator, slot, payload))

  call-announced :
      (m : Message) (payload : String) → call serde writer m payload ≡ announced m payload
  unfolding call outgoing
  call-announced (Messages.beacon_block v slot) payload = refl
  call-announced (Messages.aggregate_and_proof_attestation v subnet slot) payload = refl
  call-announced (Messages.attestation v subnet slot) payload = refl
  call-announced (Messages.signed_contribution_and_proof v subnet slot) payload = refl
  call-announced (Messages.sync_committee_message v subnet slot) payload = refl

  -- The events by their kind.
  abbrev pub calls : List (Ready serde) → List (String × serde.Data)
  calls [] = []
  calls (generated m payload ∷ events) = announced m payload ∷ calls events
  calls (deadline ∷ events) = calls events
  calls (score_tick ∷ events) = calls events
  calls (gossipsub_event event ∷ events) = calls events
  calls (other_event ∷ events) = calls events

  abbrev pub tasks : List (Ready serde) → List Task
  tasks [] = []
  tasks (score_tick ∷ events) = record_peer_scores ∷ record_metrics ∷ tasks events
  tasks (deadline ∷ events) = tasks events
  tasks (generated m payload ∷ events) = tasks events
  tasks (gossipsub_event event ∷ events) = tasks events
  tasks (other_event ∷ events) = tasks events

  abbrev pub gossip : List (Ready serde) → List (Event serde)
  gossip [] = []
  gossip (gossipsub_event event ∷ events) = event ∷ gossip events
  gossip (deadline ∷ events) = gossip events
  gossip (generated m payload ∷ events) = gossip events
  gossip (score_tick ∷ events) = gossip events
  gossip (other_event ∷ events) = gossip events

  -- What the loop adds to a run over the events.
  record Extends (events : List (Ready serde)) (s t : Run serde) : Type 0 where
    published : t.published ≡ s.published ++ calls events
    spawned : t.spawned ≡ s.spawned ++ tasks events

  run_loop-gossip :
      (event : Event serde) (more : List (Ready serde)) (s : Run serde) (r : Received)
      → handle_gossipsub_event serde event s.received ≡ ok r
      → run_loop serde writer (gossipsub_event event ∷ more) s
        ≡ run_loop serde writer more (record s { received = r })
  unfolding run_loop round
  run_loop-gossip event more s r handled = rw (handled, run_loop) refl

  run_loop-before :
      (events later : List (Ready serde)) (s : Run serde) (r : Received)
      → All IsBefore events
      → handle_events serde (gossip events) s.received ≡ ok r
      → (t : Run serde) × (run_loop serde writer (events ++ (deadline ∷ later)) s ≡ ok (some t))
        × Extends events s t
        × (t.received ≡ r)
  unfolding run_loop round handle_events
  run_loop-before [] later s r before handled = (
    s,
    refl,
    record { published = sym (append-nil s.published); spawned = sym (append-nil s.spawned) },
    cc,
  )
  run_loop-before (deadline ∷ events) later s r before handled = elim before.0 [ ]
  run_loop-before (generated m payload ∷ events) later s r before handled =
      let made = announced m payload ∷ [] in
      let (t, looped, more, same) =
        run_loop-before events later (record s { published = s.published ++ made }) r before.1
          handled in
      (
        t,
        ap
              (λ c.
                run_loop serde writer (events ++ (deadline ∷ later))
                  (record s { published = s.published ++ (c ∷ []) }))
              (call-announced m payload)
            ∙ looped,
        record {
          published = more.published ∙ append_assoc s.published made (calls events);
          spawned = more.spawned;
        },
        same,
      )
  run_loop-before (score_tick ∷ events) later s r before handled =
      let made = record_peer_scores ∷ record_metrics ∷ [] in
      let (t, looped, more, same) =
        run_loop-before events later (record s { spawned = s.spawned ++ made }) r before.1
          handled in
      (
        t,
        looped,
        record {
          published = more.published;
          spawned = more.spawned ∙ append_assoc s.spawned made (tasks events);
        },
        same,
      )
  run_loop-before (other_event ∷ events) later s r before handled =
      let (t, looped, more, same) = run_loop-before events later s r before.1 handled in
      (t, looped, record { published = more.published; spawned = more.spawned }, same)
  run_loop-before (gossipsub_event event ∷ events) later s r before handled =
      let (next, made, rest) =
        >>=-eq-ok (handle_gossipsub_event serde event s.received)
          (λ u. handle_events serde (gossip events) u) handled in
      let (t, looped, more, same) =
        run_loop-before events later (record s { received = next }) r before.1 rest in
      (
        t,
        run_loop-gossip event (events ++ (deadline ∷ later)) s next made ∙ looped,
        record { published = more.published; spawned = more.spawned },
        same,
      )

  module _ (db : Influx) (timestamp : ℕ → Option db.Time) (show : ℕ → String)
      (peer_id run_id : String) (time_of : ℕ → db.Time) where
    -- For a clock that knows the start of each epoch of the received tables, a writer of messages,
    -- any events before the deadline and any behind it: if the received messages can be read,
    -- `run_sim` of scoring does not panic; it has published exactly the messages generated before
    -- the deadline, in their order, each under its topic with its validator, slot and payload, and
    -- started two tasks for each tick; each table of aggregates and messages has per subnet and
    -- epoch the validators in the order of arrival; and it reports one query for each epoch of each
    -- table with the number of its entries.
    pub run_sim-reported :
        (events later : List (Ready serde))
        → All IsBefore events
        → All (IsReadable serde) (gossip events)
        → ((r : Received)
            → handle_events serde (gossip events) new ≡ ok r
            → All (IsTimed db timestamp show peer_id run_id time_of) (reported show r))
        → (t : Run serde) × (run_sim serde writer db timestamp show peer_id run_id
              (events ++ (deadline ∷ later))
            ≡ ok (
                some
                  (t, map (row_query db show peer_id run_id time_of) (reported show t.received))))
          × (t.published ≡ calls events)
          × (t.spawned ≡ tasks events)
          × ((k : Kind) (n e : ℕ)
              → cell n e (table k t.received)
                ≡ cell n e (table k new) ++ log serde k n e (gossip events))
    unfolding run_sim start
    run_sim-reported events later before readable timed =
        let (r, handled, tables, cells) =
          handle_events_lem serde (gossip events) new new-HasTables readable in
        let (t, looped, done, same) = run_loop-before events later (start serde) r before handled in
        (
          t,
          rw (looped, run_sim)
              (rw
                (record_received-reported db timestamp show peer_id run_id time_of t.received
                  (subst HasTables (sym same) tables)
                  (subst
                    (λ u. All (IsTimed db timestamp show peer_id run_id time_of) (reported show u))
                    (sym same) (timed r handled)))
                refl),
          done.published,
          done.spawned,
          λ k n e. ap (λ u. cell n e (table k u)) same ∙ cells k n e,
        )
