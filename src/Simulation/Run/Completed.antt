-- ===== src/Simulation/Run/Completed.antt =====
-- What a run of eth_consensus has done at its end, by the events before the deadline.
use gossipsub_testground.Base.{
  ℕ, zero, suc, ◌+◌, ◌≡◌, refl, sym, ap, ◌∙◌, List, [], ◌∷◌, ◌++◌, append_assoc, append-nil, some,
  Option-cases, inl, inr, length, All, arith,
}
use gossipsub_testground.Base.Counting.{count}
use gossipsub_testground.Base.Decimal.{codes, to_string}
use gossipsub_testground.Messages.{Message}
use gossipsub_testground.Messages
use gossipsub_testground.Simulation.Topics.{ident_topic}
use gossipsub_testground.Simulation.Validation.{
  outgoing, to_be_bytes, published_data, Event, Validation, handle_event, handle_events,
}
use gossipsub_testground.Simulation.Accepted.{
  known, received, handle_events-known, some-inj, none_some,
}
use gossipsub_testground.Simulation.Run.{
  Ready, deadline, generated, metrics_tick, handle_ended, arrived, Task, initialise_metrics,
  record_metrics, Run, publish, spawn, with_handles, next_handle, drain, start, round, run_loop,
  run_sim,
}

abbrev pub IsBefore : Ready → Type 0
IsBefore deadline = ⊥
IsBefore (generated m payload) = Unit
IsBefore metrics_tick = Unit
IsBefore handle_ended = Unit
IsBefore (arrived event) = Unit

-- What a message is published as: the name of its topic, and the payload with the validator behind it.
abbrev pub announced : Message → (payload : List ℕ) → List ℕ × List ℕ
announced (Messages.beacon_block proposer slot) payload =
    (codes "Blocks", payload ++ to_be_bytes proposer)
announced (Messages.aggregate_and_proof_attestation aggregator subnet slot) payload =
    (codes "Aggregates", payload ++ to_be_bytes aggregator)
announced (Messages.attestation attester subnet slot) payload =
    (codes "Attestations/" ++ to_string subnet, payload ++ to_be_bytes attester)
announced (Messages.signed_contribution_and_proof validator subnet slot) payload =
    (codes "SignedContributionAndProof/" ++ to_string subnet, payload ++ to_be_bytes validator)
announced (Messages.sync_committee_message validator subnet slot) payload =
    (codes "SyncMessages/" ++ to_string subnet, payload ++ to_be_bytes validator)

publish-announced :
    (m : Message) (payload : List ℕ) (s : Run)
    → publish m payload s ≡ record s { published = s.published ++ (announced m payload ∷ []) }
unfolding publish outgoing ident_topic published_data
publish-announced (Messages.beacon_block v slot) payload s = refl
publish-announced (Messages.aggregate_and_proof_attestation v subnet slot) payload s = refl
publish-announced (Messages.attestation v subnet slot) payload s = refl
publish-announced (Messages.signed_contribution_and_proof v subnet slot) payload s = refl
publish-announced (Messages.sync_committee_message v subnet slot) payload s = refl

-- The events by their kind.
abbrev pub calls : List Ready → List (List ℕ × List ℕ)
calls [] = []
calls (generated m payload ∷ events) = announced m payload ∷ calls events
calls (deadline ∷ events) = calls events
calls (metrics_tick ∷ events) = calls events
calls (handle_ended ∷ events) = calls events
calls (arrived event ∷ events) = calls events

abbrev pub ticks : List Ready → List Task
ticks [] = []
ticks (metrics_tick ∷ events) = record_metrics ∷ ticks events
ticks (deadline ∷ events) = ticks events
ticks (generated m payload ∷ events) = ticks events
ticks (handle_ended ∷ events) = ticks events
ticks (arrived event ∷ events) = ticks events

abbrev pub arrivals : List Ready → List Event
arrivals [] = []
arrivals (arrived event ∷ events) = event ∷ arrivals events
arrivals (deadline ∷ events) = arrivals events
arrivals (generated m payload ∷ events) = arrivals events
arrivals (metrics_tick ∷ events) = arrivals events
arrivals (handle_ended ∷ events) = arrivals events

-- What the loop adds to a run over the events.
record Extends (events : List Ready) (s t : Run) : Type 0 where
  published : t.published ≡ s.published ++ calls events
  spawned : t.spawned ≡ s.spawned ++ ticks events
  handles : t.influx_db_handles + t.ended ≡ s.influx_db_handles + s.ended + length (ticks events)

with_handles-sum :
    (n : ℕ) (s : Run)
    → n ≡ s.influx_db_handles
    → (with_handles n s).influx_db_handles + (with_handles n s).ended
      ≡ s.influx_db_handles + s.ended
with_handles-sum zero s same = refl
with_handles-sum (suc n) s same = omega arith

with_handles-rest :
    (n : ℕ) (s : Run)
    → ((with_handles n s).published ≡ s.published)
      × ((with_handles n s).spawned ≡ s.spawned)
      × ((with_handles n s).validation ≡ s.validation)
with_handles-rest zero s = (refl, refl, refl)
with_handles-rest (suc n) s = (refl, refl, refl)

drain_all :
    (n ended : ℕ) (s : Run)
    → drain n (record s { influx_db_handles = n; ended = ended })
      ≡ record s { influx_db_handles = 0; ended = ended + n }
unfolding drain next_handle
drain_all zero ended s = ap (λ k. record s { influx_db_handles = 0; ended = k }) (omega arith)
drain_all (suc n) ended s =
    drain_all n (ended + 1) s
    ∙ ap (λ k. record s { influx_db_handles = 0; ended = k }) (omega arith)

module _ (sample : ℕ → ℕ) where
  run_loop-generated :
      (m : Message) (payload : List ℕ) (more : List Ready) (s : Run)
      → run_loop sample (generated m payload ∷ more) s
        ≡ run_loop sample more (record s { published = s.published ++ (announced m payload ∷ []) })
  unfolding run_loop round
  run_loop-generated m payload more s =
      ap (λ t. run_loop sample more t) (publish-announced m payload s)

  run_loop-arrived :
      (event : Event) (more : List Ready) (s : Run) (v : Validation)
      → handle_event sample event s.validation ≡ some v
      → run_loop sample (arrived event ∷ more) s
        ≡ run_loop sample more (record s { validation = v })
  unfolding run_loop round
  run_loop-arrived event more s v made = rw (made, run_loop) refl

  run_loop-before :
      (events later : List Ready) (s : Run) (v : Validation)
      → All IsBefore events
      → handle_events sample (arrivals events) s.validation ≡ some v
      → (t : Run) × (run_loop sample (events ++ (deadline ∷ later)) s ≡ some t)
        × Extends events s t
        × (t.validation ≡ v)
  unfolding run_loop round handle_events publish spawn next_handle
  run_loop-before [] later s v before handled = (
    s,
    refl,
    record {
      published = sym (append-nil s.published);
      spawned = sym (append-nil s.spawned);
      handles = omega arith;
    },
    some-inj handled,
  )
  run_loop-before (deadline ∷ events) later s v before handled = elim before.0 [ ]
  run_loop-before (generated m payload ∷ events) later s v before handled =
      let (t, looped, more, same) =
        run_loop-before events later
          (record s { published = s.published ++ (announced m payload ∷ []) }) v before.1 handled in
      (
        t,
        run_loop-generated m payload (events ++ (deadline ∷ later)) s ∙ looped,
        record {
          published =
              more.published ∙ append_assoc s.published (announced m payload ∷ []) (calls events);
          spawned = more.spawned;
          handles = more.handles;
        },
        same,
      )
  run_loop-before (metrics_tick ∷ events) later s v before handled =
      let (t, looped, more, same) =
        run_loop-before events later (spawn record_metrics s) v before.1 handled in
      (
        t,
        looped,
        record {
          published = more.published;
          spawned = more.spawned ∙ append_assoc s.spawned (record_metrics ∷ []) (ticks events);
          handles = omega (arith, more.handles);
        },
        same,
      )
  run_loop-before (handle_ended ∷ events) later s v before handled =
      let (kept, known_tasks, valid) = with_handles-rest s.influx_db_handles s in
      let (t, looped, more, same) =
        run_loop-before events later (next_handle s) v before.1 (rw valid handled) in
      (
        t,
        looped,
        record {
          published = more.published ∙ ap (λ l. l ++ calls events) kept;
          spawned = more.spawned ∙ ap (λ l. l ++ ticks events) known_tasks;
          handles = omega (arith, more.handles, with_handles-sum s.influx_db_handles s refl);
        },
        same,
      )
  run_loop-before (arrived event ∷ events) later s v before handled =
      elim (Option-cases (handle_event sample event s.validation)) [
        | inl disabled ↦ absurd (none_some v (rw (disabled, handle_events) at handled))
        | inr (next, made) ↦
            let (t, looped, more, same) =
              run_loop-before events later (record s { validation = next }) v before.1
                (rw (made, handle_events) at handled) in
            (
              t,
              run_loop-arrived event (events ++ (deadline ∷ later)) s next made ∙ looped,
              record { published = more.published; spawned = more.spawned; handles = more.handles },
              same,
            )
      ]

  -- For any events before the deadline whose messages and expirations the delay queue can take, and
  -- any events behind it, `run_sim` of eth_consensus ends; it has published exactly the messages
  -- generated before the deadline, in their order, under the topic's name and with the eight bytes
  -- of the validator behind the payload; it has started the task of the initial metrics and one for
  -- each tick, and has waited for all of them; and each message is accepted or waits for its
  -- validation as often as it was received.
  pub run_sim_outcome :
      (events later : List Ready) (v : Validation)
      → All IsBefore events
      → handle_events sample (arrivals events) start.validation ≡ some v
      → (t : Run) × (run_sim sample (events ++ (deadline ∷ later)) ≡ some t)
        × (t.published ≡ calls events)
        × (t.spawned ≡ initialise_metrics ∷ ticks events)
        × (t.influx_db_handles ≡ 0)
        × (t.ended ≡ length t.spawned)
        × ((message : ℕ) → known message t.validation ≡ count message (received (arrivals events)))
  unfolding run_sim spawn start
  run_sim_outcome events later v before handled =
      let (t, looped, done, same) =
        run_loop-before events later (spawn initialise_metrics start) v before handled in
      (
        record t { influx_db_handles = 0; ended = t.ended + t.influx_db_handles },
        rw (looped, run_sim) (ap some (drain_all t.influx_db_handles t.ended t)),
        done.published,
        done.spawned,
        refl,
        omega (arith, done.handles, ap (length {0}) done.spawned),
        λ message.
            ap (known message) same
            ∙ omega (
              arith,
              handle_events-known sample message (arrivals events) start.validation v handled,
            ),
      )
