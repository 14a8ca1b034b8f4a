-- ===== src/Tests/Runs.antt =====
-- The loops of two plans over a few events.
use gossipsub_testground.Base.{
  All, ℕ, ◌-◌, ◌≡◌, refl, List, [], ◌∷◌, ◌++◌, map, some, ok, length, arith,
}
use gossipsub_testground.Base.Counting.{count}
use gossipsub_testground.BeaconNode.{aggregates, message, new}
use gossipsub_testground.BeaconNode.Counts.{cell}
use gossipsub_testground.BeaconNode.Log.{Kind, table, log}
use gossipsub_testground.BeaconNode.Published.{Writer}
use gossipsub_testground.BeaconNode.Reported.{Row, IsTimed, row_query, reported}
use gossipsub_testground.BeaconNode.Run.{
  Ready, deadline, generated, score_tick, gossipsub_event, other_event, Run, run_sim,
}
use gossipsub_testground.BeaconNode.Run.Completed.{calls, tasks, gossip, run_sim-reported}
use gossipsub_testground.Messages.{Message}
use gossipsub_testground.Messages
use gossipsub_testground.Simulation.Accepted.{known, received}
use gossipsub_testground.Simulation.Run as Loop
use gossipsub_testground.Simulation.Run.Completed as Ended
use gossipsub_testground.Simulation.Validation
use gossipsub_testground.Tests.Metrics.{db, serde}

abbrev writer : Writer serde
writer = record { name_of = λ topic. "b"; encode = λ v. v }

abbrev events : List (Ready serde)
events =
    score_tick
    ∷ gossipsub_event (message "aggregates" (5, 33, ""))
    ∷ generated (Messages.beacon_block 7 34) "payload"
    ∷ other_event
    ∷ []

All-IsTimed : (rows : List Row) → All (IsTimed db (λ e. some e) (λ n. "1") "me" "run" (λ e. e)) rows
All-IsTimed [] = tt
All-IsTimed (row ∷ rows) = (refl, All-IsTimed rows)

run_sim-reported_example :
    (t : Run serde) × (run_sim serde writer db
        (λ e. some e)
        (λ n. "1")
        "me"
        "run"
        (events ++ (deadline ∷ score_tick ∷ []))
      ≡ ok (
          some (
            t,
            map (row_query db (λ n. "1") "me" "run" (λ e. e)) (reported (λ n. "1") t.received),
          )))
    × (t.published ≡ calls serde writer events)
    × (t.spawned ≡ tasks serde writer events)
    × ((k : Kind) (n e : ℕ)
        → cell n e (table k t.received)
          ≡ cell n e (table k new) ++ log serde k n e (gossip serde writer events))
run_sim-reported_example =
    run_sim-reported serde writer db (λ e. some e) (λ n. "1") "me" "run" (λ e. e) events
      (score_tick ∷ []) (tt, (tt, (tt, (tt, tt))))
      ((aggregates 2, (5, 33, ""), refl, refl, omega arith), tt)
      (λ r handled. All-IsTimed (reported (λ n. "1") r))

abbrev eth_events : List Loop.Ready
eth_events =
    Loop.generated (Messages.attestation 4 2 9) (1 ∷ 2 ∷ [])
    ∷ Loop.arrived (Validation.message 11 3 200)
    ∷ Loop.metrics_tick
    ∷ Loop.handle_ended
    ∷ Loop.arrived (Validation.expired 0)
    ∷ []

abbrev validated : Validation.Validation
validated = record { messages_to_validate = []; accepted = 11 ∷ [] }

run_sim_outcome_example :
    (t : Loop.Run) × (Loop.run_sim
        (λ n. n - 1)
        (eth_events ++ (Loop.deadline ∷ Loop.metrics_tick ∷ []))
      ≡ some t)
    × (t.published ≡ Ended.calls eth_events)
    × (t.spawned ≡ Loop.initialise_metrics ∷ Ended.ticks eth_events)
    × (t.influx_db_handles ≡ 0)
    × (t.ended ≡ length t.spawned)
    × ((message : ℕ)
        → known message t.validation ≡ count message (received (Ended.arrivals eth_events)))
unfolding Loop.start Validation.handle_events Validation.handle_event Validation.custom_validation
run_sim_outcome_example =
    Ended.run_sim_outcome (λ n. n - 1) eth_events (Loop.metrics_tick ∷ []) validated
      (tt, (tt, (tt, (tt, (tt, tt))))) refl
