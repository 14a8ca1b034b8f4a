-- ===== src/Simulation/Run.antt =====
-- `run_sim` of eth_consensus/simulation/src/network/run.rs: the loop over what `select!` finds ready,
-- until the deadline, and the wait for the tasks that write to InfluxDB.
pub mod Completed
use gossipsub_testground.Base.{
  ℕ, zero, suc, ◌+◌, ◌-◌, ◌≡◌, refl, sym, ap, ◌∙◌, List, [], ◌∷◌, ◌++◌, append_assoc, Option, none,
  some, Option-cases, inl, inr, length, length-append, arith,
}
use gossipsub_testground.Base.Counting.{count}
use gossipsub_testground.Messages.{Message}
use gossipsub_testground.Simulation.Topics.{ident_topic}
use gossipsub_testground.Simulation.Validation.{
  outgoing, published_data, Event, Validation, handle_event, handle_events,
}
use gossipsub_testground.Simulation.Accepted.{known, received, handle_events-known}

-- The branches of `select!`. `generated` has the payload that the message gets of the random numbers,
-- and `arrived` is an event of the swarm or an entry of the delay queue that expires.
pub data Ready : Type 0 where
  deadline : Ready
  generated : (m : Message) (payload : List ℕ) → Ready
  metrics_tick : Ready
  handle_ended : Ready
  arrived : (event : Event) → Ready

-- What `tokio::spawn` starts.
pub data Task : Type 0 where
  initialise_metrics : Task
  record_metrics : Task

-- The calls of gossipsub's `publish`, with the topic's name and the data; the tasks that were started,
-- how many of them `influx_db_handles` still holds, and how many it has given back.
pub record Run : Type 0 where
  pub published : List (List ℕ × List ℕ)
  pub spawned : List Task
  pub influx_db_handles : ℕ
  pub ended : ℕ
  pub validation : Validation

-- `Network::publish`; an error of gossipsub is logged.
unfoldable pub publish : Message → (payload : List ℕ) → Run → Run
publish m payload s =
    let (topic, validator) = outgoing m in
    record s {
      published = s.published ++ ((ident_topic topic, published_data validator payload) ∷ []);
    }

unfoldable pub spawn : Task → Run → Run
spawn task s = record s {
  spawned = s.spawned ++ (task ∷ []);
  influx_db_handles = s.influx_db_handles + 1;
}

abbrev pub with_handles : ℕ → Run → Run
with_handles zero s = s
with_handles (suc n) s = record s { influx_db_handles = n; ended = s.ended + 1 }

-- `influx_db_handles.next()`, which gives `None` at once if no handle is left.
unfoldable pub next_handle : Run → Run
unfolding with_handles
next_handle s = with_handles s.influx_db_handles s

-- `while (self.influx_db_handles.next().await).is_some() {}`
unfoldable pub drain : (handles : ℕ) → Run → Run
drain zero s = s
drain (suc n) s = drain n (next_handle s)

unfoldable pub start : Run
start = record {
  published = [];
  spawned = [];
  influx_db_handles = 0;
  ended = 0;
  validation = record { messages_to_validate = []; accepted = [] };
}

abbrev pub with_validation : Run → Option Validation → Option Run
with_validation s none = none
with_validation s (some v) = some (record s { validation = v })

module _ (sample : ℕ → ℕ) where
  -- A round of the loop but for the deadline; `none` if the branch is not enabled.
  unfoldable pub round : Ready → Run → Option Run
  unfolding with_validation
  round deadline s = none
  round (generated m payload) s = some (publish m payload s)
  round metrics_tick s = some (spawn record_metrics s)
  round handle_ended s = some (next_handle s)
  round (arrived event) s = with_validation s (handle_event sample event s.validation)

  -- The loop; `none` if a branch is not enabled, or the deadline does not come.
  unfoldable pub run_loop : List Ready → Run → Option Run
  run_loop [] s = none
  run_loop (deadline ∷ _) s = some s
  run_loop (ready ∷ more) s = elim (round ready s) [ none ↦ none | some next ↦ run_loop more next ]

  unfoldable pub run_sim : List Ready → Option Run
  run_sim events = elim (run_loop events (spawn initialise_metrics start)) [
    | none ↦ none
    | some s ↦ some (drain s.influx_db_handles s)
  ]
