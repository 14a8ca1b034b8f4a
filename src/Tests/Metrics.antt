-- ===== src/Tests/Metrics.antt =====
-- A set of metrics, and messages to a beacon node, at concrete inputs.
use gossipsub_testground.Base.{
  ℕ, ◌||◌, ◌/◌, ◌≡◌, refl, inl, inr, List, [], ◌∷◌, ◌++◌, map, Option, none, some, ok, arith, All,
  String,
}
use gossipsub_testground.Metrics.Model.{
  with_underscore, Field, unsigned, signed, double, text, Influx, int_value, counter_value, Metric,
  MetricFamily, Value, gauge_value, gauge_int, histogram_value,
}
use gossipsub_testground.Metrics.Queries.{concat}
use gossipsub_testground.Metrics.Families.{Either, IsRecorded, written_of}
use gossipsub_testground.Metrics.Instances.{record_metrics_outcome}
use gossipsub_testground.Metrics.Simulation
use gossipsub_testground.Metrics.Scoring.{pkg_name, tagged_query, metrics_queries}
use gossipsub_testground.Metrics.Scoring
use gossipsub_testground.Metrics.Recorded.{
  IsRecordable, recorded, duplicates, metrics_queries_outcome,
}
use gossipsub_testground.BeaconNode.{
  Topic, blocks, aggregates, Serde, Received, new, Event, message, other, handle_events,
  handle_gossipsub_event, receive, push_entry, insert_entry, modify_at,
}
use gossipsub_testground.BeaconNode.Seen.{has_slot, has_block, handle_events-blocks}
use gossipsub_testground.Base.Maps.{insert, set_insert}
use gossipsub_testground.BeaconNode.Log.{IsReadable}

-- A query is its tags and the counts of its fields, the newest first.
abbrev pub number_of : Field ℕ ℕ → ℕ
number_of (unsigned n) = n
number_of (signed n) = n
number_of (double n) = n
number_of (text s) = 0

abbrev pub db : Influx
db = record {
  Signed = ℕ;
  Double = ℕ;
  Time = ℕ;
  Query = List (String × String) × List (String × ℕ);
  literal = λ n. n;
  new_query = λ time name. (("name", name) ∷ [], []);
  add_tag = λ name value q. ((name, value) ∷ q.0, q.1);
  add_field = λ name value q. (q.0, (name, number_of value) ∷ q.1);
}

abbrev metric : String → ℕ → Metric db
metric topic n = record {
  labels = record { name = "hash"; value = topic } ∷ [];
  metric_points = some (counter_value (some (int_value n))) ∷ [];
}

abbrev unfiltered : MetricFamily db
unfiltered = record {
  name = "topic_msg_recv_counts_unfiltered";
  metrics = metric "a" 7 ∷ metric "b" 2 ∷ [];
}

abbrev recvd : MetricFamily db
recvd = record { name = "topic_msg_recv_counts"; metrics = metric "c" 1 ∷ metric "a" 4 ∷ [] }

abbrev families : List (MetricFamily db)
families = unfiltered ∷ record { name = "mesh_peer_counts"; metrics = [] } ∷ recvd ∷ []

families-IsRecordable : All (IsRecordable {db = db}) families
unfolding Scoring.handling
families-IsRecordable = (
  inr (refl, ((7, refl), ((2, refl), tt))),
  (inl refl, (inr (refl, ((1, refl), ((4, refl), tt))), tt)),
)

metrics_queries_outcome_example :
    metrics_queries db 0 "me" "run" families
    ≡ ok (
        recorded {db = db}
          (λ name. tagged_query db 0 "me" "run" (with_underscore pkg_name name))
          families
        ++ duplicates {db = db}
            (tagged_query db 0 "me" "run"
              (with_underscore pkg_name "topic_msg_recv_counts_duplicates"))
            families)
metrics_queries_outcome_example =
    metrics_queries_outcome {db = db} 0 "me" "run" families families-IsRecordable

abbrev point : Value db → Metric db
point v = record { labels = []; metric_points = some v ∷ [] }

abbrev mixed : List (MetricFamily db)
mixed =
    unfiltered
    ∷ record { name = "mesh_peer_counts"; metrics = point (gauge_value (some (gauge_int 8))) ∷ [] }
    ∷ recvd
    ∷ record {
      name = "heartbeat_duration";
      metrics = point (histogram_value (record { count = 3; upper_bound = 9 } ∷ [])) ∷ [];
    }
    ∷ []

record_metrics_outcome_example :
    Either
      (All (IsRecorded {db = db} Simulation.handling) mixed)
      (Simulation.metrics_queries db 0 "me" "1" "run" mixed)
      (concat
          (map (written_of Simulation.handling (Simulation.tagged_query db 0 "me" "1" "run")) mixed)
        ++ duplicates {db = db}
            (Simulation.tagged_query db 0 "me" "1" "run" "topic_msg_recv_duplicates")
            mixed)
record_metrics_outcome_example = record_metrics_outcome {db = db} 0 "me" "1" "run" mixed

mixed-IsRecorded : All (IsRecorded {db = db} Simulation.handling) mixed
unfolding Simulation.handling
mixed-IsRecorded = (
  ((7, refl), ((2, refl), tt)),
  (((8, refl), tt), (((1, refl), ((4, refl), tt)), (((_, refl), tt), tt))),
)

-- A topic is read off its first character, and the data of a message is its contents.
abbrev pub topic_named : String → Option Topic
topic_named String.[] = none
topic_named (String.◌∷◌ c s) = elim s [
  | String.[] ↦ some blocks
  | String.◌∷◌ _ _ ↦ some (aggregates 2)
]

abbrev pub serde : Serde
serde = record {
  Data = ℕ × ℕ × String;
  topic_of = topic_named;
  decode = λ v. some v;
  epoch = λ slot per_epoch. slot / per_epoch;
}

abbrev events : List (Event serde)
events =
    message "aggregates" (5, 33, "")
    ∷ other
    ∷ message "b" (6, 34, "")
    ∷ message "aggregates" (7, 35, "")
    ∷ []

events-IsReadable : All (IsReadable serde) events
events-IsReadable = (
  (aggregates 2, (5, 33, ""), refl, refl, omega arith),
  (
    tt,
    (
      (blocks, (6, 34, ""), refl, refl, tt),
      ((aggregates 2, (7, 35, ""), refl, refl, omega arith), tt),
    ),
  ),
)

abbrev after_events : Received
after_events = record new {
  received_beacon_blocks = (1, 34 ∷ []) ∷ [];
  received_aggregates = [] ∷ [] ∷ ((1, 5 ∷ 7 ∷ []) ∷ []) ∷ [] ∷ [];
}

events_handled : handle_events serde events new ≡ ok after_events
unfolding handle_events handle_gossipsub_event receive push_entry insert_entry set_insert modify_at
    insert new
events_handled = refl

handle_events-blocks_example :
    has_slot serde 1 34 after_events ≡ (has_slot serde 1 34 new || has_block serde 1 34 events)
handle_events-blocks_example =
    handle_events-blocks serde events new after_events 1 34 events_handled
