-- ===== src/Tests/Messages.antt =====
-- Messages that are published, received and validated.
use gossipsub_testground.Base.{
  ℕ, zero, suc, ◌-◌, ◌≡◌, refl, ap, List, [], ◌∷◌, ◌++◌, map, Option, none, some, String, ok,
  length, if◌then◌else◌, ◌==◌, ◌/◌, arith, All,
}
use gossipsub_testground.Base.Decimal.{codes}
use gossipsub_testground.BeaconNode.{
  Topic, blocks, attestations, aggregates, sync_messages, signed_contribution_and_proof, Serde,
  Received, new, handle_events,
}
use gossipsub_testground.BeaconNode.Counts.{cell}
use gossipsub_testground.BeaconNode.Log.{Kind, table}
use gossipsub_testground.BeaconNode.Published.{
  Writer, IsLossless, publish, sent, published_counts, IsInside,
}
use gossipsub_testground.Messages.{Message}
use gossipsub_testground.Messages
use gossipsub_testground.Metrics.Simulation
use gossipsub_testground.Simulation.Topics.{ident_topic, topic_of, topic_of-ident_topic}
use gossipsub_testground.Simulation.Validation.{Event, message, other, expired, Validation}
use gossipsub_testground.Simulation.Validation

-- A topic is a letter and as many marks as the number of its subnet.
abbrev marks : ℕ → String
marks zero = ""
marks (suc n) = String.◌∷◌ "x" (marks n)

abbrev named : List ℕ → Option Topic
named [] = none
named (c ∷ cs) =
    if c == b'b'
    then some blocks
    else if c == b'g'
    then some (aggregates (length cs))
    else if c == b'a'
    then some (attestations (length cs))
    else if c == b'p'
    then some (signed_contribution_and_proof (length cs))
    else some (sync_messages (length cs))

abbrev serde : Serde
serde = record {
  Data = ℕ × ℕ × String;
  topic_of = λ name. named (codes name);
  decode = λ v. some v;
  epoch = λ slot per_epoch. slot / per_epoch;
}

abbrev name_of : Topic → String
name_of blocks = "b"
name_of (aggregates n) = String.◌∷◌ "g" (marks n)
name_of (attestations n) = String.◌∷◌ "a" (marks n)
name_of (signed_contribution_and_proof n) = String.◌∷◌ "p" (marks n)
name_of (sync_messages n) = String.◌∷◌ "m" (marks n)

abbrev writer : Writer serde
writer = record { name_of = name_of; encode = λ v. v }

length-marks : (n : ℕ) → length (codes (marks n)) ≡ n
length-marks zero = refl
length-marks (suc n) = ap suc (length-marks n)

writer-IsLossless : IsLossless serde writer
writer-IsLossless = record {
  topics = elim [
    | blocks ↦ refl
    | aggregates n ↦ rw (length-marks n) refl
    | attestations n ↦ rw (length-marks n) refl
    | signed_contribution_and_proof n ↦ rw (length-marks n) refl
    | sync_messages n ↦ rw (length-marks n) refl
  ];
  values = λ v. refl;
}

abbrev messages : List (Message × String)
messages =
    (Messages.aggregate_and_proof_attestation 5 2 33, "p") ∷ (Messages.beacon_block 6 34, "p") ∷ []

messages-IsInside : All (λ m. IsInside m.0) messages
messages-IsInside = (omega arith, (tt, tt))

published_counts_example :
    (s : Received) × (handle_events serde (map (publish serde writer) messages) new ≡ ok s)
    × ((k : Kind) (n e : ℕ)
        → cell n e (table k s) ≡ cell n e (table k new) ++ sent serde writer k n e messages)
published_counts_example =
    published_counts serde writer writer-IsLossless messages messages-IsInside

topic_of-ident_topic_example :
    topic_of (ident_topic (Simulation.attestations 12)) ≡ ok (Simulation.attestations 12)
topic_of-ident_topic_example = topic_of-ident_topic (Simulation.attestations 12) (omega arith)

abbrev before : Validation
before = record { messages_to_validate = []; accepted = [] }

abbrev events : List Event
events = message 1 8 200 ∷ message 2 9 700 ∷ other ∷ expired 1 ∷ []

abbrev after : Validation
after = record {
  messages_to_validate = record { message_id = 2; peer_id = 9; ms_duration = 499 } ∷ [];
  accepted = 1 ∷ [];
}

validated : Validation.handle_events (λ n. n - 1) events before ≡ some after
unfolding Validation.handle_events Validation.handle_event Validation.custom_validation
    Validation.delay_bound
validated = refl
