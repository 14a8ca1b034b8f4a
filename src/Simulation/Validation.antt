-- ===== src/Simulation/Validation.antt =====
-- The messages of `Network` of eth_consensus/simulation/src/network.rs: what it publishes, and the delayed
-- validation of what it receives. Ids of messages and peers are numbers.
use gossipsub_testground.Base.{
  ℕ, zero, suc, ◌/◌, ◌%◌, List, [], ◌∷◌, ◌++◌, map, Option, none, some, if◌then◌else◌, leb,
  range_from,
}
use gossipsub_testground.Messages.{Message}
use gossipsub_testground.Messages
use gossipsub_testground.Metrics.Simulation.{
  Topic, blocks, attestations, aggregates, sync_messages, signed_contribution_and_proof,
  sync_topics,
}

-- The topic and the validator of a message, in `run_sim`.
unfoldable pub outgoing : Message → Topic × ℕ
outgoing (Messages.beacon_block v slot) = (blocks, v)
outgoing (Messages.aggregate_and_proof_attestation v s slot) = (aggregates, v)
outgoing (Messages.attestation v s slot) = (attestations s, v)
outgoing (Messages.signed_contribution_and_proof v s slot) = (signed_contribution_and_proof s, v)
outgoing (Messages.sync_committee_message v s slot) = (sync_messages s, v)

abbrev pub attestation_subnets : ℕ
attestation_subnets = 4

abbrev pub sync_subnets : ℕ
sync_subnets = 4

-- The topics of `subscribe_topics`, in its order.
unfoldable pub topics_to_subscribe : List Topic
topics_to_subscribe =
    blocks ∷ aggregates ∷ map attestations (range_from 0 attestation_subnets)
    ++ sync_topics (range_from 0 sync_subnets)

-- `u64::to_be_bytes`
unfoldable pub to_be_bytes : ℕ → List ℕ
to_be_bytes v =
    v / 72057594037927936 % 256
    ∷ v / 281474976710656 % 256
    ∷ v / 1099511627776 % 256
    ∷ v / 4294967296 % 256
    ∷ v / 16777216 % 256
    ∷ v / 65536 % 256
    ∷ v / 256 % 256
    ∷ v % 256
    ∷ []

-- The data that `publish` sends: the payload, then the validator.
unfoldable pub published_data : (validator : ℕ) (payload : List ℕ) → List ℕ
unfolding to_be_bytes
published_data validator payload = payload ++ to_be_bytes validator

-- The bound of the delay in milliseconds, by the size of the message.
unfoldable pub delay_bound : (msg_size : ℕ) → ℕ
delay_bound msg_size = if leb msg_size 300 then 50 else if leb msg_size 600 then 80 else 500

pub record Pending : Type 0 where
  pub message_id : ℕ
  pub peer_id : ℕ
  pub ms_duration : ℕ

-- What of `run_sim` concerns the validation. `expired` is an entry of the delay queue, by its place.
pub data Event : Type 0 where
  message : (message_id peer_id msg_size : ℕ) → Event
  other : Event
  expired : (place : ℕ) → Event

-- The delay queue, and the messages reported as accepted.
pub record Validation : Type 0 where
  pub messages_to_validate : List Pending
  pub accepted : List ℕ

-- The entry at a place, and the others.
abbrev pub behind : Pending → Option (Pending × List Pending) → Option (Pending × List Pending)
behind p none = none
behind p (some (q, qs)) = some (q, p ∷ qs)

abbrev pub take_out : ℕ → List Pending → Option (Pending × List Pending)
take_out place [] = none
take_out zero (p ∷ ps) = some (p, ps)
take_out (suc place) (p ∷ ps) = behind p (take_out place ps)

-- `report_message_validation_result` with `Accept`.
abbrev pub accept : List ℕ → Option (Pending × List Pending) → Option Validation
accept accepted none = none
accept accepted (some (p, ps)) =
    some (record { messages_to_validate = ps; accepted = p.message_id ∷ accepted })

-- `sample n` is what `gen_range(0..n)` returns.
module _ (sample : ℕ → ℕ) where
  unfoldable pub custom_validation : (message_id peer_id msg_size : ℕ) → Validation → Validation
  custom_validation message_id peer_id msg_size state = record {
    messages_to_validate =
        record {
          message_id = message_id;
          peer_id = peer_id;
          ms_duration = sample (delay_bound msg_size);
        }
        ∷ state.messages_to_validate;
    accepted = state.accepted;
  }

  unfoldable pub handle_event : Event → Validation → Option Validation
  unfolding custom_validation accept
  handle_event (message message_id peer_id msg_size) state =
      some (custom_validation message_id peer_id msg_size state)
  handle_event other state = some state
  handle_event (expired place) state =
      accept state.accepted (take_out place state.messages_to_validate)

  unfoldable pub handle_events : List Event → Validation → Option Validation
  handle_events [] state = some state
  handle_events (event ∷ events) state = elim (handle_event event state) [
    | none ↦ none
    | some next ↦ handle_events events next
  ]
