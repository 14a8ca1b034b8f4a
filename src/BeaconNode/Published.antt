-- ===== src/BeaconNode/Published.antt =====
-- What a node of scoring/src/beacon_node.rs publishes in `run_sim`, and the counts of those who receive it.
use gossipsub_testground.Base.{
  ℕ, ◌≡◌, ◌<◌, refl, ap, Bool, false, ◌∙◌, List, [], ◌∷◌, ◌++◌, map, some, ◌&&◌, ok, ◌==◌,
  if◌then◌else◌, All, String,
}
use gossipsub_testground.BeaconNode.{
  attestation_subnets, sync_subnets, slots_per_epoch, Topic, blocks, attestations, aggregates,
  sync_messages, signed_contribution_and_proof, Serde, Received, new, Event, message, handle_events,
}
use gossipsub_testground.BeaconNode.Counts.{cell}
use gossipsub_testground.BeaconNode.Log.{
  Kind, aggregate, sync_aggregate, sync_message, table, is_for, HasSubnet, new-HasTables,
  IsReadable, log, handle_events-log,
}
use gossipsub_testground.Messages.{Message}
use gossipsub_testground.Messages

-- The topic, and the three values that are encoded but for the payload: the validator and the slot.
unfoldable pub outgoing : Message → Topic × ℕ × ℕ
outgoing (Messages.beacon_block v slot) = (blocks, v, slot)
outgoing (Messages.aggregate_and_proof_attestation v s slot) = (aggregates s, v, slot)
outgoing (Messages.attestation v s slot) = (attestations s, v, slot)
outgoing (Messages.signed_contribution_and_proof v s slot) =
    (signed_contribution_and_proof s, v, slot)
outgoing (Messages.sync_committee_message v s slot) = (sync_messages s, v, slot)

-- The validator of a message and its slot, and whether it is of a kind and a subnet.
abbrev pub author : Message → ℕ
author (Messages.beacon_block proposer slot) = proposer
author (Messages.aggregate_and_proof_attestation aggregator subnet slot) = aggregator
author (Messages.attestation attester subnet slot) = attester
author (Messages.signed_contribution_and_proof validator subnet slot) = validator
author (Messages.sync_committee_message validator subnet slot) = validator

abbrev pub slot_of : Message → ℕ
slot_of (Messages.beacon_block proposer slot) = slot
slot_of (Messages.aggregate_and_proof_attestation aggregator subnet slot) = slot
slot_of (Messages.attestation attester subnet slot) = slot
slot_of (Messages.signed_contribution_and_proof validator subnet slot) = slot
slot_of (Messages.sync_committee_message validator subnet slot) = slot

abbrev pub is_about : Kind → ℕ → Message → Bool
is_about aggregate n (Messages.aggregate_and_proof_attestation _ subnet _) = n == subnet
is_about sync_aggregate n (Messages.signed_contribution_and_proof _ subnet _) = n == subnet
is_about sync_message n (Messages.sync_committee_message _ subnet _) = n == subnet
is_about _ n _ = false

-- The subnet of a message is one that the nodes have.
abbrev pub IsInside : Message → Type 0
IsInside (Messages.beacon_block proposer slot) = Unit
IsInside (Messages.aggregate_and_proof_attestation _ subnet _) = subnet < attestation_subnets
IsInside (Messages.attestation _ subnet _) = subnet < attestation_subnets
IsInside (Messages.signed_contribution_and_proof _ subnet _) = subnet < sync_subnets
IsInside (Messages.sync_committee_message _ subnet _) = subnet < sync_subnets

IsInside-HasSubnet : (m : Message) → IsInside m → HasSubnet (outgoing m).0
unfolding outgoing
IsInside-HasSubnet (Messages.beacon_block v slot) inside = tt
IsInside-HasSubnet (Messages.aggregate_and_proof_attestation v s slot) inside = inside
IsInside-HasSubnet (Messages.attestation v s slot) inside = inside
IsInside-HasSubnet (Messages.signed_contribution_and_proof v s slot) inside = inside
IsInside-HasSubnet (Messages.sync_committee_message v s slot) inside = inside

outgoing-is_about :
    (m : Message) (k : Kind) (n : ℕ)
    → (is_for k n (outgoing m).0 ≡ is_about k n m)
      × ((outgoing m).1 ≡ author m)
      × ((outgoing m).2 ≡ slot_of m)
unfolding outgoing
outgoing-is_about (Messages.beacon_block v slot) aggregate n = (refl, refl, refl)
outgoing-is_about (Messages.beacon_block v slot) sync_aggregate n = (refl, refl, refl)
outgoing-is_about (Messages.beacon_block v slot) sync_message n = (refl, refl, refl)
outgoing-is_about (Messages.aggregate_and_proof_attestation v s slot) aggregate n =
    (refl, refl, refl)
outgoing-is_about (Messages.aggregate_and_proof_attestation v s slot) sync_aggregate n =
    (refl, refl, refl)
outgoing-is_about (Messages.aggregate_and_proof_attestation v s slot) sync_message n =
    (refl, refl, refl)
outgoing-is_about (Messages.attestation v s slot) aggregate n = (refl, refl, refl)
outgoing-is_about (Messages.attestation v s slot) sync_aggregate n = (refl, refl, refl)
outgoing-is_about (Messages.attestation v s slot) sync_message n = (refl, refl, refl)
outgoing-is_about (Messages.signed_contribution_and_proof v s slot) aggregate n = (refl, refl, refl)
outgoing-is_about (Messages.signed_contribution_and_proof v s slot) sync_aggregate n =
    (refl, refl, refl)
outgoing-is_about (Messages.signed_contribution_and_proof v s slot) sync_message n =
    (refl, refl, refl)
outgoing-is_about (Messages.sync_committee_message v s slot) aggregate n = (refl, refl, refl)
outgoing-is_about (Messages.sync_committee_message v s slot) sync_aggregate n = (refl, refl, refl)
outgoing-is_about (Messages.sync_committee_message v s slot) sync_message n = (refl, refl, refl)

-- `serde_json` writes what it reads.
pub record Writer (serde : Serde) : Type 0 where
  pub name_of : Topic → String
  pub encode : ℕ × ℕ × String → serde.Data

pub record IsLossless (serde : Serde) (writer : Writer serde) : Type 0 where
  pub topics : (t : Topic) → serde.topic_of (writer.name_of t) ≡ some t
  pub values : (v : ℕ × ℕ × String) → serde.decode (writer.encode v) ≡ some v

module _ (serde : Serde) (writer : Writer serde) where
  -- A published message as the others receive it.
  unfoldable pub publish : Message × String → Event serde
  unfolding outgoing
  publish (m, payload) =
      let (topic, v, slot) = outgoing m in
      message (writer.name_of topic) (writer.encode (v, slot, payload))

  -- The validators of the published messages of a kind, a subnet and an epoch, in their order.
  abbrev pub sent : Kind → ℕ → ℕ → List (Message × String) → List ℕ
  sent k n e [] = []
  sent k n e ((m, payload) ∷ ms) =
      (if is_about k n m && e == serde.epoch (slot_of m) slots_per_epoch then author m ∷ [] else [])
      ++ sent k n e ms

  module _ (lossless : IsLossless serde writer) where
    All-IsReadable :
        (ms : List (Message × String))
        → All (λ m. IsInside m.0) ms
        → All (IsReadable serde) (map (publish) ms)
    unfolding publish
    All-IsReadable [] inside = tt
    All-IsReadable ((m, payload) ∷ ms) (here, inside) = (
      (
        _,
        _,
        lossless.topics (outgoing m).0,
        lossless.values ((outgoing m).1, (outgoing m).2, payload),
        IsInside-HasSubnet m here,
      ),
      All-IsReadable ms inside,
    )

    log-publish :
        (k : Kind) (n e : ℕ) (ms : List (Message × String))
        → log serde k n e (map publish ms) ≡ sent k n e ms
    unfolding publish
    log-publish k n e [] = refl
    log-publish k n e ((m, payload) ∷ ms) =
        rw
          (
            lossless.topics (outgoing m).0,
            lossless.values ((outgoing m).1, (outgoing m).2, payload),
            log-publish k n e ms,
            (outgoing-is_about m k n).0,
            (outgoing-is_about m k n).1,
            (outgoing-is_about m k n).2,
          )
          refl

    -- If the topics and the data are read as they were written, a new beacon node that receives
    -- messages of its subnets published by others handles them without a panic, and has for each
    -- kind of aggregate or message, subnet and epoch the validators of these messages in their
    -- order.
    pub published_counts :
        (ms : List (Message × String))
        → All (λ m. IsInside m.0) ms
        → (s : Received) × (handle_events serde (map publish ms) new ≡ ok s)
          × ((k : Kind) (n e : ℕ) → cell n e (table k s) ≡ cell n e (table k new) ++ sent k n e ms)
    published_counts ms inside =
        let (s, handled, cells) =
          handle_events-log serde (map publish ms) new new-HasTables (All-IsReadable ms inside) in
        (
          s,
          handled,
          λ k n e. cells k n e ∙ ap (λ l. cell n e (table k new) ++ l) (log-publish k n e ms),
        )
