-- ===== src/BeaconNode/Log.antt =====
-- The counts of the beacon node against the sequence of events.
use gossipsub_testground.Base.{
  ℕ, ◌<◌, ◌≡◌, refl, sym, ap, ◌∙◌, List, [], ◌∷◌, ◌++◌, Option, none, some, Bool, false, ◌&&◌, ok,
  length, ◌==◌, if◌then◌else◌, append-nil, append_assoc, All, String,
}
use gossipsub_testground.BeaconNode.{
  attestation_subnets, sync_subnets, slots_per_epoch, Topic, blocks, attestations, aggregates,
  sync_messages, signed_contribution_and_proof, Serde, Epochs, insert_entry, Received, new, receive,
  Event, message, other, handle_gossipsub_event, handle_events,
}
use gossipsub_testground.BeaconNode.Counts.{cell, cell-push, modify_at_lem}

-- The three tables that keep each message, by the kind of topic.
pub data Kind : Type 0 where
  aggregate sync_aggregate sync_message : Kind

abbrev pub table : Kind → Received → List Epochs
table aggregate s = s.received_aggregates
table sync_aggregate s = s.received_sync_committee_aggregates
table sync_message s = s.received_sync_committee_messages

abbrev pub is_for : Kind → ℕ → Topic → Bool
is_for aggregate n (aggregates i) = n == i
is_for sync_aggregate n (signed_contribution_and_proof i) = n == i
is_for sync_message n (sync_messages i) = n == i
is_for _ n _ = false

-- The topic names a subnet that the node has.
abbrev pub HasSubnet : Topic → Type 0
HasSubnet blocks = Unit
HasSubnet (aggregates i) = i < attestation_subnets
HasSubnet (attestations i) = i < attestation_subnets
HasSubnet (signed_contribution_and_proof i) = i < sync_subnets
HasSubnet (sync_messages i) = i < sync_subnets

-- There is one map for each subnet.
pub record HasTables (s : Received) : Type 0 where
  pub of_aggregates : length s.received_aggregates ≡ attestation_subnets
  pub of_attestations : length s.received_attestations ≡ attestation_subnets
  pub of_sync_aggregates : length s.received_sync_committee_aggregates ≡ sync_subnets
  pub of_sync_messages : length s.received_sync_committee_messages ≡ sync_subnets

pub new-HasTables : HasTables new
unfolding new
new-HasTables = record {
  of_aggregates = refl;
  of_attestations = refl;
  of_sync_aggregates = refl;
  of_sync_messages = refl;
}

Adds : Topic → ℕ → ℕ → Received → Received → Type 0
Adds t x epoch s s' =
    (k : Kind) (n e : ℕ)
    → cell n e (table k s')
      ≡ cell n e (table k s) ++ (if is_for k n t && e == epoch then x ∷ [] else [])

adds_nothing : (xs : List ℕ) → xs ≡ xs ++ []
adds_nothing xs = sym (append-nil xs)

receive_lem :
    (t : Topic) (x slot epoch : ℕ) (s : Received)
    → HasTables s
    → HasSubnet t
    → (s' : Received) × (receive t x slot epoch s ≡ ok s') × HasTables s' × Adds t x epoch s s'
unfolding receive Adds
receive_lem blocks x slot epoch s tables lt = (
  record s { received_beacon_blocks = insert_entry epoch slot s.received_beacon_blocks },
  refl,
  record {
    of_aggregates = tables.of_aggregates;
    of_attestations = tables.of_attestations;
    of_sync_aggregates = tables.of_sync_aggregates;
    of_sync_messages = tables.of_sync_messages;
  },
  elim [
    | aggregate ↦ λ n e. adds_nothing _
    | sync_aggregate ↦ λ n e. adds_nothing _
    | sync_message ↦ λ n e. adds_nothing _
  ],
)
receive_lem (attestations i) x slot epoch s tables lt =
    let (t', made, same, _) =
      modify_at_lem i (insert_entry epoch x) s.received_attestations
        (rw tables.of_attestations lt) in
    (
      record s { received_attestations = t' },
      rw (receive, made) refl,
      record {
        of_aggregates = tables.of_aggregates;
        of_attestations = same ∙ tables.of_attestations;
        of_sync_aggregates = tables.of_sync_aggregates;
        of_sync_messages = tables.of_sync_messages;
      },
      elim [
        | aggregate ↦ λ n e. adds_nothing _
        | sync_aggregate ↦ λ n e. adds_nothing _
        | sync_message ↦ λ n e. adds_nothing _
      ],
    )
receive_lem (aggregates i) x slot epoch s tables lt =
    let (t', made, same, cells) =
      cell-push i epoch x s.received_aggregates (rw tables.of_aggregates lt) in
    (
      record s { received_aggregates = t' },
      rw (receive, made) refl,
      record {
        of_aggregates = same ∙ tables.of_aggregates;
        of_attestations = tables.of_attestations;
        of_sync_aggregates = tables.of_sync_aggregates;
        of_sync_messages = tables.of_sync_messages;
      },
      elim [
        | aggregate ↦ cells
        | sync_aggregate ↦ λ n e. adds_nothing _
        | sync_message ↦ λ n e. adds_nothing _
      ],
    )
receive_lem (signed_contribution_and_proof i) x slot epoch s tables lt =
    let (t', made, same, cells) =
      cell-push i epoch x s.received_sync_committee_aggregates (rw tables.of_sync_aggregates lt) in
    (
      record s { received_sync_committee_aggregates = t' },
      rw (receive, made) refl,
      record {
        of_aggregates = tables.of_aggregates;
        of_attestations = tables.of_attestations;
        of_sync_aggregates = same ∙ tables.of_sync_aggregates;
        of_sync_messages = tables.of_sync_messages;
      },
      elim [
        | aggregate ↦ λ n e. adds_nothing _
        | sync_aggregate ↦ cells
        | sync_message ↦ λ n e. adds_nothing _
      ],
    )
receive_lem (sync_messages i) x slot epoch s tables lt =
    let (t', made, same, cells) =
      cell-push i epoch x s.received_sync_committee_messages (rw tables.of_sync_messages lt) in
    (
      record s { received_sync_committee_messages = t' },
      rw (receive, made) refl,
      record {
        of_aggregates = tables.of_aggregates;
        of_attestations = tables.of_attestations;
        of_sync_aggregates = tables.of_sync_aggregates;
        of_sync_messages = same ∙ tables.of_sync_messages;
      },
      elim [
        | aggregate ↦ λ n e. adds_nothing _
        | sync_aggregate ↦ λ n e. adds_nothing _
        | sync_message ↦ cells
      ],
    )

module _ (serde : Serde) where
  -- A message whose topic and data can be read and whose subnet the node has.
  abbrev pub IsReadable : Event serde → Type 0
  IsReadable other = Unit
  IsReadable (message topic data_) =
      (t : Topic) × (v : ℕ × ℕ × String) × (serde.topic_of topic ≡ some t)
      × (serde.decode data_ ≡ some v)
      × HasSubnet t

  abbrev logged : Kind → ℕ → ℕ → Option Topic → Option (ℕ × ℕ × String) → List ℕ
  logged k n e (some t) (some (x, slot, _)) =
      if is_for k n t && e == serde.epoch slot slots_per_epoch then x ∷ [] else []
  logged k n e (some t) none = []
  logged k n e none v = []

  -- The validators of the messages of a kind, a subnet and an epoch, in the order of the events.
  abbrev pub log : Kind → ℕ → ℕ → List (Event serde) → List ℕ
  log k n e [] = []
  log k n e (other ∷ r) = log k n e r
  log k n e (message topic data_ ∷ r) =
      logged k n e (serde.topic_of topic) (serde.decode data_) ++ log k n e r

  pub handle_events_lem :
      (es : List (Event serde)) (s : Received)
      → HasTables s
      → All IsReadable es
      → (s' : Received) × (handle_events serde es s ≡ ok s')
        × HasTables s'
        × ((k : Kind) (n e : ℕ) → cell n e (table k s') ≡ cell n e (table k s) ++ log k n e es)
  unfolding handle_events handle_gossipsub_event Adds
  handle_events_lem [] s tables good = (s, refl, tables, λ k n e. adds_nothing _)
  handle_events_lem (other ∷ es) s tables (_, good) = handle_events_lem es s tables good
  handle_events_lem (message topic data_ ∷ es) s tables
        ((t, (x, slot, p), is_topic, is_data, has), good) =
      let epoch = serde.epoch slot slots_per_epoch in
      let (m, received, tables', adds) = receive_lem t x slot epoch s tables has in
      let (s', e, kept, cells) = handle_events_lem es m tables' good in
      (
        s',
        rw (is_topic, is_data, received) e,
        kept,
        λ k n ep.
            cells k n ep
            ∙ ap (λ c. c ++ log k n ep es) (adds k n ep)
            ∙ append_assoc (cell n ep (table k s)) _ (log k n ep es)
            ∙ ap (λ l. cell n ep (table k s) ++ l) (rw (is_topic, is_data) refl),
      )

  -- Over readable messages the node never panics. For the aggregates, the aggregates of the sync
  -- committees and their messages, each subnet and each epoch, it then has, behind what it had, the
  -- validators of the messages of that kind, subnet and epoch in the order of their arrival.
  pub handle_events-log :
      (es : List (Event serde)) (s : Received)
      → HasTables s
      → All IsReadable es
      → (s' : Received) × (handle_events serde es s ≡ ok s')
        × ((k : Kind) (n e : ℕ) → cell n e (table k s') ≡ cell n e (table k s) ++ log k n e es)
  handle_events-log es s tables good =
      let (s', handled, _, cells) = handle_events_lem es s tables good in (s', handled, cells)
