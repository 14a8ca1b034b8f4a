-- ===== src/BeaconNode.antt =====
-- The honest peer of scoring/src/beacon_node.rs: what it counts of the messages that it receives.
-- The topics' text form and the messages' data are those of `serde`.
pub mod Reports
pub mod Counts
pub mod Log
pub mod Seen
pub mod Published
pub mod Run
pub mod Reported
use gossipsub_testground.Base.{
  ℕ, zero, suc, List, [], ◌∷◌, ◌++◌, map, Option, none, some, Outcome, ok, err, panic, ◌>>=◌,
  expect, range_from, String,
}
use gossipsub_testground.Base.Maps.{get, insert, set_insert}
use gossipsub_testground.Metrics.Model.{Never}

abbrev pub attestation_subnets : ℕ
attestation_subnets = 4

abbrev pub sync_subnets : ℕ
sync_subnets = 4

abbrev pub slots_per_epoch : ℕ
slots_per_epoch = 32

pub data Topic : Type 0 where
  blocks : Topic
  attestations : ℕ → Topic
  aggregates : ℕ → Topic
  sync_messages : ℕ → Topic
  signed_contribution_and_proof : ℕ → Topic

-- What the node uses of `serde_json` and of the crate that has `Slot::epoch`.
pub record Serde : Type 1 where
  pub Data : Type 0
  pub topic_of : String → Option Topic
  pub decode : Data → Option (ℕ × ℕ × String)
  pub epoch : ℕ → ℕ → ℕ

-- A `HashMap<Epoch, Vec<ValId>>`, or one of sets.
abbrev pub Epochs : Type 0
Epochs = List (ℕ × List ℕ)

abbrev pub or_default : Option (List ℕ) → List ℕ
or_default none = []
or_default (some xs) = xs

-- `entry(epoch).or_default().push(x)` and `.insert(x)`.
unfoldable pub push_entry : ℕ → ℕ → Epochs → Epochs
push_entry epoch x m = insert epoch (or_default (get epoch m) ++ x ∷ []) m

unfoldable pub insert_entry : ℕ → ℕ → Epochs → Epochs
insert_entry epoch x m = insert epoch (set_insert x (or_default (get epoch m))) m

-- A change of `get_mut(i)`.
unfoldable pub modify_at : {A : Type 0} → ℕ → (A → A) → List A → Option (List A)
modify_at i f [] = none
modify_at zero f (x ∷ xs) = some (f x ∷ xs)
modify_at (suc i) f (x ∷ xs) = elim (modify_at i f xs) [ none ↦ none | some ys ↦ some (x ∷ ys) ]

-- The fields of `Network` about what is received.
pub record Received : Type 0 where
  pub received_beacon_blocks : Epochs
  pub received_aggregates : List Epochs
  pub received_attestations : List Epochs
  pub received_sync_committee_aggregates : List Epochs
  pub received_sync_committee_messages : List Epochs

-- The loops of `Network::new` that make one map for each subnet.
abbrev pub no_entries : ℕ → List Epochs
no_entries zero = []
no_entries (suc k) = [] ∷ no_entries k

unfoldable pub new : Received
new = record {
  received_beacon_blocks = [];
  received_aggregates = no_entries attestation_subnets;
  received_attestations = no_entries attestation_subnets;
  received_sync_committee_aggregates = no_entries sync_subnets;
  received_sync_committee_messages = no_entries sync_subnets;
}

-- The branches of `handle_gossipsub_event`; `x` is the proposer or the validator.
unfoldable pub receive : Topic → ℕ → ℕ → ℕ → Received → Outcome Never Received
receive blocks x slot epoch s =
    ok (record s { received_beacon_blocks = insert_entry epoch slot s.received_beacon_blocks })
receive (aggregates subnet) x slot epoch s = do
  t ← expect (modify_at subnet (push_entry epoch x) s.received_aggregates)
  ok (record s { received_aggregates = t })
receive (attestations subnet) x slot epoch s = do
  t ← expect (modify_at subnet (insert_entry epoch x) s.received_attestations)
  ok (record s { received_attestations = t })
receive (signed_contribution_and_proof subnet) x slot epoch s = do
  t ← expect (modify_at subnet (push_entry epoch x) s.received_sync_committee_aggregates)
  ok (record s { received_sync_committee_aggregates = t })
receive (sync_messages subnet) x slot epoch s = do
  t ← expect (modify_at subnet (push_entry epoch x) s.received_sync_committee_messages)
  ok (record s { received_sync_committee_messages = t })

-- `Topic::Attestations` and `Topic::Aggregates` of each subnet, and the two of the sync committees.
abbrev attestation_topics : List ℕ → List Topic
attestation_topics [] = []
attestation_topics (n ∷ r) = attestations n ∷ aggregates n ∷ attestation_topics r

abbrev sync_topics : List ℕ → List Topic
sync_topics [] = []
sync_topics (n ∷ r) = sync_messages n ∷ signed_contribution_and_proof n ∷ sync_topics r

-- The topics of `subscribe_topics`, in its order.
unfoldable pub topics_to_subscribe : List Topic
topics_to_subscribe =
    blocks ∷ attestation_topics (range_from 0 attestation_subnets)
    ++ sync_topics (range_from 0 sync_subnets)

module _ (serde : Serde) where
  -- `Event::Message`; the other events are logged.
  pub data Event : Type 0 where
    message : String → serde.Data → Event
    other : Event

  unfoldable pub handle_gossipsub_event : Event → Received → Outcome Never Received
  unfolding receive
  handle_gossipsub_event other s = ok s
  handle_gossipsub_event (message topic data_) s = do
    t ← expect (serde.topic_of topic)
    (x, slot, _) ← expect (serde.decode data_)
    receive t x slot (serde.epoch slot slots_per_epoch) s

  -- The events of the simulation's loop.
  unfoldable pub handle_events : List Event → Received → Outcome Never Received
  handle_events [] s = ok s
  handle_events (e ∷ es) s = do s' ← handle_gossipsub_event e s; handle_events es s'
