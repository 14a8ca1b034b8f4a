-- ===== src/Simulation/Topics.antt =====
-- The names of the topics: `From<Topic> for IdentTopic` and back, of
-- eth_consensus/simulation/src/network.rs.
use gossipsub_testground.Base.{
  ℕ, ◌<◌, ◌≡◌, refl, List, ◌∷◌, ◌++◌, none, some, Outcome, panic, ok, ◌>>=◌, expect, if◌then◌else◌,
  word,
}
use gossipsub_testground.Base.Decimal.{
  codes, to_string, parse_u64, equal, rsplit_once, parse_u64-to_string, rsplit_once-number,
}
use gossipsub_testground.Metrics.Model.{Never}
use gossipsub_testground.Metrics.Simulation.{
  Topic, blocks, attestations, aggregates, sync_messages, signed_contribution_and_proof,
}

-- `format!("{name}/{x}")`
abbrev slash : List ℕ → ℕ → List ℕ
slash name x = name ++ (b'/' ∷ to_string x)

unfoldable pub ident_topic : Topic → List ℕ
ident_topic blocks = codes "Blocks"
ident_topic aggregates = codes "Aggregates"
ident_topic (attestations x) = slash (codes "Attestations") x
ident_topic (sync_messages x) = slash (codes "SyncMessages") x
ident_topic (signed_contribution_and_proof x) = slash (codes "SignedContributionAndProof") x

abbrev subnet_topic : (name x : List ℕ) → Outcome Never Topic
subnet_topic name x =
    if equal name (codes "Attestations")
    then (do subnet ← expect (parse_u64 x); ok (attestations subnet))
    else if equal name (codes "SyncMessages")
    then (do subnet ← expect (parse_u64 x); ok (sync_messages subnet))
    else if equal name (codes "SignedContributionAndProof")
    then (do subnet ← expect (parse_u64 x); ok (signed_contribution_and_proof subnet))
    else panic

unfoldable pub topic_of : List ℕ → Outcome Never Topic
unfolding subnet_topic
topic_of repr =
    if equal repr (codes "Blocks")
    then ok blocks
    else if equal repr (codes "Aggregates")
    then ok aggregates
    else elim (rsplit_once b'/' repr) [ some (name, x) ↦ subnet_topic name x | none ↦ panic ]

-- A subnet is a `u64`.
abbrev pub IsTopic : Topic → Type 0
IsTopic blocks = Unit
IsTopic aggregates = Unit
IsTopic (attestations x) = x < word
IsTopic (sync_messages x) = x < word
IsTopic (signed_contribution_and_proof x) = x < word

-- The name of a topic whose subnet fits in 64 bits reads back as the topic.
pub topic_of-ident_topic : (topic : Topic) → IsTopic topic → topic_of (ident_topic topic) ≡ ok topic
unfolding topic_of ident_topic
topic_of-ident_topic blocks fits = refl
topic_of-ident_topic aggregates fits = refl
topic_of-ident_topic (attestations x) fits =
    rw (rsplit_once-number (codes "Attestations") x, parse_u64-to_string x fits) refl
topic_of-ident_topic (sync_messages x) fits =
    rw (rsplit_once-number (codes "SyncMessages") x, parse_u64-to_string x fits) refl
topic_of-ident_topic (signed_contribution_and_proof x) fits =
    rw (rsplit_once-number (codes "SignedContributionAndProof") x, parse_u64-to_string x fits) refl
