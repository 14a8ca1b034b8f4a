-- ===== src/Messages.antt =====
-- The messages that the generator of both plans yields, as scoring/src/beacon_node.rs and
-- eth_consensus/simulation/src/network/run.rs match on them.
use gossipsub_testground.Base.{ℕ}

pub data Message : Type 0 where
  beacon_block : (proposer slot : ℕ) → Message
  aggregate_and_proof_attestation : (aggregator subnet slot : ℕ) → Message
  attestation : (attester subnet slot : ℕ) → Message
  signed_contribution_and_proof : (validator subnet slot : ℕ) → Message
  sync_committee_message : (validator subnet slot : ℕ) → Message
