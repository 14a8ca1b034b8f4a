-- ===== src/Parameters/Scores/Built.antt =====
-- `build_peer_score_params` of scoring/src/param.rs, and which topics get which parameters.
use gossipsub_testground.Base.{
  ℕ, List, [], ◌∷◌, Option, none, some, Bool, true, false, ◌&&◌, String, Outcome, ok, ◌>>=◌,
  if◌then◌else◌, ltb, ◌==◌, range_from,
}
use gossipsub_testground.Metrics.Model.{Never}
use gossipsub_testground.BeaconNode.{
  Topic, blocks, attestations, aggregates, sync_messages, signed_contribution_and_proof,
  attestation_subnets, sync_subnets,
}
use gossipsub_testground.Parameters.{InstanceParams, get_param, parse_bool}
use gossipsub_testground.Parameters.Scores.{
  Floats, expect_ok, TopicScoreParams, parse_topic_score_params, PeerScoreParams,
  parse_peer_score_params,
}

abbrev pub same_topic : Topic → Topic → Bool
same_topic blocks u = elim u [ blocks ↦ true | _ ↦ false ]
same_topic (attestations a) u = elim u [ attestations b ↦ a == b | _ ↦ false ]
same_topic (aggregates a) u = elim u [ aggregates b ↦ a == b | _ ↦ false ]
same_topic (sync_messages a) u = elim u [ sync_messages b ↦ a == b | _ ↦ false ]
same_topic (signed_contribution_and_proof a) u = elim u [
  | signed_contribution_and_proof b ↦ a == b
  | _ ↦ false
]

module _ (floats : Floats) where
  -- `params.topics.insert(…)`
  unfoldable pub insert_topic :
      Topic → TopicScoreParams floats → PeerScoreParams floats → PeerScoreParams floats
  insert_topic topic value params = record params {
    topics = λ u. if same_topic topic u then some value else params.topics u;
  }

  unfoldable pub insert_subnets :
      List ℕ
      → (topic : ℕ → Topic) → TopicScoreParams floats
      → PeerScoreParams floats
      → PeerScoreParams floats
  insert_subnets [] topic value params = params
  insert_subnets (n ∷ ns) topic value params =
      insert_subnets ns topic value (insert_topic (topic n) value params)

  -- The loop that inserts two topics of each subnet.
  unfoldable pub insert_pairs :
      List ℕ → (baap a : TopicScoreParams floats) → PeerScoreParams floats → PeerScoreParams floats
  insert_pairs [] baap a params = params
  insert_pairs (n ∷ ns) baap a params =
      insert_pairs ns baap a
        (insert_topic (attestations n) a (insert_topic (aggregates n) baap params))

  -- The parameters of the topics behind a switch.
  unfoldable pub insert_if :
      (enabled : Bool) (prefix : String)
      → (topic : ℕ → Topic) → InstanceParams
      → PeerScoreParams floats
      → Outcome Never (PeerScoreParams floats)
  insert_if false prefix topic ip params = ok params
  insert_if true prefix topic ip params = do
    value ← expect_ok (parse_topic_score_params floats prefix ip)
    ok (insert_subnets (range_from 0 sync_subnets) topic value params)

  unfoldable pub build_peer_score_params : InstanceParams → Outcome Never (PeerScoreParams floats)
  build_peer_score_params ip = do
    params ← expect_ok (parse_peer_score_params floats ip)
    bb ← expect_ok (parse_topic_score_params floats "bb" ip)
    let with_blocks = insert_topic blocks bb params
    baap ← expect_ok (parse_topic_score_params floats "baap" ip)
    a ← expect_ok (parse_topic_score_params floats "a" ip)
    let with_subnets = insert_pairs (range_from 0 attestation_subnets) baap a with_blocks
    has_scap ← expect_ok (get_param parse_bool "scap_enable_topic_params" ip)
    with_contributions ← insert_if has_scap "scap" signed_contribution_and_proof ip with_subnets
    has_scm ← expect_ok (get_param parse_bool "scm_enable_topic_params" ip)
    insert_if has_scm "scm" sync_messages ip with_contributions

  -- The topics with parameters, without the order in which they are inserted.
  module _ (bb baap a scap scm : TopicScoreParams floats) (has_scap has_scm : Bool) where
    abbrev pub scored : Topic → Option (TopicScoreParams floats)
    scored blocks = some bb
    scored (aggregates n) = if ltb n attestation_subnets then some baap else none
    scored (attestations n) = if ltb n attestation_subnets then some a else none
    scored (signed_contribution_and_proof n) =
        if has_scap && ltb n sync_subnets then some scap else none
    scored (sync_messages n) = if has_scm && ltb n sync_subnets then some scm else none
