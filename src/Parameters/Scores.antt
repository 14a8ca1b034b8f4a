-- ===== src/Parameters/Scores.antt =====
-- The peer score parameters that scoring/src/param.rs builds. A number of the type `f64` is only passed
-- on: its type and its `FromStr` are a parameter. A topic stands for its hash.
pub mod Built
pub mod Scored
use Prim.Native.String
use gossipsub_testground.Base.{
  ℕ, List, [], ◌∷◌, Option, none, some, Bool, true, false, String, Outcome, panic, ok, err, ◌>>=◌,
  ◌==◌, if◌then◌else◌, wrapping_mul, range_from,
}
use gossipsub_testground.Base.Decimal.{parse_u64}
use gossipsub_testground.Metrics.Model.{Never}
use gossipsub_testground.BeaconNode.{
  Topic, blocks, attestations, aggregates, sync_messages, signed_contribution_and_proof,
  attestation_subnets, sync_subnets, slots_per_epoch,
}
use gossipsub_testground.Parameters.{InstanceParams, ParamError, get_param, parse_bool}

abbrev pub slot : ℕ
slot = 12

pub record Floats : Type 1 where
  pub F64 : Type 0
  pub parse_f64 : List ℕ → Option F64

-- `expect` on a result.
abbrev pub expect_ok {ℓ} : {E : Type 0} {A : Type ℓ} → Outcome E A → Outcome Never A
expect_ok panic = panic
expect_ok (err reason) = panic
expect_ok (ok value) = ok value

module _ (floats : Floats) where
  abbrev float : String → InstanceParams → Outcome ParamError floats.F64
  float = get_param floats.parse_f64

  pub record PeerScoreThresholds : Type 0 where
    pub gossip_threshold : floats.F64
    pub publish_threshold : floats.F64
    pub graylist_threshold : floats.F64
    pub accept_px_threshold : floats.F64
    pub opportunistic_graft_threshold : floats.F64

  unfoldable pub parse_peer_score_thresholds :
      InstanceParams → Outcome ParamError PeerScoreThresholds
  parse_peer_score_thresholds instance_params = do
    gossip_threshold ← float "gossip_threshold" instance_params
    publish_threshold ← float "publish_threshold" instance_params
    graylist_threshold ← float "graylist_threshold" instance_params
    accept_px_threshold ← float "accept_px_threshold" instance_params
    opportunistic_graft_threshold ← float "opportunistic_graft_threshold" instance_params
    ok (record {
      gossip_threshold = gossip_threshold;
      publish_threshold = publish_threshold;
      graylist_threshold = graylist_threshold;
      accept_px_threshold = accept_px_threshold;
      opportunistic_graft_threshold = opportunistic_graft_threshold;
    })

  -- Durations are in seconds.
  pub record TopicScoreParams : Type 0 where
    pub topic_weight : floats.F64
    pub time_in_mesh_weight : floats.F64
    pub time_in_mesh_quantum : ℕ
    pub time_in_mesh_cap : floats.F64
    pub first_message_deliveries_weight : floats.F64
    pub first_message_deliveries_decay : floats.F64
    pub first_message_deliveries_cap : floats.F64
    pub mesh_message_deliveries_weight : floats.F64
    pub mesh_message_deliveries_decay : floats.F64
    pub mesh_message_deliveries_threshold : floats.F64
    pub mesh_message_deliveries_cap : floats.F64
    pub mesh_message_deliveries_activation : ℕ
    pub mesh_message_deliveries_window : ℕ
    pub mesh_failure_penalty_weight : floats.F64
    pub mesh_failure_penalty_decay : floats.F64
    pub invalid_message_deliveries_weight : floats.F64
    pub invalid_message_deliveries_decay : floats.F64

  -- `format!("{prefix}_topic_weight")` and so on.
  abbrev prefixed : String → String → String
  prefixed prefix name = String.◌++◌ prefix name

  unfoldable pub parse_topic_score_params :
      String → InstanceParams → Outcome ParamError TopicScoreParams
  parse_topic_score_params prefix ip = do
    topic_weight ← float (prefixed prefix "_topic_weight") ip
    mesh_weight ← float (prefixed prefix "_time_in_mesh_weight") ip
    quantum ← get_param parse_u64 (prefixed prefix "_time_in_mesh_quantum") ip
    mesh_cap ← float (prefixed prefix "_time_in_mesh_cap") ip
    first_weight ← float (prefixed prefix "_first_message_deliveries_weight") ip
    first_decay ← float (prefixed prefix "_first_message_deliveries_decay") ip
    first_cap ← float (prefixed prefix "_first_message_deliveries_cap") ip
    deliveries_weight ← float (prefixed prefix "_mesh_message_deliveries_weight") ip
    deliveries_decay ← float (prefixed prefix "_mesh_message_deliveries_decay") ip
    deliveries_threshold ← float (prefixed prefix "_mesh_message_deliveries_threshold") ip
    deliveries_cap ← float (prefixed prefix "_mesh_message_deliveries_cap") ip
    activation ← get_param parse_u64 (prefixed prefix "_mesh_message_deliveries_activation") ip
    window ← get_param parse_u64 (prefixed prefix "_mesh_message_deliveries_window") ip
    failure_weight ← float (prefixed prefix "_mesh_failure_penalty_weight") ip
    failure_decay ← float (prefixed prefix "_mesh_failure_penalty_decay") ip
    invalid_weight ← float (prefixed prefix "_invalid_message_deliveries_weight") ip
    invalid_decay ← float (prefixed prefix "_invalid_message_deliveries_decay") ip
    ok (record {
      topic_weight = topic_weight;
      time_in_mesh_weight = mesh_weight;
      time_in_mesh_quantum = wrapping_mul slot quantum;
      time_in_mesh_cap = mesh_cap;
      first_message_deliveries_weight = first_weight;
      first_message_deliveries_decay = first_decay;
      first_message_deliveries_cap = first_cap;
      mesh_message_deliveries_weight = deliveries_weight;
      mesh_message_deliveries_decay = deliveries_decay;
      mesh_message_deliveries_threshold = deliveries_threshold;
      mesh_message_deliveries_cap = deliveries_cap;
      mesh_message_deliveries_activation =
          wrapping_mul (wrapping_mul slot slots_per_epoch) activation;
      mesh_message_deliveries_window = window;
      mesh_failure_penalty_weight = failure_weight;
      mesh_failure_penalty_decay = failure_decay;
      invalid_message_deliveries_weight = invalid_weight;
      invalid_message_deliveries_decay = invalid_decay;
    })

  -- What `..Default::default()` fills in is left out, but for the empty map of topics.
  pub record PeerScoreParams : Type 0 where
    pub topics : Topic → Option TopicScoreParams
    pub topic_score_cap : floats.F64
    pub decay_interval : ℕ
    pub decay_to_zero : floats.F64
    pub retain_score : ℕ
    pub app_specific_weight : floats.F64
    pub ip_colocation_factor_weight : floats.F64
    pub ip_colocation_factor_threshold : floats.F64
    pub behaviour_penalty_weight : floats.F64
    pub behaviour_penalty_threshold : floats.F64
    pub behaviour_penalty_decay : floats.F64

  unfoldable pub parse_peer_score_params : InstanceParams → Outcome ParamError PeerScoreParams
  parse_peer_score_params ip = do
    topic_score_cap ← float "topic_score_cap" ip
    decay_interval ← get_param parse_u64 "decay_interval" ip
    decay_to_zero ← float "decay_to_zero" ip
    retain_score ← get_param parse_u64 "retain_score" ip
    app_specific_weight ← float "app_specific_weight" ip
    factor_weight ← float "ip_colocation_factor_weight" ip
    factor_threshold ← float "ip_colocation_factor_threshold" ip
    penalty_weight ← float "behaviour_penalty_weight" ip
    penalty_threshold ← float "behaviour_penalty_threshold" ip
    penalty_decay ← float "behaviour_penalty_decay" ip
    ok (record {
      topics = λ topic. none;
      topic_score_cap = topic_score_cap;
      decay_interval = decay_interval;
      decay_to_zero = decay_to_zero;
      retain_score = retain_score;
      app_specific_weight = app_specific_weight;
      ip_colocation_factor_weight = factor_weight;
      ip_colocation_factor_threshold = factor_threshold;
      behaviour_penalty_weight = penalty_weight;
      behaviour_penalty_threshold = penalty_threshold;
      behaviour_penalty_decay = penalty_decay;
    })
