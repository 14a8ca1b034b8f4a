-- ===== src/Parameters/Scores/Scored.antt =====
-- Which topics `build_peer_score_params` gives which parameters.
use gossipsub_testground.Base.{
  ℕ, ◌≡◌, refl, subst, Option, none, some, Bool, true, false, String, Outcome, ok, >>=-eq-ok,
  if◌then◌else◌, ltb, range_from, arith,
}
use gossipsub_testground.Base.Decimal.{parse_u64}
use gossipsub_testground.BeaconNode.{
  Topic, blocks, attestations, aggregates, sync_messages, signed_contribution_and_proof,
  attestation_subnets, sync_subnets,
}
use gossipsub_testground.Parameters.{InstanceParams, ParamError, get_param, parse_bool}
use gossipsub_testground.Parameters.Scores.{
  Floats, TopicScoreParams, parse_topic_score_params, PeerScoreParams, parse_peer_score_params,
}
use gossipsub_testground.Parameters.Scores.Built.{
  same_topic, insert_topic, insert_subnets, insert_pairs, insert_if, build_peer_score_params,
  scored,
}

module _ (floats : Floats) where
  insert_if-ok :
      (enabled : Bool) (prefix : String) (topic : ℕ → Topic) (ip : InstanceParams)
      (params : PeerScoreParams floats) (value : TopicScoreParams floats)
      → (enabled ≡ true → parse_topic_score_params floats prefix ip ≡ ok value)
      → insert_if floats enabled prefix topic ip params
        ≡ ok (
            if enabled
            then insert_subnets floats (range_from 0 sync_subnets) topic value params
            else params)
  unfolding insert_if
  insert_if-ok false prefix topic ip params value given = refl
  insert_if-ok true prefix topic ip params value given = rw (given refl) refl

  abbrev over_sync :
      TopicScoreParams floats
      → Topic
      → Option (TopicScoreParams floats)
      → Option (TopicScoreParams floats)
  over_sync v (sync_messages n) old = if ltb n sync_subnets then some v else old
  over_sync v blocks old = old
  over_sync v (attestations n) old = old
  over_sync v (aggregates n) old = old
  over_sync v (signed_contribution_and_proof n) old = old

  abbrev over_contributions :
      TopicScoreParams floats
      → Topic
      → Option (TopicScoreParams floats)
      → Option (TopicScoreParams floats)
  over_contributions v (signed_contribution_and_proof n) old =
      if ltb n sync_subnets then some v else old
  over_contributions v blocks old = old
  over_contributions v (attestations n) old = old
  over_contributions v (aggregates n) old = old
  over_contributions v (sync_messages n) old = old

  abbrev over_pairs :
      (baap a : TopicScoreParams floats)
      → Topic
      → Option (TopicScoreParams floats)
      → Option (TopicScoreParams floats)
  over_pairs baap a (attestations n) old = if ltb n attestation_subnets then some a else old
  over_pairs baap a (aggregates n) old = if ltb n attestation_subnets then some baap else old
  over_pairs baap a blocks old = old
  over_pairs baap a (sync_messages n) old = old
  over_pairs baap a (signed_contribution_and_proof n) old = old

  sync_inserted :
      (v : TopicScoreParams floats) (params : PeerScoreParams floats) (u : Topic)
      → (insert_subnets floats (range_from 0 sync_subnets) sync_messages v params).topics u
        ≡ over_sync v u (params.topics u)
  unfolding insert_subnets insert_topic
  sync_inserted v params blocks = refl
  sync_inserted v params (attestations n) = refl
  sync_inserted v params (aggregates n) = refl
  sync_inserted v params (sync_messages n) = ground arith
  sync_inserted v params (signed_contribution_and_proof n) = refl

  contributions_inserted :
      (v : TopicScoreParams floats) (params : PeerScoreParams floats) (u : Topic)
      → (insert_subnets floats
            (range_from 0 sync_subnets)
            signed_contribution_and_proof
            v
            params).topics
          u
        ≡ over_contributions v u (params.topics u)
  unfolding insert_subnets insert_topic
  contributions_inserted v params blocks = refl
  contributions_inserted v params (attestations n) = refl
  contributions_inserted v params (aggregates n) = refl
  contributions_inserted v params (sync_messages n) = refl
  contributions_inserted v params (signed_contribution_and_proof n) = ground arith

  pairs_inserted :
      (baap a : TopicScoreParams floats) (params : PeerScoreParams floats) (u : Topic)
      → (insert_pairs floats (range_from 0 attestation_subnets) baap a params).topics u
        ≡ over_pairs baap a u (params.topics u)
  unfolding insert_pairs insert_topic
  pairs_inserted baap a params blocks = refl
  pairs_inserted baap a params (attestations n) = ground arith
  pairs_inserted baap a params (aggregates n) = ground arith
  pairs_inserted baap a params (sync_messages n) = refl
  pairs_inserted baap a params (signed_contribution_and_proof n) = refl

  if_topics :
      (b : Bool) (p q : PeerScoreParams floats) (u : Topic)
      → (if b then p else q).topics u ≡ (if b then p.topics u else q.topics u)
  if_topics true p q u = refl
  if_topics false p q u = refl

  module _ (bb baap a scap scm : TopicScoreParams floats) (has_scap has_scm : Bool)
      (base : PeerScoreParams floats) (ip : InstanceParams) where
    pub result : PeerScoreParams floats
    result =
        let subnets =
          insert_pairs floats (range_from 0 attestation_subnets) baap a
            (insert_topic floats blocks bb base) in
        let contributions =
          if has_scap
          then insert_subnets floats (range_from 0 sync_subnets) signed_contribution_and_proof scap
              subnets
          else subnets in
        if has_scm
        then insert_subnets floats (range_from 0 sync_subnets) sync_messages scm contributions
        else contributions

    over_all : Topic → Option (TopicScoreParams floats)
    over_all u =
        let subnets = over_pairs baap a u (if same_topic blocks u then some bb else none) in
        let contributions = if has_scap then over_contributions scap u subnets else subnets in
        if has_scm then over_sync scm u contributions else contributions

    over_all-scored : (u : Topic) → over_all u ≡ scored floats bb baap a scap scm has_scap has_scm u
    unfolding over_all
    over_all-scored blocks = ground arith
    over_all-scored (attestations n) = ground arith
    over_all-scored (aggregates n) = ground arith
    over_all-scored (sync_messages n) = ground arith
    over_all-scored (signed_contribution_and_proof n) = ground arith

    pub result_topics :
        ((topic : Topic) → base.topics topic ≡ none)
        → (u : Topic) → result.topics u ≡ scored floats bb baap a scap scm has_scap has_scm u
    unfolding result over_all insert_topic
    result_topics empty u =
        simp (if_topics, sync_inserted, contributions_inserted, pairs_inserted, empty)
          (over_all-scored u)

  empty_value :
      (p q : PeerScoreParams floats)
      → ◌≡◌ {A = Outcome ParamError (PeerScoreParams floats)} (ok p) (ok q)
      → (u : Topic) → p.topics u ≡ none
      → q.topics u ≡ none
  empty_value p q h u empty = let same : p ≡ q = cc in subst (λ r. r.topics u ≡ none) same empty

  parsed_topics :
      (ip : InstanceParams) (base : PeerScoreParams floats)
      → parse_peer_score_params floats ip ≡ ok base
      → (u : Topic) → base.topics u ≡ none
  unfolding parse_peer_score_params
  parsed_topics ip base h u =
      let (_, _, h1) = >>=-eq-ok (get_param floats.parse_f64 "topic_score_cap" ip) _ h in
      let (_, _, h2) = >>=-eq-ok (get_param parse_u64 "decay_interval" ip) _ h1 in
      let (_, _, h3) = >>=-eq-ok (get_param floats.parse_f64 "decay_to_zero" ip) _ h2 in
      let (_, _, h4) = >>=-eq-ok (get_param parse_u64 "retain_score" ip) _ h3 in
      let (_, _, h5) = >>=-eq-ok (get_param floats.parse_f64 "app_specific_weight" ip) _ h4 in
      let (_, _, h6) =
        >>=-eq-ok (get_param floats.parse_f64 "ip_colocation_factor_weight" ip) _ h5 in
      let (_, _, h7) =
        >>=-eq-ok (get_param floats.parse_f64 "ip_colocation_factor_threshold" ip) _ h6 in
      let (_, _, h8) = >>=-eq-ok (get_param floats.parse_f64 "behaviour_penalty_weight" ip) _ h7 in
      let (_, _, h9) =
        >>=-eq-ok (get_param floats.parse_f64 "behaviour_penalty_threshold" ip) _ h8 in
      let (_, _, h10) = >>=-eq-ok (get_param floats.parse_f64 "behaviour_penalty_decay" ip) _ h9 in
      empty_value _ base h10 u refl

  -- If the parameters that it needs can be read, `build_peer_score_params` does not panic, and each
  -- topic of a subnet has the parameters of its prefix: blocks, aggregates and attestations always,
  -- the two of the sync committees if their switch is on, and no other topic has any.
  pub build_peer_score_params_outcome :
      (ip : InstanceParams) (base : PeerScoreParams floats)
      (bb baap a scap scm : TopicScoreParams floats) (has_scap has_scm : Bool)
      → parse_peer_score_params floats ip ≡ ok base
      → parse_topic_score_params floats "bb" ip ≡ ok bb
      → parse_topic_score_params floats "baap" ip ≡ ok baap
      → parse_topic_score_params floats "a" ip ≡ ok a
      → get_param parse_bool "scap_enable_topic_params" ip ≡ ok has_scap
      → get_param parse_bool "scm_enable_topic_params" ip ≡ ok has_scm
      → (has_scap ≡ true → parse_topic_score_params floats "scap" ip ≡ ok scap)
      → (has_scm ≡ true → parse_topic_score_params floats "scm" ip ≡ ok scm)
      → (built : PeerScoreParams floats) × (build_peer_score_params floats ip ≡ ok built)
        × ((topic : Topic)
            → built.topics topic ≡ scored floats bb baap a scap scm has_scap has_scm topic)
  unfolding build_peer_score_params result
  build_peer_score_params_outcome ip base bb baap a scap scm has_scap has_scm base_ok bb_ok baap_ok
        a_ok scap_flag scm_flag scap_ok scm_ok =
      (
        result bb baap a scap scm has_scap has_scm base ip,
        rw
            (
              base_ok,
              bb_ok,
              baap_ok,
              a_ok,
              scap_flag,
              insert_if-ok has_scap "scap" signed_contribution_and_proof ip
                  (insert_pairs floats (range_from 0 attestation_subnets) baap a
                    (insert_topic floats blocks bb base))
                  scap scap_ok,
              scm_flag,
            )
            (insert_if-ok has_scm "scm" sync_messages ip _ scm scm_ok),
        result_topics bb baap a scap scm has_scap has_scm base ip (parsed_topics ip base base_ok),
      )
