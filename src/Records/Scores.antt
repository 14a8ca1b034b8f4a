-- ===== src/Records/Scores.antt =====
-- The scores of the peers of an honest peer of the plan censoring, by the participants' names.
use gossipsub_testground.Base.{
  ◌≡◌, ◌≢◌, refl, sym, ap, ◌∙◌, ◌++◌, false, same_text-eq, ◌⊎◌, inl, inr, List, [], ◌∷◌, Option,
  none, some, Option-cases, panic, ok, String, true, Bool-cases, any, All, same_text,
}
use gossipsub_testground.Metrics.Model.{double, Influx}
use gossipsub_testground.Simulation.Accepted.{some-inj, none_some}
use gossipsub_testground.Records.{add_named_scores, named_scores_query, name_in}

module _ (db : Influx) where
  -- A field for each name and score.
  abbrev pub add_fields : List (String × db.Double) → db.Query → db.Query
  add_fields [] query = query
  add_fields ((name, score) ∷ fields) query =
      add_fields fields (db.add_field name (double score) query)

  module _ (now : db.Time) (instance_peer_id instance_name run_id : String) where
    abbrev pub tagged : db.Query
    tagged = db.add_tag "run_id" run_id (
        db.add_tag "instance_name" instance_name
          (db.add_tag "instance_peer_id" instance_peer_id (db.new_query now "scores")))

    -- The query of some fields, if there is a score.
    abbrev pub scores_query : (scores fields : List (String × db.Double)) → Option db.Query
    scores_query [] fields = none
    scores_query (_ ∷ _) fields = some (add_fields fields tagged)

  module _ (name_of : String → Option String) where
    -- One of the peers with a score is no participant.
    abbrev pub HasStranger : List (String × db.Double) → Type 0
    HasStranger [] = ⊥
    HasStranger ((peer, score) ∷ scores) = (name_of peer ≡ none) ⊎ HasStranger scores

    -- The fields have the names of the peers and their scores, in the same order.
    abbrev pub AreNamed : (scores fields : List (String × db.Double)) → Type 0
    AreNamed [] [] = Unit
    AreNamed [] (_ ∷ _) = ⊥
    AreNamed (_ ∷ _) [] = ⊥
    AreNamed ((peer, score) ∷ scores) ((name, value) ∷ fields) =
        (name_of peer ≡ some name) × (value ≡ score) × AreNamed scores fields

    add_named_scores-cases :
        (now : db.Time) (instance_peer_id instance_name run_id : String)
        (scores : List (String × db.Double)) (query : db.Query)
        → (HasStranger scores
            × (add_named_scores db now instance_peer_id instance_name run_id name_of scores query
                ≡ panic))
          ⊎ ((fields : List (String × db.Double)) × AreNamed scores fields
              × (add_named_scores db now instance_peer_id instance_name run_id name_of scores query
                  ≡ ok (add_fields fields query)))
    unfolding add_named_scores
    add_named_scores-cases now peer_id name run_id [] query = inr ([], tt, refl)
    add_named_scores-cases now peer_id name run_id ((peer, score) ∷ scores) query =
        elim (Option-cases (name_of peer)) [
          | inl unknown ↦ inl (inl unknown, rw unknown refl)
          | inr (called, is) ↦
              elim (add_named_scores-cases now peer_id name run_id scores
                (db.add_field called (double score) query)) [
                  | inl (stranger, failed) ↦ inl (inr stranger, rw is failed)
                  | inr (fields, named, added) ↦
                      inr ((called, score) ∷ fields, (is, refl, named), rw is added)
                ]
        ]

    module _ (now : db.Time) (instance_peer_id instance_name run_id : String) where
      named_scores_query-cases :
          (scores : List (String × db.Double))
          → (HasStranger scores
              × (named_scores_query db now instance_peer_id instance_name run_id name_of scores
                  ≡ panic))
            ⊎ ((fields : List (String × db.Double)) × AreNamed scores fields
                × (named_scores_query db now instance_peer_id instance_name run_id name_of scores
                    ≡ ok (scores_query now instance_peer_id instance_name run_id scores fields)))
      unfolding named_scores_query
      named_scores_query-cases [] = inr ([], tt, refl)
      named_scores_query-cases (s ∷ scores) =
          elim (add_named_scores-cases now instance_peer_id instance_name run_id (s ∷ scores)
            (tagged now instance_peer_id instance_name run_id)) [
              | inl (stranger, failed) ↦ inl (stranger, rw failed refl)
              | inr (fields, named, added) ↦ inr (fields, named, rw added refl)
            ]

known_name :
    (participants : List (String × String)) (peer : String)
    → any (λ p. same_text peer p.0) participants ≡ true
    → name_in participants peer ≢ none
unfolding name_in
known_name [] peer known = absurd cc
known_name ((peer_id, name) ∷ participants) peer known =
    elim (Option-cases (name_in participants peer)) [
      | inr (later, found) ↦ rw found (λ same. cc)
      | inl absent ↦ elim (Bool-cases (same_text peer peer_id)) [
        | inl here ↦ rw (absent, here) (λ same. cc)
        | inr elsewhere ↦ absurd (known_name participants peer (rw elsewhere at known) absent)
      ]
    ]

-- The name of the last participant with the peer id.
abbrev pub IsNameOf : (participants : List (String × String)) (peer name : String) → Type 0
IsNameOf participants peer name =
    (before : List (String × String)) × (after : List (String × String)) × (participants
      ≡ before ++ (peer, name) ∷ after)
    × (any (λ p. same_text peer p.0) after ≡ false)

name_in-none :
    (participants : List (String × String)) (peer : String)
    → name_in participants peer ≡ none
    → any (λ p. same_text peer p.0) participants ≡ false
name_in-none participants peer absent =
    elim (Bool-cases (any (λ p. same_text peer p.0) participants)) [
      | inl known ↦ absurd (known_name participants peer known absent)
      | inr unknown ↦ unknown
    ]

name_in-IsNameOf :
    (participants : List (String × String)) (peer name : String)
    → name_in participants peer ≡ some name
    → IsNameOf participants peer name
unfolding name_in
name_in-IsNameOf [] peer name found = absurd cc
name_in-IsNameOf ((peer_id, called) ∷ participants) peer name found =
    elim (Option-cases (name_in participants peer)) [
      | inr (later, has) ↦
          let same : later ≡ name = some-inj (rw has at found) in
          let (before, after, split, last) =
            name_in-IsNameOf participants peer name (has ∙ ap some same) in
          ((peer_id, called) ∷ before, after, ap (λ l. (peer_id, called) ∷ l) split, last)
      | inl absent ↦ elim (Bool-cases (same_text peer peer_id)) [
        | inl here ↦
            let same : called ≡ name = some-inj (rw (absent, here) at found) in
            (
              [],
              participants,
              ap (λ q. (q, called) ∷ participants) (sym (same_text-eq peer peer_id here))
                  ∙ ap (λ q. (peer, q) ∷ participants) same,
              name_in-none participants peer absent,
            )
        | inr elsewhere ↦ absurd (none_some name (rw (absent, elsewhere) at found))
      ]
    ]

module _ (db : Influx) (participants : List (String × String)) where
  -- The fields have the participants' names for the peers and their scores, in the same order.
  abbrev pub AreScores : (scores fields : List (String × db.Double)) → Type 0
  AreScores [] [] = Unit
  AreScores [] (_ ∷ _) = ⊥
  AreScores (_ ∷ _) [] = ⊥
  AreScores ((peer, score) ∷ scores) ((name, value) ∷ fields) =
      IsNameOf participants peer name × (value ≡ score) × AreScores scores fields

  AreNamed-AreScores :
      (scores fields : List (String × db.Double))
      → AreNamed db (name_in participants) scores fields
      → AreScores scores fields
  AreNamed-AreScores [] [] named = tt
  AreNamed-AreScores [] (f ∷ fields) named = absurd named
  AreNamed-AreScores (s ∷ scores) [] named = absurd named
  AreNamed-AreScores ((peer, score) ∷ scores) ((name, value) ∷ fields) (found, same, named) =
      (name_in-IsNameOf participants peer name found, same, AreNamed-AreScores scores fields named)

  no_stranger :
      (scores : List (String × db.Double))
      → All (λ s. any (λ p. same_text s.0 p.0) participants ≡ true) scores
      → HasStranger db (name_in participants) scores
      → ⊥
  no_stranger [] known stranger = stranger
  no_stranger ((peer, score) ∷ scores) known (inl unknown) =
      known_name participants peer known.0 unknown
  no_stranger ((peer, score) ∷ scores) known (inr later) = no_stranger scores known.1 later

  -- If each peer with a score is a participant, the record of the scores does not panic and the
  -- query, which is sent if there is a score, has one field for each score, in order, under the
  -- name of the last participant with that peer id.
  pub named_scores_query_outcome :
      (now : db.Time) (instance_peer_id instance_name run_id : String)
      (scores : List (String × db.Double))
      → All (λ s. any (λ p. same_text s.0 p.0) participants ≡ true) scores
      → (fields : List (String × db.Double)) × AreScores scores fields
        × (named_scores_query db now instance_peer_id instance_name run_id
              (name_in participants)
              scores
            ≡ ok (scores_query db now instance_peer_id instance_name run_id scores fields))
  named_scores_query_outcome now peer_id name run_id scores known =
      elim (named_scores_query-cases db (name_in participants) now peer_id name run_id scores) [
        | inl (stranger, _) ↦ absurd (no_stranger scores known stranger)
        | inr (fields, named, outcome) ↦ (fields, AreNamed-AreScores scores fields named, outcome)
      ]
