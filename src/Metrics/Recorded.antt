-- ===== src/Metrics/Recorded.antt =====
-- When `record_metrics` of the plan scoring has the queries that it sends.
use text.Mathlib.TextEquality.{eq_iff}
use gossipsub_testground.Base.{
  same_text, ◌≡◌, refl, sym, ap, ◌∙◌, ◌⊎◌, inl, inr, List, [], ◌∷◌, ◌++◌, none, some, ok, for_each,
  map, find, All, Option-cases, String,
}
use gossipsub_testground.Metrics.Model.{with_underscore, Influx, MetricFamily}
use gossipsub_testground.Metrics.Queries.{
  skip, as_counter, saturating_sub, duplicate_queries, family_queries, families_queries, concat,
}
use gossipsub_testground.Metrics.Outcomes.{IsIntCounter, counted_all, counter_queries_good}
use gossipsub_testground.Metrics.Joins.{find-All, joined, join_queries_outcome}
use gossipsub_testground.Metrics.Scoring.{pkg_name, handling, tagged_query, metrics_queries}

module _ {db : Influx} where
  -- A family that the plan skips, or whose metrics are counters with integer counts.
  abbrev pub IsRecordable : MetricFamily db → Type 0
  IsRecordable f =
      (handling f.name ≡ some skip)
      ⊎ ((handling f.name ≡ some as_counter) × All IsIntCounter f.metrics)

  -- The queries of the families that the plan does not skip.
  abbrev pub recorded : (String → db.Query) → List (MetricFamily db) → List db.Query
  recorded tagged [] = []
  recorded tagged (f ∷ fs) = elim (handling f.name) [
    | some as_counter ↦ counted_all (tagged f.name) f.metrics ++ recorded tagged fs
    | _ ↦ recorded tagged fs
  ]

  -- The queries for the duplicates: the join of the first two families with the names.
  abbrev pub duplicates : db.Query → List (MetricFamily db) → List db.Query
  duplicates tagged fs = elim (find (λ f. same_text f.name "topic_msg_recv_counts_unfiltered") fs) [
    | none ↦ []
    | some unfiltered ↦ elim (find (λ f. same_text f.name "topic_msg_recv_counts") fs) [
      | none ↦ []
      | some recvd ↦ concat (map (joined tagged saturating_sub recvd.metrics) unfiltered.metrics)
    ]
  ]

  -- The two families that are joined have integer counters if each family that is good has.
  abbrev pub JoinsCounters : (MetricFamily db → Type 0) → Type 0
  JoinsCounters Good =
      (f : MetricFamily db)
      → (f.name ≡ "topic_msg_recv_counts_unfiltered") ⊎ (f.name ≡ "topic_msg_recv_counts")
      → Good f
      → All IsIntCounter f.metrics

  module _ (Good : MetricFamily db → Type 0) (counters : JoinsCounters Good) where
    named_good :
        (name : String) (fs : List (MetricFamily db)) (f : MetricFamily db)
        → find (λ g. same_text g.name name) fs ≡ some f
        → All Good fs
        → Good f × (f.name ≡ name)
    named_good name fs f found good =
        let (h, same) = find-All Good (λ g. same_text g.name name) fs f found good in
        (h, (eq_iff f.name name).0 same)

    pub duplicates_lem :
        (tagged : db.Query) (fs : List (MetricFamily db))
        → All Good fs
        → duplicate_queries db tagged fs ≡ ok (duplicates tagged fs)
    unfolding duplicate_queries
    duplicates_lem tagged fs good =
        elim (Option-cases (find (λ f. same_text f.name "topic_msg_recv_counts_unfiltered") fs)) [
          | inl missing ↦ rw (duplicate_queries, duplicates, missing) refl
          | inr (u, found) ↦
              elim (Option-cases (find (λ f. same_text f.name "topic_msg_recv_counts") fs)) [
                | inl missing ↦ rw (duplicate_queries, duplicates, found, missing) refl
                | inr (r, found') ↦
                    let (good_u, name_u) =
                      named_good "topic_msg_recv_counts_unfiltered" fs u found good in
                    let (good_r, name_r) = named_good "topic_msg_recv_counts" fs r found' good in
                    rw
                      (
                        duplicate_queries,
                        duplicates,
                        found,
                        found',
                        join_queries_outcome tagged saturating_sub r
                            (counters r (inr name_r) good_r) u (counters u (inl name_u) good_u),
                      )
                      refl
              ]
        ]

  IsRecordable-counters : JoinsCounters IsRecordable
  unfolding handling
  IsRecordable-counters f (inl named) (inl skipped) = absurd (cc (skipped, ap handling named))
  IsRecordable-counters f (inr named) (inl skipped) = absurd (cc (skipped, ap handling named))
  IsRecordable-counters f named (inr (_, counters)) = counters

  module _ (tagged : String → db.Query) where
    family_lem :
        (f : MetricFamily db) (fs : List (MetricFamily db))
        → IsRecordable f
        → (qs : List db.Query) × (family_queries db handling tagged f ≡ ok qs)
          × (recorded tagged (f ∷ fs) ≡ qs ++ recorded tagged fs)
    unfolding family_queries
    family_lem f fs (inl skipped) =
        ([], rw (family_queries, skipped) refl, rw (recorded, skipped) refl)
    family_lem f fs (inr (counter, counters)) = (
      counted_all (tagged f.name) f.metrics,
      rw (family_queries, counter) (counter_queries_good (tagged f.name) f counters),
      rw (recorded, counter) refl,
    )

    families_lem :
        (fs : List (MetricFamily db))
        → All IsRecordable fs
        → (qss : List (List db.Query)) × (for_each (family_queries db handling tagged) fs ≡ ok qss)
          × (concat qss ≡ recorded tagged fs)
    families_lem [] good = ([], refl, refl)
    families_lem (f ∷ fs) (h, good) =
        let (qs, e, here) = family_lem f fs h in
        let (qss, es, rest) = families_lem fs good in
        (qs ∷ qss, rw (e, es) refl, ap (λ t. qs ++ t) rest ∙ sym here)

  -- If each family has a name that the plan knows, and each that it does not skip has counters with
  -- one point and an integer count, then `record_metrics` does not panic. It sends one query for
  -- each metric of the families that are not skipped, in their order, and then one for each metric
  -- of `topic_msg_recv_counts_unfiltered` whose labels a metric of `topic_msg_recv_counts` has,
  -- with the difference of the two counts, cut off at zero.
  pub metrics_queries_outcome :
      (datetime : db.Time) (peer_id run_id : String) (fs : List (MetricFamily db))
      → All IsRecordable fs
      → metrics_queries db datetime peer_id run_id fs
        ≡ ok (
            recorded
              (λ name. tagged_query db datetime peer_id run_id (with_underscore pkg_name name))
              fs
            ++ duplicates
                (tagged_query db datetime peer_id run_id
                  (with_underscore pkg_name "topic_msg_recv_counts_duplicates"))
                fs)
  unfolding metrics_queries families_queries
  metrics_queries_outcome datetime peer_id run_id fs good =
      let (qss, e, made) =
        families_lem
          (λ name. tagged_query db datetime peer_id run_id (with_underscore pkg_name name)) fs
          good in
      rw
        (
          e,
          duplicates_lem IsRecordable IsRecordable-counters
              (tagged_query db datetime peer_id run_id
                (with_underscore pkg_name "topic_msg_recv_counts_duplicates"))
              fs good,
          made,
        )
        refl
