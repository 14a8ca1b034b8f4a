-- ===== src/Metrics/Joins.antt =====
-- The join of two families of counters, by which the plans count the duplicates.
use gossipsub_testground.Base.{
  ℕ, ◌≡◌, refl, sym, ap, ◌∙◌, inl, inr, List, [], ◌∷◌, none, some, Bool, true, ok, for_each, map,
  find, All, Option-cases, Bool-cases, arith,
}
use gossipsub_testground.Metrics.Model.{Influx, Metric, MetricFamily}
use gossipsub_testground.Metrics.Queries.{
  get_counter_value, has_labels, other_value_of, join_query, join_queries, concat,
}
use gossipsub_testground.Metrics.Outcomes.{int_count, IsIntCounter, counted, get_counter_value_lem}

pub find-All :
    {A : Type 0} (P : A → Type 0) (p : A → Bool) (xs : List A) (x : A)
    → find p xs ≡ some x
    → All P xs
    → P x × (p x ≡ true)
find-All P p [] x e h = absurd cc
find-All P p (y ∷ ys) x e (h, hs) = elim (Bool-cases (p y)) [
  | inl holds ↦ let same : y ≡ x = ground (arith, holds, e) in rw (sym same) (h, holds)
  | inr other ↦ find-All P p ys x (ground (arith, other, e)) hs
]

module _ {db : Influx} where
  pub int_counter_value :
      (m : Metric db) (i : ℕ) → int_count m ≡ some i → get_counter_value db m ≡ ok (some i, none)
  int_counter_value m i count = elim (get_counter_value_lem m) [
    | inl (no_count, e) ↦ absurd cc
    | inr (j, count', e) ↦ let same : j ≡ i = cc in rw (sym same) e
  ]

  abbrev pub count_or_zero : Metric db → ℕ
  count_or_zero m = elim (int_count m) [ none ↦ 0 | some i ↦ i ]

  the_count : (m : Metric db) (i : ℕ) → int_count m ≡ some i → i ≡ count_or_zero m
  the_count m i count = rw (count_or_zero, count) refl

  -- What the join makes of a metric: its count and that of the first metric that has its labels.
  abbrev pub joined : db.Query → (ℕ → ℕ → ℕ) → List (Metric db) → Metric db → List db.Query
  joined tagged predicate others m = elim (find (has_labels db m) others) [
    | none ↦ []
    | some o ↦ counted tagged m (predicate (count_or_zero m) (count_or_zero o)) ∷ []
  ]

  module _ (tagged : db.Query) (predicate : ℕ → ℕ → ℕ) (family2 : MetricFamily db)
      (good2 : All IsIntCounter family2.metrics) where
    join_query_lem :
        (m : Metric db)
        → IsIntCounter m
        → join_query db tagged predicate family2 m ≡ ok (joined tagged predicate family2.metrics m)
    unfolding join_query other_value_of
    join_query_lem m (i, count) = elim (Option-cases (find (has_labels db m) family2.metrics)) [
      | inl missing ↦
          rw (join_query, int_counter_value m i count, other_value_of, joined, missing) refl
      | inr (o, found) ↦
          let ((j, count'), _) =
            find-All IsIntCounter (has_labels db m) family2.metrics o found good2 in
          rw
            (
              join_query,
              int_counter_value m i count,
              other_value_of,
              joined,
              found,
              int_counter_value o j count',
            )
            (ap (λ n. ok (counted tagged m n ∷ []))
              (ap (λ n. predicate n j) (the_count m i count)
                ∙ ap (predicate (count_or_zero m)) (the_count o j count')))
    ]

    joins :
        (ms : List (Metric db))
        → All IsIntCounter ms
        → for_each (join_query db tagged predicate family2) ms
          ≡ ok (map (joined tagged predicate family2.metrics) ms)
    joins [] good = refl
    joins (m ∷ ms) (h, good) = rw (join_query_lem m h, joins ms good) refl

    -- The join of two families of counters with integer counts does not panic. Each metric of the
    -- first family gives at most one query, in the order of the metrics: none if no metric of the
    -- second family has all its labels, and else one with its labels and with the predicate of its
    -- count and of the count of the first such metric.
    pub join_queries_outcome :
        (family1 : MetricFamily db)
        → All IsIntCounter family1.metrics
        → join_queries db tagged predicate family1 family2
          ≡ ok (concat (map (joined tagged predicate family2.metrics) family1.metrics))
    unfolding join_queries
    join_queries_outcome family1 good1 = rw (joins family1.metrics good1) refl
