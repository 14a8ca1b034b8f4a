-- ===== src/Metrics/Outcomes.antt =====
-- When the queries of a family of counters are made, and which they are.
use gossipsub_testground.Base.{
  ℕ, suc, ◌≡◌, refl, ap, ◌⊎◌, inl, inr, List, [], ◌∷◌, Option, none, some, true, false, Outcome, ok,
  err, panic, ◌>>=◌, expect, for_each, All, any, length,
}
use gossipsub_testground.Metrics.Model.{
  Never, unsigned, Influx, Label, int_value, double_value, Value, counter_value, gauge_value,
  histogram_value, other_value, Metric, MetricFamily,
}
use gossipsub_testground.Metrics.Queries.{
  point_value, counter_of, get_counter_value, add_labels, counter_query, counter_queries,
}

no_value :
    {A B F : Type 0} (o : Outcome Never (Option A × F)) (f : A → B)
    → (o >>= λ value. expect value.0) ≡ panic
    → (do value ← o; count ← expect value.0; ok (f count)) ≡ panic
no_value panic f e = refl
no_value (err x) f e = absurd cc
no_value (ok (none, y)) f e = refl
no_value (ok (some x, y)) f e = absurd cc

module _ {db : Influx} where
  abbrev count_in : Value db → Option ℕ
  count_in (counter_value (some (int_value i))) = some i
  count_in (counter_value (some (double_value f))) = none
  count_in (counter_value none) = none
  count_in (gauge_value _) = none
  count_in (histogram_value _) = none
  count_in other_value = none

  abbrev count_at : List (Option (Value db)) → Option ℕ
  count_at [] = none
  count_at (none ∷ r) = none
  count_at (some v ∷ []) = count_in v
  count_at (some v ∷ p ∷ r) = none

  -- The count of a counter with one point and an integer value.
  abbrev pub int_count : Metric db → Option ℕ
  int_count m = count_at m.metric_points

  abbrev pub IsIntCounter : Metric db → Type 0
  IsIntCounter m = (i : ℕ) × (int_count m ≡ some i)

  counter_in :
      (v : Value db)
      → ((count_in v ≡ none) × ((counter_of db v >>= λ value. expect value.0) ≡ panic))
        ⊎ ((i : ℕ) × (count_in v ≡ some i) × (counter_of db v ≡ ok (some i, none)))
  unfolding counter_of
  counter_in (counter_value (some (int_value i))) = inr (i, refl, refl)
  counter_in (counter_value (some (double_value f))) = inl (refl, refl)
  counter_in (counter_value none) = inl (refl, refl)
  counter_in (gauge_value _) = inl (refl, refl)
  counter_in (histogram_value _) = inl (refl, refl)
  counter_in other_value = inl (refl, refl)

  counter_at :
      (ls : List Label) (ps : List (Option (Value db)))
      → ((count_at ps ≡ none)
          × ((get_counter_value db (record { labels = ls; metric_points = ps }) >>= λ value.
                expect value.0)
              ≡ panic))
        ⊎ ((i : ℕ) × (count_at ps ≡ some i)
            × (get_counter_value db (record { labels = ls; metric_points = ps })
                ≡ ok (some i, none)))
  unfolding get_counter_value point_value
  counter_at ls [] = inl (refl, refl)
  counter_at ls (none ∷ []) = inl (refl, refl)
  counter_at ls (none ∷ p ∷ r) = inl (refl, refl)
  counter_at ls (some v ∷ []) = counter_in v
  counter_at ls (some v ∷ p ∷ r) = inl (refl, refl)

  pub get_counter_value_lem :
      (m : Metric db)
      → ((int_count m ≡ none) × ((get_counter_value db m >>= λ value. expect value.0) ≡ panic))
        ⊎ ((i : ℕ) × (int_count m ≡ some i) × (get_counter_value db m ≡ ok (some i, none)))
  get_counter_value_lem m = counter_at m.labels m.metric_points

  -- The query of a counter with the count `i`.
  abbrev pub counted : db.Query → Metric db → ℕ → db.Query
  counted tagged m i = add_labels db m.labels (db.add_field "count" (unsigned i) tagged)

  abbrev pub IsPanicOf : Outcome Never (List db.Query) → List (Metric db) → Type 0
  IsPanicOf o ms =
      (any (λ m. elim (int_count m) [ none ↦ true | some _ ↦ false ]) ms ≡ true) × (o ≡ panic)

  -- The queries of metrics that all have a count, in the order of the metrics.
  abbrev pub counted_all : db.Query → List (Metric db) → List db.Query
  counted_all tagged [] = []
  counted_all tagged (m ∷ ms) = elim (int_count m) [
    | none ↦ counted_all tagged ms
    | some i ↦ counted tagged m i ∷ counted_all tagged ms
  ]

  pub counter_query_lem :
      (tagged : db.Query) (m : Metric db)
      → ((int_count m ≡ none) × (counter_query db tagged m ≡ panic))
        ⊎ ((i : ℕ) × (int_count m ≡ some i) × (counter_query db tagged m ≡ ok (counted tagged m i)))
  unfolding counter_query
  counter_query_lem tagged m = elim (get_counter_value_lem m) [
    | inl (no_count, e) ↦
        inl (no_count, no_value (get_counter_value db m) (λ count. counted tagged m count) e)
    | inr (i, count, e) ↦ inr (i, count, rw (counter_query, e) refl)
  ]

  length-counted_all :
      (tagged : db.Query) (ms : List (Metric db))
      → All IsIntCounter ms
      → length (counted_all tagged ms) ≡ length ms
  length-counted_all tagged [] good = refl
  length-counted_all tagged (m ∷ ms) ((i, count), good) =
      rw (counted_all, count) (ap suc (length-counted_all tagged ms good))

  counter_metrics :
      (tagged : db.Query) (ms : List (Metric db))
      → IsPanicOf (for_each (counter_query db tagged) ms) ms
        ⊎ (All IsIntCounter ms
            × (for_each (counter_query db tagged) ms ≡ ok (counted_all tagged ms)))
  counter_metrics tagged [] = inr (tt, refl)
  counter_metrics tagged (m ∷ ms) = elim (counter_query_lem tagged m) [
    | inl (no_count, e) ↦ inl (rw no_count refl, rw e refl)
    | inr (i, count, e) ↦ elim (counter_metrics tagged ms) [
      | inl (bad, e') ↦ inl (rw count bad, rw (e, e') refl)
      | inr (good, e') ↦ inr (((i, count), good), rw (e, e', counted_all, count) refl)
    ]
  ]

  -- The queries of a family of counters: if each metric has one point with an integer count, there
  -- is one query for each metric, with that count and with the metric's labels as tags, in the
  -- order of the metrics; and if some metric has not, the function panics.
  pub counter_queries_outcome :
      (tagged : db.Query) (family : MetricFamily db)
      → IsPanicOf (counter_queries db tagged family) family.metrics
        ⊎ (All IsIntCounter family.metrics
            × (counter_queries db tagged family ≡ ok (counted_all tagged family.metrics))
            × (length (counted_all tagged family.metrics) ≡ length family.metrics))
  unfolding counter_queries
  counter_queries_outcome tagged family = elim (counter_metrics tagged family.metrics) [
    | inl bad ↦ inl bad
    | inr (good, e) ↦ inr (good, e, length-counted_all tagged family.metrics good)
  ]

  pub counter_queries_good :
      (tagged : db.Query) (family : MetricFamily db)
      → All IsIntCounter family.metrics
      → counter_queries db tagged family ≡ ok (counted_all tagged family.metrics)
  unfolding counter_queries
  counter_queries_good tagged family good = goods family.metrics good
    where
      goods :
          (ms : List (Metric db))
          → All IsIntCounter ms
          → for_each (counter_query db tagged) ms ≡ ok (counted_all tagged ms)
      goods [] h = refl
      goods (m ∷ ms) ((i, count), h) = elim (counter_query_lem tagged m) [
        | inl (no_count, e) ↦ absurd cc
        | inr (j, count', e) ↦ rw (e, goods ms h, counted_all, count') refl
      ]
