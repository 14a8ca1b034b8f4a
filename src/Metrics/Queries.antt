-- ===== src/Metrics/Queries.antt =====
-- The values of metrics and the queries made of them, which the three plans share: each plan gives
-- the query that the fields and labels go onto. `unreachable!()` and a failed `assert_eq!` panic.
use gossipsub_testground.Base.{
  same_text, ℕ, ◌-◌, List, [], ◌∷◌, ◌++◌, Option, none, some, Bool, ◌&&◌, Outcome, ok, panic, ◌>>=◌,
  expect, for_each, any, all, find, map, String,
}
use gossipsub_testground.Metrics.Model.{
  Never, unsigned, signed, double, Influx, Label, int_value, double_value, gauge_int, gauge_double,
  Bucket, Value, counter_value, gauge_value, histogram_value, other_value, Metric, MetricFamily,
}

-- `extend` over a list of lists.
abbrev pub concat : {A : Type 0} → List (List A) → List A
concat [] = []
concat (xs ∷ r) = xs ++ concat r

-- `u64::saturating_sub`, which the subtraction of natural numbers is.
abbrev pub saturating_sub : ℕ → ℕ → ℕ
saturating_sub a b = a - b

-- What a plan does with a family of metrics.
pub data Handling : Type 0 where
  skip : Handling
  as_counter : Handling
  as_gauge : String → Handling
  as_histogram : Handling

abbrev pub is_one_of : String → List String → Bool
is_one_of name = any (same_text name)

module _ (db : Influx) where
  -- The value of the one metric point.
  unfoldable pub point_value : Metric db → Outcome Never (Value db)
  point_value metric = elim metric.metric_points [
    | [] ↦ panic
    | p ∷ r ↦ elim r [ [] ↦ expect p | _ ∷ _ ↦ panic ]
  ]

  unfoldable pub counter_of : Value db → Outcome Never (Option ℕ × Option db.Double)
  counter_of (counter_value (some (int_value i))) = ok (some i, none)
  counter_of (counter_value (some (double_value f))) = ok (none, some f)
  counter_of (counter_value none) = panic
  counter_of (gauge_value _) = panic
  counter_of (histogram_value _) = panic
  counter_of other_value = panic

  unfoldable pub get_counter_value : Metric db → Outcome Never (Option ℕ × Option db.Double)
  get_counter_value metric = do value ← point_value metric; counter_of value

  unfoldable pub gauge_of : Value db → Outcome Never (Option db.Signed × Option db.Double)
  gauge_of (gauge_value (some (gauge_int i))) = ok (some i, none)
  gauge_of (gauge_value (some (gauge_double f))) = ok (none, some f)
  gauge_of (gauge_value none) = panic
  gauge_of (counter_value _) = panic
  gauge_of (histogram_value _) = panic
  gauge_of other_value = panic

  unfoldable pub get_gauge_value : Metric db → Outcome Never (Option db.Signed × Option db.Double)
  get_gauge_value metric = do value ← point_value metric; gauge_of value

  unfoldable pub histogram_of : Value db → Outcome Never (List (Bucket db))
  histogram_of (histogram_value buckets) = ok buckets
  histogram_of (counter_value _) = panic
  histogram_of (gauge_value _) = panic
  histogram_of other_value = panic

  unfoldable pub get_histogram_value : Metric db → Outcome Never (List (Bucket db))
  get_histogram_value metric = do value ← point_value metric; histogram_of value

  -- `for l in &metric.labels { query = query.add_tag(..) }`
  unfoldable pub add_labels : List Label → db.Query → db.Query
  add_labels [] query = query
  add_labels (l ∷ r) query = add_labels r (db.add_tag l.name l.value query)

  -- A round of the loop of `queries_for_counter` on the query that has its tags.
  unfoldable pub counter_query : db.Query → Metric db → Outcome Never db.Query
  counter_query tagged metric = do
    value ← get_counter_value metric
    count ← expect value.0
    ok (add_labels metric.labels (db.add_field "count" (unsigned count) tagged))

  unfoldable pub counter_queries : db.Query → MetricFamily db → Outcome Never (List db.Query)
  counter_queries tagged family = for_each (counter_query tagged) family.metrics

  unfoldable pub gauge_query : String → db.Query → Metric db → Outcome Never db.Query
  gauge_query field_name tagged metric = do
    value ← get_gauge_value metric
    gauge ← expect value.0
    ok (add_labels metric.labels (db.add_field field_name (signed gauge) tagged))

  unfoldable pub gauge_queries : String → db.Query → MetricFamily db → Outcome Never (List db.Query)
  gauge_queries field_name tagged family = for_each (gauge_query field_name tagged) family.metrics

  unfoldable pub bucket_query : db.Query → Metric db → Bucket db → db.Query
  bucket_query tagged metric bucket = add_labels metric.labels (
      db.add_field "upper_bound" (double bucket.upper_bound)
        (db.add_field "count" (unsigned bucket.count) tagged))

  unfoldable pub histogram_queries : db.Query → MetricFamily db → Outcome Never (List db.Query)
  histogram_queries tagged family = do
    queries ←
        for_each
          (λ metric. do
            buckets ← get_histogram_value metric
            ok (map (bucket_query tagged metric) buckets))
          family.metrics
    ok (concat queries)

  -- The closure of `find`: the other metric has every label of this one.
  unfoldable pub has_labels : Metric db → Metric db → Bool
  has_labels metric other =
      all
        (λ label.
          any (λ l. same_text l.name label.name && same_text l.value label.value) other.labels)
        metric.labels

  unfoldable pub other_value_of : MetricFamily db → Metric db → Outcome Never (Option ℕ)
  other_value_of family2 metric = elim (find (has_labels metric) family2.metrics) [
    | none ↦ ok none
    | some m ↦ do value ← get_counter_value m; ok value.0
  ]

  -- A round of the loop of `queries_for_counter_join`: no query if there is no value to join.
  unfoldable pub join_query :
      db.Query → (ℕ → ℕ → ℕ) → MetricFamily db → Metric db → Outcome Never (List db.Query)
  join_query tagged predicate family2 metric = do
    value ← get_counter_value metric
    current_val ← expect value.0
    other_val ← other_value_of family2 metric
    ok (elim other_val [
      | none ↦ []
      | some other ↦
          add_labels metric.labels
            (db.add_field "count" (unsigned (predicate current_val other)) tagged)
          ∷ []
    ])

  unfoldable pub join_queries :
      db.Query → (ℕ → ℕ → ℕ) → MetricFamily db → MetricFamily db → Outcome Never (List db.Query)
  join_queries tagged predicate family1 family2 = do
    queries ← for_each (join_query tagged predicate family2) family1.metrics
    ok (concat queries)

  -- The two families that are joined at the end of `record_metrics`.
  unfoldable pub duplicate_queries :
      db.Query → List (MetricFamily db) → Outcome Never (List db.Query)
  duplicate_queries tagged families =
      elim (find (λ f. same_text f.name "topic_msg_recv_counts_unfiltered") families) [
        | none ↦ ok []
        | some recvd_unfiltered ↦
            elim (find (λ f. same_text f.name "topic_msg_recv_counts") families) [
              | none ↦ ok []
              | some recvd ↦ join_queries tagged saturating_sub recvd_unfiltered recvd
            ]
      ]

  -- A round of the loop of `record_metrics` over the families, by what `match` says of the name.
  unfoldable pub family_queries :
      (String → Option Handling)
      → (String → db.Query)
      → MetricFamily db
      → Outcome Never (List db.Query)
  family_queries handling tagged family = elim (handling family.name) [
    | none ↦ panic
    | some skip ↦ ok []
    | some as_counter ↦ counter_queries (tagged family.name) family
    | some (as_gauge field_name) ↦ gauge_queries field_name (tagged family.name) family
    | some as_histogram ↦ histogram_queries (tagged family.name) family
  ]

  unfoldable pub families_queries :
      (String → Option Handling)
      → (String → db.Query)
      → List (MetricFamily db)
      → Outcome Never (List db.Query)
  families_queries handling tagged families = do
    queries ← for_each (family_queries handling tagged) families
    ok (concat queries)
