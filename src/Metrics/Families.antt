-- ===== src/Metrics/Families.antt =====
-- The loops over metrics and over families, for each kind of metric and any table of names: when they
-- panic, and which queries they make otherwise.
use gossipsub_testground.Base.{
  ◌≡◌, refl, ◌⊎◌, inl, inr, List, [], ◌∷◌, Option, none, some, Outcome, ok, panic, ◌>>=◌, for_each,
  map, All, String,
}
use gossipsub_testground.Metrics.Model.{
  Never, signed, Influx, Label, gauge_int, gauge_double, Value, counter_value, gauge_value,
  histogram_value, other_value, Metric, MetricFamily, Bucket,
}
use gossipsub_testground.Metrics.Queries.{
  point_value, gauge_of, get_gauge_value, histogram_of, get_histogram_value, add_labels,
  counter_query, counter_queries, gauge_query, gauge_queries, bucket_query, histogram_queries,
  Handling, skip, as_counter, as_gauge, as_histogram, family_queries, families_queries, concat,
}
use gossipsub_testground.Metrics.Outcomes.{int_count, counted, counter_query_lem}

-- Either all are good and the outcome has the queries, or it is a panic and not all are good.
abbrev pub Either : {B : Type 0} (Good : Type 0) → Outcome Never B → B → Type 0
Either Good o result = (Good × (o ≡ ok result)) ⊎ ((¬ Good) × (o ≡ panic))

module _ {A B : Type 0} {P : A → Type 0} (F : A → Outcome Never B) (g : A → B) where
  for_each-Either :
      ((x : A) → Either (P x) (F x) (g x))
      → (xs : List A) → Either (All P xs) (for_each F xs) (map g xs)
  for_each-Either cases [] = inl (tt, refl)
  for_each-Either cases (x ∷ xs) = elim (cases x) [
    | inr (bad, e) ↦ inr (λ (h, hs). bad h, rw e refl)
    | inl (good, e) ↦ elim (for_each-Either cases xs) [
      | inr (bad, e') ↦ inr (λ (h, hs). bad hs, rw (e, e') refl)
      | inl (goods, e') ↦ inl ((good, goods), rw (e, e') refl)
    ]
  ]

-- What is made of the elements that have a value.
abbrev pub made : {A B C : Type 0} → (A → Option C) → (A → C → B) → List A → List B
made f h [] = []
made f h (x ∷ xs) = elim (f x) [ none ↦ made f h xs | some c ↦ h x c ∷ made f h xs ]

abbrev pub Has : {A C : Type 0} → (A → Option C) → A → Type 0
Has {C = C} f x = (c : C) × (f x ≡ some c)

module _ {A B C : Type 0} (F : A → Outcome Never B) (f : A → Option C) (h : A → C → B) where
  for_each-made :
      ((x : A) → ((f x ≡ none) × (F x ≡ panic)) ⊎ ((c : C) × (f x ≡ some c) × (F x ≡ ok (h x c))))
      → (xs : List A) → Either (All (Has f) xs) (for_each F xs) (made f h xs)
  for_each-made cases [] = inl (tt, refl)
  for_each-made cases (x ∷ xs) = elim (cases x) [
    | inl (no_value, e) ↦ inr (λ ((c, value), hs). cc, rw e refl)
    | inr (c, value, e) ↦ elim (for_each-made cases xs) [
      | inr (bad, e') ↦ inr (λ (h, hs). bad hs, rw (e, e') refl)
      | inl (goods, e') ↦ inl (((c, value), goods), rw (e, e', made, value) refl)
    ]
  ]

module _ {db : Influx} where
  -- The value of the one point.
  abbrev point_of : List (Option (Value db)) → Option (Value db)
  point_of [] = none
  point_of (p ∷ []) = p
  point_of (p ∷ q ∷ r) = none

  abbrev gauge_in : Option (Value db) → Option db.Signed
  gauge_in (some (gauge_value (some (gauge_int i)))) = some i
  gauge_in (some (gauge_value (some (gauge_double f)))) = none
  gauge_in (some (gauge_value none)) = none
  gauge_in (some (counter_value _)) = none
  gauge_in (some (histogram_value _)) = none
  gauge_in (some other_value) = none
  gauge_in none = none

  abbrev buckets_in : Option (Value db) → Option (List (Bucket db))
  buckets_in (some (histogram_value buckets)) = some buckets
  buckets_in (some (gauge_value _)) = none
  buckets_in (some (counter_value _)) = none
  buckets_in (some other_value) = none
  buckets_in none = none

  -- The integer of a gauge with one point, and the buckets of a histogram with one point.
  abbrev pub int_gauge : Metric db → Option db.Signed
  int_gauge m = gauge_in (point_of m.metric_points)

  abbrev pub buckets_of : Metric db → Option (List (Bucket db))
  buckets_of m = buckets_in (point_of m.metric_points)

  abbrev pub gauged : String → db.Query → Metric db → db.Signed → db.Query
  gauged field_name tagged m i = add_labels db m.labels (db.add_field field_name (signed i) tagged)

  gauge_query_lem :
      (field_name : String) (tagged : db.Query) (m : Metric db)
      → ((int_gauge m ≡ none) × (gauge_query db field_name tagged m ≡ panic))
        ⊎ ((i : db.Signed) × (int_gauge m ≡ some i)
            × (gauge_query db field_name tagged m ≡ ok (gauged field_name tagged m i)))
  unfolding gauge_query get_gauge_value point_value gauge_of
  gauge_query_lem field_name tagged m = at m.labels m.metric_points
    where
      in_value :
          (ls : List Label) (v : Value db)
          → let q : Metric db = record { labels = ls; metric_points = some v ∷ [] } in
            ((gauge_in (some v) ≡ none) × (gauge_query db field_name tagged q ≡ panic))
            ⊎ ((i : db.Signed) × (gauge_in (some v) ≡ some i)
                × (gauge_query db field_name tagged q ≡ ok (gauged field_name tagged q i)))
      in_value ls (gauge_value (some (gauge_int i))) = inr (i, refl, refl)
      in_value ls (gauge_value (some (gauge_double f))) = inl (refl, refl)
      in_value ls (gauge_value none) = inl (refl, refl)
      in_value ls (counter_value _) = inl (refl, refl)
      in_value ls (histogram_value _) = inl (refl, refl)
      in_value ls other_value = inl (refl, refl)

      at :
          (ls : List Label) (ps : List (Option (Value db)))
          → let q : Metric db = record { labels = ls; metric_points = ps } in
            ((int_gauge q ≡ none) × (gauge_query db field_name tagged q ≡ panic))
            ⊎ ((i : db.Signed) × (int_gauge q ≡ some i)
                × (gauge_query db field_name tagged q ≡ ok (gauged field_name tagged q i)))
      at ls [] = inl (refl, refl)
      at ls (none ∷ []) = inl (refl, refl)
      at ls (none ∷ p ∷ r) = inl (refl, refl)
      at ls (some v ∷ []) = in_value ls v
      at ls (some v ∷ p ∷ r) = inl (refl, refl)

  buckets_lem :
      (m : Metric db)
      → ((buckets_of m ≡ none) × (get_histogram_value db m ≡ panic))
        ⊎ ((bs : List (Bucket db)) × (buckets_of m ≡ some bs) × (get_histogram_value db m ≡ ok bs))
  unfolding get_histogram_value point_value histogram_of
  buckets_lem m = at m.labels m.metric_points
    where
      at :
          (ls : List Label) (ps : List (Option (Value db)))
          → let q : Metric db = record { labels = ls; metric_points = ps } in
            ((buckets_of q ≡ none) × (get_histogram_value db q ≡ panic))
            ⊎ ((bs : List (Bucket db)) × (buckets_of q ≡ some bs)
                × (get_histogram_value db q ≡ ok bs))
      at ls [] = inl (refl, refl)
      at ls (none ∷ []) = inl (refl, refl)
      at ls (none ∷ p ∷ r) = inl (refl, refl)
      at ls (some (histogram_value bs) ∷ []) = inr (bs, refl, refl)
      at ls (some (gauge_value _) ∷ []) = inl (refl, refl)
      at ls (some (counter_value _) ∷ []) = inl (refl, refl)
      at ls (some other_value ∷ []) = inl (refl, refl)
      at ls (some v ∷ p ∷ r) = inl (refl, refl)

  -- What the plan needs of a family to record it, by what it does with its name.
  abbrev pub IsHandled : Option Handling → List (Metric db) → Type 0
  IsHandled none ms = ⊥
  IsHandled (some skip) ms = Unit
  IsHandled (some as_counter) ms = All (Has int_count) ms
  IsHandled (some (as_gauge field_name)) ms = All (Has int_gauge) ms
  IsHandled (some as_histogram) ms = All (Has buckets_of) ms

  -- The queries of a family that is handled, one for each metric or for each bucket of one.
  abbrev pub written : Option Handling → db.Query → List (Metric db) → List db.Query
  written none tagged ms = []
  written (some skip) tagged ms = []
  written (some as_counter) tagged ms = made int_count (counted tagged) ms
  written (some (as_gauge field_name)) tagged ms = made int_gauge (gauged field_name tagged) ms
  written (some as_histogram) tagged ms =
      concat (made buckets_of (λ m buckets. map (bucket_query db tagged m) buckets) ms)

  histogram_lem :
      (tagged : db.Query) (family : MetricFamily db)
      → Either
          (All (Has buckets_of) family.metrics)
          (histogram_queries db tagged family)
          (written (some as_histogram) tagged family.metrics)
  unfolding histogram_queries
  histogram_lem tagged family =
      elim (for_each-made
        (λ m. do buckets ← get_histogram_value db m; ok (map (bucket_query db tagged m) buckets))
        buckets_of (λ m buckets. map (bucket_query db tagged m) buckets)
        (λ m. elim (buckets_lem m) [
          | inl (missing, e) ↦ inl (missing, rw e refl)
          | inr (buckets, found, e) ↦ inr (buckets, found, rw e refl)
        ])
        family.metrics) [
          | inl (good, e) ↦ inl (good, rw e refl)
          | inr (bad, e) ↦ inr (bad, rw e refl)
        ]

  abbrev pub IsRecorded : (String → Option Handling) → MetricFamily db → Type 0
  IsRecorded handling f = IsHandled (handling f.name) f.metrics

  module _ (handling : String → Option Handling) (tagged : String → db.Query) where
    abbrev pub written_of : MetricFamily db → List db.Query
    written_of f = written (handling f.name) (tagged f.name) f.metrics

    family_queries_lem :
        (f : MetricFamily db)
        → Either (IsRecorded handling f) (family_queries db handling tagged f) (written_of f)
    unfolding family_queries counter_queries gauge_queries
    family_queries_lem f = by_handling (handling f.name) refl
      where
        by_handling :
            (h : Option Handling)
            → handling f.name ≡ h
            → Either
                (IsHandled h f.metrics)
                (family_queries db handling tagged f)
                (written h (tagged f.name) f.metrics)
        by_handling none e = inr (λ h. h, rw (family_queries, e) refl)
        by_handling (some skip) e = inl (tt, rw (family_queries, e) refl)
        by_handling (some as_counter) e =
            rw (family_queries, e)
              (for_each-made (counter_query db (tagged f.name)) int_count (counted (tagged f.name))
                (counter_query_lem (tagged f.name)) f.metrics)
        by_handling (some (as_gauge field_name)) e =
            rw (family_queries, e)
              (for_each-made (gauge_query db field_name (tagged f.name)) int_gauge
                (gauged field_name (tagged f.name)) (gauge_query_lem field_name (tagged f.name))
                f.metrics)
        by_handling (some as_histogram) e = rw (family_queries, e) (histogram_lem (tagged f.name) f)

    -- The loop over the families makes all their queries in order if each family can be recorded, and
    -- otherwise panics.
    pub families_queries_outcome :
        (fs : List (MetricFamily db))
        → Either
            (All (IsRecorded handling) fs)
            (families_queries db handling tagged fs)
            (concat (map written_of fs))
    unfolding families_queries
    families_queries_outcome fs =
        elim (for_each-Either (family_queries db handling tagged) written_of family_queries_lem
          fs) [ inl (good, e) ↦ inl (good, rw e refl) | inr (bad, e) ↦ inr (bad, rw e refl) ]
