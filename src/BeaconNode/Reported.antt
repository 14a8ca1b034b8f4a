-- ===== src/BeaconNode/Reported.antt =====
-- The reports of a node of the plan scoring, row by row: a measurement, an epoch and a count.
use gossipsub_testground.Base.{
  ℕ, suc, ◌≡◌, refl, subst, All, List, [], ◌∷◌, ◌++◌, map, Option, some, ok, for_each, length,
  String, arith,
}
use gossipsub_testground.Metrics.Model.{with_underscore, unsigned, Influx}
use gossipsub_testground.Metrics.Scoring.{pkg_name}
use gossipsub_testground.BeaconNode.{Epochs, Received}
use gossipsub_testground.BeaconNode.Log.{HasTables}
use gossipsub_testground.BeaconNode.Reports.{
  epoch_query, record_received_beacon_blocks, record_received_message_count_per_epoch,
  record_received_attestations, record_received,
}

pub record Row : Type 0 where
  pub measurement : String
  pub epoch : ℕ
  pub count : ℕ

-- One row for each epoch.
abbrev pub rows : String → Epochs → List Row
rows measurement [] = []
rows measurement ((epoch, entries) ∷ m) =
    record { measurement = measurement; epoch = epoch; count = length entries } ∷ rows measurement m

module _ (show : ℕ → String) where
  -- The rows of the tables of the subnets from `subnet_id` on.
  abbrev pub subnet_rows : (measurement : String) (subnet_id : ℕ) → List Epochs → List Row
  subnet_rows measurement subnet_id [] = []
  subnet_rows measurement subnet_id (m ∷ ms) =
      rows (with_underscore (with_underscore pkg_name measurement) (show subnet_id)) m
      ++ subnet_rows measurement (suc subnet_id) ms

  abbrev pub reported : Received → List Row
  reported s =
      rows (with_underscore pkg_name "beacon_block") s.received_beacon_blocks
      ++ (subnet_rows "attestations" 0 s.received_attestations
          ++ (subnet_rows "aggregates" 0 s.received_aggregates
              ++ (subnet_rows "sync_committee_aggregates" 0 s.received_sync_committee_aggregates
                  ++ subnet_rows "sync_committee_messages" 0 s.received_sync_committee_messages)))

All-split : {A : Type 0} (P : A → Type 0) (xs ys : List A) → All P (xs ++ ys) → All P xs × All P ys
All-split P [] ys h = (tt, h)
All-split P (x ∷ xs) ys (here, h) = let (left, right) = All-split P xs ys h in ((here, left), right)

map-append : {A B : Type 0} (f : A → B) (xs ys : List A) → map f (xs ++ ys) ≡ map f xs ++ map f ys
map-append f [] ys = refl
map-append f (x ∷ xs) ys = rw (map-append f xs ys)

four :
    {A : Type 0} (xs : List A)
    → length xs ≡ 4
    → (a : A) × (b : A) × (c : A) × (d : A) × (xs ≡ a ∷ b ∷ c ∷ d ∷ [])
four [] h = absurd (omega arith)
four (a ∷ []) h = absurd (omega arith)
four (a ∷ b ∷ []) h = absurd (omega arith)
four (a ∷ b ∷ c ∷ []) h = absurd (omega arith)
four (a ∷ b ∷ c ∷ d ∷ []) h = (a, b, c, d, refl)
four (a ∷ b ∷ c ∷ d ∷ e ∷ xs) h = absurd (omega arith)

module _ (db : Influx) (show : ℕ → String) (peer_id run_id : String) (time_of : ℕ → db.Time) where
  -- The query of a row.
  abbrev pub row_query : Row → db.Query
  row_query row = db.add_field "count" (unsigned row.count) (
      db.add_tag "epoch" (show row.epoch) (
        db.add_tag "run_id" run_id
          (db.add_tag "peer_id" peer_id (db.new_query (time_of row.epoch) row.measurement))))

module _ (db : Influx) (timestamp : ℕ → Option db.Time) (show : ℕ → String)
    (peer_id run_id : String) (time_of : ℕ → db.Time) where
  -- The clock knows when the epoch of a row starts.
  abbrev pub IsTimed : Row → Type 0
  IsTimed row = timestamp row.epoch ≡ some (time_of row.epoch)

  epochs-rows :
      (measurement : String) (m : Epochs)
      → All IsTimed (rows measurement m)
      → for_each (epoch_query db timestamp show peer_id run_id measurement) m
        ≡ ok (map (row_query db show peer_id run_id time_of) (rows measurement m))
  unfolding epoch_query
  epochs-rows measurement [] timed = refl
  epochs-rows measurement ((epoch, entries) ∷ m) (has_time, timed) =
      rw (has_time, epochs-rows measurement m timed) refl

  subnets-rows :
      (measurement : String) (messages : List Epochs)
      → length messages ≡ 4
      → All IsTimed (subnet_rows show measurement 0 messages)
      → record_received_message_count_per_epoch db timestamp show peer_id run_id measurement 4
          messages
        ≡ ok (
            map
              (row_query db show peer_id run_id time_of)
              (subnet_rows show measurement 0 messages))
  unfolding record_received_message_count_per_epoch
  subnets-rows measurement messages h timed =
      let (a, b, c, d, same) = four messages h in
      let known : All IsTimed (subnet_rows show measurement 0 (a ∷ b ∷ c ∷ d ∷ [])) =
        subst (λ l. All IsTimed (subnet_rows show measurement 0 l)) same timed in
      let (in_a, from_b) = All-split IsTimed _ _ known in
      let (in_b, from_c) = All-split IsTimed _ _ from_b in
      let (in_c, from_d) = All-split IsTimed _ _ from_c in
      let (in_d, _) = All-split IsTimed _ _ from_d in
      rw same (
        rw (epochs-rows _ a in_a, epochs-rows _ b in_b, epochs-rows _ c in_c, epochs-rows _ d in_d)
          (simp map-append))

  -- The reports of a node with a table for each subnet are one query for each row, in order.
  pub record_received-reported :
      (s : Received)
      → HasTables s
      → All IsTimed (reported show s)
      → record_received db timestamp show peer_id run_id s
        ≡ ok (map (row_query db show peer_id run_id time_of) (reported show s))
  unfolding record_received record_received_beacon_blocks record_received_attestations
  record_received-reported s tables timed =
      let (blocks, more) = All-split IsTimed _ _ timed in
      let (attestations, more') = All-split IsTimed _ _ more in
      let (aggregates, more'') = All-split IsTimed _ _ more' in
      let (sync_aggregates, sync_messages) = All-split IsTimed _ _ more'' in
      rw
        (
          epochs-rows (with_underscore pkg_name "beacon_block") s.received_beacon_blocks blocks,
          subnets-rows "attestations" s.received_attestations tables.of_attestations attestations,
          subnets-rows "aggregates" s.received_aggregates tables.of_aggregates aggregates,
          subnets-rows "sync_committee_aggregates" s.received_sync_committee_aggregates
              tables.of_sync_aggregates sync_aggregates,
          subnets-rows "sync_committee_messages" s.received_sync_committee_messages
              tables.of_sync_messages sync_messages,
        )
        (simp map-append)
