-- ===== src/Records/Sent.antt =====
-- What is recorded when calls of InfluxDB fail, and what is recorded once in a run.
use gossipsub_testground.Base.{
  ℕ, suc, ◌+◌, ◌≡◌, refl, sym, ap, ◌∙◌, List, [], ◌∷◌, ◌++◌, append-nil, append_assoc, some, Bool,
  not, Bool-cases, inl, inr, ◌==◌, if◌then◌else◌, arith, String,
}
use gossipsub_testground.Base.Counting.{count, count_if}
use gossipsub_testground.Base.Maps.{get, keys}
use gossipsub_testground.Metrics.Model.{text, Influx}
use gossipsub_testground.Records.{
  run_query, record_run_id, record_victim_id, Database, record_metric, send_all,
}

module _ {Query : Type 0} (accepts : Query → Bool) where
  -- The queries that the database accepts, in their order.
  abbrev pub accepted : List Query → List Query
  accepted [] = []
  accepted (query ∷ queries) =
      let rest = accepted queries in if accepts query then query ∷ rest else rest

  -- The queries that the database accepts are recorded in order, and each other one is a logged failure.
  pub send_all_outcome :
      (queries : List Query) (s : Database accepts)
      → ((send_all accepts queries s).recorded ≡ s.recorded ++ accepted queries)
        × ((send_all accepts queries s).failures
            ≡ s.failures + count_if (λ query. not (accepts query)) queries)
  unfolding send_all record_metric
  send_all_outcome [] s = (sym (append-nil s.recorded), omega arith)
  send_all_outcome (query ∷ queries) s = elim (Bool-cases (accepts query)) [
    | inl good ↦
        let next = record s { recorded = s.recorded ++ (query ∷ []) } in
        let stepped : record_metric accepts query s ≡ next = rw good refl in
        let (kept, failed) = send_all_outcome queries next in
        let more : accepted (query ∷ queries) ≡ query ∷ accepted queries = rw good refl in
        (
          ap (λ t. (send_all accepts queries t).recorded) stepped
              ∙ kept
              ∙ append_assoc s.recorded (query ∷ []) (accepted queries)
              ∙ ap (λ l. s.recorded ++ l) (sym more),
          ap (λ t. (send_all accepts queries t).failures) stepped ∙ failed ∙ rw good (omega arith),
        )
    | inr bad ↦
        let next = record s { failures = suc s.failures } in
        let stepped : record_metric accepts query s ≡ next = rw bad refl in
        let (kept, failed) = send_all_outcome queries next in
        let same : accepted (query ∷ queries) ≡ accepted queries = rw bad refl in
        (
          ap (λ t. (send_all accepts queries t).recorded) stepped
              ∙ kept
              ∙ ap (λ l. s.recorded ++ l) (sym same),
          ap (λ t. (send_all accepts queries t).failures) stepped ∙ failed ∙ rw bad (omega arith),
        )
  ]

module _ (db : Influx) (show : ℕ → String) (now : db.Time) (run_id : String) where
  -- The queries of the attackers about the victim, by their number in the group and their victim.
  abbrev pub victim_queries : List (ℕ × String) → List db.Query
  victim_queries [] = []
  victim_queries ((group_seq, victim) ∷ attackers) =
      record_victim_id db show now run_id group_seq victim ++ victim_queries attackers

  abbrev pub run_id_queries : List ℕ → List db.Query
  run_id_queries [] = []
  run_id_queries (group_seq ∷ nodes) =
      record_run_id db show now run_id group_seq ++ run_id_queries nodes

  no_run_id : (nodes : List ℕ) → count 1 nodes ≡ 0 → run_id_queries nodes ≡ []
  unfolding record_run_id
  no_run_id [] none_first = refl
  no_run_id (group_seq ∷ nodes) none_first = elim (Bool-cases (group_seq == 1)) [
    | inl here ↦ absurd (ground (arith, here))
    | inr there ↦ rw there (no_run_id nodes (ground (arith, there)))
  ]

  no_victim :
      (attackers : List (ℕ × String)) → count 1 (keys attackers) ≡ 0 → victim_queries attackers ≡ []
  unfolding record_victim_id
  no_victim [] none_first = refl
  no_victim ((group_seq, victim) ∷ attackers) none_first = elim (Bool-cases (group_seq == 1)) [
    | inl here ↦ absurd (ground (arith, here))
    | inr there ↦ rw there (no_victim attackers (ground (arith, there)))
  ]

  one_run_id :
      (nodes : List ℕ)
      → count 1 nodes ≡ 1
      → run_id_queries nodes
        ≡ db.add_field "run_id" (text run_id) (run_query db show now run_id "run_id") ∷ []
  unfolding record_run_id
  one_run_id [] first = absurd (omega (arith, first))
  one_run_id (group_seq ∷ nodes) first = elim (Bool-cases (group_seq == 1)) [
    | inl here ↦ rw here (rw (no_run_id nodes (ground (arith, here))) refl)
    | inr there ↦ rw there (one_run_id nodes (ground (arith, there)))
  ]

  one_victim :
      (attackers : List (ℕ × String)) (victim : String)
      → count 1 (keys attackers) ≡ 1
      → get 1 attackers ≡ some victim
      → victim_queries attackers
        ≡ db.add_field "peer_id" (text victim) (run_query db show now run_id "victim") ∷ []
  unfolding record_victim_id
  one_victim [] victim first is = absurd cc
  one_victim ((group_seq, other) ∷ attackers) victim first is = elim (Bool-cases (group_seq == 1)) [
    | inl here ↦
        let same : other ≡ victim = ground (arith, is, here) in
        rw here (
          rw (no_victim attackers (ground (arith, here))) (
            ap (λ v. db.add_field "peer_id" (text v) (run_query db show now run_id "victim") ∷ [])
              same))
    | inr there ↦
        rw there (one_victim attackers victim (ground (arith, there)) (ground (arith, is, there)))
  ]

  -- If one beacon node and one attacker have the number 1 in their groups, the instances together
  -- record the run id once, and once the victim, which is that of this attacker.
  pub recorded_once :
      (nodes : List ℕ) (attackers : List (ℕ × String)) (victim : String)
      → count 1 nodes ≡ 1
      → count 1 (keys attackers) ≡ 1
      → get 1 attackers ≡ some victim
      → (run_id_queries nodes
          ≡ db.add_field "run_id" (text run_id) (run_query db show now run_id "run_id") ∷ [])
        × (victim_queries attackers
            ≡ db.add_field "peer_id" (text victim) (run_query db show now run_id "victim") ∷ [])
  recorded_once nodes attackers victim first first_attacker is =
      (one_run_id nodes first, one_victim attackers victim first_attacker is)
