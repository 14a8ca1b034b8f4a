-- ===== src/Tests/Barriers.antt =====
-- Two instances of each plan, up to the first action behind a barrier.
use gossipsub_testground.Base.{
  ℕ, ◌≡◌, refl, inl, none, List, [], ◌∷◌, String, Bool, true, false, ◌==◌, same_text, arith,
}
use gossipsub_testground.Base.Counting.{count_if, sum_below}
use gossipsub_testground.Censoring.{Role, publisher, attacker}
use gossipsub_testground.Barriers.{
  SyncService, System, init, acted, signalled, passed, Reach, start, later,
}
use gossipsub_testground.Barriers.Programs.{
  beacon_node_run, attacker_run, eth_run, honest_run, censor_run, smoke_run, signal_and_wait,
  is_dial, is_try_subscribe, is_send_subscribe, is_start_libp2p, dial, try_subscribe,
  send_subscribe,
}
use gossipsub_testground.Barriers.Safety.{HasDone}
use gossipsub_testground.Barriers.Orders.{
  scoring_run, censoring_run, is_censor, scoring_awaits, smoke_awaits, listening, scoring_orders,
  censoring_orders, smoke_orders, eth_orders,
}
use gossipsub_testground.Barriers.Completion.{AllSucceeded, censoring_completes}
use gossipsub_testground.Barriers.Runs.{Run, begin, worked, entered_state, went_through, dropped}

abbrev sync : SyncService
sync = record {
  Entries = List String;
  no_entries = [];
  add_entry = λ state entries. state ∷ entries;
  counter = λ entries state. count_if (λ made. same_text made state) entries;
  counter-no_entries = λ state. refl;
  counter-add_entry = λ state other entries. refl;
}

-- The second instance is an attacker.
abbrev is_second : ℕ → Bool
is_second i = i == 1

abbrev group_of : ℕ → Role
group_of i = elim (i == 1) [ true ↦ attacker | false ↦ publisher ]

abbrev ScoringRun : (errors : ℕ → ℕ) → System sync → Type 0
ScoringRun = Run sync 2 (λ v. scoring_run (is_second v)) is_second (scoring_awaits 2 is_second)

-- The attacker drops the error of its wait, and the beacon node dials.
abbrev scoring_dials :
    (errors : ℕ → ℕ) × (t : System sync) × ScoringRun errors t
    × HasDone is_dial (t.done 0) (scoring_run (is_second 0))
unfolding beacon_node_run attacker_run signal_and_wait sum_below
scoring_dials = (
  _,
  _,
  worked 0 {action = dial}
      (went_through 0
        (dropped 1
          (entered_state 1
            (entered_state 0
              (worked 0
                (worked 0
                  (worked 1
                    (worked 0
                      (worked 1
                        (worked 1 (worked 0 begin (omega arith) refl tt) (omega arith) refl tt)
                        (omega arith) refl (omega arith))
                      (omega arith) refl (omega arith))
                    (omega arith) refl tt)
                  (omega arith) refl (omega arith))
                (omega arith) refl tt)
              (omega arith) refl)
            (omega arith) refl)
          (omega arith) refl refl refl)
        (omega arith) refl (omega arith))
      (omega arith) refl tt,
  (6, dial, omega arith, refl, refl),
)

abbrev CensoringRun : (errors : ℕ → ℕ) → System sync → Type 0
CensoringRun =
    Run sync 2 (λ v. censoring_run (group_of v)) (λ v. is_censor (group_of v)) (λ action. none)

abbrev censoring_run_subscribes :
    (errors : ℕ → ℕ) × (t : System sync) × CensoringRun errors t
    × HasDone is_send_subscribe (t.done 0) (censoring_run (group_of 0))
unfolding honest_run censor_run signal_and_wait
censoring_run_subscribes = (
  _,
  _,
  worked 0
      (went_through 0
        (entered_state 1
          (entered_state 0
            (worked 1 (worked 0 (worked 0 begin (omega arith) refl tt) (omega arith) refl tt)
              (omega arith) refl tt)
            (omega arith) refl)
          (omega arith) refl)
        (omega arith) refl (omega arith))
      (omega arith) refl tt,
  (4, send_subscribe, omega arith, refl, refl),
)

abbrev censoring_subscribes :
    (t : System sync) × Reach sync 2 (λ v. censoring_run (group_of v)) (init sync) t
    × HasDone is_send_subscribe (t.done 0) (censoring_run (group_of 0))
unfolding honest_run censor_run signal_and_wait
censoring_subscribes = (
  _,
  later
      (later
        (later
          (later
            (later (later (later (start) (acted 0 (omega arith) refl)) (acted 0 (omega arith) refl))
              (acted 1 (omega arith) refl))
            (signalled 0 (omega arith) refl))
          (signalled 1 (omega arith) refl))
        (passed 0 (omega arith) refl (omega arith)))
      (acted 0 (omega arith) refl),
  (4, send_subscribe, omega arith, refl, refl),
)

abbrev eth_dials :
    (t : System sync) × Reach sync 2 (λ v. eth_run) (init sync) t
    × HasDone is_dial (t.done 0) eth_run
unfolding eth_run signal_and_wait
eth_dials = (
  _,
  later
      (later
        (later
          (later
            (later
              (later
                (later
                  (later
                    (later (later (start) (signalled 0 (omega arith) refl))
                      (signalled 1 (omega arith) refl))
                    (passed 0 (omega arith) refl (omega arith)))
                  (passed 1 (omega arith) refl (omega arith)))
                (acted 0 (omega arith) refl))
              (acted 1 (omega arith) refl))
            (signalled 0 (omega arith) refl))
          (signalled 1 (omega arith) refl))
        (passed 0 (omega arith) refl (omega arith)))
      (acted 0 (omega arith) refl),
  (5, dial, omega arith, refl, refl),
)

abbrev smoke_dials :
    (errors : ℕ → ℕ) × (t : System sync) × Run sync 2
      (λ v. smoke_run)
      (λ v. true)
      (smoke_awaits 2)
      errors
      t
    × ((errors 0 ≡ 0) × HasDone is_dial (t.done 0) smoke_run)
unfolding smoke_run signal_and_wait sum_below
smoke_dials = (
  _,
  _,
  worked 0
      (worked 0
        (worked 1
          (worked 0
            (dropped 1
              (went_through 0
                (entered_state 1
                  (entered_state 0
                    (worked 1 (worked 0 begin (omega arith) refl tt) (omega arith) refl tt)
                    (omega arith) refl)
                  (omega arith) refl)
                (omega arith) refl (omega arith))
              (omega arith) refl refl refl)
            (omega arith) refl tt)
          (omega arith) refl tt)
        (omega arith) refl (omega arith))
      (omega arith) refl tt,
  (refl, (5, dial, omega arith, refl, refl)),
)

scoring_orders_example :
    HasDone is_start_libp2p (scoring_dials.1.done 1) (scoring_run (is_second 1))
scoring_orders_example =
    scoring_orders sync 2 is_second listening scoring_dials.1 0 1 (omega arith) (inl refl)
      scoring_dials.2 scoring_dials.3

censoring_orders_example :
    HasDone is_start_libp2p (censoring_run_subscribes.1.done 1) (censoring_run (group_of 1))
censoring_orders_example =
    censoring_orders sync 2 group_of listening censoring_run_subscribes.1 0 1 (omega arith)
      (inl refl) censoring_run_subscribes.2 censoring_run_subscribes.3

eth_orders_example : HasDone is_start_libp2p (eth_dials.0.done 1) eth_run
eth_orders_example = eth_orders sync 2 eth_dials.0 0 1 (omega arith) eth_dials.1 eth_dials.2

smoke_orders_example : HasDone is_start_libp2p (smoke_dials.1.done 1) smoke_run
smoke_orders_example =
    smoke_orders sync 2 listening smoke_dials.1 0 1 (omega arith) smoke_dials.3.0 smoke_dials.2
      smoke_dials.3.1

censoring_completes_example :
    (t : System sync) × Reach sync 2 (λ v. censoring_run (group_of v)) censoring_subscribes.0 t
    × AllSucceeded sync 2 (λ v. censoring_run (group_of v)) t
censoring_completes_example =
    censoring_completes sync 2 group_of censoring_subscribes.0 censoring_subscribes.1

-- An instance of eth_consensus has subscribed, and the other has done four commands: it has not dialed.
eth_subscribes :
    (t : System sync) × Reach sync 2 (λ v. eth_run) (init sync) t
    × (HasDone is_try_subscribe (t.done 0) eth_run × (t.done 1 ≡ 4))
unfolding eth_run signal_and_wait
eth_subscribes = (
  _,
  later
      (later
        (later
          (later
            (later
              (later
                (later
                  (later
                    (later
                      (later
                        (later
                          (later (later (start) (signalled 0 (omega arith) refl))
                            (signalled 1 (omega arith) refl))
                          (passed 0 (omega arith) refl (omega arith)))
                        (passed 1 (omega arith) refl (omega arith)))
                      (acted 0 (omega arith) refl))
                    (acted 1 (omega arith) refl))
                  (signalled 0 (omega arith) refl))
                (signalled 1 (omega arith) refl))
              (passed 0 (omega arith) refl (omega arith)))
            (acted 0 (omega arith) refl))
          (signalled 0 (omega arith) refl))
        (passed 0 (omega arith) refl (omega arith)))
      (acted 0 (omega arith) refl),
  ((8, try_subscribe, omega arith, refl, refl), refl),
)
