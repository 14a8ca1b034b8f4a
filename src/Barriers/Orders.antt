-- ===== src/Barriers/Orders.antt =====
-- The actions before and behind the barriers of each plan, and their order over the instances.
use gossipsub_testground.Base.{
  ℕ, ◌≤◌, ◌<◌, ◌≡◌, refl, ◌⊎◌, inr, Option, none, some, List, String, Bool, true, false,
  if◌then◌else◌, arith,
}
use gossipsub_testground.Censoring.{Role, publisher, lurker, attacker}
use gossipsub_testground.Base.Counting.{sum_below}
use gossipsub_testground.Barriers.Runs.{Awaited, Run}
use gossipsub_testground.Barriers.Runs.Safe.{run_orders}
use gossipsub_testground.Barriers.{Command, SyncService, System, init, Reach}
use gossipsub_testground.Barriers.Programs.{
  Action, collect_beacon_node_infos, collect_attacker_infos, collect_addresses,
  is_publish_beacon_node_info, is_publish_attacker_info, is_publish_address, libp2p_ready,
  topology_ready, simulation_completed, warmup, finished, beacon_node_run, attacker_run, eth_run,
  honest_run, censor_run, smoke_run, signal_and_wait, is_start_libp2p, is_dial, is_subscribe,
  is_warm_up, is_publishing, is_send_stop, is_send_subscribe, is_run_sim, is_receive_messages,
  is_record_success,
}
use gossipsub_testground.Barriers.Counted.{entries_of}
use gossipsub_testground.Barriers.Invariant.{Inv-init, Reach-Inv}
use gossipsub_testground.Barriers.Safety.{HasDone, is_guarded, is_prepared, barrier_orders}

-- The groups of the scoring plan.
abbrev pub scoring_run : (is_attacker : Bool) → List (Command Action)
scoring_run true = attacker_run
scoring_run false = beacon_node_run

-- The roles of the censoring plan.
abbrev pub censoring_run : Role → List (Command Action)
censoring_run publisher = honest_run publisher
censoring_run lurker = honest_run lurker
censoring_run attacker = censor_run

abbrev pub is_censor : Role → Bool
is_censor publisher = false
is_censor lurker = false
is_censor attacker = true

-- The entries that an instance collects: those of all beacon nodes, of all attackers, or of all.
abbrev pub scoring_awaits : (n : ℕ) (is_attacker : ℕ → Bool) → Action → Option (Awaited Action)
scoring_awaits n is_attacker action = elim action [
  | collect_beacon_node_infos ↦ some (record {
    is_entry = is_publish_beacon_node_info;
    count = sum_below n (λ j. if is_attacker j then 0 else 1);
  })
  | collect_attacker_infos ↦ some (record {
    is_entry = is_publish_attacker_info;
    count = sum_below n (λ j. if is_attacker j then 1 else 0);
  })
  | _ ↦ none
]

abbrev pub smoke_awaits : (n : ℕ) → Action → Option (Awaited Action)
smoke_awaits n action = elim action [
  | collect_addresses ↦ some (record { is_entry = is_publish_address; count = n })
  | _ ↦ none
]

-- The barriers of the plans, what an instance has done before its entry, and what it does behind.
pub data Stage : Type 0 where
  listening : Stage
  connecting : Stage
  completing : Stage

abbrev pub scoring_state : Stage → String
scoring_state listening = libp2p_ready
scoring_state connecting = topology_ready
scoring_state completing = simulation_completed

abbrev pub scoring_before : Stage → (is_attacker : Bool) → Action → Bool
scoring_before listening is_attacker = is_start_libp2p
scoring_before connecting is_attacker = is_dial
scoring_before completing is_attacker = if is_attacker then is_dial else is_run_sim

abbrev pub scoring_behind : Stage → Action → Bool
scoring_behind listening = is_dial
scoring_behind connecting = is_subscribe
scoring_behind completing = is_record_success

abbrev pub censoring_state : Stage → String
censoring_state listening = libp2p_ready
censoring_state connecting = warmup
censoring_state completing = finished

abbrev pub censoring_before : Stage → Role → Action → Bool
censoring_before listening role = is_start_libp2p
censoring_before connecting attacker = is_dial
censoring_before connecting publisher = is_warm_up
censoring_before connecting lurker = is_warm_up
censoring_before completing attacker = is_dial
censoring_before completing publisher = is_send_stop
censoring_before completing lurker = is_send_subscribe

abbrev pub censoring_behind : Stage → Role → Action → Bool
censoring_behind listening attacker = is_dial
censoring_behind listening publisher = is_send_subscribe
censoring_behind listening lurker = is_send_subscribe
censoring_behind connecting role = is_publishing
censoring_behind completing role = is_record_success

abbrev pub smoke_state : Stage → String
smoke_state listening = "Started listening"
smoke_state connecting = "Subscribed a topic"
smoke_state completing = "Published a message"

abbrev pub smoke_before : Stage → Action → Bool
smoke_before listening = is_start_libp2p
smoke_before connecting = is_subscribe
smoke_before completing = is_receive_messages

abbrev pub smoke_behind : Stage → Action → Bool
smoke_behind listening = is_dial
smoke_behind connecting = is_publishing
smoke_behind completing = is_record_success

-- One entry on the state, the second action behind its barrier, the first before its entry.
abbrev Separates : String → (first second : Action → Bool) → List (Command Action) → Type 0
Separates state first second cs =
    (entries_of state cs ≤ 1)
    × (is_guarded state second cs ≡ true)
    × (is_prepared state first cs ≡ true)

scoring-Separates :
    (stage : Stage) (is_attacker : Bool)
    → Separates
        (scoring_state stage)
        (scoring_before stage is_attacker)
        (scoring_behind stage)
        (scoring_run is_attacker)
unfolding attacker_run beacon_node_run signal_and_wait
scoring-Separates listening true = (omega arith, refl, refl)
scoring-Separates connecting true = (omega arith, refl, refl)
scoring-Separates completing true = (omega arith, refl, refl)
scoring-Separates listening false = (omega arith, refl, refl)
scoring-Separates connecting false = (omega arith, refl, refl)
scoring-Separates completing false = (omega arith, refl, refl)

censoring-Separates :
    (stage : Stage) (role : Role)
    → Separates
        (censoring_state stage)
        (censoring_before stage role)
        (censoring_behind stage role)
        (censoring_run role)
unfolding honest_run censor_run signal_and_wait
censoring-Separates listening publisher = (omega arith, refl, refl)
censoring-Separates connecting publisher = (omega arith, refl, refl)
censoring-Separates completing publisher = (omega arith, refl, refl)
censoring-Separates listening lurker = (omega arith, refl, refl)
censoring-Separates connecting lurker = (omega arith, refl, refl)
censoring-Separates completing lurker = (omega arith, refl, refl)
censoring-Separates listening attacker = (omega arith, refl, refl)
censoring-Separates connecting attacker = (omega arith, refl, refl)
censoring-Separates completing attacker = (omega arith, refl, refl)

smoke-Separates :
    (stage : Stage)
    → Separates (smoke_state stage) (smoke_before stage) (smoke_behind stage) smoke_run
unfolding smoke_run signal_and_wait
smoke-Separates listening = (omega arith, refl, refl)
smoke-Separates connecting = (omega arith, refl, refl)
smoke-Separates completing = (omega arith, refl, refl)

eth-Separates : Separates libp2p_ready is_start_libp2p is_dial eth_run
unfolding eth_run signal_and_wait
eth-Separates = (omega arith, refl, refl)

module _ (sync : SyncService) (n : ℕ) where
  orders :
      (program : ℕ → List (Command Action)) (state : String) (first second : ℕ → Action → Bool)
      (s : System sync) (i j : ℕ)
      → ((v : ℕ) → Separates state (first v) (second v) (program v))
      → j < n
      → Reach sync n program (init sync) s
      → HasDone (second i) (s.done i) (program i)
      → HasDone (first j) (s.done j) (program j)
  orders program state first second s i j separates below reach =
      barrier_orders sync n program s state (first j) (second i) i j
        (Reach-Inv sync n program reach (Inv-init sync n program)) (λ v. (separates v).0)
        (separates i).1 (separates j).2 below

  run_order :
      (program : ℕ → List (Command Action)) (drops : ℕ → Bool)
      (awaits : Action → Option (Awaited Action)) (state : String)
      (first second : ℕ → Action → Bool) {errors : ℕ → ℕ} (s : System sync) (i j : ℕ)
      → ((v : ℕ) → Separates state (first v) (second v) (program v))
      → j < n
      → (drops i ≡ false) ⊎ (errors i ≡ 0)
      → Run sync n program drops awaits errors s
      → HasDone (second i) (s.done i) (program i)
      → HasDone (first j) (s.done j) (program j)
  run_order program drops awaits state first second s i j separates below strict run =
      run_orders sync n program drops awaits s state (first j) (second i) i j run strict
        (λ v. (separates v).0) (separates i).1 (separates j).2 below

  -- In every run of the instances of the plan scoring, also where errors of attackers at the
  -- barriers are dropped: a beacon node, or an attacker that dropped no error, dials only after
  -- each instance has started libp2p, subscribes only after each has dialed, and records its
  -- success only after each beacon node has run the simulation and each attacker has dialed.
  pub scoring_orders :
      (is_attacker : ℕ → Bool) (stage : Stage) {errors : ℕ → ℕ} (s : System sync) (i j : ℕ)
      → j < n
      → (is_attacker i ≡ false) ⊎ (errors i ≡ 0)
      → Run sync n
          (λ v. scoring_run (is_attacker v))
          is_attacker
          (scoring_awaits n is_attacker)
          errors
          s
      → HasDone (scoring_behind stage) (s.done i) (scoring_run (is_attacker i))
      → HasDone (scoring_before stage (is_attacker j)) (s.done j) (scoring_run (is_attacker j))
  scoring_orders is_attacker stage s i j =
      run_order (λ v. scoring_run (is_attacker v)) is_attacker (scoring_awaits n is_attacker)
        (scoring_state stage) (λ v. scoring_before stage (is_attacker v))
        (λ v. scoring_behind stage) s i j (λ v. scoring-Separates stage (is_attacker v))

  -- In every run of the instances of the plan censoring, also where errors of attackers at the
  -- barriers are dropped, and but for attackers that dropped one: an honest peer tells its network
  -- to subscribe and an attacker dials only after each instance has started libp2p, a publisher
  -- tells its network to publish only after each honest peer has warmed up and each attacker has
  -- dialed, and an instance records its success only after each publisher has told its network to
  -- stop, each lurker has told it to subscribe and each attacker has dialed.
  pub censoring_orders :
      (role : ℕ → Role) (stage : Stage) {errors : ℕ → ℕ} (s : System sync) (i j : ℕ)
      → j < n
      → (is_censor (role i) ≡ false) ⊎ (errors i ≡ 0)
      → Run sync n (λ v. censoring_run (role v)) (λ v. is_censor (role v)) (λ action. none) errors s
      → HasDone (censoring_behind stage (role i)) (s.done i) (censoring_run (role i))
      → HasDone (censoring_before stage (role j)) (s.done j) (censoring_run (role j))
  censoring_orders role stage s i j =
      run_order (λ v. censoring_run (role v)) (λ v. is_censor (role v)) (λ action. none)
        (censoring_state stage) (λ v. censoring_before stage (role v))
        (λ v. censoring_behind stage (role v)) s i j (λ v. censoring-Separates stage (role v))

  -- In every run of the instances of the smoke test, also where errors at the barriers are dropped:
  -- an instance that dropped none dials only after each has started to listen, publishes only after
  -- each has subscribed, and records its success only after each has received the messages.
  pub smoke_orders :
      (stage : Stage) {errors : ℕ → ℕ} (s : System sync) (i j : ℕ)
      → j < n
      → errors i ≡ 0
      → Run sync n (λ v. smoke_run) (λ v. true) (smoke_awaits n) errors s
      → HasDone (smoke_behind stage) (s.done i) smoke_run
      → HasDone (smoke_before stage) (s.done j) smoke_run
  smoke_orders stage s i j below no_error =
      run_order (λ v. smoke_run) (λ v. true) (smoke_awaits n) (smoke_state stage)
        (λ v. smoke_before stage) (λ v. smoke_behind stage) s i j (λ v. smoke-Separates stage) below
        (inr no_error)

  -- In every run of the instances of eth_consensus, an instance dials only after each instance has
  -- started libp2p.
  pub eth_orders :
      (s : System sync) (i j : ℕ)
      → j < n
      → Reach sync n (λ v. eth_run) (init sync) s
      → HasDone is_dial (s.done i) eth_run
      → HasDone is_start_libp2p (s.done j) eth_run
  eth_orders s i j =
      orders (λ v. eth_run) libp2p_ready (λ v. is_start_libp2p) (λ v. is_dial) s i j
        (λ v. eth-Separates)
