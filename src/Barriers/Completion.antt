-- ===== src/Barriers/Completion.antt =====
-- The runs of two plans to the end, where every instance has recorded its success: those whose instances
-- wait at nothing but the barriers.
use gossipsub_testground.Base.{
  ℕ, zero, suc, ◌+◌, ◌≤◌, ◌<◌, ◌≡◌, refl, List, [], ◌∷◌, some, none, String, true, get_elem?,
  length, All, range_from, arith,
}
use gossipsub_testground.Censoring.{Role, publisher, lurker, attacker}
use gossipsub_testground.Barriers.{Command, does, SyncService, System, init, Reach}
use gossipsub_testground.Barriers.Programs.{
  Action, record_success, libp2p_ready, topology_ready, warmup, finished, eth_run, honest_run,
  censor_run, signal_and_wait, is_record_success,
}
use gossipsub_testground.Barriers.Orders.{censoring_run}
use gossipsub_testground.Barriers.Safety.{HasDone}
use gossipsub_testground.Barriers.Invariant.{Inv-init, Reach-Inv}
use gossipsub_testground.Barriers.Paired.{states_of, is_paired}
use gossipsub_testground.Barriers.Progress.{remaining, completes_from}

All-range :
    (P : ℕ → Type 0) (a k : ℕ) → ((i : ℕ) → a ≤ i → i < a + k → P i) → All P (range_from a k)
All-range P a zero h = tt
All-range P a (suc k) h = (
  h a (omega arith) (omega arith),
  All-range P (suc a) k (λ i le lt. h i (omega arith) (omega arith)),
)

-- A run of a plan: the same states in the same order, and the success recorded at the end.
abbrev IsComplete : List String → List (Command Action) → Type 0
IsComplete states cs =
    (is_paired none cs ≡ true)
    × (states_of cs ≡ states)
    × ((k : ℕ) × (k < length cs) × (get_elem? cs k ≡ some (does record_success)))

abbrev censoring_states : List String
censoring_states = libp2p_ready ∷ warmup ∷ finished ∷ []

censoring-IsComplete : (role : Role) → IsComplete censoring_states (censoring_run role)
unfolding honest_run censor_run signal_and_wait
censoring-IsComplete publisher = (refl, refl, (12, omega arith, refl))
censoring-IsComplete lurker = (refl, refl, (10, omega arith, refl))
censoring-IsComplete attacker = (refl, refl, (8, omega arith, refl))

eth-IsComplete : IsComplete (topology_ready ∷ libp2p_ready ∷ topology_ready ∷ []) eth_run
unfolding eth_run signal_and_wait
eth-IsComplete = (refl, refl, (10, omega arith, refl))

module _ (sync : SyncService) (n : ℕ) where
  -- Every instance has recorded its success.
  abbrev pub AllSucceeded : (program : ℕ → List (Command Action)) → System sync → Type 0
  AllSucceeded program s =
      All (λ i. HasDone is_record_success (s.done i) (program i)) (range_from 0 n)

  completes :
      (program : ℕ → List (Command Action)) (states : List String) (s : System sync)
      → ((v : ℕ) → IsComplete states (program v))
      → Reach sync n program (init sync) s
      → (t : System sync) × Reach sync n program s t × AllSucceeded program t
  completes program states s complete reach =
      let (t, onward, ended) =
        completes_from sync n program states (remaining sync n program states s) s
          (Reach-Inv sync n program reach (Inv-init sync n program))
          (λ v. ((complete v).0, (complete v).1)) (omega arith) in
      (
        t,
        onward,
        All-range (λ i. HasDone is_record_success (t.done i) (program i)) 0 n
            (λ i from to.
              let (paired, order, (k, inside, here)) = complete i in
              (k, record_success, omega (arith, ended i (omega arith)), here, refl)),
      )

  -- From every state that the instances of the plan censoring can reach, they can go on to a state
  -- where each has recorded its success, if no command fails.
  pub censoring_completes :
      (role : ℕ → Role) (s : System sync)
      → Reach sync n (λ v. censoring_run (role v)) (init sync) s
      → (t : System sync) × Reach sync n (λ v. censoring_run (role v)) s t
        × AllSucceeded (λ v. censoring_run (role v)) t
  censoring_completes role s =
      completes (λ v. censoring_run (role v)) censoring_states s
        (λ v. censoring-IsComplete (role v))

  eth_completes :
      (s : System sync)
      → Reach sync n (λ v. eth_run) (init sync) s
      → (t : System sync) × Reach sync n (λ v. eth_run) s t × AllSucceeded (λ v. eth_run) t
  eth_completes s = completes (λ v. eth_run) _ s (λ v. eth-IsComplete)
