-- ===== src/Barriers/Runs.antt =====
-- The runs of a plan with what the steps leave out: the wait for the entries of a topic, and the errors of
-- `signal_and_wait` that `barrier_and_drive_swarm` drops, behind which the instance goes on.
pub mod Safe
use gossipsub_testground.Base.{
  ℕ, zero, suc, ◌+◌, ◌≤◌, ◌<◌, ◌≡◌, List, [], ◌∷◌, Option, none, some, Bool, true, false, ◌||◌,
  String, if◌then◌else◌, get_elem?,
}
use gossipsub_testground.Base.Counting.{sum_below}
use gossipsub_testground.Barriers.{
  Command, does, signal_entry, barrier, SyncService, System, next, init,
}

-- What an action waits for: so many instances have done an action, each of which is an entry.
pub record Awaited (A : Type 0) : Type 0 where
  pub is_entry : A → Bool
  pub count : ℕ

module _ {A : Type 0} where
  abbrev pub is_done : (A → Bool) → ℕ → List (Command A) → Bool
  is_done is_it zero cs = false
  is_done is_it (suc k) [] = false
  is_done is_it (suc k) (does action ∷ cs) = is_it action || is_done is_it k cs
  is_done is_it (suc k) (signal_entry state ∷ cs) = is_done is_it k cs
  is_done is_it (suc k) (barrier state ∷ cs) = is_done is_it k cs

  -- Whether a command is a part of `signal_and_wait`.
  abbrev pub is_sync : Command A → Bool
  is_sync (does action) = false
  is_sync (signal_entry state) = true
  is_sync (barrier state) = true

  module _ (n : ℕ) (program : ℕ → List (Command A)) where
    abbrev pub IsReady : Option (Awaited A) → (done : ℕ → ℕ) → Type 0
    IsReady none done = Unit
    IsReady (some awaited) done =
        awaited.count
        ≤ sum_below n (λ j. if is_done awaited.is_entry (done j) (program j) then 1 else 0)

-- `errors` counts the errors that each instance has dropped, which an instance does if it `drops` them.
-- The entry may then be missing, or the wait is over without the others; a failed entry also ends the
-- wait, which is two dropped commands. An instance that fails otherwise makes no further step.
pub data Run {A : Type 0} (sync : SyncService) (n : ℕ) (program : ℕ → List (Command A))
    (drops : ℕ → Bool) (awaits : A → Option (Awaited A)) : (ℕ → ℕ) → System sync → Type 0 where
  begin : Run sync n program drops awaits (λ _. 0) (init sync)
  worked :
      {errors : ℕ → ℕ} {s : System sync} (i : ℕ) {action : A}
      → Run sync n program drops awaits errors s
      → i < n
      → get_elem? (program i) (s.done i) ≡ some (does action)
      → IsReady n program (awaits action) s.done
      → Run sync n program drops awaits errors
          (record { entries = s.entries; done = next i s.done })
  entered_state :
      {errors : ℕ → ℕ} {s : System sync} (i : ℕ) {state : String}
      → Run sync n program drops awaits errors s
      → i < n
      → get_elem? (program i) (s.done i) ≡ some (signal_entry state)
      → Run sync n program drops awaits errors
          (record { entries = sync.add_entry state s.entries; done = next i s.done })
  went_through :
      {errors : ℕ → ℕ} {s : System sync} (i : ℕ) {state : String}
      → Run sync n program drops awaits errors s
      → i < n
      → get_elem? (program i) (s.done i) ≡ some (barrier state)
      → n ≤ sync.counter s.entries state
      → Run sync n program drops awaits errors
          (record { entries = s.entries; done = next i s.done })
  dropped :
      {errors : ℕ → ℕ} {s : System sync} (i : ℕ) {command : Command A}
      → Run sync n program drops awaits errors s
      → i < n
      → get_elem? (program i) (s.done i) ≡ some command
      → is_sync command ≡ true
      → drops i ≡ true
      → Run sync n program drops awaits
          (next i errors)
          (record { entries = s.entries; done = next i s.done })
