-- ===== src/Barriers.antt =====
-- What one test plan's instances do between and at the barriers of the sync service: the `run` functions
-- as sequences of commands, and the steps that `test_instance_count` instances make in any order.
-- An instance whose command fails makes no further step. Barriers/Runs has the runs in which an instance
-- goes on behind an error of the sync service.
pub mod Programs
pub mod Counted
pub mod Invariant
pub mod Safety
pub mod Paired
pub mod Progress
pub mod Runs
pub mod Orders
pub mod Completion
use gossipsub_testground.Base.{
  ℕ, suc, ◌+◌, ◌≤◌, ◌<◌, ◌≡◌, List, [], ◌∷◌, some, String, if◌then◌else◌, same_text, get_elem?,
  ◌==◌,
}

-- `signal_and_wait(state, target)` of the crate `testground` is a signal entry, then a barrier.
pub data Command (A : Type 0) : Type 0 where
  does : (action : A) → Command A
  signal_entry : (state : String) → Command A
  barrier : (state : String) → Command A

-- What the sync service promises: it counts the entries of each state.
pub record SyncService : Type 1 where
  pub Entries : Type 0
  pub no_entries : Entries
  pub add_entry : String → Entries → Entries
  pub counter : Entries → String → ℕ
  pub counter-no_entries : (state : String) → counter no_entries state ≡ 0
  pub counter-add_entry :
      (state other : String) (entries : Entries)
      → counter (add_entry state entries) other
        ≡ (if same_text state other then 1 else 0) + counter entries other

-- The entries of the service, and how many commands each instance has done.
pub record System (sync : SyncService) : Type 0 where
  pub entries : sync.Entries
  pub done : ℕ → ℕ

abbrev pub next : ℕ → (ℕ → ℕ) → ℕ → ℕ
next i done j = if j == i then suc (done j) else done j

abbrev pub init : (sync : SyncService) → System sync
init sync = record { entries = sync.no_entries; done = λ _. 0 }

-- A barrier lets an instance through once its state has `test_instance_count` entries.
pub data Step {A : Type 0} (sync : SyncService) (test_instance_count : ℕ)
    (program : ℕ → List (Command A)) (s : System sync) : System sync → Type 0 where
  acted :
      (i : ℕ) {action : A}
      → i < test_instance_count
      → get_elem? (program i) (s.done i) ≡ some (does action)
      → Step sync test_instance_count program s
          (record { entries = s.entries; done = next i s.done })
  signalled :
      (i : ℕ) {state : String}
      → i < test_instance_count
      → get_elem? (program i) (s.done i) ≡ some (signal_entry state)
      → Step sync test_instance_count program s
          (record { entries = sync.add_entry state s.entries; done = next i s.done })
  passed :
      (i : ℕ) {state : String}
      → i < test_instance_count
      → get_elem? (program i) (s.done i) ≡ some (barrier state)
      → test_instance_count ≤ sync.counter s.entries state
      → Step sync test_instance_count program s
          (record { entries = s.entries; done = next i s.done })

pub data Reach {A : Type 0} (sync : SyncService) (test_instance_count : ℕ)
    (program : ℕ → List (Command A)) (s : System sync) : System sync → Type 0 where
  start : Reach sync test_instance_count program s s
  later :
      {t u : System sync}
      → Reach sync test_instance_count program s t
      → Step sync test_instance_count program t u
      → Reach sync test_instance_count program s u
