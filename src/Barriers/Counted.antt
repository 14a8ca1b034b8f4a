-- ===== src/Barriers/Counted.antt =====
-- How many entries of a state an instance has made, by the commands it has done.
use gossipsub_testground.Base.{
  ℕ, zero, suc, ◌+◌, ◌≤◌, ◌≡◌, ap, List, [], ◌∷◌, some, String, if◌then◌else◌, same_text, get_elem?,
  take, arith,
}
use gossipsub_testground.Barriers.{Command, does, signal_entry, barrier}

module _ {A : Type 0} where
  abbrev pub entry_of : String → Command A → ℕ
  entry_of state (does a) = 0
  entry_of state (signal_entry other) = if same_text other state then 1 else 0
  entry_of state (barrier other) = 0

  abbrev pub entries_of : String → List (Command A) → ℕ
  entries_of state [] = 0
  entries_of state (c ∷ cs) = entry_of state c + entries_of state cs

  -- The entries among the first `k` commands.
  abbrev pub entered : String → ℕ → List (Command A) → ℕ
  entered state k cs = entries_of state (take k cs)

  pub entered-suc :
      (state : String) (cs : List (Command A)) (k : ℕ) {c : Command A}
      → get_elem? cs k ≡ some c
      → entered state (suc k) cs ≡ entered state k cs + entry_of state c
  entered-suc state [] k found = absurd cc
  entered-suc state (d ∷ cs) zero {c} found =
      let same : d ≡ c = cc in omega (arith, ap (entry_of state) same)
  entered-suc state (d ∷ cs) (suc k) {c} found = omega (arith, entered-suc state cs k found)

  pub entered-le :
      (state : String) (cs : List (Command A)) (k : ℕ) → entered state k cs ≤ entries_of state cs
  entered-le state cs zero = omega arith
  entered-le state [] (suc k) = omega arith
  entered-le state (d ∷ cs) (suc k) = omega (arith, entered-le state cs k)

  pub entered_mono :
      (state : String) (cs : List (Command A)) (k l : ℕ)
      → k ≤ l
      → entered state k cs ≤ entered state l cs
  entered_mono state cs zero l le = omega arith
  entered_mono state [] (suc k) l le = omega arith
  entered_mono state (d ∷ cs) (suc k) zero le = absurd (omega arith)
  entered_mono state (d ∷ cs) (suc k) (suc l) le =
      omega (arith, entered_mono state cs k l (omega arith))
