-- ===== src/Barriers/Safety.antt =====
-- A barrier as an order of actions: those behind it in one program, and those before its signal in
-- another.
use gossipsub_testground.Base.{
  ℕ, zero, suc, ◌+◌, ◌≤◌, ◌<◌, ◌≡◌, refl, ap, ◌∙◌, ◌≢◌, List, [], ◌∷◌, some, String, if◌then◌else◌,
  inl, inr, Bool, true, false, not, ◌&&◌, ◌||◌, and_right, or_cases, same_text, same_text-eq,
  get_elem?, arith,
}
use gossipsub_testground.Base.Counting.{sum_below-le, sum_below_full}
use gossipsub_testground.Barriers.{Command, does, signal_entry, barrier, SyncService, System}
use gossipsub_testground.Barriers.Counted.{entered, entered-le, entries_of}
use gossipsub_testground.Barriers.Invariant.{Inv}

does_not : (a b : Bool) → a ≡ true → (not a && b) ≢ true
does_not true b holds h = absurd cc
does_not false b holds h = absurd cc

not_that :
    (a b : Bool) (rest : ℕ) → (not a && b) ≡ true → 1 ≤ (if a then 1 else 0) + rest → 1 ≤ rest
not_that true b rest h le = absurd cc
not_that false b rest h le = omega arith

module _ {A : Type 0} where
  -- A command with the property is among the first `k`.
  abbrev pub HasDone : (A → Bool) → ℕ → List (Command A) → Type 0
  HasDone is_it k cs =
      (l : ℕ) × (action : A) × (l < k)
      × (get_elem? cs l ≡ some (does action))
      × (is_it action ≡ true)

  -- Every such action stands behind a barrier on the state.
  abbrev pub is_guarded : String → (A → Bool) → List (Command A) → Bool
  is_guarded state is_it [] = true
  is_guarded state is_it (does action ∷ cs) = not (is_it action) && is_guarded state is_it cs
  is_guarded state is_it (signal_entry other ∷ cs) = is_guarded state is_it cs
  is_guarded state is_it (barrier other ∷ cs) = same_text other state || is_guarded state is_it cs

  -- Such an action stands before the first signal on the state.
  abbrev pub is_prepared : String → (A → Bool) → List (Command A) → Bool
  is_prepared state is_it [] = true
  is_prepared state is_it (does action ∷ cs) = is_it action || is_prepared state is_it cs
  is_prepared state is_it (signal_entry other ∷ cs) =
      not (same_text other state) && is_prepared state is_it cs
  is_prepared state is_it (barrier other ∷ cs) = is_prepared state is_it cs

  pub guarded_barrier :
      (state : String) (is_it : A → Bool) (cs : List (Command A)) (l : ℕ) (action : A)
      → is_guarded state is_it cs ≡ true
      → get_elem? cs l ≡ some (does action)
      → is_it action ≡ true
      → (m : ℕ) × (m < l) × (get_elem? cs m ≡ some (barrier state))
  guarded_barrier state is_it [] l action guarded found it = absurd cc
  guarded_barrier state is_it (does first ∷ cs) zero action guarded found it =
      let same : first ≡ action = cc in
      absurd (does_not (is_it first) _ (ap is_it same ∙ it) guarded)
  guarded_barrier state is_it (does first ∷ cs) (suc l) action guarded found it =
      let (m, lt, here) =
        guarded_barrier state is_it cs l action (and_right (not (is_it first)) _ guarded) found
          it in
      (suc m, omega arith, here)
  guarded_barrier state is_it (signal_entry other ∷ cs) zero action guarded found it = absurd cc
  guarded_barrier state is_it (signal_entry other ∷ cs) (suc l) action guarded found it =
      let (m, lt, here) = guarded_barrier state is_it cs l action guarded found it in
      (suc m, omega arith, here)
  guarded_barrier state is_it (barrier other ∷ cs) zero action guarded found it = absurd cc
  guarded_barrier state is_it (barrier other ∷ cs) (suc l) action guarded found it =
      elim (or_cases (same_text other state) _ guarded) [
        | inl same ↦
            (0, omega arith, ap (λ name. some (barrier name)) (same_text-eq other state same))
        | inr rest ↦
            let (m, lt, here) = guarded_barrier state is_it cs l action rest found it in
            (suc m, omega arith, here)
      ]

  pub prepared_action :
      (state : String) (is_it : A → Bool) (cs : List (Command A)) (k : ℕ)
      → is_prepared state is_it cs ≡ true
      → 1 ≤ entered state k cs
      → HasDone is_it k cs
  prepared_action state is_it cs zero prepared entry = absurd (omega arith)
  prepared_action state is_it [] (suc k) prepared entry = absurd (omega arith)
  prepared_action state is_it (does first ∷ cs) (suc k) prepared entry =
      elim (or_cases (is_it first) _ prepared) [
        | inl it ↦ (0, first, omega arith, refl, it)
        | inr rest ↦
            let (l, action, lt, found, it) = prepared_action state is_it cs k rest (omega arith) in
            (suc l, action, omega arith, found, it)
      ]
  prepared_action state is_it (signal_entry other ∷ cs) (suc k) prepared entry =
      let (l, action, lt, found, it) =
        prepared_action state is_it cs k (and_right (not (same_text other state)) _ prepared)
          (not_that (same_text other state) _ (entered state k cs) prepared entry) in
      (suc l, action, omega arith, found, it)
  prepared_action state is_it (barrier other ∷ cs) (suc k) prepared entry =
      let (l, action, lt, found, it) = prepared_action state is_it cs k prepared (omega arith) in
      (suc l, action, omega arith, found, it)

module _ {A : Type 0} (sync : SyncService) (n : ℕ) (program : ℕ → List (Command A)) where
  pub all_entered :
      (s : System sync) (state : String)
      → Inv sync n program s
      → ((j : ℕ) → entries_of state (program j) ≤ 1)
      → n ≤ sync.counter s.entries state
      → (j : ℕ) → j < n
      → entered state (s.done j) (program j) ≡ 1
  all_entered s state inv once full =
      let at_most_one : (j : ℕ) → entered state (s.done j) (program j) ≤ 1 =
        λ j. omega (arith, entered-le state (program j) (s.done j), once j) in
      sum_below_full n (λ j. entered state (s.done j) (program j)) at_most_one
        (omega (
          arith,
          inv.counted state,
          full,
          sum_below-le n (λ j. entered state (s.done j) (program j)) at_most_one,
        ))

  pub barrier_orders :
      (s : System sync) (state : String) (first second : A → Bool) (i j : ℕ)
      → Inv sync n program s
      → ((v : ℕ) → entries_of state (program v) ≤ 1)
      → is_guarded state second (program i) ≡ true
      → is_prepared state first (program j) ≡ true
      → j < n
      → HasDone second (s.done i) (program i)
      → HasDone first (s.done j) (program j)
  barrier_orders s state first second i j inv once guarded prepared below done =
      let (k, action, below_k, here, it) = done in
      let (l, behind, found) = guarded_barrier state second (program i) k action guarded here it in
      prepared_action state first (program j) (s.done j) prepared (
        omega (
          arith,
          all_entered s state inv once (inv.open_barriers i l state found (omega arith)) j below,
        ))
