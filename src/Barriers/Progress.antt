-- ===== src/Barriers/Progress.antt =====
-- Progress of instances whose programs signal the same states in the same order, and wait for what they
-- signalled last.
use gossipsub_testground.Base.{
  ℕ, zero, suc, ◌-◌, ◌≤◌, ◌<◌, ◌≡◌, ap, sym, subst, ◌⊎◌, inl, inr, List, none, some, Option-cases,
  String, true, get_elem?, length, ltb, Bool-cases, arith,
}
use gossipsub_testground.Base.Counting.{sum_below, sum_below-grow, sum_below-ge}
use gossipsub_testground.Barriers.{
  Command, does, signal_entry, barrier, SyncService, System, next, Step, acted, signalled, passed,
  Reach, start, later,
}
use gossipsub_testground.Barriers.Counted.{entered}
use gossipsub_testground.Barriers.Invariant.{Inv, Step-Inv, next_self, next_other}
use gossipsub_testground.Barriers.Paired.{
  states_of, is_paired, made, awaited, entered_of_made, made_all, lt_of_found, le_of_ended,
}

-- Below `n`, each index has the one property or some index has the other.
search_below :
    (n : ℕ) (P Q : ℕ → Type 0)
    → ((i : ℕ) → i < n → P i ⊎ Q i)
    → ((i : ℕ) → i < n → P i) ⊎ ((i : ℕ) × (i < n) × Q i)
search_below zero P Q decide = inl (λ i lt. absurd (omega arith))
search_below (suc n) P Q decide = elim (search_below n P Q (λ i lt. decide i (omega arith))) [
  | inr (i, lt, q) ↦ inr (i, omega arith, q)
  | inl all_below ↦ elim (decide n (omega arith)) [
    | inr q ↦ inr (n, omega arith, q)
    | inl p ↦ inl (λ i lt. elim (Bool-cases (ltb i n)) [
      | inl below ↦ all_below i (ground arith)
      | inr last ↦ let same : n ≡ i = ground arith in subst P same p
    ])
  ]
]

le_cases : (a b : ℕ) → (b < a) ⊎ (a ≤ b)
le_cases a b = ground arith

module _ {A : Type 0} (sync : SyncService) (n : ℕ) (program : ℕ → List (Command A))
    (states : List String) where
  abbrev pub IsSynchronised : Type 0
  IsSynchronised = (i : ℕ) → (is_paired none (program i) ≡ true) × (states_of (program i) ≡ states)

  -- The commands that the instances have left.
  abbrev pub remaining : System sync → ℕ
  remaining s = sum_below n (λ i. length (program i) - s.done i)

  abbrev CanStep : System sync → Type 0
  CanStep s = (t : System sync) × Step sync n program s t × (suc (remaining t) ≡ remaining s)

  remaining-next :
      (done : ℕ → ℕ) (i : ℕ) {c : Command A}
      → i < n
      → get_elem? (program i) (done i) ≡ some c
      → suc (sum_below n (λ j. length (program j) - next i done j))
        ≡ sum_below n (λ j. length (program j) - done j)
  remaining-next done i lt found =
      let grown =
        sum_below-grow n (λ j. length (program j) - next i done j)
          (λ j. length (program j) - done j) i 1 lt
          (omega (arith, next_self i done, lt_of_found (program i) (done i) found))
          (λ j other. ap (λ k. length (program j) - k) (sym (next_other i j done other))) in
      omega (arith, grown)

  -- An instance that has a command left and waits at no closed barrier can step.
  step_or_wait :
      (s : System sync) (i : ℕ)
      → i < n
      → CanStep s
        ⊎ (get_elem? (program i) (s.done i) ≡ none)
        ⊎ ((state : String) × (get_elem? (program i) (s.done i) ≡ some (barrier state)))
  step_or_wait s i lt = elim (Option-cases (get_elem? (program i) (s.done i))) [
    | inl ended ↦ inr (inl ended)
    | inr (does action, found) ↦ inl (_, acted i lt found, remaining-next s.done i lt found)
    | inr (signal_entry state, found) ↦
        inl (_, signalled i lt found, remaining-next s.done i lt found)
    | inr (barrier state, found) ↦ inr (inr (state, found))
  ]

  full_counter :
      (s : System sync) (e : ℕ) {state : String}
      → Inv sync n program s
      → IsSynchronised
      → get_elem? states e ≡ some state
      → ((j : ℕ) → j < n → e < made (s.done j) (program j))
      → n ≤ sync.counter s.entries state
  full_counter s e {state} inv synchronised here all_made = omega (
    arith,
    inv.counted state,
    sum_below-ge n (λ j. entered state (s.done j) (program j))
        (λ j below.
          entered_of_made (program j) (s.done j) e
            (subst (λ xs. get_elem? xs e ≡ some state) (sym (synchronised j).1) here)
            (all_made j below)),
  )

  before :
      {s t u : System sync}
      → Step sync n program s t
      → Reach sync n program t u
      → Reach sync n program s u
  before first start = later start first
  before first (later reach last) = later (before first reach) last

  -- By induction on the number of entries made: the least of the waiting instances can pass.
  waiting_steps :
      (s : System sync) (bound i : ℕ) {state : String}
      → Inv sync n program s
      → IsSynchronised
      → i < n
      → get_elem? (program i) (s.done i) ≡ some (barrier state)
      → made (s.done i) (program i) ≤ bound
      → CanStep s
  waiting_steps s zero i inv synchronised lt found small =
      let (e, count, here) = awaited (program i) (s.done i) (synchronised i).0 found in
      absurd (omega arith)
  waiting_steps s (suc bound) i {state} inv synchronised lt found small =
      let (e, count, entry) = awaited (program i) (s.done i) (synchronised i).0 found in
      let here : get_elem? states e ≡ some state =
        subst (λ xs. get_elem? xs e ≡ some state) (synchronised i).1 entry in
      elim (search_below n (λ j. e < made (s.done j) (program j))
        (λ j. made (s.done j) (program j) ≤ e)
        (λ j below. le_cases (made (s.done j) (program j)) e)) [
          | inl all_made ↦ (
            _,
            passed i lt found (full_counter s e inv synchronised here all_made),
            remaining-next s.done i lt found,
          )
          | inr (j, below, less) ↦ elim (step_or_wait s j below) [
            | inl step ↦ step
            | inr (inl ended) ↦ absurd (
                omega (
                  arith,
                  made_all (program j) (s.done j) ended,
                  ap length (synchronised j).1,
                  lt_of_found states e here,
                ))
            | inr (inr (other, waits)) ↦
                waiting_steps s bound j inv synchronised below waits (omega arith)
          ]
        ]

  pub progress :
      (s : System sync)
      → Inv sync n program s
      → IsSynchronised
      → ((i : ℕ) → i < n → length (program i) ≤ s.done i) ⊎ CanStep s
  progress s inv synchronised =
      elim (search_below n (λ i. length (program i) ≤ s.done i) (λ i. CanStep s)
        (λ i lt. elim (step_or_wait s i lt) [
          | inl step ↦ inr step
          | inr (inl ended) ↦ inl (le_of_ended (program i) (s.done i) ended)
          | inr (inr (state, waits)) ↦ inr (
              waiting_steps s (made (s.done i) (program i)) i inv synchronised lt waits
                (omega arith))
        ])) [ inl ended ↦ inl ended | inr (i, lt, step) ↦ inr step ]

  -- From any state that the invariant describes.
  pub completes_from :
      (left : ℕ) (s : System sync)
      → Inv sync n program s
      → IsSynchronised
      → remaining s ≤ left
      → (t : System sync) × Reach sync n program s t
        × ((i : ℕ) → i < n → length (program i) ≤ t.done i)
  completes_from zero s inv synchronised enough = elim (progress s inv synchronised) [
    | inl ended ↦ (s, start, ended)
    | inr (t, step, fewer) ↦ absurd (omega arith)
  ]
  completes_from (suc left) s inv synchronised enough = elim (progress s inv synchronised) [
    | inl ended ↦ (s, start, ended)
    | inr (t, step, fewer) ↦
        let (u, reach, ended) =
          completes_from left t (Step-Inv sync n program step inv) synchronised (omega arith) in
        (u, before step reach, ended)
  ]
