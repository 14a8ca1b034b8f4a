-- ===== src/Barriers/Invariant.antt =====
-- The invariant of the steps, about the service's counters and the barriers that instances have passed.
use gossipsub_testground.Base.{
  ℕ, suc, ◌+◌, ◌≤◌, ◌<◌, ◌≡◌, ap, sym, ◌∙◌, subst, List, some, String, ◌≢◌, ◌⊎◌, inl, inr,
  Bool-cases, ◌==◌, ==_iff, get_elem?, arith,
}
use gossipsub_testground.Base.Counting.{sum_below, sum_below-grow, sum_below_zero}
use gossipsub_testground.Barriers.{
  Command, barrier, SyncService, System, next, init, Step, acted, signalled, passed, Reach, start,
  later,
}
use gossipsub_testground.Barriers.Counted.{entry_of, entered, entered-suc}

pub next_self : (i : ℕ) (done : ℕ → ℕ) → next i done i ≡ suc (done i)
next_self i done = ground arith

pub next_other : (i j : ℕ) (done : ℕ → ℕ) → j ≢ i → next i done j ≡ done j
next_other i j done other = ground (arith, other)

pub next-cases :
    (i j k : ℕ) (done : ℕ → ℕ) → k < next i done j → (k < done j) ⊎ ((j ≡ i) × (k ≡ done i))
next-cases i j k done below = elim (Bool-cases (j == i)) [
  | inl self ↦
      let same = (==_iff j i).0 self in
      elim (Bool-cases (k == done j)) [
        | inl last ↦ inr (same, (==_iff k (done j)).0 last ∙ ap done same)
        | inr before ↦ inl (ground arith)
      ]
  | inr other ↦ inl (ground arith)
]

module _ {A : Type 0} (sync : SyncService) (n : ℕ) (program : ℕ → List (Command A)) where
  pub record Inv (s : System sync) : Type 0 where
    pub counted :
        (state : String)
        → sync.counter s.entries state ≡ sum_below n (λ i. entered state (s.done i) (program i))
    pub open_barriers :
        (i k : ℕ) (state : String)
        → get_elem? (program i) k ≡ some (barrier state)
        → k < s.done i
        → n ≤ sync.counter s.entries state

  pub Inv-init : Inv (init sync)
  Inv-init = record {
    counted = λ state. sync.counter-no_entries state ∙ sym (sum_below_zero n);
    open_barriers = λ i k state found below. absurd (omega arith);
  }

  pub sum-next :
      (done : ℕ → ℕ) (i : ℕ) {c : Command A} (state : String)
      → i < n
      → get_elem? (program i) (done i) ≡ some c
      → sum_below n (λ j. entered state (next i done j) (program j))
        ≡ sum_below n (λ j. entered state (done j) (program j)) + entry_of state c
  sum-next done i {c} state lt found =
      sum_below-grow n (λ j. entered state (done j) (program j))
        (λ j. entered state (next i done j) (program j)) i (entry_of state c) lt
        (ap (λ k. entered state k (program i)) (next_self i done)
          ∙ entered-suc state (program i) (done i) found)
        (λ j other. ap (λ k. entered state k (program j)) (next_other i j done other))

  -- A barrier behind an instance is the command just done, or was behind it before.
  open-next :
      (done : ℕ → ℕ) (i : ℕ) (before after : String → ℕ)
      → ((state : String) → before state ≤ after state)
      → ((state : String) → get_elem? (program i) (done i) ≡ some (barrier state) → n ≤ after state)
      → ((j k : ℕ) (state : String)
          → get_elem? (program j) k ≡ some (barrier state)
          → k < done j
          → n ≤ before state)
      → (j k : ℕ) (state : String) → get_elem? (program j) k ≡ some (barrier state)
      → k < next i done j
      → n ≤ after state
  open-next done i before after grows last old j k state found below =
      elim (next-cases i j k done below) [
        | inl earlier ↦ omega (arith, old j k state found earlier, grows state)
        | inr (same, now) ↦ last state (
            subst (λ b. get_elem? (program i) b ≡ some (barrier state)) now
              (subst (λ a. get_elem? (program a) k ≡ some (barrier state)) same found))
      ]

  pub Step-Inv : {s t : System sync} → Step sync n program s t → Inv s → Inv t
  Step-Inv {s} (acted i lt found) inv = record {
    counted = λ state. omega (arith, inv.counted state, sum-next s.done i state lt found);
    open_barriers =
        open-next s.done i (sync.counter s.entries) (sync.counter s.entries) (λ state. omega arith)
          (λ state other. absurd cc) inv.open_barriers;
  }
  Step-Inv {s} (signalled i {state = made} lt found) inv = record {
    counted = λ state. omega (
      arith,
      inv.counted state,
      sum-next s.done i state lt found,
      sync.counter-add_entry made state s.entries,
    );
    open_barriers =
        open-next s.done i (sync.counter s.entries) (sync.counter (sync.add_entry made s.entries))
          (λ state. omega (arith, sync.counter-add_entry made state s.entries))
          (λ state other. absurd cc) inv.open_barriers;
  }
  Step-Inv {s} (passed i {state = full} lt found enough) inv = record {
    counted = λ state. omega (arith, inv.counted state, sum-next s.done i state lt found);
    open_barriers =
        open-next s.done i (sync.counter s.entries) (sync.counter s.entries) (λ state. omega arith)
          (λ state other.
            let same : full ≡ state = cc in subst (λ a. n ≤ sync.counter s.entries a) same enough)
          inv.open_barriers;
  }

  pub Reach-Inv : {s t : System sync} → Reach sync n program s t → Inv s → Inv t
  Reach-Inv start inv = inv
  Reach-Inv (later r st) inv = Step-Inv st (Reach-Inv r inv)
