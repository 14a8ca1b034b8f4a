-- ===== src/Barriers/Runs/Safe.antt =====
-- What a barrier guarantees in a run where errors are dropped: all of it to an instance that dropped none.
use gossipsub_testground.Base.{
  ℕ, ◌≤◌, ◌<◌, ◌≡◌, refl, ap, subst, ◌⊎◌, inl, inr, List, Option, some, String, Bool, true, false,
  Bool-cases, ◌==◌, ==_iff, get_elem?, arith,
}
use gossipsub_testground.Base.Counting.{sum_below, sum_below-le, sum_below_full}
use gossipsub_testground.Barriers.{Command, barrier, SyncService, System, next}
use gossipsub_testground.Barriers.Counted.{entered, entered-le, entries_of}
use gossipsub_testground.Barriers.Invariant.{next-cases, next_self, sum-next}
use gossipsub_testground.Barriers.Safety.{
  HasDone, is_guarded, is_prepared, guarded_barrier, prepared_action,
}
use gossipsub_testground.Barriers.Runs.{
  Awaited, Run, begin, worked, entered_state, went_through, dropped,
}

module _ {A : Type 0} (sync : SyncService) (n : ℕ) (program : ℕ → List (Command A))
    (drops : ℕ → Bool) (awaits : A → Option (Awaited A)) where
  record Bounded (errors : ℕ → ℕ) (s : System sync) : Type 0 where
    counted :
        (state : String)
        → sync.counter s.entries state ≤ sum_below n (λ i. entered state (s.done i) (program i))
    open_barriers :
        (i k : ℕ) (state : String)
        → errors i ≡ 0
        → get_elem? (program i) k ≡ some (barrier state)
        → k < s.done i
        → n ≤ sync.counter s.entries state

  -- The barriers behind the instances after a command of `i` that is no dropped one.
  open-kept :
      (errors done : ℕ → ℕ) (i : ℕ) (before after : String → ℕ)
      → ((state : String) → before state ≤ after state)
      → ((state : String) → get_elem? (program i) (done i) ≡ some (barrier state) → n ≤ after state)
      → ((j k : ℕ) (state : String)
          → errors j ≡ 0
          → get_elem? (program j) k ≡ some (barrier state)
          → k < done j
          → n ≤ before state)
      → (j k : ℕ) (state : String) → errors j ≡ 0
      → get_elem? (program j) k ≡ some (barrier state)
      → k < next i done j
      → n ≤ after state
  open-kept errors done i before after grows last old j k state none_dropped found below =
      elim (next-cases i j k done below) [
        | inl earlier ↦ omega (arith, old j k state none_dropped found earlier, grows state)
        | inr (same, now) ↦ last state (
            subst (λ b. get_elem? (program i) b ≡ some (barrier state)) now
              (subst (λ a. get_elem? (program a) k ≡ some (barrier state)) same found))
      ]

  Run-Bounded :
      {errors : ℕ → ℕ} {s : System sync}
      → Run sync n program drops awaits errors s
      → Bounded errors s
  Run-Bounded begin = record {
    counted = λ state. omega (arith, sync.counter-no_entries state);
    open_barriers = λ i k state none_dropped found below. absurd (omega arith);
  }
  Run-Bounded {errors} (worked {s = s} i run lt found ready) =
      let inv = Run-Bounded run in
      record {
        counted = λ state.
            omega (arith, inv.counted state, sum-next sync n program s.done i state lt found);
        open_barriers =
            open-kept errors s.done i (sync.counter s.entries) (sync.counter s.entries)
              (λ state. omega arith) (λ state other. absurd cc) inv.open_barriers;
      }
  Run-Bounded {errors} (entered_state {s = s} i {state = made} run lt found) =
      let inv = Run-Bounded run in
      record {
        counted = λ state. omega (
          arith,
          inv.counted state,
          sum-next sync n program s.done i state lt found,
          sync.counter-add_entry made state s.entries,
        );
        open_barriers =
            open-kept errors s.done i (sync.counter s.entries)
              (sync.counter (sync.add_entry made s.entries))
              (λ state. omega (arith, sync.counter-add_entry made state s.entries))
              (λ state other. absurd cc) inv.open_barriers;
      }
  Run-Bounded {errors} (went_through {s = s} i {state = full} run lt found enough) =
      let inv = Run-Bounded run in
      record {
        counted = λ state.
            omega (arith, inv.counted state, sum-next sync n program s.done i state lt found);
        open_barriers =
            open-kept errors s.done i (sync.counter s.entries) (sync.counter s.entries)
              (λ state. omega arith)
              (λ state other.
                let same : full ≡ state = cc in
                subst (λ a. n ≤ sync.counter s.entries a) same enough)
              inv.open_barriers;
      }
  Run-Bounded (dropped {errors} {s} i run lt found is drop) =
      let inv = Run-Bounded run in
      record {
        counted = λ state.
            omega (arith, inv.counted state, sum-next sync n program s.done i state lt found);
        open_barriers = λ j k state none_dropped here below. elim (Bool-cases (j == i)) [
          | inl self ↦
              let same = (==_iff j i).0 self in
              absurd (omega (arith, none_dropped, ap (next i errors) same, next_self i errors))
          | inr other ↦
              inv.open_barriers j k state (ground (arith, other, none_dropped)) here
                (ground (arith, other, below))
        ];
      }

  -- An instance that does not drop errors has dropped none.
  none_dropped :
      {errors : ℕ → ℕ} {s : System sync} (i : ℕ)
      → Run sync n program drops awaits errors s
      → drops i ≡ false
      → errors i ≡ 0
  none_dropped i begin keeps = refl
  none_dropped i (worked j run lt found ready) keeps = none_dropped i run keeps
  none_dropped i (entered_state j run lt found) keeps = none_dropped i run keeps
  none_dropped i (went_through j run lt found enough) keeps = none_dropped i run keeps
  none_dropped i (dropped {errors} j run lt found is drop) keeps = elim (Bool-cases (i == j)) [
    | inl self ↦ absurd (cc (ap drops ((==_iff i j).0 self), keeps, drop))
    | inr other ↦ ground (arith, other, none_dropped i run keeps)
  ]

  all_entered :
      {errors : ℕ → ℕ} (s : System sync) (state : String)
      → Bounded errors s
      → ((j : ℕ) → entries_of state (program j) ≤ 1)
      → n ≤ sync.counter s.entries state
      → (j : ℕ) → j < n
      → entered state (s.done j) (program j) ≡ 1
  all_entered s state inv once full =
      let at_most_one : (j : ℕ) → entered state (s.done j) (program j) ≤ 1 =
        λ j. omega (arith, entered-le state (program j) (s.done j), once j) in
      sum_below_full n (λ j. entered state (s.done j) (program j)) at_most_one
        (omega (
          arith,
          inv.counted state,
          full,
          sum_below-le n (λ j. entered state (s.done j) (program j)) at_most_one,
        ))

  -- Of an instance that has dropped no error, the actions behind the barrier come after those before
  -- the entry of each instance.
  pub run_orders :
      {errors : ℕ → ℕ} (s : System sync) (state : String) (first second : A → Bool) (i j : ℕ)
      → Run sync n program drops awaits errors s
      → (drops i ≡ false) ⊎ (errors i ≡ 0)
      → ((v : ℕ) → entries_of state (program v) ≤ 1)
      → is_guarded state second (program i) ≡ true
      → is_prepared state first (program j) ≡ true
      → j < n
      → HasDone second (s.done i) (program i)
      → HasDone first (s.done j) (program j)
  run_orders {errors} s state first second i j run strict once guarded prepared below done =
      let (k, action, below_k, here, it) = done in
      let (l, behind, found) = guarded_barrier state second (program i) k action guarded here it in
      let inv = Run-Bounded run in
      let zero_errors : errors i ≡ 0 = elim strict [
        | inl keeps ↦ none_dropped i run keeps
        | inr no_error ↦ no_error
      ] in
      prepared_action state first (program j) (s.done j) prepared (
        omega (
          arith,
          all_entered s state inv once (inv.open_barriers i l state zero_errors found (omega arith))
              j below,
        ))
