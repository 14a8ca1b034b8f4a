-- ===== src/Barriers/Paired.antt =====
-- Programs that wait at a barrier for the state they signalled last: their entries in order, and the
-- entry that a barrier waits for.
use gossipsub_testground.Base.{
  ℕ, zero, suc, ◌≤◌, ◌<◌, ◌≡◌, refl, ap, ◌∙◌, ◌⊎◌, inl, inr, List, [], ◌∷◌, Option, none, some,
  String, Bool, true, false, ◌&&◌, same_text, same_text-eq, and_left, and_right, same_text_self,
  get_elem?, take, length, arith,
}
use gossipsub_testground.Barriers.{Command, does, signal_entry, barrier}
use gossipsub_testground.Barriers.Counted.{entered}

abbrev is_last : String → Option String → Bool
is_last state none = false
is_last state (some last) = same_text last state

is_last-eq : (state : String) (last : Option String) → is_last state last ≡ true → last ≡ some state
is_last-eq state none h = absurd cc
is_last-eq state (some last) h = ap some (same_text-eq last state h)

module _ {A : Type 0} where
  -- The states signalled by a program, in order.
  abbrev pub states_of : List (Command A) → List String
  states_of [] = []
  states_of (does action ∷ cs) = states_of cs
  states_of (signal_entry state ∷ cs) = state ∷ states_of cs
  states_of (barrier state ∷ cs) = states_of cs

  -- `last` is the state signalled before these commands.
  abbrev pub is_paired : (last : Option String) → List (Command A) → Bool
  is_paired last [] = true
  is_paired last (does action ∷ cs) = is_paired last cs
  is_paired last (signal_entry state ∷ cs) = is_paired (some state) cs
  is_paired last (barrier state ∷ cs) = is_last state last && is_paired last cs

  -- How many entries are among the first `k` commands.
  abbrev pub made : ℕ → List (Command A) → ℕ
  made k cs = length (states_of (take k cs))

  -- A barrier waits for the entry made last.
  awaited_from :
      (last : Option String) (cs : List (Command A)) (k : ℕ) {state : String}
      → is_paired last cs ≡ true
      → get_elem? cs k ≡ some (barrier state)
      → ((made k cs ≡ 0) × (last ≡ some state))
        ⊎ ((e : ℕ) × (made k cs ≡ suc e) × (get_elem? (states_of cs) e ≡ some state))
  awaited_from last [] k paired found = absurd cc
  awaited_from last (does action ∷ cs) zero paired found = absurd cc
  awaited_from last (does action ∷ cs) (suc k) paired found = awaited_from last cs k paired found
  awaited_from last (signal_entry other ∷ cs) zero paired found = absurd cc
  awaited_from last (signal_entry other ∷ cs) (suc k) {state} paired found =
      elim (awaited_from (some other) cs k paired found) [
        | inl (no_entry, same) ↦ inr (0, ap suc no_entry, same)
        | inr (e, count, here) ↦ inr (suc e, ap suc count, here)
      ]
  awaited_from last (barrier other ∷ cs) zero {state} paired found =
      let same : other ≡ state = cc in
      inl (refl, is_last-eq other last (and_left (is_last other last) _ paired) ∙ ap some same)
  awaited_from last (barrier other ∷ cs) (suc k) paired found =
      awaited_from last cs k (and_right (is_last other last) _ paired) found

  pub awaited :
      (cs : List (Command A)) (k : ℕ) {state : String}
      → is_paired none cs ≡ true
      → get_elem? cs k ≡ some (barrier state)
      → (e : ℕ) × (made k cs ≡ suc e) × (get_elem? (states_of cs) e ≡ some state)
  awaited cs k paired found = elim (awaited_from none cs k paired found) [
    | inl (no_entry, absent) ↦ absurd cc
    | inr entry ↦ entry
  ]

  pub entered_of_made :
      (cs : List (Command A)) (k e : ℕ) {state : String}
      → get_elem? (states_of cs) e ≡ some state
      → e < made k cs
      → 1 ≤ entered state k cs
  entered_of_made [] k e found lt = absurd cc
  entered_of_made (does action ∷ cs) zero e found lt = absurd (omega arith)
  entered_of_made (does action ∷ cs) (suc k) e found lt =
      omega (arith, entered_of_made cs k e found lt)
  entered_of_made (barrier other ∷ cs) zero e found lt = absurd (omega arith)
  entered_of_made (barrier other ∷ cs) (suc k) e found lt =
      omega (arith, entered_of_made cs k e found lt)
  entered_of_made (signal_entry other ∷ cs) zero e found lt = absurd (omega arith)
  entered_of_made (signal_entry other ∷ cs) (suc k) zero {state} found lt =
      let same : other ≡ state = cc in ground (arith, same_text_self other state same)
  entered_of_made (signal_entry other ∷ cs) (suc k) (suc e) found lt =
      omega (arith, entered_of_made cs k e found (omega arith))

  -- A program that is done has made all its entries.
  pub made_all :
      (cs : List (Command A)) (k : ℕ) → get_elem? cs k ≡ none → made k cs ≡ length (states_of cs)
  made_all [] zero ended = refl
  made_all [] (suc k) ended = refl
  made_all (c ∷ cs) zero ended = absurd cc
  made_all (does action ∷ cs) (suc k) ended = made_all cs k ended
  made_all (signal_entry state ∷ cs) (suc k) ended = ap suc (made_all cs k ended)
  made_all (barrier state ∷ cs) (suc k) ended = made_all cs k ended

module _ {ℓ} {B : Type ℓ} where
  pub lt_of_found : (xs : List B) (k : ℕ) {x : B} → get_elem? xs k ≡ some x → k < length xs
  lt_of_found [] k found = absurd cc
  lt_of_found (c ∷ xs) zero found = omega arith
  lt_of_found (c ∷ xs) (suc k) found = omega (arith, lt_of_found xs k found)

  pub le_of_ended : (xs : List B) (k : ℕ) → get_elem? xs k ≡ none → length xs ≤ k
  le_of_ended [] k ended = omega arith
  le_of_ended (c ∷ xs) zero ended = absurd cc
  le_of_ended (c ∷ xs) (suc k) ended = omega (arith, le_of_ended xs k ended)
