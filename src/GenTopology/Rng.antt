-- ===== src/GenTopology/Rng.antt =====
-- What `Network::generate` uses of the crates `rand` and `rand_chacha`: a generator of which each
-- call returns its next state too, and the documented behaviour of the calls.
use mathlib.Core.List.{Perm}
use gossipsub_testground.Base.{ℕ, ◌≤◌, ◌≡◌, Bool, List, ◌++◌, length, ltb, if◌then◌else◌}
use gossipsub_testground.GenTopology.Params.{RangeInclusive}

pub record Rng : Type 1 where
  pub State : Type 0
  pub seed_from_u64 : ℕ → State
  -- `choose_multiple` of a slice: the chosen elements.
  pub choose_multiple : State → List ℕ → ℕ → List ℕ × State
  -- `shuffle` of a slice.
  pub shuffle : (A : Type 0) → State → List A → List A × State
  pub gen_range : State → RangeInclusive → ℕ × State
  pub gen_ratio : State → ℕ → ℕ → Bool × State

-- `choose_multiple` picks without repetition the number asked for, or all if that is more; `shuffle`
-- permutes; `gen_range` stays in a range that is not empty.
pub record IsLawful (r : Rng) : Type 1 where
  pub chosen :
      (s : r.State) (xs : List ℕ) (n : ℕ)
      → (rest : List ℕ) × Perm ((r.choose_multiple s xs n).0 ++ rest) xs
  pub chosen_length :
      (s : r.State) (xs : List ℕ) (n : ℕ)
      → length (r.choose_multiple s xs n).0 ≡ (if ltb n (length xs) then n else length xs)
  pub shuffled : (A : Type 0) (s : r.State) (xs : List A) → Perm (r.shuffle A s xs).0 xs
  pub in_range :
      (s : r.State) (b : RangeInclusive)
      → b.first ≤ b.last
      → (b.first ≤ (r.gen_range s b).0) × ((r.gen_range s b).0 ≤ b.last)
