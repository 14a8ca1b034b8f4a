-- ===== src/GenTopology/Generate/Assign.antt =====
-- The first block of `Network::generate`: the shuffled validators are cut into one slice for each
-- node that has any.
pub mod Cuts
pub mod Partition
use gossipsub_testground.Base.{
  ℕ, zero, suc, ◌-◌, List, [], ◌∷◌, ◌++◌, map, Outcome, ok, panic, for_each, ◌>>=◌, wrapping_sub,
  ltb, if◌then◌else◌, ◌||◌, length, take, drop, range_from,
}
use gossipsub_testground.Base.Maps.{collect_map, ordered_of}
use gossipsub_testground.GenTopology.Params.{Params}
use gossipsub_testground.GenTopology.Network.{NetworkError}
use gossipsub_testground.GenTopology.Rng.{Rng}

-- `Vec::sort`.
unfoldable pub place : ℕ → List ℕ → List ℕ
place x [] = x ∷ []
place x (y ∷ ys) = if ltb y x then y ∷ place x ys else x ∷ y ∷ ys

unfoldable pub sort : List ℕ → List ℕ
sort [] = []
sort (x ∷ xs) = place x (sort xs)

-- `.windows(2)`
unfoldable pub windows : List ℕ → List (ℕ × ℕ)
windows [] = []
windows (x ∷ []) = []
windows (x ∷ y ∷ r) = (x, y) ∷ windows (y ∷ r)

-- `&xs[start..end]`, which panics out of range.
unfoldable pub slice : List ℕ → ℕ → ℕ → Outcome NetworkError (List ℕ)
slice xs start end_ =
    if ltb end_ start || ltb (length xs) end_
    then panic
    else ok (take (end_ - start) (drop start xs))

-- `.enumerate()`
unfoldable pub enumerate {ℓ} : {A : Type ℓ} → ℕ → List A → List (ℕ × A)
enumerate i [] = []
enumerate i (x ∷ xs) = (i, x) ∷ enumerate (suc i) xs

-- The closure of the `map` over the windows.
unfoldable pub assign_node : List ℕ → ℕ × (ℕ × ℕ) → Outcome NetworkError (ℕ × List ℕ)
unfolding slice
assign_node all_validators (node_id, (start, end_)) = do
  vals ← slice all_validators start end_
  ok (node_id, ordered_of vals)

unfoldable pub cut_validators : List ℕ → List ℕ → Outcome NetworkError (List (ℕ × List ℕ))
cut_validators all_validators cuts = do
  entries ← for_each (assign_node all_validators) (enumerate 0 (windows cuts))
  ok (collect_map [] entries)

module _ (r : Rng) where
  unfoldable pub assign_validators :
      Params → r.State → Outcome NetworkError (List (ℕ × List ℕ) × r.State)
  assign_validators params gen =
      let all_validators = range_from 0 params.total_validators in
      let (chosen, gen') =
        r.choose_multiple gen all_validators (wrapping_sub params.total_nodes_with_vals 1) in
      let (shuffled, gen'') = r.shuffle ℕ gen' all_validators in
      let cuts = sort (chosen ++ params.total_validators ∷ 0 ∷ []) in
      do assignments ← cut_validators shuffled cuts; ok (assignments, gen'')
