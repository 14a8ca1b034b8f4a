-- ===== src/Tests/Topologies.antt =====
-- A small network, generated by a generator that counts its calls.
use mathlib.Core.List.Perm
use gossipsub_testground.Base.{
  ℕ, zero, suc, ◌%◌, ◌≤◌, ◌<◌, ◌≡◌, ◌≢◌, ◌↔◌, ◌⊎◌, refl, ap, List, [], ◌∷◌, ◌++◌, Bool, not, none,
  some, ok, err, arith, length, take, drop, ltb, ◌==◌, if◌then◌else◌, word,
}
use gossipsub_testground.Base.Counting.{count}
use gossipsub_testground.Base.Maps.{
  get, insert, set_insert, set_of, set_eq, collect_map, ordered_of, ordered_insert,
}
use gossipsub_testground.GenTopology.Params.{
  RangeInclusive, Params, bad_number_of_nodes, new-eq-ok_iff, new-overflow_iff,
}
use gossipsub_testground.GenTopology.Params
use gossipsub_testground.GenTopology.Network.{Network, peers_differ}
use gossipsub_testground.GenTopology.Network
use gossipsub_testground.GenTopology.Network.Sound.{IsPartition, Covers, new-eq-ok_iff_IsPartition}
use gossipsub_testground.GenTopology.Rng.{Rng, IsLawful}
use gossipsub_testground.GenTopology.Generate.{generate}
use gossipsub_testground.GenTopology.Generate.Total.{generate_outcome}
use gossipsub_testground.GenTopology.Generate.Assign.{
  assign_validators, windows, sort, place, slice, enumerate, assign_node, cut_validators,
}
use gossipsub_testground.GenTopology.Generate.Connect.{
  Links, link_nodes, connections_from, push_peer, connect, is_full, add_link, expect_connections,
  try_connection, try_connections, connect_nodes,
}
use gossipsub_testground.GenTopology.Generate.Connect.Trial.{Node}
use gossipsub_testground.GenTopology.Generate.Connect.Views.{link, peers_of}
use gossipsub_testground.GenTopology.Generate.Connect.Invariant.{IsFullAt}
use gossipsub_testground.GenTopology.Generate.Connect.Sound.{
  link_nodes_bounds, link_nodes_directions, link_nodes_maximal,
}

abbrev pub counter : Rng
counter = record {
  State = ℕ;
  seed_from_u64 = λ seed. seed;
  choose_multiple = λ s xs n. (take n xs, suc s);
  shuffle = λ A s xs. (xs, suc s);
  gen_range = λ s b. (b.last, suc s);
  gen_ratio = λ s a b. (s % 2 == 0, suc s);
}

take-drop : {A : Type 0} (n : ℕ) (xs : List A) → take n xs ++ drop n xs ≡ xs
take-drop zero xs = refl
take-drop (suc n) [] = refl
take-drop (suc n) (x ∷ xs) = ap (λ r. x ∷ r) (take-drop n xs)

length-take :
    {A : Type 0} (n : ℕ) (xs : List A)
    → length (take n xs) ≡ (if ltb n (length xs) then n else length xs)
length-take zero [] = refl
length-take zero (x ∷ xs) = ground arith
length-take (suc n) [] = ground arith
length-take (suc n) (x ∷ xs) = ground (arith, length-take n xs)

pub counter-IsLawful : IsLawful counter
counter-IsLawful = record {
  chosen = λ s xs n. (drop n xs, rw (take-drop n xs) (Perm.refl xs));
  chosen_length = λ s xs n. length-take n xs;
  shuffled = λ A s xs. Perm.refl xs;
  in_range = λ s b h. (h, omega arith);
}

abbrev small : Params
small = record {
  seed = 40;
  total_validators = 5;
  total_nodes_with_vals = 2;
  total_nodes = 3;
  connections_range = record { first = 1; last = 2 };
}

small-IsValid : Params.IsValid small
small-IsValid = record {
  some_nodes = omega arith;
  some_validators = omega arith;
  vals_fit = omega arith;
  range_fits = omega arith;
}

generate_outcome_example :
    (generate counter small ≡ err peers_differ)
    ⊎ ((n : Network) × (generate counter small ≡ ok n)
        × (n.params ≡ small)
        × IsPartition 5 n.validator_assignments
        × Covers 3 n.outbound_peers)
generate_outcome_example = generate_outcome counter counter-IsLawful small small-IsValid

abbrev small_assignments : List (ℕ × List ℕ)
small_assignments = (0, 0 ∷ 1 ∷ []) ∷ (1, 2 ∷ 3 ∷ 4 ∷ []) ∷ []

abbrev small_peers : List (ℕ × List ℕ)
small_peers = (0, 1 ∷ []) ∷ (1, 2 ∷ []) ∷ []

new-eq-ok_iff_IsPartition_example :
    (Network.new small small_assignments small_peers
      ≡ ok (record {
        params = small;
        validator_assignments = small_assignments;
        outbound_peers = small_peers;
      }))
    ↔ (IsPartition 5 small_assignments
        × Covers 3 small_peers
        × (◌≡◌ {A = Network}
            (record {
              params = small;
              validator_assignments = small_assignments;
              outbound_peers = small_peers;
            })
            (record {
              params = small;
              validator_assignments = small_assignments;
              outbound_peers = small_peers;
            })))
new-eq-ok_iff_IsPartition_example =
    new-eq-ok_iff_IsPartition small small_assignments small_peers
      (record {
        params = small;
        validator_assignments = small_assignments;
        outbound_peers = small_peers;
      })
      (omega arith)

new-eq-ok_iff_example :
    (Params.new 40 5 2 1 1 2 ≡ ok small)
    ↔ ((3 < word) × (0 < 3) × (0 < 5) × (1 ≤ 2) × (small ≡ small))
new-eq-ok_iff_example = new-eq-ok_iff 40 5 2 1 1 2 small (omega arith) (omega arith)

link_nodes_bounds_example :
    (l : Links) × (gen' : ℕ) × (link_nodes counter small 42 ≡ ok (l, gen'))
    × ((p : ℕ)
        → p < 3
        → (e : Node) × (get p l.topology ≡ some e) × (1 ≤ e.0) × (e.0 ≤ 2) × (length e.1 ≤ e.0))
link_nodes_bounds_example = link_nodes_bounds counter counter-IsLawful small 42 small-IsValid

link_nodes_directions_example :
    (l : Links) × (gen' : ℕ) × (link_nodes counter small 42 ≡ ok (l, gen'))
    × ((a b : ℕ) (f : Bool)
        → link a b l ≡ some f
        → (link b a l ≡ some (not f)) × (a < 3) × (b < 3) × (a ≢ b))
    × ((a b : ℕ)
        → count b (peers_of a l.outbound_peers)
          ≡ elim (link a b l) [ none ↦ 0 | some f ↦ if f then 1 else 0 ])
link_nodes_directions_example =
    link_nodes_directions counter counter-IsLawful small 42 small-IsValid

link_nodes_maximal_example :
    (l : Links) × (gen' : ℕ) × (link_nodes counter small 42 ≡ ok (l, gen'))
    × ((a b : ℕ) → a < b → b < 3 → link a b l ≡ none → IsFullAt a l ⊎ IsFullAt b l)
link_nodes_maximal_example = link_nodes_maximal counter counter-IsLawful small 42 small-IsValid

abbrev pub pair : Params
pair = record {
  seed = 40;
  total_validators = 1;
  total_nodes_with_vals = 1;
  total_nodes = 2;
  connections_range = record { first = 1; last = 1 };
}

pub pair-IsValid : Params.IsValid pair
pair-IsValid = record {
  some_nodes = omega arith;
  some_validators = omega arith;
  vals_fit = omega arith;
  range_fits = omega arith;
}

abbrev pub pair_network : Network
pair_network = record {
  params = pair;
  validator_assignments = (0, 0 ∷ []) ∷ [];
  outbound_peers = (1, 0 ∷ []) ∷ [];
}

pub pair_generated : generate counter pair ≡ ok pair_network
unfolding generate assign_validators windows sort place slice enumerate assign_node cut_validators
    connections_from push_peer connect is_full add_link expect_connections try_connection
    try_connections link_nodes connect_nodes Network.total_vals Network.all_vals Network.all_peers
    Network.max_of Network.min_of Network.new insert set_insert set_of set_eq collect_map ordered_of
    ordered_insert
pair_generated = refl
