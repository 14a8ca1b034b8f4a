-- ===== src/Setup/Validators.antt =====
-- The validators that the nodes run: each node takes its set from the network that it generates.
use gossipsub_testground.Base.{
  ℕ, suc, ◌≤◌, ◌<◌, ◌≡◌, ◌≢◌, refl, ◌∙◌, subst, inl, inr, List, [], ◌∷◌, none, ok, Bool-cases, ltb,
  ◌==◌, ==_self, false, if◌then◌else◌, word, arith,
}
use gossipsub_testground.Base.Counting.{
  count, count_if-append, sum_below, sum_below-cong, sum_below-grow, sum_below_zero,
}
use gossipsub_testground.Base.Maps.{get}
use gossipsub_testground.Base.Sets.{elem-count, count-set_of}
use gossipsub_testground.GenTopology.Params.{Params}
use gossipsub_testground.GenTopology.Params
use gossipsub_testground.GenTopology.Network.{Network, all_vals}
use gossipsub_testground.GenTopology.Network
use gossipsub_testground.GenTopology.Network.Sound.{IsPartition, new_of_IsPartition}
use gossipsub_testground.GenTopology.Rng.{Rng, IsLawful}
use gossipsub_testground.GenTopology.Generate.{generate}
use gossipsub_testground.GenTopology.Generate.Assign.Cuts.{IsNumbered, HasKeysBelow}
use gossipsub_testground.GenTopology.Generate.Assign.Partition.{assigned-IsNumbered}
use gossipsub_testground.GenTopology.Generate.Connect.{connect_nodes}
use gossipsub_testground.GenTopology.Generate.Connect.Sound.{link_nodes-Invariant}
use gossipsub_testground.Setup.{or_empty, validator_set_of}

get-below : (i j : ℕ) (es : List (ℕ × List ℕ)) → IsNumbered (suc i) es → j ≤ i → get j es ≡ none
get-below i j [] numbered le = refl
get-below i j ((k, w) ∷ es) numbered le =
    ground (arith, numbered.0, get-below (suc i) j es numbered.1)

-- The validators of a node in the assignment, with their repetitions.
abbrev runs : ℕ → ℕ → List (ℕ × List ℕ) → ℕ
runs v node_id es = count v (or_empty (get node_id es))

runs-le : (v node_id : ℕ) (es : List (ℕ × List ℕ)) → runs v node_id es ≤ count v (all_vals es)
unfolding all_vals
runs-le v node_id [] = omega arith
runs-le v node_id ((k, w) ∷ es) = elim (Bool-cases (node_id == k)) [
  | inl here ↦ rw here (omega (arith, count_if-append {0} (λ x. x == v) w (all_vals es)))
  | inr there ↦
      rw there
        (omega (arith, runs-le v node_id es, count_if-append {0} (λ x. x == v) w (all_vals es)))
]

apart : (j k : ℕ) → j ≢ k → (j == k) ≡ false
apart j k differs = ground (arith, differs)

sum-runs :
    (n v i : ℕ) (es : List (ℕ × List ℕ))
    → IsNumbered i es
    → HasKeysBelow n es
    → sum_below n (λ node_id. runs v node_id es) ≡ count v (all_vals es)
unfolding all_vals
sum-runs n v i [] numbered below = sum_below_zero n
sum-runs n v i ((k, w) ∷ es) numbered below =
    sum_below-grow n (λ node_id. runs v node_id es) (λ node_id. runs v node_id ((k, w) ∷ es)) k
      (count v w) below.0
      (rw (==_self k, get-below i k es numbered.1 (omega (arith, numbered.0))) (omega arith))
      (λ j differs. rw (apart j k differs) refl)
    ∙ omega (
      arith,
      sum-runs n v (suc i) es numbered.1 below.1,
      count_if-append {0} (λ x. x == v) w (all_vals es),
    )

count-validator_set_of :
    (v node_id : ℕ) (es : List (ℕ × List ℕ))
    → count v (all_vals es) ≤ 1
    → count v (validator_set_of node_id es) ≡ runs v node_id es
unfolding validator_set_of
count-validator_set_of v node_id es once = ground (
  arith,
  runs-le v node_id es,
  count-set_of v (or_empty (get node_id es)),
  elem-count v (or_empty (get node_id es)),
)

module _ (r : Rng) (lawful : IsLawful r) (params : Params) (network : Network) where
  assignments-IsNumbered :
      Params.IsValid params
      → 0 < params.total_nodes_with_vals
      → params.total_nodes_with_vals < word
      → generate r params ≡ ok network
      → IsPartition params.total_validators network.validator_assignments
        × HasKeysBelow params.total_nodes_with_vals network.validator_assignments
        × IsNumbered 0 network.validator_assignments
  unfolding generate connect_nodes
  assignments-IsNumbered valid some_node fits made_network =
      let (va, gen, made, part, below, numbered) =
        assigned-IsNumbered r lawful params (r.seed_from_u64 params.seed) some_node fits in
      let (l, gen', linked, _) = link_nodes-Invariant r lawful params gen valid in
      let result : generate r params ≡ Network.new params va l.outbound_peers =
        rw (made, linked) refl in
      elim (new_of_IsPartition params va l.outbound_peers valid.some_validators part) [
        | inl refused ↦ absurd (cc (result, refused, made_network))
        | inr (cover, accepted) ↦
            let same : record {
              params = params;
              validator_assignments = va;
              outbound_peers = l.outbound_peers;
            }
                ≡ network =
              cc (result, accepted, made_network) in
            subst
              (λ n.
                IsPartition params.total_validators n.validator_assignments
                × HasKeysBelow params.total_nodes_with_vals n.validator_assignments
                × IsNumbered 0 n.validator_assignments)
              same (part, below, numbered)
      ]

  -- Over a network made for valid parameters, with nodes that have validators: among the sets of these
  -- nodes each validator id below the total is in exactly one, once, and every other id in none.
  pub validator_set_of_once :
      Params.IsValid params
      → 0 < params.total_nodes_with_vals
      → params.total_nodes_with_vals < word
      → generate r params ≡ ok network
      → (v : ℕ)
      → sum_below params.total_nodes_with_vals
          (λ node_id. count v (validator_set_of node_id network.validator_assignments))
        ≡ (if ltb v params.total_validators then 1 else 0)
  validator_set_of_once valid some_node fits made v =
      let (part, below, numbered) = assignments-IsNumbered valid some_node fits made in
      let va = network.validator_assignments in
      sum_below-cong params.total_nodes_with_vals (λ node_id. count v (validator_set_of node_id va))
        (λ node_id. runs v node_id va)
        (λ node_id. count-validator_set_of v node_id va (ground (arith, part v)))
      ∙ sum-runs params.total_nodes_with_vals v 0 va numbered below
      ∙ part v
