-- ===== src/GenTopology/Params.antt =====
-- `Params` of eth_consensus/utils/gen_topology/src/lib.rs: the constructor and what it refuses.
use gossipsub_testground.Base.{
  ℕ, ◌+◌, ◌≤◌, ◌<◌, ◌≡◌, ◌↔◌, arith, Outcome, ok, err, word, wrapping_add, ltb, ◌==◌, if◌then◌else◌,
}

-- `RangeInclusive<usize>`; it is empty if `first` is above `last`.
pub record RangeInclusive : Type 0 where
  pub first : ℕ
  pub last : ℕ

pub record Params : Type 0 where
  pub seed : ℕ
  pub total_validators : ℕ
  pub total_nodes_with_vals : ℕ
  pub total_nodes : ℕ
  pub connections_range : RangeInclusive

-- The four messages of the constructor.
pub data ParamsError : Type 0 where
  bad_number_of_nodes empty_network no_validators bad_connection_range : ParamsError

unfoldable pub new :
    (seed total_validators total_nodes_with_vals total_nodes_without_vals min_peers_per_node
      max_peers_per_node_inclusive : ℕ)
    → Outcome ParamsError Params
new seed total_validators total_nodes_with_vals total_nodes_without_vals min_peers max_peers =
    let total_nodes = wrapping_add total_nodes_with_vals total_nodes_without_vals in
    if ltb total_nodes total_nodes_with_vals
    then err bad_number_of_nodes
    else if total_nodes == 0
    then err empty_network
    else if total_validators == 0
    then err no_validators
    else if ltb max_peers min_peers
    then err bad_connection_range
    else ok (record {
      seed = seed;
      total_validators = total_validators;
      total_nodes_with_vals = total_nodes_with_vals;
      total_nodes = total_nodes;
      connections_range = record { first = min_peers; last = max_peers };
    })

-- What every `Params` that the constructor returns satisfies.
pub record IsValid (p : Params) : Type 0 where
  pub some_nodes : 0 < p.total_nodes
  pub some_validators : 0 < p.total_validators
  pub vals_fit : p.total_nodes_with_vals ≤ p.total_nodes
  pub range_fits : p.connections_range.first ≤ p.connections_range.last

pub new-IsValid : (seed v a b lo hi : ℕ) (p : Params) → new seed v a b lo hi ≡ ok p → IsValid p
unfolding new
new-IsValid seed v a b lo hi p h = ground arith

-- For node counts that fit in a `usize`, `Params::new` returns `Ok(p)` exactly when the sum of the
-- two counts does not overflow, there is a node and a validator, and the range of connections is
-- not empty; then `p` holds the arguments and the sum.
pub new-eq-ok_iff :
    (seed v a b lo hi : ℕ) (p : Params)
    → a < word
    → b < word
    → (new seed v a b lo hi ≡ ok p) ↔ (
        (a + b < word)
        × (0 < a + b)
        × (0 < v)
        × (lo ≤ hi)
        × (p ≡ record {
          seed = seed;
          total_validators = v;
          total_nodes_with_vals = a;
          total_nodes = a + b;
          connections_range = record { first = lo; last = hi };
        }))
unfolding new
new-eq-ok_iff seed v a b lo hi p ha hb = (λ h. ground arith, λ (o, n, m, r, e). ground arith)

-- The check that looks void, `total_nodes_with_vals > total_nodes`, is the overflow check: it fails
-- exactly when the sum of the two counts does not fit in a `usize`.
pub new-overflow_iff :
    (seed v a b lo hi : ℕ)
    → a < word
    → b < word
    → (new seed v a b lo hi ≡ err bad_number_of_nodes) ↔ (word ≤ a + b)
unfolding new
new-overflow_iff seed v a b lo hi ha hb = (λ h. ground arith, λ h. ground arith)
