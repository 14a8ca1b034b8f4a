-- ===== src/GenTopology/Generate.antt =====
-- `Network::generate` of eth_consensus/utils/gen_topology/src/lib.rs, over any generator of random
-- numbers. A `Vec` that is popped is a list whose last element goes first.
pub mod Assign
pub mod Connect
pub mod Total
use mathlib.Core.List.{reverse}
use gossipsub_testground.Base.{
  ℕ, ◌-◌, List, [], ◌∷◌, ◌++◌, Outcome, ok, err, expect, ◌>>=◌, wrapping_sub, range_from,
}
use gossipsub_testground.GenTopology.Params.{Params}
use gossipsub_testground.GenTopology.Network.{Network, NetworkError}
use gossipsub_testground.GenTopology.Network
use gossipsub_testground.GenTopology.Rng.{Rng}
use Assign.{assign_validators}
use Connect.{connect_nodes}

module _ (r : Rng) where
  unfoldable pub generate : Params → Outcome NetworkError Network
  generate params = do
    (assignments, gen) ← assign_validators r params (r.seed_from_u64 params.seed)
    (outbound_peers, _) ← connect_nodes r params gen
    Network.new params assignments outbound_peers
