-- ===== src/GenTopology/Generate/Connect.antt =====
-- The second block of `Network::generate`: each node gets a number of connections to reach, and the
-- possible connections are tried in a random order.
pub mod Trial
mod Possible
pub mod Views
pub mod Invariant
pub mod Sound
use mathlib.Core.List.{reverse}
use gossipsub_testground.Base.{
  ℕ, zero, suc, ◌-◌, List, [], ◌∷◌, ◌++◌, map, Bool, true, false, not, Option, none, some, Outcome,
  ok, panic, expect, ◌>>=◌, ltb, leb, ◌==◌, if◌then◌else◌, length, range_from,
}
use gossipsub_testground.Base.Maps.{get, insert}
use gossipsub_testground.GenTopology.Params.{Params, RangeInclusive}
use gossipsub_testground.GenTopology.Network.{NetworkError}
use gossipsub_testground.GenTopology.Rng.{Rng}

-- Node, number of connections to reach, and the connections with their `IsOutbound` flags.
abbrev pub Topology : Type 0
Topology = List (ℕ × (ℕ × List (ℕ × Bool)))

-- `(0..n).flat_map(|i| (i + 1..n).map(move |j| (i, j)))`, with `k` rounds of `i` left.
unfoldable pub connections_from : ℕ → ℕ → ℕ → List (ℕ × ℕ)
connections_from n i zero = []
connections_from n i (suc k) =
    map (λ j. (i, j)) (range_from (suc i) (n - suc i)) ++ connections_from n (suc i) k

-- `outbound_peers.entry(a).or_default().push(b)`
unfoldable pub push_peer : ℕ → ℕ → List (ℕ × List ℕ) → List (ℕ × List ℕ)
push_peer a b [] = (a, b ∷ []) ∷ []
push_peer a b ((k, peers) ∷ m) =
    if ltb a k
    then (a, b ∷ []) ∷ (k, peers) ∷ m
    else if a == k
    then (k, peers ++ b ∷ []) ∷ m
    else (k, peers) ∷ push_peer a b m

-- `topology.get_mut(&a).unwrap().1.insert(b, flag)`
unfoldable pub connect : ℕ → ℕ → Bool → Topology → Outcome NetworkError Topology
connect a b flag t = do
  (expected, current) ← expect (get a t)
  ok (insert a (expected, insert b flag current) t)

-- What the loop changes.
pub record Links : Type 0 where
  pub topology : Topology
  pub outbound_peers : List (ℕ × List ℕ)

unfoldable pub is_full : ℕ → Topology → Outcome NetworkError Bool
is_full a t = do (expected, current) ← expect (get a t); ok (leb expected (length current))

unfoldable pub add_link : ℕ → ℕ → Bool → Links → Outcome NetworkError Links
unfolding connect
add_link a b from_a_to_b l = do
  t ← connect a b from_a_to_b l.topology
  t' ← connect b a (not from_a_to_b) t
  ok (record {
    topology = t';
    outbound_peers =
        if from_a_to_b then push_peer a b l.outbound_peers else push_peer b a l.outbound_peers;
  })

module _ (r : Rng) where
  -- `for p in 0..total_nodes`, with `k` rounds left.
  unfoldable pub expect_connections :
      RangeInclusive → r.State → ℕ → ℕ → Topology → Topology × r.State
  expect_connections range gen p zero t = (t, gen)
  expect_connections range gen p (suc k) t =
      let (num_peers, gen') = r.gen_range gen range in
      expect_connections range gen' (suc p) k (insert p (num_peers, []) t)

  -- One round of `while let Some((a, b)) = all_connections.pop()`.
  unfoldable pub try_connection : ℕ × ℕ → Links × r.State → Outcome NetworkError (Links × r.State)
  try_connection (a, b) (l, gen) = do
    full_a ← is_full a l.topology
    if full_a then ok (l, gen) else do
      full_b ← is_full b l.topology
      if full_b
          then ok (l, gen)
          else do let draw = r.gen_ratio gen 3 5; l' ← add_link a b draw.0 l; ok (l', draw.1)

  unfoldable pub try_connections :
      List (ℕ × ℕ) → Links × r.State → Outcome NetworkError (Links × r.State)
  try_connections [] s = ok s
  try_connections (c ∷ cs) s = do s' ← try_connection c s; try_connections cs s'

  -- The block, up to the state of the loop that the warning about missing connections reads.
  unfoldable pub link_nodes : Params → r.State → Outcome NetworkError (Links × r.State)
  link_nodes params gen =
      let n = params.total_nodes in
      let (topology, gen') = expect_connections params.connections_range gen 0 n [] in
      let (all_connections, gen'') = r.shuffle (ℕ × ℕ) gen' (connections_from n 0 n) in
      try_connections (reverse all_connections)
        (record { topology = topology; outbound_peers = [] }, gen'')

  unfoldable pub connect_nodes :
      Params → r.State → Outcome NetworkError (List (ℕ × List ℕ) × r.State)
  connect_nodes params gen = do (l, gen') ← link_nodes params gen; ok (l.outbound_peers, gen')
