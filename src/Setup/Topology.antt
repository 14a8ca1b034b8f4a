-- ===== src/Setup/Topology.antt =====
-- The peers that a generated network has a node dial.
use gossipsub_testground.Base.{
  ℕ, ◌<◌, ◌≡◌, ◌≢◌, refl, subst, sym, inl, inr, List, [], ◌∷◌, ok, All, Option-cases, ==_self,
  arith,
}
use gossipsub_testground.Base.Counting.{count}
use gossipsub_testground.Base.Maps.{get}
use gossipsub_testground.GenTopology.Params.{Params}
use gossipsub_testground.GenTopology.Params
use gossipsub_testground.GenTopology.Network.{Network}
use gossipsub_testground.GenTopology.Network
use gossipsub_testground.GenTopology.Network.Sound.{new_of_IsPartition}
use gossipsub_testground.GenTopology.Rng.{Rng, IsLawful}
use gossipsub_testground.GenTopology.Generate.{generate}
use gossipsub_testground.GenTopology.Generate.Assign.Partition.{assigned}
use gossipsub_testground.GenTopology.Generate.Connect.{Links, connect_nodes}
use gossipsub_testground.GenTopology.Generate.Connect.Invariant.{Invariant}
use gossipsub_testground.GenTopology.Generate.Connect.Views.{link, peers_of}
use gossipsub_testground.GenTopology.Generate.Connect.Sound.{link_nodes-Invariant}
use gossipsub_testground.Setup.{outbound_peers_of}

All-of_count : {P : ℕ → Type 0} (xs : List ℕ) → ((b : ℕ) → 0 < count b xs → P b) → All P xs
All-of_count [] h = tt
All-of_count (x ∷ xs) h =
    (h x (ground (arith, ==_self x)), All-of_count xs (λ b some_b. h b (omega arith)))

outbound_peers_of-peers_of :
    (node_id : ℕ) (m : List (ℕ × List ℕ)) → outbound_peers_of node_id m ≡ peers_of node_id m
unfolding outbound_peers_of peers_of
outbound_peers_of-peers_of node_id m = elim (Option-cases (get node_id m)) [
  | inl absent ↦ rw absent refl
  | inr (peers, present) ↦ rw present refl
]

-- The nodes that `a` dials in a network that the loop made.
abbrev pub AreOthers : (n a : ℕ) → List ℕ → Type 0
AreOthers n a = All (λ b. (b < n) × (b ≢ a))

dialed_other :
    (params : Params) (l : Links) (a b : ℕ)
    → Invariant params.connections_range params.total_nodes [] l
    → 0 < count b (peers_of a l.outbound_peers)
    → (b < params.total_nodes) × (b ≢ a)
dialed_other params l a b inv dialed = elim (Option-cases (link a b l)) [
  | inl unlinked ↦ absurd (ground (arith, inv.outbound a b, unlinked, dialed))
  | inr (f, linked) ↦
      let (inside_a, inside_b, different) = inv.inside a b f linked in
      (inside_b, λ same. different (sym same))
]

peers_in_Links :
    (params : Params) (l : Links) (a : ℕ)
    → Invariant params.connections_range params.total_nodes [] l
    → AreOthers params.total_nodes a (outbound_peers_of a l.outbound_peers)
peers_in_Links params l a inv =
    rw (outbound_peers_of-peers_of a l.outbound_peers) (
      All-of_count (peers_of a l.outbound_peers) (λ b dialed. dialed_other params l a b inv dialed))

pub generated_peers :
    (r : Rng) (lawful : IsLawful r) (params : Params) (network : Network) (a : ℕ)
    → Params.IsValid params
    → generate r params ≡ ok network
    → AreOthers params.total_nodes a (outbound_peers_of a network.outbound_peers)
unfolding generate connect_nodes
generated_peers r lawful params network a valid made_network =
    let (va, gen, made, part) = assigned r lawful params (r.seed_from_u64 params.seed) in
    let (l, gen', linked, inv) = link_nodes-Invariant r lawful params gen valid in
    let result : generate r params ≡ Network.new params va l.outbound_peers =
      rw (made, linked) refl in
    elim (new_of_IsPartition params va l.outbound_peers valid.some_validators part) [
      | inl refused ↦ absurd (cc (result, refused, made_network))
      | inr (cover, accepted) ↦
          let same : record {
            params = params;
            validator_assignments = va;
            outbound_peers = l.outbound_peers;
          }
              ≡ network =
            cc (result, accepted, made_network) in
          subst (λ n. AreOthers params.total_nodes a (outbound_peers_of a n.outbound_peers)) same
            (peers_in_Links params l a inv)
    ]
