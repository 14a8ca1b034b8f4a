-- ===== src/GenTopology/Generate/Total.antt =====
-- What `Network::generate` returns, over any lawful generator of random numbers.
use gossipsub_testground.Base.{◌≡◌, refl, ◌⊎◌, inl, inr, ok, err}
use gossipsub_testground.GenTopology.Params.{Params}
use gossipsub_testground.GenTopology.Params
use gossipsub_testground.GenTopology.Network.{Network, peers_differ}
use gossipsub_testground.GenTopology.Network.Sound.{IsPartition, Covers, new_of_IsPartition}
use gossipsub_testground.GenTopology.Rng.{Rng, IsLawful}
use gossipsub_testground.GenTopology.Generate.{generate}
use gossipsub_testground.GenTopology.Generate.Assign.Partition.{assigned}
use gossipsub_testground.GenTopology.Generate.Connect.{connect_nodes}
use gossipsub_testground.GenTopology.Generate.Connect.Sound.{link_nodes-Invariant}

-- For any lawful generator and valid parameters, `Network::generate` does not panic, and the only
-- error that it returns is the one about the peers: otherwise it returns a network with the given
-- parameters in which each validator id below `total_validators` is assigned once and no other id
-- is, and in which the ends of the dialed edges are exactly the node ids.
pub generate_outcome :
    (r : Rng) (lawful : IsLawful r) (params : Params)
    → Params.IsValid params
    → (generate r params ≡ err peers_differ)
      ⊎ ((n : Network) × (generate r params ≡ ok n)
          × (n.params ≡ params)
          × IsPartition params.total_validators n.validator_assignments
          × Covers params.total_nodes n.outbound_peers)
unfolding generate connect_nodes
generate_outcome r lawful params valid =
    let (va, gen, made, part) = assigned r lawful params (r.seed_from_u64 params.seed) in
    let (l, gen', linked, _) = link_nodes-Invariant r lawful params gen valid in
    elim (new_of_IsPartition params va l.outbound_peers valid.some_validators part) [
      | inl refused ↦ inl (rw (made, linked) refused)
      | inr (cover, accepted) ↦ inr (
        record { params = params; validator_assignments = va; outbound_peers = l.outbound_peers },
        rw (made, linked) accepted,
        refl,
        part,
        cover,
      )
    ]
