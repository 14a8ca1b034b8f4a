-- ===== src/Setup/Dialed.antt =====
-- The dialing of the peers over a generated network.
use gossipsub_testground.Base.{
  ℕ, suc, ◌+◌, ◌<◌, ◌≡◌, ◌≢◌, refl, ◌∙◌, ◌⊎◌, inl, inr, List, [], ◌∷◌, Option, none, some, Outcome,
  ok, true, All, length, Bool-cases, ◌==◌, arith,
}
use gossipsub_testground.Base.Maps.{get, insert, get-insert, keys, elem, collect_map}
use gossipsub_testground.GenTopology.Params.{Params}
use gossipsub_testground.GenTopology.Params
use gossipsub_testground.GenTopology.Network.{Network}
use gossipsub_testground.GenTopology.Rng.{Rng, IsLawful}
use gossipsub_testground.GenTopology.Generate.{generate}
use gossipsub_testground.Metrics.Model.{Never}
use gossipsub_testground.Setup.{
  Swarm, InstanceInfo, others, participants_of, dial_each, outbound_peers_of, dial_peers,
  dial_peers_at, dial_found, or_empty,
}
use gossipsub_testground.Setup.Topology.{AreOthers, generated_peers}

module _ {V : Type 0} where
  abbrev pub Has : ℕ → List (ℕ × V) → Type 0
  Has b m = (v : V) × (get b m ≡ some v)

  collect_map-Has :
      (b : ℕ) (m xs : List (ℕ × V)) → Has b m ⊎ (elem b (keys xs) ≡ true) → Has b (collect_map m xs)
  unfolding collect_map
  collect_map-Has b m [] (inl has) = has
  collect_map-Has b m [] (inr found) = absurd cc
  collect_map-Has b m ((k, v) ∷ xs) given = elim (Bool-cases (b == k)) [
    | inl here ↦ collect_map-Has b (insert k v m) xs (inl (v, get-insert b k v m ∙ rw here refl))
    | inr elsewhere ↦ elim given [
      | inl (w, has) ↦
          collect_map-Has b (insert k v m) xs (inl (w, get-insert b k v m ∙ rw elsewhere has))
      | inr found ↦ collect_map-Has b (insert k v m) xs (inr (ground (arith, found, elsewhere)))
    ]
  ]

-- Every participant can be dialed.
abbrev pub Reachable : Swarm → Type 0
Reachable swarm =
    (peer_id : swarm.PeerId) (multiaddr : swarm.Multiaddr) (state : swarm.State)
    → (state' : swarm.State) × (swarm.dial peer_id multiaddr state ≡ some state')

module _ (swarm : Swarm) where
  ok_number :
      (a b : ℕ) (state : swarm.State)
      → a ≡ b
      → ◌≡◌ {A = Outcome Never (ℕ × swarm.State)} (ok (a, state)) (ok (b, state))
  ok_number a b state same = cc

  others-keys :
      (node_id b : ℕ) (es : List (ℕ × InstanceInfo swarm))
      → b ≢ node_id
      → elem b (keys es) ≡ true
      → elem b (keys (others swarm node_id es)) ≡ true
  others-keys node_id b [] other found = found
  others-keys node_id b ((k, info) ∷ es) other found =
      ground (arith, others-keys node_id b es other)

  dial_each-ok :
      (participants : List (ℕ × InstanceInfo swarm)) (peers : List ℕ) (dialed : ℕ)
      (state : swarm.State)
      → Reachable swarm
      → All (λ b. Has b participants) peers
      → (state' : swarm.State) × (dial_each swarm participants peers dialed state
          ≡ ok (dialed + length peers, state'))
  unfolding dial_each
  dial_each-ok participants [] dialed state reachable known =
      (state, ok_number dialed (dialed + 0) state (omega arith))
  dial_each-ok participants (peer ∷ peers) dialed state reachable ((info, found), known) =
      let (next, dials) = reachable info.peer_id info.multiaddr state in
      let (state', rest) = dial_each-ok participants peers (suc dialed) next reachable known in
      (
        state',
        rw (found, dials)
            (rest
              ∙ ok_number (suc dialed + length peers) (dialed + suc (length peers)) state'
                  (omega arith)),
      )

  pub All-known :
      (n node_id : ℕ) (infos : List (ℕ × InstanceInfo swarm)) (peers : List ℕ)
      → ((b : ℕ) → b < n → elem b (keys infos) ≡ true)
      → AreOthers n node_id peers
      → All (λ b. Has b (participants_of swarm node_id infos)) peers
  unfolding participants_of
  All-known n node_id infos [] announced inside = tt
  All-known n node_id infos (peer ∷ peers) announced ((below, other), inside) = (
    collect_map-Has peer [] (others swarm node_id infos)
        (inr (others-keys node_id peer infos other (announced peer below))),
    All-known n node_id infos peers announced inside,
  )

  -- Over a network generated for valid parameters by a lawful generator, if the infos of all nodes
  -- are collected and the swarm accepts each dial, `dial_peers` of a node does not panic and dials
  -- as many peers as the network lists for it.
  pub dial_peers_outcome :
      (r : Rng) (lawful : IsLawful r) (params : Params) (network : Network) (node_id : ℕ)
      (infos : List (ℕ × InstanceInfo swarm)) (state : swarm.State)
      → Params.IsValid params
      → generate r params ≡ ok network
      → ((b : ℕ) → b < params.total_nodes → elem b (keys infos) ≡ true)
      → Reachable swarm
      → (state' : swarm.State) × (dial_peers swarm
            (participants_of swarm node_id infos)
            (outbound_peers_of node_id network.outbound_peers)
            state
          ≡ ok (length (outbound_peers_of node_id network.outbound_peers), state'))
  unfolding dial_peers
  dial_peers_outcome r lawful params network node_id infos state valid made announced reachable =
      let peers = outbound_peers_of node_id network.outbound_peers in
      let (state', dialed) =
        dial_each-ok (participants_of swarm node_id infos) peers 0 state reachable (
          All-known params.total_nodes node_id infos peers announced
            (generated_peers r lawful params network node_id valid made)) in
      (state', dialed ∙ ok_number (0 + length peers) (length peers) state' (omega arith))

  dial_found-or_empty :
      (participants : List (ℕ × InstanceInfo swarm)) (peers : Option (List ℕ)) (state : swarm.State)
      → dial_found swarm participants peers state
        ≡ dial_each swarm participants (or_empty peers) 0 state
  unfolding dial_each
  dial_found-or_empty participants none state = refl
  dial_found-or_empty participants (some peers) state = refl

  -- The two plans dial alike.
  pub dial_peers_at-dial_peers :
      (node_id : ℕ) (participants : List (ℕ × InstanceInfo swarm))
      (outbound_peers : List (ℕ × List ℕ)) (state : swarm.State)
      → dial_peers_at swarm node_id participants outbound_peers state
        ≡ dial_peers swarm participants (outbound_peers_of node_id outbound_peers) state
  unfolding dial_peers dial_peers_at outbound_peers_of
  dial_peers_at-dial_peers node_id participants outbound_peers state =
      dial_found-or_empty participants (get node_id outbound_peers) state
