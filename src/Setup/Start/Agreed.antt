-- ===== src/Setup/Start/Agreed.antt =====
-- The instances, each of which generates the network for itself, agree on it.
use gossipsub_testground.Base.{
  ℕ, ◌*◌, ◌<◌, ◌≡◌, ◌⊎◌, inl, inr, refl, sym, ap, ◌∙◌, List, Outcome, panic, ok, err, map_err,
  ◌>>=◌, ltb, if◌then◌else◌, word, arith,
}
use gossipsub_testground.Base.Counting.{count, sum_below}
use gossipsub_testground.GenTopology.Params.{Params}
use gossipsub_testground.GenTopology.Network.{peers_differ}
use gossipsub_testground.GenTopology.Rng.{Rng, IsLawful}
use gossipsub_testground.GenTopology.Generate.{generate}
use gossipsub_testground.GenTopology.Generate.Total.{generate_outcome}
use gossipsub_testground.Parameters.{InstanceParams}
use gossipsub_testground.Parameters.Topology.{parse_topology_params, SimulationError, parse_params}
use gossipsub_testground.Parameters.Topology.Read.{
  IsRead, parse_topology_params-eq-ok_iff, result_of, agree_bind,
  parse_params-parse_topology_params,
}
use gossipsub_testground.Setup.{outbound_peers_of, validator_set_of}
use gossipsub_testground.Setup.Topology.{AreOthers, generated_peers}
use gossipsub_testground.Setup.Validators.{validator_set_of_once}
use gossipsub_testground.Setup.Start.{
  Place, StartError, bad_params, bad_network, beacon_node_place, instance_place,
}

-- The places of all nodes: they have the same duration and parameters, each dials other nodes only,
-- and each validator has one node.
pub record AreAgreed (run : ℕ) (p : Params) (place : ℕ → Place (List ℕ)) : Type 0 where
  pub same_run : (node_id : ℕ) → (place node_id).run_duration ≡ run
  pub same_params : (node_id : ℕ) → (place node_id).params ≡ p
  pub others : (node_id : ℕ) → AreOthers p.total_nodes node_id (place node_id).outbound_peers
  pub once :
      (v : ℕ)
      → sum_below p.total_nodes_with_vals (λ node_id. count v (place node_id).validator_set)
        ≡ (if ltb v p.total_validators then 1 else 0)

module _ (r : Rng) (lawful : IsLawful r) (total_nodes : ℕ) (instance_params : InstanceParams)
    (run : ℕ) (p : Params) where
  -- For a node count whose product with 100 fits in 64 bits, parameters that can be read and leave
  -- nodes with validators, and a lawful generator: either every beacon node fails with the error
  -- about the dialed peers, or every one finds its place, with the duration and the parameters that
  -- were read; it dials only other nodes, and among the sets of the nodes with validators each
  -- validator id below the total is in exactly one, once, and every other id in none.
  pub beacon_node_place_outcome :
      total_nodes * 100 < word
      → IsRead total_nodes instance_params run p
      → 0 < p.total_nodes_with_vals
      → ((node_id : ℕ)
          → beacon_node_place r node_id total_nodes instance_params
            ≡ err (bad_network peers_differ))
        ⊎ ((place : ℕ → Place (List ℕ)) × ((node_id : ℕ)
              → beacon_node_place r node_id total_nodes instance_params ≡ ok (place node_id))
            × AreAgreed run p place)
  unfolding beacon_node_place
  beacon_node_place_outcome fits read some_node =
      let parsed : parse_topology_params total_nodes instance_params ≡ ok (run, p) =
        (parse_topology_params-eq-ok_iff total_nodes instance_params run p fits).1 read in
      elim (generate_outcome r lawful p read.valid) [
        | inl refused ↦ inl (λ node_id. rw (parsed, refused) refl)
        | inr (network, made, same, _, _) ↦ inr (
          λ node_id. record {
            run_duration = run;
            params = network.params;
            outbound_peers = outbound_peers_of node_id network.outbound_peers;
            validator_set = validator_set_of node_id network.validator_assignments;
          },
          λ node_id. rw (parsed, made) refl,
          record {
            same_run = λ node_id. refl;
            same_params = λ node_id. same;
            others = λ node_id. generated_peers r lawful p network node_id read.valid made;
            once =
                validator_set_of_once r lawful p network read.valid some_node
                  (omega (arith, fits, read.nodes_with_vals)) made;
          },
        )
      ]

-- The place with the peers of the instance itself.
abbrev pub own : ℕ → Place (List (ℕ × List ℕ)) → Place (List ℕ)
own node_id place = record {
  run_duration = place.run_duration;
  params = place.params;
  outbound_peers = outbound_peers_of node_id place.outbound_peers;
  validator_set = place.validator_set;
}

>>=-assoc :
    {E A B C : Type 0} (a : Outcome E A) (f : A → Outcome E B) (g : B → Outcome E C)
    → ((a >>= f) >>= g) ≡ (a >>= (λ x. f x >>= g))
>>=-assoc panic f g = refl
>>=-assoc (err reason) f g = refl
>>=-assoc (ok value) f g = refl

result_of-map_err :
    {E F A : Type 0} (f : E → F) (a : Outcome E A) → result_of (map_err f a) ≡ result_of a
result_of-map_err f panic = refl
result_of-map_err f (err reason) = refl
result_of-map_err f (ok value) = refl

finish :
    {E F G N A B : Type 0} (e : E → F) (e' : E → G) (f : N → A) (h : A → B) (o : Outcome E N)
    → result_of ((map_err e o >>= (λ n. ok (f n))) >>= (λ x. ok (h x)))
      ≡ result_of (map_err e' o >>= (λ n. ok (h (f n))))
finish e e' f h panic = refl
finish e e' f h (err reason) = refl
finish e e' f h (ok n) = refl

-- From the same parameters and node id, an instance of eth_consensus finds the same place as one of
-- scoring, if what it dials is looked up in the peers of all nodes, or both find none; the errors
-- may differ.
pub instance_place-beacon_node_place :
    (r : Rng) (node_id total_nodes : ℕ) (instance_params : InstanceParams)
    → result_of
        (do place ← instance_place r node_id total_nodes instance_params; ok (own node_id place))
      ≡ result_of (beacon_node_place r node_id total_nodes instance_params)
unfolding instance_place beacon_node_place
instance_place-beacon_node_place r node_id total_nodes ip =
    ap (result_of {E = StartError SimulationError}) (
      >>=-assoc {A = ℕ × Params} {B = Place (List (ℕ × List ℕ))}
        (map_err bad_params (parse_params total_nodes ip)) _ (λ place. ok (own node_id place)))
    ∙ agree_bind _ _ _ _
        (result_of-map_err bad_params (parse_params total_nodes ip)
          ∙ parse_params-parse_topology_params total_nodes ip
          ∙ sym (result_of-map_err bad_params (parse_topology_params total_nodes ip)))
        (λ read. finish bad_network bad_network _ (own node_id) (generate r read.1))
