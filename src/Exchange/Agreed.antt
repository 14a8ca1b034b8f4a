-- ===== src/Exchange/Agreed.antt =====
-- What the instances collect: the infos in the order of their publication, so that all collect the
-- same, and a node knows the peers that it has to dial.
use gossipsub_testground.Base.{
  ℕ, ◌+◌, ◌<◌, ◌≡◌, refl, ap, ◌∙◌, List, [], ◌∷◌, ◌++◌, append_assoc, map, Option, some, true,
  Outcome, ok, length, length-append, same_text_self, String, arith,
}
use gossipsub_testground.Base.Maps.{keys, elem}
use gossipsub_testground.Exchange.{
  Json, Item, value, CollectError, Service, IsOrdered, collect, publish_and_collect,
}
use gossipsub_testground.GenTopology.Params.{Params}
use gossipsub_testground.GenTopology.Params
use gossipsub_testground.GenTopology.Network.{Network}
use gossipsub_testground.GenTopology.Rng.{Rng, IsLawful}
use gossipsub_testground.GenTopology.Generate.{generate}
use gossipsub_testground.Setup.{Swarm, InstanceInfo, participants_of, outbound_peers_of, dial_peers}
use gossipsub_testground.Setup.Dialed.{Reachable, dial_peers_outcome}

module _ (json : Json) where
  -- The entries of infos.
  abbrev pub entries : {A : Type 0} → (A → json.Value) → List A → List (Item json)
  entries written infos = map (λ info. value (written info)) infos

  entries-append :
      {A : Type 0} (written : A → json.Value) (xs ys : List A)
      → entries written (xs ++ ys) ≡ entries written xs ++ entries written ys
  entries-append written [] ys = refl
  entries-append written (x ∷ xs) ys =
      ap (λ l. value (written x) ∷ l) (entries-append written xs ys)

  module _ {A : Type 0} (decode : json.Value → Outcome (CollectError json) A)
      (written : A → json.Value) (reads : (info : A) → decode (written info) ≡ ok info) where
    pub collect_entries :
        (infos : List A) (rest : List (Item json))
        → collect json decode (length infos) (entries written infos ++ rest) ≡ ok infos
    unfolding collect
    collect_entries [] rest = refl
    collect_entries (info ∷ infos) rest = rw (reads info, collect_entries infos rest) refl

    module _ {service : Service json} (ordered : IsOrdered service) (encode : A → Option json.Value)
        (encodes : (info : A) → encode info ≡ some (written info))
        (others : service.State → service.State) where
      -- If the sync service yields the entries of a topic in order and the JSON of infos reads
      -- back, `publish_and_collect` returns the infos in the order of their publication, its own
      -- among them, as soon as as many are published as it asks for.
      pub publish_and_collect_outcome :
          (topic : String) (info : A) (count : ℕ) (s t : service.State) (earlier after : List A)
          (rest : List (Item json))
          → service.publish topic (written info) s ≡ some t
          → service.stream topic s ≡ entries written earlier
          → service.stream topic (others t)
            ≡ service.stream topic t ++ (entries written after ++ rest)
          → count ≡ length earlier + 1 + length after
          → publish_and_collect json decode service encode others topic info count s
            ≡ ok (earlier ++ (info ∷ after))
      unfolding publish_and_collect
      publish_and_collect_outcome topic info count s t earlier after rest published first second
            all =
          let infos = earlier ++ (info ∷ after) in
          let own : service.stream topic t
              ≡ entries written earlier ++ entries written (info ∷ []) =
            ordered.stream_of_publish topic topic (written info) s t published
            ∙ rw (same_text_self topic topic refl)
                (ap (λ l. l ++ entries written (info ∷ [])) first) in
          let stream : service.stream topic (others t) ≡ entries written infos ++ rest =
            second
            ∙ ap (λ l. l ++ (entries written after ++ rest)) own
            ∙ simp (entries-append, append_assoc) in
          let enough : count ≡ length infos =
            all ∙ omega (arith, length-append earlier (info ∷ after)) in
          rw (encodes info, published)
            (ap (λ n. collect json decode n (service.stream topic (others t))) enough
              ∙ ap (collect json decode (length infos)) stream
              ∙ collect_entries infos rest)

  module _ (swarm : Swarm)
      (decode : json.Value → Outcome (CollectError json) (ℕ × InstanceInfo swarm))
      (written : ℕ × InstanceInfo swarm → json.Value)
      (reads : (info : ℕ × InstanceInfo swarm) → decode (written info) ≡ ok info)
      {service : Service json} (ordered : IsOrdered service)
      (encode : ℕ × InstanceInfo swarm → Option json.Value)
      (encodes : (info : ℕ × InstanceInfo swarm) → encode info ≡ some (written info))
      (others : service.State → service.State) where
    -- If the sync service yields the entries of a topic in order, the JSON of infos reads back, and
    -- the infos on the topic are those of all nodes of a network that a lawful generator made for
    -- valid parameters, then a node that publishes its info collects the infos and, with a swarm
    -- that accepts each dial, dials without a panic as many peers as the network lists for it.
    pub exchange_dials :
        (r : Rng) (lawful : IsLawful r) (params : Params) (network : Network) (node_id : ℕ)
        (own : InstanceInfo swarm) (topic : String) (count : ℕ) (s t : service.State)
        (earlier after : List (ℕ × InstanceInfo swarm)) (rest : List (Item json))
        (state : swarm.State)
        → Params.IsValid params
        → generate r params ≡ ok network
        → service.publish topic (written (node_id, own)) s ≡ some t
        → service.stream topic s ≡ entries written earlier
        → service.stream topic (others t)
          ≡ service.stream topic t ++ (entries written after ++ rest)
        → count ≡ length earlier + 1 + length after
        → ((b : ℕ)
            → b < params.total_nodes
            → elem b (keys (earlier ++ ((node_id, own) ∷ after))) ≡ true)
        → Reachable swarm
        → (infos : List (ℕ × InstanceInfo swarm)) × (state' : swarm.State) × (publish_and_collect
              json decode service encode others topic
              (node_id, own)
              count
              s
            ≡ ok infos)
          × (dial_peers swarm
                (participants_of swarm node_id infos)
                (outbound_peers_of node_id network.outbound_peers)
                state
              ≡ ok (length (outbound_peers_of node_id network.outbound_peers), state'))
    exchange_dials r lawful params network node_id own topic count s t earlier after rest state
          valid made published first second all announced reachable =
        let infos = earlier ++ ((node_id, own) ∷ after) in
        let (state', dialed) =
          dial_peers_outcome swarm r lawful params network node_id infos state valid made announced
            reachable in
        (
          infos,
          state',
          publish_and_collect_outcome decode written reads ordered encode encodes others topic
              (node_id, own) count s t earlier after rest published first second all,
          dialed,
        )
