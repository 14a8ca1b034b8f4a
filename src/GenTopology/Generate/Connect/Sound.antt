-- ===== src/GenTopology/Generate/Connect/Sound.antt =====
-- What the block of `Network::generate` that connects the nodes returns, for any lawful generator.
use mathlib.Core.List.{reverse, reverse_perm}
use mathlib.Core.List.Perm
use gossipsub_testground.Base.{
  ℕ, zero, suc, ◌+◌, ◌≤◌, ◌<◌, ◌≡◌, ◌≢◌, refl, ◌∙◌, ◌⊎◌, inl, inr, List, [], ◌∷◌, none, some, Bool,
  not, ◌&&◌, arith, length, ltb, ◌==◌, if◌then◌else◌, Bool-cases, ok,
}
use gossipsub_testground.Base.Counting.{count, count_if, count_if-perm}
use gossipsub_testground.Base.Maps.{get, insert, get-insert}
use gossipsub_testground.GenTopology.Params.{Params, RangeInclusive}
use gossipsub_testground.GenTopology.Params
use gossipsub_testground.GenTopology.Rng.{Rng, IsLawful}
use gossipsub_testground.GenTopology.Generate.Connect.{
  Topology, Links, connections_from, expect_connections, try_connections, link_nodes,
}
use gossipsub_testground.GenTopology.Generate.Connect.Possible.{is_pair, count-all_connections}
use gossipsub_testground.GenTopology.Generate.Connect.Trial.{Node, try_connection-Tried}
use gossipsub_testground.GenTopology.Generate.Connect.Views.{link, peers_of}
use gossipsub_testground.GenTopology.Generate.Connect.Invariant.{
  Invariant, IsBounded, IsFullAt, IsLinked, Tried-Invariant,
}

module _ (r : Rng) (lawful : IsLawful r) (range : RangeInclusive)
    (fits : range.first ≤ range.last) where
  -- What `expect_connections` makes of the entry of each node.
  abbrev IsDrawn : ℕ → Topology → Type 0
  IsDrawn p t = (e : Node) × (get p t ≡ some e) × (e.1 ≡ []) × IsBounded range e

  get-expect_connections :
      (p : ℕ) (gen : r.State) (i k : ℕ) (t : Topology)
      → (p < i) ⊎ (i + k ≤ p)
      → get p (expect_connections r range gen i k t).0 ≡ get p t
  unfolding expect_connections
  get-expect_connections p gen i zero t lt = refl
  get-expect_connections p gen i (suc k) t lt =
      let x = (r.gen_range gen range).0 in
      let gen' = (r.gen_range gen range).1 in
      get-expect_connections p gen' (suc i) k (insert i (x, []) t) (outside lt)
      ∙ ground (arith, get-insert p i (x, []) t)
    where
      outside : (p < i) ⊎ (i + suc k ≤ p) → (p < suc i) ⊎ (suc i + k ≤ p)
      outside (inl h) = inl (omega arith)
      outside (inr h) = inr (omega arith)

  expect_connections-IsDrawn :
      (p : ℕ) (gen : r.State) (i k : ℕ) (t : Topology)
      → i ≤ p
      → p < i + k
      → IsDrawn p (expect_connections r range gen i k t).0
  unfolding expect_connections
  expect_connections-IsDrawn p gen i zero t le lt = absurd (omega arith)
  expect_connections-IsDrawn p gen i (suc k) t le lt = elim (Bool-cases (p == i)) [
    | inl eq ↦ (
      (x, []),
      get-expect_connections p gen' (suc i) k (insert i (x, []) t) (inl (ground arith))
          ∙ ground (arith, get-insert p i (x, []) t),
      refl,
      record {
        drawn_above = (lawful.in_range gen range fits).0;
        drawn_below = (lawful.in_range gen range fits).1;
        within = omega arith;
      },
    )
    | inr ne ↦
        expect_connections-IsDrawn p gen' (suc i) k (insert i (x, []) t) (ground arith)
          (omega arith)
  ]
    where
      x : ℕ
      x = (r.gen_range gen range).0

      gen' : r.State
      gen' = (r.gen_range gen range).1

  try_connections-Invariant :
      (n : ℕ) (cs : List (ℕ × ℕ)) (l : Links) (gen : r.State)
      → Invariant range n cs l
      → (l' : Links) × (gen' : r.State) × (try_connections r cs (l, gen) ≡ ok (l', gen'))
        × Invariant range n [] l'
  unfolding try_connections
  try_connections-Invariant n [] l gen inv = (l, gen, refl, inv)
  try_connections-Invariant n ((a, b) ∷ cs) l gen inv =
      let (lt, bound) = inv.proper a b (ground arith) in
      let (ea, ha, _) = inv.node a (omega arith) in
      let (eb, hb, _) = inv.node b bound in
      let (l1, gen1, e1, tried) = try_connection-Tried r a b ea eb l gen ha hb (omega arith) in
      let (l2, gen2, e2, inv2) =
        try_connections-Invariant n cs l1 gen1
          (Tried-Invariant range n a b cs l l1 ea eb inv ha hb tried) in
      (l2, gen2, rw e1 e2, inv2)

full_end :
    (a b : ℕ) (l : Links)
    → link a b l ≡ none
    → IsLinked a b l ⊎ IsFullAt a l ⊎ IsFullAt b l
    → IsFullAt a l ⊎ IsFullAt b l
full_end a b l h (inl (f, e)) = absurd cc
full_end a b l h (inr full) = full

module _ (r : Rng) (lawful : IsLawful r) (params : Params) (gen : r.State)
    (valid : Params.IsValid params) where
  abbrev n : ℕ
  n = params.total_nodes

  abbrev range : RangeInclusive
  range = params.connections_range

  drawn : Topology
  drawn = (expect_connections r range gen 0 n []).0

  drawn_gen : r.State
  drawn_gen = (expect_connections r range gen 0 n []).1

  tries : List (ℕ × ℕ)
  tries = reverse (r.shuffle (ℕ × ℕ) drawn_gen (connections_from n 0 n)).0

  start : Links
  start = record { topology = drawn; outbound_peers = [] }

  count-tries : (a b : ℕ) → count_if (is_pair a b) tries ≡ (if ltb a b && ltb b n then 1 else 0)
  unfolding tries
  count-tries a b =
      count_if-perm (is_pair a b)
        (Perm.trans (reverse_perm _) (lawful.shuffled (ℕ × ℕ) drawn_gen _))
      ∙ count-all_connections a b n

  drawn-IsDrawn : (p : ℕ) → p < n → IsDrawn r lawful range valid.range_fits p drawn
  unfolding drawn
  drawn-IsDrawn p lt =
      expect_connections-IsDrawn r lawful range valid.range_fits p gen 0 n [] (omega arith)
        (omega arith)

  link-start : (a b : ℕ) → link a b start ≡ none
  unfolding start drawn link
  link-start a b = elim (Bool-cases (ltb a n)) [
    | inl lt ↦ let (e, q, empty, _) = drawn-IsDrawn a (ground arith) in ground (arith, q, empty)
    | inr ge ↦ ground (
      arith,
      get-expect_connections r lawful range valid.range_fits a gen 0 n [] (inr (ground arith)),
    )
  ]

  start-Invariant : Invariant range n tries start
  unfolding start peers_of
  start-Invariant = record {
    node = λ p lt. let (e, q, _, bounded) = drawn-IsDrawn p lt in (e, q, bounded);
    symmetric = λ a b f e. absurd (cc (link-start a b));
    inside = λ a b f e. absurd (cc (link-start a b));
    sorted = tt;
    outbound = λ a b. ground (arith, link-start a b);
    proper = λ a b h. ground (arith, count-tries a b);
    single = λ a b. ground (arith, count-tries a b);
    pending = λ a b h. link-start a b;
    settled = λ a b lt bound h. absurd (ground (arith, count-tries a b));
  }

  -- The loop ends with nothing left to try, and the invariant holds.
  pub link_nodes-Invariant :
      (l : Links) × (gen' : r.State) × (link_nodes r params gen ≡ ok (l, gen'))
      × Invariant params.connections_range params.total_nodes [] l
  unfolding link_nodes tries start drawn drawn_gen
  link_nodes-Invariant =
      try_connections-Invariant r lawful range valid.range_fits n tries start
        (r.shuffle (ℕ × ℕ) drawn_gen (connections_from n 0 n)).1 start-Invariant

  -- For any lawful generator and valid parameters, connecting the nodes does not panic; then each
  -- node has drawn a number of connections in the given range and has at most as many connections.
  pub link_nodes_bounds :
      (l : Links) × (gen' : r.State) × (link_nodes r params gen ≡ ok (l, gen'))
      × ((p : ℕ)
          → p < params.total_nodes
          → (e : Node) × (get p l.topology ≡ some e)
            × (params.connections_range.first ≤ e.0)
            × (e.0 ≤ params.connections_range.last)
            × (length e.1 ≤ e.0))
  link_nodes_bounds =
      let (l, gen', e, inv) = link_nodes-Invariant in
      (
        l,
        gen',
        e,
        λ p lt.
            let (node, q, b) = inv.node p lt in (node, q, b.drawn_above, b.drawn_below, b.within),
      )

  -- For any lawful generator and valid parameters, the connections are between two different nodes,
  -- are recorded at both ends with opposite directions, and `outbound_peers` lists a node among the
  -- peers that another dials once if the connection is outbound there, and else not at all.
  pub link_nodes_directions :
      (l : Links) × (gen' : r.State) × (link_nodes r params gen ≡ ok (l, gen'))
      × ((a b : ℕ) (f : Bool)
          → link a b l ≡ some f
          → (link b a l ≡ some (not f))
            × (a < params.total_nodes)
            × (b < params.total_nodes)
            × (a ≢ b))
      × ((a b : ℕ)
          → count b (peers_of a l.outbound_peers)
            ≡ elim (link a b l) [ none ↦ 0 | some f ↦ if f then 1 else 0 ])
  link_nodes_directions =
      let (l, gen', e, inv) = link_nodes-Invariant in
      (
        l,
        gen',
        e,
        λ a b f h. let (x, y, z) = inv.inside a b f h in (inv.symmetric a b f h, x, y, z),
        λ a b. ground (arith, inv.outbound a b),
      )

  -- For any lawful generator and valid parameters, the loop stops only when no connection is left
  -- that it could add: of two nodes that are not connected one has all the connections it has drawn.
  pub link_nodes_maximal :
      (l : Links) × (gen' : r.State) × (link_nodes r params gen ≡ ok (l, gen'))
      × ((a b : ℕ)
          → a < b
          → b < params.total_nodes
          → link a b l ≡ none
          → IsFullAt a l ⊎ IsFullAt b l)
  link_nodes_maximal =
      let (l, gen', e, inv) = link_nodes-Invariant in
      (l, gen', e, λ a b lt bound h. full_end a b l h (inv.settled a b lt bound refl))
