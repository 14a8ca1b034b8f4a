-- ===== src/TopologyFiles/Saved.antt =====
-- The two files that the command leaves, over a file system that keeps what is written.
use gossipsub_testground.Base.{
  ltb, ℕ, ◌+◌, ◌≤◌, ◌<◌, ◌≡◌, refl, sym, ap, ◌∙◌, ◌⊎◌, inl, inr, List, [], ◌∷◌, ◌++◌, Option, some,
  true, ◌||◌, false, Bool-cases, ok, err, if◌then◌else◌, same_text, same_text_self, same_text-eq,
  String, append-nil, append_assoc, word, All, All-append, arith,
}
use gossipsub_testground.Base.Decimal.{codes}
use gossipsub_testground.Base.Maps.{elem}
use gossipsub_testground.GenTopology.Params.{Params}
use gossipsub_testground.GenTopology.Params
use gossipsub_testground.GenTopology.Network.{Network, peers_differ, all_peers}
use gossipsub_testground.GenTopology.Network.Sound.{Covers}
use gossipsub_testground.GenTopology.Rng.{Rng, IsLawful}
use gossipsub_testground.GenTopology.Generate.Total.{generate_outcome}
use gossipsub_testground.TopologyFiles.{
  RunParams, FileSystem, bad_network, writeln, edge_line, write_peers, write_edges, gen_dotfile,
  gen_config_file, gen_and_save,
}
use gossipsub_testground.TopologyFiles.Dot.{
  edges_from, edges, edge_lines, dot_text, Fits, read_dot, read_dot-dot_text,
}

-- The documented behaviour, on a disk that does not fail: `create` empties the file, a write adds to
-- its end, and other files keep what they hold.
pub record IsFileSystem (fs : FileSystem) : Type 0 where
  pub contents : fs.State → String → List ℕ
  pub creates :
      (file : String) (s : fs.State)
      → (t : fs.State) × (fs.create file s ≡ some t)
        × ((other : String)
            → contents t other ≡ (if same_text other file then [] else contents s other))
  pub writes :
      (file : String) (text : List ℕ) (s : fs.State)
      → (t : fs.State) × (fs.write file text s ≡ some t)
        × ((other : String)
            → contents t other
              ≡ (if same_text other file then contents s file ++ text else contents s other))

edge_lines-append : (es fs : List (ℕ × ℕ)) → edge_lines (es ++ fs) ≡ edge_lines es ++ edge_lines fs
edge_lines-append [] fs = refl
edge_lines-append ((a, b) ∷ es) fs =
    rw (edge_lines-append es fs)
      (sym (append_assoc (writeln (edge_line a b)) (edge_lines es) (edge_lines fs)))

module _ {fs : FileSystem} (lawful : IsFileSystem fs) where
  abbrev Adds : String → List ℕ → fs.State → fs.State → Type 0
  Adds file text s t =
      (other : String)
      → lawful.contents t other
        ≡ (if same_text other file then lawful.contents s file ++ text else lawful.contents s other)

  Adds-nil : (file : String) (s : fs.State) → Adds file [] s s
  Adds-nil file s other = elim (Bool-cases (same_text other file)) [
    | inl same ↦
        rw (same, append-nil (lawful.contents s file))
          (ap (lawful.contents s) (same_text-eq other file same))
    | inr differs ↦ rw differs refl
  ]

  at_file :
      (file : String) (text : List ℕ) (s t : fs.State)
      → Adds file text s t
      → lawful.contents t file ≡ lawful.contents s file ++ text
  at_file file text s t added = rw (same_text_self file file refl) at (added file)

  Adds-append :
      (file : String) (x y : List ℕ) (s t u : fs.State)
      → Adds file x s t
      → Adds file y t u
      → Adds file (x ++ y) s u
  Adds-append file x y s t u first second other = ground (
    arith,
    at_file file x s t first,
    first other,
    second other,
    append_assoc (lawful.contents s file) x y,
  )

  write_peers-Adds :
      (file : String) (peer_a : ℕ) (peers : List ℕ) (s : fs.State)
      → (t : fs.State) × (write_peers fs file peer_a peers s ≡ ok t)
        × Adds file (edge_lines (edges_from peer_a peers)) s t
  unfolding write_peers
  write_peers-Adds file peer_a [] s = (s, refl, Adds-nil file s)
  write_peers-Adds file peer_a (peer_b ∷ peers) s =
      let (t, written, added) = lawful.writes file (writeln (edge_line peer_a peer_b)) s in
      let (u, others, more) = write_peers-Adds file peer_a peers t in
      (u, rw written others, Adds-append file _ _ s t u added more)

  write_edges-Adds :
      (file : String) (outbound_peers : List (ℕ × List ℕ)) (s : fs.State)
      → (t : fs.State) × (write_edges fs file outbound_peers s ≡ ok t)
        × Adds file (edge_lines (edges outbound_peers)) s t
  unfolding write_edges
  write_edges-Adds file [] s = (s, refl, Adds-nil file s)
  write_edges-Adds file ((peer_a, peers) ∷ rest) s =
      let (t, written, added) = write_peers-Adds file peer_a peers s in
      let (u, others, more) = write_edges-Adds file rest t in
      (
        u,
        rw written others,
        rw (edge_lines-append (edges_from peer_a peers) (edges rest))
            (Adds-append file _ _ s t u added more),
      )

  gen_dotfile_contents :
      (file : String) (outbound_peers : List (ℕ × List ℕ)) (s : fs.State)
      → (t : fs.State) × (gen_dotfile fs file outbound_peers s ≡ ok t)
        × (lawful.contents t file ≡ dot_text (edges outbound_peers))
  unfolding gen_dotfile
  gen_dotfile_contents file outbound_peers s =
      let (s1, created, emptied) = lawful.creates file s in
      let (s2, headed, head) = lawful.writes file (writeln (codes "digraph {")) s1 in
      let (s3, listed, middle) = write_edges-Adds file outbound_peers s2 in
      let (s4, closed, foot) = lawful.writes file (writeln (codes "}")) s3 in
      let self = same_text_self file file refl in
      let empty : lawful.contents s1 file ≡ [] = rw self at (emptied file) in
      (
        s4,
        rw (created, headed, listed) (rw closed),
        at_file file (writeln (codes "}")) s3 s4 foot
            ∙ ap (λ text. text ++ writeln (codes "}"))
                (at_file file (edge_lines (edges outbound_peers)) s2 s3 middle
                  ∙ ap (λ text. text ++ edge_lines (edges outbound_peers))
                      (at_file file (writeln (codes "digraph {")) s1 s2 head
                        ∙ ap (λ text. text ++ writeln (codes "digraph {")) empty))
            ∙ append_assoc (writeln (codes "digraph {")) (edge_lines (edges outbound_peers))
                (writeln (codes "}")),
      )

  gen_config_file_contents :
      (to_json : Network → Option (List ℕ)) (file other : String) (network : Network)
      (json : List ℕ) (s : fs.State)
      → to_json network ≡ some json
      → same_text other file ≡ false
      → (t : fs.State) × (gen_config_file fs to_json file network s ≡ ok t)
        × (lawful.contents t file ≡ json)
        × (lawful.contents t other ≡ lawful.contents s other)
  unfolding gen_config_file
  gen_config_file_contents to_json file other network json s encoded differs =
      let (s1, created, emptied) = lawful.creates file s in
      let (s2, written, added) = lawful.writes file json s1 in
      let self = same_text_self file file refl in
      let empty : lawful.contents s1 file ≡ [] = rw self at (emptied file) in
      (
        s2,
        rw (created, encoded) (rw written),
        at_file file json s1 s2 added ∙ ap (λ text. text ++ json) empty,
        ground (arith, added other, emptied other),
      )

elem-append : (v : ℕ) (xs ys : List ℕ) → elem v (xs ++ ys) ≡ (elem v xs || elem v ys)
elem-append v [] ys = refl
elem-append v (x ∷ xs) ys = ground (arith, elem-append v xs ys)

edges_from-Fits :
    (peer_a : ℕ) (peers : List ℕ)
    → peer_a < word
    → ((v : ℕ) → elem v peers ≡ true → v < word)
    → All Fits (edges_from peer_a peers)
edges_from-Fits peer_a [] ha hs = tt
edges_from-Fits peer_a (peer_b ∷ peers) ha hs =
    ((ha, hs peer_b (ground arith)), edges_from-Fits peer_a peers ha (λ v e. hs v (ground arith)))

edges-Fits :
    (op : List (ℕ × List ℕ))
    → ((v : ℕ) → elem v (all_peers op) ≡ true → v < word)
    → All Fits (edges op)
unfolding all_peers
edges-Fits [] hs = tt
edges-Fits ((peer_a, peers) ∷ rest) hs =
    let split = λ (v : ℕ). elem-append v (peers ++ peer_a ∷ []) (all_peers rest) in
    let inner = λ (v : ℕ). elem-append v peers (peer_a ∷ []) in
    All-append Fits (edges_from peer_a peers) (edges rest)
      (edges_from-Fits peer_a peers (hs peer_a (ground (arith, split peer_a, inner peer_a)))
        (λ v e. hs v (ground (arith, split v, inner v))))
      (edges-Fits rest (λ v e. hs v (ground (arith, split v))))

-- The arguments for which `Params::new` returns `Ok`, with a node that has validators: without one, the
-- debug build panics in `Network::generate`.
pub record IsAccepted (p : RunParams) : Type 0 where
  pub nodes_fit : p.total_nodes_with_vals + p.total_nodes < word
  pub some_nodes : 0 < p.total_nodes_with_vals
  pub some_validators : 0 < p.total_validators
  pub range_fits : p.min_peers_per_node ≤ p.max_peers_per_node_inc

abbrev accepted_params : RunParams → Params
accepted_params p = record {
  seed = p.seed;
  total_validators = p.total_validators;
  total_nodes_with_vals = p.total_nodes_with_vals;
  total_nodes = p.total_nodes_with_vals + p.total_nodes;
  connections_range = record { first = p.min_peers_per_node; last = p.max_peers_per_node_inc };
}

new-accepted :
    (p : RunParams)
    → IsAccepted p
    → Params.new p.seed p.total_validators p.total_nodes_with_vals p.total_nodes
        p.min_peers_per_node p.max_peers_per_node_inc
      ≡ ok (accepted_params p)
new-accepted p a =
    (Params.new-eq-ok_iff p.seed p.total_validators p.total_nodes_with_vals p.total_nodes
        p.min_peers_per_node p.max_peers_per_node_inc (accepted_params p)
        (omega (arith, a.nodes_fit)) (omega (arith, a.nodes_fit))).1
      (a.nodes_fit, omega (arith, a.some_nodes), a.some_validators, a.range_fits, refl)

covered-Fits : (n : ℕ) (op : List (ℕ × List ℕ)) → n < word → Covers n op → All Fits (edges op)
covered-Fits n op fits covers = edges-Fits op (λ v e. ground (arith, covers v))

module _ (r : Rng) (random : IsLawful r) {fs : FileSystem} (lawful : IsFileSystem fs)
    (to_json : Network → Option (List ℕ))
    (encodes : (n : Network) → (json : List ℕ) × (to_json n ≡ some json)) where
  -- With accepted arguments and a node with validators, a lawful generator, encodable networks, a
  -- disk that does not fail and two different file names, the command ends with the error about the
  -- dialed peers or leaves a dot file that reads back as exactly the dialed edges of a network and
  -- a network file with its JSON; that network has as many nodes as the sum of the two arguments
  -- for nodes.
  pub gen_and_save_outcome :
      (p : RunParams) (s : fs.State)
      → IsAccepted p
      → same_text p.dotfile_name p.config_file_name ≡ false
      → (gen_and_save fs to_json r p s ≡ err (bad_network peers_differ))
        ⊎ ((n : Network) × (t : fs.State) × (gen_and_save fs to_json r p s ≡ ok t)
            × (read_dot (lawful.contents t p.dotfile_name) ≡ some (edges n.outbound_peers))
            × (to_json n ≡ some (lawful.contents t p.config_file_name))
            × (n.params.total_nodes ≡ p.total_nodes_with_vals + p.total_nodes)
            × Covers (p.total_nodes_with_vals + p.total_nodes) n.outbound_peers)
  unfolding gen_and_save
  gen_and_save_outcome p s a differ =
      let made = new-accepted p a in
      let no_overflow : ltb (p.total_nodes_with_vals + p.total_nodes) word ≡ true =
        ground (arith, a.nodes_fit) in
      let some_node : ltb 0 p.total_nodes_with_vals ≡ true = ground (arith, a.some_nodes) in
      let valid =
        Params.new-IsValid p.seed p.total_validators p.total_nodes_with_vals p.total_nodes
          p.min_peers_per_node p.max_peers_per_node_inc (accepted_params p) made in
      elim (generate_outcome r random (accepted_params p) valid) [
        | inl refused ↦ inl (rw (no_overflow, made, some_node, refused) refl)
        | inr (n, generated, same, part, covers) ↦
            let (s', drawn, text) = gen_dotfile_contents lawful p.dotfile_name n.outbound_peers s in
            let (json, encoded) = encodes n in
            let (t, saved, config, kept) =
              gen_config_file_contents lawful to_json p.config_file_name p.dotfile_name n json s'
                encoded differ in
            inr (
              n,
              t,
              rw (no_overflow, made, some_node, generated, drawn) saved,
              ap read_dot (kept ∙ text)
                  ∙ read_dot-dot_text (edges n.outbound_peers)
                      (covered-Fits _ n.outbound_peers a.nodes_fit covers),
              encoded ∙ ap some (sym config),
              ap (λ (q : Params). q.total_nodes) same,
              covers,
            )
      ]
