-- ===== src/Tests/Files.antt =====
-- The command that writes a network to two files, on a disk in memory.
use gossipsub_testground.Base.{
  ℕ, ◌≡◌, refl, ◌⊎◌, List, [], ◌∷◌, ◌++◌, Option, some, ok, err, if◌then◌else◌, same_text, String,
  arith,
}
use gossipsub_testground.Base.Decimal.{to_string, parse_u64}
use gossipsub_testground.GenTopology.Network.{Network, peers_differ}
use gossipsub_testground.GenTopology.Network.Sound.{Covers}
use gossipsub_testground.Tests.Topologies.{counter, counter-IsLawful}
use gossipsub_testground.TopologyFiles.{RunParams, FileSystem, bad_network, gen_and_save, edge_line}
use gossipsub_testground.TopologyFiles.Dot.{
  edges, dot_text, read_dot, lines, read_edges, read_edge, read_number, span_digits,
}
use gossipsub_testground.TopologyFiles.Saved.{IsFileSystem, IsAccepted, gen_and_save_outcome}

abbrev memory : FileSystem
memory = record {
  State = String → List ℕ;
  create = λ file s. some (λ other. if same_text other file then [] else s other);
  write = λ file text s. some (λ other. if same_text other file then s file ++ text else s other);
}

abbrev memory-IsFileSystem : IsFileSystem memory
memory-IsFileSystem = record {
  contents = λ s file. s file;
  creates = λ file s. (_, refl, λ other. refl);
  writes = λ file text s. (_, refl, λ other. refl);
}

abbrev arguments : RunParams
arguments = record {
  seed = 3;
  total_validators = 5;
  total_nodes_with_vals = 2;
  total_nodes = 1;
  min_peers_per_node = 1;
  max_peers_per_node_inc = 2;
  dotfile_name = "network.dot";
  config_file_name = "network.json";
}

arguments-IsAccepted : IsAccepted arguments
arguments-IsAccepted = record {
  nodes_fit = omega arith;
  some_nodes = omega arith;
  some_validators = omega arith;
  range_fits = omega arith;
}

abbrev to_json : Network → Option (List ℕ)
to_json n = some (n.params.seed ∷ [])

gen_and_save_outcome_example :
    (gen_and_save memory to_json counter arguments (λ file. []) ≡ err (bad_network peers_differ))
    ⊎ ((n : Network) × (t : String → List ℕ) × (gen_and_save memory to_json counter arguments
            (λ file. [])
          ≡ ok t)
        × (read_dot (t "network.dot") ≡ some (edges n.outbound_peers))
        × (to_json n ≡ some (t "network.json"))
        × (n.params.total_nodes ≡ 3)
        × Covers 3 n.outbound_peers)
gen_and_save_outcome_example =
    gen_and_save_outcome counter counter-IsLawful memory-IsFileSystem to_json
      (λ n. (n.params.seed ∷ [], refl)) arguments (λ file. []) arguments-IsAccepted refl

-- The dot file of two edges, which reads back.
two_edges : read_dot (dot_text ((0, 1) ∷ (1, 12) ∷ [])) ≡ some ((0, 1) ∷ (1, 12) ∷ [])
unfolding read_dot edge_line lines read_edges to_string read_edge read_number parse_u64 span_digits
two_edges = refl
