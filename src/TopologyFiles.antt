-- ===== src/TopologyFiles.antt =====
-- The command of eth_consensus/utils/gen_topology_files/src/main.rs, which generates a network and
-- writes it to two files: its edges for Graphviz, and the network itself by `serde_json`.
pub mod Dot
pub mod Saved
use gossipsub_testground.Base.{
  ℕ, List, [], ◌∷◌, ◌++◌, Option, Outcome, panic, ok, err, ◌>>=◌, ok_or, map_err, String, Bool,
  true, false, ltb, ◌+◌, word,
}
use gossipsub_testground.Base.Decimal.{codes, to_string}
use gossipsub_testground.GenTopology.Params.{Params, ParamsError}
use gossipsub_testground.GenTopology.Params
use gossipsub_testground.GenTopology.Network.{Network, NetworkError}
use gossipsub_testground.GenTopology.Rng.{Rng}
use gossipsub_testground.GenTopology.Generate.{generate}

pub record RunParams : Type 0 where
  pub seed : ℕ
  pub total_validators : ℕ
  pub total_nodes_with_vals : ℕ
  pub total_nodes : ℕ
  pub min_peers_per_node : ℕ
  pub max_peers_per_node_inc : ℕ
  pub dotfile_name : String
  pub config_file_name : String

-- What the command uses of `std::fs`: `File::create`, and a write at the end of the open file.
pub record FileSystem : Type 1 where
  pub State : Type 0
  pub create : (file : String) → State → Option State
  pub write : (file : String) (text : List ℕ) → State → Option State

-- The errors, with the message of the library behind the first two.
pub data SaveError : Type 0 where
  bad_params : (reason : ParamsError) → SaveError
  bad_network : (reason : NetworkError) → SaveError
  create_dotfile write_dotfile create_network_file encode_network write_network_file : SaveError

abbrev pub newline : ℕ
newline = 10

-- `writeln!(file, "\t{peer_a} -> {peer_b};")`, less the end of the line.
unfoldable pub edge_line : (peer_a peer_b : ℕ) → List ℕ
edge_line peer_a peer_b =
    9 ∷ (to_string peer_a ++ (codes " -> " ++ (to_string peer_b ++ codes ";")))

abbrev pub writeln : List ℕ → List ℕ
writeln line = line ++ (newline ∷ [])

-- The README runs the command as a debug build, where an overflow panics: that of the sum of the nodes
-- in `Params::new`, and that of `total_nodes_with_vals - 1` in `Network::generate`.
abbrev pub checked : {E A : Type 0} (fits : Bool) → Outcome E A → Outcome E A
checked true outcome = outcome
checked false outcome = panic

module _ (fs : FileSystem) where
  unfoldable pub write_peers :
      (file : String) (peer_a : ℕ) (dialed_peers : List ℕ) → fs.State → Outcome SaveError fs.State
  write_peers file peer_a [] s = ok s
  write_peers file peer_a (peer_b ∷ peers) s = do
    s' ← ok_or (fs.write file (writeln (edge_line peer_a peer_b)) s) write_dotfile
    write_peers file peer_a peers s'

  unfoldable pub write_edges :
      (file : String) (outbound_peers : List (ℕ × List ℕ)) → fs.State → Outcome SaveError fs.State
  write_edges file [] s = ok s
  write_edges file ((peer_a, dialed_peers) ∷ rest) s = do
    s' ← write_peers file peer_a dialed_peers s
    write_edges file rest s'

  unfoldable pub gen_dotfile :
      (file : String) (outbound_peers : List (ℕ × List ℕ)) → fs.State → Outcome SaveError fs.State
  gen_dotfile file outbound_peers s = do
    s1 ← ok_or (fs.create file s) create_dotfile
    s2 ← ok_or (fs.write file (writeln (codes "digraph {")) s1) write_dotfile
    s3 ← write_edges file outbound_peers s2
    ok_or (fs.write file (writeln (codes "}")) s3) write_dotfile

  -- `to_json` is `serde_json::to_string`.
  module _ (to_json : Network → Option (List ℕ)) where
    unfoldable pub gen_config_file :
        (file : String) → Network → fs.State → Outcome SaveError fs.State
    gen_config_file file network s = do
      s1 ← ok_or (fs.create file s) create_network_file
      network_rep ← ok_or (to_json network) encode_network
      ok_or (fs.write file network_rep s1) write_network_file

    unfoldable pub gen_and_save : Rng → RunParams → fs.State → Outcome SaveError fs.State
    gen_and_save r p s = do
      params ← checked (ltb (p.total_nodes_with_vals + p.total_nodes) word) (
          map_err bad_params (
            Params.new p.seed p.total_validators p.total_nodes_with_vals p.total_nodes
              p.min_peers_per_node p.max_peers_per_node_inc))
      network ←
          checked (ltb 0 params.total_nodes_with_vals) (map_err bad_network (generate r params))
      s' ← gen_dotfile p.dotfile_name network.outbound_peers s
      gen_config_file p.config_file_name network s'
