-- ===== src/GenTopology.antt =====
-- eth_consensus/utils/gen_topology: the network that a set of parameters and a seed determine.
pub mod Params
pub mod Network
pub mod Rng
pub mod Generate
