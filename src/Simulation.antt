-- ===== src/Simulation.antt =====
-- The `Network` of eth_consensus/simulation/src/network.rs and its main loop.
pub mod Topics
pub mod Validation
pub mod Accepted
pub mod Run
