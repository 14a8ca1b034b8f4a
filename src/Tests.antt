-- ===== src/Tests.antt =====
-- Concrete instances of what the model takes as a parameter, and each property at a concrete input.
mod Barriers
mod Files
mod Topologies
mod Setups
mod Starts
mod Peers
mod Messages
mod Records
mod Exchanges
mod Runs
mod Attackers
mod Metrics
