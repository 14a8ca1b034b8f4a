-- ===== src/Attacker.antt =====
-- The attacking peers, scoring/src/attacker.rs and censoring/src/attacker.rs: the two files have
-- the same `MaliciousBehaviour`.
pub mod Wire
pub mod Fragment
pub mod Behaviour
pub mod Target
pub mod History
