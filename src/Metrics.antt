-- ===== src/Metrics.antt =====
-- The metrics of gossipsub that each plan turns into queries of InfluxDB.
pub mod Model
pub mod Queries
pub mod Outcomes
pub mod Families
pub mod Joins
pub mod Recorded
pub mod Scoring
pub mod Simulation
pub mod Censoring
pub mod Instances
