-- ===== src/Physical.antt =====
-- The physical plan (physical) and its optimizer (physical/optimizer).
pub mod Names
pub mod Nodes
pub mod Optimizer
pub mod Meaning
pub mod Support
pub mod OptimizerLaws
pub mod Partitions
mod Tests
