-- ===== src/Evaluation.antt =====
-- The evaluation tool, internal/evaluation.
pub mod Dataset
pub mod Metrics
pub mod Judge
pub mod Documents
pub mod Stages
pub mod Runner
