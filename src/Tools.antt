-- ===== src/Tools.antt =====
-- The agent's tools, internal/ai/tools.
pub mod Policy
pub mod Sql
pub mod Alerts
