-- ===== src/Pipeline.antt =====
-- The chat pipeline, internal/ai/agent/chat_pipeline.
pub mod React
pub mod Adk
