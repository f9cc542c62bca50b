-- ===== src/Chat.antt =====
-- The chat endpoints of internal/controller/chat over the stores, the limiter and the turn loop.
pub mod Turns
pub mod Stream
pub mod Invoke
