-- ===== src/Conversation.antt =====
-- internal/conversation: the transcript stores, the locks and limits around a turn, and the
-- configuration that selects them.
pub mod Key
pub mod KeyLaws
pub mod Interface
pub mod Memory
pub mod Cache
pub mod Tables
pub mod Sql
pub mod Limiter
pub mod Coordinator
pub mod Config
pub mod Lock
pub mod TurnLoop
pub mod Registry
