-- ===== src/Conversation/Cache.antt =====
-- internal/conversation/cache.go: CachedStore in front of a conversation store. The primary store is
-- any ConversationStore; the cache is an interface whose laws are what Redis documents of GET, SET
-- with a time to live, and DEL: an entry may expire at any call.
pub mod Defs
pub mod Coherence
pub mod Writes
pub mod Stale
mod Tests
