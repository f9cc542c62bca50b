-- ===== src/Conversation/KeyLaws/Tests.antt =====
-- The storage keys of two sessions, and keys that share one.
