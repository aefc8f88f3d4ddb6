-- ===== src/Conversation.antt =====
-- The package internal/conversation: stored continuations of responses, and the keys of conversations.
pub mod Continuation
pub mod Key
pub mod Tests
