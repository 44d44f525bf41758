-- ===== src/Chat.antt =====
-- Multi-turn chat (packages/agentforge-chat/src/agentforge_chat).
pub mod Texts
pub mod Segment
pub mod Window
pub mod Idempotency
pub mod Truncation
pub mod History
pub mod Session
mod Tests
