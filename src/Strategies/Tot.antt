-- ===== src/Strategies/Tot.antt =====
-- `TreeOfThoughts` of packages/agentforge/src/agentforge/strategies/tot.py: its data in `Tree`, the
-- beam search in `Search`, the streaming variant in `Stream`.
pub mod Tree
pub mod Search
pub mod Stream
pub mod Keeps
pub mod Path
pub mod Calls
pub mod Events
mod Tests
