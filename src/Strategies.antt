-- ===== src/Strategies.antt =====
-- The reasoning strategies of packages/agentforge/src/agentforge/strategies.
pub mod Base
pub mod Events
pub mod React
pub mod Plan
pub mod Tot
