-- ===== src/Production.antt =====
-- The production rails of packages/agentforge-core/src/agentforge_core/production.
pub mod Errors
pub mod Budget
pub mod Fallback
