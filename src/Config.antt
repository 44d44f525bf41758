-- ===== src/Config.antt =====
-- The configuration loader (packages/agentforge-core/src/agentforge_core/config/loader.py).
pub mod Tree
pub mod Merge
pub mod Interp
pub mod Overrides
pub mod Imports
pub mod Load
mod Tests
