-- ===== src/Memory.antt =====
-- The in-process stores of packages/agentforge/src/agentforge/memory.
pub mod Store
pub mod Graph
