-- ===== src/Guardrails.antt =====
-- The guardrail engine and its two tool gates (packages/agentforge/src/agentforge/guardrails).
pub mod Engine
pub mod Gates
pub mod Stage
pub mod Audit
pub mod Tools
mod Tests
