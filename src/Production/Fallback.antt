-- ===== src/Production/Fallback.antt =====
-- `FallbackChain` of packages/agentforge-core/src/agentforge_core/production/fallback.py. The
-- providers are not part of the repository's core: a client answers its n-th attempt within one
-- call as it likes, with a response or an exception.
mod Dispatch
pub mod Order
pub mod Capabilities
mod Tests
pub use Dispatch.{
  Client, Chain, Outcome, make_chain, capabilities, call, call_with_cache, call_with_thinking,
  stream, close, dispatch_with_fallback, attempt_loop, provider_loop,
}
