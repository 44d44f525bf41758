-- ===== src/Lib.antt =====
-- The core of the AgentForge agent framework: what its in-process parts compute and promise.
--
-- The program runs an agent: a strategy loop asks a language model, records each step and its cost
-- on a shared budget, dispatches tools, and ends with an answer or an exception. Around the loop
-- stand a chain of fallback providers, guardrails on texts and tools, a store of claims and the
-- sessions of a chat with their histories; a loader reads the configuration. The files and the
-- code they model, by paths from the root of the repository:
--
-- - Production/Errors, Prelude/Results: the exception classes of
--   packages/agentforge-core/src/agentforge_core/production/exceptions.py, what an `except` clause
--   catches, and results that may be exceptions.
-- - Production/Budget: `BudgetPolicy` of
--   packages/agentforge-core/src/agentforge_core/production/budget.py, one function for each
--   method. Money is a whole number of a small unit, so sums are exact where the code's floats
--   round.
-- - Production/Fallback: `FallbackChain` of
--   packages/agentforge-core/src/agentforge_core/production/fallback.py. A provider answers its
--   n-th attempt within one call as it likes.
-- - Guardrails: `GuardrailEngine`, its guarded client and tools, of
--   packages/agentforge/src/agentforge/guardrails/engine.py, and the gates of allowlist.py and
--   capability_check.py beside it. Validators and gates are functions of what they see.
-- - Memory/Store: `InMemoryStore` of packages/agentforge/src/agentforge/memory/in_memory.py; its
--   state is the dict of claims, and an operation returns the new one.
-- - Memory/Graph: `InMemoryGraphStore` of
--   packages/agentforge/src/agentforge/memory/in_memory_graph.py, the operations that write and
--   the lookups; its state is the dict of nodes and the two dicts of outgoing and incoming edges.
-- - Chat/Truncation: the strategies of packages/agentforge-chat/src/agentforge_chat/truncation.py.
--   Tokenisers and summarisers are parameters.
-- - Chat/Segment, Chat/Window, Chat/Texts: `segment_for_stream` of _segment.py and
--   `_SentenceWindowBuffer` of _window.py beside it, on lists of code points.
-- - Chat/Idempotency: `IdempotencyCache` of _idempotency.py there; the ordered dict is a list, the
--   least recently used entry first.
-- - Chat/History: `InMemoryChatHistory` of history.py there, one function for each operation that
--   writes, and `load` and `count`.
-- - Chat/Session: `ChatSession` of session.py there, on that history, with the guardrail engine,
--   the truncation and the cache. The agent, the clocks, the identifiers and JSON are parameters.
--   Tokens below it is `_stream_per_token` and Live the branch of `_stream_impl` that
--   runs it; an exception ends it without the chunks that were sent before.
-- - Config: the loader of packages/agentforge-core/src/agentforge_core/config/loader.py, a file
--   for each function: Tree for the mappings, Merge for `_deep_merge`, Interp for `_interp` and
--   `_walk`, Overrides for `parse_overrides`, Imports for `_load_file_with_imports` and Load for
--   `load_config`. The file system, the YAML parser, the environment and the schema are
--   parameters.
-- - Resolver: `Resolver` and `parse_model_string` of
--   packages/agentforge-core/src/agentforge_core/resolver/resolve.py and the discovery of
--   discover.py beside it, on one state: the registry and whether the discovery has run. Loading an
--   entry point is a parameter, a function of the registry, which the imported modules write too.
-- - Strategies/Base, Strategies/Events: `StrategyBase` of
--   packages/agentforge/src/agentforge/strategies/_base.py. A run's state is the budget, the trace
--   and two counters; the model answers the n-th call of a run from the messages it is given.
-- - Strategies/React: `ReActLoop` of react.py in the same directory, its `run` and its `stream`,
--   which use Base and Events.
-- - Strategies/Plan: `Plan` and `_topological_batches` of _plan.py there.
-- - Strategies/Tot: `TreeOfThoughts` of tot.py there, which uses Base and Events. The reading of
--   JSON answers, the printing of scores and the smallest cost are parameters. Scores are
--   thousandths.
--
-- Fuel: the `while` loop of the topological sort has one round for each step and one more, and the
-- loop of ReAct one round for each iteration that the budget leaves and one more; both are proved
-- enough. The loader of a file recurs into imports on fuel: one step more than there are files is
-- enough. The sentence buffer's loop takes one round for each character. The walk to the root of a
-- tree of thoughts takes fuel because ids can repeat; where it starts at the root, one round is
-- enough. The levels of the tree search and all other loops recur on their data.
--
-- Not modelled: the parts that only call other packages (providers, databases, transports,
-- exporters), logging, spans and durations, concurrent interleavings of tasks, the text of
-- exceptions. Plan-and-execute, multi-agent runs, pipelines, the graph store's pattern matching
-- and traversal, the chunks a chat stream sent before an exception, the listings of sessions and
-- modules and the agent-to-agent client are outside this development.
pub mod Prelude
pub mod Production
pub mod Guardrails
pub mod Memory
pub mod Chat
pub mod Config
pub mod Resolver
pub mod Strategies
