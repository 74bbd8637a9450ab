-- ===== src/Llm.antt =====
-- packages/agent-core/src/agents/llm-client: provider errors and the visible-output retry gate.
pub mod Errors
pub mod Retry
pub mod Attempts
