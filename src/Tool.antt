-- ===== src/Tool.antt =====
-- packages/agent-core/src/agents/tool: hooks, the per-call pipeline, the terminal binding.
pub mod Hooks
pub mod Pipeline
pub mod Terminal
pub mod Submission
pub mod Latch
pub mod Examples
