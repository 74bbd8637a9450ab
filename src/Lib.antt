-- ===== src/Lib.antt =====
-- Ephemeral Agent: a model of the mechanism of its agent SDK, packages/agent-core, and of what one
-- run of an agent promises its host; of its workflow runtime, and of the Ralph loop, a workflow that
-- packages/coding-agent brings.
--
-- The parts and how they interact. A run is assembled by `startRun` (agents/agent-runtime.ts): an
-- inbox of notifications, a registry of background tasks, a handle that stamps and streams events
-- and queues steers, a conversation, and a loop over provider turns and tool batches. The loop
-- drains steers and notifications at its boundary, asks the provider for a turn, dispatches the
-- turn's tool calls as a batch, and ends the run through one gate: no pending steer, no registered
-- task, an empty inbox. In text mode the loop tests the gate after a turn without calls; in
-- terminal mode the terminal tool tests it before it accepts a submission.
--
-- A workflow run (agentic-workflows/workflow-runtime.ts) asks its script for nodes to dispatch, has
-- each launched, hands each accepted outcome or failure back to the script, and finishes when the
-- script's state is done, when the script reports a deadlock, or when it is interrupted.
--
-- The files, with paths under packages/agent-core/src:
-- - Contracts: contracts/messages.ts, json.ts, tool-calls.ts.
-- - Usage, Events: agents/llm-client/types.ts and events.ts, `addUsage` of agents/engine/turn.ts
--   and the event union of agents/engine/run-handle.ts.
-- - Waiters: the waker sets of the inbox, the registry and the handle (`waitForNext`,
--   `waitForChange`, `waitForSteer`). A promise is a number.
-- - Inbox: agents/notification/inbox.ts; Render for `systemNotificationMessage`.
-- - Tasks: agents/background/background-task-supervisor.ts. `register`, `list`, `cancel`,
--   `settle`, `dispose_all`, `task_count`, `registry_is_empty` and `wait_for_change` are its
--   methods; `begin_teardown` and `complete` are `#teardown` and `#complete` up to their awaits,
--   `teardown_done` and `handler_done` what follows these.
-- - Handle: agents/engine/run-handle.ts, `EventStream` and `RunHandle`.
-- - Conversation: agents/engine/conversation.ts.
-- - Run: the state and closures that `startRun` assembles, in agents/agent-runtime.ts; Validation
--   for `validateToolNames`.
-- - Turn: agents/engine/turn.ts, `runAssistantTurn`.
-- - Loop: agents/engine/agent-loop.ts. `run_pass` is the body of the `for (;;)`, cut into
--   `rest_phase`, `provider_phase`, `settle_turn`, `commit_turn`, `after_turn`, `run_batch` and
--   `settle_batch`; `finish_run` is what follows the loop. Park is `waitForWake`: the number of a
--   wait stands for the promise that its race waits for.
-- - Tool: agents/tool/hooks.ts, pipeline.ts and terminal.ts.
-- - Executor: agents/tool/executor.ts. `start_call` and `complete_call` are `dispatch` before and
--   after its await, `lane_next` and `next_terminal` the two loops up to their next await, `answer_call`
--   what the answer of a call resumes.
-- - Llm: agents/llm-client/errors.ts, retry.ts and config.ts.
-- - Nodes: nodes/*.ts; Stream for the event stream of nodes/events.ts.
-- - Workflow: agentic-workflows/workflow-implementation.ts, workflow-run.ts and
--   workflow-definition.ts; State, Run and Actions for the class `WorkflowRunInstance` of
--   workflow-runtime.ts. `dispatch` is `#dispatch` up to its loop, `launch_next` that loop up to its
--   next await, `answer` what follows the await of a launch in `#launchDispatch`;
--   `finish_or_dispatch` is `#finishIfDone` with the dispatch after it.
-- - Ralph: packages/coding-agent/.ephai/agentic-workflows/ralph_loop/workflow.mjs, from the
--   repository's root. Settlement, Evaluation and Dispatch are its methods; `judge` holds the tests on
--   the payload of a phase in `evaluateWorkflowProgress`.
-- - Tasks/State and Loop/State: the data of the registry and of the loop.
-- - Common: tests, lists and options; Examples, here and in the components: theorems applied to
--   concrete runs.
--
-- Concurrency. JavaScript runs to the next await. What the host, its tools and its tasks do to a
-- run while an operation is suspended is an explicit list of `Activity` at that await. A `Round`
-- gives all that the environment does in one pass of the loop; a suspended operation of the
-- registry is a `Continuation` in its state. A host callback that reenters the registry before its
-- own first await comes after the call in this order. In a workflow run, `start()` and the promise
-- queue are two threads, each of which awaits at most one launch; the actions of a run are listed in
-- the order in which the queue takes them.
--
-- Parameters of the model: the schema library's parsers (with the summary of their issues), the
-- hosts' hooks, tools and `onSubmit`, the script of a workflow, the platform's `JSON.stringify` and
-- number printing, the clock, and minted task ids, which the invariant of the registry takes to be
-- new. Numbers are natural; delays are milliseconds. There is no fuel in the loop: it consumes the rounds that the
-- environment supplies and is suspended when they end; a pass that neither ends nor parks spends a
-- turn of the budget, so the turns left and the parked passes bound the rounds. `finish_all` of the
-- registry takes as fuel the weight of its continuations, two for a teardown and one for a handler,
-- which every resumption lowers.
--
-- Not modelled: the composition of the executor with the loop, which sees a batch as its steps and
-- its results; the stream client and the provider wires, profiles and credentials, `createAgent`,
-- the pursuit workflow, packages/agent-engine and the rest of packages/coding-agent; in
-- `waitForWake`, the abort of `settled` after the race. Header parsing of provider errors and the timer that bounds a completion handler arrive as values. Of a workflow run: the
-- times, the copies through JSON, the snapshot for readers and a script whose methods throw.
pub mod Common
pub mod Contracts
pub mod Nodes
pub mod Workflow
pub mod Ralph
pub mod Waiters
pub mod Inbox
pub mod Tasks
pub mod Usage
pub mod Events
pub mod Handle
pub mod Conversation
pub mod Run
pub mod Turn
pub mod Llm
pub mod Tool
pub mod Executor
pub mod Loop
pub mod Examples
