-- ===== src/Executor/Runs.antt =====
-- executor.ts: what a batch returns, whatever its tools reply and whenever the signal aborts.
use ephemeral_agent.Executor.Keeping.{run_batch-BatchInv}
use ephemeral_agent.Executor.Balance.{awaited, run_batch-Balanced, execute_batch-Balanced}
use ephemeral_agent.Executor.Tally.{completed_ids, count_ids, asked_ids, tally-none}
use mathlib.Core.Path.{ap₂}
use ephemeral_agent.Executor.Lanes.{is_returned, BatchInv, execute_batch-BatchInv}
use ephemeral_agent.Executor.{
  max_tool_concurrency, Stage, in_lanes, in_terminal, returned, ToolBatch, BatchAction, answers,
  aborts, start_call, complete_call, lane_next, start_lanes, next_terminal, after_lanes, open_batch,
  execute_batch, settle_lane, settle_terminal, answer_at, answer_call, abort_batch, act, run_batch,
}
use ephemeral_agent.Executor.Calls.{
  Reply, returns, throws, error_result, with_id, has_tool, holds, execute_call, results,
}
use ephemeral_agent.Contracts.{JsonValue, ToolUseBlock, ToolCallResult}
use ephemeral_agent.Common.{
  ℕ, zero, suc, min, String, ◌≡◌, refl, sym, ap, ◌∙◌, inl, inr, Bool, false, not, ◌&&◌, Option,
  none, some, List, [], ◌∷◌, ◌++◌, map, arith, ◌==◌, Option-cases, or_else, if_intro, length,
  get_elem?, set, replicate, is_empty,
}

-- A settled call bears the id of the call at its place.
Answers : List ToolUseBlock → List (Option ToolCallResult) → Type 0
Answers [] os = Unit {0}
Answers (c ∷ cs) [] = Unit {0}
Answers (c ∷ cs) (o ∷ os) =
    ((r : ToolCallResult) → o ≡ some r → r.tool_use_id ≡ c.tool_use_id) × Answers cs os

Answers-replicate : (cs : List ToolUseBlock) (n : ℕ) → Answers cs (replicate n none)
unfolding Answers
Answers-replicate [] n = tt
Answers-replicate (c ∷ cs) zero = tt
Answers-replicate (c ∷ cs) (suc n) = (λ r h. cc, Answers-replicate cs n)

Answers-set :
    (cs : List ToolUseBlock) (os : List (Option ToolCallResult)) (i : ℕ) (c : ToolUseBlock)
    (r : ToolCallResult)
    → get_elem? cs i ≡ some c
    → r.tool_use_id ≡ c.tool_use_id
    → Answers cs os
    → Answers cs (set os i (some r))
unfolding Answers
Answers-set [] os i c r h q v = tt
Answers-set (d ∷ cs) [] i c r h q v = tt
Answers-set (d ∷ cs) (o ∷ os) zero c r h q v = (
  λ x e.
      ap (λ y. (or_else y r).tool_use_id) (sym e) ∙ q ∙ ap (λ y. (or_else y d).tool_use_id) (sym h),
  v.1,
)
Answers-set (d ∷ cs) (o ∷ os) (suc i) c r h q v = (v.0, Answers-set cs os i c r h q v.1)

abbrev ids_of : List ToolUseBlock → List String
ids_of calls = map (λ c. c.tool_use_id) calls

Answers-nil : (cs : List ToolUseBlock) → Answers cs []
unfolding Answers
Answers-nil [] = tt
Answers-nil (c ∷ cs) = tt

ids-results :
    (at : ℕ) (cs : List ToolUseBlock) (os : List (Option ToolCallResult))
    → Answers cs os
    → map (λ r. r.tool_use_id) (results at cs os) ≡ ids_of cs
unfolding Answers results error_result
ids-results at [] os v = refl
ids-results at (c ∷ cs) [] v =
    ap (λ ids. c.tool_use_id ∷ ids) (ids-results at cs [] (Answers-nil cs))
ids-results at (c ∷ cs) (none ∷ os) v = ap (λ ids. c.tool_use_id ∷ ids) (ids-results at cs os v.1)
ids-results at (c ∷ cs) (some r ∷ os) v =
    ap₂ (λ i ids. i ∷ ids) (v.0 r refl) (ids-results at cs os v.1)

execute_call_id :
    (tools : List String) (at : ℕ) (call : ToolUseBlock) (reply : Reply)
    → (execute_call tools at call reply).tool_use_id ≡ call.tool_use_id
unfolding execute_call error_result with_id
execute_call_id tools at call (returns r) =
    if_intro (λ (x : ToolCallResult). x.tool_use_id ≡ call.tool_use_id)
      (not (has_tool call.name tools)) _ _ (λ _. refl) (λ _. refl)
execute_call_id tools at call (throws m) =
    if_intro (λ (x : ToolCallResult). x.tool_use_id ≡ call.tool_use_id)
      (not (has_tool call.name tools)) _ _ (λ _. refl) (λ _. refl)

module _ {T : Type 0} (stringify : JsonValue → String) (calls : List ToolUseBlock) where
  abbrev Sound : ToolBatch T → Type 0
  Sound b = Answers calls b.settled

  start_call-Sound : (i : ℕ) (b : ToolBatch T) → Sound b → Sound (start_call stringify calls i b)
  unfolding start_call
  start_call-Sound i b v = elim (Option-cases (get_elem? calls i)) [
    | inl h ↦ rw (start_call, h) v
    | inr (call, h) ↦ rw (start_call, h) v
  ]

  lane_next-Sound :
      (ps : List ℕ) (b : ToolBatch T) → Sound b → Sound (lane_next stringify calls ps b)
  unfolding lane_next
  lane_next-Sound [] b v = v
  lane_next-Sound (i ∷ rest) b v =
      if_intro Sound b.aborted b _ (λ _. v)
        (λ _. start_call-Sound i (record b { pending = rest; flying = b.flying ++ i ∷ [] }) v)

  start_lanes-Sound : (n : ℕ) (b : ToolBatch T) → Sound b → Sound (start_lanes stringify calls n b)
  unfolding start_lanes
  start_lanes-Sound zero b v = v
  start_lanes-Sound (suc n) b v = start_lanes-Sound n _ (lane_next-Sound b.pending b v)

  next_terminal-Sound :
      (ts : List ℕ) (b : ToolBatch T) → Sound b → Sound (next_terminal stringify calls ts b)
  unfolding next_terminal
  next_terminal-Sound [] b v = v
  next_terminal-Sound (i ∷ rest) b v =
      if_intro Sound b.aborted _ _ (λ _. v)
        (λ _. start_call-Sound i (record b { terminal = rest; stage = in_terminal i }) v)

  after_lanes-Sound : (b : ToolBatch T) → Sound b → Sound (after_lanes stringify calls b)
  unfolding after_lanes
  after_lanes-Sound b v =
      if_intro Sound (is_empty b.flying) _ b (λ _. next_terminal-Sound b.terminal b v) (λ _. v)

  answer_at-Sound :
      (s : Stage) (i : ℕ) (call : ToolUseBlock) (r : ToolCallResult) (b : ToolBatch T)
      → get_elem? calls i ≡ some call
      → r.tool_use_id ≡ call.tool_use_id
      → Sound b
      → Sound (answer_at stringify calls s i call r b)
  unfolding answer_at settle_lane settle_terminal complete_call
  answer_at-Sound in_lanes i call r b h q v =
      if_intro Sound (holds i b.flying && not b.aborted) _ b
        (λ _.
          after_lanes-Sound _
            (lane_next-Sound b.pending _ (Answers-set calls b.settled i call r h q v)))
        (λ _. v)
  answer_at-Sound (in_terminal j) i call r b h q v =
      if_intro Sound (i == j) _ b
        (λ _.
          if_intro Sound b.aborted _ _ (λ _. v)
            (λ _. next_terminal-Sound b.terminal _ (Answers-set calls b.settled i call r h q v)))
        (λ _. v)
  answer_at-Sound returned i call r b h q v = v

  act-Sound :
      (tools : List String) (b : ToolBatch T) (a : BatchAction)
      → Sound b
      → Sound (act stringify calls tools b a)
  unfolding act answer_call abort_batch
  act-Sound tools b (answers i at reply) v = elim (Option-cases (get_elem? calls i)) [
    | inl h ↦ rw (act, h) v
    | inr (call, h) ↦
        rw (act, h)
          (answer_at-Sound b.stage i call (execute_call tools at call reply) b h
            (execute_call_id tools at call reply) v)
  ]
  act-Sound tools b aborts v = v

  run_batch-Sound :
      (tools : List String) (b : ToolBatch T) (actions : List BatchAction)
      → Sound b
      → Sound (run_batch stringify calls tools b actions)
  unfolding run_batch
  run_batch-Sound tools b [] v = v
  run_batch-Sound tools b (a ∷ rest) v =
      run_batch-Sound tools (act stringify calls tools b a) rest (act-Sound tools b a v)

abbrev after :
    {T : Type 0}
    → (JsonValue → String)
    → List ToolUseBlock
    → Option String
    → Bool
    → List String
    → List BatchAction
    → ToolBatch T
after stringify calls name aborted tools actions =
    run_batch stringify calls tools (execute_batch stringify calls name aborted) actions

module _ (T : Type 0) (stringify : JsonValue → String) (calls : List ToolUseBlock) where
  execute_batch-Sound :
      (name : Option String) (aborted : Bool)
      → Answers calls (execute_batch {T = T} stringify calls name aborted).settled
  unfolding execute_batch open_batch
  execute_batch-Sound name aborted =
      let opened : ToolBatch T = open_batch stringify calls name aborted in
      let n = min max_tool_concurrency (length opened.pending) in
      after_lanes-Sound stringify calls (start_lanes stringify calls n opened)
        (start_lanes-Sound stringify calls n opened (Answers-replicate calls (length calls)))

module _ (T : Type 0) (stringify : JsonValue → String) (calls : List ToolUseBlock)
    (tools : List String) (name : Option String) (aborted : Bool) where
  -- Whatever the tools reply or throw, in whatever order, and whenever the signal aborts, the results
  -- of a batch bear the ids of its calls, one for one and in call order.
  pub batch_results :
      (at : ℕ) (actions : List BatchAction)
      → map
          (λ r. r.tool_use_id)
          (results at calls (after {T = T} stringify calls name aborted tools actions).settled)
        ≡ map (λ c. c.tool_use_id) calls
  unfolding run_batch
  batch_results at actions = ids-results at calls _ (
      run_batch-Sound {T = T} stringify calls tools (execute_batch stringify calls name aborted)
        actions (execute_batch-Sound T stringify calls name aborted))

  -- Whatever the tools reply and whenever the signal aborts: at most eight calls are in flight; while
  -- the lanes run, one is, the signal has not aborted, and eight are as long as an ordinary call waits;
  -- while a terminal call runs, no ordinary call waits or is in flight; and a batch that returns
  -- without an abort has no call left.
  pub batch-BatchInv :
      (actions : List BatchAction)
      → BatchInv (after {T = T} stringify calls name aborted tools actions)
  unfolding run_batch
  batch-BatchInv actions =
      run_batch-BatchInv stringify calls tools (execute_batch stringify calls name aborted) actions
        (execute_batch-BatchInv stringify calls name aborted)

  -- Whatever the tools reply or throw: the completions that a batch has emitted when it returned
  -- without an abort match its calls by their ids: for any test on ids, as many completions as
  -- calls bear an id that passes it.
  pub batch_completes :
      (p : String → Bool) (actions : List BatchAction)
      → (after {T = T} stringify calls name aborted tools actions).stage ≡ returned
      → (after {T = T} stringify calls name aborted tools actions).aborted ≡ false
      → count_ids p
          (completed_ids (after {T = T} stringify calls name aborted tools actions).events)
        ≡ count_ids p (asked_ids calls)
  unfolding run_batch
  batch_completes p actions back going =
      let b : ToolBatch T = after stringify calls name aborted tools actions in
      let (f, q, t) = (batch-BatchInv actions).finished (ap is_returned back) going in
      elim (run_batch-Balanced p calls stringify tools (count_ids p (asked_ids calls))
        (execute_batch {T = T} stringify calls name aborted) actions
        (execute_batch-Balanced T p stringify calls name aborted)) [
          | inl a ↦ absurd (ground (arith, a, going))
          | inr (_, w) ↦ omega (
            arith,
            w,
            tally-none p calls b.flying f,
            tally-none p calls b.pending q,
            tally-none p calls b.terminal t,
            ap (awaited p calls) back,
          )
        ]
