-- ===== src/Loop/Batch.antt =====
-- agent-loop.ts, `normalizeBatch` and `projectToolResult`.
use ephemeral_agent.Common.{
  ℕ, String, ◌≡◌, refl, inl, inr, Bool, true, false, Option, none, some, List, [], ◌∷◌, map, arith,
  eq_iff, str_eq, if◌then◌else◌, Option-cases, is_some, or_else, find,
}
use ephemeral_agent.Contracts.{
  JsonValue, str, project_content, ToolUseBlock, ToolResultBlock, ToolCallResult,
}

-- `byId.get(id)`: of several results with one id the last is in the map.
by_id : String → List ToolCallResult → Option ToolCallResult
by_id i [] = none
by_id i (r ∷ rest) =
    let here = if str_eq r.tool_use_id i then some r else none in
    elim (by_id i rest) [ some later ↦ some later | none ↦ here ]

interrupted_result : ℕ → String → ToolCallResult
interrupted_result at i = record {
  tool_use_id = i;
  content = str "interrupted";
  is_error = true;
  is_terminal = false;
  tool_start_time = at;
  tool_end_time = at;
  metadata = none;
}

-- `at` is the clock.
unfoldable pub normalize_batch : ℕ → List ToolUseBlock → List ToolCallResult → List ToolCallResult
unfolding by_id interrupted_result
normalize_batch at [] results = []
normalize_batch at (call ∷ calls) results =
    or_else (by_id call.tool_use_id results) (interrupted_result at call.tool_use_id)
    ∷ normalize_batch at calls results

unfoldable pub project_tool_result : (JsonValue → String) → ToolCallResult → ToolResultBlock
project_tool_result stringify r = record {
  tool_use_id = r.tool_use_id;
  content = project_content stringify r.content;
  is_error = r.is_error;
}

-- `results.find((result) => result.is_terminal)`.
abbrev pub any_terminal : List ToolCallResult → Bool
any_terminal rs = is_some (find (λ r. r.is_terminal) rs)

abbrev pub call_ids : List ToolUseBlock → List String
call_ids = map (λ u. u.tool_use_id)

abbrev pub block_ids : List ToolResultBlock → List String
block_ids = map (λ b. b.tool_use_id)

by_id-same :
    (i : String) (results : List ToolCallResult) (r : ToolCallResult)
    → by_id i results ≡ some r
    → r.tool_use_id ≡ i
unfolding by_id
by_id-same i [] r h = cc
by_id-same i (x ∷ rest) r h = elim (Option-cases (by_id i rest)) [
  | inl n ↦ ground (arith, eq_iff x.tool_use_id i)
  | inr (y, e) ↦ by_id-same i rest r (ground arith)
]

-- The blocks that go back to the provider answer the calls one for one, in call order, whatever
-- the executor returned.
pub normalize_batch_ids :
    (at : ℕ) (stringify : JsonValue → String) (calls : List ToolUseBlock)
    (results : List ToolCallResult)
    → block_ids (map (project_tool_result stringify) (normalize_batch at calls results))
      ≡ call_ids calls
unfolding normalize_batch project_tool_result
normalize_batch_ids at stringify [] results = refl
normalize_batch_ids at stringify (call ∷ calls) results =
    elim (Option-cases (by_id call.tool_use_id results)) [
      | inl n ↦ ground (arith, normalize_batch_ids at stringify calls results)
      | inr (r, e) ↦ ground (
        arith,
        normalize_batch_ids at stringify calls results,
        by_id-same call.tool_use_id results r e,
      )
    ]
