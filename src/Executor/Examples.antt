-- ===== src/Executor/Examples.antt =====
-- A batch of two ordinary calls, one of an unknown tool, and a terminal call.
use ephemeral_agent.Common.{
  ℕ, String, ◌≡◌, refl, true, false, none, some, List, [], ◌∷◌, map, str_eq,
}
use ephemeral_agent.Contracts.{JsonValue, str, end, ToolUseBlock}
use ephemeral_agent.Tool.Pipeline.{PipelineResult}
use ephemeral_agent.Executor.Calls.{returns, throws, results}
use ephemeral_agent.Executor.{returned, ToolBatch, BatchAction, answers, execute_batch, run_batch}
use ephemeral_agent.Executor.Lanes.{BatchInv}
use ephemeral_agent.Executor.Tally.{count_ids, completed_ids}
use ephemeral_agent.Executor.Runs.{batch_results, batch-BatchInv, batch_completes}

abbrev call_of : String → String → ToolUseBlock
call_of tool_use_id name = record { tool_use_id = tool_use_id; name = name; input = end }

abbrev three_calls : List ToolUseBlock
three_calls = call_of "a" "submit" ∷ call_of "b" "read" ∷ call_of "c" "lost" ∷ []

abbrev done_result : PipelineResult
done_result = record {
  content = str "ok";
  is_error = false;
  is_terminal = false;
  tool_start_time = 1;
  tool_end_time = 2;
  metadata = none;
}

abbrev shown : JsonValue → String
shown v = "json"

abbrev tool_names : List String
tool_names = "read" ∷ "submit" ∷ []

-- The ordinary calls answer in the opposite order, then the terminal call.
abbrev replies : List BatchAction
replies =
    answers 2 5 (returns done_result)
    ∷ answers 1 6 (returns done_result)
    ∷ answers 0 7 (throws "boom")
    ∷ []

abbrev batch : ToolBatch ℕ
unfolding run_batch execute_batch
batch =
    run_batch shown three_calls tool_names (execute_batch shown three_calls (some "submit") false)
      replies

batch_returns : batch.stage ≡ returned
unfolding batch run_batch execute_batch
batch_returns = refl

three_ids : map (λ r. r.is_error) (results 9 three_calls batch.settled) ≡ true ∷ false ∷ true ∷ []
unfolding batch run_batch execute_batch results
three_ids = refl

batch_results_example :
    map (λ r. r.tool_use_id) (results 9 three_calls batch.settled) ≡ "a" ∷ "b" ∷ "c" ∷ []
unfolding batch run_batch
batch_results_example = batch_results ℕ shown three_calls tool_names (some "submit") false 9 replies

batch-BatchInv_example : BatchInv batch
unfolding batch run_batch
batch-BatchInv_example = batch-BatchInv ℕ shown three_calls tool_names (some "submit") false replies

batch_completes_example : count_ids (str_eq "b") (completed_ids batch.events) ≡ 1
unfolding batch run_batch execute_batch
batch_completes_example =
    batch_completes ℕ shown three_calls tool_names (some "submit") false (str_eq "b") replies refl
      refl
