-- ===== src/Executor/Keeping.antt =====
-- executor.ts: every action on a batch, and where the batch then stands.
use ephemeral_agent.Executor.Lanes.{
  is_in_terminal, length-remove, BatchInv, next_terminal-BatchInv, after_lanes-BatchInv,
  lane_next-Took,
}
use ephemeral_agent.Executor.{
  Stage, in_lanes, in_terminal, returned, ToolBatch, is_in_lanes, BatchAction, answers, aborts,
  complete_call, lane_next, settle_lane, settle_terminal, answer_at, answer_call, abort_batch, act,
  run_batch,
}
use ephemeral_agent.Executor.Calls.{holds, remove, execute_call}
use ephemeral_agent.Contracts.{JsonValue, ToolUseBlock, ToolCallResult}
use ephemeral_agent.Common.{
  ℕ, String, ◌≡◌, refl, ap, ◌∙◌, inl, inr, true, not, ◌&&◌, List, [], ◌∷◌, arith, ◌==◌, Bool-cases,
  Option-cases, if_intro, get_elem?,
}

module _ {T : Type 0} (stringify : JsonValue → String) (calls : List ToolUseBlock) where
  settle_lane-BatchInv :
      (i : ℕ) (call : ToolUseBlock) (r : ToolCallResult) (b : ToolBatch T)
      → b.stage ≡ in_lanes
      → BatchInv b
      → BatchInv (settle_lane stringify calls i call r b)
  unfolding settle_lane complete_call
  settle_lane-BatchInv i call r b s v =
      if_intro BatchInv (holds i b.flying && not b.aborted) _ b
        (λ h.
          let freed : ToolBatch T =
            complete_call stringify calls i call r (record b { flying = remove i b.flying }) in
          let lanes : is_in_lanes b.stage ≡ true = ap is_in_lanes s in
          let fewer = length-remove i b.flying (ground (arith, h)) in
          let (p, f, s', x) =
            lane_next-Took stringify calls freed.pending freed refl (v.busy lanes).1 in
          after_lanes-BatchInv stringify calls (lane_next stringify calls freed.pending freed)
            (s' ∙ s) (omega (arith, f, fewer, v.capped))
            (λ _ l. omega (arith, p, f, fewer, v.full lanes (omega (arith, p, l)), l))
            (λ stop. absurd (ground (arith, x, (v.busy lanes).1))))
        (λ _. v)

  settle_terminal-BatchInv :
      (i : ℕ) (call : ToolUseBlock) (r : ToolCallResult) (b : ToolBatch T)
      → is_in_terminal b.stage ≡ true
      → BatchInv b
      → BatchInv (settle_terminal stringify calls i call r b)
  unfolding settle_terminal complete_call
  settle_terminal-BatchInv i call r b h v =
      let (f, p) = v.alone h in
      if_intro BatchInv b.aborted _ _
        (λ a. record {
          capped = omega (arith, f);
          full = λ g l. cc;
          busy = λ g. cc;
          alone = λ g. cc;
          finished = λ g n. absurd (ground arith);
        })
        (λ a.
          next_terminal-BatchInv stringify calls b.terminal
            (complete_call stringify calls i call r b) refl f (λ _. p))

  answer_at-BatchInv :
      (s : Stage) (i : ℕ) (call : ToolUseBlock) (r : ToolCallResult) (b : ToolBatch T)
      → b.stage ≡ s
      → BatchInv b
      → BatchInv (answer_at stringify calls s i call r b)
  unfolding answer_at
  answer_at-BatchInv in_lanes i call r b q v = settle_lane-BatchInv i call r b q v
  answer_at-BatchInv (in_terminal j) i call r b q v =
      if_intro BatchInv (i == j) (settle_terminal stringify calls i call r b) b
        (λ _. settle_terminal-BatchInv i call r b (ap is_in_terminal q) v) (λ _. v)
  answer_at-BatchInv returned i call r b q v = v

  abort_batch-BatchInv : (b : ToolBatch T) → BatchInv b → BatchInv (abort_batch stringify calls b)
  unfolding abort_batch
  abort_batch-BatchInv b v = elim (Bool-cases (is_in_lanes b.stage)) [
    | inl h ↦ rw h (record {
      capped = v.capped;
      full = λ g l. cc;
      busy = λ g. cc;
      alone = λ g. cc;
      finished = λ g n. absurd (ground arith);
    })
    | inr h ↦ rw h (record {
      capped = v.capped;
      full = λ g l. absurd (ground (arith, g, h));
      busy = λ g. absurd (ground (arith, g, h));
      alone = v.alone;
      finished = λ g n. absurd (ground arith);
    })
  ]

  act-BatchInv :
      (tools : List String) (b : ToolBatch T) (a : BatchAction)
      → BatchInv b
      → BatchInv (act stringify calls tools b a)
  unfolding act answer_call
  act-BatchInv tools b (answers i at reply) v = elim (Option-cases (get_elem? calls i)) [
    | inl h ↦ rw (act, h) v
    | inr (call, h) ↦
        rw (act, h) (answer_at-BatchInv b.stage i call (execute_call tools at call reply) b refl v)
  ]
  act-BatchInv tools b aborts v = abort_batch-BatchInv b v

  pub run_batch-BatchInv :
      (tools : List String) (b : ToolBatch T) (actions : List BatchAction)
      → BatchInv b
      → BatchInv (run_batch stringify calls tools b actions)
  unfolding run_batch
  run_batch-BatchInv tools b [] v = v
  run_batch-BatchInv tools b (a ∷ rest) v =
      run_batch-BatchInv tools (act stringify calls tools b a) rest (act-BatchInv tools b a v)
