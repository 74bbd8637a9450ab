-- ===== src/Executor/Balance.antt =====
-- executor.ts: the completions of a batch against the calls that are left.
use ephemeral_agent.Executor.Tally.{
  completed_ids, count_ids, count_ids-last, hits, tally, tally-last, hits-same, tally-remove,
  asked_ids, tally-indices,
}
use ephemeral_agent.Executor.{
  max_tool_concurrency, Stage, in_lanes, in_terminal, returned, ToolBatch, BatchAction, answers,
  aborts, start_call, complete_call, lane_next, start_lanes, next_terminal, after_lanes, open_batch,
  execute_batch, settle_lane, settle_terminal, answer_at, answer_call, abort_batch, act, run_batch,
}
use ephemeral_agent.Executor.Calls.{holds, remove, execute_call, completion_of}
use ephemeral_agent.Events.{
  ToolCompletion, AgentEventBody, tool_execution_started, tool_execution_completed,
}
use ephemeral_agent.Contracts.{JsonValue, ToolUseBlock, ToolCallResult}
use ephemeral_agent.Common.{
  ℕ, zero, suc, ◌+◌, min, String, ◌≡◌, refl, sym, append-nil, ap, ◌∙◌, ◌⊎◌, inl, inr, Bool, true,
  false, not, ◌&&◌, Option, some, List, [], ◌∷◌, ◌++◌, arith, ◌==◌, Bool-cases, Option-cases,
  opt_eq, if_intro, one_if, length, get_elem?, is_empty,
}

-- The id of the terminal call that a batch awaits, where it passes the test.
abbrev pub awaited : (String → Bool) → List ToolUseBlock → Stage → ℕ
awaited p calls (in_terminal j) = hits p (get_elem? calls j)
awaited p calls _ = 0

-- Of the calls whose id passes a test: those completed, waiting, in flight and awaited.
module _ {T : Type 0} (p : String → Bool) (calls : List ToolUseBlock) where
  abbrev pub completions : List (AgentEventBody T) → ℕ
  completions es = count_ids p (completed_ids es)

  abbrev core : ToolBatch T → ℕ
  core b =
      completions b.events
      + tally p calls b.pending
      + tally p calls b.flying
      + tally p calls b.terminal

  abbrev weight : ToolBatch T → ℕ
  weight b = core b + awaited p calls b.stage

  completed_ids-append :
      (es : List (AgentEventBody T)) (e : AgentEventBody T)
      → completed_ids (es ++ e ∷ []) ≡ completed_ids es ++ completed_ids (e ∷ [])
  completed_ids-append [] e = refl
  completed_ids-append (d ∷ es) e = ground (arith, completed_ids-append es e)

  started_count :
      (es : List (AgentEventBody T)) (call : ToolUseBlock)
      → completions (es ++ tool_execution_started call ∷ []) ≡ completions es
  started_count es call =
      ap (count_ids p)
        (completed_ids-append es (tool_execution_started call) ∙ append-nil (completed_ids es))

  completed_count :
      (es : List (AgentEventBody T)) (c : ToolCompletion)
      → completions (es ++ tool_execution_completed c ∷ [])
        ≡ completions es + one_if (p c.tool_use_id)
  completed_count es c =
      ap (count_ids p) (completed_ids-append es (tool_execution_completed c))
      ∙ count_ids-last p (completed_ids es) c.tool_use_id

  -- The same stage and signal, and nothing lost.
  abbrev Steady : ToolBatch T → ToolBatch T → Type 0
  Steady b c = (core c ≡ core b) × (c.stage ≡ b.stage) × (c.aborted ≡ b.aborted)

  -- Every call is completed, waiting, in flight, or the terminal call awaited.
  abbrev pub Balanced : ℕ → ToolBatch T → Type 0
  Balanced n b = (b.aborted ≡ true) ⊎ ((b.aborted ≡ false) × (weight b ≡ n))

  going : (n : ℕ) (b : ToolBatch T) → b.aborted ≡ false → Balanced n b → weight b ≡ n
  going n b a (inl t) = absurd (cc (t, a))
  going n b a (inr (f, w)) = w

  module _ (stringify : JsonValue → String) where
    start_call-Steady : (i : ℕ) (b : ToolBatch T) → Steady b (start_call stringify calls i b)
    unfolding start_call
    start_call-Steady i b = elim (Option-cases (get_elem? calls i)) [
      | inl h ↦ rw (start_call, h) (refl, refl, refl)
      | inr (call, h) ↦ rw (start_call, h) (omega (arith, started_count b.events call), refl, refl)
    ]

    lane_next-Steady :
        (ps : List ℕ) (b : ToolBatch T) → b.pending ≡ ps → Steady b (lane_next stringify calls ps b)
    unfolding lane_next
    lane_next-Steady [] b q = (refl, refl, refl)
    lane_next-Steady (i ∷ rest) b q =
        if_intro (Steady b) b.aborted b _ (λ _. (refl, refl, refl))
          (λ _.
            let taken : ToolBatch T = record b { pending = rest; flying = b.flying ++ i ∷ [] } in
            let (c, s, a) = start_call-Steady i taken in
            (omega (arith, c, ap (tally p calls) q, tally-last p calls b.flying i), s, a))

    start_lanes-Steady : (n : ℕ) (b : ToolBatch T) → Steady b (start_lanes stringify calls n b)
    unfolding start_lanes
    start_lanes-Steady zero b = (refl, refl, refl)
    start_lanes-Steady (suc n) b =
        let (c, s, a) = lane_next-Steady b.pending b refl in
        let (c', s', a') = start_lanes-Steady n (lane_next stringify calls b.pending b) in
        (c' ∙ c, s' ∙ s, a' ∙ a)

    next_terminal-Balanced :
        (ts : List ℕ) (n : ℕ) (b : ToolBatch T)
        → b.terminal ≡ ts
        → (b.aborted ≡ false → core b ≡ n)
        → Balanced n (next_terminal stringify calls ts b)
    unfolding next_terminal
    next_terminal-Balanced [] n b q h = elim (Bool-cases b.aborted) [
      | inl a ↦ inl a
      | inr a ↦ inr (a, omega (arith, h a))
    ]
    next_terminal-Balanced (i ∷ rest) n b q h =
        if_intro (Balanced n) b.aborted _ _ (λ a. inl a)
          (λ a.
            let going : ToolBatch T = record b { terminal = rest; stage = in_terminal i } in
            let (c, s, x) = start_call-Steady i going in
            inr (x ∙ a, omega (arith, c, h a, ap (tally p calls) q, ap (awaited p calls) s)))

    after_lanes-Balanced :
        (n : ℕ) (b : ToolBatch T)
        → b.stage ≡ in_lanes
        → (b.aborted ≡ false → core b ≡ n)
        → Balanced n (after_lanes stringify calls b)
    unfolding after_lanes
    after_lanes-Balanced n b s h =
        if_intro (Balanced n) (is_empty b.flying) _ b
          (λ _. next_terminal-Balanced b.terminal n b refl h)
          (λ _. elim (Bool-cases b.aborted) [
            | inl a ↦ inl a
            | inr a ↦ inr (a, omega (arith, h a, ap (awaited p calls) s))
          ])

    settle_lane-Balanced :
        (i n : ℕ) (call : ToolUseBlock) (r : ToolCallResult) (b : ToolBatch T)
        → get_elem? calls i ≡ some call
        → b.stage ≡ in_lanes
        → Balanced n b
        → Balanced n (settle_lane stringify calls i call r b)
    unfolding settle_lane complete_call completion_of
    settle_lane-Balanced i n call r b g s v =
        if_intro (Balanced n) (holds i b.flying && not b.aborted) _ b
          (λ h.
            let freed : ToolBatch T =
              complete_call stringify calls i call r (record b { flying = remove i b.flying }) in
            let (c, s', x) = lane_next-Steady freed.pending freed refl in
            let fewer = tally-remove p calls i b.flying (ground (arith, h)) in
            let kept : weight b ≡ n = going n b (ground (arith, h)) v in
            after_lanes-Balanced n (lane_next stringify calls freed.pending freed) (s' ∙ s) (λ _.
              omega (
                arith,
                c,
                fewer,
                completed_count b.events (completion_of stringify call r),
                kept,
                ap (awaited p calls) s,
                ap (hits p) g,
              )))
          (λ _. v)

    settle_terminal-Balanced :
        (i n : ℕ) (call : ToolUseBlock) (r : ToolCallResult) (b : ToolBatch T)
        → get_elem? calls i ≡ some call
        → awaited p calls b.stage ≡ hits p (get_elem? calls i)
        → Balanced n b
        → Balanced n (settle_terminal stringify calls i call r b)
    unfolding settle_terminal complete_call completion_of
    settle_terminal-Balanced i n call r b g s v =
        if_intro (Balanced n) b.aborted _ _ (λ a. inl a)
          (λ a.
            next_terminal-Balanced b.terminal n (complete_call stringify calls i call r b) refl
              (λ _. omega (
                arith,
                going n b a v,
                s,
                ap (hits p) g,
                completed_count b.events (completion_of stringify call r),
              )))

    answer_at-Balanced :
        (s : Stage) (i n : ℕ) (call : ToolUseBlock) (r : ToolCallResult) (b : ToolBatch T)
        → get_elem? calls i ≡ some call
        → b.stage ≡ s
        → Balanced n b
        → Balanced n (answer_at stringify calls s i call r b)
    unfolding answer_at
    answer_at-Balanced in_lanes i n call r b g q v = settle_lane-Balanced i n call r b g q v
    answer_at-Balanced (in_terminal j) i n call r b g q v =
        if_intro (Balanced n) (i == j) (settle_terminal stringify calls i call r b) b
          (λ h.
            settle_terminal-Balanced i n call r b g
              (ap (awaited p calls) q ∙ sym (hits-same p calls j i h)) v)
          (λ _. v)
    answer_at-Balanced returned i n call r b g q v = v

    act-Balanced :
        (tools : List String) (n : ℕ) (b : ToolBatch T) (a : BatchAction)
        → Balanced n b
        → Balanced n (act stringify calls tools b a)
    unfolding act answer_call abort_batch
    act-Balanced tools n b (answers i at reply) v = elim (Option-cases (get_elem? calls i)) [
      | inl h ↦ rw (act, h) v
      | inr (call, h) ↦
          rw (act, h)
            (answer_at-Balanced b.stage i n call (execute_call tools at call reply) b h refl v)
    ]
    act-Balanced tools n b aborts v = inl refl

    pub run_batch-Balanced :
        (tools : List String) (n : ℕ) (b : ToolBatch T) (actions : List BatchAction)
        → Balanced n b
        → Balanced n (run_batch stringify calls tools b actions)
    unfolding run_batch
    run_batch-Balanced tools n b [] v = v
    run_batch-Balanced tools n b (a ∷ rest) v =
        run_batch-Balanced tools n (act stringify calls tools b a) rest (act-Balanced tools n b a v)

    started-Balanced :
        (n k : ℕ) (b : ToolBatch T)
        → b.stage ≡ in_lanes
        → core b ≡ n
        → Balanced n (after_lanes stringify calls (start_lanes stringify calls k b))
    started-Balanced n k b s h =
        let (c, s', a) = start_lanes-Steady k b in
        after_lanes-Balanced n (start_lanes stringify calls k b) (s' ∙ s) (λ _. c ∙ h)

pub execute_batch-Balanced :
    (T : Type 0) (p : String → Bool) (stringify : JsonValue → String) (calls : List ToolUseBlock)
    (name : Option String) (aborted : Bool)
    → Balanced p calls
        (count_ids p (asked_ids calls))
        (execute_batch {T = T} stringify calls name aborted)
unfolding execute_batch open_batch
execute_batch-Balanced T p stringify calls name aborted =
    let opened : ToolBatch T = open_batch stringify calls name aborted in
    started-Balanced p calls stringify (count_ids p (asked_ids calls))
      (min max_tool_concurrency (length opened.pending)) opened refl
      (omega (arith, tally-indices p (λ n. opt_eq (some n) name) [] calls))
