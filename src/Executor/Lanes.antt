-- ===== src/Executor/Lanes.antt =====
-- executor.ts: how many calls are in flight, and what is left when the terminal calls run.
use ephemeral_agent.Common.{
  ℕ, zero, suc, ◌+◌, ◌-◌, ◌≤◌, min, String, ◌≡◌, refl, sym, ap, subst, ◌∙◌, inl, inr, Bool, true,
  false, Option, List, [], ◌∷◌, ◌++◌, arith, ◌==◌, Bool-cases, Option-cases, if_intro, length,
  get_elem?, is_empty, length-append,
}
use ephemeral_agent.Contracts.{JsonValue, ToolUseBlock}
use ephemeral_agent.Executor.Calls.{holds, remove}
use ephemeral_agent.Executor.{
  max_tool_concurrency, Stage, in_lanes, in_terminal, returned, ToolBatch, is_in_lanes, start_call,
  lane_next, start_lanes, next_terminal, after_lanes, open_batch, execute_batch,
}

abbrev pub is_in_terminal : Stage → Bool
is_in_terminal (in_terminal i) = true
is_in_terminal _ = false

abbrev pub is_returned : Stage → Bool
is_returned returned = true
is_returned _ = false

pub length-remove : (i : ℕ) (js : List ℕ) → holds i js ≡ true → length (remove i js) + 1 ≡ length js
unfolding holds remove
length-remove i [] h = cc
length-remove i (j ∷ js) h = elim (Bool-cases (j == i)) [
  | inl e ↦ rw e (omega arith)
  | inr e ↦ rw e (ground (arith, h, e, length-remove i js))
]

is_empty-length {ℓ} : {A : Type ℓ} (xs : List A) → is_empty xs ≡ true → length xs ≡ 0
is_empty-length [] h = refl
is_empty-length (x ∷ xs) h = cc

length-is_empty {ℓ} : {A : Type ℓ} (xs : List A) → is_empty xs ≡ false → 1 ≤ length xs
length-is_empty [] h = cc
length-is_empty (x ∷ xs) h = omega arith

module _ {T : Type 0} where
  -- Where a batch stands.
  pub record BatchInv (b : ToolBatch T) : Type 0 where
    pub capped : length b.flying ≤ max_tool_concurrency
    pub full :
        is_in_lanes b.stage ≡ true → 1 ≤ length b.pending → length b.flying ≡ max_tool_concurrency
    pub busy : is_in_lanes b.stage ≡ true → (1 ≤ length b.flying) × (b.aborted ≡ false)
    pub alone : is_in_terminal b.stage ≡ true → (length b.flying ≡ 0) × (length b.pending ≡ 0)
    pub finished :
        is_returned b.stage ≡ true
        → b.aborted ≡ false
        → (length b.flying ≡ 0) × (length b.pending ≡ 0) × (length b.terminal ≡ 0)

  -- Everything but the events.
  abbrev Same : ToolBatch T → ToolBatch T → Type 0
  Same b c =
      (c.pending ≡ b.pending)
      × (c.flying ≡ b.flying)
      × (c.terminal ≡ b.terminal)
      × (c.stage ≡ b.stage)
      × (c.aborted ≡ b.aborted)

  -- A lane has taken a call, if one was left.
  abbrev pub Took : ℕ → ToolBatch T → ToolBatch T → Type 0
  Took n b c =
      (length c.pending ≡ length b.pending - n)
      × (length c.flying ≡ length b.flying + min n (length b.pending))
      × (c.stage ≡ b.stage)
      × (c.aborted ≡ b.aborted)

  BatchInv-Same : (b c : ToolBatch T) → Same b c → BatchInv b → BatchInv c
  BatchInv-Same b c (p, f, t, s, a) v = record {
    capped = omega (arith, v.capped, ap length f);
    full = λ h l.
        omega
          (arith, v.full (sym (ap is_in_lanes s) ∙ h) (omega (arith, ap length p)), ap length f);
    busy = λ h.
        let (some_left, going) = v.busy (sym (ap is_in_lanes s) ∙ h) in
        (omega (arith, some_left, ap length f), a ∙ going);
    alone = λ h.
        let (g, q) = v.alone (sym (ap is_in_terminal s) ∙ h) in (ap length f ∙ g, ap length p ∙ q);
    finished = λ h n.
        let (g, q, r) = v.finished (sym (ap is_returned s) ∙ h) (sym a ∙ n) in
        (ap length f ∙ g, ap length p ∙ q, ap length t ∙ r);
  }

  module _ (stringify : JsonValue → String) (calls : List ToolUseBlock) where
    start_call-Same : (i : ℕ) (b : ToolBatch T) → Same b (start_call stringify calls i b)
    unfolding start_call
    start_call-Same i b = elim (Option-cases (get_elem? calls i)) [
      | inl h ↦ rw (start_call, h) (refl, refl, refl, refl, refl)
      | inr (call, h) ↦ rw (start_call, h) (refl, refl, refl, refl, refl)
    ]

    pub next_terminal-BatchInv :
        (ts : List ℕ) (b : ToolBatch T)
        → b.terminal ≡ ts
        → length b.flying ≡ 0
        → (b.aborted ≡ false → length b.pending ≡ 0)
        → BatchInv (next_terminal stringify calls ts b)
    unfolding next_terminal
    next_terminal-BatchInv [] b t f p = record {
      capped = omega (arith, f);
      full = λ h l. cc;
      busy = λ h. cc;
      alone = λ h. cc;
      finished = λ h n. (f, p n, ap length t);
    }
    next_terminal-BatchInv (i ∷ rest) b t f p =
        if_intro BatchInv b.aborted _ _
          (λ a. record {
            capped = omega (arith, f);
            full = λ h l. cc;
            busy = λ h. cc;
            alone = λ h. cc;
            finished = λ h n. absurd (ground arith);
          })
          (λ a.
            let going : ToolBatch T = record b { terminal = rest; stage = in_terminal i } in
            BatchInv-Same going _ (start_call-Same i going) (record {
              capped = omega (arith, f);
              full = λ h l. cc;
              busy = λ h. cc;
              alone = λ h. (f, p a);
              finished = λ h n. cc;
            }))

    pub after_lanes-BatchInv :
        (b : ToolBatch T)
        → b.stage ≡ in_lanes
        → length b.flying ≤ max_tool_concurrency
        → (b.aborted ≡ false → 1 ≤ length b.pending → length b.flying ≡ max_tool_concurrency)
        → (b.aborted ≡ true → length b.flying ≡ 0)
        → BatchInv (after_lanes stringify calls b)
    unfolding after_lanes
    after_lanes-BatchInv b s cap full stopped =
        if_intro BatchInv (is_empty b.flying) _ b
          (λ e.
            let none_left = is_empty-length b.flying e in
            next_terminal-BatchInv b.terminal b refl none_left
              (λ a. ground (arith, none_left, full a)))
          (λ e.
            let some_left = length-is_empty b.flying e in
            let going : b.aborted ≡ false = ground (arith, some_left, stopped) in
            record {
              capped = cap;
              full = λ h. full going;
              busy = λ h. (some_left, going);
              alone = λ h. absurd (ground (arith, ap is_in_terminal s));
              finished = λ h. absurd (ground (arith, ap is_returned s));
            })

    pub lane_next-Took :
        (ps : List ℕ) (b : ToolBatch T)
        → b.pending ≡ ps
        → b.aborted ≡ false
        → Took 1 b (lane_next stringify calls ps b)
    unfolding lane_next
    lane_next-Took [] b q a = (omega (arith, ap length q), omega (arith, ap length q), refl, refl)
    lane_next-Took (i ∷ rest) b q a =
        if_intro (Took 1 b) b.aborted b _ (λ stop. absurd (ground (arith, a)))
          (λ _.
            let taken : ToolBatch T = record b { pending = rest; flying = b.flying ++ i ∷ [] } in
            let (p, f, t, s, x) = start_call-Same i taken in
            (
              omega (arith, ap length p, ap length q),
              omega (arith, ap length f, length-append b.flying (i ∷ []), ap length q),
              s,
              x,
            ))

    start_lanes-Took :
        (n : ℕ) (b : ToolBatch T) → b.aborted ≡ false → Took n b (start_lanes stringify calls n b)
    unfolding start_lanes
    start_lanes-Took zero b a = (omega arith, omega arith, refl, refl)
    start_lanes-Took (suc n) b a =
        let next : ToolBatch T = lane_next stringify calls b.pending b in
        let (p, f, s, x) = lane_next-Took b.pending b refl a in
        let (p', f', s', x') = start_lanes-Took n next (x ∙ a) in
        (omega (arith, p, p'), omega (arith, p, f, f'), s' ∙ s, x' ∙ x)

    lane_next-aborted :
        (ps : List ℕ) (b : ToolBatch T) → b.aborted ≡ true → lane_next stringify calls ps b ≡ b
    unfolding lane_next
    lane_next-aborted [] b a = refl
    lane_next-aborted (i ∷ rest) b a =
        if_intro (λ (c : ToolBatch T). c ≡ b) b.aborted b _ (λ _. refl)
          (λ go. absurd (ground (arith, a)))

    start_lanes-aborted :
        (n : ℕ) (b : ToolBatch T) → b.aborted ≡ true → start_lanes stringify calls n b ≡ b
    unfolding start_lanes
    start_lanes-aborted zero b a = refl
    start_lanes-aborted (suc n) b a =
        ap (start_lanes stringify calls n) (lane_next-aborted b.pending b a)
        ∙ start_lanes-aborted n b a

    -- The lanes at work, as `execute_batch` starts them.
    started-BatchInv :
        (b : ToolBatch T)
        → b.stage ≡ in_lanes
        → length b.flying ≡ 0
        → BatchInv (
            after_lanes stringify calls
              (start_lanes stringify calls (min max_tool_concurrency (length b.pending)) b))
    started-BatchInv b s f =
        let n = min max_tool_concurrency (length b.pending) in
        elim (Bool-cases b.aborted) [
          | inl a ↦
              subst (λ c. BatchInv (after_lanes stringify calls c))
                (sym (start_lanes-aborted n b a))
                (after_lanes-BatchInv b s (omega (arith, f)) (λ go. absurd (ground (arith, a)))
                  (λ _. f))
          | inr a ↦
              let (p', f', s', x) = start_lanes-Took n b a in
              after_lanes-BatchInv (start_lanes stringify calls n b) (s' ∙ s) (omega (arith, f', f))
                (λ _ l. omega (arith, p', f', f, l)) (λ stop. absurd (ground (arith, x, a)))
        ]

    pub execute_batch-BatchInv :
        (name : Option String) (aborted : Bool)
        → BatchInv (execute_batch {T = T} stringify calls name aborted)
    unfolding execute_batch open_batch
    execute_batch-BatchInv name aborted =
        started-BatchInv (open_batch stringify calls name aborted) refl refl
