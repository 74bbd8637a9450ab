-- ===== src/Ralph/Rises.antt =====
-- ralph_loop/workflow.mjs: every sequence of rounds from the initial state.
use ephemeral_agent.Ralph.Climbing.{planned-Arrives, reviewed-Arrives, criticised-Arrives}
use ephemeral_agent.Ralph.Rounds.{failed-Arrives}
use ephemeral_agent.Ralph.Evaluation.{evaluate_workflow_progress}
use ephemeral_agent.Ralph.Settlement.{apply_completed, apply_failed, apply_node_settlement}
use ephemeral_agent.Contracts.{JsonObject}
use ephemeral_agent.Common.{
  ℕ, ◌+◌, ◌-◌, ◌*◌, ◌≤◌, String, ◌≡◌, refl, sym, ap, subst, ◌⊎◌, inl, inr, Bool, true, false,
  Option, arith, if_false,
}
use ephemeral_agent.Nodes.{NodeDefinition, WorkflowNodeOutcome, WorkflowNodeSettlement}
use ephemeral_agent.Workflow.{RuntimeSnapshot, StateTransitionResult}
use ephemeral_agent.Ralph.{
  Phase, planner, reviewer, critic, done, Host, RalphState, State, is_done, settlement_failure,
}
use ephemeral_agent.Ralph.Ladder.{Ladder, climbing, climb, Slots, IsOpen, Arrives, passes, round}

Phase-cases : (p : Phase) → (p ≡ planner) ⊎ (p ≡ reviewer) ⊎ (p ≡ critic) ⊎ (p ≡ done)
Phase-cases planner = inl refl
Phase-cases reviewer = inr (inl refl)
Phase-cases critic = inr (inr (inl refl))
Phase-cases done = inr (inr (inr refl))

-- The rounds that are left on a ladder.
unfoldable pub height : (max_attempts : ℕ) → Ladder → ℕ
height m (climbing a planner) = 3 * (m - a) + 3
height m (climbing a reviewer) = 3 * (m - a) + 2
height m (climbing a critic) = 3 * (m - a) + 1
height m l = 0

pub height-climb :
    (m a : ℕ) (passed : Bool) (p : Phase)
    → is_done p ≡ false
    → height m (climb m passed (climbing a p)) + 1 ≤ height m (climbing a p)
unfolding height climb
height-climb m a true planner h = omega arith
height-climb m a true reviewer h = omega arith
height-climb m a true critic h = omega arith
height-climb m a passed done h = cc
height-climb m a false planner h = ground arith
height-climb m a false reviewer h = ground arith
height-climb m a false critic h = ground arith

-- One round that was settled: the two snapshots that the runtime passes and the settlement.
pub record Settled : Type 0 where
  pub before : RuntimeSnapshot
  pub after : RuntimeSnapshot
  pub settlement : WorkflowNodeSettlement

module _ (host : Host) where
  -- The state after a round stands one step further on the ladder.
  abbrev pub Climbs : RuntimeSnapshot → RuntimeSnapshot → WorkflowNodeSettlement → State → Type 0
  Climbs before after n s =
      Arrives s.own.max_attempts
        (climb s.own.max_attempts (passes host s.own.phase n) (climbing s.own.attempt s.own.phase))
        (round host before after n s)

  completed-Climbs :
      (before after : RuntimeSnapshot) (o : WorkflowNodeOutcome) (s : State)
      → IsOpen s
      → Climbs before after (WorkflowNodeSettlement.completed o) s
  unfolding round apply_node_settlement passes
  completed-Climbs before after o s v =
      let Goal : Phase → Type 0 = λ ph.
        Arrives s.own.max_attempts
          (climb s.own.max_attempts (passes host ph (WorkflowNodeSettlement.completed o))
            (climbing s.own.attempt ph))
          (evaluate_workflow_progress host (apply_completed host ph o.outcome s).state
            after).state in
      elim (Phase-cases s.own.phase) [
        | inl q ↦
            subst Goal (sym q)
              (planned-Arrives host after o.outcome s v q (subst (λ ph. Slots ph s.own) q v.slots))
        | inr (inl q) ↦
            subst Goal (sym q)
              (reviewed-Arrives host after o.outcome s v q (subst (λ ph. Slots ph s.own) q v.slots))
        | inr (inr (inl q)) ↦
            subst Goal (sym q) (
              criticised-Arrives host after o.outcome s v q
                (subst (λ ph. Slots ph s.own) q v.slots))
        | inr (inr (inr q)) ↦ absurd (ground (arith, ap is_done q, v.phase))
      ]

  -- A settlement that is no completion.
  fallen-Climbs :
      (before after : RuntimeSnapshot) (n : WorkflowNodeSettlement) (s : State) (failure : String)
      → apply_node_settlement host s n before ≡ apply_failed host failure s
      → passes host s.own.phase n ≡ false
      → IsOpen s
      → Climbs before after n s
  unfolding round
  fallen-Climbs before after n s failure h p v =
      subst
        (λ (r : StateTransitionResult RalphState).
          Arrives s.own.max_attempts
            (climb s.own.max_attempts (passes host s.own.phase n)
              (climbing s.own.attempt s.own.phase))
            (evaluate_workflow_progress host r.state after).state)
        (sym h)
        (subst
          (λ b.
            Arrives s.own.max_attempts
              (climb s.own.max_attempts b (climbing s.own.attempt s.own.phase))
              (evaluate_workflow_progress host (apply_failed host failure s).state after).state)
          (sym p) (failed-Arrives host after failure s v))

  passes_rejected :
      (p : Phase) (d : NodeDefinition) (m : Option JsonObject) (reason : String)
      → passes host p (WorkflowNodeSettlement.rejected d m reason) ≡ false
  unfolding passes
  passes_rejected planner d m reason = refl
  passes_rejected reviewer d m reason = refl
  passes_rejected critic d m reason = refl
  passes_rejected done d m reason = refl

  passes_failed :
      (p : Phase) (d : NodeDefinition) (m : Option JsonObject) (reason : String)
      → passes host p (WorkflowNodeSettlement.failed d m reason) ≡ false
  unfolding passes
  passes_failed planner d m reason = refl
  passes_failed reviewer d m reason = refl
  passes_failed critic d m reason = refl
  passes_failed done d m reason = refl

  passes_cancelled :
      (p : Phase) (d : NodeDefinition) (m : Option JsonObject) (reason : Option String)
      → passes host p (WorkflowNodeSettlement.cancelled d m reason) ≡ false
  unfolding passes
  passes_cancelled planner d m reason = refl
  passes_cancelled reviewer d m reason = refl
  passes_cancelled critic d m reason = refl
  passes_cancelled done d m reason = refl

  -- A round of a state that is open moves it one step on the ladder of phases and attempts: a
  -- completion whose payload passes leads to the next phase, or from the critic to success; whatever
  -- else settles leads to the next attempt, or, in the last attempt, to failure. The new state is
  -- sound: open, done by success with three passing payloads, or done by failure with every attempt
  -- used, and it counts no more reasons than attempts.
  pub round-Climbs :
      (before after : RuntimeSnapshot) (n : WorkflowNodeSettlement) (s : State)
      → IsOpen s
      → Climbs before after n s
  unfolding apply_node_settlement settlement_failure
  round-Climbs before after (WorkflowNodeSettlement.completed o) s v =
      completed-Climbs before after o s v
  round-Climbs before after (WorkflowNodeSettlement.rejected d m reason) s v =
      fallen-Climbs before after (WorkflowNodeSettlement.rejected d m reason) s _
        (if_false (is_done s.own.phase) _ _ v.phase) (passes_rejected s.own.phase d m reason) v
  round-Climbs before after (WorkflowNodeSettlement.failed d m reason) s v =
      fallen-Climbs before after (WorkflowNodeSettlement.failed d m reason) s _
        (if_false (is_done s.own.phase) _ _ v.phase) (passes_failed s.own.phase d m reason) v
  round-Climbs before after (WorkflowNodeSettlement.cancelled d m reason) s v =
      fallen-Climbs before after (WorkflowNodeSettlement.cancelled d m reason) s _
        (if_false (is_done s.own.phase) _ _ v.phase) (passes_cancelled s.own.phase d m reason) v
