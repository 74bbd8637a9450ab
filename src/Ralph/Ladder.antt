-- ===== src/Ralph/Ladder.antt =====
-- ralph_loop/workflow.mjs: a round, which is the application of a settlement and the evaluation
-- that follows it, and the ladder of attempts and phases on which a state stands.
use ephemeral_agent.Common.{
  ℕ, ◌+◌, ◌≤◌, ◌≡◌, ◌⊎◌, Bool, true, false, none, some, List, [], ◌∷◌, ltb, if◌then◌else◌, length,
}
use ephemeral_agent.Nodes.{WorkflowNodeSettlement}
use ephemeral_agent.Workflow.{WorkflowStatus, RuntimeSnapshot}
use ephemeral_agent.Ralph.{
  Phase, planner, reviewer, critic, done, PlannerPayload, ReviewerPayload, CriticPayload, Host,
  RalphState, State, is_done,
}
use ephemeral_agent.Ralph.Settlement.{apply_node_settlement}
use ephemeral_agent.Ralph.Evaluation.{is_success, evaluate_workflow_progress}

-- Where the loop stands: at a phase of an attempt, or at its end in an attempt.
pub data Ladder : Type 0 where
  climbing : (attempt : ℕ) → Phase → Ladder
  won lost : (attempt : ℕ) → Ladder

-- One round of the ladder, by whether the node of the phase passed.
unfoldable pub climb : (max_attempts : ℕ) (passed : Bool) → Ladder → Ladder
climb m true (climbing a planner) = climbing a reviewer
climb m true (climbing a reviewer) = climbing a critic
climb m true (climbing a critic) = won a
climb m false (climbing a phase) = if ltb a m then climbing (a + 1) planner else lost a
climb m passed l = l

unfoldable pub climb_all : (max_attempts : ℕ) → List Bool → Ladder → Ladder
unfolding climb
climb_all m [] l = l
climb_all m (b ∷ bs) l = climb_all m bs (climb m b l)

-- Where a state stands.
unfoldable pub ladder_of : State → Ladder
ladder_of s =
    if s.is_workflow_done
    then (if is_success s.workflow_status then won s.own.attempt else lost s.own.attempt)
    else climbing s.own.attempt s.own.phase

-- The slots of the phases passed are filled with payloads that pass; the others are empty.
abbrev pub Slots : Phase → RalphState → Type 0
Slots planner own = (own.planner ≡ none) × (own.reviewer ≡ none) × (own.critic ≡ none)
Slots reviewer own =
    (p : PlannerPayload) × (own.planner ≡ some p)
    × (p.pass ≡ true)
    × (own.reviewer ≡ none)
    × (own.critic ≡ none)
Slots critic own =
    (p : PlannerPayload) × (r : ReviewerPayload) × (own.planner ≡ some p)
    × (p.pass ≡ true)
    × (own.reviewer ≡ some r)
    × (r.pass ≡ true)
    × (own.critic ≡ none)
Slots done own =
    (p : PlannerPayload) × (r : ReviewerPayload) × (c : CriticPayload) × (own.planner ≡ some p)
    × (p.pass ≡ true)
    × (own.reviewer ≡ some r)
    × (r.pass ≡ true)
    × (own.critic ≡ some c)
    × (c.pass ≡ true)

-- A state between rounds that is not done.
pub record IsOpen (s : State) : Type 0 where
  pub going : s.is_workflow_done ≡ false
  pub status : s.workflow_status ≡ WorkflowStatus.running
  pub phase : is_done s.own.phase ≡ false
  pub slots : Slots s.own.phase s.own
  pub started : 1 ≤ s.own.attempt
  pub within : s.own.attempt ≤ s.own.max_attempts
  pub reasons : length s.own.failures + 1 ≤ s.own.attempt

-- A state that is done by success, or by failure.
pub record IsWon (s : State) : Type 0 where
  pub stopped : s.is_workflow_done ≡ true
  pub status : s.workflow_status ≡ WorkflowStatus.success
  pub phase : s.own.phase ≡ done
  pub slots : Slots done s.own
  pub within : s.own.attempt ≤ s.own.max_attempts
  pub reasons : length s.own.failures + 1 ≤ s.own.attempt

pub record IsLost (s : State) : Type 0 where
  pub stopped : s.is_workflow_done ≡ true
  pub status : s.workflow_status ≡ WorkflowStatus.failure
  pub exhausted : s.own.attempt ≡ s.own.max_attempts
  pub reasons : length s.own.failures ≤ s.own.max_attempts

abbrev pub RalphInv : State → Type 0
RalphInv s = IsOpen s ⊎ IsWon s ⊎ IsLost s

-- What a round makes of a state: it stands where the ladder says, and is sound.
abbrev pub Arrives : ℕ → Ladder → State → Type 0
Arrives m l s = (ladder_of s ≡ l) × (s.own.max_attempts ≡ m) × RalphInv s

module _ (host : Host) where
  -- Whether a settlement is a completion whose payload passes in the phase.
  unfoldable pub passes : Phase → WorkflowNodeSettlement → Bool
  passes planner (WorkflowNodeSettlement.completed a) = (host.parse_planner a.outcome).pass
  passes reviewer (WorkflowNodeSettlement.completed a) = (host.parse_reviewer a.outcome).pass
  passes critic (WorkflowNodeSettlement.completed a) = (host.parse_critic a.outcome).pass
  passes phase n = false

  -- The two runtime snapshots that the runtime passes along are not looked at.
  unfoldable pub round : RuntimeSnapshot → RuntimeSnapshot → WorkflowNodeSettlement → State → State
  unfolding apply_node_settlement evaluate_workflow_progress
  round before after n s =
      (evaluate_workflow_progress host (apply_node_settlement host s n before).state after).state
