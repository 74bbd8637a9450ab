-- ===== src/Ralph.antt =====
-- packages/coding-agent/.ephai/agentic-workflows/ralph_loop/workflow.mjs: planner, reviewer and
-- critic take turns until the critic passes or the attempts are used up.
pub mod Settlement
pub mod Dispatch
pub mod Evaluation
pub mod Ladder
pub mod Rounds
pub mod Climbing
pub mod Rises
pub mod Runs
pub mod Single
pub mod Handled
pub mod Alone
pub mod OneNode
mod Examples
use Prim.Native.String
use ephemeral_agent.Common.{
  ℕ, ◌+◌, ◌-◌, String, ap, Bool, true, false, ◌||◌, Option, none, some, List, [], ◌∷◌, ◌++◌, str_eq,
  if◌then◌else◌, or_else, set,
}
use ephemeral_agent.Contracts.{JsonValue, str, obj, JsonFields, end, field, JsonObject, text}
use ephemeral_agent.Nodes.{Parsed, accept, reject, NodeSettlement, WorkflowNodeSettlement}
use ephemeral_agent.Workflow.{StateTransitionRecord, WorkflowState, StateTransitionResult}

pub data Phase : Type 0 where
  planner reviewer critic done : Phase

pub record PlannerPayload : Type 0 where
  pub pass : Bool
  pub plan : String
  pub summary : String

pub record ReviewerPayload : Type 0 where
  pub pass : Bool
  pub review : String
  pub summary : String

pub record CriticPayload : Type 0 where
  pub pass : Bool
  pub verdict : String
  pub summary : String

-- What the script takes from outside: the parsers of its schemas, where a payload or the arguments
-- come from the schema library only once accepted, and the platform's `String(n)`.
pub record Host : Type 0 where
  pub parse_args : JsonObject → ℕ
  pub parse_planner : JsonValue → PlannerPayload
  pub parse_reviewer : JsonValue → ReviewerPayload
  pub parse_critic : JsonValue → CriticPayload
  pub safe_parse : Phase → JsonValue → Parsed
  pub digits : ℕ → String

pub record RalphState : Type 0 where
  pub attempt : ℕ
  pub max_attempts : ℕ
  pub phase : Phase
  pub planner : Option PlannerPayload
  pub reviewer : Option ReviewerPayload
  pub critic : Option CriticPayload
  pub failures : List String

abbrev pub State : Type 0
State = WorkflowState RalphState

abbrev pub phase_text : Phase → String
phase_text planner = "planner"
phase_text reviewer = "reviewer"
phase_text critic = "critic"
phase_text done = "done"

abbrev pub is_done : Phase → Bool
is_done done = true
is_done _ = false

abbrev pub text_append : List String → String
text_append [] = ""
text_append (t ∷ ts) = String.◌++◌ t (text_append ts)

-- `Array.includes`.
unfoldable pub includes : String → List String → Bool
includes t [] = false
includes t (u ∷ us) = str_eq u t || includes t us

-- The value of a key; a JSON object has each key once.
unfoldable pub get_field : String → JsonFields → Option JsonValue
get_field k end = none
get_field k (field l v rest) = let later = get_field k rest in if str_eq l k then some v else later

abbrev pub string_of : Option JsonValue → Option String
string_of (some (str s)) = some s
string_of _ = none

unfoldable pub with_transition : String → JsonObject → State → StateTransitionResult RalphState
with_transition type rest state =
    let transition : StateTransitionRecord = record { type = type; fields = rest } in
    record {
      state = record state { last_transition = some transition };
      transition = some transition;
    }

abbrev pub unchanged : State → StateTransitionResult RalphState
unchanged state = record { state = state; transition = none }

abbrev pub with_own : RalphState → State → State
with_own own state = record state { own = own }

unfoldable pub transition_reason : StateTransitionRecord → String
unfolding get_field
transition_reason t = or_else (string_of (get_field "reason" t.fields)) "node failed"

abbrev metadata_of : WorkflowNodeSettlement → Option JsonObject
metadata_of (WorkflowNodeSettlement.completed a) = a.metadata
metadata_of (WorkflowNodeSettlement.rejected n m r) = m
metadata_of (WorkflowNodeSettlement.failed n m r) = m
metadata_of (WorkflowNodeSettlement.cancelled n m r) = m

unfoldable pub settlement_role : WorkflowNodeSettlement → Option String
unfolding get_field
settlement_role settlement = elim (metadata_of settlement) [
  | none ↦ none
  | some m ↦ string_of (get_field "role" m)
]

unfoldable pub settlement_failure : WorkflowNodeSettlement → Phase → Option String
settlement_failure (WorkflowNodeSettlement.completed a) phase = none
settlement_failure (WorkflowNodeSettlement.cancelled n m reason) phase =
    some (text_append (phase_text phase ∷ " cancelled: " ∷ or_else reason "cancelled" ∷ []))
settlement_failure (WorkflowNodeSettlement.rejected n m reason) phase =
    some (text_append (phase_text phase ∷ " rejected: " ∷ reason ∷ []))
settlement_failure (WorkflowNodeSettlement.failed n m reason) phase =
    some (text_append (phase_text phase ∷ " failed: " ∷ reason ∷ []))
