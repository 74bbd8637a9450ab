-- ===== src/Contracts.antt =====
-- packages/agent-core/src/contracts: JSON values, messages and settled tool calls.
use Prim.Native.String
use ephemeral_agent.Common.{ℕ, Bool, Option, String, List, [], ◌∷◌}

-- A number is its decimal literal: nothing modelled computes with one.
mutual
  pub data JsonValue : Type 0 where
    str : String → JsonValue
    num : String → JsonValue
    bool : Bool → JsonValue
    null : JsonValue
    arr : JsonItems → JsonValue
    obj : JsonFields → JsonValue

  pub data JsonItems : Type 0 where
    nil : JsonItems
    item : JsonValue → JsonItems → JsonItems

  pub data JsonFields : Type 0 where
    end : JsonFields
    field : String → JsonValue → JsonFields → JsonFields

abbrev pub JsonObject : Type 0
JsonObject = JsonFields

-- `typeof content === "string" ? content : JSON.stringify(content)`, at both places that project a
-- result. `stringify` is the platform's.
unfoldable pub project_content : (JsonValue → String) → JsonValue → String
project_content stringify (str s) = s
project_content stringify v = stringify v

pub data Role : Type 0 where
  user assistant : Role

pub record ToolUseBlock : Type 0 where
  pub tool_use_id : String
  pub name : String
  pub input : JsonObject

pub record ToolResultBlock : Type 0 where
  pub tool_use_id : String
  pub content : String
  pub is_error : Bool

pub data ContentBlock : Type 0 where
  text : String → ContentBlock
  tool_use : ToolUseBlock → ContentBlock
  tool_result : ToolResultBlock → ContentBlock
  reasoning : String → ContentBlock

pub record Message : Type 0 where
  pub role : Role
  pub content : List ContentBlock

pub record ToolCallResult : Type 0 where
  pub tool_use_id : String
  pub content : JsonValue
  pub is_error : Bool
  pub is_terminal : Bool
  pub tool_start_time : ℕ
  pub tool_end_time : ℕ
  pub metadata : Option JsonObject

-- `Array.join`.
pub join : String → List String → String
join sep [] = ""
join sep (s ∷ []) = s
join sep (s ∷ t ∷ rest) = String.◌++◌ s (String.◌++◌ sep (join sep (t ∷ rest)))

abbrev texts : List ContentBlock → List String
texts [] = []
texts (text s ∷ rest) = s ∷ texts rest
texts (_ ∷ rest) = texts rest

abbrev reasonings : List ContentBlock → List String
reasonings [] = []
reasonings (reasoning s ∷ rest) = s ∷ reasonings rest
reasonings (_ ∷ rest) = reasonings rest

abbrev tool_use_blocks : List ContentBlock → List ToolUseBlock
tool_use_blocks [] = []
tool_use_blocks (tool_use u ∷ rest) = u ∷ tool_use_blocks rest
tool_use_blocks (_ ∷ rest) = tool_use_blocks rest

unfoldable pub assistant_text : Message → String
unfolding join
assistant_text m = join "" (texts m.content)

unfoldable pub reasoning_text : Message → String
unfolding join
reasoning_text m = join "" (reasonings m.content)

unfoldable pub tool_uses : Message → List ToolUseBlock
tool_uses m = tool_use_blocks m.content
