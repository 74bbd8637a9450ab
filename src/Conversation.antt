-- ===== src/Conversation.antt =====
-- packages/agent-core/src/agents/engine/conversation.ts: the provider history and its observer.
use ephemeral_agent.Common.{
  ◌≡◌, refl, sym, ap, ◌∙◌, List, [], ◌∷◌, ◌++◌, map, append-nil, append_assoc,
}
use ephemeral_agent.Contracts.{user, ToolResultBlock, tool_result, Message}

pub data PartialReason : Type 0 where
  interrupted provider_error : PartialReason

pub data UserMessageOrigin : Type 0 where
  initial steer notification : UserMessageOrigin

pub data ConversationEntry : Type 0 where
  user_entry : UserMessageOrigin → Message → ConversationEntry
  assistant_entry : Message → ConversationEntry
  partial_entry : PartialReason → Message → ConversationEntry
  tool_results_entry : Message → ConversationEntry

-- `observed` is what an observer has been shown.
pub record Conversation : Type 0 where
  pub llm : List Message
  pub observed : List ConversationEntry

abbrev record_both : Message → ConversationEntry → Conversation → Conversation
record_both m e c = record { llm = c.llm ++ m ∷ []; observed = c.observed ++ e ∷ [] }

unfoldable pub append_user : Message → UserMessageOrigin → Conversation → Conversation
append_user m origin c = record_both m (user_entry origin m) c

unfoldable pub append_assistant : Message → Conversation → Conversation
append_assistant m c = record_both m (assistant_entry m) c

unfoldable pub append_tool_results : List ToolResultBlock → Conversation → Conversation
append_tool_results blocks c =
    let m : Message = record { role = user; content = map tool_result blocks } in
    record_both m (tool_results_entry m) c

unfoldable pub append_partial_assistant : Message → PartialReason → Conversation → Conversation
append_partial_assistant m reason c = record c {
  observed = c.observed ++ partial_entry reason m ∷ [];
}

unfoldable pub append_users : List Message → UserMessageOrigin → Conversation → Conversation
unfolding append_user
append_users [] origin c = c
append_users (m ∷ rest) origin c = append_users rest origin (append_user m origin c)

unfoldable pub new_conversation : List Message → Conversation
unfolding append_users
new_conversation seeds = append_users seeds initial (record { llm = []; observed = [] })

-- What an observer can rebuild: every entry but the salvaged partial ones.
abbrev pub history_of : List ConversationEntry → List Message
history_of [] = []
history_of (user_entry origin m ∷ rest) = m ∷ history_of rest
history_of (assistant_entry m ∷ rest) = m ∷ history_of rest
history_of (partial_entry reason m ∷ rest) = history_of rest
history_of (tool_results_entry m ∷ rest) = m ∷ history_of rest

abbrev pub IsObserved : Conversation → Type 0
IsObserved c = history_of c.observed ≡ c.llm

history_of-append :
    (es fs : List ConversationEntry) → history_of (es ++ fs) ≡ history_of es ++ history_of fs
history_of-append [] fs = refl
history_of-append (user_entry origin m ∷ es) fs = ap (◌∷◌ m) (history_of-append es fs)
history_of-append (assistant_entry m ∷ es) fs = ap (◌∷◌ m) (history_of-append es fs)
history_of-append (partial_entry reason m ∷ es) fs = history_of-append es fs
history_of-append (tool_results_entry m ∷ es) fs = ap (◌∷◌ m) (history_of-append es fs)

pub append_users_llm :
    (ms : List Message) (origin : UserMessageOrigin) (c : Conversation)
    → (append_users ms origin c).llm ≡ c.llm ++ ms
unfolding append_users append_user
append_users_llm [] origin c = sym (append-nil c.llm)
append_users_llm (m ∷ ms) origin c =
    append_users_llm ms origin (append_user m origin c) ∙ append_assoc c.llm (m ∷ []) ms

append_users-IsObserved :
    (ms : List Message) (origin : UserMessageOrigin) (c : Conversation)
    → IsObserved c
    → IsObserved (append_users ms origin c)
unfolding append_users append_user
append_users-IsObserved [] origin c h = h
append_users-IsObserved (m ∷ ms) origin c h =
    append_users-IsObserved ms origin (append_user m origin c)
      (rw (history_of-append c.observed (user_entry origin m ∷ [])) (rw h))

pub data ConversationAction : Type 0 where
  user_message : Message → UserMessageOrigin → ConversationAction
  assistant_message : Message → ConversationAction
  results_message : List ToolResultBlock → ConversationAction
  partial_message : Message → PartialReason → ConversationAction

unfoldable pub append_action : Conversation → ConversationAction → Conversation
unfolding append_user append_assistant append_tool_results append_partial_assistant
append_action c (user_message m origin) = append_user m origin c
append_action c (assistant_message m) = append_assistant m c
append_action c (results_message blocks) = append_tool_results blocks c
append_action c (partial_message m reason) = append_partial_assistant m reason c

append_action-IsObserved :
    (c : Conversation) (a : ConversationAction) → IsObserved c → IsObserved (append_action c a)
unfolding append_action
append_action-IsObserved c (user_message m origin) h =
    rw (history_of-append c.observed (user_entry origin m ∷ [])) (rw h)
append_action-IsObserved c (assistant_message m) h =
    rw (history_of-append c.observed (assistant_entry m ∷ [])) (rw h)
append_action-IsObserved c (results_message blocks) h = rw (history_of-append c.observed _) (rw h)
append_action-IsObserved c (partial_message m reason) h =
    rw (history_of-append c.observed (partial_entry reason m ∷ [])) (rw h (append-nil c.llm))

unfoldable pub append_actions : Conversation → List ConversationAction → Conversation
unfolding append_action
append_actions c [] = c
append_actions c (a ∷ rest) = append_actions (append_action c a) rest

append_actions-IsObserved :
    (c : Conversation) (actions : List ConversationAction)
    → IsObserved c
    → IsObserved (append_actions c actions)
unfolding append_actions
append_actions-IsObserved c [] h = h
append_actions-IsObserved c (a ∷ rest) h =
    append_actions-IsObserved (append_action c a) rest (append_action-IsObserved c a h)

-- Whatever is appended to a seeded conversation, dropping the salvaged partial messages from what
-- the observer saw leaves exactly the provider history.
pub conversation-IsObserved :
    (seeds : List Message) (actions : List ConversationAction)
    → IsObserved (append_actions (new_conversation seeds) actions)
unfolding new_conversation
conversation-IsObserved seeds actions =
    append_actions-IsObserved (new_conversation seeds) actions
      (append_users-IsObserved seeds initial (record { llm = []; observed = [] }) refl)
