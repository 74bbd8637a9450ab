-- ===== src/Loop/History.antt =====
-- The validity of a provider history: a message that calls tools and the message after it.
use ephemeral_agent.Common.{
  String, ◌≡◌, refl, sym, ap, subst, List, [], ◌∷◌, ◌++◌, map, append-nil, append_assoc, arith, All,
}
use ephemeral_agent.Contracts.{
  Role, user, assistant, ToolResultBlock, ContentBlock, tool_result, Message, tool_uses,
}
use ephemeral_agent.Loop.Batch.{call_ids, block_ids}
use ephemeral_agent.Loop.Live.{IsUser}

abbrev answer_ids : List ContentBlock → List String
answer_ids [] = []
answer_ids (tool_result b ∷ rest) = b.tool_use_id ∷ answer_ids rest
answer_ids (_ ∷ rest) = answer_ids rest

-- The ids that a message asks for and those that it answers.
abbrev pub asks_by : Role → Message → List String
asks_by assistant m = call_ids (tool_uses m)
asks_by user m = []

abbrev pub asks : Message → List String
asks m = asks_by m.role m

abbrev pub answers : Message → List String
answers m = answer_ids m.content

-- Is the first of the messages that follow the answer to the ids?
abbrev pub IsReplied : List String → List Message → Type 0
IsReplied [] rest = Unit {0}
IsReplied (i ∷ ids) [] = ⊥
IsReplied (i ∷ ids) (m ∷ rest) = answers m ≡ i ∷ ids

abbrev pub IsAnswered : List Message → Type 0
IsAnswered [] = Unit {0}
IsAnswered (m ∷ rest) = IsReplied (asks m) rest × IsAnswered rest

IsReplied-append :
    (ids : List String) (ms : List Message) (m : Message)
    → IsReplied ids ms
    → IsReplied ids (ms ++ m ∷ [])
IsReplied-append [] ms m h = tt
IsReplied-append (i ∷ ids) [] m h = absurd h
IsReplied-append (i ∷ ids) (x ∷ ms) m h = h

pub IsAnswered-append :
    (ms : List Message) (m : Message) → IsAnswered ms → asks m ≡ [] → IsAnswered (ms ++ m ∷ [])
IsAnswered-append [] m h a = (subst (λ ids. IsReplied ids []) (sym a) tt, tt)
IsAnswered-append (x ∷ ms) m h a =
    (IsReplied-append (asks x) ms m h.0, IsAnswered-append ms m h.1 a)

IsReplied-by : (ids : List String) (m : Message) → answers m ≡ ids → IsReplied ids (m ∷ [])
IsReplied-by [] m h = tt
IsReplied-by (i ∷ ids) m h = h

IsReplied-append_pair :
    (ids : List String) (ms : List Message) (m n : Message)
    → IsReplied ids ms
    → IsReplied ids (ms ++ m ∷ n ∷ [])
IsReplied-append_pair [] ms m n h = tt
IsReplied-append_pair (i ∷ ids) [] m n h = absurd h
IsReplied-append_pair (i ∷ ids) (x ∷ ms) m n h = h

-- A turn and its batch, appended together.
pub IsAnswered-append_pair :
    (ms : List Message) (m n : Message)
    → IsAnswered ms
    → IsReplied (asks m) (n ∷ [])
    → asks n ≡ []
    → IsAnswered (ms ++ m ∷ n ∷ [])
IsAnswered-append_pair [] m n h a b = (a, (subst (λ ids. IsReplied ids []) (sym b) tt, tt))
IsAnswered-append_pair (x ∷ ms) m n h a b =
    (IsReplied-append_pair (asks x) ms m n h.0, IsAnswered-append_pair ms m n h.1 a b)

asks_by-none : (r : Role) (m : Message) → tool_uses m ≡ [] → asks_by r m ≡ []
asks_by-none user m h = refl
asks_by-none assistant m h = ap call_ids h

pub asks-none : (m : Message) → tool_uses m ≡ [] → asks m ≡ []
asks-none m h = asks_by-none m.role m h

asks_by-IsReplied :
    (r : Role) (m n : Message)
    → answers n ≡ call_ids (tool_uses m)
    → IsReplied (asks_by r m) (n ∷ [])
asks_by-IsReplied user m n h = tt
asks_by-IsReplied assistant m n h = IsReplied-by (call_ids (tool_uses m)) n h

pub asks-IsReplied :
    (m n : Message) → answers n ≡ call_ids (tool_uses m) → IsReplied (asks m) (n ∷ [])
asks-IsReplied m n h = asks_by-IsReplied m.role m n h

asks-user : (m : Message) → IsUser m → asks m ≡ []
asks-user m u = ground arith

pub IsAnswered-append_users :
    (ms us : List Message) → IsAnswered ms → All IsUser us → IsAnswered (ms ++ us)
IsAnswered-append_users ms [] h u = rw (append-nil ms) h
IsAnswered-append_users ms (m ∷ us) h u =
    subst IsAnswered (append_assoc ms (m ∷ []) us)
      (IsAnswered-append_users (ms ++ m ∷ []) us (IsAnswered-append ms m h (asks-user m u.0)) u.1)

pub answer_ids-results :
    (blocks : List ToolResultBlock) → answer_ids (map tool_result blocks) ≡ block_ids blocks
answer_ids-results [] = refl
answer_ids-results (b ∷ blocks) = ap (◌∷◌ b.tool_use_id) (answer_ids-results blocks)
