-- ===== src/Tool/Hooks.antt =====
-- packages/agent-core/src/agents/tool/hooks.ts: the callback hook engine.
use text.Mathlib.TextEquality.{eq_iff}
use ephemeral_agent.Common.{
  ◌⊎◌, inl, inr, Bool-cases, if_intro, ℕ, String, ◌≡◌, refl, ap, subst, ◌↔◌, Bool, true, Option,
  none, some, List, [], ◌∷◌, ◌++◌, map, str_eq, if◌then◌else◌, All, All-append,
}
use ephemeral_agent.Contracts.{JsonValue, JsonObject, join}

pub data HookDecision : Type 0 where
  passthrough : HookDecision
  deny : String → HookDecision

-- What a callback does: it decides, or throws with a message.
pub data HookReply : Type 0 where
  decides : HookDecision → HookReply
  throws : String → HookReply

pub record ToolCallFacts : Type 0 where
  pub tool_use_id : String
  pub tool_name : String
  pub input : JsonObject
  pub background_task_count : ℕ

-- What a tool execution yields.
pub data ToolResult : Type 0 where
  output : JsonValue → Option JsonObject → ToolResult
  error : String → ToolResult

-- An entry's matcher names one tool, or none for all.
pub data HookEntry : Type 0 where
  pre_entry : Option String → (ToolCallFacts → HookReply) → HookEntry
  post_entry : Option String → (ToolCallFacts → ToolResult → HookReply) → HookEntry
  boundary_entry : HookEntry

unfoldable pub matches : Option String → String → Bool
matches none name = true
matches (some n) name = str_eq n name

unfoldable pub guarded : HookReply → HookDecision
guarded (decides d) = d
guarded (throws m) = deny m

-- The replies of the entries that match the call, in order.
unfoldable pub pre_replies : List HookEntry → ToolCallFacts → List HookReply
unfolding matches
pre_replies [] f = []
pre_replies (pre_entry m run ∷ rest) f =
    let later = pre_replies rest f in if matches m f.tool_name then run f ∷ later else later
pre_replies (_ ∷ rest) f = pre_replies rest f

unfoldable pub post_replies : List HookEntry → ToolCallFacts → ToolResult → List HookReply
unfolding matches
post_replies [] f r = []
post_replies (post_entry m run ∷ rest) f r =
    let later = post_replies rest f r in if matches m f.tool_name then run f r ∷ later else later
post_replies (_ ∷ rest) f r = post_replies rest f r

abbrev pub deny_reasons : List HookDecision → List String
deny_reasons [] = []
deny_reasons (passthrough ∷ rest) = deny_reasons rest
deny_reasons (deny m ∷ rest) = m ∷ deny_reasons rest

combine_reasons : List String → HookDecision
combine_reasons [] = passthrough
combine_reasons (m ∷ rest) = deny (join "; " (m ∷ rest))

unfoldable pub combine : List HookDecision → HookDecision
unfolding combine_reasons
combine ds = combine_reasons (deny_reasons ds)

unfoldable pub pre_tool_use : List HookEntry → ToolCallFacts → HookDecision
unfolding combine guarded
pre_tool_use entries f = combine (map guarded (pre_replies entries f))

unfoldable pub post_tool_use : List HookEntry → ToolCallFacts → ToolResult → HookDecision
unfolding combine guarded
post_tool_use entries f r = combine (map guarded (post_replies entries f r))

-- The reply that lets a call through: a decision that passes it on.
abbrev pub Lets : HookReply → Type 0
Lets r = r ≡ decides passthrough

reasons-none : (rs : List HookReply) → deny_reasons (map guarded rs) ≡ [] → All Lets rs
unfolding guarded
reasons-none [] h = tt
reasons-none (decides passthrough ∷ rs) h = (refl, reasons-none rs h)
reasons-none (decides (deny m) ∷ rs) h = cc
reasons-none (throws m ∷ rs) h = cc

none-reasons : (rs : List HookReply) → All Lets rs → deny_reasons (map guarded rs) ≡ []
unfolding guarded
none-reasons [] h = refl
none-reasons (decides passthrough ∷ rs) h = none-reasons rs h.1
none-reasons (decides (deny m) ∷ rs) h = absurd (cc h.0)
none-reasons (throws m ∷ rs) h = absurd (cc h.0)

combine-passthrough : (ds : List HookDecision) → combine ds ≡ passthrough → deny_reasons ds ≡ []
unfolding combine
combine-passthrough ds h = go (deny_reasons ds) h
  where
    go : (ms : List String) → combine_reasons ms ≡ passthrough → ms ≡ []
    go [] e = refl
    go (m ∷ ms) e = cc

-- An entry that is no obstacle to a call: one for a pre hook of its tool, or of every tool, decides
-- to let it through.
abbrev pub Clears : ToolCallFacts → HookEntry → Type 0
Clears f (pre_entry none run) = run f ≡ decides passthrough
Clears f (pre_entry (some n) run) = ¬ (n ≡ f.tool_name) ⊎ (run f ≡ decides passthrough)
Clears f (post_entry m run) = Unit {0}
Clears f boundary_entry = Unit {0}

replies-Clears :
    (es : List HookEntry) (f : ToolCallFacts) → All Lets (pre_replies es f) → All (Clears f) es
unfolding pre_replies
replies-Clears [] f h = tt
replies-Clears (pre_entry none run ∷ es) f h = (h.0, replies-Clears es f h.1)
replies-Clears (pre_entry (some n) run ∷ es) f h = elim (Bool-cases (str_eq n f.tool_name)) [
  | inl e ↦
      let (r, rest) =
        subst (λ (b : Bool). All Lets (if b then run f ∷ pre_replies es f else pre_replies es f)) e
          h in
      (inr r, replies-Clears es f rest)
  | inr e ↦ (
    inl (λ q. cc ((eq_iff n f.tool_name).1 q, e)),
    replies-Clears es f (
        subst (λ (b : Bool). All Lets (if b then run f ∷ pre_replies es f else pre_replies es f)) e
          h),
  )
]
replies-Clears (post_entry m run ∷ es) f h = (tt, replies-Clears es f h)
replies-Clears (boundary_entry ∷ es) f h = (tt, replies-Clears es f h)

Clears-replies :
    (es : List HookEntry) (f : ToolCallFacts) → All (Clears f) es → All Lets (pre_replies es f)
unfolding pre_replies
Clears-replies [] f h = tt
Clears-replies (pre_entry none run ∷ es) f h = (h.0, Clears-replies es f h.1)
Clears-replies (pre_entry (some n) run ∷ es) f h =
    if_intro (All Lets) (str_eq n f.tool_name) (run f ∷ pre_replies es f) (pre_replies es f)
      (λ e. elim h.0 [
        | inl other ↦ absurd (other ((eq_iff n f.tool_name).0 e))
        | inr r ↦ (r, Clears-replies es f h.1)
      ])
      (λ _. Clears-replies es f h.1)
Clears-replies (post_entry m run ∷ es) f h = Clears-replies es f h.1
Clears-replies (boundary_entry ∷ es) f h = Clears-replies es f h.1

replies_lem :
    (entries : List HookEntry) (f : ToolCallFacts)
    → (pre_tool_use entries f ≡ passthrough) ↔ All Lets (pre_replies entries f)
unfolding pre_tool_use
replies_lem entries f = (
  λ h.
      reasons-none (pre_replies entries f)
        (combine-passthrough (map guarded (pre_replies entries f)) h),
  λ a. ap combine_reasons (none-reasons (pre_replies entries f) a),
)

-- A call passes its pre hooks exactly if every entry for a pre hook of its tool, or of every tool,
-- decides to let it through: one that denies or throws does not.
pub pre_tool_use_passes :
    (entries : List HookEntry) (f : ToolCallFacts)
    → (pre_tool_use entries f ≡ passthrough) ↔ All (Clears f) entries
pre_tool_use_passes entries f = (
  λ h. replies-Clears entries f ((replies_lem entries f).0 h),
  λ a. (replies_lem entries f).1 (Clears-replies entries f a),
)

-- So with the post hooks, on the result of the tool.
pub post_tool_use_passes :
    (entries : List HookEntry) (f : ToolCallFacts) (r : ToolResult)
    → (post_tool_use entries f r ≡ passthrough) ↔ All Lets (post_replies entries f r)
unfolding post_tool_use
post_tool_use_passes entries f r = (
  λ h.
      reasons-none (post_replies entries f r)
        (combine-passthrough (map guarded (post_replies entries f r)) h),
  λ a. ap combine_reasons (none-reasons (post_replies entries f r) a),
)

All-split :
    (f : ToolCallFacts) (es gs : List HookEntry)
    → All (Clears f) (es ++ gs)
    → All (Clears f) es × All (Clears f) gs
All-split f [] gs h = (tt, h)
All-split f (e ∷ es) gs h = let (a, b) = All-split f es gs h.1 in ((h.0, a), b)

-- Merging global and per-agent entries: a call passes the merged hooks exactly if it passes both.
merged_hooks :
    (globals locals : List HookEntry) (f : ToolCallFacts)
    → (pre_tool_use (globals ++ locals) f ≡ passthrough)
      ↔ ((pre_tool_use globals f ≡ passthrough) × (pre_tool_use locals f ≡ passthrough))
merged_hooks globals locals f = (
  λ h.
      let all = All-split f globals locals ((pre_tool_use_passes (globals ++ locals) f).0 h) in
      ((pre_tool_use_passes globals f).1 all.0, (pre_tool_use_passes locals f).1 all.1),
  λ h. (pre_tool_use_passes (globals ++ locals) f).1 (
      All-append (Clears f) globals locals ((pre_tool_use_passes globals f).0 h.0)
        ((pre_tool_use_passes locals f).0 h.1)),
)
