-- ===== src/Executor/Tally.antt =====
-- executor.ts: the ids that a batch reports as completed, counted against those of its calls.
use ephemeral_agent.Executor.Calls.{indices, holds, remove}
use ephemeral_agent.Events.{AgentEventBody, tool_execution_completed}
use ephemeral_agent.Contracts.{ToolUseBlock}
use ephemeral_agent.Common.{
  ℕ, suc, ◌+◌, String, ◌≡◌, refl, sym, ap, subst, inl, inr, Bool, true, not, Option, none, some,
  List, [], ◌∷◌, ◌++◌, arith, ◌==◌, Bool-cases, one_if, length, get_elem?, select, append_assoc,
  length-append,
}

-- The ids of the completion events, in order.
abbrev pub completed_ids : {T : Type 0} → List (AgentEventBody T) → List String
completed_ids [] = []
completed_ids (tool_execution_completed c ∷ rest) = c.tool_use_id ∷ completed_ids rest
completed_ids (_ ∷ rest) = completed_ids rest

-- How many ids pass the test.
abbrev pub count_ids : (String → Bool) → List String → ℕ
count_ids p ids = length (select p ids)

pub count_ids-last :
    (p : String → Bool) (ids : List String) (i : String)
    → count_ids p (ids ++ i ∷ []) ≡ count_ids p ids + one_if (p i)
count_ids-last p [] i = ground arith
count_ids-last p (j ∷ ids) i = ground (arith, count_ids-last p ids i)

-- Does the call at an index, if there is one, have an id that passes the test?
abbrev pub hits : (String → Bool) → Option ToolUseBlock → ℕ
hits p none = 0
hits p (some c) = one_if (p c.tool_use_id)

abbrev pub tally : (String → Bool) → List ToolUseBlock → List ℕ → ℕ
tally p calls [] = 0
tally p calls (i ∷ is) = hits p (get_elem? calls i) + tally p calls is

pub tally-last :
    (p : String → Bool) (calls : List ToolUseBlock) (is : List ℕ) (i : ℕ)
    → tally p calls (is ++ i ∷ []) ≡ tally p calls is + hits p (get_elem? calls i)
tally-last p calls [] i = omega arith
tally-last p calls (j ∷ is) i = omega (arith, tally-last p calls is i)

same_index : (i j : ℕ) → (j == i) ≡ true → j ≡ i
same_index i j h = ground (arith, h)

pub hits-same :
    (p : String → Bool) (calls : List ToolUseBlock) (i j : ℕ)
    → (j == i) ≡ true
    → hits p (get_elem? calls j) ≡ hits p (get_elem? calls i)
hits-same p calls i j h = ap (λ k. hits p (get_elem? calls k)) (same_index i j h)

pub tally-remove :
    (p : String → Bool) (calls : List ToolUseBlock) (i : ℕ) (js : List ℕ)
    → holds i js ≡ true
    → tally p calls (remove i js) + hits p (get_elem? calls i) ≡ tally p calls js
unfolding holds remove
tally-remove p calls i [] h = cc
tally-remove p calls i (j ∷ js) h = elim (Bool-cases (j == i)) [
  | inl e ↦ rw e (omega (arith, hits-same p calls i j e))
  | inr e ↦ rw e (omega (arith, tally-remove p calls i js (ground (arith, h, e))))
]

pub tally-none :
    (p : String → Bool) (calls : List ToolUseBlock) (is : List ℕ)
    → length is ≡ 0
    → tally p calls is ≡ 0
tally-none p calls [] h = refl
tally-none p calls (i ∷ is) h = absurd (omega (arith, h))

get_elem?-length :
    (pre cs : List ToolUseBlock) (c : ToolUseBlock)
    → get_elem? (pre ++ c ∷ cs) (length pre) ≡ some c
get_elem?-length [] cs c = refl
get_elem?-length (x ∷ pre) cs c = get_elem?-length pre cs c

abbrev pub asked_ids : List ToolUseBlock → List String
asked_ids [] = []
asked_ids (c ∷ cs) = c.tool_use_id ∷ asked_ids cs

-- Every call has its index in one of the two parts of the batch.
pub tally-indices :
    (p q : String → Bool) (pre cs : List ToolUseBlock)
    → tally p (pre ++ cs) (indices (λ n. not (q n)) (length pre) cs)
        + tally p (pre ++ cs) (indices q (length pre) cs)
      ≡ count_ids p (asked_ids cs)
unfolding indices
tally-indices p q pre [] = omega arith
tally-indices p q pre (c ∷ cs) =
    let moved : pre ++ c ∷ cs ≡ (pre ++ c ∷ []) ++ cs = sym (append_assoc pre (c ∷ []) cs) in
    let here = get_elem?-length pre cs c in
    let next : length (pre ++ c ∷ []) ≡ suc (length pre) =
      omega (arith, length-append pre (c ∷ [])) in
    let rest : tally p (pre ++ c ∷ cs) (indices (λ n. not (q n)) (suc (length pre)) cs)
          + tally p (pre ++ c ∷ cs) (indices q (suc (length pre)) cs)
        ≡ count_ids p (asked_ids cs) =
      subst
        (λ (m : ℕ).
          tally p (pre ++ c ∷ cs) (indices (λ n. not (q n)) m cs)
            + tally p (pre ++ c ∷ cs) (indices q m cs)
          ≡ count_ids p (asked_ids cs))
        next
        (subst
          (λ (all : List ToolUseBlock).
            tally p all (indices (λ n. not (q n)) (length (pre ++ c ∷ [])) cs)
              + tally p all (indices q (length (pre ++ c ∷ [])) cs)
            ≡ count_ids p (asked_ids cs))
          (sym moved) (tally-indices p q (pre ++ c ∷ []) cs)) in
    elim (Bool-cases (q c.name)) [
      | inl e ↦ rw e (ground (arith, rest, ap (hits p) here))
      | inr e ↦ rw e (ground (arith, rest, ap (hits p) here))
    ]
