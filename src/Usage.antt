-- ===== src/Usage.antt =====
-- packages/agent-core/src/agents/llm-client/types.ts and engine/turn.ts: token usage and its sums.
use native.Mathlib.Nat.{add_assoc, add_comm}
use ephemeral_agent.Common.{
  ℕ, ◌+◌, ◌≡◌, Option, none, some, List, [], ◌∷◌, arith, ltb, if◌then◌else◌, or_else,
}

pub record UsageSnapshot : Type 0 where
  pub input_tokens : ℕ
  pub output_tokens : ℕ
  pub cache_read_input_tokens : Option ℕ
  pub cache_creation_input_tokens : Option ℕ

-- A cache field is set only if its sum is positive.
pub reported : ℕ → Option ℕ
reported n = if ltb 0 n then some n else none

unfoldable pub add_usage : UsageSnapshot → UsageSnapshot → UsageSnapshot
unfolding reported
add_usage total turn = record {
  input_tokens = total.input_tokens + turn.input_tokens;
  output_tokens = total.output_tokens + turn.output_tokens;
  cache_read_input_tokens =
      reported (or_else total.cache_read_input_tokens 0 + or_else turn.cache_read_input_tokens 0);
  cache_creation_input_tokens =
      reported
        (or_else total.cache_creation_input_tokens 0 + or_else turn.cache_creation_input_tokens 0);
}

-- `let usage: UsageSnapshot = { input_tokens: 0, output_tokens: 0 }` of the loop.
abbrev pub zero_usage : UsageSnapshot
zero_usage = record {
  input_tokens = 0;
  output_tokens = 0;
  cache_read_input_tokens = none;
  cache_creation_input_tokens = none;
}

or_else-reported : (n : ℕ) → or_else (reported n) 0 ≡ n
unfolding reported
or_else-reported n = ground arith

-- The order in which turns are added does not matter, cache fields included.
pub add_usage_comm : (a b : UsageSnapshot) → add_usage a b ≡ add_usage b a
unfolding add_usage
add_usage_comm a b = simp (
  add_comm a.input_tokens b.input_tokens,
  add_comm a.output_tokens b.output_tokens,
  add_comm (or_else a.cache_read_input_tokens 0) (or_else b.cache_read_input_tokens 0),
  add_comm (or_else a.cache_creation_input_tokens 0) (or_else b.cache_creation_input_tokens 0),
)

-- Adding usage is associative, cache fields included.
pub add_usage_assoc :
    (a b c : UsageSnapshot) → add_usage (add_usage a b) c ≡ add_usage a (add_usage b c)
unfolding add_usage
add_usage_assoc a b c = simp (or_else-reported, add_assoc)

abbrev pub sum_usage : List UsageSnapshot → UsageSnapshot
sum_usage [] = zero_usage
sum_usage (u ∷ us) = add_usage u (sum_usage us)
