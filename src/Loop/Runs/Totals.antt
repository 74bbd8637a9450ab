-- ===== src/Loop/Runs/Totals.antt =====
-- What an outcome reports: the turns committed and their usage, summed.
use ephemeral_agent.Common.{
  ◌+◌, ◌≡◌, ◌⊎◌, inl, inr, Option, none, some, List, [], ◌∷◌, ◌++◌, ◌==◌, if◌then◌else◌, length,
}
use ephemeral_agent.Usage.{UsageSnapshot, add_usage}
use ephemeral_agent.Events.{AgentOutcome}
use ephemeral_agent.Run.{Run}
use ephemeral_agent.Turn.{CompletedTurn}
use ephemeral_agent.Turn.Salvage.{first_completion}
use ephemeral_agent.Loop.State.{LoopContext, Round, LoopState}
use ephemeral_agent.Loop.{Pass, continues, parks, exits, run_pass}
use ephemeral_agent.Loop.Runs.Committed.{assistants, state_after}

abbrev pub add_all : UsageSnapshot → List UsageSnapshot → UsageSnapshot
add_all u [] = u
add_all u (v ∷ vs) = add_all (add_usage u v) vs

abbrev turn_usage : Option CompletedTurn → List UsageSnapshot
turn_usage none = []
turn_usage (some t) = t.usage ∷ []

module _ {T : Type 0} where
  -- The usage of the turn that a pass committed: where it added an assistant message to the
  -- conversation, that of the completion in its stream.
  abbrev committed_by : LoopContext T → Round T → LoopState T → List UsageSnapshot
  committed_by c r s =
      if assistants (state_after (run_pass c r s)).run == assistants s.run
      then []
      else turn_usage (first_completion r.stream.items)

  committed_after : LoopContext T → Pass T → (LoopState T → List UsageSnapshot) → List UsageSnapshot
  committed_after c (continues s) later = later s
  committed_after c (parks s) later = later s
  committed_after c (exits s status) later = []

  -- The usage of every turn that the loop committed, in order.
  unfoldable pub committed_in : LoopContext T → List (Round T) → LoopState T → List UsageSnapshot
  unfolding committed_after
  committed_in c [] s = []
  committed_in c (r ∷ rest) s =
      committed_by c r s ++ committed_after c (run_pass c r s) (committed_in c rest)

  -- What a finished run reports, from a state and the usages committed after it.
  abbrev Reports : LoopState T → List UsageSnapshot → Run T ⊎ LoopState T → Type 0
  Reports s us (inl final) =
      (o : AgentOutcome T) × (final.handle.resolved ≡ some o)
      × (o.turns ≡ s.turns + length us)
      × (o.usage ≡ add_all s.usage us)
      × (assistants final ≡ assistants s.run + length us)
  Reports s us (inr t) = Unit {0}
