-- ===== src/Handle/Streams.antt =====
-- What the consumer of a run's events gets.
use ephemeral_agent.Common.{◌≤◌, ◌≡◌, true, false, some, List, []}
use ephemeral_agent.Events.{AgentOutcome}
use ephemeral_agent.Handle.{new_handle}
use ephemeral_agent.Handle.Soundness.{reached-HandleInv}
use ephemeral_agent.Handle.Lifecycle.{
  HandleAction, run_actions, visible, finals, IsNumberedFrom, EndsWith,
}

module _ {T : Type 0} where
  -- Whatever reaches a new handle, in whatever order: the events are numbered without gaps from
  -- zero, and at most one of them is final. Until the run finishes, a consumer that has not
  -- detached has been handed or will be handed every event emitted, in order; once it has finished,
  -- the outcome is settled, the submission window is latched shut, no steer is left, and the last
  -- event of such a consumer, and only the last, is the final one with that outcome.
  pub event_stream :
      (actions : List (HandleAction T))
      → let h = run_actions new_handle actions in
        IsNumberedFrom 0 h.tap
        × (finals h.tap ≤ 1)
        × (h.finished ≡ false → h.stream.detached ≡ false → visible h ≡ h.tap)
        × (h.finished ≡ true
            → (o : AgentOutcome T) × (h.resolved ≡ some o)
              × (h.finishing ≡ true)
              × (h.steers ≡ [])
              × (h.stream.detached ≡ false → EndsWith o (visible h)))
  event_stream actions =
      let v = reached-HandleInv actions in
      (
        v.numbered,
        v.once,
        v.open_stream,
        λ f. let (o, r, ends) = v.settled f in (o, r, (v.latched f).0, (v.latched f).1, ends),
      )
