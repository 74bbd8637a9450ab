-- ===== src/Handle/Examples.antt =====
-- The handle's theorems on a short run with a steer and a consumer.
use ephemeral_agent.Common.{◌≤◌, String, ◌≡◌, refl, true, false, some, List, [], ◌∷◌, ◌++◌}
use ephemeral_agent.Contracts.{user, text, Message}
use ephemeral_agent.Usage.{zero_usage}
use ephemeral_agent.Events.{completed, AgentOutcome, run_started, turn_started}
use ephemeral_agent.Handle.{
  refused, is_user, steer, interrupt, cancel_finishing, finish, new_handle,
}
use ephemeral_agent.Handle.Lifecycle.{
  run_actions, HandleAction, steers_with, interrupts, emits, drains, begins_finishing,
  cancels_finishing, finishes, iterates, pulls, run_actions, visible, finals, IsNumberedFrom,
  EndsWith,
}
use ephemeral_agent.Handle.Steering.{all_accepted, all_drained, steers_conserved, finish_absorbs}
use ephemeral_agent.Handle.Streams.{event_stream}

abbrev message : Message
message = record { role = user; content = text "and the tests" ∷ [] }

abbrev outcome : AgentOutcome String
outcome = record { usage = zero_usage; turns = 1; status = completed "ok" }

abbrev actions : List (HandleAction String)
actions =
    emits (run_started "agent") refl
    ∷ iterates
    ∷ pulls 0
    ∷ steers_with message
    ∷ emits (turn_started 1) refl
    ∷ drains
    ∷ finishes outcome
    ∷ pulls 1
    ∷ interrupts
    ∷ finishes outcome
    ∷ []

event_stream_example :
    let h = run_actions new_handle actions in
    IsNumberedFrom 0 h.tap
    × (finals h.tap ≤ 1)
    × (h.finished ≡ false → h.stream.detached ≡ false → visible h ≡ h.tap)
    × (h.finished ≡ true
        → (o : AgentOutcome String) × (h.resolved ≡ some o)
          × (h.finishing ≡ true)
          × (h.steers ≡ [])
          × (h.stream.detached ≡ false → EndsWith o (visible h)))
event_stream_example = event_stream actions

abbrev steering : List (HandleAction String)
steering =
    steers_with message
    ∷ begins_finishing
    ∷ steers_with message
    ∷ cancels_finishing
    ∷ drains
    ∷ steers_with message
    ∷ []

steers_conserved_example :
    [] ++ all_accepted new_handle steering
    ≡ all_drained new_handle steering ++ (run_actions new_handle steering).steers
unfolding new_handle run_actions
steers_conserved_example = steers_conserved new_handle steering refl

finish_absorbs_example :
    let g = finish outcome new_handle in
    ((new_handle {T = String}).finished ≡ false → g.resolved ≡ some outcome)
    × (finish outcome g ≡ g)
    × (interrupt g ≡ g)
    × (cancel_finishing g ≡ g)
    × (is_user message.role ≡ true → steer message g ≡ (g, refused))
finish_absorbs_example = finish_absorbs outcome outcome message new_handle
