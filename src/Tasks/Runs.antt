-- ===== src/Tasks/Runs.antt =====
-- The invariant over every sequence of actions, and what it says of events and handlers.
use ephemeral_agent.Common.{◌+◌, ◌≤◌, String, ◌≡◌, List, [], ◌∷◌, arith}
use ephemeral_agent.Tasks
use ephemeral_agent.Tasks.State.{Supervisor}
use ephemeral_agent.Tasks.{
  register, settle, cancel, dispose_all, teardown_done, handler_done, Action, registers, settles,
  cancels_tag, disposes, finishes_teardown, finishes_handler, waits, step, run,
}
use ephemeral_agent.Tasks.Counts.{
  present, registrations, settlements, all_settlements, handler_calls,
}
use ephemeral_agent.Tasks.Invariant.{Inv, IsFresh, new-Inv}
use ephemeral_agent.Tasks.Disposal.{dispose_all-Inv}
use ephemeral_agent.Tasks.Settling.{settle-Inv, cancel-Inv, teardown_done-Inv, handler_done-Inv}
use ephemeral_agent.Tasks.Registration.{register-Inv}

-- Every action keeps the invariant of the registry, if a registration brings a new id.
pub step-Inv : (s : Supervisor) (a : Action) → IsFresh a s → Inv s → Inv (step s a)
unfolding step
step-Inv s (registers i now task) f v = register-Inv i now task s f v
step-Inv s (settles i o) f v = settle-Inv i o s v
step-Inv s (cancels_tag t reason) f v = cancel-Inv t reason s v
step-Inv s (disposes reason) f v = dispose_all-Inv reason s v
step-Inv s (finishes_teardown i) f v = teardown_done-Inv i s v
step-Inv s (finishes_handler i err) f v = handler_done-Inv i err s v
step-Inv s (waits since w aborted) f v = record {
  unique = v.unique;
  owned = v.owned;
  accounted = v.accounted;
  minted_once = v.minted_once;
  handled_once = v.handled_once;
  tags_unique = v.tags_unique;
  counted = v.counted;
  latched = v.latched;
}

-- Every registration of a run brings a new id.
abbrev pub AreFresh : Supervisor → List Action → Type 0
AreFresh s [] = Unit {0}
AreFresh s (a ∷ rest) = IsFresh a s × AreFresh (step s a) rest

pub run-Inv :
    (s : Supervisor) (actions : List Action) → AreFresh s actions → Inv s → Inv (run s actions)
unfolding run
run-Inv s [] f v = v
run-Inv s (a ∷ rest) f v = run-Inv (step s a) rest f.1 (step-Inv s a f.0 v)

-- After any actions on a new registry, where registrations bring new ids, each id was registered
-- at most once, its completion handler was called at most as often, it was settled exactly if it
-- was registered and has left the registry, and the change counter is the number of settlements.
pub run_once :
    (actions : List Action) (i : String)
    → AreFresh Tasks.new actions
    → let s = run Tasks.new actions in
      (registrations i s.emitted ≤ 1)
      × (handler_calls i s.handled ≤ registrations i s.emitted)
      × (registrations i s.emitted ≡ settlements i s.emitted + present i s.entries)
      × (s.changes ≡ all_settlements s.emitted)
run_once actions i f =
    let v = run-Inv Tasks.new actions f new-Inv in
    (v.minted_once i, omega (arith, v.handled_once i), v.accounted i, v.counted)
