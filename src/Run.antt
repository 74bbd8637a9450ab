-- ===== src/Run.antt =====
-- packages/agent-core/src/agents/agent-runtime.ts: the state of one run as `startRun` assembles it,
-- the closures over it (notifier, submission gate), and what may happen to it at an await.
pub mod Validation
use ephemeral_agent.Common.{
  ℕ, ◌+◌, ◌-◌, min, String, ap, Bool, true, false, not, ◌&&◌, ◌||◌, Option, none, some, List, [],
  ◌∷◌, ◌++◌, ltb, if◌then◌else◌, is_empty,
}
use ephemeral_agent.Contracts.{str, num, end, user, Message, join}
use ephemeral_agent.Events.{run_started, task_event}
use ephemeral_agent.Handle
use ephemeral_agent.Handle.{
  pending, RunHandle, queued, thrown, steer, interrupt, emit, has_pending_steers, begin_finishing,
  cancel_finishing, finish, new_handle,
}
use ephemeral_agent.Inbox.{NotificationInbox, publish, drain, inbox_is_empty, count}
use ephemeral_agent.Inbox
use ephemeral_agent.Waiters.{fire_abort}
use ephemeral_agent.Tasks
use ephemeral_agent.Tasks.State.{Supervisor, LifecycleEvent}
use ephemeral_agent.Tasks.{Action, task_count}
use ephemeral_agent.Conversation.{notification, Conversation, new_conversation}

-- `submitting` is the gate's latch and `accepted` the terminal binding's accepted submission.
pub record Run (T : Type 0) : Type 0 where
  pub handle : RunHandle T
  pub inbox : NotificationInbox
  pub tasks : Supervisor
  pub conversation : Conversation
  pub submitting : Bool
  pub accepted : Option T

-- The events that an action has added to the log.
unfoldable pub added_events : List LifecycleEvent → List LifecycleEvent → List LifecycleEvent
added_events [] new_events = new_events
added_events (e ∷ old) [] = []
added_events (e ∷ old) (f ∷ new_events) = added_events old new_events

blocker : Bool → String → List String
blocker true s = s ∷ []
blocker false s = []

module _ {T : Type 0} where
  -- The run's notifier, latched after the finish.
  unfoldable pub notify : String → Option String → Run T → Run T
  notify message key r =
      if r.handle.finished then r else (record r { inbox = publish message key r.inbox })

  unfoldable pub emit_all : List LifecycleEvent → RunHandle T → RunHandle T
  emit_all [] h = h
  emit_all (e ∷ rest) h = emit_all rest (emit (task_event e) h)

  -- An action on the registry, whose emitter is the handle.
  unfoldable pub act_on_tasks : Action → Run T → Run T
  unfolding emit_all added_events
  act_on_tasks a r =
      let tasks' = Tasks.step r.tasks a in
      record r {
        tasks = tasks';
        handle = emit_all (added_events r.tasks.emitted tasks'.emitted) r.handle;
      }

  -- The submission gate's blockers; `show` prints a number.
  unfoldable pub blockers : (ℕ → String) → Run T → List String
  unfolding blocker
  blockers show r =
      blocker (ltb 0 (task_count r.tasks))
        (join "" (show (task_count r.tasks) ∷ " background task(s) still open" ∷ []))
      ++ (blocker (ltb 0 (Inbox.count r.inbox))
            (join "" (show (Inbox.count r.inbox) ∷ " undrained notification(s)" ∷ []))
          ++ (blocker (has_pending_steers r.handle) "a queued user message is pending"
              ++ blocker r.submitting "a submission was already accepted"))

  unfoldable pub begin_submission : Run T → Run T
  begin_submission r = record r { submitting = true; handle = begin_finishing r.handle }

  unfoldable pub cancel_submission : Run T → Run T
  cancel_submission r = record r { submitting = false; handle = cancel_finishing r.handle }

  unfoldable pub take_accepted : Run T → Run T × Option T
  take_accepted r = (record r { accepted = none }, r.accepted)

  -- `startRun` up to the loop: `none` is the thrown "requires at least one user message".
  unfoldable pub start_run : String → List Message → Option (Run T)
  start_run agent_name messages =
      if is_empty messages
      then none
      else some (record {
        handle = emit (run_started agent_name) new_handle;
        inbox = Inbox.new;
        tasks = Tasks.new;
        conversation = new_conversation messages;
        submitting = false;
        accepted = none;
      })

-- What the host, its tools and its tasks may do to a run while the loop is suspended.
pub data Activity : Type 0 where
  steering : Message → Activity
  interruption : Activity
  notifying : String → Option String → Activity
  tasking : Action → Activity

module _ {T : Type 0} where
  -- `interrupt`, whose abort event also reaches the waits on the inbox and on the registry.
  unfoldable pub interrupt_run : Run T → Run T
  interrupt_run r =
      let mute = r.handle.finished || r.handle.aborted in
      record r {
        handle = interrupt r.handle;
        inbox = record r.inbox { wakers = fire_abort mute r.inbox.wakers };
        tasks = record r.tasks { wakers = fire_abort mute r.tasks.wakers };
      }

  unfoldable pub perform : Activity → Run T → Run T
  unfolding notify act_on_tasks interrupt_run
  perform (steering m) r = record r { handle = (Handle.steer m r.handle).0 }
  perform interruption r = interrupt_run r
  perform (notifying m k) r = notify m k r
  perform (tasking a) r = act_on_tasks a r

  unfoldable pub perform_all : List Activity → Run T → Run T
  unfolding perform
  perform_all [] r = r
  perform_all (a ∷ rest) r = perform_all rest (perform a r)

  -- The one predicate of both exits: no pending steer, no open task, an empty inbox.
  abbrev pub gate_open : Run T → Bool
  gate_open r =
      not (has_pending_steers r.handle)
      && (Tasks.registry_is_empty r.tasks && inbox_is_empty r.inbox)
