-- ===== src/Handle.antt =====
-- packages/agent-core/src/agents/engine/run-handle.ts: the live event stream and the run handle.
pub mod Lifecycle
pub mod Soundness
pub mod Steering
pub mod Streams
pub mod Examples
use ephemeral_agent.Common.{
  ℕ, ◌+◌, ◌-◌, ap, Bool, true, false, not, ◌||◌, Option, none, some, List, [], ◌∷◌, ◌++◌,
  if◌then◌else◌, set, is_empty,
}
use ephemeral_agent.Contracts.{str, end, Role, user, assistant, Message}
use ephemeral_agent.Events.{internal, AgentOutcome, AgentEventBody, run_finished, AgentEvent}
use ephemeral_agent.Waiters.{Waiters, no_waiters, wake_all, wait_unless, wait_plain, fire_abort}

-- `delivered` lists what the consumer has been handed.
pub record EventStream (T : Type 0) : Type 0 where
  pub buffer : List (AgentEvent T)
  pub wakers : Waiters
  pub closed : Bool
  pub detached : Bool
  pub consumed : Bool
  pub delivered : List (AgentEvent T)

-- What one turn of the loop of `#next` yields.
pub data Next (T : Type 0) : Type 0 where
  value : AgentEvent T → Next T
  done : Next T
  pending : Next T

-- `tap` is what the internal tap saw; `resolved` is the settled outcome promise.
pub record RunHandle (T : Type 0) : Type 0 where
  pub stream : EventStream T
  pub aborted : Bool
  pub seq : ℕ
  pub steers : List Message
  pub steer_wakers : Waiters
  pub finishing : Bool
  pub finished : Bool
  pub resolved : Option (AgentOutcome T)
  pub tap : List (AgentEvent T)

pub data SteerVerdict : Type 0 where
  queued refused thrown : SteerVerdict

abbrev pub is_user : Role → Bool
is_user user = true
is_user assistant = false

module _ {T : Type 0} where
  unfoldable pub push : AgentEvent T → EventStream T → EventStream T
  push e s =
      if s.detached || s.closed
      then s
      else (record s { buffer = s.buffer ++ e ∷ []; wakers = wake_all s.wakers })

  unfoldable pub close : EventStream T → EventStream T
  close s = record s { closed = true; wakers = wake_all s.wakers }

  -- `none` is the thrown "single consumer".
  unfoldable pub iterate : EventStream T → Option (EventStream T)
  iterate s = if s.consumed then none else some (record s { consumed = true })

  take_next : List (AgentEvent T) → ℕ → EventStream T → EventStream T × Next T
  take_next (e ∷ rest) w s =
      (record s { buffer = rest; delivered = s.delivered ++ e ∷ [] }, value e)
  take_next [] w s =
      if s.closed then (s, done) else (record s { wakers = wait_plain w s.wakers }, pending)

  unfoldable pub next : ℕ → EventStream T → EventStream T × Next T
  unfolding take_next
  next w s = if s.detached then (s, done) else take_next s.buffer w s

  unfoldable pub detach : EventStream T → EventStream T
  detach s = record s { detached = true; buffer = []; wakers = wake_all s.wakers }

  unfoldable pub steer : Message → RunHandle T → RunHandle T × SteerVerdict
  steer m h =
      if not (is_user m.role)
      then (h, thrown)
      else if h.finishing || h.finished
      then (h, refused)
      else (
        record h { steers = h.steers ++ m ∷ []; steer_wakers = wake_all h.steer_wakers },
        queued,
      )

  -- The abort, and the listeners among the waits for a steer.
  unfoldable pub interrupt : RunHandle T → RunHandle T
  interrupt h =
      if h.finished
      then h
      else (record h { aborted = true; steer_wakers = fire_abort h.aborted h.steer_wakers })

  unfoldable pub emit : AgentEventBody T → RunHandle T → RunHandle T
  emit body h =
      let event : AgentEvent T = record { body = body; seq = h.seq } in
      record h { seq = h.seq + 1; tap = h.tap ++ event ∷ []; stream = push event h.stream }

  unfoldable pub drain_steers : RunHandle T → RunHandle T × List Message
  drain_steers h = (record h { steers = [] }, h.steers)

  unfoldable pub has_pending_steers : RunHandle T → Bool
  has_pending_steers h = not (is_empty h.steers)

  unfoldable pub wait_for_steer : ℕ → Bool → RunHandle T → RunHandle T
  wait_for_steer w signal h = record h {
    steer_wakers = wait_unless (not (is_empty h.steers) || signal) w h.steer_wakers;
  }

  unfoldable pub begin_finishing : RunHandle T → RunHandle T
  begin_finishing h = record h { finishing = true }

  unfoldable pub cancel_finishing : RunHandle T → RunHandle T
  cancel_finishing h = if h.finished then h else (record h { finishing = false })

  unfoldable pub finish : AgentOutcome T → RunHandle T → RunHandle T
  unfolding emit close
  finish o h =
      if h.finished
      then h
      else let emitted =
          emit (run_finished o) (record h { finishing = true; finished = true; steers = [] }) in
        record emitted { stream = close emitted.stream; resolved = some o }

  new_stream : EventStream T
  new_stream = record {
    buffer = [];
    wakers = no_waiters;
    closed = false;
    detached = false;
    consumed = false;
    delivered = [];
  }

  unfoldable pub new_handle : RunHandle T
  unfolding new_stream
  new_handle = record {
    stream = new_stream;
    aborted = false;
    seq = 0;
    steers = [];
    steer_wakers = no_waiters;
    finishing = false;
    finished = false;
    resolved = none;
    tap = [];
  }
