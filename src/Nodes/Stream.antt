-- ===== src/Nodes/Stream.antt =====
-- packages/agent-core/src/nodes/events.ts: the numbered event stream of a workflow run or a node run.
use ephemeral_agent.Common.{
  ℕ, ◌+◌, Bool, true, false, ◌||◌, Option, none, some, List, [], ◌∷◌, ◌++◌, if◌then◌else◌, or_else,
}
use ephemeral_agent.Waiters.{Waiters, no_waiters, wake_all, wait_plain}

pub record Event (B : Type 0) : Type 0 where
  pub body : B
  pub seq : ℕ

-- `emitted` lists what `emit` has returned, `delivered` what the consumer has been handed.
pub record RunEventStream (B : Type 0) : Type 0 where
  pub seq : ℕ
  pub buffer : List (Event B)
  pub wakers : Waiters
  pub closed : Bool
  pub detached : Bool
  pub consumed : Bool
  pub emitted : List (Event B)
  pub delivered : List (Event B)

-- What one turn of the loop of `#next` yields.
pub data Next (B : Type 0) : Type 0 where
  value : Event B → Next B
  done pending : Next B

-- What a consumer does.
pub data ConsumerAction : Type 0 where
  iterates returns : ConsumerAction
  pulls : (waker : ℕ) → ConsumerAction

module _ {B : Type 0} where
  unfoldable pub push : Event B → RunEventStream B → RunEventStream B
  push e s =
      if s.closed || s.detached
      then s
      else (record s { buffer = s.buffer ++ e ∷ []; wakers = wake_all s.wakers })

  unfoldable pub close : RunEventStream B → RunEventStream B
  close s = record s { closed = true; wakers = wake_all s.wakers }

  -- `none` is the thrown "single consumer".
  unfoldable pub iterate : RunEventStream B → Option (RunEventStream B)
  iterate s = if s.consumed then none else some (record s { consumed = true })

  unfoldable pub take_next : List (Event B) → ℕ → RunEventStream B → RunEventStream B × Next B
  take_next (e ∷ rest) w s =
      (record s { buffer = rest; delivered = s.delivered ++ e ∷ [] }, value e)
  take_next [] w s =
      if s.closed then (s, done) else (record s { wakers = wait_plain w s.wakers }, pending)

  unfoldable pub next : ℕ → RunEventStream B → RunEventStream B × Next B
  unfolding take_next
  next w s = if s.detached then (s, done) else take_next s.buffer w s

  unfoldable pub detach : RunEventStream B → RunEventStream B
  detach s = record s { detached = true; buffer = []; wakers = wake_all s.wakers }

  unfoldable pub emit : B → RunEventStream B → RunEventStream B
  unfolding push
  emit body s =
      let event : Event B = record { body = body; seq = s.seq } in
      push event (record s { seq = s.seq + 1; emitted = s.emitted ++ event ∷ [] })

  unfoldable pub new_stream : RunEventStream B
  new_stream = record {
    seq = 0;
    buffer = [];
    wakers = no_waiters;
    closed = false;
    detached = false;
    consumed = false;
    emitted = [];
    delivered = [];
  }

  unfoldable pub consume : ConsumerAction → RunEventStream B → RunEventStream B
  unfolding iterate next detach
  consume iterates s = or_else (iterate s) s
  consume returns s = detach s
  consume (pulls w) s = (next w s).0
