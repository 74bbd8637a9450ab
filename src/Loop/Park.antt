-- ===== src/Loop/Park.antt =====
-- agent-loop.ts, `waitForWake`: what ends a parked loop. The abort of `settled` after the race, which
-- takes the waits that are left off their sets, is left out.
use ephemeral_agent.Run.{
  Run, act_on_tasks, interrupt_run, steering, interruption, notifying, tasking, perform,
}
use ephemeral_agent.Common.{
  ℕ, String, ◌≡◌, Bool, true, false, not, ◌||◌, ◌&&◌, ◌<◌, length, Option, arith, ◌==◌, is_empty,
}
use ephemeral_agent.Contracts.{Message}
use ephemeral_agent.Waiters.{
  Waiters, contains, wait_unless, contains-last, wake_all-wait_unless, fire_abort-wait_unless,
}
use ephemeral_agent.Handle.{queued, steer, interrupt, wait_for_steer}
use ephemeral_agent.Inbox.{publish, wait_for_next}
use ephemeral_agent.Tasks.{Action, wait_for_change, step}
use ephemeral_agent.Tasks.Races.{step_removes}

contains-wait_unless :
    (ready : Bool) (w : ℕ) (ws : Waiters)
    → contains w ws.resolved ≡ false
    → contains w (wait_unless ready w ws).resolved ≡ ready
unfolding wait_unless
contains-wait_unless true w ws h = contains-last w ws.resolved
contains-wait_unless false w ws h = h

module _ {T : Type 0} where
  -- The three waits of the race, all under the number `w`; `since` is the captured change counter.
  unfoldable pub wait_for_wake : ℕ → ℕ → Run T → Run T
  unfolding wait_for_steer wait_for_next wait_for_change
  wait_for_wake since w r = record r {
    handle = wait_for_steer w r.handle.aborted r.handle;
    inbox = wait_for_next w r.handle.aborted r.inbox;
    tasks = wait_for_change since w r.handle.aborted r.tasks;
  }

  -- The race is over: one of the waits has resolved.
  abbrev pub is_woken : ℕ → Run T → Bool
  is_woken w r =
      contains w r.handle.steer_wakers.resolved
      || (contains w r.inbox.wakers.resolved || contains w r.tasks.wakers.resolved)

  -- All three waits have resolved.
  abbrev pub is_released : ℕ → Run T → Bool
  is_released w r =
      contains w r.handle.steer_wakers.resolved
      && (contains w r.inbox.wakers.resolved && contains w r.tasks.wakers.resolved)

  -- No wait has that number yet.
  abbrev pub IsUnused : ℕ → Run T → Type 0
  IsUnused w r =
      (contains w r.handle.steer_wakers.resolved ≡ false)
      × (contains w r.inbox.wakers.resolved ≡ false)
      × (contains w r.tasks.wakers.resolved ≡ false)

  -- A park ends at once exactly if there is a reason to: the run is interrupted, a steer or a
  -- notification is pending, or a task was removed since the capture of the change counter.
  park_at_once :
      (since w : ℕ) (r : Run T)
      → IsUnused w r
      → is_woken w (wait_for_wake since w r) ≡ (
          r.handle.aborted
          || (not (is_empty r.handle.steers)
              || (not (is_empty r.inbox.entries) || not (r.tasks.changes == since))))
  unfolding wait_for_wake
  park_at_once since w r (a, b, c) = ground (
    arith,
    contains-wait_unless (not (is_empty r.handle.steers) || r.handle.aborted) w
        r.handle.steer_wakers a,
    contains-wait_unless (not (is_empty r.inbox.entries) || r.handle.aborted) w r.inbox.wakers b,
    contains-wait_unless (not (r.tasks.changes == since) || r.handle.aborted) w r.tasks.wakers c,
  )

  removal_resolves :
      (since w : ℕ) (r : Run T) (a : Action)
      → let q = wait_for_wake since w r in
        length (step q.tasks a).entries < length q.tasks.entries
        → contains w (step q.tasks a).wakers.resolved ≡ true
  unfolding wait_for_wake wait_for_change
  removal_resolves since w r a h =
      rw (step_removes (wait_for_change since w r.handle.aborted r.tasks) a h).0
        (wake_all-wait_unless (not (r.tasks.changes == since) || r.handle.aborted) w r.tasks.wakers)

  -- A parked loop of a run that has not finished is woken by each of its sources: a queued steer,
  -- a published notification, and the removal of a task by whichever action on the registry; an
  -- interrupt, before the park or during it, resolves all three of its waits.
  pub park_wakes :
      (since w : ℕ) (r : Run T)
      → r.handle.finished ≡ false
      → let q = wait_for_wake since w r in
        ((m : Message) → (steer m q.handle).1 ≡ queued → is_woken w (perform (steering m) q) ≡ true)
        × ((m : String) (k : Option String) → is_woken w (perform (notifying m k) q) ≡ true)
        × ((a : Action)
            → length (step q.tasks a).entries < length q.tasks.entries
            → is_woken w (perform (tasking a) q) ≡ true)
        × (is_released w (perform interruption q) ≡ true)
  unfolding wait_for_wake perform
  park_wakes since w r f = (
    λ m h.
        unfold steer in
        ground (
          arith,
          wake_all-wait_unless (not (is_empty r.handle.steers) || r.handle.aborted) w
              r.handle.steer_wakers,
        ),
    λ m k.
        unfold publish in
        ground (
          arith,
          wake_all-wait_unless (not (is_empty r.inbox.entries) || r.handle.aborted) w
              r.inbox.wakers,
        ),
    λ a h. unfold act_on_tasks in ground (arith, removal_resolves since w r a h),
    unfold interrupt interrupt_run in
        ground (
          arith,
          f,
          fire_abort-wait_unless (not (is_empty r.handle.steers)) r.handle.aborted w
              r.handle.steer_wakers,
          fire_abort-wait_unless (not (is_empty r.inbox.entries)) r.handle.aborted w r.inbox.wakers,
          fire_abort-wait_unless (not (r.tasks.changes == since)) r.handle.aborted w r.tasks.wakers,
        ),
  )
