-- ===== src/Tasks/Races.antt =====
-- Cancellation against completion, tag reuse, the disposal latch and the wait for a change.
use ephemeral_agent.Common.{
  ℕ, suc, ◌+◌, ◌≤◌, ◌<◌, String, ◌≡◌, refl, sym, ap, subst, ◌∙◌, ◌↔◌, ◌⊎◌, inl, inr, Bool, true,
  false, not, ◌||◌, Option, none, some, List, [], ◌∷◌, ◌++◌, arith, ◌==◌, Option-cases, str_eq_refl,
  find, length, select, if_intro,
}
use ephemeral_agent.Tasks.State.{
  BackgroundTaskOutcome, Tag, BackgroundTask, TaskEntry, Continuation, Supervisor,
}
use ephemeral_agent.Tasks.{
  id_of, same_tag, has_id, find_active, mark_settling, register, remove_entry, settle, cancel,
  dispose_all, awaits, resume_handler, handler_done, wait_for_change, Action, registers, settles,
  cancels_tag, disposes, finishes_teardown, finishes_handler, waits, step, complete, map_set,
  mark_all, dispose_each, begin_teardown, new_entry, settle_entry, mark, cancel_entry,
  resume_teardown, drop_first, teardown_done,
}
use ephemeral_agent.Tasks.Counts.{present}
use ephemeral_agent.Tasks.Invariant.{Inv}
use ephemeral_agent.Tasks.Settling.{present-find, find-by_id}
use ephemeral_agent.Tasks.Drain.{dispose_all_latches}
use ephemeral_agent.Waiters.{
  Waiters, contains, wake_all, wait_unless, contains-last, wake_all-wait_unless,
}

find-mark_settling :
    (t : Tag) (es : List TaskEntry) (e : TaskEntry)
    → find (same_tag t) es ≡ some e
    → present (id_of e) es ≤ 1
    → find (same_tag t) (mark_settling (id_of e) es) ≡ some (record e { settling = true })
unfolding mark_settling
find-mark_settling t [] e h u = cc
find-mark_settling t (f ∷ es) e h u =
    ground (arith, find-mark_settling t es e, present-find (same_tag t) es e, str_eq_refl (id_of e))

find_id-mark_settling :
    (i : String) (es : List TaskEntry) (e : TaskEntry)
    → find (has_id i) es ≡ some e
    → find (has_id i) (mark_settling i es) ≡ some (record e { settling = true })
unfolding mark_settling
find_id-mark_settling i [] e h = cc
find_id-mark_settling i (f ∷ es) e h = ground (arith, find_id-mark_settling i es e)

-- The verdict of a cancel: true exactly if the tag names a task that is not settling.
pub cancel_verdict :
    (t : Tag) (reason : Option String) (s : Supervisor)
    → ((cancel t reason s).1 ≡ true)
      ↔ ((e : TaskEntry) × (find_active t s ≡ some e) × (e.settling ≡ false))
unfolding cancel
cancel_verdict t reason s = unfold find_active in (λ h. ground arith, λ h. ground arith)

-- In a registry that satisfies the invariant, a second cancel of a tag right after the first
-- answers false and changes nothing.
cancel-cancel :
    (t : Tag) (reason again : Option String) (s : Supervisor)
    → Inv s
    → cancel t again (cancel t reason s).0 ≡ ((cancel t reason s).0, false)
unfolding cancel
cancel-cancel t reason again s v = elim (Option-cases (find (same_tag t) s.entries)) [
  | inl h ↦ ground arith
  | inr (e, h) ↦ ground (arith, find-mark_settling t s.entries e h (v.unique (id_of e)))
]

-- In a registry that satisfies the invariant, a natural settle that comes right after a
-- successful cancel of the same task changes nothing.
pub settle-cancel :
    (t : Tag) (reason : Option String) (o : BackgroundTaskOutcome) (e : TaskEntry) (s : Supervisor)
    → Inv s
    → find_active t s ≡ some e
    → (cancel t reason s).1 ≡ true
    → settle (id_of e) o (cancel t reason s).0 ≡ (cancel t reason s).0
unfolding cancel settle find_active
settle-cancel t reason o e s v h k =
    let by_id : find (has_id (id_of e)) s.entries ≡ some e =
      find-by_id (same_tag t) s.entries e h (v.unique (id_of e)) in
    ground (arith, find_id-mark_settling (id_of e) s.entries e by_id)

-- A tag that is active is refused, and the registry stays as it was.
pub register_active_tag :
    (i : String) (now : ℕ) (task : BackgroundTask) (e : TaskEntry) (s : Supervisor)
    → s.disposed_reason ≡ none
    → find_active task.tag s ≡ some e
    → register i now task s ≡ (s, none)
unfolding register
register_active_tag i now task e s d h = ground arith

-- After disposal a registration is cancelled with the reason of the disposal and adds no entry,
-- no event and no continuation.
register_disposed :
    (i : String) (now : ℕ) (task : BackgroundTask) (reason : String) (s : Supervisor)
    → let t = dispose_all reason s in
      let u = (register i now task t).0 in
      (u.entries ≡ t.entries)
      × (u.emitted ≡ t.emitted)
      × (u.suspended ≡ t.suspended)
      × (u.cancels ≡ t.cancels ++ (i, t.disposed_reason) ∷ [])
unfolding register
register_disposed i now task reason s = ground (arith, dispose_all_latches reason s)

length-map_set : (e : TaskEntry) (es : List TaskEntry) → length es ≤ length (map_set e es)
unfolding map_set
length-map_set e [] = omega arith
length-map_set e (f ∷ es) = ground (arith, length-map_set e es)

length-mark_settling : (i : String) (es : List TaskEntry) → length (mark_settling i es) ≡ length es
unfolding mark_settling
length-mark_settling i [] = refl
length-mark_settling i (f ∷ es) = ground (arith, length-mark_settling i es)

length-mark_all : (es : List TaskEntry) → length (mark_all es) ≡ length es
unfolding mark_all
length-mark_all [] = refl
length-mark_all (e ∷ es) = ap suc (length-mark_all es)

dispose_each-entries :
    (es : List TaskEntry) (reason : String) (s : Supervisor)
    → (dispose_each es reason s).entries ≡ s.entries
unfolding dispose_each begin_teardown
dispose_each-entries [] reason s = refl
dispose_each-entries (e ∷ es) reason s = dispose_each-entries es reason _

-- From one registry to the next either the change was counted and the waits were woken, or no
-- task left.
abbrev Tells : Supervisor → Supervisor → Type 0
Tells s t =
    ((t.wakers ≡ wake_all s.wakers) × (t.changes ≡ s.changes + 1))
    ⊎ (length s.entries ≤ length t.entries)

complete-Tells :
    (e : TaskEntry) (o : BackgroundTaskOutcome) (s t : Supervisor)
    → t.wakers ≡ s.wakers
    → t.changes ≡ s.changes
    → length s.entries ≤ length t.entries
    → Tells s (complete e o t)
unfolding complete remove_entry
complete-Tells e o s t w c n =
    if_intro (Tells s) e.task.silent _ _ (λ _. inl (ap wake_all w, omega (arith, c))) (λ _. inr n)

step-Tells : (s : Supervisor) (a : Action) → Tells s (step s a)
unfolding step register settle settle_entry cancel cancel_entry begin_teardown mark dispose_all
    teardown_done resume_teardown handler_done resume_handler remove_entry wait_for_change
step-Tells s (registers i now task) =
    inr (ground (arith, length-map_set (new_entry i now task) s.entries))
step-Tells s (settles i o) = go (find (has_id i) s.entries)
  where
    go : (f : Option TaskEntry) → Tells s (settle_entry f o s)
    go none = inr (omega arith)
    go (some e) =
        if_intro (Tells s) e.settling _ _ (λ _. inr (omega arith))
          (λ _.
            complete-Tells e o s (mark e s) refl refl
              (omega (arith, length-mark_settling (id_of e) s.entries)))
step-Tells s (cancels_tag t reason) = go (find_active t s)
  where
    go : (f : Option TaskEntry) → Tells s (cancel_entry f reason s).0
    go none = inr (omega arith)
    go (some e) =
        if_intro (λ (q : Supervisor × Bool). Tells s q.0) e.settling _ _ (λ _. inr (omega arith))
          (λ _. inr (omega (arith, length-mark_settling (id_of e) s.entries)))
step-Tells s (disposes reason) = inr (
    rw (dispose_each-entries (select (λ e. not e.settling) s.entries) reason _)
      (omega (arith, length-mark_all s.entries)))
step-Tells s (finishes_teardown i) = go (find (awaits i true) s.suspended)
  where
    go :
        (f : Option Continuation)
        → Tells s (resume_teardown f (drop_first (awaits i true) s.suspended) s)
    go none = inr (omega arith)
    go (some c) = complete-Tells c.entry c.outcome s _ refl refl (omega arith)
step-Tells s (finishes_handler i err) = go (find (awaits i false) s.suspended)
  where
    go :
        (f : Option Continuation)
        → Tells s (resume_handler f (drop_first (awaits i false) s.suspended) err s)
    go none = inr (omega arith)
    go (some c) = inl (refl, refl)
step-Tells s (waits since w aborted) = inr (omega arith)

-- A step that leaves fewer tasks has counted the change and woken the waits.
pub step_removes :
    (s : Supervisor) (a : Action)
    → length (step s a).entries < length s.entries
    → ((step s a).wakers ≡ wake_all s.wakers) × ((step s a).changes ≡ s.changes + 1)
step_removes s a h = elim (step-Tells s a) [ inl t ↦ t | inr n ↦ absurd (omega (arith, h, n)) ]

-- The entries after a step do not depend on who waits.
step-wakers :
    (s : Supervisor) (a : Action) (ws : Waiters)
    → (step (record s { wakers = ws }) a).entries ≡ (step s a).entries
unfolding step register settle settle_entry cancel cancel_entry begin_teardown mark dispose_all
    teardown_done resume_teardown handler_done resume_handler remove_entry wait_for_change complete
    find_active
step-wakers s (registers i now task) ws = ground arith
step-wakers s (settles i o) ws = ground arith
step-wakers s (cancels_tag t reason) ws = ground arith
step-wakers s (disposes reason) ws =
    dispose_each-entries (select (λ e. not e.settling) s.entries) reason _
    ∙ sym (dispose_each-entries (select (λ e. not e.settling) s.entries) reason _)
step-wakers s (finishes_teardown i) ws = ground arith
step-wakers s (finishes_handler i err) ws = ground arith
step-wakers s (waits since w aborted) ws = refl

wait_for_later_change :
    (since w : ℕ) (aborted : Bool) (s : Supervisor)
    → s.changes ≡ since + 1
    → contains w (wait_for_change since w aborted s).wakers.resolved ≡ true
unfolding wait_for_change wait_unless
wait_for_later_change since w aborted s h =
    let changed : (not (s.changes == since) || aborted) ≡ true = ground arith in
    subst (λ b. contains w (wait_unless b w s.wakers).resolved ≡ true) (sym changed)
      (contains-last w s.wakers.resolved)

-- The removal of a task, by whichever action on the registry, is never missed: a wait for a change
-- since before it is resolved, whether the wait was registered before the removal or begins after
-- it.
pub removal_wakes :
    (a : Action) (w : ℕ) (aborted : Bool) (s : Supervisor)
    → length (step s a).entries < length s.entries
    → (contains w (step (wait_for_change s.changes w aborted s) a).wakers.resolved ≡ true)
      × (contains w (wait_for_change s.changes w aborted (step s a)).wakers.resolved ≡ true)
unfolding wait_for_change
removal_wakes a w aborted s h =
    let waiting : Supervisor = wait_for_change s.changes w aborted s in
    let fewer : length (step waiting a).entries < length s.entries =
      subst (λ (es : List TaskEntry). length es < length s.entries)
        (sym (step-wakers s a waiting.wakers)) h in
    (
      rw (step_removes waiting a fewer).0
          (wake_all-wait_unless (not (s.changes == s.changes) || aborted) w s.wakers),
      wait_for_later_change s.changes w aborted (step s a) (step_removes s a h).1,
    )
