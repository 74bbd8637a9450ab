-- ===== src/Tasks.antt =====
-- packages/agent-core/src/agents/background: the registry of a run's background tasks.
-- An `async` method is cut at its awaits: the part before the first await is the operation, and
-- what is suspended is a `Continuation`, which `teardown_done` and `handler_done` resume.
pub mod State
pub mod Counts
pub mod Invariant
pub mod Disposal
pub mod Settling
pub mod Registration
pub mod Runs
pub mod Drain
pub mod Races
pub mod Examples
use ephemeral_agent.Common.{
  ℕ, suc, ◌+◌, ◌-◌, min, String, ap, Bool, true, false, not, ◌&&◌, ◌||◌, Option, none, some, List,
  [], ◌∷◌, ◌++◌, map, str_eq, ◌==◌, if◌then◌else◌, is_some, or_else, length, set, is_empty, select,
  find,
}
use ephemeral_agent.Tasks.State.{
  cancelled, BackgroundTaskOutcome, Tag, BackgroundTask, BackgroundTaskRow, task_registered,
  task_settled, TaskEntry, Phase, tearing_down, handling, Continuation, Supervisor,
}
use ephemeral_agent.Waiters.{Waiters, no_waiters, delete, wake_all, wait_unless}

abbrev pub new : Supervisor
new = record {
  entries = [];
  wakers = no_waiters;
  changes = 0;
  disposed_reason = none;
  emitted = [];
  suspended = [];
  cancels = [];
  handled = [];
}

abbrev pub id_of : TaskEntry → String
id_of e = e.row.task_id

abbrev pub same_tag : Tag → TaskEntry → Bool
same_tag t e = str_eq e.row.tag.type t.type && str_eq e.row.tag.id t.id

abbrev pub has_id : String → TaskEntry → Bool
has_id i e = str_eq (id_of e) i

unfoldable pub find_active : Tag → Supervisor → Option TaskEntry
find_active t s = find (same_tag t) s.entries

-- `Map.set`, `Map.delete` and `entry.settling = true` on the entry with an id.
pub map_set : TaskEntry → List TaskEntry → List TaskEntry
map_set e [] = e ∷ []
map_set e (f ∷ rest) = if has_id (id_of e) f then e ∷ rest else f ∷ map_set e rest

pub map_delete : String → List TaskEntry → List TaskEntry
map_delete i [] = []
map_delete i (f ∷ rest) = if has_id i f then rest else f ∷ map_delete i rest

pub mark_settling : String → List TaskEntry → List TaskEntry
mark_settling i [] = []
mark_settling i (f ∷ rest) =
    if has_id i f then record f { settling = true } ∷ rest else f ∷ mark_settling i rest

pub new_entry : String → ℕ → BackgroundTask → TaskEntry
new_entry i now task = record {
  task = task;
  row = record { task_id = i; tag = task.tag; title = task.title; started_at = now };
  settling = false;
}

-- `none` is the thrown "tag already active"; `i` is the minted id and `now` the clock.
unfoldable pub register : String → ℕ → BackgroundTask → Supervisor → Supervisor × Option String
unfolding find_active map_set new_entry
register i now task s =
    if is_some s.disposed_reason
    then (record s { cancels = s.cancels ++ (i, s.disposed_reason) ∷ [] }, some i)
    else if is_some (find_active task.tag s)
    then (s, none)
    else (
      record s {
        entries = map_set (new_entry i now task) s.entries;
        emitted = s.emitted ++ task_registered (new_entry i now task).row ∷ [];
      },
      some i,
    )

unfoldable pub list : Supervisor → List BackgroundTaskRow
list s = map (λ e. e.row) s.entries

unfoldable pub registry_is_empty : Supervisor → Bool
registry_is_empty s = is_empty s.entries

unfoldable pub task_count : Supervisor → ℕ
task_count s = length s.entries

-- The end of `#complete`: remove, count the change, emit, wake.
pub remove_entry : TaskEntry → BackgroundTaskOutcome → Option String → Supervisor → Supervisor
unfolding map_delete
remove_entry e o err s = record s {
  entries = map_delete (id_of e) s.entries;
  changes = s.changes + 1;
  emitted = s.emitted ++ task_settled (id_of e) e.row.tag e.row.title o err ∷ [];
  wakers = wake_all s.wakers;
}

-- `#complete` up to its await: a silent task is removed at once, any other calls its handler.
pub complete : TaskEntry → BackgroundTaskOutcome → Supervisor → Supervisor
unfolding remove_entry
complete e o s = if e.task.silent then remove_entry e o none s else (record s {
  handled = s.handled ++ (id_of e, o) ∷ [];
  suspended = s.suspended ++ record { entry = e; phase = handling; outcome = o } ∷ [];
})

-- `#teardown` up to its await, with the completion that follows it suspended.
pub begin_teardown : TaskEntry → Option String → BackgroundTaskOutcome → Supervisor → Supervisor
begin_teardown e reason o s = record s {
  cancels = s.cancels ++ (id_of e, reason) ∷ [];
  suspended = s.suspended ++ record { entry = e; phase = tearing_down; outcome = o } ∷ [];
}

pub mark : TaskEntry → Supervisor → Supervisor
unfolding mark_settling
mark e s = record s { entries = mark_settling (id_of e) s.entries }

pub settle_entry : Option TaskEntry → BackgroundTaskOutcome → Supervisor → Supervisor
unfolding complete mark
settle_entry none o s = s
settle_entry (some e) o s = if e.settling then s else complete e o (mark e s)

-- `done` of the task `i` resolved with an outcome, or was rejected with a message.
unfoldable pub settle : String → BackgroundTaskOutcome → Supervisor → Supervisor
unfolding settle_entry
settle i o s = settle_entry (find (has_id i) s.entries) o s

pub cancelled_outcome : Option String → BackgroundTaskOutcome
cancelled_outcome reason = record { status = cancelled; outcome = or_else reason "cancelled" }

pub cancel_entry : Option TaskEntry → Option String → Supervisor → Supervisor × Bool
unfolding begin_teardown mark cancelled_outcome
cancel_entry none reason s = (s, false)
cancel_entry (some e) reason s =
    if e.settling
    then (s, false)
    else (begin_teardown e reason (cancelled_outcome reason) (mark e s), true)

unfoldable pub cancel : Tag → Option String → Supervisor → Supervisor × Bool
unfolding cancel_entry find_active
cancel t reason s = cancel_entry (find_active t s) reason s

pub dispose_each : List TaskEntry → String → Supervisor → Supervisor
unfolding begin_teardown
dispose_each [] reason s = s
dispose_each (e ∷ rest) reason s =
    dispose_each rest reason
      (begin_teardown e (some reason) (record { status = cancelled; outcome = reason }) s)

pub mark_all : List TaskEntry → List TaskEntry
mark_all [] = []
mark_all (e ∷ rest) = record e { settling = true } ∷ mark_all rest

unfoldable pub dispose_all : String → Supervisor → Supervisor
unfolding dispose_each mark_all
dispose_all reason s = dispose_each (select (λ e. not e.settling) s.entries) reason (record s {
  disposed_reason = some (or_else s.disposed_reason reason);
  entries = mark_all s.entries;
})

abbrev is_tearing_down : Phase → Bool
is_tearing_down tearing_down = true
is_tearing_down handling = false

-- Is this the suspended continuation of task `i` in the given phase?
abbrev pub awaits : String → Bool → Continuation → Bool
awaits i tearing c =
    let same = is_tearing_down c.phase in
    str_eq (id_of c.entry) i && (if tearing then same else not same)

pub drop_first : (Continuation → Bool) → List Continuation → List Continuation
drop_first p [] = []
drop_first p (c ∷ rest) = if p c then rest else c ∷ drop_first p rest

pub resume_teardown : Option Continuation → List Continuation → Supervisor → Supervisor
unfolding complete
resume_teardown none rest s = s
resume_teardown (some c) rest s = complete c.entry c.outcome (record s { suspended = rest })

-- The host's `cancel` of task `i` returned or threw: `#teardown` swallows the failure.
unfoldable pub teardown_done : String → Supervisor → Supervisor
unfolding resume_teardown drop_first
teardown_done i s =
    resume_teardown (find (awaits i true) s.suspended) (drop_first (awaits i true) s.suspended) s

pub resume_handler :
    Option Continuation → List Continuation → Option String → Supervisor → Supervisor
unfolding remove_entry
resume_handler none rest err s = s
resume_handler (some c) rest err s =
    remove_entry c.entry c.outcome err (record s { suspended = rest })

-- The handler of task `i` returned (`none`), or threw or timed out (`some` message).
unfoldable pub handler_done : String → Option String → Supervisor → Supervisor
unfolding resume_handler drop_first
handler_done i err s =
    resume_handler (find (awaits i false) s.suspended) (drop_first (awaits i false) s.suspended) err
      s

unfoldable pub wait_for_change : ℕ → ℕ → Bool → Supervisor → Supervisor
wait_for_change since w aborted s = record s {
  wakers = wait_unless (not (s.changes == since) || aborted) w s.wakers;
}

-- Whatever reaches the registry, in the order in which it does.
pub data Action : Type 0 where
  registers : String → ℕ → BackgroundTask → Action
  settles : String → BackgroundTaskOutcome → Action
  cancels_tag : Tag → Option String → Action
  disposes : String → Action
  finishes_teardown : String → Action
  finishes_handler : String → Option String → Action
  waits : ℕ → ℕ → Bool → Action

unfoldable pub step : Supervisor → Action → Supervisor
unfolding register settle cancel dispose_all teardown_done handler_done wait_for_change
step s (registers i now task) = (register i now task s).0
step s (settles i o) = settle i o s
step s (cancels_tag t reason) = (cancel t reason s).0
step s (disposes reason) = dispose_all reason s
step s (finishes_teardown i) = teardown_done i s
step s (finishes_handler i err) = handler_done i err s
step s (waits since w aborted) = wait_for_change since w aborted s

unfoldable pub run : Supervisor → List Action → Supervisor
unfolding step
run s [] = s
run s (a ∷ rest) = run (step s a) rest
