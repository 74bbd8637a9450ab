-- ===== src/Tasks/Examples.antt =====
-- The registry's theorems on runs of two tasks.
use ephemeral_agent.Common.{
  ◌+◌, ◌≤◌, String, ◌≡◌, refl, ◌↔◌, true, false, none, some, List, [], ◌∷◌, arith,
}
use ephemeral_agent.Waiters.{contains}
use ephemeral_agent.Tasks
use ephemeral_agent.Tasks.State.{
  success, BackgroundTaskOutcome, Tag, BackgroundTask, TaskEntry, Supervisor,
}
use ephemeral_agent.Tasks.{
  find_active, register, registry_is_empty, complete, settle, cancel, dispose_all, handler_done,
  wait_for_change, Action, registers, settles, cancels_tag, disposes, finishes_teardown,
  finishes_handler, step, run,
}
use ephemeral_agent.Tasks.Counts.{
  present, registrations, settlements, all_settlements, handler_calls,
}
use ephemeral_agent.Tasks.Invariant.{Inv, new-Inv}
use ephemeral_agent.Tasks.Disposal.{weight, finish_all}
use ephemeral_agent.Tasks.Runs.{step-Inv, AreFresh, run-Inv, run_once}
use ephemeral_agent.Tasks.Drain.{disposed_drains}
use ephemeral_agent.Tasks.Races.{cancel_verdict, settle-cancel, removal_wakes}

abbrev tag_of : String → Tag
tag_of i = record { type = "shell"; id = i }

abbrev task_of : String → BackgroundTask
task_of i = record { tag = tag_of i; title = "build"; silent = false }

abbrev two_tasks : List Action
two_tasks = registers "a" 1 (task_of "1") ∷ registers "b" 2 (task_of "2") ∷ []

abbrev done_task : BackgroundTaskOutcome
done_task = record { status = success; outcome = "ok" }

-- One task is cancelled while it runs and then resolves all the same; the other completes.
abbrev busy : List Action
busy =
    registers "a" 1 (task_of "1")
    ∷ registers "b" 2 (task_of "2")
    ∷ cancels_tag (tag_of "1") none
    ∷ settles "a" done_task
    ∷ finishes_teardown "a"
    ∷ finishes_handler "a" none
    ∷ settles "b" done_task
    ∷ finishes_handler "b" (some "timeout")
    ∷ []

abbrev running : Supervisor
running = run Tasks.new two_tasks

two_tasks-AreFresh : AreFresh Tasks.new two_tasks
unfolding run
two_tasks-AreFresh = (refl, (refl, tt))

running-Inv : Inv running
running-Inv = run-Inv Tasks.new two_tasks two_tasks-AreFresh new-Inv

run_once_example :
    let s = run Tasks.new busy in
    (registrations "b" s.emitted ≤ 1)
    × (handler_calls "b" s.handled ≤ registrations "b" s.emitted)
    × (registrations "b" s.emitted ≡ settlements "b" s.emitted + present "b" s.entries)
    × (s.changes ≡ all_settlements s.emitted)
unfolding run
run_once_example = run_once busy "b" (refl, (refl, (tt, (tt, (tt, (tt, (tt, (tt, tt))))))))

step-Inv_example : Inv (step running (disposes "run finished"))
step-Inv_example = step-Inv running (disposes "run finished") tt running-Inv

disposed_drains_example :
    let t = dispose_all "run finished" running in
    registry_is_empty (finish_all (weight t.suspended) t) ≡ true
disposed_drains_example = disposed_drains "run finished" running running-Inv

-- Both tasks torn down and handled.
abbrev teardowns : List Action
teardowns =
    disposes "run finished"
    ∷ finishes_teardown "b"
    ∷ finishes_teardown "a"
    ∷ finishes_handler "a" none
    ∷ finishes_handler "b" none
    ∷ []

abbrev drained : Supervisor
drained = run running teardowns

drained-Inv : Inv drained
drained-Inv = run-Inv running teardowns (tt, (tt, (tt, (tt, (tt, tt))))) running-Inv

abbrev first : TaskEntry
first = record {
  task = task_of "1";
  row = record { task_id = "a"; tag = tag_of "1"; title = "build"; started_at = 1 };
  settling = false;
}

cancel_verdict_example :
    ((cancel (tag_of "2") none running).1 ≡ true)
    ↔ ((e : TaskEntry) × (find_active (tag_of "2") running ≡ some e) × (e.settling ≡ false))
cancel_verdict_example = cancel_verdict (tag_of "2") none running

abbrev handling_first : Supervisor
handling_first = settle "a" done_task running

-- A silent task, whose settlement removes it at once.
abbrev quiet : Supervisor
quiet = (register "q" 1 (record (task_of "1") { silent = true }) Tasks.new).0

removal_wakes_example :
    (contains 5
        (step (wait_for_change quiet.changes 5 false quiet) (settles "q" done_task)).wakers.resolved
      ≡ true)
    × (contains 5
          (wait_for_change quiet.changes 5 false
            (step quiet (settles "q" done_task))).wakers.resolved
        ≡ true)
removal_wakes_example =
    removal_wakes (settles "q" done_task) 5 false quiet (unfold register step settle in omega arith)

settle-cancel_example :
    settle "a" done_task (cancel (tag_of "1") none running).0 ≡ (cancel (tag_of "1") none running).0
unfolding run register cancel
settle-cancel_example =
    settle-cancel (tag_of "1") none done_task first running running-Inv refl refl
