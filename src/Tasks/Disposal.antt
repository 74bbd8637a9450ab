-- ===== src/Tasks/Disposal.antt =====
-- background-task-supervisor.ts, `disposeAll`: the invariant, and a schedule of what it suspends.
use ephemeral_agent.Common.{
  ℕ, zero, suc, ◌+◌, ◌-◌, ◌≤◌, String, ◌≡◌, refl, not, none, some, List, [], ◌∷◌, ◌++◌, map, arith,
  eq_iff, if◌then◌else◌, str_eq_refl, select,
}
use ephemeral_agent.Tasks.State.{
  BackgroundTaskOutcome, Tag, TaskEntry, handling, Continuation, Supervisor,
}
use ephemeral_agent.Tasks.{
  id_of, remove_entry, complete, dispose_each, mark_all, dispose_all, is_tearing_down,
  teardown_done, handler_done,
}
use ephemeral_agent.Tasks.Counts.{present, open_count, tagged, occurrences}
use ephemeral_agent.Tasks.Invariant.{InvHolding, Inv, begin_teardown-InvHolding}

dispose_each-Inv :
    (es : List TaskEntry) (reason : String) (s : Supervisor)
    → InvHolding (map id_of es) [] s
    → Inv (dispose_each es reason s)
unfolding dispose_each
dispose_each-Inv [] reason s v = v
dispose_each-Inv (e ∷ es) reason s v =
    dispose_each-Inv es reason _ (begin_teardown-InvHolding e (some reason) _ (map id_of es) s v)

present-mark_all : (j : String) (es : List TaskEntry) → present j (mark_all es) ≡ present j es
unfolding mark_all
present-mark_all j [] = refl
present-mark_all j (e ∷ es) = ground (arith, present-mark_all j es)

tagged-mark_all : (t : Tag) (es : List TaskEntry) → tagged t (mark_all es) ≡ tagged t es
unfolding mark_all
tagged-mark_all t [] = refl
tagged-mark_all t (e ∷ es) = ground (arith, tagged-mark_all t es)

open_count-mark_all : (j : String) (es : List TaskEntry) → open_count j (mark_all es) ≡ 0
unfolding mark_all
open_count-mark_all j [] = refl
open_count-mark_all j (e ∷ es) = ground (arith, open_count-mark_all j es)

occurrences-open :
    (j : String) (es : List TaskEntry)
    → occurrences j (map id_of (select (λ e. not e.settling) es)) ≡ open_count j es
occurrences-open j [] = refl
occurrences-open j (e ∷ es) =
    ground (arith, occurrences-open j es, eq_iff j (id_of e), eq_iff (id_of e) j)

pub dispose_all-Inv : (reason : String) (s : Supervisor) → Inv s → Inv (dispose_all reason s)
unfolding dispose_all
dispose_all-Inv reason s v =
    dispose_each-Inv (select (λ e. not e.settling) s.entries) reason _ (record {
      unique = λ i. rw (present-mark_all i s.entries) (v.unique i);
      owned = λ i. omega (
        arith,
        v.owned i,
        present-mark_all i s.entries,
        open_count-mark_all i s.entries,
        occurrences-open i s.entries,
      );
      accounted = λ i. rw (present-mark_all i s.entries) (v.accounted i);
      minted_once = v.minted_once;
      handled_once = λ i.
          omega (
            arith,
            v.handled_once i,
            open_count-mark_all i s.entries,
            occurrences-open i s.entries,
          );
      tags_unique = λ t. rw (tagged-mark_all t s.entries) (v.tags_unique t);
      counted = v.counted;
      latched = λ i d. open_count-mark_all i s.entries;
    })

-- A schedule that resumes the oldest continuation until none is left; a handler that is resumed
-- returns. The fuel is the number of resumptions that the continuations can still need.
abbrev pub weight : List Continuation → ℕ
weight [] = 0
weight (c ∷ cs) = (if is_tearing_down c.phase then 2 else 1) + weight cs

unfoldable pub finish_first : List Continuation → Supervisor → Supervisor
finish_first [] s = s
finish_first (c ∷ cs) s =
    if is_tearing_down c.phase
    then teardown_done (id_of c.entry) s
    else handler_done (id_of c.entry) none s

unfoldable pub finish_all : ℕ → Supervisor → Supervisor
unfolding finish_first
finish_all zero s = s
finish_all (suc fuel) s = finish_all fuel (finish_first s.suspended s)

pub weight-append : (cs ds : List Continuation) → weight (cs ++ ds) ≡ weight cs + weight ds
weight-append [] ds = omega arith
weight-append (c ∷ cs) ds = omega (arith, weight-append cs ds)

pub complete-weight :
    (e : TaskEntry) (o : BackgroundTaskOutcome) (s : Supervisor)
    → (weight (complete e o s).suspended ≤ weight s.suspended + 1)
      × ((complete e o s).disposed_reason ≡ s.disposed_reason)
unfolding complete remove_entry
complete-weight e o s =
    ground
      (arith, weight-append s.suspended (record { entry = e; phase = handling; outcome = o } ∷ []))

pub finish_first-weight :
    (cs : List Continuation) (s : Supervisor)
    → s.suspended ≡ cs
    → (weight (finish_first cs s).suspended ≤ weight cs - 1)
      × ((finish_first cs s).disposed_reason ≡ s.disposed_reason)
unfolding finish_first teardown_done handler_done
finish_first-weight [] s h = ground arith
finish_first-weight (c ∷ cs) s h = ground (
  arith,
  complete-weight c.entry c.outcome (record s { suspended = cs }),
  str_eq_refl (id_of c.entry),
)
