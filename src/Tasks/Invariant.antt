-- ===== src/Tasks/Invariant.antt =====
-- What holds of the registry between two actions, and what the steps of a completion keep of it.
use ephemeral_agent.Common.{
  ◌+◌, ◌≤◌, String, ◌≡◌, refl, inl, inr, true, false, Option, none, some, List, [], ◌∷◌, arith,
  eq_iff, str_eq, Bool-cases, str_eq_refl, is_some, find,
}
use ephemeral_agent.Tasks
use ephemeral_agent.Tasks.State.{
  BackgroundTaskOutcome, Tag, task_settled, TaskEntry, tearing_down, handling, Supervisor,
}
use ephemeral_agent.Tasks.{
  id_of, has_id, map_delete, mark_settling, register, remove_entry, complete, begin_teardown, mark,
  settle, awaits, Action, registers, waits, step, run,
}
use ephemeral_agent.Tasks.Counts.{
  present, open_count, tagged, owns, flight, tearing, occurrences, is_registration, is_settlement,
  is_any_settlement, registrations, settlements, all_settlements, handler_calls, length-select-last,
  present-map_delete, open_count-map_delete, tagged-map_delete, present-mark_settling,
  tagged-mark_settling, open_count-mark_settling,
}

-- `fresh` and `spent` are the ids of tasks whose completion a running operation holds in its hand:
-- the handler of a fresh one has not been called, that of a spent one has.
pub record InvHolding (fresh spent : List String) (s : Supervisor) : Type 0 where
  pub unique : (i : String) → present i s.entries ≤ 1
  pub owned :
      (i : String)
      → flight i s.suspended + open_count i s.entries + occurrences i fresh + occurrences i spent
        ≡ present i s.entries
  pub accounted :
      (i : String) → registrations i s.emitted ≡ settlements i s.emitted + present i s.entries
  pub minted_once : (i : String) → registrations i s.emitted ≤ 1
  pub handled_once :
      (i : String)
      → handler_calls i s.handled
          + tearing i s.suspended
          + open_count i s.entries
          + occurrences i fresh
        ≤ registrations i s.emitted
  pub tags_unique : (t : Tag) → tagged t s.entries ≤ 1
  pub counted : s.changes ≡ all_settlements s.emitted
  pub latched : (i : String) → is_some s.disposed_reason ≡ true → open_count i s.entries ≡ 0

abbrev pub Inv : Supervisor → Type 0
Inv = InvHolding [] []

-- The minted id of a registration is new.
abbrev pub IsFresh : Action → Supervisor → Type 0
IsFresh (registers i now task) s = registrations i s.emitted ≡ 0
IsFresh _ s = Unit {0}

pub new-Inv : Inv Tasks.new
new-Inv = record {
  unique = λ i. omega arith;
  owned = λ i. omega arith;
  accounted = λ i. omega arith;
  minted_once = λ i. omega arith;
  handled_once = λ i. omega arith;
  tags_unique = λ t. omega arith;
  counted = refl;
  latched = λ i h. refl;
}

pub remove_entry-InvHolding :
    (fresh spent : List String) (e : TaskEntry) (o : BackgroundTaskOutcome) (err : Option String)
    (s : Supervisor)
    → InvHolding fresh spent s
    → ((j : String) → occurrences j fresh + occurrences j spent ≡ occurrences j (id_of e ∷ []))
    → Inv (remove_entry e o err s)
unfolding remove_entry
remove_entry-InvHolding fresh spent e o err s v h = record {
  unique = λ i. ground (arith, v.unique i, present-map_delete (id_of e) i s.entries);
  owned = λ i. ground (
    arith,
    v.owned i,
    h i,
    v.owned (id_of e),
    h (id_of e),
    v.unique (id_of e),
    present-map_delete (id_of e) i s.entries,
    open_count-map_delete (id_of e) i s.entries,
    eq_iff i (id_of e),
    eq_iff (id_of e) i,
    str_eq_refl (id_of e),
  );
  accounted = λ i. ground (
    arith,
    v.accounted i,
    v.owned i,
    h i,
    present-map_delete (id_of e) i s.entries,
    length-select-last (is_registration i) s.emitted
        (task_settled (id_of e) e.row.tag e.row.title o err),
    length-select-last (is_settlement i) s.emitted
        (task_settled (id_of e) e.row.tag e.row.title o err),
    eq_iff i (id_of e),
    eq_iff (id_of e) i,
  );
  minted_once = λ i. ground (
    arith,
    v.minted_once i,
    length-select-last (is_registration i) s.emitted
        (task_settled (id_of e) e.row.tag e.row.title o err),
  );
  handled_once = λ i. ground (
    arith,
    v.handled_once i,
    v.owned (id_of e),
    h (id_of e),
    v.unique (id_of e),
    open_count-map_delete (id_of e) i s.entries,
    str_eq_refl (id_of e),
    length-select-last (is_registration i) s.emitted
        (task_settled (id_of e) e.row.tag e.row.title o err),
  );
  tags_unique = λ t. omega (arith, v.tags_unique t, tagged-map_delete (id_of e) t s.entries);
  counted = ground (
    arith,
    v.counted,
    length-select-last is_any_settlement s.emitted
        (task_settled (id_of e) e.row.tag e.row.title o err),
  );
  latched = λ i d. ground (
    arith,
    v.latched i,
    v.owned (id_of e),
    h (id_of e),
    v.unique (id_of e),
    open_count-map_delete (id_of e) i s.entries,
    str_eq_refl (id_of e),
  );
}

-- A task in hand whose handler is due: `#complete` gives the invariant back.
pub complete-Inv :
    (e : TaskEntry) (o : BackgroundTaskOutcome) (s : Supervisor)
    → InvHolding (id_of e ∷ []) [] s
    → Inv (complete e o s)
unfolding complete
complete-Inv e o s v = elim (Bool-cases e.task.silent) [
  | inl h ↦ rw h (remove_entry-InvHolding (id_of e ∷ []) [] e o none s v (λ j. omega arith))
  | inr h ↦ rw h (record {
    unique = v.unique;
    owned = λ i. ground (
      arith,
      v.owned i,
      length-select-last (owns i) s.suspended (record { entry = e; phase = handling; outcome = o }),
      eq_iff i (id_of e),
      eq_iff (id_of e) i,
    );
    accounted = v.accounted;
    minted_once = v.minted_once;
    handled_once = λ i. ground (
      arith,
      v.handled_once i,
      length-select-last (λ (h : String × BackgroundTaskOutcome). str_eq h.0 i) s.handled
          (id_of e, o),
      length-select-last (awaits i true) s.suspended
          (record { entry = e; phase = handling; outcome = o }),
      eq_iff i (id_of e),
      eq_iff (id_of e) i,
    );
    tags_unique = v.tags_unique;
    counted = v.counted;
    latched = v.latched;
  })
]

-- Marking an open entry takes its task in hand.
pub mark-InvHolding :
    (e : TaskEntry) (s : Supervisor)
    → find (has_id (id_of e)) s.entries ≡ some e
    → e.settling ≡ false
    → Inv s
    → InvHolding (id_of e ∷ []) [] (mark e s)
unfolding mark
mark-InvHolding e s found still v = record {
  unique = λ i. rw (present-mark_settling (id_of e) i s.entries) (v.unique i);
  owned = λ i. ground (
    arith,
    v.owned i,
    present-mark_settling (id_of e) i s.entries,
    open_count-mark_settling (id_of e) i e s.entries found still,
    eq_iff i (id_of e),
    eq_iff (id_of e) i,
  );
  accounted = λ i. rw (present-mark_settling (id_of e) i s.entries) (v.accounted i);
  minted_once = v.minted_once;
  handled_once = λ i. ground (
    arith,
    v.handled_once i,
    open_count-mark_settling (id_of e) i e s.entries found still,
    eq_iff i (id_of e),
    eq_iff (id_of e) i,
  );
  tags_unique = λ t. rw (tagged-mark_settling (id_of e) t s.entries) (v.tags_unique t);
  counted = v.counted;
  latched = λ i d.
      ground (arith, v.latched i d, open_count-mark_settling (id_of e) i e s.entries found still);
}

-- Beginning a teardown hands one task in hand to a continuation.
pub begin_teardown-InvHolding :
    (e : TaskEntry) (reason : Option String) (o : BackgroundTaskOutcome) (rest : List String)
    (s : Supervisor)
    → InvHolding (id_of e ∷ rest) [] s
    → InvHolding rest [] (begin_teardown e reason o s)
unfolding begin_teardown
begin_teardown-InvHolding e reason o rest s v = record {
  unique = v.unique;
  owned = λ i. ground (
    arith,
    v.owned i,
    length-select-last (owns i) s.suspended
        (record { entry = e; phase = tearing_down; outcome = o }),
    eq_iff i (id_of e),
    eq_iff (id_of e) i,
  );
  accounted = v.accounted;
  minted_once = v.minted_once;
  handled_once = λ i. ground (
    arith,
    v.handled_once i,
    length-select-last (awaits i true) s.suspended
        (record { entry = e; phase = tearing_down; outcome = o }),
    eq_iff i (id_of e),
    eq_iff (id_of e) i,
  );
  tags_unique = v.tags_unique;
  counted = v.counted;
  latched = v.latched;
}
