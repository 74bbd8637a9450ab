-- ===== src/Tasks/Registration.antt =====
-- background-task-supervisor.ts, `register`, against the invariant.
use ephemeral_agent.Common.{
  ℕ, ◌≤◌, String, ◌≡◌, ap, subst, inl, inr, false, List, [], ◌∷◌, ◌++◌, arith, eq_iff, Bool-cases,
  Option-cases, is_some, one_if,
}
use ephemeral_agent.Tasks.State.{Tag, BackgroundTask, task_registered, TaskEntry, Supervisor}
use ephemeral_agent.Tasks.{same_tag, has_id, find_active, new_entry, register}
use ephemeral_agent.Tasks.Counts.{
  is_open, tagged, is_registration, is_settlement, is_any_settlement, registrations,
  length-select-last, present-map_set, find-none,
}
use ephemeral_agent.Tasks.Invariant.{Inv}

tagged-new_entry :
    (t : Tag) (i : String) (now : ℕ) (task : BackgroundTask) (es : List TaskEntry)
    → tagged t es ≤ 1
    → tagged task.tag es ≡ 0
    → tagged t (es ++ new_entry i now task ∷ []) ≤ 1
unfolding new_entry
tagged-new_entry t i now task es le z = elim (Bool-cases (same_tag t (new_entry i now task))) [
  | inl h ↦
      let same : task.tag ≡ t =
        ground (arith, eq_iff task.tag.type t.type, eq_iff task.tag.id t.id) in
      omega (
        arith,
        length-select-last (same_tag t) es (new_entry i now task),
        ap one_if h,
        subst (λ u. tagged u es ≡ 0) same z,
      )
  | inr h ↦ omega (arith, length-select-last (same_tag t) es (new_entry i now task), ap one_if h)
]

add-Inv :
    (i : String) (now : ℕ) (task : BackgroundTask) (s : Supervisor)
    → registrations i s.emitted ≡ 0
    → is_some s.disposed_reason ≡ false
    → tagged task.tag s.entries ≡ 0
    → Inv s
    → Inv (record s {
      entries = s.entries ++ new_entry i now task ∷ [];
      emitted = s.emitted ++ task_registered (new_entry i now task).row ∷ [];
    })
unfolding new_entry
add-Inv i now task s f d z v = record {
  unique = λ j. ground (
    arith,
    v.unique j,
    v.accounted j,
    length-select-last (has_id j) s.entries (new_entry i now task),
    eq_iff i j,
  );
  owned = λ j. ground (
    arith,
    v.owned j,
    length-select-last (has_id j) s.entries (new_entry i now task),
    length-select-last (is_open j) s.entries (new_entry i now task),
  );
  accounted = λ j. ground (
    arith,
    v.accounted j,
    length-select-last (has_id j) s.entries (new_entry i now task),
    length-select-last (is_registration j) s.emitted (task_registered (new_entry i now task).row),
    length-select-last (is_settlement j) s.emitted (task_registered (new_entry i now task).row),
  );
  minted_once = λ j. ground (
    arith,
    v.minted_once j,
    eq_iff i j,
    length-select-last (is_registration j) s.emitted (task_registered (new_entry i now task).row),
  );
  handled_once = λ j. ground (
    arith,
    v.handled_once j,
    length-select-last (is_open j) s.entries (new_entry i now task),
    length-select-last (is_registration j) s.emitted (task_registered (new_entry i now task).row),
  );
  tags_unique = λ t. tagged-new_entry t i now task s.entries (v.tags_unique t) z;
  counted = omega (
    arith,
    v.counted,
    length-select-last is_any_settlement s.emitted (task_registered (new_entry i now task).row),
  );
  latched = λ j e. cc;
}

pub register-Inv :
    (i : String) (now : ℕ) (task : BackgroundTask) (s : Supervisor)
    → registrations i s.emitted ≡ 0
    → Inv s
    → Inv (register i now task s).0
unfolding register
register-Inv i now task s f v = elim (Bool-cases (is_some s.disposed_reason)) [
  | inl d ↦ rw d (record {
    unique = v.unique;
    owned = v.owned;
    accounted = v.accounted;
    minted_once = v.minted_once;
    handled_once = v.handled_once;
    tags_unique = v.tags_unique;
    counted = v.counted;
    latched = v.latched;
  })
  | inr d ↦ rw d (elim (Option-cases (find_active task.tag s)) [
    | inl z ↦ rw z (
        rw (present-map_set i (new_entry i now task) s.entries (omega (arith, v.accounted i)))
          (add-Inv i now task s f d (find-none (same_tag task.tag) s.entries z) v))
    | inr (e, z) ↦ rw z v
  ])
]
