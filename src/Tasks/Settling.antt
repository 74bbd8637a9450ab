-- ===== src/Tasks/Settling.antt =====
-- background-task-supervisor.ts, `#settle`, `cancel` and what resumes them, against the invariant.
use ephemeral_agent.Common.{
  ◌≤◌, String, ◌≡◌, refl, sym, subst, Bool, true, false, Option, none, some, List, [], ◌∷◌, arith,
  eq_iff, str_eq_refl, if_intro, find,
}
use ephemeral_agent.Tasks.State.{BackgroundTaskOutcome, Tag, TaskEntry, Continuation, Supervisor}
use ephemeral_agent.Tasks.{
  id_of, same_tag, has_id, complete, begin_teardown, mark, settle_entry, settle, cancelled_outcome,
  cancel_entry, cancel, awaits, drop_first, resume_teardown, teardown_done, resume_handler,
  handler_done,
}
use ephemeral_agent.Tasks.Counts.{present, flight-drop_first, tearing-drop_first, find-holds}
use ephemeral_agent.Tasks.Invariant.{
  Inv, remove_entry-InvHolding, complete-Inv, mark-InvHolding, begin_teardown-InvHolding,
}

settle_entry-Inv :
    (i : String) (r : Option TaskEntry) (o : BackgroundTaskOutcome) (s : Supervisor)
    → find (has_id i) s.entries ≡ r
    → Inv s
    → Inv (settle_entry r o s)
unfolding settle_entry
settle_entry-Inv i none o s h v = v
settle_entry-Inv i (some e) o s h v =
    if_intro Inv e.settling s (complete e o (mark e s)) (λ _. v)
      (λ b.
        complete-Inv e o (mark e s)
          (mark-InvHolding e s (subst (λ k. find (has_id k) s.entries ≡ some e) (sym same) h) b v))
  where
    same : id_of e ≡ i
    same = (eq_iff (id_of e) i).0 (find-holds (has_id i) s.entries e h)

pub settle-Inv :
    (i : String) (o : BackgroundTaskOutcome) (s : Supervisor) → Inv s → Inv (settle i o s)
unfolding settle
settle-Inv i o s v = settle_entry-Inv i (find (has_id i) s.entries) o s refl v

pub present-find :
    (p : TaskEntry → Bool) (es : List TaskEntry) (e : TaskEntry)
    → find p es ≡ some e
    → 1 ≤ present (id_of e) es
present-find p [] e h = cc
present-find p (f ∷ es) e h = ground (arith, present-find p es e, str_eq_refl (id_of e))

-- With unique ids, an entry found by another test is the one found by its id.
pub find-by_id :
    (p : TaskEntry → Bool) (es : List TaskEntry) (e : TaskEntry)
    → find p es ≡ some e
    → present (id_of e) es ≤ 1
    → find (has_id (id_of e)) es ≡ some e
find-by_id p [] e h u = cc
find-by_id p (f ∷ es) e h u =
    ground (arith, find-by_id p es e, present-find p es e, str_eq_refl (id_of e))

cancel_entry-Inv :
    (t : Tag) (r : Option TaskEntry) (reason : Option String) (s : Supervisor)
    → find (same_tag t) s.entries ≡ r
    → Inv s
    → Inv (cancel_entry r reason s).0
unfolding cancel_entry
cancel_entry-Inv t none reason s h v = v
cancel_entry-Inv t (some e) reason s h v =
    if_intro (λ (r : Supervisor × Bool). Inv r.0) e.settling (s, false)
      (begin_teardown e reason (cancelled_outcome reason) (mark e s), true) (λ _. v)
      (λ b.
        begin_teardown-InvHolding e reason _ [] (mark e s)
          (mark-InvHolding e s (find-by_id (same_tag t) s.entries e h (v.unique (id_of e))) b v))

pub cancel-Inv :
    (t : Tag) (reason : Option String) (s : Supervisor) → Inv s → Inv (cancel t reason s).0
unfolding cancel
cancel-Inv t reason s v = cancel_entry-Inv t (find (same_tag t) s.entries) reason s refl v

resume_teardown-Inv :
    (i : String) (r : Option Continuation) (s : Supervisor)
    → find (awaits i true) s.suspended ≡ r
    → Inv s
    → Inv (resume_teardown r (drop_first (awaits i true) s.suspended) s)
unfolding resume_teardown
resume_teardown-Inv i none s h v = v
resume_teardown-Inv i (some c) s h v = complete-Inv c.entry c.outcome _ (record {
  unique = v.unique;
  owned = λ j. ground (
    arith,
    v.owned j,
    flight-drop_first (awaits i true) c j s.suspended h,
    eq_iff j (id_of c.entry),
    eq_iff (id_of c.entry) j,
  );
  accounted = v.accounted;
  minted_once = v.minted_once;
  handled_once = λ j. ground (
    arith,
    v.handled_once j,
    tearing-drop_first (awaits i true) c j s.suspended h,
    find-holds (awaits i true) s.suspended c h,
    eq_iff j (id_of c.entry),
    eq_iff (id_of c.entry) j,
  );
  tags_unique = v.tags_unique;
  counted = v.counted;
  latched = v.latched;
})

pub teardown_done-Inv : (i : String) (s : Supervisor) → Inv s → Inv (teardown_done i s)
unfolding teardown_done
teardown_done-Inv i s v = resume_teardown-Inv i (find (awaits i true) s.suspended) s refl v

resume_handler-Inv :
    (i : String) (r : Option Continuation) (err : Option String) (s : Supervisor)
    → find (awaits i false) s.suspended ≡ r
    → Inv s
    → Inv (resume_handler r (drop_first (awaits i false) s.suspended) err s)
unfolding resume_handler
resume_handler-Inv i none err s h v = v
resume_handler-Inv i (some c) err s h v =
    remove_entry-InvHolding [] (id_of c.entry ∷ []) c.entry c.outcome err _
      (record {
        unique = v.unique;
        owned = λ j. ground (
          arith,
          v.owned j,
          flight-drop_first (awaits i false) c j s.suspended h,
          eq_iff j (id_of c.entry),
          eq_iff (id_of c.entry) j,
        );
        accounted = v.accounted;
        minted_once = v.minted_once;
        handled_once = λ j.
            omega (arith, v.handled_once j, tearing-drop_first (awaits i false) c j s.suspended h);
        tags_unique = v.tags_unique;
        counted = v.counted;
        latched = v.latched;
      })
      (λ j. omega arith)

pub handler_done-Inv :
    (i : String) (err : Option String) (s : Supervisor) → Inv s → Inv (handler_done i err s)
unfolding handler_done
handler_done-Inv i err s v = resume_handler-Inv i (find (awaits i false) s.suspended) err s refl v
