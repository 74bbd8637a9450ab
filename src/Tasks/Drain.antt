-- ===== src/Tasks/Drain.antt =====
-- background-task-supervisor.ts, `disposeAll`: the registry once its completions have run.
use ephemeral_agent.Common.{
  ℕ, zero, suc, ◌≤◌, String, ◌≡◌, refl, ap, ◌∙◌, true, not, none, List, [], ◌∷◌, arith, str_eq_refl,
  is_some, if_intro, is_empty, select,
}
use ephemeral_agent.Tasks.State.{TaskEntry, Continuation, Supervisor}
use ephemeral_agent.Tasks.{
  id_of, registry_is_empty, begin_teardown, dispose_each, dispose_all, is_tearing_down,
  teardown_done, handler_done,
}
use ephemeral_agent.Tasks.Counts.{present, flight}
use ephemeral_agent.Tasks.Invariant.{Inv}
use ephemeral_agent.Tasks.Disposal.{
  dispose_all-Inv, weight, finish_first, finish_all, finish_first-weight,
}
use ephemeral_agent.Tasks.Settling.{teardown_done-Inv, handler_done-Inv}

finish_first-Inv : (cs : List Continuation) (s : Supervisor) → Inv s → Inv (finish_first cs s)
unfolding finish_first
finish_first-Inv [] s v = v
finish_first-Inv (c ∷ cs) s v =
    if_intro Inv (is_tearing_down c.phase) (teardown_done (id_of c.entry) s)
      (handler_done (id_of c.entry) none s) (λ _. teardown_done-Inv (id_of c.entry) s v)
      (λ _. handler_done-Inv (id_of c.entry) none s v)

no_weight : (cs : List Continuation) → weight cs ≡ 0 → cs ≡ []
no_weight [] h = refl
no_weight (c ∷ cs) h = ground arith

finish_all_lem :
    (fuel : ℕ) (s : Supervisor)
    → weight s.suspended ≤ fuel
    → Inv s
    → Inv (finish_all fuel s)
      × ((finish_all fuel s).suspended ≡ [])
      × ((finish_all fuel s).disposed_reason ≡ s.disposed_reason)
unfolding finish_all
finish_all_lem zero s h v = (v, no_weight s.suspended (omega (arith, h)), refl)
finish_all_lem (suc fuel) s h v =
    let step = finish_first-weight s.suspended s refl in
    let rest =
      finish_all_lem fuel (finish_first s.suspended s) (omega (arith, step.0, h))
        (finish_first-Inv s.suspended s v) in
    (rest.0, rest.1, rest.2 ∙ step.1)

no_entries : (es : List TaskEntry) → ((i : String) → present i es ≡ 0) → es ≡ []
no_entries [] h = refl
no_entries (e ∷ es) h = ground (arith, h (id_of e), str_eq_refl (id_of e))

-- A registry that satisfies the invariant, is disposed and has nothing suspended is empty.
disposed_is_empty :
    (s : Supervisor)
    → Inv s
    → is_some s.disposed_reason ≡ true
    → s.suspended ≡ []
    → registry_is_empty s ≡ true
unfolding registry_is_empty
disposed_is_empty s v d n = ap is_empty (
    no_entries s.entries (λ i.
      omega (arith, v.owned i, v.latched i d, ap (λ (cs : List Continuation). flight i cs) n)))

dispose_each_reason :
    (es : List TaskEntry) (reason : String) (s : Supervisor)
    → (dispose_each es reason s).disposed_reason ≡ s.disposed_reason
unfolding dispose_each
dispose_each_reason [] reason s = refl
dispose_each_reason (e ∷ es) reason s =
    dispose_each_reason es reason _ ∙ (unfold begin_teardown in refl)

pub dispose_all_latches :
    (reason : String) (s : Supervisor) → is_some (dispose_all reason s).disposed_reason ≡ true
unfolding dispose_all
dispose_all_latches reason s =
    ap is_some (dispose_each_reason (select (λ e. not e.settling) s.entries) reason _)

-- Disposal of a registry that satisfies the invariant reaches every task: once the suspended
-- teardowns and handlers have run, the oldest first, with as many resumptions as their weight,
-- the registry is empty.
pub disposed_drains :
    (reason : String) (s : Supervisor)
    → Inv s
    → let t = dispose_all reason s in registry_is_empty (finish_all (weight t.suspended) t) ≡ true
disposed_drains reason s v =
    let t = dispose_all reason s in
    let done = finish_all_lem (weight t.suspended) t (omega arith) (dispose_all-Inv reason s v) in
    disposed_is_empty _ done.0 (ap is_some done.2 ∙ dispose_all_latches reason s) done.1
