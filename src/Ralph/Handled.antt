-- ===== src/Ralph/Handled.antt =====
-- ralph_loop/workflow.mjs run by the workflow runtime: one settlement and one launch.
use ephemeral_agent.Workflow.Actions.{with_handle, thread, put_thread}
use ephemeral_agent.Ralph.Climbing.{ladder_going}
use ephemeral_agent.Ralph.Single.{Sound, Quiet, Lone, RunInv, Ready, finish_or_dispatch-Ready}
use ephemeral_agent.Ralph.Runs.{ralph_loop}
use ephemeral_agent.Ralph.Rises.{height, height-climb, round-Climbs}
use ephemeral_agent.Ralph.Ladder.{climbing, climb, ladder_of, IsOpen, RalphInv, passes, round}
use ephemeral_agent.Ralph.Evaluation.{evaluate_workflow_progress}
use ephemeral_agent.Ralph.Settlement.{apply_node_settlement}
use ephemeral_agent.Ralph.{Host, RalphState}
use ephemeral_agent.Workflow.Fields.{
  running_count, running_count-last, running_count-set, running_count-with_handle,
  apply_transition_lem,
}
use ephemeral_agent.Workflow.Run.{
  Thread, start_thread, queue_thread, applied, apply_validated_settlement,
}
use ephemeral_agent.Workflow.State.{
  WorkflowNodeRunEntry, Launching, RunInstance, is_running, runtime_snapshot, emit, record_snapshot,
  apply_transition, claim_dispatch, put_entry, launch_next,
}
use ephemeral_agent.Common.{
  ℕ, ◌+◌, ◌*◌, ◌≤◌, ◌≡◌, sym, ap, subst, ◌∙◌, inl, inr, true, false, Option, none, some, List, [],
  ◌∷◌, arith, Bool-cases, or_else, length, get_elem?, set, length-append, length-set,
}
use ephemeral_agent.Nodes.{WorkflowNodeSettlement, WorkflowNodeDispatch}

module _ (host : Host) (m : ℕ) where
  -- A settlement of the one node that ran.
  settled-Ready :
      (n : WorkflowNodeSettlement) (t : RunInstance RalphState)
      → Sound m 1 t
      → running_count t.nodes ≡ 0
      → Lone t
      → t.finished ≡ false
      → Ready m (apply_validated_settlement (ralph_loop host) n t)
  unfolding apply_validated_settlement applied record_snapshot emit ralph_loop round
  settled-Ready n t v idle lone live =
      let rt = runtime_snapshot t in
      let first = apply_transition (apply_node_settlement host t.state n rt) t in
      let (st, nodes, a, q, f) = apply_transition_lem (apply_node_settlement host t.state n rt) t in
      let rt' = runtime_snapshot first in
      let judged = evaluate_workflow_progress host first.state rt' in
      let (st', nodes', a', q', f') = apply_transition_lem judged first in
      let same_state : (apply_transition judged first).state ≡ round host rt rt' n t.state =
        st' ∙ ap (λ s. (evaluate_workflow_progress host s rt').state) st in
      let (at, same, sound) = round-Climbs host rt rt' n t.state v.state_open in
      let all_nodes : (apply_transition judged first).nodes ≡ t.nodes = nodes' ∙ nodes in
      let passed = passes host t.state.own.phase n in
      let here = climbing t.state.own.attempt t.state.own.phase in
      let last = apply_transition judged first in
      let fewer : length last.nodes + height m (ladder_of last.state) ≤ 3 * m = omega (
        arith,
        v.left,
        ap length all_nodes,
        ap (λ s. height m (ladder_of s)) same_state,
        ap (height m) at,
        ap (λ k. height m (climb k passed here)) v.limit,
        height-climb m t.state.own.attempt passed t.state.own.phase v.state_open.phase,
        ap (height m) (ladder_going t.state v.state_open.going),
      ) in
      finish_or_dispatch-Ready host m (applied (ralph_loop host) n t) (record {
        idle = ap running_count all_nodes ∙ idle;
        limit = ap (λ s. s.own.max_attempts) same_state ∙ same ∙ v.limit;
        left = fewer;
        sound = subst RalphInv (sym same_state) sound;
        unfinished = f' ∙ f ∙ live;
        lone = (subst Quiet (sym (a' ∙ a)) lone.0, subst Quiet (sym (q' ∙ q)) lone.1);
      })

  pub put_thread-RunInv :
      (t : Thread) (s : RunInstance RalphState) (o : Option Launching)
      → RunInv m s
      → Quiet o
      → RunInv m (put_thread t (s, o))
  unfolding put_thread
  put_thread-RunInv start_thread s o v h = record {
    one = v.one;
    few = v.few;
    quiet = v.quiet;
    going = λ f.
        let g = v.going f in record { state_open = g.state_open; limit = g.limit; left = g.left };
    lone = (h, v.lone.1);
  }
  put_thread-RunInv queue_thread s o v h = record {
    one = v.one;
    few = v.few;
    quiet = v.quiet;
    going = λ f.
        let g = v.going f in record { state_open = g.state_open; limit = g.limit; left = g.left };
    lone = (v.lone.0, h);
  }

  pub none-Quiet : Quiet none
  none-Quiet l h = cc

  pub launch-RunInv :
      (t : Thread) (s : RunInstance RalphState) (ds : List WorkflowNodeDispatch)
      → Ready m (s, ds)
      → RunInv m (put_thread t (launch_next ds s))
  unfolding launch_next claim_dispatch
  launch-RunInv t s [] v =
      put_thread-RunInv t s none
        (record {
          one = omega (arith, v.idle);
          few = omega (arith, v.few);
          quiet = λ f. v.idle;
          going = λ f. absurd (omega (arith, (v.going f).1));
          lone = v.lone;
        })
        none-Quiet
  launch-RunInv t s (d ∷ []) v =
      let claimed : RunInstance RalphState = claim_dispatch d s in
      let one_more : running_count claimed.nodes ≡ 1 =
        omega (arith, running_count-last s.nodes _, v.idle) in
      let longer : length claimed.nodes ≡ length s.nodes + 1 =
        omega (arith, length-append s.nodes (_ ∷ [])) in
      put_thread-RunInv t claimed (some (record { entry = length s.nodes; rest = [] }))
        (record {
          one = omega (arith, one_more);
          few = omega (arith, v.few, longer);
          quiet = λ f. absurd (omega (arith, v.stopped f));
          going = λ f.
              let g = (v.going f).0 in
              record {
                state_open = g.state_open;
                limit = g.limit;
                left = omega (arith, g.left, one_more, longer);
              };
          lone = v.lone;
        })
        (λ l h.
          ap (λ (o : Option Launching). (or_else o (record { entry = 0; rest = [] })).rest) (sym h))
  launch-RunInv t s (d ∷ e ∷ ds) v = absurd (omega (arith, v.single))

  -- The one node that runs settles.
  pub handled-Ready :
      (n : WorkflowNodeSettlement) (i : ℕ) (e e' : WorkflowNodeRunEntry)
      (s t : RunInstance RalphState)
      → RunInv m s
      → get_elem? s.nodes i ≡ some e
      → is_running e.status ≡ true
      → is_running e'.status ≡ false
      → t.nodes ≡ set s.nodes i e'
      → t.state ≡ s.state
      → t.finished ≡ s.finished
      → Lone t
      → Ready m (apply_validated_settlement (ralph_loop host) n t)
  handled-Ready n i e e' s t v g r r' nodes state fin lone =
      let fewer = running_count-set s.nodes i e e' g r r' in
      let live : s.finished ≡ false = elim (Bool-cases s.finished) [
        | inl f ↦ absurd (omega (arith, v.quiet f, fewer))
        | inr f ↦ f
      ] in
      let sound = v.going live in
      settled-Ready n t
        (record {
          state_open = subst IsOpen (sym state) sound.state_open;
          limit = ap (λ x. x.own.max_attempts) state ∙ sound.limit;
          left = omega (
            arith,
            sound.left,
            v.one,
            ap length nodes,
            length-set s.nodes i e',
            ap (λ x. height m (ladder_of x)) state,
          );
        })
        (omega (arith, ap running_count nodes, fewer, v.one)) lone (fin ∙ live)

  pub with_handle-RunInv :
      (i : ℕ) (e : WorkflowNodeRunEntry) (s : RunInstance RalphState)
      → get_elem? s.nodes i ≡ some e
      → RunInv m s
      → RunInv m (put_entry i (with_handle e) s)
  unfolding put_entry
  with_handle-RunInv i e s g v =
      let count = running_count-with_handle s.nodes i e g in
      let size = length-set s.nodes i (with_handle e) in
      record {
        one = omega (arith, v.one, count);
        few = omega (arith, v.few, size);
        quiet = λ f. omega (arith, v.quiet f, count);
        going = λ f.
            let x = v.going f in
            record {
              state_open = x.state_open;
              limit = x.limit;
              left = omega (arith, x.left, count, size);
            };
        lone = v.lone;
      }

  pub thread-Quiet :
      (t : Thread) (s : RunInstance RalphState) (l : Launching)
      → Lone s
      → thread t s ≡ some l
      → l.rest ≡ []
  unfolding thread
  thread-Quiet start_thread s l v h = v.0 l h
  thread-Quiet queue_thread s l v h = v.1 l h
