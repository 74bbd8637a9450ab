-- ===== src/Loop/Outcomes.antt =====
-- Whole passes and whole runs of the loop: the invariant, the exits and the turn budget.
use ephemeral_agent.Common.{
  ℕ, ◌+◌, ◌≤◌, String, ◌≡◌, refl, sym, subst, true, false, ◌&&◌, Option, none, some, List, [], ◌∷◌,
  map, arith, leb, if_intro, All,
}
use ephemeral_agent.Contracts.{JsonValue, Message, tool_uses}
use ephemeral_agent.Events.{completed}
use ephemeral_agent.Handle.{drain_steers, has_pending_steers}
use ephemeral_agent.Handle.Soundness.{act-HandleInv}
use ephemeral_agent.Handle.Lifecycle.{drains, act}
use ephemeral_agent.Inbox.{drain, inbox_is_empty}
use ephemeral_agent.Inbox.Laws.{drain_lem}
use ephemeral_agent.Inbox.Render.{system_notification_message}
use ephemeral_agent.Tasks.{registry_is_empty}
use ephemeral_agent.Conversation.{
  notification, Conversation, append_assistant, append_users, append_users_llm,
}
use ephemeral_agent.Conversation.{steer as steer_origin}
use ephemeral_agent.Run.{Run}
use ephemeral_agent.Turn.{CompletedTurn, TurnResult, turn_completed, turn_threw}
use ephemeral_agent.Loop.State.{LoopContext, Round, LoopState}
use ephemeral_agent.Loop.{
  exits, drain_boundary, outcome_of, with_run, commit_turn, settle_turn, provider_phase, rest_phase,
  run_pass,
}
use ephemeral_agent.Loop.Live.{
  IsUser, IsLive, perform_all-IsLive, perform_all-llm, Keeps, run_assistant_turn-Keeps,
}
use ephemeral_agent.Loop.History.{IsAnswered, IsAnswered-append_users}
use ephemeral_agent.Loop.Passes.{LoopInv, PassOk, classify-ExitOk, after_turn-PassOk}

notes-users :
    (stringify : JsonValue → String) (notes : List String)
    → All IsUser (map (system_notification_message stringify) notes)
notes-users stringify [] = tt
notes-users stringify (m ∷ notes) =
    (unfold system_notification_message in refl, notes-users stringify notes)

module _ {T : Type 0} where
  -- Both queues are empty after the drains.
  abbrev IsDrained : Run T → Type 0
  IsDrained r = (has_pending_steers r.handle ≡ false) × (inbox_is_empty r.inbox ≡ true)

  drain_boundary_lem :
      (stringify : JsonValue → String) (r : Run T)
      → IsLive r.handle
      → IsAnswered r.conversation.llm
      → let q = (drain_boundary stringify r).0 in
        IsLive q.handle × IsAnswered q.conversation.llm × IsDrained q
  unfolding drain_boundary
  drain_boundary_lem stringify r l a = (
    unfold drain_steers in
        record {
          sound = unfold act in act-HandleInv r.handle drains l.sound;
          unfinished = l.unfinished;
          users = tt;
        },
    subst IsAnswered
        (sym
          (append_users_llm notes notification (append_users steers steer_origin r.conversation)))
        (IsAnswered-append_users _ notes
          (subst IsAnswered (sym (append_users_llm steers steer_origin r.conversation))
            (IsAnswered-append_users r.conversation.llm steers a (unfold drain_steers in l.users)))
          (notes-users stringify (drain r.inbox).1)),
    ((unfold drain_steers has_pending_steers in refl), (drain_lem r.inbox).1),
  )
    where
      steers : List Message
      steers = (drain_steers r.handle).1

      notes : List Message
      notes = map (system_notification_message stringify) (drain r.inbox).1

  commit_turn-PassOk :
      (c : LoopContext T) (r : Round T) (t : CompletedTurn) (n : ℕ) (s : LoopState T)
      → IsLive s.run.handle
      → s.turns + 1 ≤ c.max_turns
      → s.turns ≡ n
      → IsAnswered s.run.conversation.llm
      → PassOk c n (commit_turn c r t s)
  unfolding commit_turn append_assistant
  commit_turn-PassOk c r t n s l w e a =
      after_turn-PassOk c r t.message (tool_uses t.message) s.run.conversation.llm n _ refl l w
        (omega (arith, e)) refl a

  settle_turn-PassOk :
      (c : LoopContext T) (r : Round T) (p : Run T × TurnResult) (n : ℕ) (s : LoopState T)
      → Keeps s.run p.0
      → s.turns + 1 ≤ c.max_turns
      → s.turns ≡ n
      → IsAnswered s.run.conversation.llm
      → PassOk c n (settle_turn c r p s)
  unfolding settle_turn with_run
  settle_turn-PassOk c r (run', turn_threw f) n s k w e a =
      classify-ExitOk c f _ k.0 (omega (arith, w))
  settle_turn-PassOk c r (run', turn_completed t) n s k w e a =
      commit_turn-PassOk c r t n (record s { run = run' }) k.0 w e (subst IsAnswered (sym k.1) a)

  provider_phase-PassOk :
      (c : LoopContext T) (r : Round T) (n : ℕ) (s : LoopState T)
      → LoopInv c s
      → s.turns ≡ n
      → PassOk c n (provider_phase c r s)
  unfolding provider_phase
  provider_phase-PassOk c r n s v e =
      if_intro (PassOk c n) (leb c.max_turns s.turns) _ _
        (λ _. record { live = v.live; within = v.within; gated = λ x d. cc; aborted = λ k. cc })
        (λ b.
          settle_turn-PassOk c r _ n _
            (run_assistant_turn-Keeps r.stream (s.turns + 1) s.run v.live) (ground arith) e
            v.answered)

  rest_phase-PassOk :
      (c : LoopContext T) (r : Round T) (n : ℕ) (s : LoopState T)
      → LoopInv c s
      → s.turns ≡ n
      → IsDrained s.run
      → PassOk c n (rest_phase c r s)
  unfolding rest_phase
  rest_phase-PassOk c r n s v e d =
      if_intro (PassOk c n) (registry_is_empty s.run.tasks) _ _
        (λ z. go (outcome_of c.mode s.pending_text) z)
        (λ _.
          unfold with_run in
          (
            record {
              live = perform_all-IsLive r.wake s.run v.live;
              answered =
                  subst (λ (k : Conversation). IsAnswered k.llm)
                    (sym (perform_all-llm r.wake s.run)) v.answered;
              within = v.within;
            },
            e,
          ))
    where
      go :
          (o : Option T)
          → registry_is_empty s.run.tasks ≡ true
          → PassOk c n (elim o [ some x ↦ exits s (completed x) | none ↦ provider_phase c r s ])
      go (some x) z = record {
        live = v.live;
        within = v.within;
        gated = λ y k. rw (d.0, z, d.1);
        aborted = λ k. cc;
      }
      go none z = provider_phase-PassOk c r n s v e

  -- One pass from a sound state.
  pub run_pass-PassOk :
      (c : LoopContext T) (r : Round T) (s : LoopState T)
      → LoopInv c s
      → PassOk c s.turns (run_pass c r s)
  unfolding run_pass
  run_pass-PassOk c r s v =
      let (live, answered, drained) = drain_boundary_lem c.stringify s.run v.live v.answered in
      let v' : LoopInv c (with_run s (drain_boundary c.stringify s.run).0) =
        unfold with_run in record { live = live; answered = answered; within = v.within } in
      if_intro (PassOk c s.turns) s.run.handle.aborted _ _
        (λ a. record { live = v.live; within = v.within; gated = λ x d. cc; aborted = λ k. a })
        (λ _.
          if_intro (PassOk c s.turns) (s.at_rest && (drain_boundary c.stringify s.run).1) _ _
            (λ _.
              rest_phase-PassOk c r s.turns _ v' (unfold with_run in refl)
                (unfold with_run in drained))
            (λ _. provider_phase-PassOk c r s.turns _ v' (unfold with_run in refl)))
