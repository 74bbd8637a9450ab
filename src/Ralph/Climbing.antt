-- ===== src/Ralph/Climbing.antt =====
-- ralph_loop/workflow.mjs: every round of the loop, as a step on the ladder.
use ephemeral_agent.Common.{◌≡◌, refl, inl, inr, false, arith, if_intro}
use ephemeral_agent.Contracts.{JsonValue}
use ephemeral_agent.Workflow.{RuntimeSnapshot}
use ephemeral_agent.Ralph.{planner, reviewer, critic, Host, State, with_transition}
use ephemeral_agent.Ralph.Settlement.{apply_completed}
use ephemeral_agent.Ralph.Evaluation.{
  advance, succeed, judge_planner, judge_reviewer, judge_critic, judge, evaluate_workflow_progress,
}
use ephemeral_agent.Ralph.Ladder.{Ladder, climbing, climb, ladder_of, Slots, IsOpen, Arrives}
use ephemeral_agent.Ralph.Rounds.{rejected-Arrives, fork-Arrives, judged-Arrives}

pub ladder_going :
    (s : State) → s.is_workflow_done ≡ false → ladder_of s ≡ climbing s.own.attempt s.own.phase
unfolding ladder_of
ladder_going s h =
    if_intro (λ (l : Ladder). l ≡ climbing s.own.attempt s.own.phase) s.is_workflow_done _ _
      (λ g. absurd (ground (arith, h))) (λ _. refl)

module _ (host : Host) where
  pub planned-Arrives :
      (after : RuntimeSnapshot) (payload : JsonValue) (s : State)
      → IsOpen s
      → s.own.phase ≡ planner
      → Slots planner s.own
      → Arrives s.own.max_attempts
          (climb s.own.max_attempts
            (host.parse_planner payload).pass
            (climbing s.own.attempt planner))
          (evaluate_workflow_progress host
            (apply_completed host planner payload s).state
            after).state
  unfolding apply_completed with_transition judge judge_planner advance climb
  planned-Arrives after payload s v q slots =
      let t = (apply_completed host planner payload s).state in
      judged-Arrives host after planner t _ _ v.going refl q refl refl (
        fork-Arrives host s.own.max_attempts (climbing s.own.attempt planner)
          (host.parse_planner payload).pass _ _
          (λ _. rejected-Arrives host _ t v.going v.status v.started v.within v.reasons)
          (λ pass. (
            ladder_going _ v.going,
            refl,
            inl (record {
              going = v.going;
              status = v.status;
              phase = refl;
              slots = (host.parse_planner payload, refl, pass, slots.1, slots.2);
              started = v.started;
              within = v.within;
              reasons = v.reasons;
            }),
          )))

  pub reviewed-Arrives :
      (after : RuntimeSnapshot) (payload : JsonValue) (s : State)
      → IsOpen s
      → s.own.phase ≡ reviewer
      → Slots reviewer s.own
      → Arrives s.own.max_attempts
          (climb s.own.max_attempts
            (host.parse_reviewer payload).pass
            (climbing s.own.attempt reviewer))
          (evaluate_workflow_progress host
            (apply_completed host reviewer payload s).state
            after).state
  unfolding apply_completed with_transition judge judge_reviewer advance climb
  reviewed-Arrives after payload s v q slots =
      let t = (apply_completed host reviewer payload s).state in
      judged-Arrives host after reviewer t _ _ v.going refl q refl refl (
        fork-Arrives host s.own.max_attempts (climbing s.own.attempt reviewer)
          (host.parse_reviewer payload).pass _ _
          (λ _. rejected-Arrives host _ t v.going v.status v.started v.within v.reasons)
          (λ pass. (
            ladder_going _ v.going,
            refl,
            inl (record {
              going = v.going;
              status = v.status;
              phase = refl;
              slots =
                  let (p, h, hp, _, none_left) = slots in
                  (p, host.parse_reviewer payload, h, hp, refl, pass, none_left);
              started = v.started;
              within = v.within;
              reasons = v.reasons;
            }),
          )))

  pub criticised-Arrives :
      (after : RuntimeSnapshot) (payload : JsonValue) (s : State)
      → IsOpen s
      → s.own.phase ≡ critic
      → Slots critic s.own
      → Arrives s.own.max_attempts
          (climb s.own.max_attempts
            (host.parse_critic payload).pass
            (climbing s.own.attempt critic))
          (evaluate_workflow_progress host
            (apply_completed host critic payload s).state
            after).state
  unfolding apply_completed with_transition judge judge_critic succeed climb ladder_of
  criticised-Arrives after payload s v q slots =
      let t = (apply_completed host critic payload s).state in
      judged-Arrives host after critic t _ _ v.going refl q refl refl (
        fork-Arrives host s.own.max_attempts (climbing s.own.attempt critic)
          (host.parse_critic payload).pass _ _
          (λ _. rejected-Arrives host _ t v.going v.status v.started v.within v.reasons)
          (λ pass.
            let (p, r, h, hp, g, gr, _) = slots in
            (
              refl,
              refl,
              inr (
                  inl (record {
                    stopped = refl;
                    status = refl;
                    phase = refl;
                    slots = (p, r, host.parse_critic payload, h, hp, g, gr, refl, pass);
                    within = v.within;
                    reasons = v.reasons;
                  })),
            )))
