-- ===== src/Handle/Steering.antt =====
-- run-handle.ts, `steer`, `drainSteers` and `finish`: the life of a steer.
use ephemeral_agent.Common.{
  ◌≡◌, refl, sym, ap, ◌∙◌, ◌≢◌, ◌↔◌, inl, inr, Bool, true, false, some, List, [], ◌∷◌, ◌++◌,
  append-nil, append_assoc, arith, if◌then◌else◌, Bool-cases,
}
use ephemeral_agent.Contracts.{Message}
use ephemeral_agent.Events.{AgentOutcome}
use ephemeral_agent.Handle.{
  RunHandle, SteerVerdict, queued, refused, thrown, is_user, steer, interrupt, drain_steers,
  cancel_finishing, finish,
}
use ephemeral_agent.Handle.Lifecycle.{
  HandleAction, steers_with, interrupts, emits, drains, begins_finishing, cancels_finishing,
  finishes, iterates, pulls, detaches, act, run_actions,
}

abbrev pub is_queued : SteerVerdict → Bool
is_queued queued = true
is_queued _ = false

module _ {T : Type 0} where
  -- The steers that one action queues, and those that it hands to the loop.
  abbrev pub accepted_by : RunHandle T → HandleAction T → List Message
  accepted_by h (steers_with m) = if is_queued (steer m h).1 then m ∷ [] else []
  accepted_by h _ = []

  abbrev pub drained_by : RunHandle T → HandleAction T → List Message
  drained_by h drains = (drain_steers h).1
  drained_by h _ = []

  abbrev pub all_accepted : RunHandle T → List (HandleAction T) → List Message
  all_accepted h [] = []
  all_accepted h (a ∷ rest) = accepted_by h a ++ all_accepted (act h a) rest

  abbrev pub all_drained : RunHandle T → List (HandleAction T) → List Message
  all_drained h [] = []
  all_drained h (a ∷ rest) = drained_by h a ++ all_drained (act h a) rest

  act-finished :
      (h : RunHandle T) (a : HandleAction T) → h.finished ≡ true → (act h a).finished ≡ true
  unfolding act
  act-finished h (steers_with m) f = ground arith
  act-finished h interrupts f = ground arith
  act-finished h (emits body e) f = f
  act-finished h drains f = f
  act-finished h begins_finishing f = f
  act-finished h cancels_finishing f = ground arith
  act-finished h (finishes o) f = ground arith
  act-finished h iterates f = f
  act-finished h (pulls w) f = f
  act-finished h detaches f = f

  run_actions-finished :
      (h : RunHandle T) (actions : List (HandleAction T))
      → h.finished ≡ true
      → (run_actions h actions).finished ≡ true
  unfolding run_actions
  run_actions-finished h [] f = f
  run_actions-finished h (a ∷ rest) f = run_actions-finished (act h a) rest (act-finished h a f)

  -- One action that does not finish the run.
  act-steers :
      (h : RunHandle T) (a : HandleAction T)
      → (act h a).finished ≡ false
      → h.steers ++ accepted_by h a ≡ drained_by h a ++ (act h a).steers
  unfolding act steer drain_steers
  act-steers h (steers_with m) f = ground (arith, append-nil h.steers)
  act-steers h interrupts f = unfold interrupt in ground (arith, append-nil h.steers)
  act-steers h (emits body e) f = append-nil h.steers
  act-steers h drains f = refl
  act-steers h begins_finishing f = append-nil h.steers
  act-steers h cancels_finishing f = unfold cancel_finishing in ground (arith, append-nil h.steers)
  act-steers h (finishes o) f = unfold finish in ground (arith, append-nil h.steers)
  act-steers h iterates f = append-nil h.steers
  act-steers h (pulls w) f = append-nil h.steers
  act-steers h detaches f = append-nil h.steers

  -- As long as the run has not finished, the steers queued before and accepted during any actions
  -- are those drained, in order, followed by those pending: none is lost, repeated or reordered.
  pub steers_conserved :
      (h : RunHandle T) (actions : List (HandleAction T))
      → (run_actions h actions).finished ≡ false
      → h.steers ++ all_accepted h actions ≡ all_drained h actions ++ (run_actions h actions).steers
  unfolding run_actions
  steers_conserved h [] f = append-nil h.steers
  steers_conserved h (a ∷ rest) f =
      let open_after : (act h a).finished ≡ false = elim (Bool-cases (act h a).finished) [
        | inl e ↦ absurd (cc (run_actions-finished (act h a) rest e))
        | inr e ↦ e
      ] in
      sym (append_assoc h.steers (accepted_by h a) (all_accepted (act h a) rest))
      ∙ ap (λ (ms : List Message). ms ++ all_accepted (act h a) rest) (act-steers h a open_after)
      ∙ append_assoc (drained_by h a) (act h a).steers (all_accepted (act h a) rest)
      ∙ ap (λ (ms : List Message). drained_by h a ++ ms) (steers_conserved (act h a) rest f)
      ∙ sym (
          append_assoc (drained_by h a) (all_drained (act h a) rest)
            (run_actions (act h a) rest).steers)

  -- A user message is queued exactly while the run is neither finishing nor finished; another
  -- role is a thrown error; only a queued one changes the handle.
  steer_verdict :
      (m : Message) (h : RunHandle T)
      → (((steer m h).1 ≡ queued)
          ↔ ((is_user m.role ≡ true) × (h.finishing ≡ false) × (h.finished ≡ false)))
        × (((steer m h).1 ≡ thrown) ↔ (is_user m.role ≡ false))
        × ((steer m h).1 ≢ queued → (steer m h).0 ≡ h)
  unfolding steer
  steer_verdict m h = (
    ((λ q. ground arith), (λ q. ground arith)),
    ((λ q. ground arith), (λ q. ground arith)),
    (λ q. ground arith),
  )

  -- Finishing is once and for all. The first finish settles its outcome; after a finish a second
  -- one, an interrupt and a reopening of the submission window change nothing, and a user message
  -- is refused.
  pub finish_absorbs :
      (o p : AgentOutcome T) (m : Message) (h : RunHandle T)
      → let g = finish o h in
        (h.finished ≡ false → g.resolved ≡ some o)
        × (finish p g ≡ g)
        × (interrupt g ≡ g)
        × (cancel_finishing g ≡ g)
        × (is_user m.role ≡ true → steer m g ≡ (g, refused))
  unfolding finish interrupt cancel_finishing steer
  finish_absorbs o p m h = elim (Bool-cases h.finished) [
    | inl f ↦ (λ g. ground arith, ground arith, ground arith, ground arith, λ r. ground arith)
    | inr f ↦ (λ g. ground arith, ground arith, ground arith, ground arith, λ r. ground arith)
  ]
