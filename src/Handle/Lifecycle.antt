-- ===== src/Handle/Lifecycle.antt =====
-- The events of a run, as its consumer and its tap see them.
use ephemeral_agent.Common.{
  ℕ, suc, ◌+◌, ◌≤◌, ◌≡◌, refl, sym, ap, subst, ◌∙◌, Bool, true, false, none, some, List, [], ◌∷◌,
  ◌++◌, append_assoc, arith, or_else, if_intro, one_if, length, select, length-append,
}
use ephemeral_agent.Contracts.{Message}
use ephemeral_agent.Events.{AgentOutcome, AgentEventBody, run_finished, AgentEvent}
use ephemeral_agent.Handle.{
  EventStream, RunHandle, push, iterate, next, detach, steer, interrupt, emit, drain_steers,
  begin_finishing, cancel_finishing, finish, new_handle,
}

abbrev pub is_final : {T : Type 0} → AgentEventBody T → Bool
is_final (run_finished o) = true
is_final _ = false

-- Whatever reaches the handle; `run_finished` is emitted by `finish` alone.
pub data HandleAction (T : Type 0) : Type 0 where
  steers_with : Message → HandleAction T
  interrupts : HandleAction T
  emits : (body : AgentEventBody T) → is_final body ≡ false → HandleAction T
  drains : HandleAction T
  begins_finishing : HandleAction T
  cancels_finishing : HandleAction T
  finishes : AgentOutcome T → HandleAction T
  iterates : HandleAction T
  pulls : ℕ → HandleAction T
  detaches : HandleAction T

module _ {T : Type 0} where
  abbrev pub with_stream : RunHandle T → EventStream T → RunHandle T
  with_stream h s = record h { stream = s }

  unfoldable pub act : RunHandle T → HandleAction T → RunHandle T
  unfolding steer interrupt emit drain_steers begin_finishing cancel_finishing finish iterate next
      detach
  act h (steers_with m) = (steer m h).0
  act h interrupts = interrupt h
  act h (emits body e) = emit body h
  act h drains = (drain_steers h).0
  act h begins_finishing = begin_finishing h
  act h cancels_finishing = cancel_finishing h
  act h (finishes o) = finish o h
  act h iterates = with_stream h (or_else (iterate h.stream) h.stream)
  act h (pulls w) = with_stream h (next w h.stream).0
  act h detaches = with_stream h (detach h.stream)

  unfoldable pub run_actions : RunHandle T → List (HandleAction T) → RunHandle T
  unfolding act
  run_actions h [] = h
  run_actions h (a ∷ rest) = run_actions (act h a) rest

  -- The events handed over or waiting in the buffer.
  abbrev pub visible : RunHandle T → List (AgentEvent T)
  visible h = h.stream.delivered ++ h.stream.buffer

  abbrev pub finals : List (AgentEvent T) → ℕ
  finals es = length (select (λ e. is_final e.body) es)

  -- Each event carries its position.
  abbrev pub IsNumberedFrom : ℕ → List (AgentEvent T) → Type 0
  IsNumberedFrom n [] = Unit {0}
  IsNumberedFrom n (e ∷ es) = (e.seq ≡ n) × IsNumberedFrom (suc n) es

  -- The list ends with `run_finished` of an outcome, and has no other.
  abbrev pub EndsWith : AgentOutcome T → List (AgentEvent T) → Type 0
  EndsWith o es =
      (before : List (AgentEvent T)) × (last : AgentEvent T) × (es ≡ before ++ last ∷ [])
      × (last.body ≡ run_finished o)
      × (finals before ≡ 0)

  pub record HandleInv (h : RunHandle T) : Type 0 where
    pub numbered : IsNumberedFrom 0 h.tap
    pub counted : h.seq ≡ length h.tap
    pub latched : h.finished ≡ true → (h.finishing ≡ true) × (h.steers ≡ [])
    pub closing : h.stream.closed ≡ h.finished
    pub open_run : h.finished ≡ false → (h.resolved ≡ none) × (finals h.tap ≡ 0)
    pub open_stream : h.finished ≡ false → h.stream.detached ≡ false → visible h ≡ h.tap
    pub once : finals h.tap ≤ 1
    pub settled :
        h.finished ≡ true
        → (o : AgentOutcome T) × (h.resolved ≡ some o)
          × (h.stream.detached ≡ false → EndsWith o (visible h))

  IsNumberedFrom-last :
      (n k : ℕ) (es : List (AgentEvent T)) (e : AgentEvent T)
      → IsNumberedFrom n es
      → e.seq ≡ k
      → k ≡ n + length es
      → IsNumberedFrom n (es ++ e ∷ [])
  IsNumberedFrom-last n k [] e h q l = (omega arith, tt)
  IsNumberedFrom-last n k (f ∷ es) e h q l =
      (h.0, IsNumberedFrom-last (suc n) k es e h.1 q (omega arith))

  finals-last :
      (es : List (AgentEvent T)) (e : AgentEvent T)
      → finals (es ++ e ∷ []) ≡ finals es + one_if (is_final e.body)
  finals-last [] e = ground arith
  finals-last (f ∷ es) e = ground (arith, finals-last es e)

  visible-push :
      (e : AgentEvent T) (h : RunHandle T)
      → h.stream.detached ≡ false
      → h.stream.closed ≡ false
      → visible (with_stream h (push e h.stream)) ≡ visible h ++ e ∷ []
  unfolding push
  visible-push e h d c = rw (d, c) (sym (append_assoc h.stream.delivered h.stream.buffer (e ∷ [])))

  push_closed : (e : AgentEvent T) (s : EventStream T) → s.closed ≡ true → push e s ≡ s
  unfolding push
  push_closed e s c = ground arith

  push_flags :
      (e : AgentEvent T) (s : EventStream T)
      → ((push e s).closed ≡ s.closed) × ((push e s).detached ≡ s.detached)
  unfolding push
  push_flags e s = ground arith

  pub new_handle-HandleInv : HandleInv new_handle
  unfolding new_handle
  new_handle-HandleInv = record {
    numbered = tt;
    counted = refl;
    latched = λ h. cc;
    closing = refl;
    open_run = λ h. (refl, refl);
    open_stream = λ h d. refl;
    once = omega arith;
    settled = λ h. cc;
  }

  pub emit-HandleInv :
      (body : AgentEventBody T) (h : RunHandle T)
      → is_final body ≡ false
      → HandleInv h
      → HandleInv (emit body h)
  unfolding emit
  emit-HandleInv body h n v = record {
    numbered = IsNumberedFrom-last 0 h.seq h.tap _ v.numbered refl (omega (arith, v.counted));
    counted =
        omega (arith, v.counted, length-append h.tap (record { body = body; seq = h.seq } ∷ []));
    latched = v.latched;
    closing = (push_flags (record { body = body; seq = h.seq }) h.stream).0 ∙ v.closing;
    open_run = λ f. (
      (v.open_run f).0,
      omega (
        arith,
        finals-last h.tap (record { body = body; seq = h.seq }),
        (v.open_run f).1,
        ap one_if n,
      ),
    );
    open_stream = λ f d.
        let d' : h.stream.detached ≡ false =
          sym (push_flags (record { body = body; seq = h.seq }) h.stream).1 ∙ d in
        visible-push (record { body = body; seq = h.seq }) h d' (v.closing ∙ f)
        ∙ ap (λ (es : List (AgentEvent T)). es ++ record { body = body; seq = h.seq } ∷ [])
            (v.open_stream f d');
    once =
        omega (arith, v.once, finals-last h.tap (record { body = body; seq = h.seq }), ap one_if n);
    settled = λ f.
        let (o, r, ends) = v.settled f in
        (
          o,
          r,
          subst (λ s. s.detached ≡ false → EndsWith o (s.delivered ++ s.buffer))
              (sym (push_closed (record { body = body; seq = h.seq }) h.stream (v.closing ∙ f)))
              ends,
        );
  }

  abbrev final_event : AgentOutcome T → RunHandle T → AgentEvent T
  final_event o h = record { body = run_finished o; seq = h.seq }

  pub finish-HandleInv :
      (o : AgentOutcome T) (h : RunHandle T) → HandleInv h → HandleInv (finish o h)
  unfolding finish
  finish-HandleInv o h v =
      if_intro HandleInv h.finished h _ (λ _. v)
        (λ f. record {
          numbered = IsNumberedFrom-last 0 h.seq h.tap _ v.numbered refl (omega (arith, v.counted));
          counted = omega (arith, v.counted, length-append h.tap (final_event o h ∷ []));
          latched = λ _. (refl, refl);
          closing = refl;
          open_run = λ g. cc;
          open_stream = λ g. cc;
          once = omega (arith, finals-last h.tap (final_event o h), (v.open_run f).1);
          settled = λ _. (o, refl, ends f);
        })
    where
      ends :
          h.finished ≡ false
          → (push (final_event o h) h.stream).detached ≡ false
          → EndsWith o (
              (push (final_event o h) h.stream).delivered
              ++ (push (final_event o h) h.stream).buffer)
      ends f d =
          let d' : h.stream.detached ≡ false = sym (push_flags (final_event o h) h.stream).1 ∙ d in
          (
            visible h,
            final_event o h,
            visible-push (final_event o h) h d' (v.closing ∙ f),
            refl,
            ap finals (v.open_stream f d') ∙ (v.open_run f).1,
          )
