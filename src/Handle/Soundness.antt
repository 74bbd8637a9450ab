-- ===== src/Handle/Soundness.antt =====
-- Whatever reaches a handle, against the invariant of run-handle.ts.
use ephemeral_agent.Common.{
  ℕ, ◌≡◌, refl, sym, ap, subst, ◌∙◌, Bool, true, false, not, ◌||◌, Option, none, List, [], ◌∷◌,
  ◌++◌, append_assoc, arith, or_else, if_intro,
}
use ephemeral_agent.Contracts.{Message}
use ephemeral_agent.Events.{AgentEvent}
use ephemeral_agent.Waiters.{Waiters, wake_all}
use ephemeral_agent.Handle.{
  EventStream, Next, done, RunHandle, SteerVerdict, refused, thrown, is_user, iterate, take_next,
  next, detach, steer, interrupt, drain_steers, begin_finishing, cancel_finishing, new_handle,
}
use ephemeral_agent.Handle.Lifecycle.{
  HandleAction, steers_with, interrupts, emits, drains, begins_finishing, cancels_finishing,
  finishes, iterates, pulls, detaches, with_stream, act, run_actions, visible, EndsWith, HandleInv,
  new_handle-HandleInv, emit-HandleInv, finish-HandleInv,
}

module _ {T : Type 0} where
  interrupt-HandleInv : (h : RunHandle T) → HandleInv h → HandleInv (interrupt h)
  unfolding interrupt
  interrupt-HandleInv h v =
      if_intro HandleInv h.finished h _ (λ _. v)
        (λ f. record {
          numbered = v.numbered;
          counted = v.counted;
          latched = v.latched;
          closing = v.closing;
          open_run = v.open_run;
          open_stream = v.open_stream;
          once = v.once;
          settled = v.settled;
        })

  -- Steers and the finishing latch leave the events alone.
  with_steers-HandleInv :
      (ms : List Message) (ws : Waiters) (b : Bool) (h : RunHandle T)
      → (h.finished ≡ true → (b ≡ true) × (ms ≡ []))
      → HandleInv h
      → HandleInv (record h { steers = ms; steer_wakers = ws; finishing = b })
  with_steers-HandleInv ms ws b h l v = record {
    numbered = v.numbered;
    counted = v.counted;
    latched = l;
    closing = v.closing;
    open_run = v.open_run;
    open_stream = v.open_stream;
    once = v.once;
    settled = v.settled;
  }

  -- So does the consumer, while it neither loses nor repeats an event.
  with_stream-HandleInv :
      (s : EventStream T) (h : RunHandle T)
      → s.closed ≡ h.stream.closed
      → (s.detached ≡ false → (h.stream.detached ≡ false) × (s.delivered ++ s.buffer ≡ visible h))
      → HandleInv h
      → HandleInv (with_stream h s)
  with_stream-HandleInv s h c k v = record {
    numbered = v.numbered;
    counted = v.counted;
    latched = v.latched;
    closing = c ∙ v.closing;
    open_run = v.open_run;
    open_stream = λ f d. (k d).1 ∙ v.open_stream f (k d).0;
    once = v.once;
    settled = λ f.
        let (o, r, ends) = v.settled f in
        (o, r, λ d. subst (λ es. EndsWith o es) (sym (k d).1) (ends (k d).0));
  }

  take_next-visible :
      (es : List (AgentEvent T)) (w : ℕ) (s : EventStream T)
      → s.buffer ≡ es
      → let t = (take_next es w s).0 in
        (t.closed ≡ s.closed)
        × (t.detached ≡ s.detached)
        × (t.delivered ++ t.buffer ≡ s.delivered ++ s.buffer)
  unfolding take_next
  take_next-visible [] w s b = ground arith
  take_next-visible (e ∷ es) w s b = (
    refl,
    refl,
    append_assoc s.delivered (e ∷ []) es
        ∙ ap (λ (t : List (AgentEvent T)). s.delivered ++ t) (sym b),
  )

  next-HandleInv :
      (w : ℕ) (h : RunHandle T) → HandleInv h → HandleInv (with_stream h (next w h.stream).0)
  unfolding next
  next-HandleInv w h v =
      if_intro (λ (r : EventStream T × Next T). HandleInv (with_stream h r.0)) h.stream.detached
        (h.stream, done) _ (λ _. v)
        (λ d.
          let (c, e, k) = take_next-visible h.stream.buffer w h.stream refl in
          with_stream-HandleInv _ h c (λ d'. (d, k)) v)

  iterate-HandleInv :
      (h : RunHandle T)
      → HandleInv h
      → HandleInv (with_stream h (or_else (iterate h.stream) h.stream))
  unfolding iterate
  iterate-HandleInv h v =
      if_intro (λ (r : Option (EventStream T)). HandleInv (with_stream h (or_else r h.stream)))
        h.stream.consumed none _ (λ _. v) (λ c. with_stream-HandleInv _ h refl (λ d. (d, refl)) v)

  steer-HandleInv : (m : Message) (h : RunHandle T) → HandleInv h → HandleInv (steer m h).0
  unfolding steer
  steer-HandleInv m h v =
      if_intro (λ (r : RunHandle T × SteerVerdict). HandleInv r.0) (not (is_user m.role))
        (h, thrown) _ (λ _. v)
        (λ _.
          if_intro (λ (r : RunHandle T × SteerVerdict). HandleInv r.0) (h.finishing || h.finished)
            (h, refused) _ (λ _. v)
            (λ f.
              with_steers-HandleInv (h.steers ++ m ∷ []) (wake_all h.steer_wakers) h.finishing h
                (λ g. absurd (ground arith)) v))

  -- Every action keeps the invariant.
  pub act-HandleInv : (h : RunHandle T) (a : HandleAction T) → HandleInv h → HandleInv (act h a)
  unfolding act
  act-HandleInv h (steers_with m) v = steer-HandleInv m h v
  act-HandleInv h interrupts v = interrupt-HandleInv h v
  act-HandleInv h (emits body e) v = emit-HandleInv body h e v
  act-HandleInv h drains v =
      unfold drain_steers in
      with_steers-HandleInv [] h.steer_wakers h.finishing h (λ f. ((v.latched f).0, refl)) v
  act-HandleInv h begins_finishing v =
      unfold begin_finishing in
      with_steers-HandleInv h.steers h.steer_wakers true h (λ f. (refl, (v.latched f).1)) v
  act-HandleInv h cancels_finishing v =
      unfold cancel_finishing in
      if_intro HandleInv h.finished h _ (λ _. v)
        (λ f. with_steers-HandleInv h.steers h.steer_wakers false h (λ g. absurd (ground arith)) v)
  act-HandleInv h (finishes o) v = finish-HandleInv o h v
  act-HandleInv h iterates v = iterate-HandleInv h v
  act-HandleInv h (pulls w) v = next-HandleInv w h v
  act-HandleInv h detaches v = unfold detach in with_stream-HandleInv _ h refl (λ d. cc) v

  run_actions-HandleInv :
      (h : RunHandle T) (actions : List (HandleAction T))
      → HandleInv h
      → HandleInv (run_actions h actions)
  unfolding run_actions
  run_actions-HandleInv h [] v = v
  run_actions-HandleInv h (a ∷ rest) v = run_actions-HandleInv (act h a) rest (act-HandleInv h a v)

  pub reached-HandleInv :
      (actions : List (HandleAction T)) → HandleInv (run_actions new_handle actions)
  reached-HandleInv actions = run_actions-HandleInv new_handle actions new_handle-HandleInv
