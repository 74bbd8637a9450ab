-- ===== src/Workflow/Streams.antt =====
-- workflow-runtime.ts: the event stream and the outcome of a run.
use ephemeral_agent.Nodes.Stream
use ephemeral_agent.Common.{
  ℕ, ◌+◌, ◌≡◌, refl, sym, ap, subst, ◌∙◌, Bool, true, false, Option, none, some, List, [], ◌∷◌,
  ◌++◌, arith, if◌then◌else◌, if_intro, one_if, length, select,
}
use ephemeral_agent.Nodes.Stream.{Event, RunEventStream, ConsumerAction, close, new_stream, consume}
use ephemeral_agent.Nodes.Laws.{
  visible, StreamInv, event_of, emit_open, emit_shut, emit_flags, emit-StreamInv, close-StreamInv,
  consume-Keeps, consume-StreamInv,
}
use ephemeral_agent.Workflow.{WorkflowOutcome, WorkflowRunEventBody, workflow_finished}
use ephemeral_agent.Workflow.State.{RunInstance}

abbrev pub is_final : WorkflowRunEventBody → Bool
is_final (workflow_finished o) = true
is_final _ = false

abbrev pub finals : List (Event WorkflowRunEventBody) → ℕ
finals es = length (select (λ e. is_final e.body) es)

-- The list ends with `workflow_finished` of an outcome, and has no other.
abbrev pub EndsWith : WorkflowOutcome → List (Event WorkflowRunEventBody) → Type 0
EndsWith o es =
    (before : List (Event WorkflowRunEventBody)) × (last : Event WorkflowRunEventBody) × (es
      ≡ before ++ last ∷ [])
    × (last.body ≡ workflow_finished o)
    × (finals before ≡ 0)

-- The part of a run that its consumer and whoever awaits its outcome can see.
pub record Front : Type 0 where
  pub stream : RunEventStream WorkflowRunEventBody
  pub finished : Bool
  pub resolved : Option WorkflowOutcome

abbrev pub front : {D : Type 0} → RunInstance D → Front
front s = record { stream = s.stream; finished = s.finished; resolved = s.resolved }

unfoldable pub emit_front : WorkflowRunEventBody → Front → Front
emit_front b f = record f { stream = Stream.emit b f.stream }

unfoldable pub finish_front : WorkflowOutcome → Front → Front
unfolding emit_front
finish_front o f =
    if f.finished
    then f
    else let emitted = emit_front (workflow_finished o) (record f { finished = true }) in
      record emitted { stream = close emitted.stream; resolved = some o }

-- What every operation does to it: it emits events other than the last, and it finishes.
pub data Moves (f : Front) : Front → Type 0 where
  stays : Moves f f
  emits :
      {g : Front} (b : WorkflowRunEventBody)
      → is_final b ≡ false
      → Moves f g
      → Moves f (emit_front b g)
  finishes : {g : Front} (o : WorkflowOutcome) → Moves f g → Moves f (finish_front o g)
  consumed :
      {g : Front} (c : ConsumerAction)
      → Moves f g
      → Moves f (record g { stream = consume c g.stream })

pub record Sound (f : Front) : Type 0 where
  pub stream : StreamInv f.stream
  pub closing : f.stream.closed ≡ f.finished
  pub open_run : f.finished ≡ false → (f.resolved ≡ none) × (finals f.stream.emitted ≡ 0)
  pub settled :
      f.finished ≡ true
      → (o : WorkflowOutcome) × (f.resolved ≡ some o)
        × (f.stream.detached ≡ false → EndsWith o (visible f.stream))

finals-last :
    (es : List (Event WorkflowRunEventBody)) (e : Event WorkflowRunEventBody)
    → finals (es ++ e ∷ []) ≡ finals es + one_if (is_final e.body)
finals-last [] e = ground arith
finals-last (f ∷ es) e = ground (arith, finals-last es e)

emit-Sound :
    (b : WorkflowRunEventBody) (f : Front) → is_final b ≡ false → Sound f → Sound (emit_front b f)
unfolding emit_front
emit-Sound b f n v =
    let (c, d, es, q) = emit_flags b f.stream in
    record {
      stream = emit-StreamInv b f.stream v.stream;
      closing = c ∙ v.closing;
      open_run = λ h. (
        (v.open_run h).0,
        omega (
          arith,
          ap finals es,
          finals-last f.stream.emitted (event_of b f.stream),
          (v.open_run h).1,
          ap one_if n,
        ),
      );
      settled = λ h.
          let (o, r, ends) = v.settled h in
          (
            o,
            r,
            λ d'.
                subst (EndsWith o) (sym (emit_shut b f.stream (v.closing ∙ h))) (ends (sym d ∙ d')),
          );
    }

finish-Sound : (o : WorkflowOutcome) (f : Front) → Sound f → Sound (finish_front o f)
unfolding finish_front emit_front close
finish-Sound o f v =
    if_intro Sound f.finished f _ (λ _. v)
      (λ h.
        let (c, d, es, q) = emit_flags (workflow_finished o) f.stream in
        let open_c : f.stream.closed ≡ false = v.closing ∙ h in
        record {
          stream = close-StreamInv _ (emit-StreamInv (workflow_finished o) f.stream v.stream);
          closing = refl;
          open_run = λ g. cc;
          settled = λ _. (
            o,
            refl,
            λ d'.
                let open_d : f.stream.detached ≡ false = sym d ∙ d' in
                (
                  visible f.stream,
                  event_of (workflow_finished o) f.stream,
                  emit_open (workflow_finished o) f.stream open_d open_c,
                  refl,
                  ap finals (v.stream.complete open_d open_c) ∙ (v.open_run h).1,
                ),
          );
        })

consume-Sound :
    (c : ConsumerAction) (f : Front) → Sound f → Sound (record f { stream = consume c f.stream })
consume-Sound c f v =
    let (es, cl, q, vis) = consume-Keeps c f.stream in
    record {
      stream = consume-StreamInv c f.stream v.stream;
      closing = cl ∙ v.closing;
      open_run = λ h. ((v.open_run h).0, ap finals es ∙ (v.open_run h).1);
      settled = λ h.
          let (o, r, ends) = v.settled h in
          (o, r, λ d. subst (EndsWith o) (sym (vis d).1) (ends (vis d).0));
    }

pub Moves-Sound : {f g : Front} → Moves f g → Sound f → Sound g
Moves-Sound stays v = v
Moves-Sound (emits {g} b n m) v = emit-Sound b g n (Moves-Sound m v)
Moves-Sound (finishes {g} o m) v = finish-Sound o g (Moves-Sound m v)
Moves-Sound (consumed {g} c m) v = consume-Sound c g (Moves-Sound m v)

-- What a finished run keeps.
abbrev pub Absorbs : Front → Front → Type 0
Absorbs f g =
    (g.finished ≡ true)
    × (g.resolved ≡ f.resolved)
    × (g.stream.detached ≡ false
        → (f.stream.detached ≡ false) × (visible g.stream ≡ visible f.stream))

pub Moves-Absorbs : {f g : Front} → Moves f g → Sound f → f.finished ≡ true → Absorbs f g
unfolding finish_front emit_front
Moves-Absorbs stays v h = (h, refl, λ d. (d, refl))
Moves-Absorbs (emits {g} b n m) v h =
    let (done, same, vis) = Moves-Absorbs m v h in
    let closed : g.stream.closed ≡ true = (Moves-Sound m v).closing ∙ done in
    (
      done,
      same,
      λ d.
          let (d', q) = vis (sym (emit_flags b g.stream).1 ∙ d) in
          (d', emit_shut b g.stream closed ∙ q),
    )
Moves-Absorbs {f} (finishes {g} o m) v h =
    let before = Moves-Absorbs m v h in
    if_intro (Absorbs f) g.finished g _ (λ _. before) (λ no. absurd (ground (arith, before.0)))
Moves-Absorbs (consumed {g} c m) v h =
    let (done, same, vis) = Moves-Absorbs m v h in
    let (es, cl, q, kept) = consume-Keeps c g.stream in
    (done, same, λ d. let (d', q') = vis (kept d).0 in (d', (kept d).1 ∙ q'))
