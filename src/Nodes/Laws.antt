-- ===== src/Nodes/Laws.antt =====
-- The events of a run's stream, as its consumer sees them.
use ephemeral_agent.Common.{
  ℕ, suc, ◌+◌, ◌≡◌, refl, sym, ap, subst, ◌∙◌, inl, inr, true, false, ◌||◌, Option, none, List, [],
  ◌∷◌, ◌++◌, append_assoc, arith, Bool-cases, or_else, if_intro, length, length-append,
}
use ephemeral_agent.Nodes.Stream.{
  Event, RunEventStream, Next, ConsumerAction, iterates, returns, pulls, push, close, iterate,
  take_next, next, detach, emit, consume,
}

module _ {B : Type 0} where
  -- The events handed over or waiting in the buffer.
  abbrev pub visible : RunEventStream B → List (Event B)
  visible s = s.delivered ++ s.buffer

  -- Each event carries its position.
  abbrev pub IsNumberedFrom : ℕ → List (Event B) → Type 0
  IsNumberedFrom n [] = Unit {0}
  IsNumberedFrom n (e ∷ es) = (e.seq ≡ n) × IsNumberedFrom (suc n) es

  pub record StreamInv (s : RunEventStream B) : Type 0 where
    pub numbered : IsNumberedFrom 0 s.emitted
    pub counted : s.seq ≡ length s.emitted
    pub complete : s.detached ≡ false → s.closed ≡ false → visible s ≡ s.emitted

  IsNumberedFrom-last :
      (n k : ℕ) (es : List (Event B)) (e : Event B)
      → IsNumberedFrom n es
      → e.seq ≡ k
      → k ≡ n + length es
      → IsNumberedFrom n (es ++ e ∷ [])
  IsNumberedFrom-last n k [] e h q l = (omega arith, tt)
  IsNumberedFrom-last n k (f ∷ es) e h q l =
      (h.0, IsNumberedFrom-last (suc n) k es e h.1 q (omega arith))

  abbrev pub event_of : B → RunEventStream B → Event B
  event_of body s = record { body = body; seq = s.seq }

  pub emit_open :
      (body : B) (s : RunEventStream B)
      → s.detached ≡ false
      → s.closed ≡ false
      → visible (emit body s) ≡ visible s ++ event_of body s ∷ []
  unfolding emit push
  emit_open body s d c = rw (d, c) (sym (append_assoc s.delivered s.buffer (event_of body s ∷ [])))

  pub emit_shut :
      (body : B) (s : RunEventStream B) → s.closed ≡ true → visible (emit body s) ≡ visible s
  unfolding emit push
  emit_shut body s c = rw c refl

  pub emit_flags :
      (body : B) (s : RunEventStream B)
      → ((emit body s).closed ≡ s.closed)
        × ((emit body s).detached ≡ s.detached)
        × ((emit body s).emitted ≡ s.emitted ++ event_of body s ∷ [])
        × ((emit body s).seq ≡ s.seq + 1)
  unfolding emit push
  emit_flags body s = elim (Bool-cases (s.closed || s.detached)) [
    | inl h ↦ rw h (refl, refl, refl, refl)
    | inr h ↦ rw h (refl, refl, refl, refl)
  ]

  pub emit-StreamInv : (body : B) (s : RunEventStream B) → StreamInv s → StreamInv (emit body s)
  emit-StreamInv body s v =
      let (c, d, es, q) = emit_flags body s in
      record {
        numbered = subst (IsNumberedFrom 0) (sym es) (
            IsNumberedFrom-last 0 s.seq s.emitted (event_of body s) v.numbered refl
              (omega (arith, v.counted)));
        counted =
            omega
              (arith, q, ap length es, length-append s.emitted (event_of body s ∷ []), v.counted);
        complete = λ d' c'.
            let open_d : s.detached ≡ false = sym d ∙ d' in
            let open_c : s.closed ≡ false = sym c ∙ c' in
            emit_open body s open_d open_c
            ∙ ap (λ (xs : List (Event B)). xs ++ event_of body s ∷ []) (v.complete open_d open_c)
            ∙ sym es;
      }

  pub close-StreamInv : (s : RunEventStream B) → StreamInv s → StreamInv (close s)
  unfolding close
  close-StreamInv s v = record { numbered = v.numbered; counted = v.counted; complete = λ d c. cc }

  -- A consumer changes neither what was emitted nor the closing, and sees the same unless it leaves.
  abbrev pub Keeps : RunEventStream B → RunEventStream B → Type 0
  Keeps s t =
      (t.emitted ≡ s.emitted)
      × (t.closed ≡ s.closed)
      × (t.seq ≡ s.seq)
      × (t.detached ≡ false → (s.detached ≡ false) × (visible t ≡ visible s))

  Keeps-refl : (s : RunEventStream B) → Keeps s s
  Keeps-refl s = (refl, refl, refl, λ d. (d, refl))

  take_next-Keeps :
      (buffer : List (Event B)) (w : ℕ) (s : RunEventStream B)
      → s.buffer ≡ buffer
      → Keeps s (take_next buffer w s).0
  unfolding take_next
  take_next-Keeps [] w s h =
      if_intro (λ (r : RunEventStream B × Next B). Keeps s r.0) s.closed (s, Next.done) _
        (λ _. Keeps-refl s) (λ _. (refl, refl, refl, λ d. (d, refl)))
  take_next-Keeps (e ∷ rest) w s h = (
    refl,
    refl,
    refl,
    λ d. (
      d,
      append_assoc s.delivered (e ∷ []) rest
          ∙ ap (λ (es : List (Event B)). s.delivered ++ es) (sym h),
    ),
  )

  pub consume-Keeps : (c : ConsumerAction) (s : RunEventStream B) → Keeps s (consume c s)
  unfolding consume iterate detach next
  consume-Keeps iterates s =
      if_intro (λ (o : Option (RunEventStream B)). Keeps s (or_else o s)) s.consumed none _
        (λ _. Keeps-refl s) (λ _. (refl, refl, refl, λ d. (d, refl)))
  consume-Keeps returns s = (refl, refl, refl, λ d. cc)
  consume-Keeps (pulls w) s =
      if_intro (λ (r : RunEventStream B × Next B). Keeps s r.0) s.detached (s, Next.done) _
        (λ _. Keeps-refl s) (λ _. take_next-Keeps s.buffer w s refl)

  pub consume-StreamInv :
      (c : ConsumerAction) (s : RunEventStream B) → StreamInv s → StreamInv (consume c s)
  consume-StreamInv c s v =
      let (es, cl, q, vis) = consume-Keeps c s in
      record {
        numbered = subst (IsNumberedFrom 0) (sym es) v.numbered;
        counted = omega (arith, q, v.counted, ap length es);
        complete = λ d c'. (vis d).1 ∙ v.complete (vis d).0 (sym cl ∙ c') ∙ sym es;
      }
