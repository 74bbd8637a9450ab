-- ===== src/Llm/Attempts.antt =====
-- retry.ts: the attempts made, the delays slept and the events handed over.
use native.Mathlib.Numerals.{add-one}
use ephemeral_agent.Common.{
  ℕ, zero, suc, ◌+◌, ◌≤◌, String, ◌≡◌, refl, ap, subst, Bool, true, false, not, ◌||◌, Option, none,
  some, List, [], ◌∷◌, ◌++◌, arith, leb, ◌==◌, if◌then◌else◌, if_intro, All, All-append,
}
use ephemeral_agent.Events.{LlmStreamEvent}
use ephemeral_agent.Llm.Errors.{ProviderError, from_status}
use ephemeral_agent.Llm.Retry.{
  RetryConfig, default_retry, is_retryable, delay_of, Thrown, provider, foreign, Attempt, Ending,
  completed_stream, threw, abort_error, unsettled, Transcript, ends, attempted, any_visible, slept,
  retry_after_failure, retry_from, retry_stream,
}

abbrev pub IsBounded : ℕ → List ℕ → Type 0
IsBounded d ds = All (λ x. x ≤ d) ds

delay_of-le : (cfg : RetryConfig) (e : ProviderError) (n : ℕ) → delay_of cfg e n ≤ cfg.max_delay
unfolding delay_of
delay_of-le cfg e n = omega arith

slept-IsBounded : (d m : ℕ) → d ≤ m → IsBounded m (slept d)
slept-IsBounded d m h = ground arith

-- What holds of a transcript that starts at attempt `index`.
abbrev Bounds : RetryConfig → ℕ → Transcript → Type 0
Bounds cfg index t = (t.attempts + index ≤ cfg.max_retries + 1) × IsBounded cfg.max_delay t.sleeps

failure-Bounds :
    (cfg : RetryConfig) (index : ℕ) (visible : Bool) (a : Attempt) (f : Option Thrown)
    (later : Transcript)
    → index ≤ cfg.max_retries
    → (index + 1 ≤ cfg.max_retries → Bounds cfg (index + 1) later)
    → Bounds cfg index (retry_after_failure cfg index visible a f later)
unfolding retry_after_failure
failure-Bounds cfg index visible a none later h k = (omega (arith, h), tt)
failure-Bounds cfg index visible a (some (foreign m)) later h k = (omega (arith, h), tt)
failure-Bounds cfg index visible a (some (provider e)) later h k =
    if_intro (Bounds cfg index)
      (a.aborted_at_failure || (visible || (leb cfg.max_retries index || not (is_retryable cfg e))))
      _ _ (λ _. (omega (arith, h), tt))
      (λ n.
        let go_on : index + 1 ≤ cfg.max_retries = ground arith in
        let short : IsBounded cfg.max_delay (slept (delay_of cfg e index)) =
          slept-IsBounded (delay_of cfg e index) cfg.max_delay (delay_of-le cfg e index) in
        if_intro
          (λ (t : Transcript).
            Bounds cfg index (attempted a.events (slept (delay_of cfg e index)) t))
          a.aborted_after_backoff (ends abort_error) later
          (λ _. (
            omega (arith, h),
            All-append (λ x. x ≤ cfg.max_delay) (slept (delay_of cfg e index)) [] short tt,
          ))
          (λ _. (
            omega (arith, (k go_on).0),
            All-append (λ x. x ≤ cfg.max_delay) (slept (delay_of cfg e index)) later.sleeps short
                (k go_on).1,
          )))

retry_from-Bounds :
    (cfg : RetryConfig) (index : ℕ) (visible : Bool) (todo : List Attempt)
    → index ≤ cfg.max_retries
    → Bounds cfg index (retry_from cfg index visible todo)
unfolding retry_from
retry_from-Bounds cfg index visible [] h = (omega (arith, h), tt)
retry_from-Bounds cfg index visible (a ∷ rest) h =
    if_intro (Bounds cfg index) a.aborted_before _ _ (λ _. (omega (arith, h), tt))
      (λ _.
        failure-Bounds cfg index (visible || any_visible a.events) a a.failure _ h
          (retry_from-Bounds cfg (index + 1) (visible || any_visible a.events) rest))

-- At most `max_retries` retries, and no sleep above the configured maximum, whatever the attempts do.
pub retry_stream_bounds :
    (cfg : RetryConfig) (todo : List Attempt)
    → ((retry_stream cfg todo).attempts ≤ cfg.max_retries + 1)
      × IsBounded cfg.max_delay (retry_stream cfg todo).sleeps
unfolding retry_stream
retry_stream_bounds cfg todo =
    let (n, d) = retry_from-Bounds cfg 0 false todo (omega arith) in (omega (arith, n), d)

-- The events of the attempts that are followed by another one.
abbrev pub retried : ℕ → List Attempt → List LlmStreamEvent
retried n [] = []
retried zero (a ∷ rest) = []
retried (suc zero) (a ∷ rest) = []
retried (suc (suc n)) (a ∷ rest) = a.events ++ retried (suc n) rest

-- The events of the first `n` attempts.
abbrev pub made : ℕ → List Attempt → List LlmStreamEvent
made n [] = []
made zero (a ∷ rest) = []
made (suc n) (a ∷ rest) = a.events ++ made n rest

any_visible-append :
    (es fs : List LlmStreamEvent)
    → any_visible es ≡ false
    → any_visible fs ≡ false
    → any_visible (es ++ fs) ≡ false
any_visible-append [] fs h k = k
any_visible-append (e ∷ es) fs h k = ground (arith, any_visible-append es fs)

-- A transcript hands over what its attempts brought, and only the last of them was visible.
record IsClean (visible : Bool) (todo : List Attempt) (t : Transcript) : Type 0 where
  whole : t.yielded ≡ made t.attempts todo
  hidden : any_visible (retried t.attempts todo) ≡ false
  single : visible ≡ true → t.attempts ≤ 1

stop-IsClean :
    (visible : Bool) (a : Attempt) (rest : List Attempt) (e : Ending) (ds : List ℕ)
    → IsClean visible (a ∷ rest) (attempted a.events ds (ends e))
stop-IsClean visible a rest e ds = record {
  whole = unfold_made a.events rest;
  hidden = refl;
  single = λ v. omega arith;
}
  where
    unfold_made : (es : List LlmStreamEvent) (todo : List Attempt) → es ++ [] ≡ es ++ made 0 todo
    unfold_made es [] = refl
    unfold_made es (b ∷ todo) = refl

retried-suc :
    (n : ℕ) (a : Attempt) (rest : List Attempt)
    → any_visible a.events ≡ false
    → any_visible (retried n rest) ≡ false
    → any_visible (retried (suc n) (a ∷ rest)) ≡ false
retried-suc zero a rest h k = refl
retried-suc (suc n) a rest h k = any_visible-append a.events (retried (suc n) rest) h k

go_on-IsClean :
    (a : Attempt) (rest : List Attempt) (ds : List ℕ) (t : Transcript)
    → any_visible a.events ≡ false
    → IsClean false rest t
    → IsClean false (a ∷ rest) (attempted a.events ds t)
go_on-IsClean a rest ds t n c = record {
  whole = rw (add-one t.attempts) (ap (λ (es : List LlmStreamEvent). a.events ++ es) c.whole);
  hidden = rw (add-one t.attempts) (retried-suc t.attempts a rest n c.hidden);
  single = λ v. cc;
}

none-IsClean : (visible : Bool) (todo : List Attempt) (e : Ending) → IsClean visible todo (ends e)
none-IsClean visible [] e = record { whole = refl; hidden = refl; single = λ v. omega arith }
none-IsClean visible (a ∷ rest) e = record {
  whole = refl;
  hidden = refl;
  single = λ v. omega arith;
}

later-IsClean :
    (b : Bool) (rest : List Attempt) (t : Transcript)
    → IsClean false rest t
    → IsClean false rest (if b then ends abort_error else t)
later-IsClean true rest t c = none-IsClean false rest abort_error
later-IsClean false rest t c = c

failure-IsClean :
    (cfg : RetryConfig) (index : ℕ) (visible : Bool) (a : Attempt) (rest : List Attempt)
    (f : Option Thrown) (later : Transcript)
    → IsClean (visible || any_visible a.events) rest later
    → IsClean visible
        (a ∷ rest)
        (retry_after_failure cfg index (visible || any_visible a.events) a f later)
unfolding retry_after_failure
failure-IsClean cfg index visible a rest none later c =
    stop-IsClean visible a rest completed_stream []
failure-IsClean cfg index visible a rest (some (foreign m)) later c =
    stop-IsClean visible a rest (threw (foreign m)) []
failure-IsClean cfg index true a rest (some (provider e)) later c =
    if_intro (IsClean true (a ∷ rest)) (a.aborted_at_failure || true) _ _
      (λ _. stop-IsClean true a rest (threw (provider e)) []) (λ n. absurd (ground arith))
failure-IsClean cfg index false a rest (some (provider e)) later c =
    if_intro (IsClean false (a ∷ rest))
      (a.aborted_at_failure
        || (any_visible a.events || (leb cfg.max_retries index || not (is_retryable cfg e))))
      _ _ (λ _. stop-IsClean false a rest (threw (provider e)) [])
      (λ n.
        let quiet : any_visible a.events ≡ false = ground arith in
        go_on-IsClean a rest (slept (delay_of cfg e index)) _ quiet (
          later-IsClean a.aborted_after_backoff rest later
            (subst (λ b. IsClean b rest later) quiet c)))

retry_from-IsClean :
    (cfg : RetryConfig) (index : ℕ) (visible : Bool) (todo : List Attempt)
    → IsClean visible todo (retry_from cfg index visible todo)
unfolding retry_from
retry_from-IsClean cfg index visible [] = none-IsClean visible [] unsettled
retry_from-IsClean cfg index visible (a ∷ rest) =
    if_intro (IsClean visible (a ∷ rest)) a.aborted_before _ _
      (λ _. none-IsClean visible (a ∷ rest) abort_error)
      (λ _.
        failure-IsClean cfg index visible a rest a.failure _
          (retry_from-IsClean cfg (index + 1) (visible || any_visible a.events) rest))

-- The consumer gets the events of the attempts made, in order, and none of the attempts that were
-- retried brought a visible one.
pub retry_stream_visible :
    (cfg : RetryConfig) (todo : List Attempt)
    → let t = retry_stream cfg todo in
      (t.yielded ≡ made t.attempts todo) × (any_visible (retried t.attempts todo) ≡ false)
unfolding retry_stream
retry_stream_visible cfg todo = let c = retry_from-IsClean cfg 0 false todo in (c.whole, c.hidden)

-- With the default codes, an http failure is retried exactly for the statuses 429, 500, 502, 503
-- and 529.
pub default_retryable_status :
    (status : ℕ) (m : String) (i : Option String) (after : Option ℕ)
    → is_retryable default_retry (from_status status m i after)
      ≡ (status == 429 || (status == 500 || (status == 502 || (status == 503 || status == 529))))
unfolding is_retryable from_status
default_retryable_status status m i after = ground arith
