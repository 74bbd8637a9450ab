-- ===== src/Waiters.antt =====
-- The waker sets behind the three level-triggered waits of a run (`#wakers` of the inbox and of
-- the task supervisor, `#steerWakers` of the handle). A pending promise is a number; `resolved`
-- lists the promises that have been resolved, in that order.
use ephemeral_agent.Common.{
  ℕ, ◌≡◌, sym, ◌∙◌, Bool, true, false, ◌||◌, List, [], ◌∷◌, ◌++◌, arith, ◌==◌, ==_refl,
  if◌then◌else◌, append-nil, append_assoc,
}

-- `listening` are the waits whose closure is a listener of their abort signal.
pub record Waiters : Type 0 where
  pub waiting : List ℕ
  pub listening : List ℕ
  pub resolved : List ℕ

abbrev pub no_waiters : Waiters
no_waiters = record { waiting = []; listening = []; resolved = [] }

-- `Set.delete`, and `removeEventListener`.
pub delete : ℕ → List ℕ → List ℕ
delete w [] = []
delete w (v ∷ vs) = if v == w then vs else v ∷ delete w vs

unfoldable pub contains : ℕ → List ℕ → Bool
contains w [] = false
contains w (v ∷ vs) = let rest = contains w vs in if v == w then true else rest

-- One `wake` closure: it leaves the set, stops listening and resolves its promise.
unfoldable pub wake_one : ℕ → Waiters → Waiters
unfolding delete
wake_one w ws = record {
  waiting = delete w ws.waiting;
  listening = delete w ws.listening;
  resolved = ws.resolved ++ w ∷ [];
}

wake_each : List ℕ → Waiters → Waiters
unfolding wake_one
wake_each [] ws = ws
wake_each (w ∷ rest) ws = wake_each rest (wake_one w ws)

-- `for (const wake of [...this.#wakers]) wake()`: the loop runs over a copy of the set.
unfoldable pub wake_all : Waiters → Waiters
unfolding wake_each
wake_all ws = wake_each ws.waiting ws

-- A wait on a signal: resolved at once if its condition holds or its signal has aborted, else
-- registered in the set and as a listener of the signal.
unfoldable pub wait_unless : Bool → ℕ → Waiters → Waiters
wait_unless ready w ws =
    if ready
    then record ws { resolved = ws.resolved ++ w ∷ [] }
    else record ws { waiting = ws.waiting ++ w ∷ []; listening = ws.listening ++ w ∷ [] }

-- The wait of a stream's consumer, which listens to no signal.
unfoldable pub wait_plain : ℕ → Waiters → Waiters
wait_plain w ws = record ws { waiting = ws.waiting ++ w ∷ [] }

-- The abort event of the signal of every listening wait; a signal that has aborted fires no more.
unfoldable pub fire_abort : Bool → Waiters → Waiters
unfolding wake_each
fire_abort true ws = ws
fire_abort false ws = wake_each ws.listening ws

-- Waking resolves every wait woken once, in that order.
wake_each_lem : (vs : List ℕ) (ws : Waiters) → (wake_each vs ws).resolved ≡ ws.resolved ++ vs
unfolding wake_each
wake_each_lem [] ws = sym (append-nil ws.resolved)
wake_each_lem (v ∷ vs) ws = wake_each_lem vs (wake_one v ws) ∙ append_assoc ws.resolved (v ∷ []) vs

pub contains-append_left :
    (w : ℕ) (us vs : List ℕ) → contains w us ≡ true → contains w (us ++ vs) ≡ true
unfolding contains
contains-append_left w [] vs h = cc
contains-append_left w (u ∷ us) vs h = ground (arith, contains-append_left w us vs)

pub contains-append_right :
    (w : ℕ) (us vs : List ℕ) → contains w vs ≡ true → contains w (us ++ vs) ≡ true
unfolding contains
contains-append_right w [] vs h = h
contains-append_right w (u ∷ us) vs h = ground (arith, contains-append_right w us vs h)

pub contains-last : (w : ℕ) (us : List ℕ) → contains w (us ++ w ∷ []) ≡ true
unfolding contains
contains-last w us = contains-append_right w us (w ∷ []) (rw (==_refl w))

-- A wait is never lost: once the set is woken after it began, its promise is resolved.
pub wake_all-wait_unless :
    (ready : Bool) (w : ℕ) (ws : Waiters)
    → contains w (wake_all (wait_unless ready w ws)).resolved ≡ true
unfolding wait_unless wake_all
wake_all-wait_unless true w ws =
    rw (wake_each_lem ws.waiting (wait_unless true w ws))
      (contains-append_left w (ws.resolved ++ w ∷ []) ws.waiting (contains-last w ws.resolved))
wake_all-wait_unless false w ws =
    rw (wake_each_lem (ws.waiting ++ w ∷ []) (wait_unless false w ws))
      (contains-append_right w ws.resolved (ws.waiting ++ w ∷ []) (contains-last w ws.waiting))

-- Nor by an abort, whether it comes before the wait or after it.
pub fire_abort-wait_unless :
    (ready aborted : Bool) (w : ℕ) (ws : Waiters)
    → contains w (fire_abort aborted (wait_unless (ready || aborted) w ws)).resolved ≡ true
unfolding wait_unless fire_abort
fire_abort-wait_unless true true w ws = contains-last w ws.resolved
fire_abort-wait_unless false true w ws = contains-last w ws.resolved
fire_abort-wait_unless true false w ws =
    rw (wake_each_lem ws.listening (wait_unless true w ws))
      (contains-append_left w (ws.resolved ++ w ∷ []) ws.listening (contains-last w ws.resolved))
fire_abort-wait_unless false false w ws =
    rw (wake_each_lem (ws.listening ++ w ∷ []) (wait_unless false w ws))
      (contains-append_right w ws.resolved (ws.listening ++ w ∷ []) (contains-last w ws.listening))
