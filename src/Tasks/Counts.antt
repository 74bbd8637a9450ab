-- ===== src/Tasks/Counts.antt =====
-- How the operations on the registry's lists change the counts of an id or a tag.
use ephemeral_agent.Common.{
  ℕ, ◌+◌, ◌-◌, ◌≤◌, String, ◌≡◌, refl, Bool, true, false, not, ◌&&◌, none, some, List, [], ◌∷◌,
  ◌++◌, arith, eq_iff, str_eq, one_if, length, select, find,
}
use ephemeral_agent.Tasks.State.{
  BackgroundTaskOutcome, Tag, LifecycleEvent, task_registered, task_settled, TaskEntry,
  Continuation,
}
use ephemeral_agent.Tasks.{
  id_of, same_tag, has_id, map_set, map_delete, mark_settling, awaits, drop_first,
}

abbrev pub present : String → List TaskEntry → ℕ
present i es = length (select (has_id i) es)

-- Entries with id `i` that are not settling.
abbrev pub is_open : String → TaskEntry → Bool
is_open i e = has_id i e && not e.settling

abbrev pub open_count : String → List TaskEntry → ℕ
open_count i es = length (select (is_open i) es)

abbrev pub tagged : Tag → List TaskEntry → ℕ
tagged t es = length (select (same_tag t) es)

-- Continuations of task `i`, and those that have not reached its handler.
abbrev pub owns : String → Continuation → Bool
owns i c = has_id i c.entry

abbrev pub flight : String → List Continuation → ℕ
flight i cs = length (select (owns i) cs)

abbrev pub tearing : String → List Continuation → ℕ
tearing i cs = length (select (awaits i true) cs)

abbrev pub occurrences : String → List String → ℕ
occurrences i js = length (select (str_eq i) js)

abbrev pub is_registration : String → LifecycleEvent → Bool
is_registration i (task_registered row) = str_eq row.task_id i
is_registration i (task_settled j t title o err) = false

abbrev pub is_settlement : String → LifecycleEvent → Bool
is_settlement i (task_registered row) = false
is_settlement i (task_settled j t title o err) = str_eq j i

abbrev pub is_any_settlement : LifecycleEvent → Bool
is_any_settlement (task_registered row) = false
is_any_settlement (task_settled j t title o err) = true

abbrev pub registrations : String → List LifecycleEvent → ℕ
registrations i evs = length (select (is_registration i) evs)

abbrev pub settlements : String → List LifecycleEvent → ℕ
settlements i evs = length (select (is_settlement i) evs)

abbrev pub all_settlements : List LifecycleEvent → ℕ
all_settlements evs = length (select is_any_settlement evs)

abbrev pub handler_calls : String → List (String × BackgroundTaskOutcome) → ℕ
handler_calls i hs = length (select (λ h. str_eq h.0 i) hs)

pub length-select-last {ℓ} :
    {A : Type ℓ} (p : A → Bool) (xs : List A) (x : A)
    → length (select p (xs ++ x ∷ [])) ≡ length (select p xs) + one_if (p x)
length-select-last p [] x = ground arith
length-select-last p (y ∷ xs) x = ground (arith, length-select-last p xs x)

pub present-map_set :
    (j : String) (e : TaskEntry) (es : List TaskEntry)
    → present (id_of e) es ≡ 0
    → map_set e es ≡ es ++ e ∷ []
unfolding map_set
present-map_set j e [] h = refl
present-map_set j e (f ∷ es) h = ground (arith, present-map_set j e es)

pub present-map_delete :
    (i j : String) (es : List TaskEntry)
    → present j (map_delete i es) ≡ present j es - one_if (str_eq i j)
unfolding map_delete
present-map_delete i j [] = ground arith
present-map_delete i j (f ∷ es) =
    ground (arith, present-map_delete i j es, eq_iff i j, eq_iff (id_of f) i, eq_iff (id_of f) j)

pub open_count-map_delete :
    (i j : String) (es : List TaskEntry)
    → open_count i es ≡ 0
    → open_count j (map_delete i es) ≡ open_count j es
unfolding map_delete
open_count-map_delete i j [] h = refl
open_count-map_delete i j (f ∷ es) h =
    ground (arith, open_count-map_delete i j es, eq_iff (id_of f) i, eq_iff (id_of f) j, eq_iff i j)

pub tagged-map_delete :
    (i : String) (t : Tag) (es : List TaskEntry) → tagged t (map_delete i es) ≤ tagged t es
unfolding map_delete
tagged-map_delete i t [] = omega arith
tagged-map_delete i t (f ∷ es) = ground (arith, tagged-map_delete i t es)

pub present-mark_settling :
    (i j : String) (es : List TaskEntry) → present j (mark_settling i es) ≡ present j es
unfolding mark_settling
present-mark_settling i j [] = refl
present-mark_settling i j (f ∷ es) = ground (arith, present-mark_settling i j es)

pub tagged-mark_settling :
    (i : String) (t : Tag) (es : List TaskEntry) → tagged t (mark_settling i es) ≡ tagged t es
unfolding mark_settling
tagged-mark_settling i t [] = refl
tagged-mark_settling i t (f ∷ es) = ground (arith, tagged-mark_settling i t es)

pub open_count-mark_settling :
    (i j : String) (e : TaskEntry) (es : List TaskEntry)
    → find (has_id i) es ≡ some e
    → e.settling ≡ false
    → open_count j (mark_settling i es) + one_if (str_eq i j) ≡ open_count j es
unfolding mark_settling
open_count-mark_settling i j e [] h o = cc
open_count-mark_settling i j e (f ∷ es) h o =
    ground
      (arith, open_count-mark_settling i j e es, eq_iff (id_of f) i, eq_iff (id_of f) j, eq_iff i j)

pub flight-drop_first :
    (p : Continuation → Bool) (c : Continuation) (j : String) (cs : List Continuation)
    → find p cs ≡ some c
    → flight j (drop_first p cs) + one_if (owns j c) ≡ flight j cs
unfolding drop_first
flight-drop_first p c j [] h = cc
flight-drop_first p c j (d ∷ cs) h = ground (arith, flight-drop_first p c j cs)

pub tearing-drop_first :
    (p : Continuation → Bool) (c : Continuation) (j : String) (cs : List Continuation)
    → find p cs ≡ some c
    → tearing j (drop_first p cs) + one_if (awaits j true c) ≡ tearing j cs
unfolding drop_first
tearing-drop_first p c j [] h = cc
tearing-drop_first p c j (d ∷ cs) h = ground (arith, tearing-drop_first p c j cs)

pub find-holds {ℓ} :
    {A : Type ℓ} (p : A → Bool) (xs : List A) (x : A) → find p xs ≡ some x → p x ≡ true
find-holds p [] x h = cc
find-holds p (y ∷ xs) x h = ground (arith, find-holds p xs x)

pub find-none {ℓ} :
    {A : Type ℓ} (p : A → Bool) (xs : List A) → find p xs ≡ none → length (select p xs) ≡ 0
find-none p [] h = refl
find-none p (y ∷ xs) h = ground (arith, find-none p xs)
