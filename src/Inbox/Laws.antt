-- ===== src/Inbox/Laws.antt =====
-- The inbox against its contract: an ordered queue that coalesces by key.
use ephemeral_agent.Common.{
  ℕ, suc, ◌≤◌, String, ◌≡◌, refl, ap, ◌∙◌, inl, inr, Bool, true, not, ◌&&◌, ◌||◌, Option, none,
  some, List, [], ◌∷◌, map, arith, eq_iff, str_eq, ◌==◌, if◌then◌else◌, Bool-cases, Option-cases,
  opt_eq, is_some, length, is_empty, select, find,
}
use mathlib.Core.Option
use ephemeral_agent.Inbox.{
  InboxEntry, NotificationInbox, find_index, place, publish, drain, inbox_is_empty, count,
  wait_for_next,
}
use ephemeral_agent.Waiters.{contains, wake_all-wait_unless}

-- The contract of one publish: an entry without a key goes last; one with a key takes the place of
-- the first pending entry with that key, if there is one.
abbrev pub same_key : InboxEntry → InboxEntry → Bool
same_key e f = is_some e.key && opt_eq f.key e.key

abbrev pub coalesce : InboxEntry → List InboxEntry → List InboxEntry
coalesce e [] = e ∷ []
coalesce e (f ∷ rest) = if same_key e f then e ∷ rest else f ∷ coalesce e rest

place-suc :
    (o : Option ℕ) (e f : InboxEntry) (rest : List InboxEntry)
    → place (Option.map suc o) e (f ∷ rest) ≡ f ∷ place o e rest
unfolding place
place-suc none e f rest = refl
place-suc (some i) e f rest = refl

place-none :
    (m : String) (es : List InboxEntry)
    → place none (record { message = m; key = none }) es
      ≡ coalesce (record { message = m; key = none }) es
unfolding place
place-none m [] = refl
place-none m (e ∷ es) = ap (◌∷◌ e) (place-none m es)

place-some :
    (m k : String) (es : List InboxEntry)
    → place (find_index (some k) es) (record { message = m; key = some k }) es
      ≡ coalesce (record { message = m; key = some k }) es
unfolding find_index
place-some m k [] = unfold place in refl
place-some m k (e ∷ es) = elim (Bool-cases (opt_eq e.key (some k))) [
  | inl h ↦ rw h (unfold place in refl)
  | inr h ↦ rw h (
      place-suc (find_index (some k) es) (record { message = m; key = some k }) e es
      ∙ ap (◌∷◌ e) (place-some m k es))
]

-- The index-based publish is the coalescing queue.
pub publish-coalesce :
    (m : String) (k : Option String) (b : NotificationInbox)
    → (publish m k b).entries ≡ coalesce (record { message = m; key = k }) b.entries
unfolding publish
publish-coalesce m none b = place-none m b.entries
publish-coalesce m (some k) b = place-some m k b.entries

-- How many entries with a given key are pending, and the message of the first.
abbrev pub has_key : String → InboxEntry → Bool
has_key k e = opt_eq e.key (some k)

abbrev pub pending : String → List InboxEntry → ℕ
pending k es = length (select (has_key k) es)

abbrev pub message_of : String → List InboxEntry → Option String
message_of k es = Option.map (λ e. e.message) (find (has_key k) es)

-- At most one entry is pending for a key.
abbrev pub HasUniqueKeys : NotificationInbox → Type 0
HasUniqueKeys b = (k : String) → pending k b.entries ≤ 1

pending-coalesce :
    (m k j : String) (es : List InboxEntry)
    → pending j (coalesce (record { message = m; key = some k }) es)
      ≡ (if str_eq k j && (pending j es == 0) then 1 else pending j es)
pending-coalesce m k j [] = ground (arith, eq_iff k j)
pending-coalesce m k j (e ∷ es) = elim (Option-cases e.key) [
  | inl h ↦ ground (arith, pending-coalesce m k j es)
  | inr (i, h) ↦ ground (arith, pending-coalesce m k j es, eq_iff k j, eq_iff i k, eq_iff i j)
]

message_of-coalesce :
    (m k j : String) (es : List InboxEntry)
    → message_of j (coalesce (record { message = m; key = some k }) es)
      ≡ (if str_eq k j then some m else message_of j es)
message_of-coalesce m k j [] = ground (arith, eq_iff k j)
message_of-coalesce m k j (e ∷ es) = elim (Option-cases e.key) [
  | inl h ↦ ground (arith, message_of-coalesce m k j es)
  | inr (i, h) ↦ ground (arith, message_of-coalesce m k j es, eq_iff k j, eq_iff i k, eq_iff i j)
]

pending-unkeyed :
    (m j : String) (es : List InboxEntry)
    → pending j (coalesce (record { message = m; key = none }) es) ≡ pending j es
pending-unkeyed m j [] = refl
pending-unkeyed m j (e ∷ es) = ground (arith, pending-unkeyed m j es)

-- Publishing keeps at most one pending entry for each key, whatever message and key are published.
pub publish-HasUniqueKeys :
    (m : String) (k : Option String) (b : NotificationInbox)
    → HasUniqueKeys b
    → HasUniqueKeys (publish m k b)
publish-HasUniqueKeys m none b h j =
    rw (publish-coalesce m none b) (rw (pending-unkeyed m j b.entries) (h j))
publish-HasUniqueKeys m (some k) b h j =
    rw (publish-coalesce m (some k) b) (rw (pending-coalesce m k j b.entries) (ground (arith, h j)))

-- After a keyed publish its key has the new message, and every other key the message it had.
pub message_of-publish :
    (m k j : String) (b : NotificationInbox)
    → message_of j (publish m (some k) b).entries
      ≡ (if str_eq k j then some m else message_of j b.entries)
message_of-publish m k j b =
    rw (publish-coalesce m (some k) b) (message_of-coalesce m k j b.entries)

-- A wait that began before a publish is resolved by it, registered or not.
pub publish-wait_for_next :
    (m : String) (k : Option String) (w : ℕ) (aborted : Bool) (b : NotificationInbox)
    → contains w (publish m k (wait_for_next w aborted b)).wakers.resolved ≡ true
unfolding publish wait_for_next
publish-wait_for_next m k w aborted b =
    wake_all-wait_unless (not (is_empty b.entries) || aborted) w b.wakers

-- A drain hands over every pending message in queue order and leaves the mailbox empty.
pub drain_lem :
    (b : NotificationInbox)
    → ((drain b).1 ≡ map (λ e. e.message) b.entries)
      × (inbox_is_empty (drain b).0 ≡ true)
      × (count (drain b).0 ≡ 0)
unfolding drain inbox_is_empty count
drain_lem b = ground arith
