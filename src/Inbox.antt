-- ===== src/Inbox.antt =====
-- packages/agent-core/src/agents/notification/inbox.ts: the mailbox of host notifications.
pub mod Laws
pub mod Render
use ephemeral_agent.Common.{
  ℕ, suc, zero, Bool, true, false, Option, none, some, String, List, [], ◌∷◌, ◌++◌, map, length,
  set, opt_eq, is_empty, if◌then◌else◌, not, ◌||◌,
}
use mathlib.Core.Option
use ephemeral_agent.Waiters.{Waiters, no_waiters, wait_unless, wake_all}

pub record InboxEntry : Type 0 where
  pub message : String
  pub key : Option String

pub record NotificationInbox : Type 0 where
  pub entries : List InboxEntry
  pub wakers : Waiters

abbrev pub new : NotificationInbox
new = record { entries = []; wakers = no_waiters }

-- `findIndex((candidate) => candidate.key === entry.key)`; `none` is -1.
find_index : Option String → List InboxEntry → Option ℕ
find_index k [] = none
find_index k (e ∷ rest) =
    let later = Option.map suc (find_index k rest) in if opt_eq e.key k then some zero else later

pending_index : Option String → List InboxEntry → Option ℕ
unfolding find_index
pending_index none entries = none
pending_index (some k) entries = find_index (some k) entries

place : Option ℕ → InboxEntry → List InboxEntry → List InboxEntry
place none e entries = entries ++ e ∷ []
place (some i) e entries = set entries i e

-- Queue a message; a pending entry with the same key is replaced in place. Every publish wakes.
unfoldable pub publish : String → Option String → NotificationInbox → NotificationInbox
unfolding pending_index place
publish message key b = record {
  entries = place (pending_index key b.entries) (record { message = message; key = key }) b.entries;
  wakers = wake_all b.wakers;
}

unfoldable pub drain : NotificationInbox → NotificationInbox × List String
drain b =
    if is_empty b.entries
    then (b, [])
    else (record b { entries = [] }, map (λ e. e.message) b.entries)

unfoldable pub inbox_is_empty : NotificationInbox → Bool
inbox_is_empty b = is_empty b.entries

unfoldable pub count : NotificationInbox → ℕ
count b = length b.entries

unfoldable pub wait_for_next : ℕ → Bool → NotificationInbox → NotificationInbox
wait_for_next w aborted b = record b {
  wakers = wait_unless (not (is_empty b.entries) || aborted) w b.wakers;
}
