-- ===== src/Inbox/Render.antt =====
-- inbox.ts, `systemNotificationMessage`: a notification as a tagged user message.
use Prim.Native.String
use Prim.Native.String.{[], ◌∷◌}
use package.text.Mathlib.TextLemmas.{nil-append, cons-append}
use Prim.Native.Char.{code}
use ephemeral_agent.Common.{
  String, Bool, false, ◌||◌, ◌≡◌, refl, arith, ◌==◌, if◌then◌else◌, if_intro,
}
use mathlib.Core.List
use ephemeral_agent.Contracts.{JsonValue, Message, user, text, obj, field, end, str}

-- `replaceAll("<", "\\u003c")`.
unfoldable pub escape_tags : String → String
escape_tags [] = ""
escape_tags (c ∷ s) =
    let rest = escape_tags s in if code c == b'<' then String.◌++◌ "\\u003c" rest else c ∷ rest

-- `stringify` is the platform's `JSON.stringify`.
unfoldable pub system_notification_message : (JsonValue → String) → String → Message
unfolding escape_tags
system_notification_message stringify note = record {
  role = user;
  content =
      List.◌∷◌
        (text (
          String.◌++◌ "<system_notification>" (
            String.◌++◌ (escape_tags (stringify (obj (field "message" (str note) end))))
              "</system_notification>")))
        List.[];
}

-- Does a text hold an opening angle bracket?
abbrev pub has_tag : String → Bool
has_tag [] = false
has_tag (c ∷ s) = code c == b'<' || has_tag s

has_tag-append :
    (s t : String) → has_tag s ≡ false → has_tag t ≡ false → has_tag (String.◌++◌ s t) ≡ false
has_tag-append [] t hs ht = rw (nil-append t) ht
has_tag-append (c ∷ s) t hs ht = rw (cons-append c s t) (ground (arith, has_tag-append s t, ht, hs))

-- An escaped payload holds no opening angle bracket, whatever the host published.
pub escape_tags-has_tag : (s : String) → has_tag (escape_tags s) ≡ false
unfolding escape_tags
escape_tags-has_tag [] = refl
escape_tags-has_tag (c ∷ s) =
    if_intro (λ t. has_tag t ≡ false) (code c == b'<') _ _
      (λ _. has_tag-append "\\u003c" (escape_tags s) refl (escape_tags-has_tag s))
      (λ h. rw h (escape_tags-has_tag s))
