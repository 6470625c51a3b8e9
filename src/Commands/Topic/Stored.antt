-- ===== src/Commands/Topic/Stored.antt =====
-- src/commands.rs: which topics `set_channel_topic` stores.
use chatd.Base.{
  ℕ, Bool, true, false, ◌≡◌, ◌∙◌, ap, ◌⊎◌, none, some, inl, inr, Option-cases, Bool-cases, ltb,
  ◌==◌, if◌then◌else◌, length,
}
use mathlib.Core.Path.{subst}
use chatd.Text.{Text}
use chatd.Dict.{Dict, lookup, lookup-insert_inv}
use chatd.Message.{Uuid, sanitize_text_message}
use chatd.Message.Sanitize.{occurs, sanitize_text_message-has_no_tag}
use chatd.Client.{Client}
use chatd.Channel.{Channel, set_topic}
use chatd.Effect.{Env}
use chatd.Server.{get_channel_ref, put_channel}
use chatd.World.{World}
use chatd.Commands.Kick.{is_stranger}
use chatd.Commands.Topic.{store_topic, set_channel_topic}

-- A text without `<` and `>` that is not too long.
unfoldable pub IsTopic : ℕ → Text → Type 0
IsTopic max_len t = (occurs 60 t ≡ false) × (occurs 62 t ≡ false) × (ltb max_len (length t) ≡ false)

-- Where `after` holds a channel with a topic, `before` has the same channel or the topic is one.
unfoldable pub KeepsTopics : ℕ → Dict Channel → Dict Channel → Type 0
KeepsTopics max_len before after =
    (j : Uuid) (ch : Channel) (t : Text)
    → lookup j after ≡ some ch
    → ch.topic ≡ some t
    → (lookup j before ≡ some ch) ⊎ IsTopic max_len t

unchanged : (max_len : ℕ) (d : Dict Channel) → KeepsTopics max_len d d
unfolding KeepsTopics
unchanged max_len d j ch t h g = inl h

clean-IsTopic :
    (max_len : ℕ) (topic : Text)
    → ltb max_len (length (sanitize_text_message topic)) ≡ false
    → IsTopic max_len (sanitize_text_message topic)
unfolding IsTopic
clean-IsTopic max_len topic short =
    let clean = sanitize_text_message-has_no_tag topic in (clean.0, clean.1, short)

chosen : (b : Bool) (s t : Text) → (if b then none else some s) ≡ some t → s ≡ t
chosen true s t h = cc
chosen false s t h = cc

store_topic-KeepsTopics :
    (me : Client) (k : Uuid) (ch : Channel) (s : Text) (w : World) (max_len : ℕ)
    → IsTopic max_len s
    → KeepsTopics max_len w.server.channels (store_topic me k ch s w).server.channels
unfolding store_topic put_channel set_topic KeepsTopics
store_topic-KeepsTopics me k ch s w max_len fine j x t h g =
    elim (lookup-insert_inv k j _ x w.server.channels h) [
      | inl (p, q) ↦ inr (
          subst (IsTopic max_len) (chosen (length s == 0) s t (ap (λ (c : Channel). c.topic) q ∙ g))
            fine)
      | inr (p, q) ↦ inl q
    ]

set_channel_topic-KeepsTopics :
    (e : Env) (me : Client) (k : Uuid) (topic : Text) (max_len : ℕ) (w : World)
    → KeepsTopics max_len w.server.channels
        (set_channel_topic e me k topic max_len w).server.channels
unfolding get_channel_ref set_channel_topic
set_channel_topic-KeepsTopics e me k topic max_len w =
    let same = unchanged max_len w.server.channels in
    elim (Option-cases (lookup k w.server.channels)) [
      | inl h ↦ rw (h, set_channel_topic) same
      | inr (ch, h) ↦ elim (Bool-cases (is_stranger me ch)) [
        | inl stranger ↦ rw (h, set_channel_topic, stranger) same
        | inr owner ↦ elim (Bool-cases (ltb max_len (length (sanitize_text_message topic)))) [
          | inl long ↦ rw (h, set_channel_topic, owner, long) same
          | inr short ↦
              rw (h, set_channel_topic, owner, short)
                (store_topic-KeepsTopics me k ch _ w max_len (clean-IsTopic max_len topic short))
        ]
      ]
    ]

-- A channel with a topic after `set_channel_topic`, whatever branch was taken, is either the
-- channel that stood under its key before, or its topic holds neither `<` (60) nor `>` (62) and
-- has at most `max_len` characters.
pub set_channel_topic_lem :
    (e : Env) (me : Client) (k : Uuid) (topic : Text) (max_len : ℕ) (w : World) (j : Uuid)
    (ch : Channel) (t : Text)
    → lookup j (set_channel_topic e me k topic max_len w).server.channels ≡ some ch
    → ch.topic ≡ some t
    → (lookup j w.server.channels ≡ some ch) ⊎ IsTopic max_len t
unfolding KeepsTopics
set_channel_topic_lem e me k topic max_len w = set_channel_topic-KeepsTopics e me k topic max_len w
