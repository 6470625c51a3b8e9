-- ===== src/Commands/Topic.antt =====
-- src/commands.rs: `CommandHandler::set_channel_topic`.
pub mod Stored
use chatd.Base.{ℕ, none, some, ◌++◌, ◌==◌, ltb, if◌then◌else◌, length}
use chatd.Text.{Text, lit}
use chatd.Message.{Uuid, MessageType, ProblemCode, nil, new, sanitize_text_message}
use chatd.Client.{Client}
use chatd.Channel.{Channel, set_topic, sendto_all}
use chatd.Effect.{Env}
use chatd.Server.{get_channel_ref, put_channel}
use chatd.World.{World, emit, modify, refuse}
use chatd.Commands.Kick.{is_stranger}

-- From the call of `set_topic` on.
unfoldable pub store_topic : Client → Uuid → Channel → Text → World → World
store_topic me channel ch clean_topic w =
    let ch' = set_topic (if length clean_topic == 0 then none else some clean_topic) ch in
    emit
      (sendto_all
          (new
            (MessageType.message
              (lit "<i class=\"ichat-modechange\"> has changed the channel topic.</i>"))
            nil ch.id (some me.name))
          ch'
        ++ sendto_all (new (MessageType.topic clean_topic) nil ch.id none) ch')
      (modify (put_channel channel ch') w)

unfoldable pub set_channel_topic : Env → Client → Uuid → Text → ℕ → World → World
set_channel_topic e me channel topic max_len w = elim (get_channel_ref channel w.server) [
  | none ↦
      refuse me.id ProblemCode.channel_invalid (some channel)
        (lit "Cannot change topics of non-existent channels.") w
  | some ch ↦
      let clean_topic = sanitize_text_message topic in
      if is_stranger me ch
      then refuse me.id ProblemCode.permission_denied (some channel)
          (lit "You have no permission to change this channels topic.") w
      else if ltb max_len (length clean_topic)
      then refuse me.id ProblemCode.invalid_argument (some channel)
          (lit "Topics must be shorter than " ++ e.show_number max_len ++ lit " characters.") w
      else store_topic me channel ch clean_topic w
]
