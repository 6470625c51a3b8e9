-- ===== src/Commands/Kick.antt =====
-- src/commands.rs: `CommandHandler::kick`.
use chatd.Base.{Bool, none, some, ◌==◌, ◌&&◌, not, if◌then◌else◌}
use chatd.Text.{Text, lit}
use chatd.Message.{Uuid, MessageType, ProblemCode, nil, new}
use chatd.Client.{Client, is_agent, remove_channel}
use chatd.Channel.{Channel, owner_or_nil, is_member, remove_member, sendto_all}
use chatd.Server.{put_client, put_channel, get_channel_ref, get_client_ref}
use chatd.World.{World, emit, modify, refuse}

-- The test that guards `kick`, `set_channel_modes` and `set_channel_topic`.
unfoldable pub is_stranger : Client → Channel → Bool
is_stranger me ch = not (owner_or_nil ch == me.id) && not (is_agent me)

-- From `target_name` on.
unfoldable pub expel : Uuid → Channel → Uuid → Client → Text → World → World
expel channel ch user target reason w = modify (put_client user (remove_channel channel target)) (
    modify (put_channel channel (remove_member user ch)) (
      emit
        (sendto_all (new (MessageType.kick channel user reason) nil channel (some target.name)) ch)
        w))

unfoldable pub kick : Client → Uuid → Uuid → Text → World → World
unfolding expel
kick me channel user reason w = elim (get_channel_ref channel w.server) [
  | none ↦
      refuse me.id ProblemCode.channel_invalid (some channel)
        (lit "Cannot kick from non-existent channels.") w
  | some ch ↦
      if is_stranger me ch
      then refuse me.id ProblemCode.permission_denied (some channel)
          (lit "Cannot kick from channels that do not belong to you.") w
      else if not (is_member user ch)
      then refuse me.id ProblemCode.not_member (some channel)
          (lit "User is not a member of that channel.") w
      else elim (get_client_ref user w.server) [
        | none ↦
            refuse me.id ProblemCode.not_member (some channel)
              (lit "User is not a member of that channel.") w
        | some target ↦ expel channel ch user target reason w
      ]
]
