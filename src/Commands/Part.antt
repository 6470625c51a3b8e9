-- ===== src/Commands/Part.antt =====
-- src/commands.rs: `CommandHandler::part`. The channel stays on the client's own list.
pub mod OwnList
use chatd.Base.{none, some, ◌&&◌, ◌||◌, not, if◌then◌else◌}
use chatd.Text.{lit}
use chatd.Message.{Uuid, MessageType, ProblemCode, unspecified, new}
use chatd.Client.{Client, is_agent, has_options}
use chatd.ClientOptions
use chatd.ChannelOptions
use chatd.Channel.{Channel, has, is_member, remove_member, broadcast_part}
use chatd.Effect.{Env, LogEntry}
use chatd.Server.{get_channel_ref}
use chatd.World.{World, emit, send, refuse, log_line, settle}

-- From `we are good to let them leave the channel` on.
unfoldable pub leave : Env → Client → Uuid → Channel → World → World
leave e me channel ch w =
    let rest = remove_member me.id ch in
    let destroyed = LogEntry.event e.now (lit "DESTROY") ch.name me.name me.ip (lit "") in
    let kept = LogEntry.event e.now (lit "PART") ch.name me.name me.ip (lit "") in
    settle channel rest (log_line ch.id destroyed rest) (log_line ch.id kept rest) (
      emit (broadcast_part me.id me.name me.ip rest)
        (send me.id (new (MessageType.part me.id channel unspecified) me.id channel none) w))

unfoldable pub part : Env → Client → Uuid → World → World
part e me channel w =
    if not (has_options ClientOptions.admin me) && not (has_options ClientOptions.part_channels me)
    then refuse me.id ProblemCode.permission_denied none (lit "You may not leave channels") w
    else elim (get_channel_ref channel w.server) [
      | none ↦ refuse me.id ProblemCode.channel_invalid none (lit "Invalid channel.") w
      | some ch ↦
          if not (is_member me.id ch)
          then refuse me.id ProblemCode.not_member none
              (lit "Cannot leave channels you are not a member of.") w
          else if has ChannelOptions.can_not_leave ch
              && (not (is_agent me) || not (has_options ClientOptions.admin me))
          then refuse me.id ProblemCode.permission_denied none
              (lit "You may not leave this channel.") w
          else leave e me channel ch w
    ]
