-- ===== src/Commands/Join.antt =====
-- src/commands.rs: `CommandHandler::join`.
use chatd.Base.{Bool, true, false, Option, none, some, [], ◌++◌, ◌&&◌, ◌||◌, not, if◌then◌else◌}
use chatd.Text.{Text, lit, is_match, is_uuid_v4}
use chatd.Message.{Uuid, ProblemCode}
use chatd.Client.{Client, is_agent, has_options, add_channel}
use chatd.ClientOptions
use chatd.ChannelOptions
use chatd.Channel.{
  Channel, Effects, has, has_invite, is_member, insert_member, announce, to_log, set_options,
}
use chatd.Channel
use chatd.Effect.{Env, LogEntry}
use chatd.Server.{Server, get_channel_ref, channel_name_to_uuid, put_client, put_channel}
use chatd.Server
use chatd.World.{World, Outcome, emit, modify, refuse}
use chatd.Commands.Lobby.{own_join, user_list, shows}

-- What the client is told of the channel that it has joined.
unfoldable pub tell : Client → Channel → Effects
tell c ch =
    if shows c ch
    then own_join c ch
      ++ (if not (has ChannelOptions.hidden_member_list ch) || is_agent c
          then user_list c ch
          else [])
    else []

-- From `client is allowed to join the channel at this point` on.
unfoldable pub admit : Env → Client → Uuid → Channel → World → World
unfolding tell
admit e me key ch w =
    let joined = insert_member me ch in
    let entry = LogEntry.event e.now (lit "JOIN") ch.name me.name me.ip (lit "") in
    modify (put_client me.id (add_channel ch.id ch.name me)) (
      modify (put_channel key joined)
        (emit (announce me ch ++ to_log entry joined ++ tell me joined) w))

unfoldable pub join_existing : Env → Client → Uuid → Channel → World → World
unfolding admit
join_existing e me key ch w =
    if is_member me.id ch
    then refuse me.id ProblemCode.already_member none
        (lit "You are already a member of that channel.") w
    else if has ChannelOptions.agent_only ch && not (is_agent me)
    then refuse me.id ProblemCode.permission_denied none (lit "Channel restricted to Agents.") w
    else if has ChannelOptions.invite_only ch
        && not (has_options ClientOptions.admin me)
        && not (has_invite ch me.id)
    then refuse me.id ProblemCode.permission_denied none (lit "Channel is invite only.") w
    else admit e me key ch w

-- From the call of `Channel::new` on.
unfoldable pub create : Env → Client → Text → World → World
create e me name w =
    let ch =
      set_options (ChannelOptions.or ChannelOptions.client_invites ChannelOptions.save_history)
        (Channel.new e.new_v4 name (some me.id) false) in
    let joined = insert_member me ch in
    let entry = LogEntry.event e.now (lit "CREATE CHANNEL") ch.name me.name me.ip (lit "") in
    modify (Server.add_channel joined) (
      modify (put_client me.id (add_channel ch.id ch.name me))
        (emit (announce me ch ++ own_join me joined ++ to_log entry joined) w))

unfoldable pub join_new : Env → Client → Text → World → World
unfolding create
join_new e me channel w =
    if not (has_options ClientOptions.create_channels me) && not (is_agent me)
    then refuse me.id ProblemCode.permission_denied none (lit "You may not create channels.") w
    else if is_uuid_v4 channel
    then refuse me.id ProblemCode.channel_invalid none (lit "Channel does not exist.") w
    else if not (is_match 3 50 channel)
    then refuse me.id ProblemCode.channel_name_bad none
        (lit "Channels may not contain non a-z0-9 characters.") w
    else create e me channel w

-- The channel that the command leads to, if there is one.
abbrev pub join_at : Env → Client → Text → Option Uuid → World → World
join_at e me channel none w = join_new e me channel w
join_at e me channel (some key) w = elim (get_channel_ref key w.server) [
  | none ↦ join_new e me channel w
  | some ch ↦ join_existing e me key ch w
]

-- `Uuid::from_str(&channel).unwrap()` panics on a text that is no `Uuid`.
unfoldable pub find_and_join : Env → Client → Text → Bool → World → Outcome
unfolding join_existing join_new
find_and_join e me channel true w = elim (e.parse_uuid channel) [
  | none ↦ Outcome.panicked w
  | some key ↦ Outcome.returned (join_at e me channel (some key) w)
]
find_and_join e me channel false w =
    Outcome.returned (join_at e me channel (channel_name_to_uuid e channel w.server) w)

unfoldable pub join : Env → Client → Text → Bool → World → Outcome
unfolding find_and_join
join e me channel is_uuid w =
    if not (has_options ClientOptions.admin me) && not (has_options ClientOptions.join_channels me)
    then Outcome.returned
        (refuse me.id ProblemCode.permission_denied none (lit "You may not create new channels") w)
    else find_and_join e me channel is_uuid w
