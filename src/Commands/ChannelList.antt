-- ===== src/Commands/ChannelList.antt =====
-- src/commands.rs: `CommandHandler::channel_list`.
use chatd.Base.{Bool, none, List, [], ◌∷◌, ◌&&◌, ◌||◌, not, if◌then◌else◌, unwrap_or}
use chatd.Text.{lit}
use chatd.Dict.{Dict}
use chatd.Message.{Uuid, MessageType, ChannelRow, nil, new}
use chatd.Client.{Client, is_agent}
use chatd.ChannelOptions
use chatd.Channel.{Channel, has, count_members}
use chatd.World.{World, send}

-- `invisible || secret || agentonly && !agent`: `&&` binds tighter, so agents miss the invisible
-- and the secret channels too.
unfoldable pub is_unlisted : Client → Channel → Bool
is_unlisted me ch =
    has ChannelOptions.invisible ch
    || has ChannelOptions.secret ch
    || has ChannelOptions.agent_only ch && not (is_agent me)

unfoldable pub row : Uuid → Channel → ChannelRow
row id ch = (id, ch.name, unwrap_or ch.topic (lit ""), count_members ch, ch.options)

unfoldable pub chan_vec : Client → Dict Channel → List ChannelRow
chan_vec me [] = []
chan_vec me ((id, ch) ∷ chs) =
    let rest = chan_vec me chs in if is_unlisted me ch then rest else row id ch ∷ rest

-- With no channels at all the source sends the empty list by an early return.
unfoldable pub channel_list : Client → World → World
channel_list me w =
    send me.id (new (MessageType.channel_list (chan_vec me w.server.channels)) nil nil none) w
