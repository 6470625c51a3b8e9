-- ===== src/Session/Departure.antt =====
-- src/main.rs: `handle_client_error`.
use chatd.Base.{some, [], ◌||◌, if◌then◌else◌}
use chatd.Text.{Text, lit}
use chatd.Message.{Uuid, MessageType, new}
use chatd.Client.{Client}
use chatd.ChannelOptions
use chatd.Channel.{Channel, has, remove_member, sendto_agents, sendto_all_butone, to_log}
use chatd.Effect.{Env, LogEntry}
use chatd.Server.{remove_client}
use chatd.World.{World, emit, modify, settle, for_channels}

-- The body of the loop, at a channel that is there.
unfoldable pub quit_channel : Env → Client → Text → Uuid → Text → Channel → World → World
quit_channel e c reason uid channel_name ch w =
    let rest = remove_member c.id ch in
    let m = new (MessageType.quit reason) c.id uid (some c.name) in
    let destroyed =
      LogEntry.event e.now (lit "DESTROY CHANNEL") channel_name c.name c.ip
        (lit "Client Error Disconnect") in
    settle uid rest (to_log destroyed rest) [] (
      emit
        (if has ChannelOptions.hidden_member_list rest || has ChannelOptions.invisible rest
          then sendto_agents m rest
          else sendto_all_butone c.id m rest)
        w)

unfoldable pub handle_client_error : Env → Client → Text → World → World
handle_client_error e c reason w =
    modify (remove_client c.id) (for_channels (quit_channel e c reason) c.channels w)
