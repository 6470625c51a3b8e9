-- ===== src/Session/Dispatch.antt =====
-- src/main.rs: `handle_client_command`, and one message of the mpsc loop.
use chatd.Base.{Bool, none, some, ◌==◌, if◌then◌else◌, unwrap_or, length}
use chatd.Message.{Uuid, IpAddr, Message, MessageType, nil}
use chatd.Client.{Client, is_pending}
use chatd.Config.{Config}
use chatd.Effect.{Env}
use chatd.Server.{get_client_ref, put_client}
use chatd.World.{World, Outcome, modify}
use chatd.Commands.AuthAgent.{AuthFinder}
use chatd.Commands.Kick.{kick}
use chatd.Commands.Kill.{kill}
use chatd.Commands.Kline.{kline}
use chatd.Commands.Modes.{set_channel_modes}
use chatd.Commands.Topic.{set_channel_topic}
use chatd.Commands.ChannelList.{channel_list}
use chatd.Commands.Typing.{typing}
use chatd.Commands.Part.{part}
use chatd.Commands.Join.{join}
use chatd.Session.Login.{pre_auth}
use chatd.Session.Say.{say}

-- The commands of a client that has logged in.
unfoldable pub post_auth : Env → Config → Client → Uuid → MessageType → World → Outcome
post_auth e config me target (MessageType.set_channel_modes modes) w =
    Outcome.returned (set_channel_modes me target modes w)
post_auth e config me target (MessageType.topic topic) w =
    Outcome.returned (set_channel_topic e me target topic config.max_topic_length w)
post_auth e config me target MessageType.channels w = Outcome.returned (channel_list me w)
post_auth e config me target (MessageType.join channel ip) w =
    if length channel == 0
    then join e me (e.show_uuid target) Bool.true w
    else join e me channel Bool.false w
post_auth e config me target (MessageType.part id channel ip) w =
    Outcome.returned (part e me channel w)
post_auth e config me target (MessageType.kick channel userid reason) w =
    Outcome.returned (kick me channel userid reason w)
post_auth e config me target (MessageType.kill userid reason) w =
    Outcome.returned (kill e me (unwrap_or (e.parse_uuid userid) nil) reason w)
post_auth e config me target (MessageType.kline ip expires_sec reason) w =
    kline e me (IpAddr.v4 (unwrap_or (e.parse_ipv4 ip) 0)) reason expires_sec w
post_auth e config me target (MessageType.typing id channel) w =
    Outcome.returned (typing me channel w)
post_auth e config me target (MessageType.message text) w =
    Outcome.returned (say e me target text w)
post_auth e config me target _ w = Outcome.returned w

-- `update_last_action_time` and `update_last_ping_time`
abbrev pub touch : Env → Client → Client
touch e c = record c { last_action = e.now; last_ping = e.now }

unfoldable pub handle_client_command :
    Env → AuthFinder → Config → Client → Message → World → Outcome
handle_client_command e authfinder config my_client m w =
    let me = touch e my_client in
    let touched = modify (put_client me.id me) w in
    if is_pending me
    then Outcome.returned (pre_auth e authfinder config me m.type touched)
    else post_auth e config me m.target m.type touched

-- The loop takes the client from the map, and skips a message with no client.
unfoldable pub receive : Env → AuthFinder → Config → Message → World → Outcome
receive e authfinder config m w = elim (get_client_ref m.source w.server) [
  | none ↦ Outcome.returned w
  | some c ↦ handle_client_command e authfinder config c m w
]
