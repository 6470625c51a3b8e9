-- ===== src/Tests/Roster.antt =====
-- An agent who kicks a guest, leaves, and a newcomer who joins.
use chatd.Base.{true, ◌≡◌, ◌⊎◌, refl, none, some, [], ◌∷◌, if◌then◌else◌}
use chatd.Text.{lit}
use chatd.Dict.{lookup}
use chatd.Message.{MessageType}
use chatd.Config
use chatd.Client
use chatd.Client.{Client}
use chatd.Session.Dispatch.{post_auth}
use chatd.Roster.Entering.{post_auth-enters}
use chatd.World.{World, world_of}
use chatd.Commands.Kick.{kick}
use chatd.Commands.Part.{part}
use chatd.Commands.Join.{join_at}
use chatd.Session.Permission.{may_kick, may_part, may_join_at}
use chatd.Roster.{roster, withdraw, seat}
use chatd.Roster.Leaving.{kick-withdraw, part-withdraw}
use chatd.Roster.Joining.{destination, join_at-seat}
use chatd.Tests.{env, home, agent, guest, with_quiet_den}

abbrev peopled : World
peopled = record with_quiet_den {
  server = record with_quiet_den.server { clients = (7, guest) ∷ (9, agent) ∷ [] };
}

kick-withdraw_example : roster (kick agent 5 7 (lit "out") peopled).server 5 7 ≡ (
    if may_kick agent 5 7 peopled.server
    then withdraw 5 7 (roster peopled.server) 5 7
    else roster peopled.server 5 7)
kick-withdraw_example = kick-withdraw agent 5 7 (lit "out") peopled 5 7

part-withdraw_example : roster (part env agent 5 with_quiet_den).server 5 9 ≡ (
    if may_part agent 5 with_quiet_den.server
    then withdraw 5 9 (roster with_quiet_den.server) 5 9
    else roster with_quiet_den.server 5 9)
part-withdraw_example = part-withdraw env agent 5 with_quiet_den 5 9

abbrev newcomer : Client
newcomer = record guest { id = 11 }

seven_is_free : lookup env.new_v4 with_quiet_den.server.channels ≡ none
unfolding lookup
seven_is_free = refl

join_at-seat_example :
    roster (join_at env newcomer (lit "den") (some 5) with_quiet_den).server 5 11 ≡ (
      if may_join_at newcomer (lit "den") (some 5) with_quiet_den.server
      then seat
          (destination env (some 5) with_quiet_den.server)
          11
          (roster with_quiet_den.server)
          5
          11
      else roster with_quiet_den.server 5 11)
join_at-seat_example =
    join_at-seat env newcomer (lit "den") (some 5) with_quiet_den 5 11 seven_is_free

abbrev request : MessageType
request = MessageType.join (lit "den") home

newcomer_is_in :
    roster (world_of (post_auth env Config.default newcomer 0 request with_quiet_den)).server 5 11
    ≡ true
unfolding roster post_auth lit chatd.Commands.Join.join chatd.Commands.Join.find_and_join
    chatd.Commands.Join.join_existing chatd.Commands.Join.admit chatd.Commands.Join.tell
    chatd.Commands.Lobby.shows chatd.Commands.Lobby.own_join chatd.Commands.Lobby.user_list
    Client.has_options Client.is_agent chatd.ClientOptions.and Client.new
    chatd.Server.channel_name_to_uuid chatd.Server.find_lowercase chatd.Text.text_eq
    chatd.Channel.new chatd.Server.get_channel_ref chatd.Dict.lookup chatd.Dict.insert
    chatd.Channel.is_member chatd.Dict.contains chatd.Channel.has chatd.ChannelOptions.has_option
    chatd.ChannelOptions.and chatd.ChannelOptions.or chatd.Channel.announce
    chatd.Channel.broadcast_join chatd.Channel.hides_members chatd.Channel.sendto_agents
    chatd.Channel.sendto_nonagents chatd.Channel.sendto chatd.Channel.to_log
    chatd.Channel.insert_member chatd.Message.new chatd.Message.ip_eq chatd.Server.put_client
    chatd.Server.put_channel chatd.Client.add_channel
newcomer_is_in = refl

post_auth-enters_example : (roster with_quiet_den.server 5 11 ≡ true) ⊎ (11 ≡ newcomer.id)
post_auth-enters_example =
    post_auth-enters env newcomer with_quiet_den seven_is_free Config.default 0 request 5 11
      newcomer_is_in
