-- ===== src/Tests/Addresses.antt =====
-- A newcomer in a channel with an agent, who is shown the address; and what others get to see.
use chatd.Base.{true, false, ◌≡◌, refl}
use chatd.Text.{lit}
use chatd.Message.{MessageType}
use chatd.Config
use chatd.Client
use chatd.Client.{Client}
use chatd.World.{world_of}
use chatd.Session.Dispatch.{post_auth}
use chatd.Session.Discretion.{shows_address, agent_in}
use chatd.Session.Discretion.Joins.{HasAgent}
use chatd.Session.Discretion.Parts.{post_auth-shows_address}
use chatd.Base.{◌⊎◌, ◌||◌, not, ◌==◌, if◌then◌else◌}
use chatd.Dict.{lookup}
use chatd.ChannelOptions
use chatd.Client.{is_agent}
use chatd.Channel.{has}
use chatd.Commands.Typing.{typing}
use chatd.Commands.Typing.Delivery.{typing-sends_to}
use chatd.Session.Say.Hidden.{sends_to, some_member}
use chatd.Tests.{env, home, guest, with_quiet_den, quiet_den, quiet_den_found}

abbrev newcomer : Client
newcomer = record guest { id = 11 }

abbrev request : MessageType
request = MessageType.join (lit "den") home

nothing_yet : shows_address 9 with_quiet_den.effects ≡ false
unfolding shows_address
nothing_yet = refl

agent_sees :
    shows_address 9
      (world_of (post_auth env Config.default newcomer 0 request with_quiet_den)).effects
    ≡ true
unfolding shows_address post_auth lit chatd.Commands.Join.join chatd.Commands.Join.find_and_join
    chatd.Commands.Join.join_existing chatd.Commands.Join.admit chatd.Commands.Join.tell
    chatd.Commands.Lobby.shows chatd.Commands.Lobby.own_join chatd.Commands.Lobby.user_list
    Client.has_options Client.is_agent chatd.ClientOptions.and Client.new
    chatd.Server.channel_name_to_uuid chatd.Server.find_lowercase chatd.Text.text_eq
    chatd.Channel.new chatd.Server.get_channel_ref chatd.Dict.lookup chatd.Dict.insert
    chatd.Channel.is_member chatd.Dict.contains chatd.Channel.has chatd.ChannelOptions.has_option
    chatd.ChannelOptions.and chatd.ChannelOptions.or chatd.Channel.announce
    chatd.Channel.broadcast_join chatd.Channel.hides_members chatd.Channel.sendto_agents
    chatd.Channel.sendto_nonagents chatd.Channel.sendto chatd.Channel.to_log
    chatd.Channel.insert_member chatd.Message.new chatd.Message.ip_eq
    chatd.Session.Discretion.discloses
agent_sees = refl

post_auth-shows_address_example :
    HasAgent 9 with_quiet_den ⊎ (agent_in 9 with_quiet_den.server.clients ≡ true)
post_auth-shows_address_example =
    post_auth-shows_address env Config.default newcomer 0 request with_quiet_den 9 nothing_yet
      agent_sees

typing-sends_to_example : sends_to 9 (typing newcomer 5 with_quiet_den).effects ≡ (
    if has ChannelOptions.hidden_messages quiet_den
      || has ChannelOptions.hidden_member_list quiet_den
    then some_member is_agent 9 quiet_den.members
    else some_member (λ c. not (c.id == newcomer.id)) 9 quiet_den.members)
typing-sends_to_example = typing-sends_to newcomer 5 with_quiet_den quiet_den 9 quiet_den_found refl
