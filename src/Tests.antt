-- ===== src/Tests.antt =====
-- Concrete runs of the model, at which the theorems with hypotheses apply.
mod Standing
mod Bans
mod Auth
mod Disk
mod Rounds
mod Addresses
mod Roster
use chatd.Base.{
  true, false, ◌≡◌, refl, none, some, List, [], ◌∷◌, ok, ◌==◌, ◌||◌, if◌then◌else◌, ltb, length,
}
use chatd.Text.{lit, replace}
use chatd.Dict.{lookup, insert}
use chatd.Message.{IpAddr, ip_eq, MessageType, nil, new, sanitize_text_message}
use chatd.ClientOptions
use chatd.Client
use chatd.Client.{Client, ClientType, ClientStatus, is_agent, has_options, is_pending}
use chatd.Channel.{Channel}
use chatd.Config
use chatd.Config.{Config}
use chatd.Effect.{Env}
use chatd.Server
use chatd.Bits.{bit}
use chatd.ChannelOptions.{get_options_from_u64}
use chatd.ChannelOptions.Laws.{get_options_from_u64-bit}
use chatd.Commands.Modes.{change_modes}
use chatd.Commands.Modes.Laws.{change_modes-bit}
use chatd.Message.Sanitize.{occurs, sanitize_text_message-has_no_tag}
use chatd.Channel
use chatd.Server.{
  Server, ban_exists, add_ban, remove_ban, put_client, add_client, create_default_channels,
}
use chatd.Server.Bans.{remove_ban-add_ban}
use chatd.World.{World}
use chatd.Commands.AuthAgent.{AuthFinder}
use chatd.Commands.Kill.{kill}
use chatd.Base.{◌^◌, map, unwrap_or, arith}
use chatd.World.{modify}
use chatd.Message.{Message}
use chatd.Commands.Part.{part}
use chatd.Commands.Part.OwnList.{part-keeps_clients}
use chatd.Commands.Topic.{set_channel_topic, store_topic}
use chatd.Commands.Topic.Stored.{IsTopic, set_channel_topic_lem}
use chatd.Commands.Kick.{is_stranger}
use chatd.Base.{◌⊎◌}
use chatd.Server.{get_channel_ref}
use chatd.Channel.{Channel, set_topic, owner_or_nil}
use chatd.ChannelOptions
use chatd.Base.{not}
use chatd.Channel.{has, is_member}
use chatd.Session.Say.{say}
use chatd.Session.Say.Hidden.{sends_to, some_member, say-sends_to}
use chatd.Session.Dispatch.{touch}
use chatd.Session.Outage.{without_commands, kline-halts}
use chatd.Session.Machine.{Machine, Event, run, step, accept, open_client, waits, take_out}
use chatd.Coherence.{IsCoherent}
use chatd.Coherence.Maps.{IsAbsent}
use chatd.Coherence.Killed.{kill-removes}
use chatd.Coherence.Run.{start, run-IsCoherent}

abbrev env : Env
env = record {
  now = 1000;
  new_v4 = 7;
  guest_number = 42;
  write_fails = λ u. false;
  to_lowercase = λ s. s;
  show_number = λ n. [];
  show_ip = λ ip. [];
  parse_ipv4 = λ s. none;
  show_uuid = λ u. [];
  parse_uuid = λ s. none;
}

abbrev nobody : AuthFinder
nobody = record { by_username_password = λ user password. none }

abbrev home : IpAddr
home = IpAddr.v4 16

-- The server before any connection.
abbrev beginning : Machine
beginning = start 1 2 3 [] [] [] [] Config.default

-- Someone connects, sends a guest login, asks for a channel, and a ping round follows.
abbrev visit : List (Env × Event)
visit =
    (env, Event.connects home)
    ∷ (env, Event.opens home)
    ∷ (env, Event.commands (new (MessageType.auth_guest none) 7 nil none))
    ∷ (env, Event.commands (new (MessageType.join (lit "den") home) 7 nil none))
    ∷ (env, Event.wakes)
    ∷ []

fresh_start : lookup 7 beginning.world.server.clients ≡ none
unfolding Server.new create_default_channels Server.add_lobby Server.add_channel Server.put_channel
    Config.default lookup
fresh_start = refl

run-IsCoherent_example : IsCoherent (run nobody Config.default visit beginning).world.server
unfolding step accept create_default_channels Config.default ban_exists Server.new chatd.Ban.exists
run-IsCoherent_example =
    run-IsCoherent nobody Config.default 1 2 3 [] [] [] [] visit
      (tt, (fresh_start, (tt, (tt, (tt, tt)))))

abbrev empty_server : Server
empty_server = beginning.world.server

not_banned : ban_exists home empty_server ≡ false
unfolding Server.new create_default_channels Server.add_lobby Server.add_channel Server.put_channel
    Config.default ban_exists chatd.Ban.exists
not_banned = refl

remove_ban-add_ban_example :
    (s' : Server) × (add_ban 1000 home (lit "spam") 4600 (lit "root") empty_server ≡ ok s')
    × (ban_exists home s' ≡ true)
    × (remove_ban home s' ≡ ok empty_server)
remove_ban-add_ban_example =
    remove_ban-add_ban 1000 home (lit "spam") 4600 (lit "root") empty_server not_banned

-- The same server once someone has connected, and an agent who kills that connection.
abbrev arrival : List (Env × Event)
arrival = (env, Event.connects home) ∷ (env, Event.opens home) ∷ []

abbrev one_guest : World
one_guest = (run nobody Config.default arrival beginning).world

abbrev guest : Client
guest = Client.new 7 (lit "Guest-") home 1000

abbrev agent : Client
agent = record guest { id = 9; type = ClientType.agent; status = ClientStatus.connected }

one_guest-IsCoherent : IsCoherent one_guest.server
unfolding step accept create_default_channels Config.default ban_exists Server.new chatd.Ban.exists
one_guest-IsCoherent =
    run-IsCoherent nobody Config.default 1 2 3 [] [] [] [] arrival (tt, (fresh_start, tt))

guest_found : lookup 7 one_guest.server.clients ≡ some guest
unfolding run step accept open_client waits take_out ip_eq Server.new create_default_channels
    Server.add_lobby Server.add_channel Server.put_channel Config.default lookup ban_exists
    chatd.Ban.exists add_client Client.new insert lit
guest_found = refl

agent_lem : is_agent agent ≡ true
unfolding is_agent
agent_lem = refl

guest_is_no_admin : has_options ClientOptions.admin guest ≡ false
unfolding has_options Client.new ClientOptions.and
guest_is_no_admin = refl

reason_is_short : ltb 255 (length (sanitize_text_message (lit "<spam>"))) ≡ false
unfolding sanitize_text_message lit replace
reason_is_short = refl

kill-removes_example :
    (lookup 7 (kill env agent 7 (lit "<spam>") one_guest).server.clients ≡ none)
    × IsAbsent 7 (kill env agent 7 (lit "<spam>") one_guest).server
kill-removes_example =
    kill-removes env agent 7 guest (lit "<spam>") one_guest one_guest-IsCoherent agent_lem
      guest_found guest_is_no_admin reason_is_short

change_modes-bit_example :
    bit 11 (change_modes guest 2049 (Channel.new 5 (lit "den") none false)).options ≡ (
      if is_agent guest
      then if ltb 11 12 then bit 11 2049 else 0
      else if 2 == 11 || 11 == 11
      then bit 11 2049
      else bit 11 (Channel.new 5 (lit "den") none false).options)
change_modes-bit_example = change_modes-bit guest 2049 11 (Channel.new 5 (lit "den") none false)

sanitize_text_message-has_no_tag_example :
    (occurs 60 (sanitize_text_message (lit "<b>hi</b>")) ≡ false)
    × (occurs 62 (sanitize_text_message (lit "<b>hi</b>")) ≡ false)
sanitize_text_message-has_no_tag_example = sanitize_text_message-has_no_tag (lit "<b>hi</b>")

get_options_from_u64-bit_example :
    bit 12 (get_options_from_u64 4097) ≡ (if ltb 12 12 then bit 12 4097 else 0)
get_options_from_u64-bit_example = get_options_from_u64-bit 4097 12

-- An agent's ban of an address for 2 ^ 63 seconds, and a guest's request after it.
abbrev with_agent : World
with_agent = modify (put_client 9 agent) beginning.world

agent_found : lookup 9 with_agent.server.clients ≡ some agent
unfolding Server.new create_default_channels Server.add_lobby Server.add_channel Server.put_channel
    put_client Config.default Client.new lookup insert
agent_found = refl

agent_is_ready : is_pending (touch env agent) ≡ false
unfolding is_pending
agent_is_ready = refl

agent_touched : is_agent (touch env agent) ≡ true
unfolding is_agent
agent_touched = refl

still_free :
    ban_exists (IpAddr.v4 (unwrap_or (env.parse_ipv4 (lit "1.2.3.4")) 0)) with_agent.server ≡ false
unfolding Server.new create_default_channels Server.add_lobby Server.add_channel Server.put_channel
    put_client Config.default ban_exists chatd.Ban.exists
still_free = refl

abbrev later : List (Env × Event)
later =
    (env, Event.commands (new (MessageType.join (lit "den") home) 9 nil none))
    ∷ (env, Event.wakes)
    ∷ []

abbrev reader : Machine
reader = record beginning { world = with_agent }

kline-halts_example :
    run nobody Config.default
      ((
        env,
        Event.commands (new (MessageType.kline (lit "1.2.3.4") (2 ^ 63) (lit "spam")) 9 nil none),
      )
        ∷ later)
      reader
    ≡ run nobody Config.default (without_commands later) (record reader {
      world = modify (put_client 9 (touch env agent)) with_agent;
      reading = false;
    })
kline-halts_example =
    kline-halts nobody Config.default env agent 9 (lit "1.2.3.4") (2 ^ 63) (lit "spam") reader later
      refl agent_found agent_is_ready agent_touched still_free (omega arith)

part-keeps_clients_example :
    (part env agent 1 with_agent).server.clients ≡ with_agent.server.clients
part-keeps_clients_example = part-keeps_clients env agent 1 with_agent

-- A server with one channel, whose topic an agent sets.
abbrev pub den : Channel
den = Channel.new 5 (lit "den") none false

abbrev with_den : World
with_den = record beginning.world {
  server = record beginning.world.server { channels = (5, den) ∷ [] };
}

abbrev renamed_den : Channel
renamed_den = record den { topic = some (lit "&lt;b&gt;") }

den_renamed :
    lookup 5 (set_channel_topic env agent 5 (lit "<b>") 128 with_den).server.channels
    ≡ some renamed_den
unfolding set_channel_topic store_topic get_channel_ref lookup insert is_stranger is_agent
    owner_or_nil sanitize_text_message replace lit Server.put_channel set_topic Channel.new
den_renamed = refl

set_channel_topic_lem_example :
    (lookup 5 with_den.server.channels ≡ some renamed_den) ⊎ IsTopic 128 (lit "&lt;b&gt;")
set_channel_topic_lem_example =
    set_channel_topic_lem env agent 5 (lit "<b>") 128 with_den 5 renamed_den (lit "&lt;b&gt;")
      den_renamed refl

-- A guest and an agent in a channel with hidden messages.
abbrev pub quiet_den : Channel
quiet_den = record den {
  members = (7, guest) ∷ (9, agent) ∷ [];
  options = ChannelOptions.hidden_messages;
}

abbrev pub with_quiet_den : World
with_quiet_den = record {
  server = record beginning.world.server { channels = (5, quiet_den) ∷ [] };
  effects = [];
}

pub quiet_den_found : lookup 5 with_quiet_den.server.channels ≡ some quiet_den
unfolding lookup
quiet_den_found = refl

say-sends_to_example : sends_to 9 (say env guest 5 (lit "hi") with_quiet_den).effects ≡ (
    if is_member 7 quiet_den
    then if has ChannelOptions.hidden_messages quiet_den
      then some_member is_agent 9 quiet_den.members
      else some_member (λ c. not (c.id == 7)) 9 quiet_den.members
    else false)
unfolding Client.new
say-sends_to_example =
    say-sends_to env guest 5 (lit "hi") with_quiet_den quiet_den 9 quiet_den_found refl
