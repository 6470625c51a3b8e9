-- ===== src/Tests/Standing.antt =====
-- Runs in which an agent logs in, for the theorems on what clients are granted.
use chatd.Base.{false, ◌≡◌, refl, none, some, List, [], ◌∷◌}
use chatd.Text.{
  lit, is_match, all_name_chars, is_name_char, text_eq, is_uuid_v4, matches_prefix, times, in_class,
}
use chatd.ClientOptions
use chatd.Channel
use chatd.Channel.{set_topic, set_options, insert_member}
use chatd.Commands.Join.{join, find_and_join, join_new, create}
use chatd.Dict.{lookup, insert}
use chatd.Message.{ip_eq, MessageType, nil, new}
use chatd.Client
use chatd.Client.{Client, ClientType, ClientStatus, is_pending, set_name, is_agent, has_options}
use chatd.Config
use chatd.Config.{Config}
use chatd.Effect.{Env}
use chatd.Server
use chatd.Server.{
  ban_exists, put_client, add_client, create_default_channels, get_client_ref, client_name_to_uuid,
  find_name, channel_name_to_uuid, find_lowercase, get_channel_ref,
}
use chatd.World.{world_of}
use chatd.Commands.AuthAgent.{AuthFinder, auth_agent, admit_agent, log_in, welcome}
use chatd.Commands.Lobby.{enter_lobby}
use chatd.Session.Login.{pre_auth}
use chatd.Session.Dispatch.{post_auth, handle_client_command, receive}
use chatd.Session.Machine.{Event, run, step, accept, open_client, waits, take_out}
use chatd.Coherence.Run.{start}
use chatd.Standing.{StandsAs}
use chatd.Standing.Granted.{IsGranted}
use chatd.Standing.Run.{run-IsGranted, post_auth-keeps_standing}
use chatd.Tests.{env, home, agent, with_agent, agent_found}

-- One account, with the permissions 63.
abbrev pub one_account : AuthFinder
one_account = record {
  by_username_password = λ user password. some (record { username = lit "ray"; permissions = 63 });
}

abbrev pub no_lobbies : Config
no_lobbies = record Config.default {
  use_global_lobby = false;
  use_staff_lobby = false;
  use_guest_lobby = false;
}

abbrev shift : List (Env × Event)
shift =
    (env, Event.connects home)
    ∷ (env, Event.opens home)
    ∷ (
      env,
      Event.commands (new (MessageType.auth_agent (lit "Ray") (lit "ray") (lit "pw")) 7 nil none),
    )
    ∷ []

abbrev pub ray : Client
ray = record {
  id = 7;
  name = lit "Ray";
  type = ClientType.agent;
  options = 63;
  ip = home;
  connected = 1000;
  last_ping = 1000;
  last_action = 1000;
  status = ClientStatus.connected;
  channels = [];
}

ray_found :
    lookup 7
      (run one_account no_lobbies shift (start 1 2 3 [] [] [] [] no_lobbies)).world.server.clients
    ≡ some ray
unfolding run step accept open_client waits take_out ip_eq receive handle_client_command pre_auth
    auth_agent admit_agent welcome log_in enter_lobby set_name is_match all_name_chars is_name_char
    text_eq lit client_name_to_uuid find_name get_client_ref put_client add_client ban_exists
    chatd.Ban.exists is_pending lookup insert new Server.new create_default_channels
    Server.add_lobby Config.default Client.new
ray_found = refl

run-IsGranted_example : (ray.id ≡ 7) × IsGranted one_account no_lobbies ray
run-IsGranted_example = run-IsGranted one_account no_lobbies 1 2 3 [] [] [] [] shift 7 ray ray_found

-- An agent who opens a channel.
abbrev opener : Client
opener = record agent { channels = (7, lit "Bar") ∷ [] }

abbrev opening : MessageType
opening = MessageType.join (lit "Bar") home

opener_found :
    lookup 9 (world_of (post_auth env no_lobbies agent 0 opening with_agent)).server.clients
    ≡ some opener
unfolding post_auth join find_and_join join_new create channel_name_to_uuid find_lowercase text_eq
    lit is_match all_name_chars is_name_char is_uuid_v4 matches_prefix times in_class has_options
    is_agent Client.add_channel ClientOptions.and Server.add_channel put_client lookup insert
    Server.new create_default_channels Server.add_lobby Config.default Server.put_channel Client.new
    Channel.new get_channel_ref Server.global_lobby Server.staff_lobby Server.guest_lobby set_topic
    set_options insert_member
opener_found = refl

post_auth-keeps_standing_example :
    (c : Client) × (lookup 9 with_agent.server.clients ≡ some c) × StandsAs c opener
post_auth-keeps_standing_example =
    post_auth-keeps_standing env no_lobbies agent 0 opening with_agent 9 opener agent_found
      opener_found
