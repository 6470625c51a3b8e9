-- ===== src/Tests/Bans.antt =====
-- Runs in which an agent bans an address, for the theorems on bans.
use chatd.Base.{true, false, ◌≡◌, refl, none, some, List, [], ◌∷◌, ltb, length, arith}
use chatd.Text.{lit, replace, is_match, all_name_chars, is_name_char, text_eq}
use chatd.Dict.{lookup, insert}
use chatd.Message.{IpAddr, ip_eq, MessageType, nil, new, sanitize_text_message}
use chatd.ClientOptions
use chatd.Client
use chatd.Client.{Client, is_pending, set_name, is_agent, is_connected, has_options}
use chatd.Config
use chatd.Effect.{Env}
use chatd.Server
use chatd.Server.{
  ban_exists, put_client, add_client, create_default_channels, get_client_ref, client_name_to_uuid,
  find_name, add_ban, sendto_wallops, write_where,
}
use chatd.World.{World, world_of, modify}
use chatd.Commands.AuthAgent.{auth_agent, admit_agent, log_in, welcome}
use chatd.Commands.Lobby.{enter_lobby}
use chatd.Commands.Kline.{
  kline, checked_add, ban_and_hunt, unwrap_clients, hunt, found_clients, kill_all,
}
use chatd.Commands.Kill.{kill, kill_client}
use chatd.Session.Login.{pre_auth}
use chatd.Session.Dispatch.{post_auth, handle_client_command, receive}
use chatd.Session.Machine.{
  Event, Machine, run, step, accept, open_client, waits, take_out, count_banned,
}
use chatd.Coherence.{IsCoherent}
use chatd.Coherence.Run.{start, run-IsCoherent}
use chatd.Standing.Banned.{kline-spares, IsSpared, banned}
use chatd.Standing.Exile.{earlier, later, run-keeps_bans, run-shuts_out}
use chatd.Tests.{env}
use chatd.Tests.Standing.{one_account, no_lobbies, ray}

-- An agent who comes from 0.0.0.0 bans that address.
abbrev zero : IpAddr
zero = IpAddr.v4 0

abbrev ban_order : MessageType
ban_order = MessageType.kline (lit "0.0.0.0") 60 (lit "spam")

abbrev morning : List (Env × Event)
morning =
    (env, Event.connects zero)
    ∷ (env, Event.opens zero)
    ∷ (
      env,
      Event.commands (new (MessageType.auth_agent (lit "Ray") (lit "ray") (lit "pw")) 7 nil none),
    )
    ∷ (env, Event.commands (new ban_order 7 nil none))
    ∷ []

abbrev evening : List (Env × Event)
evening = (env, Event.connects zero) ∷ (record env { new_v4 = 8 }, Event.opens zero) ∷ []

abbrev ray_at_zero : Client
ray_at_zero = record ray { ip = zero }

zero_banned :
    ban_exists zero
      (earlier one_account no_lobbies 1 2 3 [] [] [] [] morning evening zero).world.server
    ≡ true
unfolding run step accept open_client waits take_out ip_eq receive handle_client_command pre_auth
    auth_agent admit_agent welcome log_in enter_lobby set_name is_match all_name_chars is_name_char
    text_eq lit client_name_to_uuid find_name get_client_ref put_client add_client ban_exists
    chatd.Ban.exists chatd.Ban.new is_pending lookup insert new Server.new create_default_channels
    Server.add_lobby Config.default Client.new post_auth kline is_agent checked_add ban_and_hunt
    add_ban unwrap_clients hunt found_clients kill_all sendto_wallops write_where is_connected
zero_banned = refl

ray_at_zero_found :
    lookup 7
      (later one_account no_lobbies 1 2 3 [] [] [] [] morning evening zero).world.server.clients
    ≡ some ray_at_zero
unfolding run step accept open_client waits take_out ip_eq receive handle_client_command pre_auth
    auth_agent admit_agent welcome log_in enter_lobby set_name is_match all_name_chars is_name_char
    text_eq lit client_name_to_uuid find_name get_client_ref put_client add_client ban_exists
    chatd.Ban.exists chatd.Ban.new is_pending lookup insert new Server.new create_default_channels
    Server.add_lobby Config.default Client.new post_auth kline is_agent checked_add ban_and_hunt
    add_ban unwrap_clients hunt found_clients kill_all sendto_wallops write_where is_connected
ray_at_zero_found = refl

abbrev at_last : Machine
at_last = later one_account no_lobbies 1 2 3 [] [] [] [] morning evening zero

-- A century after a ban of one minute.
abbrev next_century : Env
next_century = record env { now = 3200000000 }

run-keeps_bans_example :
    (ban_exists zero at_last.world.server ≡ true)
    × (step one_account no_lobbies (next_century, Event.connects zero) at_last
        ≡ record at_last { world = modify count_banned at_last.world })
run-keeps_bans_example =
    run-keeps_bans one_account no_lobbies 1 2 3 [] [] [] [] morning evening zero next_century
      zero_banned

none_wait :
    waits zero (earlier one_account no_lobbies 1 2 3 [] [] [] [] morning evening zero).handshakes
    ≡ false
unfolding run step accept open_client waits take_out ip_eq receive handle_client_command pre_auth
    auth_agent admit_agent welcome log_in enter_lobby set_name is_match all_name_chars is_name_char
    text_eq lit client_name_to_uuid find_name get_client_ref put_client add_client ban_exists
    chatd.Ban.exists chatd.Ban.new is_pending lookup insert new Server.new create_default_channels
    Server.add_lobby Config.default Client.new post_auth kline is_agent checked_add ban_and_hunt
    add_ban unwrap_clients hunt found_clients kill_all sendto_wallops write_where is_connected
none_wait = refl

run-shuts_out_example :
    (c : Client) × (lookup 7
        (earlier one_account no_lobbies 1 2 3 [] [] [] [] morning evening zero).world.server.clients
      ≡ some c)
    × (c.ip ≡ ray_at_zero.ip)
run-shuts_out_example =
    run-shuts_out one_account no_lobbies 1 2 3 [] [] [] [] morning evening zero 7 ray_at_zero
      zero_banned none_wait ray_at_zero_found refl

-- An agent and a guest at one address, which the agent bans.
abbrev crowd : List (Env × Event)
crowd =
    (env, Event.connects zero)
    ∷ (env, Event.opens zero)
    ∷ (
      env,
      Event.commands (new (MessageType.auth_agent (lit "Ray") (lit "ray") (lit "pw")) 7 nil none),
    )
    ∷ (env, Event.connects zero)
    ∷ (record env { new_v4 = 8 }, Event.opens zero)
    ∷ []

abbrev crowded : World
crowded = (run one_account no_lobbies crowd (start 1 2 3 [] [] [] [] no_lobbies)).world

crowded-IsCoherent : IsCoherent crowded.server
unfolding run step accept open_client waits take_out ip_eq receive handle_client_command pre_auth
    auth_agent admit_agent welcome log_in enter_lobby set_name is_match all_name_chars is_name_char
    text_eq lit client_name_to_uuid find_name get_client_ref put_client add_client ban_exists
    chatd.Ban.exists chatd.Ban.new is_pending lookup insert new Server.new create_default_channels
    Server.add_lobby Config.default Client.new
crowded-IsCoherent =
    run-IsCoherent one_account no_lobbies 1 2 3 [] [] [] [] crowd
      (tt, (refl, (tt, (tt, (refl, tt)))))

crowded_unbanned : ban_exists zero crowded.server ≡ false
unfolding run step accept open_client waits take_out ip_eq receive handle_client_command pre_auth
    auth_agent admit_agent welcome log_in enter_lobby set_name is_match all_name_chars is_name_char
    text_eq lit client_name_to_uuid find_name get_client_ref put_client add_client ban_exists
    chatd.Ban.exists chatd.Ban.new is_pending lookup insert new Server.new create_default_channels
    Server.add_lobby Config.default Client.new
crowded_unbanned = refl

spam_is_short : ltb 255 (length (sanitize_text_message (banned (lit "spam")))) ≡ false
unfolding sanitize_text_message replace lit
spam_is_short = refl

ray_is_agent : is_agent ray_at_zero ≡ true
unfolding is_agent
ray_is_agent = refl

ray_is_left :
    lookup 7 (world_of (kline env ray_at_zero zero (lit "spam") 60 crowded)).server.clients
    ≡ some ray_at_zero
unfolding run step accept open_client waits take_out ip_eq receive handle_client_command pre_auth
    auth_agent admit_agent welcome log_in enter_lobby set_name is_match all_name_chars is_name_char
    text_eq lit client_name_to_uuid find_name get_client_ref put_client add_client ban_exists
    chatd.Ban.exists chatd.Ban.new is_pending lookup insert new Server.new create_default_channels
    Server.add_lobby Config.default Client.new kline is_agent checked_add ban_and_hunt add_ban
    unwrap_clients hunt found_clients kill_all sendto_wallops write_where is_connected kill
    kill_client has_options sanitize_text_message replace ClientOptions.and Server.remove_client
    chatd.Dict.erase chatd.World.for_channels
ray_is_left = refl

kline-spares_example : IsSpared ray_at_zero
kline-spares_example =
    kline-spares env ray_at_zero zero (lit "spam") 60 crowded 7 ray_at_zero crowded-IsCoherent
      ray_is_agent crowded_unbanned (omega arith) spam_is_short ray_is_left refl
