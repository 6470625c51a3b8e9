-- ===== src/Session/Login.antt =====
-- src/main.rs: the commands of a client that has not logged in, in `handle_client_command`.
use chatd.Base.{Option, none, some, [], ◌∷◌, ◌++◌, not, if◌then◌else◌, is_some}
use chatd.Text.{Text, lit}
use chatd.Message.{MessageType, ProblemCode}
use chatd.Client.{Client, ClientType, ClientStatus, set_name, set_status}
use chatd.Config.{Config}
use chatd.Effect.{Effect, Env}
use chatd.Server.{client_name_to_uuid, put_client}
use chatd.World.{World, emit, modify, refuse}
use chatd.Commands.Lobby.{enter_lobby, shows}
use chatd.Commands.AuthAgent.{AuthFinder, log_in, welcome, count_guest, auth_agent}
use chatd.Session.Departure.{handle_client_error}

-- `format!("Guest-{}", ..)`; `Client::generate_guest_name` draws a number.
unfoldable pub guest_name : Env → Option Text → Text
guest_name e none = lit "Guest-" ++ e.show_number e.guest_number
guest_name e (some username) = lit "Guest-" ++ username

-- A guest with a free and valid name.
unfoldable pub admit_guest : Env → Config → Client → World → World
unfolding log_in
admit_guest e config named w =
    let c = log_in ClientType.guest config.default_guest_options named in
    let present = modify count_guest (modify (put_client c.id c) w) in
    enter_lobby e config.use_guest_lobby shows (lit "Guest Lobby") c.id (
      enter_lobby e config.use_global_lobby shows (lit "Global Lobby") c.id
        (welcome c w.server.motd_guests (lit "Guest Message of the Day") present))

unfoldable pub auth_guest : Env → Config → Client → Option Text → World → World
unfolding admit_guest
auth_guest e config me username w =
    let actual_username = guest_name e username in
    let renamed = set_name actual_username me in
    if not config.allow_guests
    then emit (Effect.close me.id ∷ []) (
        refuse me.id ProblemCode.not_available none
          (lit "Not accepting unauthenticated users at this time.") w)
    else if is_some (client_name_to_uuid actual_username w.server)
    then refuse me.id ProblemCode.name_in_use none actual_username w
    else if not renamed.1
    then refuse me.id ProblemCode.name_invalid none actual_username w
    else admit_guest e config renamed.0 w

-- Any other command: the client is dropped.
unfoldable pub bad_request : Env → Client → World → World
bad_request e me w =
    handle_client_error e (set_status ClientStatus.closing me) (lit "bad request pre-auth")
      (modify (put_client me.id (set_status ClientStatus.closing me)) w)

unfoldable pub pre_auth : Env → AuthFinder → Config → Client → MessageType → World → World
pre_auth e authfinder config me (MessageType.auth_guest username) w =
    auth_guest e config me username w
pre_auth e authfinder config me (MessageType.auth_device deviceid username) w = w
pre_auth e authfinder config me (MessageType.auth_agent nickname username password) w =
    auth_agent e me authfinder config nickname username password w
pre_auth e authfinder config me _ w = bad_request e me w
