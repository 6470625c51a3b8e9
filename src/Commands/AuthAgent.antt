-- ===== src/Commands/AuthAgent.antt =====
-- src/commands.rs: `CommandHandler::auth_agent`; src/auth.rs: the interface of the user database.
use chatd.Base.{
  ℕ, ◌+◌, true, Option, none, some, [], ◌∷◌, ◌==◌, not, if◌then◌else◌, is_some, length,
}
use chatd.Text.{Text, lit}
use chatd.Message.{MessageType, ProblemCode, nil, new}
use chatd.Client.{Client, ClientType, ClientStatus, set_name, set_status}
use chatd.Config.{Config}
use chatd.Effect.{Effect, Env}
use chatd.Server.{Server, client_name_to_uuid, put_client, remove_client}
use chatd.World.{World, emit, modify, send, refuse}
use chatd.Commands.Lobby.{enter_lobby, shows}

-- `UserAuthEntry`
pub record UserAuthEntry : Type 0 where
  pub username : Text
  pub permissions : ℕ

-- The `AuthFinder` that the handler holds, through the one method that it calls.
pub record AuthFinder : Type 0 where
  pub by_username_password : Text → Text → Option UserAuthEntry

-- `set_status`, `set_type` and `set_options_u64` of a login.
unfoldable pub log_in : ClientType → ℕ → Client → Client
log_in type options c = record c { status = ClientStatus.connected; type = type; options = options }

-- `AuthOk` and, if there is one, the message of the day.
unfoldable pub welcome : Client → Text → Text → World → World
welcome c motd title w =
    let greeted = send c.id (new (MessageType.auth_ok c.id c.name) nil nil none) w in
    if length motd == 0
    then greeted
    else send c.id (new (MessageType.motd motd) nil c.id (some title)) greeted

abbrev pub count_guest : Server → Server
count_guest s = record s { guest_count = s.guest_count + 1 }

-- A login with a free and valid name.
unfoldable pub admit_agent : Env → Config → ℕ → Client → World → World
unfolding log_in
admit_agent e config permissions named w =
    let c = log_in ClientType.agent permissions named in
    let present = modify count_guest (modify (put_client c.id c) w) in
    enter_lobby e config.use_staff_lobby (λ c ch. true) (lit "Staff Lobby") c.id
      (enter_lobby e config.use_global_lobby shows (lit "Global Lobby") c.id
        (welcome c w.server.motd_agents (lit "Agent Message of the Day") present))

unfoldable pub auth_agent : Env → Client → AuthFinder → Config → Text → Text → Text → World → World
unfolding admit_agent
auth_agent e me authfinder config nickname username password w =
    elim (authfinder.by_username_password username password) [
      | none ↦ emit (Effect.close me.id ∷ []) (
          modify (remove_client me.id) (
            modify (put_client me.id (set_status ClientStatus.closing me)) (
              refuse me.id ProblemCode.invalid_auth none
                (lit "The username and password are not valid.") w)))
      | some userauth ↦
          let renamed = set_name nickname me in
          if is_some (client_name_to_uuid nickname w.server)
          then refuse me.id ProblemCode.name_in_use none nickname w
          else if not renamed.1
          then refuse me.id ProblemCode.name_invalid none nickname w
          else admit_agent e config userauth.permissions renamed.0 w
    ]
