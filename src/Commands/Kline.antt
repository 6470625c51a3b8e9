-- ===== src/Commands/Kline.antt =====
-- src/commands.rs: `CommandHandler::kline`.
use chatd.Base.{
  ℕ, ◌+◌, ◌^◌, Option, none, some, List, [], ◌∷◌, ◌++◌, ◌&&◌, ltb, not, if◌then◌else◌, length, ok,
  err,
}
use chatd.Text.{Text, lit}
use chatd.Dict.{Dict}
use chatd.Message.{Uuid, IpAddr, MessageType, ProblemCode, ip_eq, nil, new}
use chatd.Client.{Client, is_agent}
use chatd.Ban.{save_to_disk}
use chatd.Effect.{Env}
use chatd.Server.{ban_exists, add_ban}
use chatd.World.{World, Outcome, emit, refuse, wallops}
use chatd.Commands.Kill.{kill}

-- `SystemTime::checked_add` of seconds: the clock counts them in an `i64`.
unfoldable pub checked_add : ℕ → ℕ → Option ℕ
checked_add now seconds = if ltb (now + seconds) (2 ^ 63) then some (now + seconds) else none

-- The loop over the clients.
unfoldable pub found_clients : IpAddr → Dict Client → List Uuid
found_clients target [] = []
found_clients target ((id, c) ∷ cs) =
    let rest = found_clients target cs in
    if ip_eq c.ip target && not (is_agent c) then c.id ∷ rest else rest

unfoldable pub kill_all : Env → Client → List Uuid → Text → World → World
kill_all e me [] reason w = w
kill_all e me (found ∷ rest) reason w = kill_all e me rest reason (kill e me found reason w)

-- From `hunt_clients` on, with the ban added to the server.
unfoldable pub hunt : Env → Client → IpAddr → Text → World → World
hunt e me target reason w =
    let found = found_clients target w.server.clients in
    let banned = lit "Banned (" ++ reason ++ lit ")" in
    let killed = kill_all e me found banned (
      wallops e
        (new
          (MessageType.wallop (
            lit "<i>"
            ++ me.name
            ++ lit "</i> server banned <i>"
            ++ e.show_ip target
            ++ lit "</i> affecting <strong>"
            ++ e.show_number (length found)
            ++ lit "<strong> clients ("
            ++ banned
            ++ lit ")"))
          nil nil none)
        w) in
    emit (save_to_disk w.server.conf.ban_db killed.server.bans) killed

-- `get_clients().await.unwrap()`
unfoldable pub unwrap_clients : Env → Client → IpAddr → Text → World → Outcome
unwrap_clients e me target reason w = elim w.server.clients [
  | [] ↦ Outcome.panicked w
  | c ∷ cs ↦ Outcome.returned (hunt e me target reason w)
]

-- From `add_ban` on.
unfoldable pub ban_and_hunt : Env → Client → IpAddr → Text → ℕ → World → Outcome
ban_and_hunt e me target reason expires w =
    elim (add_ban e.now target reason expires me.name w.server) [
      | ok s ↦ unwrap_clients e me target reason (record w { server = s })
      | err ↦
          Outcome.returned (refuse me.id ProblemCode.not_available none (lit "Unable to ban ip.") w)
    ]

unfoldable pub kline : Env → Client → IpAddr → Text → ℕ → World → Outcome
kline e me target reason expires_sec w =
    if not (is_agent me)
    then Outcome.returned (
        refuse me.id ProblemCode.permission_denied none
          (lit "No permission to perform this action.") w)
    else if ban_exists target w.server
    then Outcome.returned
        (refuse me.id ProblemCode.already_member none (lit "The ip is already in the ban list.") w)
    else elim (checked_add e.now expires_sec) [
      | none ↦ Outcome.panicked w
      | some expires ↦ ban_and_hunt e me target reason expires w
    ]
