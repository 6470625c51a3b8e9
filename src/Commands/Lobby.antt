-- ===== src/Commands/Lobby.antt =====
-- src/commands.rs and src/main.rs: how a client that has just logged in enters a lobby, the same
-- code in `auth_agent` (twice) and under `AuthGuest` in `handle_client_command` (twice); and the
-- messages that tell a client of a channel that it is in.
use chatd.Base.{Bool, Option, none, some, List, [], ◌∷◌, ◌++◌, ◌||◌, not, if◌then◌else◌}
use chatd.Text.{Text, lit}
use chatd.Dict.{Dict, lookup}
use chatd.Message.{Uuid, MessageType, unspecified, nil, new}
use chatd.Client.{Client, is_agent, add_channel}
use chatd.ChannelOptions
use chatd.Channel.{Channel, Effects, has, insert_member, announce, to_log}
use chatd.Effect.{Effect, Env, Frame, LogEntry}
use chatd.Server.{get_channel_by_name, get_channel_ref, put_client, put_channel}
use chatd.World.{World, emit, modify}

unfoldable pub members_list : Dict Client → List (Uuid × Text)
members_list [] = []
members_list ((id, cl) ∷ cls) = (id, cl.name) ∷ members_list cls

abbrev to_user_list : List (Uuid × Text) → Option (List (Uuid × Text))
to_user_list [] = none
to_user_list (x ∷ xs) = some (x ∷ xs)

abbrev to : Client → MessageType → Uuid → Uuid → Option Text → Effects
to c type source target text = Effect.send c.id (Frame.cmessage (new type source target text)) ∷ []

-- The `Join` of a client's own, with the name of the channel.
unfoldable pub own_join : Client → Channel → Effects
own_join c ch = to c (MessageType.join c.name unspecified) c.id ch.id (some ch.name)

unfoldable pub user_list : Client → Channel → Effects
unfolding members_list
user_list c ch =
    to c (MessageType.user_list (to_user_list (members_list ch.members))) nil ch.id none

unfoldable pub topic_of : Client → Channel → Effects
topic_of c ch = elim ch.topic [
  | none ↦ []
  | some topic ↦ to c (MessageType.topic topic) nil ch.id none
]

-- The test `!Invisible || agent`; the staff lobby makes none.
unfoldable pub shows : Client → Channel → Bool
shows c ch = not (has ChannelOptions.invisible ch) || is_agent c

-- What the client is told of a lobby. Here a hidden member list is hidden from agents too.
unfoldable pub greet : Client → Channel → Effects
unfolding own_join user_list topic_of
greet c ch =
    own_join c ch
    ++ (if not (has ChannelOptions.hidden_member_list ch) then user_list c ch else [])
    ++ topic_of c ch

-- The body under `if let Some(channel)`: the client joins whatever the options of the lobby are.
unfoldable pub enter : Env → (Client → Channel → Bool) → Uuid → Channel → Client → World → World
unfolding greet
enter e visible key ch c w =
    let joined = insert_member c ch in
    let entry = LogEntry.event e.now (lit "JOIN CHANNEL") ch.name c.name c.ip (lit "") in
    modify (put_client c.id (add_channel ch.id ch.name c)) (
      modify (put_channel key joined) (
        emit
          (announce c ch
            ++ (if visible c joined then greet c joined else [])
            ++ to_log entry joined)
          w))

-- `if config.use_.. { if let Some(channel) = get_channel_by_name(..) { .. } }`; the client is read
-- back from the map, where the handler holds it under one lock.
unfoldable pub enter_lobby : Env → Bool → (Client → Channel → Bool) → Text → Uuid → World → World
enter_lobby e use_lobby visible name id w =
    if not use_lobby then w else elim (get_channel_by_name name w.server) [
      | none ↦ w
      | some key ↦ elim (get_channel_ref key w.server) [
        | none ↦ w
        | some ch ↦ elim (lookup id w.server.clients) [
          | none ↦ w
          | some c ↦ enter e visible key ch c w
        ]
      ]
    ]
