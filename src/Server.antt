-- ===== src/Server.antt =====
-- src/server.rs: the shared state of the server and its operations.
--
-- A reference `Arc<RwLock<Client>>` or `Arc<RwLock<Channel>>` is the key under which the map holds
-- it: what is written through it is an `insert` at that key. The mpsc receiver is the order of the
-- steps in `Session`.
pub mod Lookup
pub mod Bans
use chatd.Base.{
  ℕ, suc, ◌+◌, Bool, Option, none, some, List, [], ◌∷◌, ◌++◌, ◌==◌, ◌&&◌, not, if◌then◌else◌,
  length, is_some, retain, Result, ok, err,
}
use chatd.Text.{Text, lit, text_eq}
use chatd.Dict.{Dict, lookup, insert, erase, contains}
use chatd.Message.{Uuid, IpAddr, ip_eq, Message}
use chatd.Client.{Client, ClientStatus, is_agent, is_connected, set_status}
use chatd.ChannelOptions
use chatd.Channel.{Channel, Effects, set_options, set_topic}
use chatd.Channel
use chatd.Effect.{Effect, Frame, Env}
use chatd.Ban.{Ban, exists, save_to_disk}
use chatd.Ban
use chatd.Config.{Config}

pub record Server : Type 0 where
  pub clients : Dict Client
  pub channels : Dict Channel
  pub bans : List Ban
  pub connections_since_start : ℕ
  pub invalid_connects : ℕ
  pub banned_connects : ℕ
  pub guest_count : ℕ
  pub motd_guests : Text
  pub motd_clients : Text
  pub motd_agents : Text
  pub conf : Config

-- `Server::new`, with the bans and the texts that the files gave.
unfoldable pub new : List Ban → Text → Text → Text → Config → Server
new bans motd_guests motd_clients motd_agents conf = record {
  clients = [];
  channels = [];
  bans = bans;
  connections_since_start = 0;
  invalid_connects = 0;
  banned_connects = 0;
  guest_count = 0;
  motd_guests = motd_guests;
  motd_clients = motd_clients;
  motd_agents = motd_agents;
  conf = conf;
}

unfoldable pub ban_exists : IpAddr → Server → Bool
ban_exists ip s = exists s.bans ip

unfoldable pub count_bans : Server → ℕ
count_bans s = length s.bans

unfoldable pub add_ban : ℕ → IpAddr → Text → ℕ → Text → Server → Result Server
add_ban now ip reason expires added_by s =
    if exists s.bans ip
    then err
    else ok (record s { bans = s.bans ++ Ban.new now ip reason expires added_by ∷ [] })

unfoldable pub remove_ban : IpAddr → Server → Result Server
remove_ban ip s =
    if not (exists s.bans ip)
    then err
    else ok (record s { bans = retain (λ ban. not (ip_eq ban.ip ip)) s.bans })

unfoldable pub client_count : Server → ℕ
client_count s = length s.clients

-- A write through the reference of a client.
unfoldable pub put_client : Uuid → Client → Server → Server
put_client id c s = record s { clients = insert id c s.clients }

unfoldable pub add_client : Client → Server → Server
unfolding put_client
add_client c s = put_client c.id c s

unfoldable pub remove_client : Uuid → Server → Server
remove_client id s = record s { clients = erase id s.clients }

unfoldable pub client_exists : Uuid → Server → Bool
client_exists id s = contains id s.clients

-- The loop of `client_name_to_uuid`, in the map's order.
unfoldable pub find_name : Text → Dict Client → Option Uuid
find_name name [] = none
find_name name ((id, c) ∷ cs) = if text_eq c.name name then some c.id else find_name name cs

unfoldable pub client_name_to_uuid : Text → Server → Option Uuid
client_name_to_uuid name s = find_name name s.clients

-- The loop of `client_uuid_to_name`.
unfoldable pub name_of : Uuid → Dict Client → Option Text
name_of id [] = none
name_of id ((uid, c) ∷ cs) = if uid == id then some c.name else name_of id cs

unfoldable pub client_uuid_to_name : Uuid → Server → Option Text
client_uuid_to_name id s = name_of id s.clients

unfoldable pub get_client_ref : Uuid → Server → Option Client
get_client_ref id s = lookup id s.clients

-- The loop of `sendto_wallops`, `sendto_wall` and `sendto_one`: a client that passes the test is
-- written to, and is `Closing` if that fails. The map, the frames, and the number of clients.
unfoldable pub write_where :
    (Client → Bool) → (Uuid → Bool) → Message → Dict Client → Dict Client × Effects × ℕ
write_where test fails m [] = ([], [], 0)
write_where test fails m ((id, c) ∷ cs) =
    let rest = write_where test fails m cs in
    if test c
    then (
      (id, if fails c.id then set_status ClientStatus.closing c else c) ∷ rest.0,
      Effect.send c.id (Frame.cmessage m) ∷ rest.1,
      suc rest.2,
    )
    else ((id, c) ∷ rest.0, rest.1, rest.2)

unfoldable pub sendto_wallops : Env → Message → Server → Server × Effects × ℕ
sendto_wallops e m s =
    let r = write_where (λ c. is_connected c && is_agent c) e.write_fails m s.clients in
    (record s { clients = r.0 }, r.1, r.2)

unfoldable pub sendto_wall : Env → Message → Server → Server × Effects × ℕ
sendto_wall e m s =
    let r = write_where is_connected e.write_fails m s.clients in
    (record s { clients = r.0 }, r.1, r.2)

-- The statement `1;` in the loop has no effect: the result is 0.
unfoldable pub sendto_one : Env → Uuid → Message → Server → Server × Effects × ℕ
sendto_one e id m s =
    let r = write_where (λ c. c.id == id) e.write_fails m s.clients in
    (record s { clients = r.0 }, r.1, 0)

-- A write through the reference of a channel.
unfoldable pub put_channel : Uuid → Channel → Server → Server
put_channel id ch s = record s { channels = insert id ch s.channels }

unfoldable pub add_channel : Channel → Server → Server
unfolding put_channel
add_channel ch s = put_channel ch.id ch s

unfoldable pub remove_channel : Uuid → Server → Server
remove_channel id s = record s { channels = erase id s.channels }

unfoldable pub get_channel_ref : Uuid → Server → Option Channel
get_channel_ref id s = lookup id s.channels

-- The loop of `get_channel_by_name`: the reference, that is the key, of the first match.
unfoldable pub find_channel : Text → Dict Channel → Option Uuid
find_channel name [] = none
find_channel name ((id, ch) ∷ chs) = if text_eq ch.name name then some id else find_channel name chs

unfoldable pub get_channel_by_name : Text → Server → Option Uuid
get_channel_by_name name s = find_channel name s.channels

unfoldable pub channel_exists : Uuid → Server → Bool
channel_exists id s = contains id s.channels

-- The loop of `channel_name_to_uuid`, which ignores the case.
unfoldable pub find_lowercase : (Text → Text) → Text → Dict Channel → Option Uuid
find_lowercase lower name [] = none
find_lowercase lower name ((id, ch) ∷ chs) =
    if text_eq (lower ch.name) (lower name) then some ch.id else find_lowercase lower name chs

unfoldable pub channel_name_to_uuid : Env → Text → Server → Option Uuid
channel_name_to_uuid e name s = find_lowercase e.to_lowercase name s.channels

-- The loop has an empty body.
unfoldable pub channel_uuid_to_name : Uuid → Server → Option Text
channel_uuid_to_name id s = none

unfoldable pub channel_count : Server → ℕ
channel_count s = length s.channels

abbrev lobby_base : ChannelOptions.Options
lobby_base = ChannelOptions.or ChannelOptions.persist ChannelOptions.rejoin_clients

unfoldable pub global_lobby_options : ChannelOptions.Options
global_lobby_options =
    ChannelOptions.or (ChannelOptions.or lobby_base ChannelOptions.save_history)
      ChannelOptions.can_not_leave

unfoldable pub staff_lobby_options : ChannelOptions.Options
staff_lobby_options =
    ChannelOptions.or
      (ChannelOptions.or
        (ChannelOptions.or (ChannelOptions.or ChannelOptions.persist ChannelOptions.agent_only)
          ChannelOptions.rejoin_clients)
        ChannelOptions.save_history)
      ChannelOptions.can_not_leave

unfoldable pub guest_lobby_options : ChannelOptions.Options
guest_lobby_options = ChannelOptions.or lobby_base ChannelOptions.can_not_leave

-- The three lobbies of `create_default_channels`, with their fresh ids.
unfoldable pub global_lobby : Uuid → Channel
unfolding global_lobby_options
global_lobby id =
    set_topic (some (lit "InvenT chatd v0.14.0-beta (unreleased) - imightanswer@clearchat.club"))
      (set_options global_lobby_options (Channel.new id (lit "Global Lobby") none Bool.false))

unfoldable pub staff_lobby : Uuid → Channel
unfolding staff_lobby_options
staff_lobby id =
    set_topic (some (lit "DO NOT GIVE OUT YOUR PASSWORDS"))
      (set_options staff_lobby_options (Channel.new id (lit "Staff Lobby") none Bool.false))

unfoldable pub guest_lobby : Uuid → Channel
unfolding guest_lobby_options
guest_lobby id =
    set_options guest_lobby_options (Channel.new id (lit "Guest Lobby") none Bool.false)

unfoldable pub add_lobby : Bool → Channel → Server → Server
unfolding add_channel
add_lobby use_lobby ch s = if use_lobby then add_channel ch s else s

unfoldable pub create_default_channels : Uuid → Uuid → Uuid → Config → Server → Server
unfolding add_lobby global_lobby staff_lobby guest_lobby
create_default_channels id₁ id₂ id₃ config s = add_lobby config.use_guest_lobby (guest_lobby id₃) (
    add_lobby config.use_staff_lobby (staff_lobby id₂)
      (add_lobby config.use_global_lobby (global_lobby id₁) s))

-- `save_ban_db` up to the result of the write.
unfoldable pub save_ban_db : Text → Server → Effects
save_ban_db filename s = save_to_disk filename s.bans
