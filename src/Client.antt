-- ===== src/Client.antt =====
-- src/client.rs: one connection. The sinks are not fields: the one that writes to a connection is
-- named by the client's id, which all clones of the client share (see `Effect`). The fields
-- `channels` of the clones, one shared map in the source, are read through the server's client only.
use chatd.Base.{ℕ, Bool, true, false, [], ◌==◌, if◌then◌else◌}
use chatd.Text.{Text, is_match}
use chatd.Dict.{Dict, insert, erase}
use chatd.Message.{Uuid, IpAddr}
use chatd.ClientOptions

pub data ClientType : Type 0 where
  unset : ClientType
  agent : ClientType
  contact : ClientType
  guest : ClientType

pub data ClientStatus : Type 0 where
  pending_auth : ClientStatus
  connected : ClientStatus
  zombie : ClientStatus
  closing : ClientStatus

pub record Client : Type 0 where
  pub id : Uuid
  pub name : Text
  pub type : ClientType
  pub options : ClientOptions.Options
  pub ip : IpAddr
  pub connected : ℕ
  pub last_ping : ℕ
  pub last_action : ℕ
  pub status : ClientStatus
  pub channels : Dict Text

-- `gettype() as u8 == ClientType::Agent as u8`
unfoldable pub is_agent : Client → Bool
is_agent c = elim c.type [ ClientType.agent ↦ true | _ ↦ false ]

unfoldable pub is_guest : Client → Bool
is_guest c = elim c.type [ ClientType.guest ↦ true | _ ↦ false ]

unfoldable pub is_contact : Client → Bool
is_contact c = elim c.type [ ClientType.contact ↦ true | _ ↦ false ]

-- `status() as u64 == ClientStatus::Connected as u64`
unfoldable pub is_connected : Client → Bool
is_connected c = elim c.status [ ClientStatus.connected ↦ true | _ ↦ false ]

unfoldable pub is_pending : Client → Bool
is_pending c = elim c.status [ ClientStatus.pending_auth ↦ true | _ ↦ false ]

unfoldable pub has_options : ClientOptions.Options → Client → Bool
has_options o c = ClientOptions.and c.options o == o

-- `Client::new`
unfoldable pub new : Uuid → Text → IpAddr → ℕ → Client
new id guest_name ip now = record {
  id = id;
  name = guest_name;
  type = ClientType.unset;
  options = ClientOptions.join_channels;
  ip = ip;
  connected = now;
  last_ping = now;
  last_action = now;
  status = ClientStatus.pending_auth;
  channels = [];
}

unfoldable pub add_channel : Uuid → Text → Client → Client
add_channel id name c = record c { channels = insert id name c.channels }

unfoldable pub remove_channel : Uuid → Client → Client
remove_channel id c = record c { channels = erase id c.channels }

-- `clear_channel_list` and `clear_channels`
unfoldable pub clear_channels : Client → Client
clear_channels c = record c { channels = [] }

-- `set_name` says whether the name was taken over.
unfoldable pub set_name : Text → Client → Client × Bool
set_name name c = if is_match 3 30 name then (record c { name = name }, true) else (c, false)

unfoldable pub set_status : ClientStatus → Client → Client
set_status status c = record c { status = status }
