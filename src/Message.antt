-- ===== src/Message.antt =====
-- src/message.rs: the messages between the server and its clients, and the problem codes.
--
-- `Message.id`, a random number that the server never reads, is left out. The conversion to JSON
-- (serde) is not modelled: a message stands for its text on the wire.
pub mod Sanitize
use chatd.Base.{ℕ, Bool, Option, List, unwrap_or, true, false, ◌==◌, ◌≡◌, ◌↔◌, arith}
use chatd.Text.{Text, lit, replace}

-- A `Uuid`, as the number that its 128 bits spell.
abbrev pub Uuid : Type 0
Uuid = ℕ

-- `Uuid::nil()`
abbrev pub nil : Uuid
nil = 0

-- `std::net::IpAddr`, each address as the number that its bits spell.
pub data IpAddr : Type 0 where
  v4 : ℕ → IpAddr
  v6 : ℕ → IpAddr

-- `IpAddr::V4(Ipv4Addr::new(0,0,0,0))`
abbrev pub unspecified : IpAddr
unspecified = v4 0

abbrev pub ip_eq : IpAddr → IpAddr → Bool
ip_eq (v4 a) (v4 b) = a == b
ip_eq (v4 a) (v6 b) = false
ip_eq (v6 a) (v4 b) = false
ip_eq (v6 a) (v6 b) = a == b

pub ip_eq_iff : (a b : IpAddr) → (ip_eq a b ≡ true) ↔ (a ≡ b)
ip_eq_iff (v4 a) (v4 b) = ground arith
ip_eq_iff (v4 a) (v6 b) = ground arith
ip_eq_iff (v6 a) (v4 b) = ground arith
ip_eq_iff (v6 a) (v6 b) = ground arith

pub data ProblemCode : Type 0 where
  name_in_use : ProblemCode
  name_invalid : ProblemCode
  invalid_auth : ProblemCode
  invalid_argument : ProblemCode
  not_available : ProblemCode
  permission_denied : ProblemCode
  already_member : ProblemCode
  not_member : ProblemCode
  channel_name_bad : ProblemCode
  channel_invalid : ProblemCode
  kicked_from_server : ProblemCode

-- One row of a channel list: id, name, topic, user count, modes.
abbrev pub ChannelRow : Type 0
ChannelRow = Uuid × Text × Text × ℕ × ℕ

pub data MessageType : Type 0 where
  auth_guest : Option Text → MessageType
  auth_device : Text → Text → MessageType
  auth_agent : Text → Text → Text → MessageType
  auth_ok : Uuid → Text → MessageType
  ping : ℕ → MessageType
  pong : ℕ → MessageType
  join : Text → IpAddr → MessageType
  part : Uuid → Uuid → IpAddr → MessageType
  kick : Uuid → Uuid → Text → MessageType
  channel_modes : Option (List Text) → MessageType
  set_channel_modes : ℕ → MessageType
  quit : Text → MessageType
  kill : Text → Text → MessageType
  kline : Text → ℕ → Text → MessageType
  whois : MessageType
  message : Text → MessageType
  motd : Text → MessageType
  topic : Text → MessageType
  private : Uuid → Uuid → Text → MessageType
  file : MessageType
  typing : Uuid → Uuid → MessageType
  users : Uuid → MessageType
  user_list : Option (List (Uuid × Text)) → MessageType
  channels : MessageType
  channel_list : List ChannelRow → MessageType
  wall : Text → MessageType
  wallop : Text → MessageType
  walladmin : Text → MessageType
  problem : ProblemCode → MessageType

pub record Message : Type 0 where
  pub type : MessageType
  pub source : Uuid
  pub target : Uuid
  pub message : Text

-- `Message::new`
unfoldable pub new : MessageType → Uuid → Uuid → Option Text → Message
new type source target text = record {
  type = type;
  source = source;
  target = target;
  message = unwrap_or text (lit "");
}

-- `Message::new_problem`
unfoldable pub new_problem : ProblemCode → Option Uuid → Text → Message
new_problem code target text = record {
  type = MessageType.problem code;
  source = nil;
  target = unwrap_or target nil;
  message = text;
}

-- `Message::sanitize_text_message`, and the same two calls in `kill` and `set_channel_topic`.
unfoldable pub sanitize_text_message : Text → Text
sanitize_text_message s = replace b'>' (lit "&gt;") (replace b'<' (lit "&lt;") s)
