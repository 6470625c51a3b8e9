-- ===== src/Config.antt =====
-- src/config.rs: the configuration. `from_disk` and `to_disk` are in Startup.
use chatd.Base.{ℕ, Bool, true}
use chatd.Text.{Text, lit}
use chatd.Message.{IpAddr, unspecified}

pub data AuthType : Type 0 where
  invent : Text → Text → AuthType
  sq_lite : Text → AuthType

pub record Config : Type 0 where
  pub bind_address : IpAddr
  pub ssl_certificate : Text
  pub ssl_privatekey : Text
  pub bind_port : ℕ
  pub auth_type : AuthType
  pub auth_salt : Text
  pub allow_clients : Bool
  pub allow_guests : Bool
  pub default_guest_options : ℕ
  pub default_agent_options : ℕ
  pub ban_db : Text
  pub motd_file_guests : Text
  pub motd_file_clients : Text
  pub motd_file_agents : Text
  pub use_global_lobby : Bool
  pub use_staff_lobby : Bool
  pub use_guest_lobby : Bool
  pub max_topic_length : ℕ

-- `Config::default`, and so `Config::new`.
unfoldable pub default : Config
default = record {
  bind_address = unspecified;
  bind_port = 1300;
  ssl_certificate = lit "/path/to/ssl_certs/cert.pem";
  ssl_privatekey = lit "/path/to/ssl_certs/privkey.pem";
  auth_type = AuthType.sq_lite (lit "chatd.auth");
  auth_salt = lit "5805fde87d8cbf0de22c396419f10bfa652f3e95225b50f1d446e1b225db4745";
  allow_clients = true;
  allow_guests = true;
  default_guest_options = 12;
  default_agent_options = 62;
  ban_db = lit "bans.db";
  motd_file_guests = lit "guest.motd";
  motd_file_clients = lit "client.motd";
  motd_file_agents = lit "agent.motd";
  use_staff_lobby = true;
  use_guest_lobby = true;
  use_global_lobby = true;
  max_topic_length = 128;
}
