-- ===== src/Startup.antt =====
-- src/main.rs: what `main` does before it takes connections, with the methods of config.rs, ban.rs
-- and server.rs that read and write files.
pub mod Files
pub mod Users
use chatd.Base.{
  ◌>>=◌, ℕ, Bool, true, false, Option, none, some, List, [], ◌∷◌, ◌&&◌, not, if◌then◌else◌, is_some,
  unwrap_or, Result, ok, err,
}
use chatd.Text.{Text, Bytes, lit}
use chatd.Disk.{Disk, read_to_string}
use chatd.Message.{Uuid}
use chatd.ClientOptions
use chatd.Ban.{Ban, load_bans}
use chatd.Config.{Config, AuthType}
use chatd.Server
use chatd.Server.{create_default_channels}
use chatd.World.{World}
use chatd.Auth.{Sqlite, AuthSqLite, Answer, Added, has_any, create_tables, add}
use chatd.Session.Machine.{Machine}

abbrev pub config_file : Text
config_file = lit "chatd.conf"

-- serde_json, as the parameters `from_str` and `to_string_pretty`.
module _ {F : Type 0} (disk : Disk F) (from_str : Text → Option Config)
    (to_string_pretty : Config → Option Text) where
  unfoldable pub from_disk : Text → F → Option Config
  from_disk filename fs = do contents ← read_to_string disk filename fs; from_str contents

  unfoldable pub to_disk : Config → Text → F → Option F
  to_disk config filename fs = do
    contents ← to_string_pretty config
    disk.write filename (disk.as_bytes contents) fs

  -- The configuration of the file; without one the default, which is saved if that is possible.
  unfoldable pub load_config : F → Config × F
  load_config fs = elim (from_disk config_file fs) [
    | some config ↦ (config, fs)
    | none ↦ (chatd.Config.default, unwrap_or (to_disk chatd.Config.default config_file fs) fs)
  ]

module _ {F : Type 0} (disk : Disk F) (from_slice : Bytes → Option (List Ban))
    (to_vec : List Ban → Option Bytes) where
  -- `Server::load_bans_db`: a file that cannot be read is created.
  unfoldable pub load_bans_db : Text → F → List Ban × F
  load_bans_db filename fs =
      let contents = disk.read filename fs in
      let created = if is_some contents then none else disk.write filename [] fs in
      (unwrap_or (load_bans contents (is_some created) from_slice) [], unwrap_or created fs)

  -- `Ban::save_to_disk` up to its write; an empty list is not written.
  unfoldable pub write_bans : Text → List Ban → F → Option F
  write_bans filename [] fs = some fs
  write_bans filename (ban ∷ bans) fs = do
    contents ← to_vec (ban ∷ bans)
    disk.write filename contents fs

  -- `Server::load_motd_file`
  unfoldable pub load_motd_file : Text → F → Text
  load_motd_file filename fs = unwrap_or (read_to_string disk filename fs) []

  -- `Server::new` and `create_default_channels`, on the files that the configuration names.
  unfoldable pub start_server : Uuid → Uuid → Uuid → Config → F → Machine × F
  start_server id₁ id₂ id₃ config fs =
      let loaded = load_bans_db config.ban_db fs in
      (
        record {
          world = record {
            server = create_default_channels id₁ id₂ id₃ config (
                Server.new loaded.0 (load_motd_file config.motd_file_guests loaded.1)
                  (load_motd_file config.motd_file_clients loaded.1)
                  (load_motd_file config.motd_file_agents loaded.1) config);
            effects = [];
          };
          reading = true;
          handshakes = [];
        },
        loaded.1,
      )

module _ {D : Type 0} (sql : Sqlite D) (sha256 : Text → List ℕ) (self : AuthSqLite) where
  -- The branches on `has_any`: the account `admin` is added if there is none at all.
  unfoldable pub generate : Result Bool → Text → D → D
  generate err random_password db = db
  generate (ok true) random_password db = db
  generate (ok false) random_password db =
      (add sql sha256 self (lit "admin") random_password ClientOptions.admin db).0

  unfoldable pub prepare_users : Text → D → D
  prepare_users random_password db =
      let created = (create_tables sql db).0 in
      generate (has_any sql created) random_password created

-- The certificates, the key, the socket and the database of the configuration: `none` where a
-- file or an address is refused. A certificate in a file that cannot be read is `false`.
pub record Host (D : Type 0) : Type 0 where
  pub pem_file_iter : Text → Option (List Bool)
  pub from_pem_file : Text → Bool
  pub with_single_cert : Text → Text → Bool
  pub bind : Text → Bool
  pub connect : Text → Option D

pub data Prepared (D : Type 0) : Type 0 where
  ready : AuthSqLite → D → Prepared D
  exits : Prepared D
  panics : Prepared D

abbrev all_read : List Bool → Bool
all_read [] = true
all_read (b ∷ bs) = b && all_read bs

module _ {D : Type 0} (host : Host D) where
  unfoldable pub open_users : Config → AuthType → Prepared D
  open_users config (AuthType.invent url apikey) = Prepared.exits
  open_users config (AuthType.sq_lite path) = elim (host.connect path) [
    | none ↦ Prepared.exits
    | some db ↦ Prepared.ready (record { file = path; salt = config.auth_salt }) db
  ]

  -- From the certificates to the database. The address is a constant, whatever the configuration
  -- says.
  unfoldable pub prepare_host : Config → Prepared D
  prepare_host config = elim (host.pem_file_iter config.ssl_certificate) [
    | none ↦ Prepared.exits
    | some certificates ↦
        if not (all_read certificates)
        then Prepared.panics
        else if host.from_pem_file config.ssl_privatekey
            && host.with_single_cert config.ssl_certificate config.ssl_privatekey
            && host.bind (lit "0.0.0.0:1300")
        then open_users config config.auth_type
        else Prepared.exits
  ]
