-- ===== src/Tests/Disk.antt =====
-- A disk that never fails, for the theorems on what a second start finds.
use chatd.Base.{true, ◌≡◌, refl, Option, none, some, List, [], ◌∷◌, if◌then◌else◌}
use mathlib.Core.Path.{subst}
use chatd.Text.{Text, Bytes, lit, text_eq, text_eq_iff}
use chatd.Disk.{Disk, IsDisk}
use chatd.Ban
use chatd.Ban.{Ban}
use chatd.Config
use chatd.Config.{Config}
use chatd.Server
use chatd.Server.{Server, ban_exists}
use chatd.Startup.{load_config, start_server}
use chatd.Startup.Files.{load_config-again, start_server-keeps_bans}
use chatd.Tests.{home}

abbrev Files : Type 0
Files = Text → Option Bytes

abbrev written : Text → Bytes → Files → Files
written name contents fs = λ other. if text_eq other name then some contents else fs other

abbrev toy_disk : Disk Files
toy_disk = record {
  read = λ name fs. fs name;
  write = λ name contents fs. some (written name contents fs);
  from_utf8 = λ contents. some contents;
  as_bytes = λ t. t;
}

read_written :
    (name : Text) (contents : Bytes) (fs : Files) → written name contents fs name ≡ some contents
read_written name contents fs = rw ((text_eq_iff name name).1 refl) refl

toy_disk-IsDisk : IsDisk toy_disk
toy_disk-IsDisk = record {
  read_back = λ name contents fs fs' h.
      let same : written name contents fs ≡ fs' = cc h in
      subst (λ (x : Files). x name ≡ some contents) same (read_written name contents fs);
  utf8_back = λ t. refl;
}

abbrev blank : Files
blank = λ name. none

load_config-again_example :
    load_config toy_disk
      (λ t. some Config.default)
      (λ c. some (lit "{}"))
      (load_config toy_disk (λ t. some Config.default) (λ c. some (lit "{}")) blank).1
    ≡ load_config toy_disk (λ t. some Config.default) (λ c. some (lit "{}")) blank
load_config-again_example =
    load_config-again toy_disk toy_disk-IsDisk (λ t. some Config.default) (λ c. some (lit "{}"))
      (λ t h. refl) blank

-- A server with one ban, which is saved.
abbrev spammer : Ban
spammer = Ban.new 1000 home (lit "spam") 4600 (lit "root")

abbrev one_ban : Server
one_ban = Server.new (spammer ∷ []) [] [] [] Config.default

abbrev from_slice : Bytes → Option (List Ban)
from_slice t = some (spammer ∷ [])

abbrev to_vec : List Ban → Option Bytes
to_vec bans = some (91 ∷ [])

is_banned : ban_exists home one_ban ≡ true
unfolding Server.new ban_exists chatd.Ban.exists Ban.new
is_banned = refl

start_server-keeps_bans_example :
    ban_exists home
      (start_server toy_disk from_slice to_vec 1 2 3 Config.default
        (written Config.default.ban_db (91 ∷ []) blank)).0.world.server
    ≡ true
unfolding Server.new chatd.Startup.write_bans
start_server-keeps_bans_example =
    start_server-keeps_bans toy_disk toy_disk-IsDisk from_slice to_vec 1 2 3 Config.default one_ban
      blank (written Config.default.ban_db (91 ∷ []) blank) home
      (λ t h. (refl, λ empty. absurd (cc (h, empty)))) is_banned refl
