-- ===== src/Disk.antt =====
-- The file system, for the reads and writes of config.rs, ban.rs and server.rs.
use chatd.Base.{◌>>=◌, ◌≡◌, Option, some}
use chatd.Text.{Text, Bytes}

-- `fs::read` and `fs::write` over the states `F` of the disk, errors left out, and the two ways
-- between strings and their bytes.
pub record Disk (F : Type 0) : Type 0 where
  pub read : Text → F → Option Bytes
  pub write : Text → Bytes → F → Option F
  pub from_utf8 : Bytes → Option Text
  pub as_bytes : Text → Bytes

-- `fs::read_to_string`: bytes that are no UTF-8 are an error.
unfoldable pub read_to_string : {F : Type 0} → Disk F → Text → F → Option Text
read_to_string disk name fs = do contents ← disk.read name fs; disk.from_utf8 contents

-- A file that was written holds what was written, and the bytes of a string are UTF-8.
pub record IsDisk {F : Type 0} (disk : Disk F) : Type 0 where
  pub read_back :
      (name : Text) (contents : Bytes) (fs fs' : F)
      → disk.write name contents fs ≡ some fs'
      → disk.read name fs' ≡ some contents
  pub utf8_back : (t : Text) → disk.from_utf8 (disk.as_bytes t) ≡ some t

-- A string that was written is read back.
pub read_to_string-back :
    {F : Type 0}
    → (disk : Disk F) (law : IsDisk disk) (name t : Text) (fs fs' : F)
    → disk.write name (disk.as_bytes t) fs ≡ some fs'
    → read_to_string disk name fs' ≡ some t
unfolding read_to_string
read_to_string-back disk law name t fs fs' h =
    rw (law.read_back name (disk.as_bytes t) fs fs' h) (law.utf8_back t)
