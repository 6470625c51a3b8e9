-- ===== src/Auth.antt =====
-- src/auth.rs: the user database `AuthSqLite`. SQLite, its client library and the hash function
-- are the parameters `Sqlite` and `sha256`.
pub mod Hash
pub mod Table
pub mod Users
use chatd.Base.{
  ℕ, ◌+◌, ◌-◌, ◌/◌, ◌%◌, ◌^◌, Bool, true, false, Option, none, some, List, [], ◌∷◌, ◌++◌, ltb,
  if◌then◌else◌, is_some, Result, ok, err,
}
use chatd.Text.{Text, lit}
use chatd.Commands.AuthAgent.{UserAuthEntry}

pub data ℤ : Type 0 where
  pos : ℕ → ℤ
  negsuc : ℕ → ℤ

-- What is bound to a placeholder, and what a column of a row holds.
pub data Value : Type 0 where
  text : Text → Value
  integer : ℤ → Value

-- `sqlx::Error`; `other` holds its text.
pub data SqlError : Type 0 where
  row_not_found : SqlError
  other : Text → SqlError

-- What `fetch_one` gives: the first column of the row, or an error.
pub data Fetched : Type 0 where
  row : Value → Fetched
  failed : SqlError → Fetched

-- The connection, over the states `D` of the database file: a query, a statement that may change
-- the file, `Row::get(0)` as `u64` (which panics on what is none), and the text of an error.
pub record Sqlite (D : Type 0) : Type 0 where
  pub fetch_one : Text → List Value → D → Fetched
  pub execute : Text → List Value → D → D × Option SqlError
  pub get_u64 : Value → Option ℕ
  pub to_string : SqlError → Text

-- What a method returns, or that it panics.
pub data Answer (A : Type 0) : Type 0 where
  returned : A → Answer A
  panicked : Answer A

-- `AuthSqLite`, with the connection apart.
pub record AuthSqLite : Type 0 where
  pub file : Text
  pub salt : Text

-- `Result<UserAuthEntry, String>`
pub data Added : Type 0 where
  added : UserAuthEntry → Added
  refused : Text → Added

unfoldable pub select_login : Text
select_login =
    lit "SELECT `permissions` FROM `agents` WHERE `username` = ? AND `password` = ? LIMIT 1"

unfoldable pub select_username : Text
select_username = lit "SELECT `permissions` FROM `agents` WHERE `username` = ? LIMIT 1"

unfoldable pub select_id : Text
select_id = lit "SELECT `id` FROM `agents` LIMIT 1"

unfoldable pub insert_agent : Text
insert_agent = lit "INSERT INTO `agents` (`username`, `password`, `permissions`) VALUES (?, ?, ?)"

unfoldable pub create_agents : Text
create_agents =
    lit
      "CREATE TABLE `agents` (id INTEGER PRIMARY KEY, username TEXT NOT NULL UNIQUE, password BLOB NOT NULL, permissions INTEGER NOT NULL DEFAULT 0)"

-- `bits() as i64`
unfoldable pub as_i64 : ℕ → ℤ
as_i64 n = if ltb n (2 ^ 63) then ℤ.pos n else ℤ.negsuc (2 ^ 64 - 1 - n)

-- A digit of `{:02x}`.
unfoldable pub hex_digit : ℕ → ℕ
hex_digit d = if ltb d 10 then b'0' + d else b'a' + (d - 10)

-- `format!("{:02x}", byte)` of every byte.
unfoldable pub hex : List ℕ → Text
hex [] = []
hex (b ∷ bs) = hex_digit (b / 16) ∷ hex_digit (b % 16) ∷ hex bs

module _ (sha256 : Text → List ℕ) where
  unfoldable pub hash_password : Text → Text → Text
  hash_password password salt = hex (sha256 (password ++ lit "+" ++ salt))

module _ {D : Type 0} (sql : Sqlite D) where
  unfoldable pub entry_of : Text → Value → Answer (Option UserAuthEntry)
  entry_of username value = elim (sql.get_u64 value) [
    | none ↦ Answer.panicked
    | some n ↦ Answer.returned (some (record { username = username; permissions = n }))
  ]

  -- What both lookups make of the row.
  unfoldable pub found : Text → Fetched → Answer (Option UserAuthEntry)
  found username (Fetched.row value) = entry_of username value
  found username (Fetched.failed e) = Answer.returned none

  unfoldable pub by_username : Text → D → Answer (Option UserAuthEntry)
  by_username username db =
      found username (sql.fetch_one select_username (Value.text username ∷ []) db)

  unfoldable pub has_row : Fetched → Result Bool
  has_row (Fetched.row value) = ok true
  has_row (Fetched.failed SqlError.row_not_found) = ok false
  has_row (Fetched.failed (SqlError.other e)) = err

  unfoldable pub has_any : D → Result Bool
  has_any db = has_row (sql.fetch_one select_id [] db)

  unfoldable pub created : D × Option SqlError → D × ℤ
  created (db, none) = (db, ℤ.pos 1)
  created (db, some e) = (db, ℤ.negsuc 0)

  -- The `i8` is 18 if the table is there, 1 if it was created and -1 if that failed.
  unfoldable pub create_if : Fetched → D → D × ℤ
  create_if (Fetched.row value) db = (db, ℤ.pos 18)
  create_if (Fetched.failed e) db = created (sql.execute create_agents [] db)

  unfoldable pub create_tables : D → D × ℤ
  create_tables db = create_if (sql.fetch_one select_id [] db) db

  unfoldable pub inserted : UserAuthEntry → D × Option SqlError → D × Answer Added
  inserted entry (db, none) = (db, Answer.returned (Added.added entry))
  inserted entry (db, some e) = (db, Answer.returned (Added.refused (sql.to_string e)))

  unfoldable pub all : D → Option (List UserAuthEntry)
  all db = none

  -- `delete` gives no error, and does nothing.
  unfoldable pub delete : Text → D → D × Option Text
  delete username db = (db, none)

  module _ (sha256 : Text → List ℕ) (self : AuthSqLite) where
    unfoldable pub by_username_password : Text → Text → D → Answer (Option UserAuthEntry)
    by_username_password username password db = found username (
        sql.fetch_one select_login
          (Value.text username ∷ Value.text (hash_password sha256 password self.salt) ∷ []) db)

    unfoldable pub store_agent : Text → Text → ℕ → D → D × Answer Added
    store_agent username password permissions db =
        inserted (record { username = username; permissions = permissions })
          (sql.execute insert_agent
            (Value.text username
              ∷ Value.text (hash_password sha256 password self.salt)
              ∷ Value.integer (as_i64 permissions)
              ∷ [])
            db)

    unfoldable pub add_unless :
        Answer (Option UserAuthEntry) → Text → Text → ℕ → D → D × Answer Added
    add_unless Answer.panicked username password permissions db = (db, Answer.panicked)
    add_unless (Answer.returned (some entry)) username password permissions db =
        (db, Answer.returned (Added.refused (lit "already exists")))
    add_unless (Answer.returned none) username password permissions db =
        store_agent username password permissions db

    unfoldable pub add : Text → Text → ℕ → D → D × Answer Added
    add username password permissions db =
        add_unless (by_username username db) username password permissions db
