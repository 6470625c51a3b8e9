-- ===== src/Auth/Table.antt =====
-- The table of agents, and what SQLite promises of the five statements on it.
use chatd.Base.{ℕ, Bool, ◌≡◌, ◌&&◌, Option, none, some, List, [], ◌∷◌, ◌++◌, if◌then◌else◌}
use chatd.Text.{Text, text_eq}
use chatd.Auth.{
  ℤ, Value, SqlError, Fetched, Sqlite, select_login, select_username, select_id, insert_agent,
  create_agents,
}

-- A row, without its number.
pub record Agent : Type 0 where
  pub username : Text
  pub password : Text
  pub permissions : ℤ

unfoldable pub first : (Agent → Bool) → List Agent → Option Agent
first p [] = none
first p (a ∷ xs) = if p a then some a else first p xs

abbrev pub is_named : Text → Agent → Bool
is_named username a = text_eq a.username username

abbrev pub is_login : Text → Text → Agent → Bool
is_login username password a = text_eq a.username username && text_eq a.password password

-- The permissions of the first row that passes the test; an error if there is no table.
unfoldable pub permissions_of : Option Agent → Fetched
permissions_of none = Fetched.failed SqlError.row_not_found
permissions_of (some a) = Fetched.row (Value.integer a.permissions)

unfoldable pub select : Text → Option (List Agent) → (Agent → Bool) → Fetched
select no_table none p = Fetched.failed (SqlError.other no_table)
select no_table (some xs) p = permissions_of (first p xs)

-- A connection to SQLite while no input or output fails: `agents` is the table that a file holds,
-- if it holds one.
pub record IsSqlite {D : Type 0} (sql : Sqlite D) (agents : D → Option (List Agent)) : Type 0 where
  pub no_table : Text
  pub login :
      (u h : Text) (db : D)
      → sql.fetch_one select_login (Value.text u ∷ Value.text h ∷ []) db
        ≡ select no_table (agents db) (is_login u h)
  pub username :
      (u : Text) (db : D)
      → sql.fetch_one select_username (Value.text u ∷ []) db
        ≡ select no_table (agents db) (is_named u)
  pub missing :
      (db : D)
      → agents db ≡ none
      → sql.fetch_one select_id [] db ≡ Fetched.failed (SqlError.other no_table)
  pub empty :
      (db : D)
      → agents db ≡ some []
      → sql.fetch_one select_id [] db ≡ Fetched.failed SqlError.row_not_found
  pub inhabited :
      (db : D) (a : Agent) (xs : List Agent)
      → agents db ≡ some (a ∷ xs)
      → (v : Value) × (sql.fetch_one select_id [] db ≡ Fetched.row v)
  pub insert :
      (u h : Text) (n : ℤ) (db : D) (xs : List Agent)
      → agents db ≡ some xs
      → first (is_named u) xs ≡ none
      → (db' : D) × (sql.execute insert_agent
            (Value.text u ∷ Value.text h ∷ Value.integer n ∷ [])
            db
          ≡ (db', none))
        × (agents db' ≡ some (xs ++ (record { username = u; password = h; permissions = n } ∷ [])))
  pub create :
      (db : D)
      → agents db ≡ none
      → (db' : D) × (sql.execute create_agents [] db ≡ (db', none)) × (agents db' ≡ some [])
  -- A file that has the table refuses a second one, and stays.
  pub create_again :
      (db : D) (xs : List Agent)
      → agents db ≡ some xs
      → (e : Text) × (sql.execute create_agents [] db ≡ (db, some (SqlError.other e)))
  pub get : (n : ℕ) → sql.get_u64 (Value.integer (ℤ.pos n)) ≡ some n
