-- ===== src/Tests/Auth.antt =====
-- A small database, hash and disk, for the theorems on accounts and on starts.
use chatd.Base.{
  ℕ, ◌%◌, ◌≡◌, ◌≢◌, refl, Option, none, some, List, [], ◌∷◌, ◌++◌, if◌then◌else◌, All, length,
  is_some, arith,
}
use chatd.Text.{Text, lit, text_eq}
use chatd.Auth.{
  ℤ, Value, SqlError, Fetched, Sqlite, Answer, AuthSqLite, Added, hash_password, hex, add,
  by_username_password,
}
use chatd.Auth.Hash.{IsByte, unhex, unhex-hex}
use chatd.Auth.Table.{Agent, first, is_named, is_login, select, IsSqlite}
use chatd.Auth.Users.{stored, enrol, add-enrol, by_username_password-add}
use chatd.ClientOptions
use chatd.Startup.{prepare_users}
use chatd.Startup.Users.{prepare_users-logs_in}

abbrev Db : Type 0
Db = Option (List Agent)

-- The number of placeholders tells the statements apart.
abbrev toy_fetch : Text → List Value → Db → Fetched
toy_fetch q [] none = Fetched.failed (SqlError.other [])
toy_fetch q [] (some []) = Fetched.failed SqlError.row_not_found
toy_fetch q [] (some (x ∷ xs)) = Fetched.row (Value.integer (ℤ.pos 1))
toy_fetch q (Value.text u ∷ []) d = select [] d (is_named u)
toy_fetch q (Value.text u ∷ Value.text h ∷ []) d = select [] d (is_login u h)
toy_fetch q _ d = Fetched.failed (SqlError.other [])

abbrev toy_insert : Agent → List Agent → Option Agent → Db × Option SqlError
toy_insert a xs none = (some (xs ++ (a ∷ [])), none)
toy_insert a xs (some b) = (some xs, some (SqlError.other []))

abbrev toy_execute : Text → List Value → Db → Db × Option SqlError
toy_execute q [] none = (some [], none)
toy_execute q [] (some xs) = (some xs, some (SqlError.other []))
toy_execute q (Value.text u ∷ Value.text h ∷ Value.integer n ∷ []) (some xs) =
    toy_insert (record { username = u; password = h; permissions = n }) xs (first (is_named u) xs)
toy_execute q _ d = (d, some (SqlError.other []))

abbrev toy_get : Value → Option ℕ
toy_get (Value.integer (ℤ.pos n)) = some n
toy_get _ = none

abbrev toy : Sqlite Db
toy = record {
  fetch_one = toy_fetch;
  execute = toy_execute;
  get_u64 = toy_get;
  to_string = λ e. [];
}

toy-IsSqlite : IsSqlite toy (λ d. d)
toy-IsSqlite = record {
  no_table = [];
  login = λ u h d. refl;
  username = λ u d. refl;
  missing = λ d h. rw h refl;
  empty = λ d h. rw h refl;
  inhabited = λ d x xs h. (Value.integer (ℤ.pos 1), rw h refl);
  insert = λ u h n d xs t free. (
    some (xs ++ (record { username = u; password = h; permissions = n } ∷ [])),
    rw (t, free) refl,
    refl,
  );
  create = λ d h. (some [], rw h refl, refl);
  create_again = λ d xs h. ([], rw h refl);
  get = λ n. refl;
}

abbrev toy_hash : Text → List ℕ
toy_hash t = length t % 256 ∷ []

toy_bytes : (t : Text) → All IsByte (toy_hash t)
toy_bytes t = (omega arith, tt)

abbrev self : AuthSqLite
self = record { file = lit "chatd.auth"; salt = lit "salt" }

unhex-hex_example : unhex (hex (10 ∷ 255 ∷ [])) ≡ 10 ∷ 255 ∷ []
unhex-hex_example = unhex-hex (10 ∷ 255 ∷ []) (omega arith, (omega arith, tt))

-- One account, to which others are added.
abbrev ray_row : Agent
ray_row = stored toy (λ d. d) toy-IsSqlite toy_hash self (lit "ray") (lit "pw") 63

abbrev ray_readable : All (λ a. (n : ℕ) × (a.permissions ≡ ℤ.pos n)) (ray_row ∷ [])
unfolding chatd.Auth.as_i64
ray_readable = ((63, refl), tt)

add-enrol_example :
    (d' : Db) × (add toy toy_hash self (lit "ray") (lit "other") 2 (some (ray_row ∷ [])) ≡ (
      d',
      Answer.returned (
          if is_some (first (is_named (lit "ray")) (ray_row ∷ []))
          then Added.refused (lit "already exists")
          else Added.added (record { username = lit "ray"; permissions = 2 })),
    ))
    × (d'
        ≡ some (
            enrol toy
              (λ d. d)
              toy-IsSqlite
              toy_hash
              self
              (stored toy (λ d. d) toy-IsSqlite toy_hash self (lit "ray") (lit "other") 2)
              (ray_row ∷ [])))
add-enrol_example =
    add-enrol toy (λ d. d) toy-IsSqlite toy_hash self (lit "ray") (lit "other") 2
      (some (ray_row ∷ [])) (ray_row ∷ []) refl ray_readable

sue_is_free : first (is_named (lit "sue")) (ray_row ∷ []) ≡ none
unfolding first text_eq lit
sue_is_free = refl

by_username_password-add_example :
    (d' : Db) × (add toy toy_hash self (lit "sue") (lit "secret") 2 (some (ray_row ∷ []))
      ≡ (d', Answer.returned (Added.added (record { username = lit "sue"; permissions = 2 }))))
    × (by_username_password toy toy_hash self (lit "sue") (lit "secret") d'
        ≡ Answer.returned (some (record { username = lit "sue"; permissions = 2 })))
    × (d'
        ≡ some (
            ray_row
            ∷ stored toy (λ d. d) toy-IsSqlite toy_hash self (lit "sue") (lit "secret") 2
            ∷ []))
    × ((q : Text)
        → toy_hash (lit "secret" ++ lit "+" ++ self.salt) ≢ toy_hash (q ++ lit "+" ++ self.salt)
        → by_username_password toy toy_hash self (lit "sue") q d' ≡ Answer.returned none)
by_username_password-add_example =
    by_username_password-add toy (λ d. d) toy-IsSqlite toy_hash self (lit "sue") (lit "secret") 2
      (some (ray_row ∷ [])) (ray_row ∷ []) refl sue_is_free (omega arith) toy_bytes

prepare_users-logs_in_example :
    (by_username_password toy toy_hash self
        (lit "admin")
        (lit "1234567")
        (prepare_users toy toy_hash self (lit "1234567") none)
      ≡ Answer.returned
          (some (record { username = lit "admin"; permissions = ClientOptions.admin })))
    × ((other : Text)
        → prepare_users toy toy_hash self other
            (prepare_users toy toy_hash self (lit "1234567") none)
          ≡ prepare_users toy toy_hash self (lit "1234567") none)
prepare_users-logs_in_example =
    prepare_users-logs_in toy (λ d. d) toy-IsSqlite toy_hash self (lit "1234567") none toy_bytes
      refl
