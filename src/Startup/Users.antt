-- ===== src/Startup/Users.antt =====
-- The accounts after a start: the table is there, and it has an agent who can log in.
use chatd.Base.{
  ℕ, ◌^◌, ◌<◌, true, false, ◌≡◌, refl, sym, ◌∙◌, ap, Option, none, some, inl, inr, List, [], ◌∷◌,
  All, Option-cases, ok, arith,
}
use chatd.Text.{Text, lit}
use chatd.ClientOptions
use chatd.Auth.{
  Sqlite, Answer, AuthSqLite, has_row, has_any, created, create_if, create_tables, add,
  by_username_password,
}
use chatd.Auth.Hash.{IsByte}
use chatd.Auth.Table.{Agent, first, IsSqlite}
use chatd.Auth.Users.{by_username_password-add}
use chatd.Startup.{generate, prepare_users}

-- The rows of the table, where a file without a table has none.
abbrev pub rows : Option (List Agent) → List Agent
rows none = []
rows (some xs) = xs

admin_is_small : ClientOptions.admin < 2 ^ 63
admin_is_small = omega arith

module _ {D : Type 0} (sql : Sqlite D) (agents : D → Option (List Agent)) (db : IsSqlite sql agents)
    (sha256 : Text → List ℕ) (self : AuthSqLite) where
  create_tables-rows : (d : D) → agents (create_tables sql d).0 ≡ some (rows (agents d))
  unfolding create_tables create_if created
  create_tables-rows d = elim (Option-cases (agents d)) [
    | inl missing ↦
        let (d', e, t) = db.create d missing in
        rw (missing, db.missing d missing, create_if) (ap (λ r. agents (created sql r).0) e ∙ t)
    | inr ([], h) ↦
        let (reason, e) = db.create_again d [] h in
        rw (h, db.empty d h, create_if) (ap (λ r. agents (created sql r).0) e ∙ h)
    | inr (x ∷ xs, h) ↦ let (v, e) = db.inhabited d x xs h in rw (h, e, create_if) h
  ]

  has_any-empty : (d : D) → agents d ≡ some [] → has_any sql d ≡ ok false
  unfolding has_any has_row
  has_any-empty d h = rw (db.empty d h, has_row) refl

  has_any-some :
      (d : D) (x : Agent) (xs : List Agent) → agents d ≡ some (x ∷ xs) → has_any sql d ≡ ok true
  unfolding has_any has_row
  has_any-some d x xs h = let (v, e) = db.inhabited d x xs h in rw (e, has_row) refl

  prepare_users-keeps :
      (password : Text) (d : D) (x : Agent) (xs : List Agent)
      → agents d ≡ some (x ∷ xs)
      → agents (prepare_users sql sha256 self password d) ≡ some (x ∷ xs)
  unfolding prepare_users generate
  prepare_users-keeps password d x xs h =
      let t : agents (create_tables sql d).0 ≡ some (x ∷ xs) = rw h at (create_tables-rows d) in
      rw (has_any-some (create_tables sql d).0 x xs t, generate) t

  prepare_users-first :
      (password : Text) (d : D)
      → rows (agents d) ≡ []
      → prepare_users sql sha256 self password d
        ≡ (add sql sha256 self (lit "admin") password ClientOptions.admin (create_tables sql d).0).0
  unfolding prepare_users generate
  prepare_users-first password d none_yet =
      let t : agents (create_tables sql d).0 ≡ some [] = rw none_yet at (create_tables-rows d) in
      rw (has_any-empty (create_tables sql d).0 t, generate) refl

  -- After a start on a database with no table or an empty one, the account `admin` logs in with the
  -- generated password and gets the flag of an admin, and a further start, with whatever password
  -- it generates, leaves the agents as they are.
  pub prepare_users-logs_in :
      (password : Text) (d : D)
      → ((t : Text) → All IsByte (sha256 t))
      → rows (agents d) ≡ []
      → (by_username_password sql sha256 self
            (lit "admin")
            password
            (prepare_users sql sha256 self password d)
          ≡ Answer.returned
              (some (record { username = lit "admin"; permissions = ClientOptions.admin })))
        × ((other : Text)
            → agents
                (prepare_users sql sha256 self other (prepare_users sql sha256 self password d))
              ≡ agents (prepare_users sql sha256 self password d))
  unfolding first
  prepare_users-logs_in password d bytes none_yet =
      let t : agents (create_tables sql d).0 ≡ some [] = rw none_yet at (create_tables-rows d) in
      let (d', e, login, table, rest) =
        by_username_password-add sql agents db sha256 self (lit "admin") password
          ClientOptions.admin (create_tables sql d).0 [] t refl admin_is_small bytes in
      rw (prepare_users-first password d none_yet, e)
        (login, λ other. prepare_users-keeps other d' _ [] table ∙ sym table)
