-- ===== src/Auth/Users.antt =====
-- What the methods of the user database do to the table of agents.
use chatd.Base.{
  ℕ, ◌^◌, ◌<◌, Bool, true, ◌≡◌, ◌≢◌, refl, ◌∙◌, Option, none, some, inl, inr, List, [], ◌∷◌, ◌++◌,
  if◌then◌else◌, All, is_some, arith, Bool-cases, Option-cases,
}
use mathlib.Core.Path.{subst}
use chatd.Text.{Text, lit, text_eq, text_eq_iff}
use chatd.Commands.AuthAgent.{UserAuthEntry}
use chatd.Auth.{
  ℤ, Sqlite, Answer, AuthSqLite, Added, as_i64, hash_password, entry_of, found, by_username,
  by_username_password, inserted, store_agent, add_unless, add,
}
use chatd.Auth.Table.{Agent, first, is_named, is_login, permissions_of, select, IsSqlite}
use chatd.Auth.Hash.{IsByte, hash_password-injective}

text_eq_refl : (s : Text) → text_eq s s ≡ true
text_eq_refl s = (text_eq_iff s s).1 refl

-- Whoever has no row of that name has none with a password either.
first-is_login :
    (u h : Text) (xs : List Agent) → first (is_named u) xs ≡ none → first (is_login u h) xs ≡ none
unfolding first
first-is_login u h [] p = refl
first-is_login u h (x ∷ xs) p = elim (Bool-cases (text_eq x.username u)) [
  | inl same ↦ absurd (cc (rw same at p))
  | inr other ↦ rw other (first-is_login u h xs (rw other at p))
]

first-append :
    (p : Agent → Bool) (a : Agent) (xs : List Agent)
    → first p xs ≡ none
    → first p (xs ++ (a ∷ [])) ≡ (if p a then some a else none)
unfolding first
first-append p a [] h = refl
first-append p a (x ∷ xs) h = elim (Bool-cases (p x)) [
  | inl hit ↦ absurd (cc (rw hit at h))
  | inr other ↦ rw other (first-append p a xs (rw other at h))
]

as_i64_small : (n : ℕ) → n < 2 ^ 63 → as_i64 n ≡ ℤ.pos n
unfolding as_i64
as_i64_small n h = ground arith

module _ {D : Type 0} (sql : Sqlite D) (agents : D → Option (List Agent)) (db : IsSqlite sql agents)
    (sha256 : Text → List ℕ) (self : AuthSqLite) where
  -- The row that `add` stores.
  abbrev pub stored : Text → Text → ℕ → Agent
  stored username password permissions = record {
    username = username;
    password = hash_password sha256 password self.salt;
    permissions = as_i64 permissions;
  }

  by_username-none :
      (u : Text) (d : D) (xs : List Agent)
      → agents d ≡ some xs
      → first (is_named u) xs ≡ none
      → by_username sql u d ≡ Answer.returned none
  unfolding by_username found select permissions_of
  by_username-none u d xs h free = rw (db.username u d, h, select, free, permissions_of) refl

  pub add-new :
      (u p : Text) (n : ℕ) (d : D) (xs : List Agent)
      → agents d ≡ some xs
      → first (is_named u) xs ≡ none
      → (d' : D) × (add sql sha256 self u p n d
          ≡ (d', Answer.returned (Added.added (record { username = u; permissions = n }))))
        × (agents d' ≡ some (xs ++ (stored u p n ∷ [])))
  unfolding add add_unless store_agent inserted
  add-new u p n d xs h free =
      let (d', e, t) = db.insert u (hash_password sha256 p self.salt) (as_i64 n) d xs h free in
      (d', rw (by_username-none u d xs h free, e) refl, t)

  -- What a login gives once the row of a new name is there.
  login_after :
      (u p q : Text) (n : ℕ) (d : D) (xs : List Agent)
      → agents d ≡ some (xs ++ (stored u p n ∷ []))
      → first (is_named u) xs ≡ none
      → by_username_password sql sha256 self u q d
        ≡ found sql u (
            permissions_of (
              if text_eq (hash_password sha256 p self.salt) (hash_password sha256 q self.salt)
              then some (stored u p n)
              else none))
  unfolding by_username_password select
  login_after u p q n d xs h free =
      let hash = hash_password sha256 q self.salt in
      rw
        (
          db.login u hash d,
          h,
          select,
          first-append (is_login u hash) (stored u p n) xs (first-is_login u hash xs free),
          text_eq_refl u,
        )
        refl

  -- A name that the table does not have is added with a number below 2 ^ 63 as its permissions.
  -- Then the table has one more row, the password gives the entry that was added, and a password
  -- with another hash gives nothing.
  pub by_username_password-add :
      (u p : Text) (n : ℕ) (d : D) (xs : List Agent)
      → agents d ≡ some xs
      → first (is_named u) xs ≡ none
      → n < 2 ^ 63
      → ((t : Text) → All IsByte (sha256 t))
      → (d' : D) × (add sql sha256 self u p n d
          ≡ (d', Answer.returned (Added.added (record { username = u; permissions = n }))))
        × (by_username_password sql sha256 self u p d'
            ≡ Answer.returned (some (record { username = u; permissions = n })))
        × (agents d' ≡ some (xs ++ (stored u p n ∷ [])))
        × ((q : Text)
            → sha256 (p ++ lit "+" ++ self.salt) ≢ sha256 (q ++ lit "+" ++ self.salt)
            → by_username_password sql sha256 self u q d' ≡ Answer.returned none)
  unfolding found entry_of permissions_of
  by_username_password-add u p n d xs h free small bytes =
      let (d', e, t) = add-new u p n d xs h free in
      (
        d',
        e,
        login_after u p p n d' xs t free
            ∙ rw
                (
                  text_eq_refl (hash_password sha256 p self.salt),
                  as_i64_small n small,
                  permissions_of,
                  found,
                  entry_of,
                  db.get n,
                )
                refl,
        t,
        λ q differ.
            login_after u p q n d' xs t free
            ∙ elim (Bool-cases
                (text_eq (hash_password sha256 p self.salt) (hash_password sha256 q self.salt))) [
                  | inl same ↦ absurd (
                      differ (
                        hash_password-injective sha256 p q self.salt bytes
                          ((text_eq_iff _ _).0 same)))
                  | inr other ↦ rw other refl
                ],
      )

  -- A table whose permissions can be read as `u64`.
  abbrev pub IsReadable : Agent → Type 0
  IsReadable a = (n : ℕ) × (a.permissions ≡ ℤ.pos n)

  first-IsReadable :
      (t : Agent → Bool) (xs : List Agent) (a : Agent)
      → All IsReadable xs
      → first t xs ≡ some a
      → IsReadable a
  unfolding first
  first-IsReadable t [] a r h = absurd (cc h)
  first-IsReadable t (x ∷ xs) a (r, rs) h = elim (Bool-cases (t x)) [
    | inl hit ↦ let same : x ≡ a = cc (rw hit at h) in subst IsReadable same r
    | inr other ↦ first-IsReadable t xs a rs (rw other at h)
  ]

  by_username-some :
      (u : Text) (d : D) (xs : List Agent) (a : Agent)
      → agents d ≡ some xs
      → first (is_named u) xs ≡ some a
      → IsReadable a
      → (entry : UserAuthEntry) × (by_username sql u d ≡ Answer.returned (some entry))
  unfolding by_username found select permissions_of entry_of
  by_username-some u d xs a h there (n, r) = (
    record { username = u; permissions = n },
    rw (db.username u d, h, select, there, permissions_of, r, found, entry_of, db.get n) refl,
  )

  -- The abstract view of `add`: a table with one row more, unless the name is taken.
  unfoldable pub enrol : Agent → List Agent → List Agent
  enrol a xs = if is_some (first (is_named a.username) xs) then xs else xs ++ (a ∷ [])

  -- `add` on a table that can be read implements `enrol`: it returns the new entry if the name was
  -- free and an error if not, and the table is the one of `enrol` on either branch.
  pub add-enrol :
      (u p : Text) (n : ℕ) (d : D) (xs : List Agent)
      → agents d ≡ some xs
      → All IsReadable xs
      → (d' : D) × (add sql sha256 self u p n d ≡ (
        d',
        Answer.returned (
            if is_some (first (is_named u) xs)
            then Added.refused (lit "already exists")
            else Added.added (record { username = u; permissions = n })),
      ))
        × (agents d' ≡ some (enrol (stored u p n) xs))
  unfolding add add_unless enrol
  add-enrol u p n d xs h readable = elim (Option-cases (first (is_named u) xs)) [
    | inl free ↦ rw free (add-new u p n d xs h free)
    | inr (a, there) ↦
        let (entry, e) =
          by_username-some u d xs a h there (first-IsReadable (is_named u) xs a readable there) in
        (d, rw (there, e) refl, rw there h)
  ]
