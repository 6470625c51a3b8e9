-- ===== src/Standing/Granted.antt =====
-- By what right a client has its type and its permissions.
use chatd.Base.{ℕ, true, ◌≡◌, ◌∙◌, some, inl, inr}
use chatd.Text.{Text, is_match}
use chatd.Dict.{lookup, lookup-insert_inv}
use chatd.Message.{Uuid}
use chatd.ClientOptions
use chatd.Client.{Client, ClientType}
use chatd.Config.{Config}
use chatd.Server.{Server, put_client}
use chatd.World.{World}
use chatd.Commands.AuthAgent.{AuthFinder, UserAuthEntry}
use chatd.Standing.{Persists, Stays, persists}

module _ (authfinder : AuthFinder) (config : Config) where
  -- A client with no type has the permissions of a connection; an agent those of an entry that the
  -- user database has for some name and password; a guest, where guests are allowed, those of the
  -- configuration; and no client is a contact. Agents and guests have a name of 3 to 30 letters,
  -- digits, blanks and dashes.
  unfoldable pub Grants : ClientType → ℕ → Text → Type 0
  Grants ClientType.unset options name = options ≡ ClientOptions.join_channels
  Grants ClientType.agent options name =
      ((username : Text) × (password : Text) × (entry : UserAuthEntry)
        × (authfinder.by_username_password username password ≡ some entry)
        × (options ≡ entry.permissions))
      × (is_match 3 30 name ≡ true)
  Grants ClientType.contact options name = ⊥
  Grants ClientType.guest options name =
      (config.allow_guests ≡ true)
      × (options ≡ config.default_guest_options)
      × (is_match 3 30 name ≡ true)

  abbrev pub IsGranted : Client → Type 0
  IsGranted c = Grants c.type c.options c.name

  -- All clients are under their ids, with what they were granted.
  pub record IsWarranted (s : Server) : Type 0 where
    pub at : (u : Uuid) (c : Client) → lookup u s.clients ≡ some c → (c.id ≡ u) × IsGranted c

  pub Persists-IsWarranted : (s t : Server) → Persists s t → IsWarranted s → IsWarranted t
  Persists-IsWarranted s t p v = record {
    at = λ u d h.
        let (c, g, same) = p.at u d h in
        let (id, granted) = v.at u c g in
        (same.id ∙ id, rw (same.type, same.options, same.name) granted);
  }

  pub put-IsWarranted :
      (u : Uuid) (c : Client) (s : Server)
      → c.id ≡ u
      → IsGranted c
      → IsWarranted s
      → IsWarranted (put_client u c s)
  unfolding put_client
  put-IsWarranted u c s id granted v = record {
    at = λ j d h. elim (lookup-insert_inv u j c d s.clients h) [
      | inl (p, q) ↦ (rw (← p, ← q) id, rw (← q) granted)
      | inr (p, q) ↦ v.at j d q
    ];
  }

  -- The same for states with effects.
  unfoldable pub IsLawful : World → Type 0
  IsLawful w = IsWarranted w.server

  pub lawful : (w : World) → IsWarranted w.server → IsLawful w
  unfolding IsLawful
  lawful w v = v

  pub warranted : (w : World) → IsLawful w → IsWarranted w.server
  unfolding IsLawful
  warranted w v = v

  pub Stays-IsLawful : (w x : World) → Stays w x → IsLawful w → IsLawful x
  unfolding IsLawful
  Stays-IsLawful w x p v = Persists-IsWarranted w.server x.server (persists w x p) v
