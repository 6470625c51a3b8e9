-- ===== src/Startup/Files.antt =====
-- What a second start finds on the disk: the configuration and the bans of the first.
use chatd.Base.{
  ◌≢◌, true, false, ◌≡◌, refl, ◌∙◌, Option, none, some, inl, inr, List, [], ◌∷◌, unwrap_or,
  Option-cases,
}
use chatd.Text.{Text, Bytes}
use chatd.Disk.{Disk, IsDisk, read_to_string-back}
use chatd.Message.{Uuid, IpAddr}
use chatd.Ban.{Ban, exists, load_bans}
use chatd.Config.{Config}
use chatd.Server
use chatd.Server.{Server, ban_exists, create_default_channels}
use chatd.Standing.Run.{add_lobby_bans}
use chatd.Startup.{
  config_file, from_disk, to_disk, load_config, load_bans_db, write_bans, start_server,
}

module _ {F : Type 0} (disk : Disk F) (law : IsDisk disk) (from_str : Text → Option Config)
    (to_string_pretty : Config → Option Text)
    (round_trip : (t : Text)
      → to_string_pretty chatd.Config.default ≡ some t
      → from_str t ≡ some chatd.Config.default) where
  to_disk-back :
      (fs fs' : F)
      → to_disk disk from_str to_string_pretty chatd.Config.default config_file fs ≡ some fs'
      → from_disk disk from_str to_string_pretty config_file fs' ≡ some chatd.Config.default
  unfolding to_disk from_disk
  to_disk-back fs fs' h = elim (Option-cases (to_string_pretty chatd.Config.default)) [
    | inl fails ↦ absurd (cc (rw fails at h))
    | inr (t, written) ↦
        rw (read_to_string-back disk law config_file t fs fs' (rw written at h))
          (round_trip t written)
  ]

  load_config-found :
      (c : Config) (fs : F)
      → from_disk disk from_str to_string_pretty config_file fs ≡ some c
      → load_config disk from_str to_string_pretty fs ≡ (c, fs)
  unfolding load_config
  load_config-found c fs h = rw (load_config, h) refl

  load_config-missing :
      (fs : F)
      → from_disk disk from_str to_string_pretty config_file fs ≡ none
      → load_config disk from_str to_string_pretty fs ≡ (
        chatd.Config.default,
        unwrap_or (to_disk disk from_str to_string_pretty chatd.Config.default config_file fs) fs,
      )
  unfolding load_config
  load_config-missing fs h = rw (load_config, h) refl

  -- If the default configuration can be read back once it is saved, then a second start has the
  -- configuration of the first and leaves the disk as it is, whether the first found a file, could
  -- save one, or neither.
  pub load_config-again :
      (fs : F)
      → load_config disk from_str to_string_pretty (load_config disk from_str to_string_pretty fs).1
        ≡ load_config disk from_str to_string_pretty fs
  load_config-again fs =
      elim (Option-cases (from_disk disk from_str to_string_pretty config_file fs)) [
        | inr (c, found) ↦ rw (load_config-found c fs found) (load_config-found c fs found)
        | inl missing ↦
            rw (load_config-missing fs missing)
              (elim (Option-cases
                (to_disk disk from_str to_string_pretty chatd.Config.default config_file fs)) [
                  | inl fails ↦ rw fails (load_config-missing fs missing ∙ rw fails refl)
                  | inr (fs', saved) ↦
                      rw saved
                        (load_config-found chatd.Config.default fs' (to_disk-back fs fs' saved))
                ])
      ]

module _ {F : Type 0} (disk : Disk F) (law : IsDisk disk) (from_slice : Bytes → Option (List Ban))
    (to_vec : List Ban → Option Bytes) where
  -- What serde makes of the bytes of the bans is the bans, and they are not empty.
  abbrev pub IsReadBack : List Ban → Type 0
  IsReadBack bans = (t : Bytes) → to_vec bans ≡ some t → (from_slice t ≡ some bans) × (t ≢ [])

  load_bans-back :
      (bans : List Ban) (t : Bytes)
      → from_slice t ≡ some bans
      → t ≢ []
      → unwrap_or (load_bans (some t) false from_slice) [] ≡ bans
  unfolding load_bans
  load_bans-back bans [] h filled = absurd (filled refl)
  load_bans-back bans (c ∷ t) h filled = rw h refl

  load_bans_db-back :
      (name : Text) (ban : Ban) (bans : List Ban) (fs fs' : F)
      → IsReadBack (ban ∷ bans)
      → write_bans disk from_slice to_vec name (ban ∷ bans) fs ≡ some fs'
      → load_bans_db disk from_slice to_vec name fs' ≡ (ban ∷ bans, fs')
  unfolding write_bans load_bans_db
  load_bans_db-back name ban bans fs fs' back h = elim (Option-cases (to_vec (ban ∷ bans))) [
    | inl fails ↦ absurd (cc (rw fails at h))
    | inr (t, written) ↦
        let (same, filled) = back t written in
        rw
          (law.read_back name t fs fs' (rw written at h), load_bans-back (ban ∷ bans) t same filled)
          refl
  ]

  start_server-bans :
      (id₁ id₂ id₃ : Uuid) (config : Config) (fs : F)
      → (start_server disk from_slice to_vec id₁ id₂ id₃ config fs).0.world.server.bans
        ≡ (load_bans_db disk from_slice to_vec config.ban_db fs).0
  unfolding start_server create_default_channels Server.new
  start_server-bans id₁ id₂ id₃ config fs =
      rw
        (
          add_lobby_bans config.use_guest_lobby,
          add_lobby_bans config.use_staff_lobby,
          add_lobby_bans config.use_global_lobby,
        )
        refl

  restart :
      (id₁ id₂ id₃ : Uuid) (config : Config) (bans : List Ban) (fs fs' : F) (ip : IpAddr)
      → IsReadBack bans
      → exists bans ip ≡ true
      → write_bans disk from_slice to_vec config.ban_db bans fs ≡ some fs'
      → exists (start_server disk from_slice to_vec id₁ id₂ id₃ config fs').0.world.server.bans ip
        ≡ true
  unfolding exists
  restart id₁ id₂ id₃ config [] fs fs' ip back banned saved = absurd (cc banned)
  restart id₁ id₂ id₃ config (ban ∷ bans) fs fs' ip back banned saved =
      rw
        (
          start_server-bans id₁ id₂ id₃ config fs',
          load_bans_db-back config.ban_db ban bans fs fs' back saved,
        )
        banned

  -- If the bans of a server can be read back once they are written, and are saved to the file that
  -- the configuration names, then a server that starts from that disk bans whatever was banned.
  pub start_server-keeps_bans :
      (id₁ id₂ id₃ : Uuid) (config : Config) (s : Server) (fs fs' : F) (ip : IpAddr)
      → IsReadBack s.bans
      → ban_exists ip s ≡ true
      → write_bans disk from_slice to_vec config.ban_db s.bans fs ≡ some fs'
      → ban_exists ip (start_server disk from_slice to_vec id₁ id₂ id₃ config fs').0.world.server
        ≡ true
  unfolding ban_exists
  start_server-keeps_bans id₁ id₂ id₃ config s fs fs' ip back banned saved =
      restart id₁ id₂ id₃ config s.bans fs fs' ip back banned saved
