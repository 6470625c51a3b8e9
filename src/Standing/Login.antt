-- ===== src/Standing/Login.antt =====
-- Only a login gives a client a type, a name and permissions, and only what it is granted.
use chatd.Base.{
  Bool, true, false, ◌≡◌, refl, ◌∙◌, Option, some, inl, inr, arith, ◌==◌, not, if_both, if_known,
  sym, Option-cases, Bool-cases, is_some, length,
}
use mathlib.Core.Path.{subst}
use chatd.Text.{Text, is_match}
use chatd.Dict.{lookup}
use chatd.Message.{Uuid, MessageType}
use chatd.Client.{Client, ClientType, ClientStatus, set_name, set_status, add_channel}
use chatd.Channel.{Channel}
use chatd.Config.{Config}
use chatd.Effect.{Env}
use chatd.Server.{
  put_client, put_channel, client_name_to_uuid, get_channel_ref, get_channel_by_name,
}
use chatd.World.{World, modify}
use chatd.Commands.Lobby.{enter, enter_lobby, shows}
use chatd.Commands.AuthAgent.{AuthFinder, log_in, welcome, count_guest, admit_agent, auth_agent}
use chatd.Session.Login.{guest_name, admit_guest, auth_guest, bad_request, pre_auth}
use chatd.Coherence.Removing.{remove-put_client}
use chatd.Standing.{
  StandsAs, Stays, persists, write-Stays, same_clients-Stays, Stays-trans, stays,
  remove_client-Persists,
}
use chatd.Standing.Commands.{add_channel-StandsAs}
use chatd.Standing.Leaving.{handle_client_error-Stays}
use chatd.Standing.Granted.{
  Grants, IsGranted, put-IsWarranted, IsLawful, lawful, warranted, Stays-IsLawful,
}

enter-Stays :
    (e : Env) (visible : Client → Channel → Bool) (k : Uuid) (ch : Channel) (c : Client) (w : World)
    → lookup c.id w.server.clients ≡ some c
    → Stays w (enter e visible k ch c w)
unfolding enter put_client put_channel
enter-Stays e visible k ch c w found =
    write-Stays c.id c (add_channel ch.id ch.name c) w _ found
      (add_channel-StandsAs ch.id ch.name c) refl refl

-- Every client is under its own id.
abbrev pub HasIds : World → Type 0
HasIds w = (u : Uuid) (c : Client) → lookup u w.server.clients ≡ some c → c.id ≡ u

pub Stays-HasIds : (w x : World) → Stays w x → HasIds w → HasIds x
Stays-HasIds w x p ids u d h = let (c, g, same) = (persists w x p).at u d h in same.id ∙ ids u c g

pub enter_lobby-Stays :
    (e : Env) (use_lobby : Bool) (visible : Client → Channel → Bool) (name : Text) (id : Uuid)
    (w : World)
    → HasIds w
    → Stays w (enter_lobby e use_lobby visible name id w)
unfolding enter_lobby get_channel_ref
enter_lobby-Stays e false visible name id w ids = same_clients-Stays w w refl refl
enter_lobby-Stays e true visible name id w ids =
    let same = same_clients-Stays w w refl refl in
    elim (Option-cases (get_channel_by_name name w.server)) [
      | inl h ↦ rw (h, enter_lobby) same
      | inr (k, h) ↦ elim (Option-cases (lookup k w.server.channels)) [
        | inl g ↦ rw (h, g, enter_lobby) same
        | inr (ch, g) ↦ elim (Option-cases (lookup id w.server.clients)) [
          | inl f ↦ rw (h, g, f, enter_lobby) same
          | inr (c, f) ↦
              rw (h, g, f, enter_lobby)
                (enter-Stays e visible k ch c w
                  (subst (λ j. lookup j w.server.clients ≡ some c) (sym (ids id c f)) f))
        ]
      ]
    ]

pub set_status-StandsAs : (status : ClientStatus) (c : Client) → StandsAs c (set_status status c)
unfolding set_status
set_status-StandsAs status c = ground arith

-- A name that is taken over is a name, and nothing else changes.
set_name_lem :
    (name : Text) (c : Client)
    → (set_name name c).1 ≡ true
    → ((set_name name c).0.id ≡ c.id) × (is_match 3 30 (set_name name c).0.name ≡ true)
unfolding set_name
set_name_lem name c h = ground arith

module _ (e : Env) (authfinder : AuthFinder) (config : Config) where
  abbrev Lawful : World → Type 0
  Lawful = IsLawful authfinder config

  enter_lobby-IsLawful :
      (use_lobby : Bool) (visible : Client → Channel → Bool) (name : Text) (id : Uuid) (w : World)
      → Lawful w
      → Lawful (enter_lobby e use_lobby visible name id w)
  enter_lobby-IsLawful use_lobby visible name id w v =
      Stays-IsLawful authfinder config w _
        (enter_lobby-Stays e use_lobby visible name id w
          λ u c h. ((warranted authfinder config w v).at u c h).0)
        v

  -- The login: the client is stored, welcomed and taken to two lobbies.
  login-IsLawful :
      (c : Client) (first second : Bool) (visible : Client → Channel → Bool)
      (lobby₁ lobby₂ motd title : Text) (w : World)
      → IsGranted authfinder config c
      → Lawful w
      → Lawful (
          enter_lobby e second visible lobby₂ c.id (
            enter_lobby e first shows lobby₁ c.id
              (welcome c motd title (modify count_guest (modify (put_client c.id c) w)))))
  unfolding welcome
  login-IsLawful c first second visible lobby₁ lobby₂ motd title w granted v =
      let stored = modify (put_client c.id c) w in
      let known : Lawful stored = lawful authfinder config stored (
        put-IsWarranted authfinder config c.id c w.server refl granted
          (warranted authfinder config w v)) in
      let counted =
        Stays-IsLawful authfinder config stored (modify count_guest stored)
          (same_clients-Stays _ _ refl refl) known in
      enter_lobby-IsLawful second visible lobby₂ c.id _ (
        enter_lobby-IsLawful first shows lobby₁ c.id _ (
          if_both Lawful (length motd == 0) _ _
            (Stays-IsLawful authfinder config _ _ (same_clients-Stays _ _ refl refl) counted)
            (Stays-IsLawful authfinder config _ _ (same_clients-Stays _ _ refl refl) counted)))

  same_clients-IsLawful :
      (w x : World)
      → Lawful w
      → x.server.clients ≡ w.server.clients
      → x.server.bans ≡ w.server.bans
      → Lawful x
  same_clients-IsLawful w x v same bans =
      Stays-IsLawful authfinder config w x (same_clients-Stays w x same bans) v

  module _ (me : Client) where
    auth_agent-IsLawful :
        (nickname username password : Text) (w : World)
        → Lawful w
        → Lawful (auth_agent e me authfinder config nickname username password w)
    unfolding auth_agent admit_agent log_in Grants
    auth_agent-IsLawful nickname username password w v =
        elim (Option-cases (authfinder.by_username_password username password)) [
          | inl h ↦
              rw (h, auth_agent)
                (Stays-IsLawful authfinder config w _
                  (stays _ _ (rw (remove-put_client me.id) (remove_client-Persists me.id w.server)))
                  v)
          | inr (entry, h) ↦ elim (Bool-cases (set_name nickname me).1) [
            | inr bad ↦
                rw (h, auth_agent, bad)
                  (if_both Lawful (is_some (client_name_to_uuid nickname w.server)) _ _
                    (same_clients-IsLawful w _ v refl refl) (same_clients-IsLawful w _ v refl refl))
            | inl good ↦
                rw (h, auth_agent, good)
                  (if_both Lawful (is_some (client_name_to_uuid nickname w.server)) _ _
                    (same_clients-IsLawful w _ v refl refl)
                    (login-IsLawful
                      (log_in ClientType.agent entry.permissions (set_name nickname me).0)
                      config.use_global_lobby config.use_staff_lobby _ _ _ _ _ w
                      ((username, password, entry, h, refl), (set_name_lem nickname me good).1) v))
          ]
        ]

    auth_guest-IsLawful :
        (username : Option Text) (w : World) → Lawful w → Lawful (auth_guest e config me username w)
    unfolding auth_guest admit_guest log_in Grants
    auth_guest-IsLawful username w v =
        let name = guest_name e username in
        let named = set_name name me in
        let refused = λ (x : World). same_clients-IsLawful w x v in
        if_known Lawful (not config.allow_guests) _ _ (λ closed. refused _ refl refl)
          λ allowed.
            if_both Lawful (is_some (client_name_to_uuid name w.server)) _ _ (refused _ refl refl) (
              if_known Lawful (not named.1) _ _ (λ bad. refused _ refl refl)
                λ good.
                  login-IsLawful (log_in ClientType.guest config.default_guest_options named.0)
                    config.use_global_lobby config.use_guest_lobby _ _ _ _ _ w
                    (ground arith, refl, (set_name_lem name me (ground arith)).1) v)

    bad_request-IsLawful :
        (w : World)
        → lookup me.id w.server.clients ≡ some me
        → Lawful w
        → Lawful (bad_request e me w)
    unfolding bad_request put_client
    bad_request-IsLawful w found v =
        let closing = set_status ClientStatus.closing me in
        Stays-IsLawful authfinder config w _
          (Stays-trans w _ _
            (write-Stays me.id me closing w _ found (set_status-StandsAs ClientStatus.closing me)
              refl refl)
            (handle_client_error-Stays e closing _ _))
          v

    pub pre_auth-IsLawful :
        (type : MessageType) (w : World)
        → lookup me.id w.server.clients ≡ some me
        → Lawful w
        → Lawful (pre_auth e authfinder config me type w)
    unfolding pre_auth
    pre_auth-IsLawful (MessageType.auth_guest username) w found v = auth_guest-IsLawful username w v
    pre_auth-IsLawful (MessageType.auth_device deviceid username) w found v = v
    pre_auth-IsLawful (MessageType.auth_agent nickname username password) w found v =
        auth_agent-IsLawful nickname username password w v
    pre_auth-IsLawful _ w found v = bad_request-IsLawful w found v
