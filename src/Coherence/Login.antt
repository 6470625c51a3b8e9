-- ===== src/Coherence/Login.antt =====
-- The logins, and what a client that has not logged in may do, keep the invariant.
use chatd.Base.{
  ℕ, Bool, true, false, ◌≡◌, refl, Option, some, inl, inr, arith, ◌==◌, not, if_both, Option-cases,
  is_some, length,
}
use mathlib.Core.Path.{subst}
use chatd.Text.{Text}
use chatd.Dict.{lookup, lookup-insert_self}
use chatd.Message.{MessageType}
use chatd.Client.{Client, ClientType, ClientStatus, is_pending, set_name, set_status}
use chatd.Channel.{Channel}
use chatd.Config.{Config}
use chatd.Effect.{Env}
use chatd.Server.{Server, put_client, client_name_to_uuid}
use chatd.World.{World, modify}
use chatd.Commands.Lobby.{enter_lobby, shows}
use chatd.Commands.AuthAgent.{AuthFinder, log_in, welcome, count_guest, admit_agent, auth_agent}
use chatd.Session.Login.{guest_name, admit_guest, auth_guest, bad_request, pre_auth}
use chatd.Coherence.{IsCoherent, IsSound, sound, coherent, keep, if_IsSound}
use chatd.Coherence.Maps.{
  IsAbsent, put_absent-IsCoherent, pending-IsAbsent, remove_client-IsCoherent, same_maps-IsCoherent,
}
use chatd.Coherence.Removing.{remove-put_client, handle_client_error-IsSound}
use chatd.Coherence.Entering.{enter_lobby_lem}

-- The client `me` is in the map and has not logged in.
pub record IsWaiting (me : Client) (s : Server) : Type 0 where
  pub found : lookup me.id s.clients ≡ some me
  pub pending : is_pending me ≡ true

-- A client that waits may be written over by any with its id that does not wait.
replace-IsCoherent :
    (me c : Client) (s : Server)
    → IsCoherent s
    → IsWaiting me s
    → c.id ≡ me.id
    → is_pending c ≡ false
    → IsCoherent (put_client me.id c s)
replace-IsCoherent me c s v here same ready =
    put_absent-IsCoherent me.id c s v same (λ k p. absurd (cc (ready, p)))
      (pending-IsAbsent me.id me s v here.found here.pending)

-- The login: the client is stored, welcomed and taken to two lobbies.
module _ (e : Env) (me named : Client) (type : ClientType) (options : ℕ) (first second : Bool)
    (visible : Client → Channel → Bool) (lobby₁ lobby₂ motd title : Text) where
  abbrev logged : Client
  logged = log_in type options named

  welcome_server : (c : Client) (w : World) → (welcome c motd title w).server ≡ w.server
  unfolding welcome
  welcome_server c w = if_both (λ (x : World). x.server ≡ w.server) (length motd == 0) _ _ refl refl

  pub login-IsSound :
      (w : World)
      → IsSound w
      → IsWaiting me w.server
      → named.id ≡ me.id
      → IsSound (
          enter_lobby e second visible lobby₂ logged.id (
            enter_lobby e first shows lobby₁ logged.id (
              welcome logged motd title
                (modify count_guest (modify (put_client logged.id logged) w)))))
  unfolding log_in is_pending put_client
  login-IsSound w v here same =
      let absent : IsAbsent named.id w.server =
        rw same (pending-IsAbsent me.id me w.server (coherent w v) here.found here.pending) in
      let stored =
        put_absent-IsCoherent named.id logged w.server (coherent w v) refl (λ k p. cc) absent in
      let present = modify count_guest (modify (put_client logged.id logged) w) in
      let entering = welcome logged motd title present in
      let counted : IsSound present = sound _ (same_maps-IsCoherent _ _ refl refl stored) in
      let welcomed = keep present entering counted (welcome_server logged present) in
      let found : lookup logged.id entering.server.clients ≡ some logged =
        rw (welcome_server logged present) (lookup-insert_self named.id logged w.server.clients) in
      let inside =
        enter_lobby_lem e shows first lobby₁ logged entering welcomed
          (record { found = found; logged_in = refl }) in
      let entered = enter_lobby e first shows lobby₁ logged.id entering in
      let last = enter_lobby_lem e visible second lobby₂ inside.1.0 entered inside.0 inside.1.2 in
      subst (λ u. IsSound (enter_lobby e second visible lobby₂ u entered)) inside.1.1 last.0

set_name-id : (name : Text) (c : Client) → (set_name name c).0.id ≡ c.id
unfolding set_name
set_name-id name c = ground arith

module _ (e : Env) (config : Config) (me : Client) where
  admit_agent-IsSound :
      (permissions : ℕ) (named : Client) (w : World)
      → IsSound w
      → IsWaiting me w.server
      → named.id ≡ me.id
      → IsSound (admit_agent e config permissions named w)
  unfolding admit_agent
  admit_agent-IsSound permissions named w v here same =
      login-IsSound e me named ClientType.agent permissions config.use_global_lobby
        config.use_staff_lobby _ _ _ _ _ w v here same

  admit_guest-IsSound :
      (named : Client) (w : World)
      → IsSound w
      → IsWaiting me w.server
      → named.id ≡ me.id
      → IsSound (admit_guest e config named w)
  unfolding admit_guest
  admit_guest-IsSound named w v here same =
      login-IsSound e me named ClientType.guest config.default_guest_options config.use_global_lobby
        config.use_guest_lobby _ _ _ _ _ w v here same

  auth_agent-IsSound :
      (authfinder : AuthFinder) (nickname username password : Text) (w : World)
      → IsSound w
      → IsWaiting me w.server
      → IsSound (auth_agent e me authfinder config nickname username password w)
  unfolding auth_agent
  auth_agent-IsSound authfinder nickname username password w v here =
      elim (Option-cases (authfinder.by_username_password username password)) [
        | inl h ↦
            rw (h, auth_agent)
              (sound _ (
                rw (remove-put_client me.id) (
                  remove_client-IsCoherent me.id w.server (coherent w v)
                    (pending-IsAbsent me.id me w.server (coherent w v) here.found here.pending))))
        | inr (userauth, h) ↦
            rw (h, auth_agent)
              (if_IsSound (is_some (client_name_to_uuid nickname w.server)) _ _ (keep w _ v refl) (
                if_IsSound (not (set_name nickname me).1) _ _ (keep w _ v refl) (
                  admit_agent-IsSound userauth.permissions (set_name nickname me).0 w v here
                    (set_name-id nickname me))))
      ]

  auth_guest-IsSound :
      (username : Option Text) (w : World)
      → IsSound w
      → IsWaiting me w.server
      → IsSound (auth_guest e config me username w)
  unfolding auth_guest
  auth_guest-IsSound username w v here =
      let name = guest_name e username in
      if_IsSound (not config.allow_guests) _ _ (keep w _ v refl) (
        if_IsSound (is_some (client_name_to_uuid name w.server)) _ _ (keep w _ v refl) (
          if_IsSound (not (set_name name me).1) _ _ (keep w _ v refl)
            (admit_guest-IsSound (set_name name me).0 w v here (set_name-id name me))))

  bad_request-IsSound :
      (w : World) → IsSound w → IsWaiting me w.server → IsSound (bad_request e me w)
  unfolding bad_request set_status put_client is_pending
  bad_request-IsSound w v here =
      let closing = set_status ClientStatus.closing me in
      handle_client_error-IsSound e closing _ _
        (sound _ (replace-IsCoherent me closing w.server (coherent w v) here refl refl))
        (lookup-insert_self me.id closing w.server.clients)

  pub pre_auth-IsSound :
      (authfinder : AuthFinder) (type : MessageType) (w : World)
      → IsSound w
      → IsWaiting me w.server
      → IsSound (pre_auth e authfinder config me type w)
  unfolding pre_auth
  pre_auth-IsSound authfinder (MessageType.auth_guest username) w v here =
      auth_guest-IsSound username w v here
  pre_auth-IsSound authfinder (MessageType.auth_device deviceid username) w v here = v
  pre_auth-IsSound authfinder (MessageType.auth_agent nickname username password) w v here =
      auth_agent-IsSound authfinder nickname username password w v here
  pre_auth-IsSound authfinder _ w v here = bad_request-IsSound w v here
