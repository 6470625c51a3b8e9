-- ===== src/Standing/Following.antt =====
-- The logins too let nobody in, move nobody and lift no ban.
use chatd.Base.{
  Bool, true, ◌≡◌, refl, sym, ◌∙◌, Option, some, inl, inr, arith, ◌==◌, not, if_both, Option-cases,
  is_some, length,
}
use mathlib.Core.Path.{subst}
use chatd.Text.{Text}
use chatd.Dict.{lookup, lookup-insert_inv}
use chatd.Message.{Uuid, IpAddr, MessageType}
use chatd.Client.{Client, ClientType, ClientStatus, set_name, set_status}
use chatd.Channel.{Channel}
use chatd.Ban.{exists}
use chatd.Config.{Config}
use chatd.Effect.{Env}
use chatd.Server.{put_client, client_name_to_uuid}
use chatd.World.{World, modify}
use chatd.Commands.Lobby.{enter_lobby, shows}
use chatd.Commands.AuthAgent.{AuthFinder, log_in, welcome, count_guest, admit_agent, auth_agent}
use chatd.Session.Login.{guest_name, admit_guest, auth_guest, bad_request, pre_auth}
use chatd.Coherence.Removing.{remove-put_client}
use chatd.Standing.{
  Stays, persists, stays, write-Stays, same_clients-Stays, Stays-trans, remove_client-Persists,
}
use chatd.Standing.Leaving.{handle_client_error-Stays}
use chatd.Standing.Login.{HasIds, Stays-HasIds, enter_lobby-Stays, set_status-StandsAs}

-- From `w` to `x` no client has come, those that are left have their ids and addresses, and no ban
-- is lifted. A login does this, although it does not leave its client as it stands.
unfoldable pub Follows : World → World → Type 0
Follows w x =
    ((u : Uuid) (d : Client)
      → lookup u x.server.clients ≡ some d
      → (c : Client) × (lookup u w.server.clients ≡ some c) × (d.id ≡ c.id) × (d.ip ≡ c.ip))
    × ((ip : IpAddr) → exists w.server.bans ip ≡ true → exists x.server.bans ip ≡ true)

pub Stays-Follows : (w x : World) → Stays w x → Follows w x
unfolding Follows
Stays-Follows w x p =
    let q = persists w x p in
    (λ u d h. let (c, g, same) = q.at u d h in (c, g, same.id, same.ip), q.bans)

pub Follows-trans : (w x y : World) → Follows w x → Follows x y → Follows w y
unfolding Follows
Follows-trans w x y p q = (
  λ u d h.
      let (c, g, id, ip) = q.0 u d h in
      let (b, f, id', ip') = p.0 u c g in (b, f, id ∙ id', ip ∙ ip'),
  λ ip h. q.1 ip (p.1 ip h),
)

pub same_clients-Follows :
    (w x : World)
    → x.server.clients ≡ w.server.clients
    → x.server.bans ≡ w.server.bans
    → Follows w x
same_clients-Follows w x p q = Stays-Follows w x (same_clients-Stays w x p q)

write-Follows :
    (old c : Client) (w : World)
    → lookup old.id w.server.clients ≡ some old
    → c.id ≡ old.id
    → c.ip ≡ old.ip
    → Follows w (modify (put_client c.id c) w)
unfolding Follows put_client
write-Follows old c w found id ip = (
  λ u d h. elim (lookup-insert_inv c.id u c d w.server.clients h) [
    | inl (p, q) ↦ (
      old,
      subst (λ j. lookup j w.server.clients ≡ some old) (sym id ∙ p) found,
      rw (← q) id,
      rw (← q) ip,
    )
    | inr (p, q) ↦ (d, q, refl, refl)
  ],
  λ a h. h,
)

write-HasIds : (c : Client) (w : World) → HasIds w → HasIds (modify (put_client c.id c) w)
unfolding put_client
write-HasIds c w ids u d h = elim (lookup-insert_inv c.id u c d w.server.clients h) [
  | inl (p, q) ↦ rw (← q) p
  | inr (p, q) ↦ ids u d q
]

set_name_same :
    (name : Text) (c : Client) → ((set_name name c).0.id ≡ c.id) × ((set_name name c).0.ip ≡ c.ip)
unfolding set_name
set_name_same name c = ground arith

module _ (e : Env) (config : Config) (me : Client) (w : World)
    (found : lookup me.id w.server.clients ≡ some me) (ids : HasIds w) where
  welcome-Stays : (c : Client) (motd title : Text) (x : World) → Stays x (welcome c motd title x)
  unfolding welcome
  welcome-Stays c motd title x =
      if_both (Stays x) (length motd == 0) _ _ (same_clients-Stays _ _ refl refl)
        (same_clients-Stays _ _ refl refl)

  login-Follows :
      (c : Client) (first second : Bool) (visible : Client → Channel → Bool)
      (lobby₁ lobby₂ motd title : Text)
      → c.id ≡ me.id
      → c.ip ≡ me.ip
      → Follows w (
          enter_lobby e second visible lobby₂ c.id (
            enter_lobby e first shows lobby₁ c.id
              (welcome c motd title (modify count_guest (modify (put_client c.id c) w)))))
  login-Follows c first second visible lobby₁ lobby₂ motd title id ip =
      let stored = modify (put_client c.id c) w in
      let counted = modify count_guest stored in
      let greeted = welcome c motd title counted in
      let inside = enter_lobby e first shows lobby₁ c.id greeted in
      let greeting =
        Stays-trans stored counted greeted (same_clients-Stays _ _ refl refl)
          (welcome-Stays c motd title counted) in
      let known = Stays-HasIds stored greeted greeting (write-HasIds c w ids) in
      let entering = enter_lobby-Stays e first shows lobby₁ c.id greeted known in
      Follows-trans w stored _ (write-Follows me c w found id ip) (
        Stays-Follows stored _ (
          Stays-trans _ _ _ (Stays-trans _ _ _ greeting entering) (
            enter_lobby-Stays e second visible lobby₂ c.id inside
              (Stays-HasIds greeted inside entering known))))

  refused-Follows : (x : World) → x.server ≡ w.server → Follows w x
  refused-Follows x same = same_clients-Follows w x (rw same refl) (rw same refl)

  auth_agent-Follows :
      (authfinder : AuthFinder) (nickname username password : Text)
      → Follows w (auth_agent e me authfinder config nickname username password w)
  unfolding auth_agent admit_agent log_in
  auth_agent-Follows authfinder nickname username password =
      elim (Option-cases (authfinder.by_username_password username password)) [
        | inl h ↦
            rw (h, auth_agent)
              (Stays-Follows w _
                (stays _ _ (rw (remove-put_client me.id) (remove_client-Persists me.id w.server))))
        | inr (entry, h) ↦
            let named = set_name_same nickname me in
            rw (h, auth_agent)
              (if_both (Follows w) (is_some (client_name_to_uuid nickname w.server)) _ _
                (refused-Follows _ refl)
                (if_both (Follows w) (not (set_name nickname me).1) _ _ (refused-Follows _ refl) (
                  login-Follows (log_in ClientType.agent entry.permissions (set_name nickname me).0)
                    config.use_global_lobby config.use_staff_lobby _ _ _ _ _ named.0 named.1)))
      ]

  auth_guest-Follows : (username : Option Text) → Follows w (auth_guest e config me username w)
  unfolding auth_guest admit_guest log_in
  auth_guest-Follows username =
      let name = guest_name e username in
      let named = set_name_same name me in
      if_both (Follows w) (not config.allow_guests) _ _ (refused-Follows _ refl) (
        if_both (Follows w) (is_some (client_name_to_uuid name w.server)) _ _
          (refused-Follows _ refl)
          (if_both (Follows w) (not (set_name name me).1) _ _ (refused-Follows _ refl) (
            login-Follows
              (log_in ClientType.guest config.default_guest_options (set_name name me).0)
              config.use_global_lobby config.use_guest_lobby _ _ _ _ _ named.0 named.1)))

  bad_request-Stays : Stays w (bad_request e me w)
  unfolding bad_request put_client
  bad_request-Stays =
      let closing = set_status ClientStatus.closing me in
      Stays-trans w _ _
        (write-Stays me.id me closing w _ found (set_status-StandsAs ClientStatus.closing me) refl
          refl)
        (handle_client_error-Stays e closing _ _)

  pub pre_auth-Follows :
      (authfinder : AuthFinder) (type : MessageType)
      → Follows w (pre_auth e authfinder config me type w)
  unfolding pre_auth
  pre_auth-Follows authfinder (MessageType.auth_guest username) = auth_guest-Follows username
  pre_auth-Follows authfinder (MessageType.auth_device deviceid username) = refused-Follows w refl
  pre_auth-Follows authfinder (MessageType.auth_agent nickname username password) =
      auth_agent-Follows authfinder nickname username password
  pre_auth-Follows authfinder _ = Stays-Follows w _ bad_request-Stays
