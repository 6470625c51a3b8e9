-- ===== src/Standing/Run.antt =====
-- In every state that the server reaches, clients are what they were granted to be.
use chatd.Base.{
  Bool, true, false, ◌≡◌, refl, sym, some, inl, inr, List, [], ◌∷◌, if_both, Option-cases,
}
use mathlib.Core.Path.{subst}
use chatd.Text.{Text}
use chatd.Dict.{lookup, lookup-insert_self}
use chatd.Message.{Uuid, IpAddr, Message, MessageType}
use chatd.Client.{Client, ClientType, ClientStatus, is_pending, set_status}
use chatd.Client
use chatd.Channel.{Channel}
use chatd.Ban.{Ban}
use chatd.Config.{Config}
use chatd.Effect.{Env}
use chatd.Server.{
  Server, put_client, add_client, get_client_ref, ban_exists, create_default_channels, add_lobby,
  add_channel, put_channel,
}
use chatd.Server
use chatd.World.{World, Outcome, world_of, modify}
use chatd.Commands.AuthAgent.{AuthFinder}
use chatd.Session.Dispatch.{touch, post_auth, handle_client_command, receive}
use chatd.Session.Machine.{Machine, Event, accept, open_client, waits, drop, after, step, run}
use chatd.Coherence.Run.{start}
use chatd.Standing.{
  StandsAs, Stays, LeavesStays, write-Stays, same_clients-Persists, same_clients-Stays, Stays-trans,
}
use chatd.Standing.Leaving.{handle_client_error-Stays, check_client_pings-Stays}
use chatd.Standing.Commands.{post_auth-LeavesStays}
use chatd.Standing.Granted.{
  Grants, IsGranted, IsWarranted, put-IsWarranted, Persists-IsWarranted, IsLawful, lawful,
  warranted, Stays-IsLawful,
}
use chatd.Standing.Login.{pre_auth-IsLawful, set_status-StandsAs}

-- What any command of a client that has logged in leaves of the clients: whoever is on the server
-- afterwards was there before, under the same id, with the same name, type, permissions, address
-- and time of connection.
pub post_auth-keeps_standing :
    (e : Env) (config : Config) (me : Client) (target : Uuid) (type : MessageType) (w : World)
    (u : Uuid) (d : Client)
    → lookup me.id w.server.clients ≡ some me
    → lookup u (world_of (post_auth e config me target type w)).server.clients ≡ some d
    → (c : Client) × (lookup u w.server.clients ≡ some c) × StandsAs c d
unfolding LeavesStays Stays
post_auth-keeps_standing e config me target type w u d found there =
    (post_auth-LeavesStays e config me target type w found).at u d there

pub touch-StandsAs : (e : Env) (c : Client) → StandsAs c (touch e c)
touch-StandsAs e c = record {
  id = refl;
  name = refl;
  type = refl;
  options = refl;
  ip = refl;
  connected = refl;
}

module _ (authfinder : AuthFinder) (config : Config) where
  abbrev Lawful : World → Type 0
  Lawful = IsLawful authfinder config

  handle_client_command-IsLawful :
      (e : Env) (c : Client) (m : Message) (w : World)
      → lookup c.id w.server.clients ≡ some c
      → Lawful w
      → Lawful (world_of (handle_client_command e authfinder config c m w))
  unfolding handle_client_command put_client lookup LeavesStays
  handle_client_command-IsLawful e c m w found v =
      let me = touch e c in
      let touched = modify (put_client me.id me) w in
      let written = write-Stays c.id c me w touched found (touch-StandsAs e c) refl refl in
      let known = Stays-IsLawful authfinder config w touched written v in
      let present : lookup me.id touched.server.clients ≡ some me =
        lookup-insert_self c.id me w.server.clients in
      if_both (λ (o : Outcome). Lawful (world_of o)) (is_pending me) _ _
        (pre_auth-IsLawful e authfinder config me m.type touched present known)
        (Stays-IsLawful authfinder config touched _
          (post_auth-LeavesStays e config me m.target m.type touched present) known)

  receive-IsLawful :
      (e : Env) (m : Message) (w : World)
      → Lawful w
      → Lawful (world_of (receive e authfinder config m w))
  unfolding receive get_client_ref
  receive-IsLawful e m w v = elim (Option-cases (lookup m.source w.server.clients)) [
    | inl h ↦ rw (h, receive) v
    | inr (c, h) ↦
        let same = ((warranted authfinder config w v).at m.source c h).0 in
        rw (h, receive)
          (handle_client_command-IsLawful e c m w
            (subst (λ u. lookup u w.server.clients ≡ some c) (sym same) h) v)
  ]

  accept-IsLawful : (ip : IpAddr) (m : Machine) → Lawful m.world → Lawful (accept ip m).world
  unfolding accept
  accept-IsLawful ip m v =
      if_both (λ (x : Machine). Lawful x.world) (ban_exists ip m.world.server) _ _
        (Stays-IsLawful authfinder config m.world _ (same_clients-Stays m.world _ refl refl) v) v

  open_client-IsLawful :
      (e : Env) (ip : IpAddr) (m : Machine) → Lawful m.world → Lawful (open_client e ip m).world
  unfolding open_client add_client Client.new Grants
  open_client-IsLawful e ip m v =
      if_both (λ (x : Machine). Lawful x.world) (waits ip m.handshakes) _ _
        (lawful authfinder config _ (
          put-IsWarranted authfinder config e.new_v4 _ m.world.server refl refl
            (warranted authfinder config m.world v)))
        v

  drop-IsLawful :
      (e : Env) (u : Uuid) (reason : Text) (w : World) → Lawful w → Lawful (drop e u reason w)
  unfolding drop get_client_ref put_client
  drop-IsLawful e u reason w v = elim (Option-cases (lookup u w.server.clients)) [
    | inl h ↦ rw (h, drop) v
    | inr (c, h) ↦
        let closing = set_status ClientStatus.closing c in
        rw (h, drop)
          (Stays-IsLawful authfinder config w _
            (Stays-trans w _ _
              (write-Stays u c closing w _ h (set_status-StandsAs ClientStatus.closing c) refl refl)
              (handle_client_error-Stays e closing reason _))
            v)
  ]

  after-IsLawful : (m : Machine) (o : Outcome) → Lawful (world_of o) → Lawful (after m o).world
  after-IsLawful m (Outcome.returned w) v = v
  after-IsLawful m (Outcome.panicked w) v = v

  pub step-IsLawful :
      (x : Env × Event) (m : Machine) → Lawful m.world → Lawful (step authfinder config x m).world
  unfolding step
  step-IsLawful (e, Event.connects ip) m v = accept-IsLawful ip m v
  step-IsLawful (e, Event.opens ip) m v = open_client-IsLawful e ip m v
  step-IsLawful (e, Event.fails ip) m v = v
  step-IsLawful (e, Event.commands message) m v =
      let outcome = receive e authfinder config message m.world in
      if_both (λ (x : Machine). Lawful x.world) m.reading (after m outcome) m
        (after-IsLawful m outcome (receive-IsLawful e message m.world v)) v
  step-IsLawful (e, Event.drops u reason) m v = drop-IsLawful e u reason m.world v
  step-IsLawful (e, Event.wakes) m v =
      Stays-IsLawful authfinder config m.world _ (check_client_pings-Stays e m.world) v

  pub run-IsLawful :
      (xs : List (Env × Event)) (m : Machine)
      → Lawful m.world
      → Lawful (run authfinder config xs m).world
  unfolding run
  run-IsLawful [] m v = v
  run-IsLawful (x ∷ xs) m v = run-IsLawful xs (step authfinder config x m) (step-IsLawful x m v)

add_lobby_clients :
    (use_lobby : Bool) (ch : Channel) (s : Server) → (add_lobby use_lobby ch s).clients ≡ s.clients
unfolding add_lobby add_channel put_channel
add_lobby_clients true ch s = refl
add_lobby_clients false ch s = refl

pub add_lobby_bans :
    (use_lobby : Bool) (ch : Channel) (s : Server) → (add_lobby use_lobby ch s).bans ≡ s.bans
unfolding add_lobby add_channel put_channel
add_lobby_bans true ch s = refl
add_lobby_bans false ch s = refl

pub start-IsWarranted :
    (authfinder : AuthFinder) (config : Config) (id₁ id₂ id₃ : Uuid) (bans : List Ban)
    (m₁ m₂ m₃ : Text)
    → IsWarranted authfinder config (start id₁ id₂ id₃ bans m₁ m₂ m₃ config).world.server
unfolding create_default_channels Server.new lookup
start-IsWarranted authfinder config id₁ id₂ id₃ bans m₁ m₂ m₃ =
    Persists-IsWarranted authfinder config (Server.new bans m₁ m₂ m₃ config) _
      (same_clients-Persists _ _
        (rw
          (
            add_lobby_clients config.use_guest_lobby,
            add_lobby_clients config.use_staff_lobby,
            add_lobby_clients config.use_global_lobby,
          )
          refl)
        (rw
          (
            add_lobby_bans config.use_guest_lobby,
            add_lobby_bans config.use_staff_lobby,
            add_lobby_bans config.use_global_lobby,
          )
          refl))
      (record { at = λ u c h. absurd (cc h) })

-- In every state that the server reaches from its start, whatever connects, is sent, fails or is
-- timed out: each client is under its own id. An agent has the permissions of an entry that the
-- user database gives for some name and password; a guest is there only if guests are allowed, and
-- has the permissions that the configuration gives them; a client that has not logged in has those
-- of a connection; no client is a contact. Agents and guests have a name of 3 to 30 letters,
-- digits, blanks and dashes.
pub run-IsGranted :
    (authfinder : AuthFinder) (config : Config) (id₁ id₂ id₃ : Uuid) (bans : List Ban)
    (m₁ m₂ m₃ : Text) (xs : List (Env × Event)) (u : Uuid) (c : Client)
    → lookup u
        (run authfinder config xs (start id₁ id₂ id₃ bans m₁ m₂ m₃ config)).world.server.clients
      ≡ some c
    → (c.id ≡ u) × IsGranted authfinder config c
run-IsGranted authfinder config id₁ id₂ id₃ bans m₁ m₂ m₃ xs u c there =
    (warranted authfinder config _ (
        run-IsLawful authfinder config xs _ (
          lawful authfinder config _
            (start-IsWarranted authfinder config id₁ id₂ id₃ bans m₁ m₂ m₃)))).at
      u c there
